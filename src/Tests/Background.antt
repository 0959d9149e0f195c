-- ===== src/Tests/Background.antt =====
-- The theorems about src/tasks.rs at concrete inputs.
use mcpdial.Base.{
  ℕ, ◌≤◌, inl, inr, str_eq-false, ◌↔◌, false, none, [], ◌∷◌, Str, codes, ◌≡◌, refl, arith, str_eq,
  if◌then◌else◌,
}
use mcpdial.Json.{Value, null, str, obj, field, end, Fields, lookup}
use mcpdial.Protocol.Errors.{ok, err, rpc, invalid_params}
use mcpdial.Session.{Session, fresh, request_watching, send, rounds, asked_for_input}
use mcpdial.Protocol.Incoming.{check}
use mcpdial.Protocol.Meta.{input_required}
use mcpdial.Protocol.Version.{is_modern}
use mcpdial.Config.Servers.{default_config}
use mcpdial.Config.Files.{File}
use mcpdial.Config.Notes.{Tasks, tasks, tasks_of, unexpired}
use mcpdial.Config.Notes.Forgotten.{without}
use mcpdial.Background.Watching.{task_result, ended, seen, watch, seen_through}
use mcpdial.Background.Watching.Ends.{
  Run, poll, at_end, watch-Run, watch-stops_iff, IsStop, seen_through-ended,
}
use mcpdial.Background.Watching.States.{GoesOn}
use mcpdial.Background.Watching.Marked.{ended_field}
use mcpdial.Background.Running.{Connection}
use mcpdial.Background.Listing.{fetched}
use mcpdial.Background.Listing.Known.{is_gone, tasks-fetched}
use mcpdial.Tests.Session.{Scripted, scripted, replying}
use mcpdial.Tests.Config.{two_tasks, task_file}

abbrev at_status : Str → Value
at_status status = obj (field (codes "status") (str status) end)

-- A task that fails at the second poll, and whose result is then asked for.
abbrev working_task : Session Scripted
working_task = fresh (
    replying (at_status (codes "working"))
    ∷ replying (at_status (codes "failed"))
    ∷ replying (obj end)
    ∷ [])

abbrev polled_once : Session Scripted
polled_once = record working_task {
  carrier = replying (at_status (codes "failed")) ∷ replying (obj end) ∷ [];
  next_id = 1;
}

abbrev failed_task : Session Scripted
failed_task = record working_task { carrier = replying (obj end) ∷ []; next_id = 2 }

abbrev result_read : Session Scripted
result_read = record working_task { carrier = []; next_id = 3 }

working_on : GoesOn (at_status (codes "working"))
unfolding lookup str_eq
working_on = (
  λ h. elim h [
    | inl e ↦ str_eq-false (codes "working") (codes "completed") refl e
    | inr g ↦ elim g [
      | inl e ↦ str_eq-false (codes "working") (codes "failed") refl e
      | inr e ↦ str_eq-false (codes "working") (codes "cancelled") refl e
    ]
  ],
  λ e. str_eq-false (codes "working") (codes "input_required") refl e,
)

two_polls :
    Run scripted
      (codes "t1")
      2
      working_task
      (at_status (codes "working"))
      failed_task
      (ended (at_status (codes "failed")))
unfolding request_watching send rounds asked_for_input lookup str_eq check is_modern input_required
two_polls = poll {t = polled_once} {next = at_status (codes "working")} working_on refl (
    poll {t = failed_task} {next = at_status (codes "failed")} working_on refl
      (at_end (inr (inl refl))))

watch-stops_iff_example :
    ((watch scripted (codes "t1") 2 working_task (at_status (codes "working"))
        ≡ (failed_task, ended (at_status (codes "failed"))))
      × IsStop scripted (codes "t1") (ended (at_status (codes "failed"))))
    ↔ ((n : ℕ) × (n ≤ 2)
        × Run scripted
            (codes "t1")
            n
            working_task
            (at_status (codes "working"))
            failed_task
            (ended (at_status (codes "failed"))))
watch-stops_iff_example =
    watch-stops_iff scripted (codes "t1") 2 working_task failed_task (at_status (codes "working"))
      (ended (at_status (codes "failed")))

-- By these two polls.
was_watched :
    watch scripted (codes "t1") 2 working_task (at_status (codes "working"))
    ≡ (failed_task, ended (at_status (codes "failed")))
was_watched = watch-Run scripted (codes "t1") 2 two_polls (omega arith)

was_read : task_result scripted (codes "t1") false failed_task ≡ (result_read, ok (obj end))
unfolding task_result request_watching send rounds asked_for_input lookup str_eq check is_modern
    input_required
was_read = refl

seen_through-ended_example :
    (left : File Tasks) × (gs : Fields) × (seen_through scripted
        (codes "t1")
        2
        false
        120
        (codes "s")
        task_file
        working_task
        (at_status (codes "working"))
      ≡ ((result_read, left), seen (obj gs)))
    × (tasks 120 (codes "s") left
        ≡ ok (without (codes "t1" ∷ []) (unexpired 120 (tasks_of (codes "s") two_tasks))))
    × (lookup (codes "isError") gs ≡ ended_field (at_status (codes "failed")) end (codes "isError"))
seen_through-ended_example =
    seen_through-ended scripted (codes "t1") 2 2 false 120 (codes "s") two_tasks task_file
      working_task failed_task result_read (at_status (codes "working"))
      (at_status (codes "failed")) end (codes "isError") refl refl two_polls (omega arith) was_read

-- A server that no longer knows the task.
abbrev connected : Connection Scripted
connected = record {
  name = codes "s";
  settings = default_config;
  session = fresh (err (rpc invalid_params (codes "no such task") none) ∷ []);
  server_info = null;
  notes = task_file;
}

tasks-fetched_example :
    tasks 120 (codes "s") ((fetched scripted 120 (codes "t1") connected).0).notes
    ≡ ok (
        if is_gone ((fetched scripted 120 (codes "t1") connected).1)
        then without (codes "t1" ∷ []) (unexpired 120 (tasks_of (codes "s") two_tasks))
        else unexpired 120 (tasks_of (codes "s") two_tasks))
tasks-fetched_example = tasks-fetched scripted 120 (codes "t1") connected two_tasks refl refl
