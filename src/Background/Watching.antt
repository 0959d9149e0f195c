-- ===== src/Background/Watching.antt =====
-- src/tasks.rs, `seen_through` and what it asks the server: a task that was started is polled to its
-- end. The loop of the source has no bound of its own; here it makes `fuel` polls at most, and `still`
-- says that they did not suffice. The sleep between two polls is `poll_interval`.
pub mod Ends
pub mod Marked
pub mod States
use mcpdial.Base.{
  Str, Bool, true, false, Option, none, some, List, [], ◌∷◌, ℕ, zero, suc, if◌then◌else◌, codes,
  str_eq, is_some,
}
use mcpdial.Json.{
  set_index, Value, null, bool, str, arr, cons, nil, obj, Fields, end, field, insert, get, lookup,
}
use mcpdial.Protocol.Errors.{Error, Result, ok, err, transport, task_wants_input}
use mcpdial.Session.{Transport, Session, ask, request_watching}
use mcpdial.Config.Files.{File}
use mcpdial.Config.Notes.{Tasks, forget_tasks}
use mcpdial.Background.Facts.{status_of, is_terminal, ended_without_a_result}

-- What the loop makes of a state: it is over, the task waits for input, or another poll is due.
pub data Look : Type 0 where
  over : Look
  asking : Look
  running : Look

unfoldable pub look : Value → Look
unfolding is_terminal status_of
look state =
    if is_terminal state
    then over
    else if str_eq (status_of state) (codes "input_required")
    then asking
    else running

pub data Watched : Type 0 where
  ended : (state : Value) → Watched
  wants_input : Watched
  lost : Error → Watched
  still : (state : Value) → Watched

-- What watching a task ends in: its result; an error; a panic, where the result is marked and cannot
-- be; or the polls ran out.
pub data Seen : Type 0 where
  seen : (result : Value) → Seen
  failed : Error → Seen
  panicked : Seen
  unfinished : Seen

abbrev pub task_params : Str → Value
task_params id = obj (field (codes "taskId") (str id) end)

abbrev pub text_block : Str → Value
text_block text = arr (
    cons (obj (field (codes "text") (str text) (field (codes "type") (str (codes "text")) end)))
      nil)

abbrev pub with_content : Value → Value → Seen
with_content state (obj fs) =
    if is_some (lookup (codes "content") fs)
    then seen (obj fs)
    else seen (obj (insert (codes "content") (text_block (ended_without_a_result state)) fs))
with_content state result = seen result

abbrev pub marked : Value → Option Value → Seen
marked state none = panicked
marked state (some result) = with_content state result

-- A task that the server gave up on is a failed call, whatever its result says.
unfoldable pub ended_result : Value → Value → Seen
unfolding status_of ended_without_a_result
ended_result state result =
    if str_eq (status_of state) (codes "completed")
    then seen result
    else marked state (set_index (codes "isError") (bool true) result)

abbrev pub result_seen : Value → Result Value → Seen
result_seen state (err e) = failed e
result_seen state (ok result) = ended_result state result

module _ {S : Type 0} where
  abbrev pub polled :
      (Session S → Value → Session S × Watched) → Session S × Result Value → Session S × Watched
  polled go_on (s, err e) = (s, lost e)
  polled go_on (s, ok state) = go_on s state

  abbrev pub turn : (Session S × Watched) → Session S → Value → Look → Session S × Watched
  turn next s state over = (s, ended state)
  turn next s state asking = (s, wants_input)
  turn next s state running = next

module _ {S : Type 0} (T : Transport S) (id : Str) where
  -- `Session::get_task`, `Session::task_result` and `Session::cancel_task`.
  unfoldable pub get_task : Session S → Session S × Result Value
  get_task s = ask T s (codes "tasks/get") (some (task_params id))

  unfoldable pub task_result : Bool → Session S → Session S × Result Value
  task_result progress s =
      request_watching T s (codes "tasks/result") (some (task_params id)) progress

  unfoldable pub cancel_task : Session S → Session S × Result Value
  cancel_task s = ask T s (codes "tasks/cancel") (some (task_params id))

  unfoldable pub watch : ℕ → Session S → Value → Session S × Watched
  unfolding get_task look
  watch zero s state = turn (s, still state) s state (look state)
  watch (suc fuel) s state =
      turn (polled (λ t next. watch fuel t next) (get_task s)) s state (look state)

  -- What follows the loop.
  abbrev pub fetched_result :
      ℕ → Str → File Tasks → Value → Session S × Result Value → (Session S × File Tasks) × Seen
  fetched_result at_ name notes state (s, r) =
      ((s, (forget_tasks at_ name (id ∷ []) notes).0), result_seen state r)

  abbrev pub after_watching :
      Bool → ℕ → Str → File Tasks → Session S × Watched → (Session S × File Tasks) × Seen
  after_watching progress at_ name notes (s, ended state) =
      fetched_result at_ name notes state (task_result progress s)
  after_watching progress at_ name notes (s, wants_input) =
      ((s, notes), failed (transport (task_wants_input id)))
  after_watching progress at_ name notes (s, lost e) = ((s, notes), failed e)
  after_watching progress at_ name notes (s, still state) = ((s, notes), unfinished)

  -- `seen_through`, at a time, for the server `name`; the result is asked for with a progress token
  -- where the caller watches for progress.
  unfoldable pub seen_through :
      ℕ → Bool → ℕ → Str → File Tasks → Session S → Value → (Session S × File Tasks) × Seen
  unfolding watch task_result forget_tasks ended_result
  seen_through fuel progress at_ name notes s started =
      after_watching progress at_ name notes (watch fuel s started)
