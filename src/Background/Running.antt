-- ===== src/Background/Running.antt =====
-- src/tasks.rs: the commands on tasks, over a connection of src/client.rs.
use mcpdial.Base.{
  Str, Bool, true, false, Option, none, some, List, [], ℕ, ◌/◌, if◌then◌else◌, codes, unwrap_or,
  not, ◌&&◌, ◌||◌, is_some, int_eq, pos,
}
use mcpdial.Json.{Value, num, int, str, obj, end, field}
use mcpdial.Protocol.Version.{KnownVersion, v2025_11_25}
use mcpdial.Protocol.Errors.{
  Error, rpc, usage, transport, Result, ok, err, method_not_found, task_without_id, no_tasks_here,
  detached_from_child,
}
use mcpdial.Session.{Transport, Session, ask, request_watching}
use mcpdial.Session.Pages.{list_paginated}
use mcpdial.Config.Servers.{ServerConfig}
use mcpdial.Config.Files.{File}
use mcpdial.Config.Notes.{TaskRecord, Tasks, remember_task}
use mcpdial.Background.Facts.{
  Plan, now, wait, detach, id_of, agreed_ttl, offers_tasks, insists_on_a_task,
}
use mcpdial.Background.Watching.{Seen, seen, seen_through}
use mcpdial.Client.Tools.{permitted_tools}

-- What `client::Connection` and the store hold of it.
pub record Connection (S : Type 0) : Type 0 where
  pub name : Str
  pub settings : ServerConfig
  pub session : Session S
  pub server_info : Value
  pub notes : File Tasks

-- What a call ends in.
pub data Outcome : Type 0 where
  result : Seen → Outcome
  detached : (task : Value) → Outcome
  refused : Error → Outcome

-- `call_tool_as_task`: its parameters, with the ttl in milliseconds.
abbrev pub task_call : Str → Value → ℕ → Value
task_call tool arguments ttl = obj (
    field (codes "arguments") arguments (
      field (codes "name") (str tool)
        (field (codes "task") (obj (field (codes "ttl") (num (int (pos ttl))) end)) end)))

abbrev pub tool_call : Str → Value → Value
tool_call tool arguments =
    obj (field (codes "arguments") arguments (field (codes "name") (str tool) end))

abbrev pub is_method_not_found : Error → Bool
is_method_not_found (rpc code message detail) = int_eq code method_not_found
is_method_not_found _ = false

abbrev pub is_speaking : KnownVersion → Bool
is_speaking v2025_11_25 = true
is_speaking _ = false

-- `speaks_tasks`.
abbrev pub speaks_tasks : KnownVersion → Result (Unit {0})
speaks_tasks running = if is_speaking running then ok tt else err (usage (no_tasks_here running))

-- `refuse_a_detach_nothing_can_answer`, where a daemon may be running.
unfoldable pub refuse_a_detach : Bool → Str → ServerConfig → Result (Unit {0})
refuse_a_detach daemon_runs name settings =
    if not (is_some settings.stdio) || daemon_runs
    then ok tt
    else err (usage (detached_from_child name))

-- `refused_without_a_task`, but for the tools that it asks for.
abbrev pub may_want_a_task : Value → Result Value → Bool
may_want_a_task info (ok r) = false
may_want_a_task info (err e) = is_method_not_found e && offers_tasks info

abbrev pub direct : Result Value → Outcome
direct (ok r) = result (seen r)
direct (err e) = refused e

-- The note that is left of a task: its ttl is in seconds.
abbrev pub note_of : Str → ℕ → Value → ℕ → TaskRecord
note_of tool at_ task ttl = record {
  tool = tool;
  started_at = at_;
  ttl = unwrap_or ttl (agreed_ttl task) / 1000;
}

module _ {S : Type 0} (T : Transport S) (fuel : ℕ) (progress : Bool) (at_ : ℕ) where
  abbrev pub watched : Connection S → (Session S × File Tasks) × Seen → Connection S × Outcome
  watched c ((s, notes), r) = (record c { session = s; notes = notes }, result r)

  abbrev pub noted : Connection S → Str → Str → Value → ℕ → Connection S
  noted c tool id task ttl = record c {
    notes = (remember_task c.name id (note_of tool at_ task ttl) c.notes).0;
  }

  abbrev pub see_through : Connection S → Str → Value → Connection S × Outcome
  see_through c id task =
      watched c (seen_through T id fuel progress at_ c.name c.notes c.session task)

  abbrev pub begun : Connection S → Str → ℕ → Bool → Value → Option Str → Connection S × Outcome
  begun c tool ttl detaching task none = (c, refused (transport (task_without_id tool task)))
  begun c tool ttl detaching task (some id) =
      let noting = noted c tool id task ttl in
      let waiting = see_through noting id task in
      if detaching then (noting, detached task) else waiting

  abbrev pub created :
      Connection S → Str → ℕ → Bool → Session S × Result Value → Connection S × Outcome
  created c tool ttl detaching (s, err e) = (record c { session = s }, refused e)
  created c tool ttl detaching (s, ok task) =
      begun (record c { session = s }) tool ttl detaching task (id_of task)

  abbrev pub start_if :
      Connection S → Str → Value → ℕ → Bool → Result (Unit {0}) → Connection S × Outcome
  start_if c tool arguments ttl detaching (err e) = (c, refused e)
  start_if c tool arguments ttl detaching (ok _) =
      created c tool ttl detaching
        (ask T c.session (codes "tools/call") (some (task_call tool arguments ttl)))

  unfoldable pub started : Connection S → Str → Value → ℕ → Bool → Connection S × Outcome
  unfolding seen_through remember_task agreed_ttl id_of
  started c tool arguments ttl detaching =
      start_if c tool arguments ttl detaching (speaks_tasks c.session.version)

  -- `Connection::list_tools`.
  abbrev pub listed_tools :
      Connection S → Session S × Result (List Value) → Connection S × List Value
  listed_tools c (s, err e) = (record c { session = s }, [])
  listed_tools c (s, ok tools) = (record c { session = s }, permitted_tools tools c.settings)

  abbrev pub after_list :
      Str → Value → ℕ → Result Value → Connection S × List Value → Connection S × Outcome
  after_list tool arguments ttl sent (c, tools) =
      let as_task = started c tool arguments ttl false in
      if insists_on_a_task tools tool then as_task else (c, direct sent)

  abbrev pub after_call :
      Connection S → Str → Value → ℕ → Session S × Result Value → Connection S × Outcome
  after_call c tool arguments ttl (s, sent) =
      if may_want_a_task c.server_info sent
      then after_list tool arguments ttl sent
          (listed_tools c (list_paginated T (codes "tools/list") (codes "tools") s))
      else (record c { session = s }, direct sent)

  -- In the foreground, unless the listing at hand says that the tool only runs as a task.
  abbrev pub call_now : Connection S → Str → Value → ℕ → List Value → Connection S × Outcome
  call_now c tool arguments ttl known =
      let as_task = started c tool arguments ttl false in
      let in_front = after_call c tool arguments ttl (
        request_watching T c.session (codes "tools/call") (some (tool_call tool arguments))
          progress) in
      if insists_on_a_task known tool && offers_tasks c.server_info then as_task else in_front

  abbrev pub call_detached :
      Connection S → Str → Value → ℕ → Result (Unit {0}) → Connection S × Outcome
  call_detached c tool arguments ttl (err e) = (c, refused e)
  call_detached c tool arguments ttl (ok _) = started c tool arguments ttl true

  unfoldable pub call :
      Bool → Connection S → Str → Value → List Value → Plan → Connection S × Outcome
  unfolding started offers_tasks insists_on_a_task list_paginated refuse_a_detach
  call daemon_runs c tool arguments known (now ttl) = call_now c tool arguments ttl known
  call daemon_runs c tool arguments known (wait ttl) = started c tool arguments ttl false
  call daemon_runs c tool arguments known (detach ttl) =
      call_detached c tool arguments ttl (refuse_a_detach daemon_runs c.name c.settings)
