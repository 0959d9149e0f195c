-- ===== src/Background/Facts.antt =====
-- src/tasks.rs: what a task says, and the plan that the flags make.
use mcpdial.Base.{
  Str, Bool, true, false, Option, none, some, List, [], ◌∷◌, ℕ, ◌*◌, if◌then◌else◌, unwrap_or,
  codes, map_opt, leb, str_eq, any, is_some, is_empty, find, not, Map, get_key, ◌++◌,
}
use mcpdial.Json.{Value, obj, str, lookup, insert, index, get, as_str, as_u64, value_eq, bool}
use mcpdial.Protocol.Version.{KnownVersion, v2025_11_25}
use mcpdial.Config.Notes.{TaskRecord}

abbrev pub speaks_tasks_at : KnownVersion
speaks_tasks_at = v2025_11_25

abbrev pub default_ttl : ℕ
default_ttl = 3600 * 1000

abbrev pub default_poll : ℕ
default_poll = 1000

abbrev pub max_poll : ℕ
max_poll = 30 * 1000

abbrev pub terminal : List Str
terminal = codes "completed" ∷ codes "failed" ∷ codes "cancelled" ∷ []

pub data Plan : Type 0 where
  now : (ttl : ℕ) → Plan
  wait : (ttl : ℕ) → Plan
  detach : (ttl : ℕ) → Plan

abbrev plan_for : Bool → Bool → ℕ → Plan
plan_for task true ttl = detach ttl
plan_for true false ttl = wait ttl
plan_for false false ttl = now ttl

-- The flags give the ttl in seconds.
unfoldable pub planned : Bool → Bool → Option ℕ → Plan
planned task detached ttl =
    plan_for task detached (unwrap_or default_ttl (map_opt (λ s. s * 1000) ttl))

unfoldable pub id_of : Value → Option Str
id_of task = as_str (index task (codes "taskId"))

unfoldable pub status_of : Value → Str
status_of task = unwrap_or [] (as_str (index task (codes "status")))

unfoldable pub is_terminal : Value → Bool
unfolding status_of
is_terminal task = any (str_eq (status_of task)) terminal

unfoldable pub string_at : Value → Str → Str
string_at task key = unwrap_or [] (as_str (index task key))

unfoldable pub agreed_ttl : Value → Option ℕ
agreed_ttl task = as_u64 (index task (codes "ttl"))

-- `Ord::clamp`.
abbrev pub clamp : ℕ → ℕ → ℕ → ℕ
clamp low high n = if leb n low then low else if leb high n then high else n

unfoldable pub poll_interval : Value → ℕ
poll_interval task =
    clamp 1 max_poll (unwrap_or default_poll (as_u64 (index task (codes "pollInterval"))))

abbrev pub named_in : Value → Option TaskRecord → Value
named_in (obj fs) (some note) =
    if is_some (lookup (codes "tool") fs)
    then obj fs
    else obj (insert (codes "tool") (str note.tool) fs)
named_in task _ = task

-- `name_the_tool`.
unfoldable pub name_the_tool : Value → Map TaskRecord → Value
unfolding id_of get_key
name_the_tool task noted = elim (id_of task) [
  | none ↦ task
  | some id ↦ named_in task (get_key id noted)
]

unfoldable pub ended_without_a_result : Value → Str
unfolding status_of string_at
ended_without_a_result state =
    let message = string_at state (codes "statusMessage") in
    if is_empty message
    then codes "the task " ++ status_of state
    else codes "the task " ++ (status_of state ++ (codes ": " ++ message))

-- What the server has to be able to do.
abbrev pub task_capabilities : Value → Value
task_capabilities info = index (index info (codes "capabilities")) (codes "tasks")

unfoldable pub offers_tasks : Value → Bool
offers_tasks info =
    is_some (
      get (codes "call")
        (index (index (task_capabilities info) (codes "requests")) (codes "tools")))

unfoldable pub declares_part : Value → Str → Bool
declares_part info part = elim (get part (task_capabilities info)) [
  | none ↦ false
  | some c ↦ not (value_eq c (bool false))
]

-- `diagnose::advertises`.
unfoldable pub advertises : Value → Str → Bool
advertises info capability = is_some (get capability (index info (codes "capabilities")))

unfoldable pub offers_any_tasks : Value → Bool
unfolding advertises
offers_any_tasks info = advertises info (codes "tasks")

abbrev is_tool : Str → Value → Bool
is_tool tool t = elim (as_str (index t (codes "name"))) [ none ↦ false | some n ↦ str_eq n tool ]

unfoldable pub insists_on_a_task : List Value → Str → Bool
insists_on_a_task tools tool = elim (find (is_tool tool) tools) [
  | none ↦ false
  | some t ↦
      value_eq (index (index t (codes "execution")) (codes "taskSupport")) (str (codes "required"))
]
