-- ===== src/Config/Notes.antt =====
-- src/config.rs: the notes that invocations leave for one another, `probes.json` (what a server was
-- when it was last looked at) and `tasks.json` (the tasks that servers hold).
pub mod Forgotten
pub mod Eras
use mcpdial.Base.{
  Str, Bool, true, false, Option, none, some, List, [], ◌∷◌, ℕ, if◌then◌else◌, unwrap_or, Map,
  get_key, put_key, remove_key, has_key, not, is_empty, leb, ltb, length, ◌+◌, ◌-◌, u64_max, retain,
  or_else, map_opt,
}
use mcpdial.Json.{Value, null}
use mcpdial.Protocol.Version.{Era}
use mcpdial.Protocol.Errors.{Result, ok, err, ◌>>=◌}
use mcpdial.Config.Servers.{ServerConfig}
use mcpdial.Config.Files.{File, rewrite}

pub record EraNote : Type 0 where
  pub era : Era
  pub key : ℕ
  pub checked_at : ℕ

pub record ProbeRecord : Type 0 where
  pub checked_at : ℕ
  pub key : ℕ
  pub status : Value
  pub auth : Value
  pub server : Option Str
  pub tools : Option ℕ
  pub era : Option EraNote

-- `ProbeRecord::default`.
abbrev pub default_probe : ProbeRecord
default_probe = record {
  checked_at = 0;
  key = 0;
  status = null;
  auth = null;
  server = none;
  tools = none;
  era = none;
}

pub record TaskRecord : Type 0 where
  pub tool : Str
  pub started_at : ℕ
  pub ttl : ℕ

-- `u64::saturating_add`.
abbrev pub saturating_add : ℕ → ℕ → ℕ
saturating_add a b = if leb (a + b) u64_max then a + b else u64_max

-- `TaskRecord::is_expired` and `TaskRecord::age`, at a time.
unfoldable pub task_expired : ℕ → TaskRecord → Bool
task_expired now t = ltb (saturating_add t.started_at t.ttl) now

unfoldable pub age : ℕ → TaskRecord → ℕ
age now t = now - t.started_at

-- What a probe says, with the era that the file has where it notes none.
abbrev pub keep_era : Option ProbeRecord → ProbeRecord → ProbeRecord
keep_era none record_ = record_
keep_era (some noted) record_ = record record_ { era = or_else record_.era noted.era }

abbrev pub take_in : Map ProbeRecord → Map ProbeRecord → Map ProbeRecord
take_in [] probes = probes
take_in ((name, probe) ∷ taken) probes =
    take_in taken (put_key name (keep_era (get_key name probes) probe) probes)

abbrev pub Probes : Type 0
Probes = File (Map ProbeRecord)

-- `Store::save_probes`: the probes taken go in, and those of servers that are not saved go out.
unfoldable pub save_probes :
    Result (Map ServerConfig) → Map ProbeRecord → Probes → Probes × Result (Unit {0})
save_probes (err e) taken f = (f, err e)
save_probes (ok saved) taken f =
    rewrite (λ probes. some (retain (λ name p. has_key name saved) (take_in taken probes))) f

-- `entry(name).or_default().era = Some(note)`.
abbrev pub with_era : EraNote → Option ProbeRecord → ProbeRecord
with_era note probe = record (unwrap_or default_probe probe) { era = some note }

unfoldable pub remember_era : Str → EraNote → Probes → Probes × Result (Unit {0})
unfolding get_key
remember_era name note f =
    rewrite (λ probes. some (put_key name (with_era note (get_key name probes)) probes)) f

unfoldable pub forget_probe : Str → Probes → Probes × Result (Unit {0})
forget_probe name f =
    rewrite (λ probes. if has_key name probes then some (remove_key name probes) else none) f

abbrev pub Tasks : Type 0
Tasks = Map (Map TaskRecord)

abbrev pub tasks_of : Str → Tasks → Map TaskRecord
tasks_of server all = unwrap_or [] (get_key server all)

abbrev pub unexpired : ℕ → Map TaskRecord → Map TaskRecord
unexpired now mine = retain (λ id t. not (task_expired now t)) mine

-- `Store::tasks`.
unfoldable pub tasks : ℕ → Str → File Tasks → Result (Map TaskRecord)
tasks now server f = f.content >>= λ all. ok (unexpired now (tasks_of server all))

unfoldable pub remember_task : Str → Str → TaskRecord → File Tasks → File Tasks × Result (Unit {0})
remember_task server id task f =
    rewrite (λ all. some (put_key server (put_key id task (tasks_of server all)) all)) f

abbrev pub remove_ids : List Str → Map TaskRecord → Map TaskRecord
remove_ids [] mine = mine
remove_ids (id ∷ ids) mine = remove_ids ids (remove_key id mine)

-- The closure of `forget_tasks`: what to write, where something was dropped.
abbrev pub put_back : Str → Map TaskRecord → Tasks → Tasks
put_back server [] all = remove_key server all
put_back server (t ∷ left) all = put_key server (t ∷ left) all

abbrev pub forgetting : ℕ → Str → List Str → Option (Map TaskRecord) → Tasks → Option Tasks
forgetting now server ids none all = none
forgetting now server ids (some mine) all =
    let left = unexpired now (remove_ids ids mine) in
    if ltb 0 (length mine - length left) then some (put_back server left all) else none

unfoldable pub forget_tasks : ℕ → Str → List Str → File Tasks → File Tasks × Result (Unit {0})
unfolding get_key
forget_tasks now server ids f =
    rewrite (λ all. forgetting now server ids (get_key server all) all) f
