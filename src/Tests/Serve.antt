-- ===== src/Tests/Serve.antt =====
-- The theorems about src/serve.rs at concrete inputs.
use mcpdial.Base.{true, none, some, List, [], ◌∷◌, Str, codes, pos, str_eq, ◌≡◌, refl, arith, ◌⊎◌}
use mcpdial.Json.{lookup, Value, null, num, int, str, obj, field, end}
use mcpdial.Protocol.Errors.{Error, ok}
use mcpdial.Session.{Session, fresh}
use mcpdial.Config.Servers.{default_config}
use mcpdial.Serve.Filtering.{filter_for, permits}
use mcpdial.Serve.Proxying.{Proxy, handle, tool_of}
use mcpdial.Serve.Proxying.Bounded.{
  Job, relay, end_session, IsBounded, all_done, all_done-IsBounded,
}
use mcpdial.Serve.Proxying.Guarded.{IsGuarded, handle-unexposed, handle-IsGuarded}
use mcpdial.Tests.Session.{Scripted, scripted, replying, tool}

abbrev told : Error → Str
told e = codes "failed"

abbrev upstream : Session Scripted
upstream = fresh (replying (obj end) ∷ [])

-- A proxy that hides `rm`, with one client connected.
abbrev proxy : Proxy Scripted
proxy = record {
  filter = filter_for default_config [] (codes "rm" ∷ []);
  sessions = (codes "a", record { session = upstream; info = null; used = 1 }) ∷ [];
}

abbrev asking_for : Str → Value → Value
asking_for method params = obj (
    field (codes "id") (num (int (pos 1)))
      (field (codes "method") (str method) (field (codes "params") params end)))

abbrev jobs : List (Job Scripted)
jobs =
    relay 5 (ok (upstream, null)) (ok (codes "b")) none (asking_for (codes "initialize") null)
    ∷ end_session (some (codes "a"))
    ∷ []

all_done-IsBounded_example : IsBounded (all_done scripted told (codes "s") proxy jobs)
all_done-IsBounded_example = all_done-IsBounded scripted told (codes "s") proxy jobs (omega arith)

abbrev call_rm : Value
call_rm = asking_for (codes "tools/call") (tool (codes "rm"))

handle-unexposed_example :
    ((handle scripted told
        (codes "s")
        5
        (ok (upstream, null))
        (ok (codes "b"))
        (some (codes "a"))
        call_rm
        proxy).0
      ≡ proxy)
    ⊎ (permits proxy.filter (tool_of call_rm) ≡ true)
unfolding lookup str_eq
handle-unexposed_example =
    handle-unexposed scripted told (codes "s") 5 (ok (upstream, null)) (ok (codes "b"))
      (some (codes "a")) call_rm (num (int (pos 1))) proxy refl refl

abbrev list_tools : Value
list_tools = asking_for (codes "tools/list") null

handle-IsGuarded_example : IsGuarded proxy.filter (
    (handle scripted told
      (codes "s")
      5
      (ok (upstream, null))
      (ok (codes "b"))
      (some (codes "a"))
      list_tools
      proxy).1)
unfolding lookup str_eq
handle-IsGuarded_example =
    handle-IsGuarded scripted told (codes "s") 5 (ok (upstream, null)) (ok (codes "b"))
      (some (codes "a")) list_tools (num (int (pos 1))) proxy refl refl
