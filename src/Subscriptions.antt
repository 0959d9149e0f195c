-- ===== src/Subscriptions.antt =====
-- src/subscribe.rs: what a session follows, and what it has been told and has not acted on. A
-- `BTreeMap` and a `BTreeSet` are lists in the order of their keys. `apply` takes what the session
-- answers to the three listings and to a read as arguments, and what writing a result to its file
-- comes to (`joined` and `save`); a report keeps what its line is made of.

pub mod Order
pub mod Valid
pub mod Bounded
use mcpdial.Base.{
  ℕ, ◌+◌, Bool, true, false, not, ◌&&◌, ◌||◌, Option, none, some, List, [], ◌∷◌, ◌++◌, Str, codes,
  str_eq, str_lt, if◌then◌else◌, map_opt, is_some, is_empty, map, length, ltb, ◌==◌,
}
use mcpdial.Json.{Value, bool, str, arr, obj, Fields, end, field, insert, from_list}
use mcpdial.Protocol.Version.{KnownVersion, is_modern}
use mcpdial.Protocol.Errors.{Error, usage, not_subscribed, Result, ok, err, ok_or, ◌>>=◌}
use mcpdial.Notify.{
  Listing, tools, resources, prompts, listen_key, Body, progress, log, list_changed,
  resource_updated, acknowledged, Notice,
}

pub data Mechanism : Type 0 where
  subscribe listen : Mechanism

unfoldable pub mechanism_of : KnownVersion → Mechanism
mechanism_of version = if is_modern version then listen else subscribe

pub data Sink : Type 0 where
  shown : Sink
  file : (path : Str) → Sink

pub data Event : Type 0 where
  changed : Listing → Event
  updated : (uri : Str) → Event

-- The order of `Event`: the variants, then what they hold.
abbrev pub rank : Listing → ℕ
rank tools = 0
rank resources = 1
rank prompts = 2

unfoldable pub event_eq : Event → Event → Bool
event_eq (changed a) (changed b) = rank a == rank b
event_eq (updated a) (updated b) = str_eq a b
event_eq _ _ = false

unfoldable pub event_lt : Event → Event → Bool
event_lt (changed a) (changed b) = ltb (rank a) (rank b)
event_lt (changed a) (updated b) = true
event_lt (updated a) (changed b) = false
event_lt (updated a) (updated b) = str_lt a b

pub record Subscriptions : Type 0 where
  pub mechanism : Mechanism
  pub following : List (Str × Sink)
  pub pending : List Event
  pub acked : Bool

-- `insert` and `remove` of a `BTreeSet`.
unfoldable pub put : Event → List Event → List Event
put e [] = e ∷ []
put e (f ∷ fs) =
    let later = f ∷ put e fs in
    if event_eq e f then f ∷ fs else if event_lt e f then e ∷ f ∷ fs else later

unfoldable pub drop : Event → List Event → List Event
drop e [] = []
drop e (f ∷ fs) = let rest = drop e fs in if event_eq e f then rest else f ∷ rest

-- `get`, `insert` and `remove` of a `BTreeMap`.
unfoldable pub sink_of : Str → List (Str × Sink) → Option Sink
sink_of uri [] = none
sink_of uri (f ∷ fs) = if str_eq f.0 uri then some f.1 else sink_of uri fs

unfoldable pub add : Str → Sink → List (Str × Sink) → List (Str × Sink)
add uri sink [] = (uri, sink) ∷ []
add uri sink (f ∷ fs) =
    let later = f ∷ add uri sink fs in
    if str_eq f.0 uri
    then (uri, sink) ∷ fs
    else if str_lt uri f.0
    then (uri, sink) ∷ f ∷ fs
    else later

unfoldable pub without : Str → List (Str × Sink) → List (Str × Sink)
without uri [] = []
without uri (f ∷ fs) = let rest = without uri fs in if str_eq f.0 uri then rest else f ∷ rest

-- `new`.
unfoldable pub opened : KnownVersion → Subscriptions
opened version = record {
  mechanism = mechanism_of version;
  following = [];
  pending = [];
  acked = false;
}

abbrev pub opening_a_stream : Subscriptions → Subscriptions
opening_a_stream subs = record subs { acked = false }

-- `follow` and `forget`: the state after, and what they return.
unfoldable pub follow : Subscriptions → Str → Sink → Subscriptions × Option Sink
follow subs uri sink =
    (record subs { following = add uri sink subs.following }, sink_of uri subs.following)

unfoldable pub forget : Subscriptions → Str → Subscriptions × Result Sink
forget subs uri = (
  record subs { following = without uri subs.following; pending = drop (updated uri) subs.pending },
  ok_or (sink_of uri subs.following) (usage (not_subscribed uri)),
)

-- `record`.
unfoldable pub record_body : Subscriptions → Body → Subscriptions × Bool
record_body subs (list_changed what) =
    (record subs { pending = put (changed what) subs.pending }, true)
record_body subs (resource_updated uri) = (
  if is_some (sink_of uri subs.following)
      then record subs { pending = put (updated uri) subs.pending }
      else subs,
  true,
)
record_body subs (acknowledged notifications) = (record subs { acked = true }, true)
record_body subs (progress done total said) = (subs, false)
record_body subs (log level logger text) = (subs, false)

-- `filter`.
abbrev pub followed : List (Str × Sink) → List Value
followed [] = []
followed (f ∷ fs) = str f.0 ∷ followed fs

unfoldable pub filter : Subscriptions → Value
filter subs = obj (
    insert (codes "resourceSubscriptions") (arr (from_list (followed subs.following))) (
      insert (listen_key prompts) (bool true)
        (insert (listen_key resources) (bool true) (insert (listen_key tools) (bool true) end))))

-- The lists that the shell caches, and what acting on one event came to.
pub record Caches : Type 0 where
  pub tools_known : Option (List Value)
  pub resources_known : Option (List Value)
  pub prompts_known : Option (List Value)

pub data Report : Type 0 where
  list_report : (what : Listing) (now : Option ℕ) → Report
  shown_report : (uri : Str) (result : Value) → Report
  saved_report : (uri path : Str) → Report

abbrev pub cache : Listing → Option (List Value) → Caches → Caches
cache tools found c = record c { tools_known = found }
cache resources found c = record c { resources_known = found }
cache prompts found c = record c { prompts_known = found }

module _ (relist : Listing → Option (List Value)) (read_resource : Str → Result Value)
    (save : Str → Value → Result {0} Unit) where
  -- `refresh`.
  abbrev pub put_away : Str → Value → Sink → Result Report
  put_away uri result shown = ok (shown_report uri result)
  put_away uri result (file path) = save path result >>= λ u. ok (saved_report uri path)

  abbrev pub refresh_into : Str → Option Sink → Result Report
  refresh_into uri none = err (usage (not_subscribed uri))
  refresh_into uri (some sink) = read_resource uri >>= λ result. put_away uri result sink

  unfoldable pub refresh : Subscriptions → Str → Result Report
  refresh subs uri = refresh_into uri (sink_of uri subs.following)

  abbrev pub act_on : Subscriptions → Event → Caches → Caches × Result Report
  act_on subs (changed what) c =
      (cache what (relist what) c, ok (list_report what (map_opt length (relist what))))
  act_on subs (updated uri) c = (c, refresh subs uri)

  unfoldable pub act_on_all : Subscriptions → List Event → Caches → Caches × List (Result Report)
  act_on_all subs [] c = (c, [])
  act_on_all subs (e ∷ es) c =
      let (now, report) = act_on subs e c in
      let (after, reports) = act_on_all subs es now in (after, report ∷ reports)

  -- `apply`.
  unfoldable pub apply : Subscriptions → Caches → Subscriptions × Caches × List (Result Report)
  apply subs c =
      let taken = record subs { pending = [] } in
      let (after, reports) = act_on_all taken subs.pending c in (taken, after, reports)
