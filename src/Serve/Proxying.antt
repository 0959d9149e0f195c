-- ===== src/Serve/Proxying.antt =====
-- src/serve.rs: `Proxy`, its sessions and what it makes of a message. The time, the connection that
-- `client::connect` opens and the id that is minted at this message are handed in; `told` is how an
-- error prints. A map of sessions is in the order of their ids, which settles a tie in `make_room`.

pub mod Bounded
pub mod Guarded
use mcpdial.Base.{
  Str, Bool, true, false, Option, none, some, List, [], ◌∷◌, ◌++◌, ℕ, zero, suc, if◌then◌else◌,
  unwrap_or, codes, is_some, not, ◌&&◌, str_eq, leb, ltb, length, Map, get_key, put_key, remove_key,
  ℤ, negsuc, and_then, map_opt,
}
use mcpdial.Json.{
  Value, null, str, obj, Fields, end, field, lookup, insert, index, get, as_str, is_object, is_null,
}
use mcpdial.Protocol.Version
use mcpdial.Protocol.Version.{KnownVersion}
use mcpdial.Protocol.Errors.{Error, rpc, Result, ok, err, invalid_params}
use mcpdial.Protocol.Messages.{reply, reply_error}
use mcpdial.Session.{Transport, Session, ask, tell}
use mcpdial.Serve.Filtering.{ToolFilter, permits, retain_tools, relayable}

abbrev pub invalid_request : ℤ
invalid_request = negsuc 32599

abbrev pub internal_error : ℤ
internal_error = negsuc 32602

abbrev pub no_session_said : Str
no_session_said = codes "Bad Request: No valid session ID provided"

abbrev pub client_name : Str
client_name = codes "mcpdial"

-- The crate's version in Cargo.toml.
abbrev pub client_version : Str
client_version = codes "0.2.3"

abbrev pub max_sessions : ℕ
max_sessions = 16

pub record Upstream (S : Type 0) : Type 0 where
  pub session : Session S
  pub info : Value
  pub used : ℕ

pub record Proxy (S : Type 0) : Type 0 where
  pub filter : ToolFilter
  pub sessions : Map (Upstream S)

pub data Answer : Type 0 where
  nothing : Answer
  message : Value → Answer
  opened_as : (id : Str) (said : Value) → Answer
  no_session : Value → Answer

-- `map.get_mut(key)`, with what is done to the value.
unfoldable pub adjust : {A : Type 0} → Str → (A → A) → Map A → Map A
adjust k f [] = []
adjust k f ((j, a) ∷ m) =
    let rest = adjust k f m in if str_eq j k then (j, f a) ∷ m else (j, a) ∷ rest

-- `message.get("id").filter(|v| !v.is_null())`.
abbrev pub present : Option Value → Option Value
present none = none
present (some null) = none
present (some id) = some id

abbrev pub method_of : Value → Str
method_of msg = unwrap_or [] (as_str (index msg (codes "method")))

abbrev pub tool_of : Value → Str
tool_of msg = unwrap_or [] (as_str (index (index msg (codes "params")) (codes "name")))

abbrev pub not_exposed : Str → Str
not_exposed tool = codes "Tool " ++ (tool ++ codes " is not exposed by this proxy")

-- What the client is told where it opens a session.
abbrev with_instructions : Option Value → Fields → Value
with_instructions none fs = obj fs
with_instructions (some said) fs = obj (insert (codes "instructions") said fs)

abbrev served_name : Value → Str
served_name info =
    unwrap_or (codes "an upstream server")
      (as_str (index (index info (codes "serverInfo")) (codes "name")))

unfoldable pub proxied_initialize : KnownVersion → Value → Value
unfolding relayable insert
proxied_initialize version info =
    let server = insert (codes "name") (str client_name) (
      insert (codes "version") (str client_version) (
        insert (codes "title") (str (client_name ++ (codes " serving " ++ served_name info)))
          end)) in
    with_instructions (get (codes "instructions") info) (
      insert (codes "protocolVersion") (str (Version.as_str version)) (
        insert (codes "capabilities") (relayable (index info (codes "capabilities")))
          (insert (codes "serverInfo") (obj server) end)))

-- `m["error"]["data"] = data`, on the refusal that `reply_error` builds.
abbrev with_data : Value → ℤ → Str → Option Value → Value
with_data id code said none = reply_error id code said
with_data id code said (some data_) = elim (reply_error id code said) [
  | obj fs ↦ elim (lookup (codes "error") fs) [
    | some (obj e) ↦ obj (insert (codes "error") (obj (insert (codes "data") data_ e)) fs)
    | _ ↦ obj fs
  ]
  | other ↦ other
]

module _ (told : Error → Str) where
  unfoldable pub upstream_error : Value → Error → Value
  unfolding reply_error
  upstream_error id (rpc code said detail) = with_data id code said detail
  upstream_error id e = reply_error id internal_error (codes "upstream: " ++ told e)

-- `min_by_key(|(_, up)| up.used)`: the first of the least.
abbrev pub staler : Str × ℕ → Option (Str × ℕ) → Str × ℕ
staler (id, used) none = (id, used)
staler (id, used) (some (other, least)) = if leb used least then (id, used) else (other, least)

module _ {S : Type 0} where
  abbrev pub stalest_of : Map (Upstream S) → Option (Str × ℕ)
  stalest_of [] = none
  stalest_of ((id, up) ∷ m) = some (staler (id, up.used) (stalest_of m))

  unfoldable pub stalest : Map (Upstream S) → Option Str
  stalest m = map_opt (λ p. p.0) (stalest_of m)

  -- The loop of `make_room`, with so many turns at most.
  abbrev pub room_turn :
      Map (Upstream S) → Option Str → (Map (Upstream S) → Map (Upstream S)) → Map (Upstream S)
  room_turn m none go_on = m
  room_turn m (some id) go_on = go_on (remove_key id m)

  unfoldable pub room : ℕ → Map (Upstream S) → Map (Upstream S)
  unfolding remove_key stalest
  room zero m = m
  room (suc n) m =
      let next = room_turn m (stalest m) (λ m. room n m) in
      if leb max_sessions (length m) then next else m

  unfoldable pub make_room : Map (Upstream S) → Map (Upstream S)
  unfolding room
  make_room m = room (length m) m

  abbrev pub used_at : ℕ → Upstream S → Upstream S
  used_at now up = record up { used = now }

  -- `session_mut`: the session, and that it was used now.
  unfoldable pub session_mut : ℕ → Option Str → Proxy S → Proxy S × Option (Str × Upstream S)
  unfolding adjust get_key
  session_mut now none p = (p, none)
  session_mut now (some id) p = elim (get_key id p.sessions) [
    | none ↦ (p, none)
    | some up ↦
        (record p { sessions = adjust id (used_at now) p.sessions }, some (id, used_at now up))
  ]

  -- The session of an upstream after a call of it.
  abbrev pub left_with : Str → Session S → Proxy S → Proxy S
  left_with id s p = record p { sessions = adjust id (λ up. record up { session = s }) p.sessions }

  abbrev pub notified :
      Transport S → Str → Option Value → Proxy S × Option (Str × Upstream S) → Proxy S × Answer
  notified T method params (p, none) = (p, nothing)
  notified T method params (p, some (id, up)) =
      (left_with id ((tell T up.session method params).0) p, nothing)

module _ {S : Type 0} (T : Transport S) (told : Error → Str) where
  -- What is made of the result of a request.
  abbrev pub relayed : Str → Value → Str → Proxy S → Session S × Result Value → Proxy S × Answer
  relayed id msg_id method p (s, err e) = (left_with id s p, message (upstream_error told msg_id e))
  relayed id msg_id method p (s, ok result) = (
    left_with id s p,
    message (
        reply msg_id
          (if str_eq method (codes "tools/list") then retain_tools p.filter result else result)),
  )

  abbrev pub requested :
      Value → Str → Option Value → Proxy S × Option (Str × Upstream S) → Proxy S × Answer
  requested msg_id method params (p, none) =
      (p, no_session (reply_error msg_id invalid_request no_session_said))
  requested msg_id method params (p, some (id, up)) =
      relayed id msg_id method p (ask T up.session method params)

  -- `open`: room is made first, whatever comes of the connection.
  abbrev pub named : Value → Proxy S → Upstream S → Result Str → Proxy S × Answer
  named msg_id p up (err e) = (p, message (upstream_error told msg_id e))
  named msg_id p up (ok id) = (
    record p { sessions = put_key id up p.sessions },
    opened_as id (reply msg_id (proxied_initialize up.session.version up.info)),
  )

  abbrev pub connected :
      Str → ℕ → Value → Proxy S → Result Str → Result (Session S × Value) → Proxy S × Answer
  connected name now msg_id p minted (err e) = (
    p,
    message (
        reply_error msg_id internal_error
          (codes "mcpdial could not open a session with " ++ (name ++ (codes ": " ++ told e)))),
  )
  connected name now msg_id p minted (ok (s, info)) =
      named msg_id p (record { session = s; info = info; used = now }) minted

  unfoldable pub open_upstream :
      Str → ℕ → Result (Session S × Value) → Result Str → Value → Proxy S → Proxy S × Answer
  unfolding make_room upstream_error proxied_initialize put_key
  open_upstream name now connection minted msg_id p =
      connected name now msg_id (record p { sessions = make_room p.sessions }) minted connection

  -- A message that wants a reply.
  abbrev pub answered :
      Str
      → ℕ
      → Result (Session S × Value)
      → Result Str
      → Option Str
      → Value
      → Value
      → Str
      → Proxy S
      → Proxy S × Answer
  answered name now connection minted session msg msg_id method p =
      if str_eq method (codes "initialize")
      then open_upstream name now connection minted msg_id p
      else if str_eq method (codes "ping")
      then (p, message (reply msg_id (obj end)))
      else if str_eq method (codes "tools/call") && not (permits p.filter (tool_of msg))
      then (p, message (reply_error msg_id invalid_params (not_exposed (tool_of msg))))
      else requested msg_id method (get (codes "params") msg) (session_mut now session p)

  abbrev pub passed_on : ℕ → Option Str → Value → Str → Proxy S → Proxy S × Answer
  passed_on now session msg method p =
      if str_eq method (codes "notifications/initialized")
      then (p, nothing)
      else notified T method (get (codes "params") msg) (session_mut now session p)

  abbrev pub wanted :
      Str
      → ℕ
      → Result (Session S × Value)
      → Result Str
      → Option Str
      → Value
      → Proxy S
      → Option Value
      → Proxy S × Answer
  wanted name now connection minted session msg p none = passed_on now session msg (method_of msg) p
  wanted name now connection minted session msg p (some msg_id) =
      answered name now connection minted session msg msg_id (method_of msg) p

  unfoldable pub handle :
      Str
      → ℕ
      → Result (Session S × Value)
      → Result Str
      → Option Str
      → Value
      → Proxy S
      → Proxy S × Answer
  unfolding open_upstream session_mut permits upstream_error retain_tools reply reply_error
  handle name now connection minted session msg p =
      if not (is_object msg)
      then (
        p,
        message (
            reply_error null invalid_request
              (codes "expected one JSON-RPC object; batches are not relayed")),
      )
      else wanted name now connection minted session msg p (present (get (codes "id") msg))

module _ {S : Type 0} where
  abbrev pub closed : Option Str → Proxy S → Proxy S × Answer
  closed none p = (p, no_session (reply_error null invalid_request no_session_said))
  closed (some id) p =
      if is_some (get_key id p.sessions)
      then (record p { sessions = remove_key id p.sessions }, nothing)
      else (p, no_session (reply_error null invalid_request no_session_said))

  unfoldable pub close : Option Str → Proxy S → Proxy S × Answer
  unfolding get_key remove_key reply_error
  close session p = closed session p
