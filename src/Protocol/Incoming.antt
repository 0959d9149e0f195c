-- ===== src/Protocol/Incoming.antt =====
-- src/protocol.rs: what a message from the server is, and the error member of a reply.
pub mod Sorting
use mcpdial.Base.{
  Bool, true, false, not, ◌||◌, Option, none, some, Str, codes, is_some, if◌then◌else◌, and_then,
  unwrap_or, negsuc,
}
use mcpdial.Json.{Value, get, as_str, as_i64, is_null, value_eq}
use mcpdial.Protocol.Errors.{Error, rpc, Result, ok, err}

pub data Incoming : Type 0 where
  response : Incoming
  server_request : (id : Value) (method : Str) → Incoming
  notification : (method : Str) → Incoming
  foreign : Incoming

-- `msg.get("id").filter(|id| !id.is_null())`.
abbrev pub id_of : Value → Option Value
id_of msg = and_then (get (codes "id") msg) λ id. if is_null id then none else some id

abbrev pub method_of : Value → Option Str
method_of msg = and_then (get (codes "method") msg) as_str

-- `id == Some(ours)`.
abbrev pub is_ours : Option Value → Value → Bool
is_ours none ours = false
is_ours (some id) ours = value_eq id ours

abbrev pub answers_us : Option Value → Option Value → Bool → Bool
answers_us (some ours) id has_error = is_ours id ours
answers_us none id has_error = is_some id || has_error

-- The cases of `match (method, id)`.
abbrev pub sort_by : Option Str → Option Value → Option Value → Bool → Incoming
sort_by (some method) (some id) awaiting has_error = server_request id method
sort_by (some method) none awaiting has_error = notification method
sort_by none id awaiting has_error = if answers_us awaiting id has_error then response else foreign

unfoldable pub classify : Value → Option Value → Incoming
classify msg awaiting =
    sort_by (method_of msg) (id_of msg) awaiting (is_some (get (codes "error") msg))

-- `check`: a reply with an `error` member is raised as an error.
abbrev pub rpc_of : Value → Error
rpc_of e =
    rpc (unwrap_or (negsuc 0) (and_then (get (codes "code") e) as_i64))
      (unwrap_or (codes "unknown error") (and_then (get (codes "message") e) as_str))
      (get (codes "data") e)

unfoldable pub check : Option Value → Result (Option Value)
check msg = elim (and_then msg (get (codes "error"))) [ none ↦ ok msg | some e ↦ err (rpc_of e) ]
