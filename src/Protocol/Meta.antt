-- ===== src/Protocol/Meta.antt =====
-- src/protocol.rs: what the client adds to the params of a request: the `_meta` of 2026-07-28, the
-- answers to a demand for input, and a progress token.
pub mod Filled
use mcpdial.Base.{
  ℕ, Bool, true, false, not, Option, none, some, Str, codes, str_eq, if◌then◌else◌, pos, ◌++◌,
  unwrap_or, and_then, is_some, map_opt,
}
use mcpdial.Json.{
  Value, null, num, str, obj, Fields, end, field, int, insert, lookup, get, index, as_object,
  as_str, is_object,
}
use mcpdial.Protocol.Errors.{Error, rpc, http, transport, auth, config, usage}
use mcpdial.Protocol.Version.{KnownVersion}
use mcpdial.Protocol.Version

-- `ours.extend(theirs)`: each entry is inserted, in the order of `theirs`.
unfoldable pub extend : Fields → Fields → Fields
extend ours end = ours
extend ours (field k v theirs) = extend (insert k v ours) theirs

-- `map.entry(k).or_insert(v)`.
unfoldable pub or_insert : Str → Value → Fields → Fields
or_insert k v fs = if is_some (lookup k fs) then fs else insert k v fs

abbrev pub meta_protocol_version : Str
meta_protocol_version = codes "io.modelcontextprotocol/protocolVersion"

abbrev pub meta_client_info : Str
meta_client_info = codes "io.modelcontextprotocol/clientInfo"

abbrev pub meta_client_capabilities : Str
meta_client_capabilities = codes "io.modelcontextprotocol/clientCapabilities"

-- `CLIENT_VERSION` is the crate's version, "0.2.3" in Cargo.toml.
abbrev pub client_info : Value
client_info = obj (
    field (codes "name") (str (codes "mcpdial"))
      (field (codes "version") (str (codes "0.2.3")) end))

-- The object of `client_meta`.
pub client_fields : KnownVersion → Value → Fields
client_fields version capabilities = insert meta_client_capabilities capabilities (
    insert meta_client_info client_info
      (insert meta_protocol_version (str (Version.as_str version)) end))

-- `params.unwrap_or_else(|| json!({}))`.
abbrev pub or_empty : Option Value → Value
or_empty = unwrap_or (obj end)

-- The caller's own `_meta`, where it is an object.
abbrev pub own_meta : Fields → Option Fields
own_meta fs = and_then (lookup (codes "_meta") fs) as_object

abbrev pub merged_meta : Fields → Option Fields → Fields
merged_meta ours none = ours
merged_meta ours (some theirs) = extend ours theirs

abbrev pub fill_meta : Value → KnownVersion → Value → Value
fill_meta (obj fs) version capabilities = obj (
    insert (codes "_meta") (obj (merged_meta (client_fields version capabilities) (own_meta fs)))
      fs)
fill_meta v version capabilities = v

unfoldable pub with_client_meta : Option Value → KnownVersion → Value → Value
with_client_meta params = fill_meta (or_empty params)

pub record InputRequired : Type 0 where
  pub requests : Fields
  pub state : Option Str

-- `None` for a finished result.
unfoldable pub input_required : Value → Option InputRequired
input_required result =
    let demand : InputRequired = record {
      requests = unwrap_or end (as_object (index result (codes "inputRequests")));
      state = as_str (index result (codes "requestState"));
    } in
    let wanted = str_eq (codes "input_required") in
    if unwrap_or false (map_opt wanted (and_then (get (codes "resultType") result) as_str))
    then some demand
    else none

abbrev pub add_answers : Fields → Fields → Fields
add_answers end fs = fs
add_answers (field k v answers) fs = insert (codes "inputResponses") (obj (field k v answers)) fs

abbrev pub add_state : Option Str → Fields → Fields
add_state none fs = fs
add_state (some s) fs = insert (codes "requestState") (str s) fs

abbrev pub fill_responses : Value → Fields → Option Str → Value
fill_responses (obj fs) answers state = obj (add_state state (add_answers answers fs))
fill_responses v answers state = v

unfoldable pub with_input_responses : Option Value → Fields → Option Str → Value
with_input_responses params = fill_responses (or_empty params)

-- The `_meta` entry, made if it is not there, takes the token unless it has one or is no object.
abbrev pub add_token : Value → Value → Value
add_token token (obj m) = obj (or_insert (codes "progressToken") token m)
add_token token v = v

abbrev pub fill_token : Value → ℕ → Value
fill_token (obj fs) id = obj (
    insert (codes "_meta")
      (add_token (num (int (pos id))) (unwrap_or (obj end) (lookup (codes "_meta") fs))) fs)
fill_token v id = v

unfoldable pub with_progress_token : Option Value → ℕ → Value
with_progress_token params = fill_token (or_empty params)

-- `rpc_error`: the error object behind a failure; the body is read by `serde_json::from_str`.
abbrev pub object_only : Value → Option Value
object_only (obj fs) = some (obj fs)
object_only v = none

module _ (from_str : Str → Option Value) where
  unfoldable pub rpc_error : Error → Option Value
  rpc_error (rpc code message detail) = some (
      obj (
        insert (codes "data") (unwrap_or null detail)
          (insert (codes "message") (str message) (insert (codes "code") (num (int code)) end))))
  rpc_error (http status body www) =
      and_then (and_then (from_str body) (get (codes "error"))) object_only
  rpc_error (transport m) = none
  rpc_error (auth m) = none
  rpc_error (config m) = none
  rpc_error (usage m) = none
