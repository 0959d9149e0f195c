-- ===== src/Protocol/Errors.antt =====
-- src/protocol.rs: `Error`, and the errors that the other files build. A message is kept as data:
-- which `format!` of the source made it, with the values put in; the English text is not rendered.
use mcpdial.Base.{
  List, ℕ, Str, ℤ, Option, Bool, true, false, none, some, ◌==◌, negsuc, int_eq, ◌||◌,
}
use mcpdial.Json.{Value}
use mcpdial.Protocol.Version.{KnownVersion}

pub data Message : Type 0 where
  -- protocol.rs
  unknown_version : (answered : Str) (offered : KnownVersion) → Message
  malformed_json : Message
  -- path.rs
  not_a_path : Str → Message
  unterminated_in_filter : Str → Message
  -- transport/stdio.rs
  unterminated_single : Message
  unterminated_double : Message
  no_command : Message
  no_reply : (timeout : ℕ) → Message
  -- transport/http.rs
  no_reply_in_time : Message
  could_not_reach : Message
  unreadable_body : Message
  redirected : (status : ℕ) (location : Option Str) → Message
  legacy_sse : Message
  -- args.rs
  both_forms : Message
  not_a_pair : Str → Message
  nameless_pair : Str → Message
  not_json : (key value : Str) → Message
  takes_number : (key text : Str) → Message
  takes_boolean : (key text : Str) → Message
  needs_json_form : (key shape : Str) → Message
  -- its three wordings are picked by the name and the names that the schema has
  unknown_argument : (key : Str) (names : List Str) → Message
  -- shell/history.rs
  nothing_yet : Message
  not_a_result_number : Str → Message
  no_such_result : (number printed : ℕ) → Message
  no_longer_kept : (number : ℕ) → Message
  -- shell/edit.rs
  no_call_yet : Message
  not_a_call : (number : ℕ) (command : Str) → Message
  -- session.rs
  undeclared_input : (method : Str) → Message
  unanswered_input : (method wants : Str) → Message
  still_asking : (method : Str) (rounds : ℕ) → Message
  no_discovery : Value → Message
  speaks_neither : (supported : Value) (tried : KnownVersion) → Message
  -- subscribe.rs
  not_subscribed : Str → Message
  -- config.rs
  denied : (tool name list : Str) → Message
  refers_to_unset : (what variable : Str) → Message
  not_set : (variable : Str) → Message
  bad_server_name : Str → Message
  -- keychain.rs
  unknown_store : Str → Message
  forced_store : (label : Str) → Message
  not_removed : Message
  -- tasks.rs
  task_without_id : (tool : Str) (task : Value) → Message
  task_wants_input : (id : Str) → Message
  no_tasks_here : (running : KnownVersion) → Message
  detached_from_child : (name : Str) → Message
  -- oauth.rs
  came_from : (found expected : Str) → Message
  named_no_issuer : (expected : Str) → Message
  server_returned : (error description : Str) → Message
  state_mismatch : Message
  no_code : Message
  other_issuer : (discovered stated : Str) → Message
  no_access_token : Value → Message
  bad_metadata_url : Str → Message
  -- what a peer's owner says of a stream that closed
  gone : Message

pub data Error : Type 0 where
  rpc : (code : ℤ) (message : Str) (detail : Option Value) → Error
  http : (status : ℕ) (body : Str) (www_authenticate : Option Str) → Error
  transport : Message → Error
  auth : Message → Error
  config : Message → Error
  usage : Message → Error

pub data Result {ℓ} (A : Type ℓ) : Type ℓ where
  ok : A → Result A
  err : Error → Result A

infixl 5 ◌>>=◌
abbrev pub ◌>>=◌ {ℓ κ} : {A : Type ℓ} {B : Type κ} → Result A → (A → Result B) → Result B
ok a >>= f = f a
err e >>= f = err e

abbrev pub ok_or {ℓ} : {A : Type ℓ} → Option A → Error → Result A
ok_or none e = err e
ok_or (some a) e = ok a

-- `is_auth_challenge`.
abbrev pub is_auth_challenge : Error → Bool
is_auth_challenge (http status body (some www)) = true
is_auth_challenge (http status body none) = status == 401
is_auth_challenge _ = false

abbrev pub invalid_params : ℤ
invalid_params = negsuc 32601

abbrev pub method_not_found : ℤ
method_not_found = negsuc 32600

abbrev pub resource_not_found_legacy : ℤ
resource_not_found_legacy = negsuc 32001

abbrev pub header_mismatch : ℤ
header_mismatch = negsuc 32019

abbrev pub missing_required_client_capability : ℤ
missing_required_client_capability = negsuc 32020

abbrev pub unsupported_protocol_version : ℤ
unsupported_protocol_version = negsuc 32021

unfoldable pub is_not_found : ℤ → Bool
is_not_found code = int_eq code invalid_params || int_eq code resource_not_found_legacy

unfoldable pub is_modern_error : ℤ → Bool
is_modern_error code =
    int_eq code header_mismatch
    || int_eq code missing_required_client_capability
    || int_eq code unsupported_protocol_version
