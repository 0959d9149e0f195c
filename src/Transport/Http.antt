-- ===== src/Transport/Http.antt =====
-- src/transport/http.rs: one POST with its failure classified, and the exchange that makes at most
-- one more. The network is a parameter: what a POST comes to is a value, `Posted`, and so is what
-- the legacy probe's GET would say. The trace log is left out.
pub mod Stream
pub mod Attempt
pub mod Once
pub mod Headers
use mcpdial.Base.{
  ℕ, Bool, true, false, not, ◌||◌, ◌&&◌, Option, none, some, List, [], ◌∷◌, ◌++◌, Str, codes,
  str_eq, if◌then◌else◌, is_some, unwrap_or, ◌==◌, leb, ltb, contains, to_ascii_lowercase,
}
use mcpdial.Json.{Value, index, str, value_eq, as_str}
use mcpdial.Protocol.Errors.{
  Error, http, transport, no_reply_in_time, could_not_reach, unreadable_body, redirected,
  legacy_sse,
}
use mcpdial.Transport.Retry.{
  Failure, status, interrupted, final, Retry, UreqError, timeout, before_any_reply,
}

-- The body as the reader delivers it: its lines, endings included, and whether an I/O error comes
-- after them in place of the end.
pub record Body : Type 0 where
  pub chunks : List Str
  pub breaks : Bool

pub record Response : Type 0 where
  pub code : ℕ
  pub content_type : Option Str
  pub www_authenticate : Option Str
  pub session_id : Option Str
  pub location : Option Str
  pub retry_after : Option Str
  pub body : Body

-- What a POST comes to.
pub data Posted : Type 0 where
  unsent : UreqError → Posted
  replied : Response → Posted

-- The fields of `HttpTransport` that change what it does.
pub record HttpTransport : Type 0 where
  pub retry : Retry
  pub wait : Option ℕ
  pub session_id : Option Str
  pub idempotent_tools : List Str
  pub spoke_streamable_http : Bool

-- What an attempt comes to: a reply, or an error and its failure.
pub data Attempted : Type 0 where
  answered : Option Value → Attempted
  failed : Error → Failure → Attempted

abbrev pub is_success : ℕ → Bool
is_success code = leb 200 code && ltb code 300

abbrev pub is_redirect : ℕ → Bool
is_redirect code = leb 300 code && ltb code 400

unfoldable pub streaming : ℕ → Str → Bool
streaming code content_type =
    is_success code && contains (codes "text/event-stream") (to_ascii_lowercase content_type)

unfoldable pub failed_like_a_legacy_endpoint : ℕ → Option Str → Bool
failed_like_a_legacy_endpoint code www =
    (code == 400 || code == 404 || code == 405) && not (is_some www)

abbrev unsent_error : UreqError → Error
unsent_error timeout = transport no_reply_in_time
unsent_error _ = transport could_not_reach

abbrev pub unsent_failure : UreqError → Attempted
unsent_failure e = failed (unsent_error e) (before_any_reply e)

-- A reply that broke off: one that named a session is not to be asked for again.
abbrev pub broken : Response → Attempted
broken r = failed (transport unreadable_body) (if is_some r.session_id then final else interrupted)

abbrev pub concat : List Str → Str
concat [] = []
concat (s ∷ ss) = s ++ concat ss

abbrev pub method_is : Value → Str → Bool
method_is payload method = value_eq (index payload (codes "method")) (str method)
