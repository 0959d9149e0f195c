-- ===== src/Client/Statuses.antt =====
-- src/client.rs: how a server that could not be reached is told from one that wants a login. The text of
-- a transport error is read by `is_legacy_sse_error`, which knows one message; the text of the others
-- is left out.
use mcpdial.Base.{Bool, true, false, none, some, ℕ, ◌==◌, if◌then◌else◌, ◌≡◌, refl, ◌↔◌, arith}
use mcpdial.Protocol.Errors.{Message, legacy_sse, Error, http, transport, is_auth_challenge}

pub data Status : Type 0 where
  up : Status
  auth_required : Status
  token_rejected : Status
  blocked : Status
  only_legacy_sse : Status
  http_status : ℕ → Status
  unreachable : Message → Status
  other_error : Error → Status

-- `is_legacy_sse_error`.
abbrev pub is_legacy_sse : Message → Bool
is_legacy_sse legacy_sse = true
is_legacy_sse _ = false

abbrev challenged : Bool → Status
challenged had_credential = if had_credential then token_rejected else auth_required

abbrev transport_status : Message → Status
transport_status legacy_sse = only_legacy_sse
transport_status d = unreachable d

-- `classify`.
unfoldable pub status_for : Error → Bool → Status
status_for (http status body (some www)) had_credential = challenged had_credential
status_for (http status body none) had_credential =
    if status == 401
    then challenged had_credential
    else if status == 403
    then blocked
    else http_status status
status_for (transport d) had_credential = transport_status d
status_for e had_credential = other_error e

abbrev pub wants_login : Status → Bool
wants_login auth_required = true
wants_login token_rejected = true
wants_login _ = false

challenged-wants_login : (had : Bool) → wants_login (challenged had) ≡ true
challenged-wants_login true = refl
challenged-wants_login false = refl

transport_status-wants_login : (d : Message) → wants_login (transport_status d) ≡ false
transport_status-wants_login legacy_sse = refl
transport_status-wants_login _ = refl

transport_status-ne-token_rejected : (d : Message) → ¬ (transport_status d ≡ token_rejected)
transport_status-ne-token_rejected legacy_sse e = cc e
transport_status-ne-token_rejected d e = cc e

-- A server is said to want a login exactly for the errors that dialing takes for a challenge, and a
-- token is said to be rejected only where there was one.
pub status_for-wants_login :
    (e : Error) (had : Bool)
    → (wants_login (status_for e had) ≡ is_auth_challenge e)
      × ((status_for e had ≡ token_rejected) ↔ ((is_auth_challenge e ≡ true) × (had ≡ true)))
unfolding status_for
status_for-wants_login (http status body (some www)) true = ground arith
status_for-wants_login (http status body (some www)) false = ground arith
status_for-wants_login (http status body none) true = ground arith
status_for-wants_login (http status body none) false = ground arith
status_for-wants_login (transport d) had =
    ground (arith, transport_status-wants_login d, transport_status-ne-token_rejected d)
status_for-wants_login e had = ground arith
