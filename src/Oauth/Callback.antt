-- ===== src/Oauth/Callback.antt =====
-- src/oauth.rs: `ExpectedIssuer::check` and `callback_result`, what the redirect of an authorization
-- server amounts to; and `escape_html`, for what the page says of it.
use mcpdial.Base.{
  Str, Bool, false, Option, none, some, List, [], ◌∷◌, ◌++◌, ℕ, if◌then◌else◌, str_eq, str_eq_iff,
  unwrap_or, codes, ◌==◌, ◌≡◌, ◌↔◌, ◌⊎◌, arith,
}
use mcpdial.Protocol.Errors.{
  auth, Result, ok, err, ◌>>=◌, came_from, named_no_issuer, server_returned, state_mismatch,
  no_code,
}

pub record ExpectedIssuer : Type 0 where
  pub issuer : Str
  pub always_sent : Bool

-- `ExpectedIssuer::check`.
unfoldable pub check_issuer : ExpectedIssuer → Option Str → Result (Unit {0})
unfolding str_eq
check_issuer expected (some found) =
    if str_eq found expected.issuer then ok tt else err (auth (came_from found expected.issuer))
check_issuer expected none =
    if expected.always_sent then err (auth (named_no_issuer expected.issuer)) else ok tt

-- The closure `get`: the first parameter of that name.
unfoldable pub param : Str → List (Str × Str) → Option Str
param k [] = none
param k ((j, v) ∷ ps) = if str_eq j k then some v else param k ps

abbrev code_of : Option Str → Result Str
code_of (some code) = ok code
code_of none = err (auth no_code)

abbrev is_state : Str → Option Str → Bool
is_state expected none = false
is_state expected (some s) = str_eq s expected

abbrev unless_error : Option Str → Option Str → Result Str → Result Str
unless_error (some e) description rest = err (auth (server_returned e (unwrap_or [] description)))
unless_error none description rest = rest

unfoldable pub callback_result : List (Str × Str) → Str → ExpectedIssuer → Result Str
unfolding check_issuer param
callback_result params expected_state expected_issuer =
    check_issuer expected_issuer (param (codes "iss") params) >>= λ _.
    unless_error (param (codes "error") params) (param (codes "error_description") params) (
      if is_state expected_state (param (codes "state") params)
      then code_of (param (codes "code") params)
      else err (auth state_mismatch))

-- `escape_html`.
abbrev pub escaped_char : ℕ → Str
escaped_char c =
    if c == b'&'
    then codes "&amp;"
    else if c == b'<'
    then codes "&lt;"
    else if c == b'>'
    then codes "&gt;"
    else if c == 34
    then codes "&quot;"
    else if c == 39
    then codes "&#39;"
    else c ∷ []

unfoldable pub escape_html : Str → Str
escape_html [] = []
escape_html (c ∷ s) = escaped_char c ++ escape_html s

-- The issuer that a response may name.
abbrev pub IsFrom : ExpectedIssuer → Option Str → Type 0
IsFrom expected o = (o ≡ some expected.issuer) ⊎ ((o ≡ none) × (expected.always_sent ≡ false))

check_issuer-ok_iff :
    (expected : ExpectedIssuer) (o : Option Str)
    → (check_issuer expected o ≡ ok tt) ↔ IsFrom expected o
unfolding check_issuer
check_issuer-ok_iff expected none = ground arith
check_issuer-ok_iff expected (some found) = ground (arith, str_eq_iff found expected.issuer)

believed_iff :
    (state code : Str) (r : Result (Unit {0})) (e d st co : Option Str)
    → ((r >>= λ _.
          unless_error e d (if is_state state st then code_of co else err (auth state_mismatch)))
        ≡ ok code)
      ↔ ((r ≡ ok tt) × (e ≡ none) × (st ≡ some state) × (co ≡ some code))
believed_iff state code (err x) e d st co = ground arith
believed_iff state code (ok u) (some e) d st co = ground arith
believed_iff state code (ok u) none d none co = ground arith
believed_iff state code (ok u) none d (some s) none = ground (arith, str_eq_iff s state)
believed_iff state code (ok u) none d (some s) (some c) = ground (arith, str_eq_iff s state)

-- A code is redeemed exactly where the response names the issuer expected, or none where that issuer
-- does not always name itself, reports no error, carries the state that was sent, and has the code.
pub callback_result-ok_iff :
    (params : List (Str × Str)) (state : Str) (expected : ExpectedIssuer) (code : Str)
    → (callback_result params state expected ≡ ok code) ↔ (
        IsFrom expected (param (codes "iss") params)
        × (param (codes "error") params ≡ none)
        × (param (codes "state") params ≡ some state)
        × (param (codes "code") params ≡ some code))
unfolding callback_result
callback_result-ok_iff params state expected code =
    let believed =
      believed_iff state code (check_issuer expected (param (codes "iss") params))
        (param (codes "error") params) (param (codes "error_description") params)
        (param (codes "state") params) (param (codes "code") params) in
    let from = check_issuer-ok_iff expected (param (codes "iss") params) in
    (
      (λ h. let (i, e, s, c) = believed.0 h in (from.0 i, e, s, c)),
      (λ (i, e, s, c). believed.1 (from.1 i, e, s, c)),
    )
