-- ===== src/Config/Credentials.antt =====
-- src/config.rs: `Credential` and when it can still be used; and src/keychain.rs: the two places
-- where credentials are kept. The item of a keychain is the credential that serde writes and reads.
use mcpdial.Base.{
  Str, Bool, false, Option, none, some, List, ℕ, is_empty, not, ◌&&◌, ◌||◌, is_some, str_eq, codes,
  leb, ◌+◌, if◌then◌else◌,
}
use mcpdial.Protocol.Errors.{Result, ok, err, config, unknown_store}

pub record Credential : Type 0 where
  pub access_token : Option Str
  pub refresh_token : Option Str
  pub expires_at : Option ℕ
  pub scope : Option Str
  pub token_endpoint : Option Str
  pub client_id : Option Str
  pub registration : Option Str
  pub issuer : Option Str
  pub client_secret : Option Str
  pub token_endpoint_auth_method : Option Str
  pub redirect_port : Option ℕ
  pub redirect_host : Option Str
  pub resource : Option Str
  pub source : Option Str

abbrev pub client_credentials : Str
client_credentials = codes "client_credentials"

-- `Credential::is_expired` at a time; the time is far from the end of `u64`.
unfoldable pub is_expired : ℕ → Credential → Bool
is_expired now c = elim c.expires_at [ none ↦ false | some t ↦ leb t (now + 30) ]

unfoldable pub has_token : Credential → Bool
has_token c = elim c.access_token [ none ↦ false | some t ↦ not (is_empty t) ]

unfoldable pub renews_by_grant : Credential → Bool
renews_by_grant c =
    (elim c.source [ none ↦ false | some s ↦ str_eq s client_credentials ])
    && is_some c.client_id
    && is_some c.client_secret

unfoldable pub can_refresh : Credential → Bool
unfolding renews_by_grant
can_refresh c = (is_some c.refresh_token || renews_by_grant c) && is_some c.token_endpoint

pub data Backend : Type 0 where
  in_file : Backend
  in_keychain : Backend

-- `Backend::label`.
abbrev pub backend_label : Backend → Str
backend_label in_file = codes "file"
backend_label in_keychain = codes "keychain"

-- `Backend::parse`.
unfoldable pub parse_backend : Str → Result Backend
parse_backend value =
    if str_eq value (codes "file")
    then ok in_file
    else if str_eq value (codes "keychain")
    then ok in_keychain
    else err (config (unknown_store value))

-- A keychain in some state: what the platform's keychain offers.
pub record Keychain (K : Type 0) : Type 0 where
  pub item : K → Str → Result (Option Credential)
  pub set : K → Str → Credential → K × Result (Unit {0})
  pub delete : K → Str → K × Result Bool
  pub accounts : K → Result (List Str)
  pub check : K → Result (Unit {0})
