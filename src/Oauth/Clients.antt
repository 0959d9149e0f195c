-- ===== src/Oauth/Clients.antt =====
-- src/oauth.rs: what the client calls itself towards an authorization server, and what a token response
-- makes of a credential.
use mcpdial.Base.{
  Str, Bool, true, false, Option, none, some, List, [], ◌∷◌, ℕ, if◌then◌else◌, str_eq, unwrap_or,
  codes, any, not, ◌&&◌, is_some, and_then, map_opt, or_else, find, ◌==◌, ◌+◌, ◌%◌, ◌^◌, is_empty,
  strip_prefix, split_once, ◌≡◌, ◌↔◌, arith,
}
use mcpdial.Json.{Value, index, as_str, as_u64}
use mcpdial.Protocol.Errors.{
  auth, usage, Result, ok, err, other_issuer, no_access_token, bad_metadata_url,
}
use mcpdial.Config.Credentials.{Credential}

abbrev pub client_secret_post : Str
client_secret_post = codes "client_secret_post"

abbrev pub client_secret_basic : Str
client_secret_basic = codes "client_secret_basic"

unfoldable pub client_auth_method : List Str → Str
client_auth_method supported =
    if any (λ s. str_eq s client_secret_basic) supported
      && not (any (λ s. str_eq s client_secret_post) supported)
    then client_secret_basic
    else client_secret_post

pub data Registration : Type 0 where
  pre_registered : Registration
  dynamic : Registration
  metadata_document : Registration

-- `Registration::as_str`.
abbrev pub registration_name : Registration → Str
registration_name pre_registered = codes "pre-registered"
registration_name dynamic = codes "dynamic"
registration_name metadata_document = codes "client_metadata_document"

-- `Registration::parse`.
unfoldable pub parse_registration : Str → Option Registration
parse_registration s =
    find (λ r. str_eq (registration_name r) s) (pre_registered ∷ dynamic ∷ metadata_document ∷ [])

unfoldable pub saved_registration : Credential → Registration
unfolding parse_registration
saved_registration c =
    unwrap_or (if is_some c.client_secret then pre_registered else dynamic)
      (and_then c.registration parse_registration)

abbrev registration_eq : Registration → Registration → Bool
registration_eq a b = str_eq (registration_name a) (registration_name b)

abbrev elsewhere : Credential → Str → Option Str → Option Str
elsewhere cred issuer none = none
elsewhere cred issuer (some saved) =
    if is_some cred.client_id
      && not (str_eq saved issuer)
      && not (registration_eq (saved_registration cred) metadata_document)
    then some saved
    else none

-- The issuer that a saved client id belongs to, where it is another.
unfoldable pub bound_elsewhere : Credential → Str → Option Str
unfolding saved_registration
bound_elsewhere cred issuer = elsewhere cred issuer cred.issuer

abbrev pub client_metadata_url : Str
client_metadata_url = codes "https://obiemunoz.github.io/mcpdial/client-metadata.json"

pub data ClientMetadata : Type 0 where
  if_advertised : ClientMetadata
  url : Str → ClientMetadata
  never : ClientMetadata

pub data ClientId : Type 0 where
  out_of_band : Str → ClientId
  document : Str → ClientId
  registered : Str → ClientId
  register : ClientId

abbrev dynamic_id : Option (Str × Registration) → ClientId
dynamic_id (some (id, dynamic)) = registered id
dynamic_id _ = register

abbrev by_metadata : ClientMetadata → Bool → Option (Str × Registration) → ClientId
by_metadata (url u) advertised saved = document u
by_metadata if_advertised true saved = document client_metadata_url
by_metadata if_advertised false saved = dynamic_id saved
by_metadata never advertised saved = dynamic_id saved

abbrev from_saved : ClientMetadata → Bool → Option (Str × Registration) → ClientId
from_saved metadata advertised (some (id, pre_registered)) = out_of_band id
from_saved metadata advertised saved = by_metadata metadata advertised saved

abbrev pub saved_id : Credential → Option (Str × Registration)
saved_id c = map_opt (λ id. (id, saved_registration c)) c.client_id

abbrev unless_given : Option Str → ClientId → ClientId
unless_given (some id) rest = out_of_band id
unless_given none rest = rest

-- `choose_client_id`, by the options that it reads.
unfoldable pub choose_client_id : Option Str → ClientMetadata → Option Credential → Bool → ClientId
unfolding saved_registration
choose_client_id given metadata saved advertised =
    unless_given given (from_saved metadata advertised (and_then saved saved_id))

-- `trim_end_matches('/')`.
unfoldable pub trim_slashes : Str → Str
trim_slashes [] = []
trim_slashes (c ∷ s) = elim (trim_slashes s) [
  | [] ↦ if c == b'/' then [] else c ∷ []
  | d ∷ r ↦ c ∷ d ∷ r
]

abbrev issuer_stated : Str → Option Str → Result Str
issuer_stated discovered none = ok discovered
issuer_stated discovered (some stated) =
    if str_eq (trim_slashes stated) (trim_slashes discovered)
    then ok stated
    else err (auth (other_issuer discovered stated))

unfoldable pub validated_issuer : Value → Str → Result Str
unfolding trim_slashes
validated_issuer metadata discovered =
    issuer_stated discovered (as_str (index metadata (codes "issuer")))

abbrev trim_front : Str → Str
trim_front [] = []
trim_front (c ∷ s) = if c == b'/' then trim_front s else c ∷ s

-- A URL of a metadata document is https and has a path.
unfoldable pub check_client_metadata_url : Str → Result (Unit {0})
unfolding split_once
check_client_metadata_url u =
    let path = and_then (strip_prefix (codes "https://") u) (split_once b'/') in
    if is_empty (trim_front (unwrap_or [] (map_opt (λ p. p.1) path)))
    then err (usage (bad_metadata_url u))
    else ok tt

abbrev not_empty : Option Str → Option Str
not_empty none = none
not_empty (some []) = none
not_empty (some (c ∷ s)) = some (c ∷ s)

abbrev with_token : ℕ → Value → Credential → Option Str → Result Credential
with_token now value base none = err (auth (no_access_token value))
with_token now value base (some access) = ok (record base {
  access_token = some access;
  refresh_token = or_else (as_str (index value (codes "refresh_token"))) base.refresh_token;
  expires_at = map_opt (λ s. (now + s) % 2 ^ 64) (as_u64 (index value (codes "expires_in")));
  scope = or_else (as_str (index value (codes "scope"))) base.scope;
})

-- `credential_from_token_response`, at a time; the sum wraps as a release build's does.
unfoldable pub credential_from_token_response : ℕ → Value → Credential → Result Credential
credential_from_token_response now value base =
    with_token now value base (not_empty (as_str (index value (codes "access_token"))))

-- Whether a metadata document goes before a dynamic registration.
abbrev pub prefers_document : ClientMetadata → Bool → Bool
prefers_document (url u) advertised = true
prefers_document if_advertised advertised = advertised
prefers_document never advertised = false

by_metadata-registered_iff :
    (metadata : ClientMetadata) (advertised : Bool) (o : Option (Str × Registration)) (id : Str)
    → (by_metadata metadata advertised o ≡ registered id)
      ↔ ((prefers_document metadata advertised ≡ false) × (o ≡ some (id, dynamic)))
by_metadata-registered_iff (url u) advertised o id = ground arith
by_metadata-registered_iff if_advertised true o id = ground arith
by_metadata-registered_iff if_advertised false none id = ground arith
by_metadata-registered_iff if_advertised false (some (j, dynamic)) id = ground arith
by_metadata-registered_iff if_advertised false (some (j, r)) id = ground arith
by_metadata-registered_iff never advertised none id = ground arith
by_metadata-registered_iff never advertised (some (j, dynamic)) id = ground arith
by_metadata-registered_iff never advertised (some (j, r)) id = ground arith

from_saved-registered_iff :
    (metadata : ClientMetadata) (advertised : Bool) (o : Option (Str × Registration)) (id : Str)
    → (from_saved metadata advertised o ≡ registered id)
      ↔ ((prefers_document metadata advertised ≡ false) × (o ≡ some (id, dynamic)))
from_saved-registered_iff metadata advertised (some (j, pre_registered)) id = ground arith
from_saved-registered_iff metadata advertised none id =
    by_metadata-registered_iff metadata advertised none id
from_saved-registered_iff metadata advertised (some (j, r)) id =
    by_metadata-registered_iff metadata advertised (some (j, r)) id

-- A client id of an earlier login is presented as a registered one exactly where none was given, no
-- metadata document goes first, and it was registered dynamically then.
pub choose_client_id-registered_iff :
    (given : Option Str) (metadata : ClientMetadata) (saved : Option Credential) (advertised : Bool)
    (id : Str)
    → (choose_client_id given metadata saved advertised ≡ registered id) ↔ (
        (given ≡ none)
        × (prefers_document metadata advertised ≡ false)
        × (and_then saved saved_id ≡ some (id, dynamic)))
unfolding choose_client_id
choose_client_id-registered_iff (some g) metadata saved advertised id = ground arith
choose_client_id-registered_iff none metadata saved advertised id =
    ground (arith, from_saved-registered_iff metadata advertised (and_then saved saved_id) id)
