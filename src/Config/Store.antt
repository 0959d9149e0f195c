-- ===== src/Config/Store.antt =====
-- src/config.rs, `Store`: the operations on saved servers and on credentials, in the file or in the
-- keychain.
pub mod Backends
pub mod Items
pub mod Kept
pub mod Removed
use mcpdial.Base.{
  Str, Bool, true, false, Option, none, some, List, [], ◌∷◌, ℕ, if◌then◌else◌, unwrap_or, Map,
  get_key, put_key, remove_key, has_key, codes, all, ◌&&◌, ◌||◌, not, is_empty, leb, length,
  is_digit, ◌==◌, contains, starts_with, lower_ascii, map_opt,
}
use mcpdial.Protocol.Errors.{
  Error, Result, ok, err, ◌>>=◌, usage, config, bad_server_name, forced_store,
}
use mcpdial.Config.Servers.{ServerConfig}
use mcpdial.Config.Credentials.{
  Credential, Backend, in_file, in_keychain, backend_label, parse_backend, Keychain,
}
use mcpdial.Config.Files.{File, write_json, rewrite}

-- The files of the store, the keychain, and what the environment says about the backend.
pub record Store (K : Type 0) : Type 0 where
  pub servers : File (Map ServerConfig)
  pub credentials : File (Map Credential)
  pub config_file : File (Option Str)
  pub keychain : K
  -- what removing the credentials file ends in; it may be missing
  pub removal : Option Error
  pub forced : Option (Result Backend)

abbrev pub is_alphanumeric : ℕ → Bool
is_alphanumeric c = is_digit c || (leb b'a' (lower_ascii c) && leb (lower_ascii c) b'z')

abbrev is_name_char : ℕ → Bool
is_name_char c = is_alphanumeric c || c == b'-' || c == b'_' || c == b'.'

-- A name whose characters are all admitted is ASCII, so its bytes are its characters.
unfoldable pub validate_name : Str → Result (Unit {0})
validate_name name =
    if not (is_empty name)
      && leb (length name) 64
      && all is_name_char name
      && not (contains (codes "://") name)
      && not (starts_with (codes "stdio:") name)
    then ok tt
    else err (usage (bad_server_name name))

module _ {K : Type 0} where
  -- `Store::server`.
  unfoldable pub server : Str → Store K → Result (Option ServerConfig)
  server name s = s.servers.content >>= λ servers. ok (get_key name servers)

  abbrev saved_servers :
      Store K → File (Map ServerConfig) × Result (Unit {0}) → Store K × Result (Unit {0})
  saved_servers s (f, r) = (record s { servers = f }, r)

  abbrev add_valid : Result (Unit {0}) → Str → ServerConfig → Store K → Store K × Result (Unit {0})
  add_valid (err e) name cfg s = (s, err e)
  add_valid (ok _) name cfg s =
      saved_servers s (rewrite (λ servers. some (put_key name cfg servers)) s.servers)

  unfoldable pub add_server : Str → ServerConfig → Store K → Store K × Result (Unit {0})
  unfolding validate_name
  add_server name cfg s = add_valid (validate_name name) name cfg s

  -- `saved_backend` and `backend`.
  unfoldable pub saved_backend : Store K → Result (Option Backend)
  unfolding parse_backend
  saved_backend s = s.config_file.content >>= λ saved. elim saved [
    | none ↦ ok none
    | some label ↦ parse_backend label >>= λ b. ok (some b)
  ]

  unfoldable pub backend : Store K → Result Backend
  unfolding saved_backend
  backend s = elim s.forced [
    | some forced ↦ forced
    | none ↦ saved_backend s >>= λ saved. ok (unwrap_or in_file saved)
  ]

-- `remove` on the map of a file, written only where there was such a key.
unfoldable pub take_out : {A : Type 0} → Str → File (Map A) → File (Map A) × Result Bool
take_out name f =
    let (g, r) = rewrite (λ m. if has_key name m then some (remove_key name m) else none) f in
    (g, r >>= λ _. f.content >>= λ m. ok (has_key name m))

module _ {K : Type 0} (kc : Keychain K) where
  -- `Store::credential`.
  unfoldable pub credential : Str → Store K → Result (Option Credential)
  unfolding backend
  credential name s = backend s >>= λ b. elim b [
    | in_file ↦ s.credentials.content >>= λ m. ok (get_key name m)
    | in_keychain ↦ kc.item s.keychain name
  ]

  -- The loop of `credentials` over the accounts of the keychain.
  unfoldable pub collect : K → List Str → Map Credential → Result (Map Credential)
  collect k [] found = ok found
  collect k (account ∷ accounts) found = kc.item k account >>= λ c. elim c [
    | some cred ↦ collect k accounts (put_key account cred found)
    | none ↦ collect k accounts found
  ]

  -- `Store::credentials`.
  unfoldable pub credentials_of : Store K → Result (Map Credential)
  unfolding backend collect
  credentials_of s = backend s >>= λ b. elim b [
    | in_file ↦ s.credentials.content
    | in_keychain ↦ kc.accounts s.keychain >>= λ accounts. collect s.keychain accounts []
  ]

  abbrev saved_file : {R : Type 0} → Store K → File (Map Credential) × Result R → Store K × Result R
  saved_file s (f, r) = (record s { credentials = f }, r)

  abbrev saved_chain : {R : Type 0} → Store K → K × Result R → Store K × Result R
  saved_chain s (k, r) = (record s { keychain = k }, r)

  abbrev save_in : Result Backend → Str → Credential → Store K → Store K × Result (Unit {0})
  save_in (err e) name cred s = (s, err e)
  save_in (ok in_file) name cred s =
      saved_file s (rewrite (λ m. some (put_key name cred m)) s.credentials)
  save_in (ok in_keychain) name cred s = saved_chain s (kc.set s.keychain name cred)

  unfoldable pub save_credential : Str → Credential → Store K → Store K × Result (Unit {0})
  unfolding backend
  save_credential name cred s = save_in (backend s) name cred s

  abbrev remove_in : Result Backend → Str → Store K → Store K × Result Bool
  remove_in (err e) name s = (s, err e)
  remove_in (ok in_file) name s = saved_file s (take_out name s.credentials)
  remove_in (ok in_keychain) name s = saved_chain s (kc.delete s.keychain name)

  unfoldable pub remove_credential : Str → Store K → Store K × Result Bool
  unfolding backend take_out
  remove_credential name s = remove_in (backend s) name s

  -- The end of `remove_server`: a server that was removed takes its credential along.
  abbrev with_credential : Str → Store K → Result Bool → Store K × Result Bool
  with_credential name s (err e) = (s, err e)
  with_credential name s (ok false) = (s, ok false)
  with_credential name s (ok true) =
      let (t, r) = remove_credential name s in (t, r >>= λ _. ok true)

  unfoldable pub remove_server : Str → Store K → Store K × Result Bool
  unfolding take_out
  remove_server name s =
      let (f, r) = take_out name s.servers in with_credential name (record s { servers = f }) r
