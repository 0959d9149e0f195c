-- ===== src/Config/Store/Backends.antt =====
-- src/config.rs, `Store::use_backend`: moving the credentials between the file and the keychain.
use mcpdial.Base.{
  Str, Bool, true, false, Option, none, some, List, [], ◌∷◌, ℕ, suc, if◌then◌else◌, unwrap_or, Map,
  put_key, length,
}
use mcpdial.Protocol.Errors.{
  Error, Result, ok, err, ◌>>=◌, usage, config, forced_store, not_removed,
}
use mcpdial.Config.Credentials.{Credential, Backend, in_file, in_keychain, backend_label, Keychain}
use mcpdial.Config.Files.{File, write_json, rewrite}
use mcpdial.Config.Store.{Store, saved_backend}

abbrev pub backend_eq : Backend → Backend → Bool
backend_eq in_file in_file = true
backend_eq in_keychain in_keychain = true
backend_eq _ _ = false

-- What moving ends in: how many credentials moved, or nothing where there was nothing to do.
abbrev pub Moved : Type 0
Moved = Result (Option ℕ)

-- The loop that reads the items, with how many there were.
abbrev pub taken_in : Str → Option Credential → Map Credential × ℕ → Map Credential × ℕ
taken_in account none (file, moved) = (file, moved)
taken_in account (some cred) (file, moved) = (put_key account cred file, suc moved)

module _ {K : Type 0} where
  -- `for (name, cred) in &file { keychain::set(..)?; }`
  abbrev pub then_all :
      Map Credential → K × Result (Unit {0}) → (K → K × Result (Unit {0})) → K × Result (Unit {0})
  then_all m (k, err e) next = (k, err e)
  then_all m (k, ok _) next = next k

  -- `Store::record_backend`.
  unfoldable pub record_backend : Backend → Store K → Store K × Result (Unit {0})
  record_backend to s =
      let (f, r) = rewrite (λ saved. some (some (backend_label to))) s.config_file in
      (record s { config_file = f }, r)

  -- `fs::remove_file` on the credentials file, which then reads as empty.
  abbrev pub without_file : Option Error → ℕ → Store K → Store K × Moved
  without_file none moved s =
      (record s { credentials = record s.credentials { content = ok [] } }, ok (some moved))
  without_file (some e) moved s = (s, err (config not_removed))

  abbrev pub emptied : ℕ → Store K × Result (Unit {0}) → Store K × Moved
  emptied moved (s, err e) = (s, err e)
  emptied moved (s, ok _) = without_file s.removal moved s

module _ {K : Type 0} (kc : Keychain K) where
  unfoldable pub set_all : Map Credential → K → K × Result (Unit {0})
  set_all [] k = (k, ok tt)
  set_all ((name, cred) ∷ m) k = then_all m (kc.set k name cred) (λ k. set_all m k)

  abbrev pub recorded : ℕ → Store K → K × Result (Unit {0}) → Store K × Moved
  recorded moved s (k, err e) = (record s { keychain = k }, err e)
  recorded moved s (k, ok _) =
      emptied moved (record_backend in_keychain (record s { keychain = k }))

  abbrev pub file_to_keychain : Result (Map Credential) → Store K → Store K × Moved
  file_to_keychain (err e) s = (s, err e)
  file_to_keychain (ok file) s = recorded (length file) s (set_all file s.keychain)

  -- To the keychain: every credential is set there before the setting changes, and the file goes last.
  abbrev pub checked : Result (Unit {0}) → Store K → Store K × Moved
  checked (err e) s = (s, err e)
  checked (ok _) s = file_to_keychain s.credentials.content s

  unfoldable pub read_all : List Str → K → Map Credential × ℕ → Result (Map Credential × ℕ)
  read_all [] k sofar = ok sofar
  read_all (account ∷ accounts) k sofar =
      kc.item k account >>= λ c. read_all accounts k (taken_in account c sofar)

  unfoldable pub delete_all : List Str → K → K × Result (Unit {0})
  delete_all [] k = (k, ok tt)
  delete_all (account ∷ accounts) k =
      let (k1, r) = kc.delete k account in
      elim r [ err e ↦ (k1, err e) | ok _ ↦ delete_all accounts k1 ]

  abbrev pub deleted : ℕ → Store K → K × Result (Unit {0}) → Store K × Moved
  deleted moved s (k, r) = (record s { keychain = k }, r >>= λ _. ok (some moved))

  abbrev pub then_delete : List Str → ℕ → Store K × Result (Unit {0}) → Store K × Moved
  then_delete accounts moved (s, err e) = (s, err e)
  then_delete accounts moved (s, ok _) = deleted moved s (delete_all accounts s.keychain)

  abbrev pub then_record :
      List Str → ℕ → Store K → File (Map Credential) × Result (Unit {0}) → Store K × Moved
  then_record accounts moved s (f, err e) = (record s { credentials = f }, err e)
  then_record accounts moved s (f, ok _) =
      then_delete accounts moved (record_backend in_file (record s { credentials = f }))

  abbrev pub filled_file : List Str → Store K → Result (Map Credential × ℕ) → Store K × Moved
  filled_file accounts s (err e) = (s, err e)
  filled_file accounts s (ok (file, moved)) =
      then_record accounts moved s (write_json file s.credentials)

  -- To the file: every item is written there before the setting changes, and the items go last.
  abbrev pub keychain_to_file : Result (List Str) → Store K → Store K × Moved
  keychain_to_file (err e) s = (s, err e)
  keychain_to_file (ok accounts) s =
      filled_file accounts s
        (s.credentials.content >>= λ file. read_all accounts s.keychain (file, 0))

  abbrev pub move_to : Backend → Store K → Store K × Moved
  move_to in_keychain s = checked (kc.check s.keychain) s
  move_to in_file s = keychain_to_file (kc.accounts s.keychain) s

  abbrev pub unless_there : Backend → Store K → Result (Option Backend) → Store K × Moved
  unless_there to s (err e) = (s, err e)
  unless_there to s (ok saved) =
      if backend_eq (unwrap_or in_file saved) to then (s, ok none) else move_to to s

  abbrev pub unless_forced : Backend → Store K → Option (Result Backend) → Store K × Moved
  unless_forced to s none = unless_there to s (saved_backend s)
  unless_forced to s (some (err e)) = (s, err e)
  unless_forced to s (some (ok b)) = (s, err (usage (forced_store (backend_label b))))

  unfoldable pub use_backend : Backend → Store K → Store K × Moved
  unfolding set_all read_all delete_all record_backend saved_backend
  use_backend to s = unless_forced to s s.forced
