-- ===== src/Config/Store/Kept.antt =====
-- No credential is lost while the credentials move from one backend to the other.
use mcpdial.Base.{
  Distinct, Str, true, Option, none, some, List, ℕ, if◌then◌else◌, unwrap_or, Map, get_key, length,
  ◌≡◌, refl, sym, subst, ◌∙◌, inl, inr, str_eq, any,
}
use mcpdial.Protocol.Errors.{Error, Result, ok, err, ◌>>=◌}
use mcpdial.Config.Credentials.{
  Credential, Backend, in_file, in_keychain, backend_label, parse_backend, Keychain,
}
use mcpdial.Config.Files.{File, written, rewrite-cases}
use mcpdial.Config.Store.{Store, saved_backend, backend, credential}
use mcpdial.Config.Store.Backends.{
  backend_eq, record_backend, without_file, emptied, set_all, recorded, file_to_keychain, checked,
  read_all, then_delete, then_record, filled_file, keychain_to_file, move_to, unless_there,
  unless_forced, use_backend,
}
use mcpdial.Config.Store.Items.{IsKeychain, ok_injective, set_all-item, read_all-kept}

module _ {K : Type 0} (kc : Keychain K) (laws : IsKeychain kc) (name : Str)
    (cred : Credential) where
  credential-in_file :
      (t : Store K) (file : Map Credential)
      → backend t ≡ ok in_file
      → t.credentials.content ≡ ok file
      → get_key name file ≡ some cred
      → credential kc name t ≡ ok (some cred)
  unfolding credential
  credential-in_file t file b read found = rw (b, read, found) refl

  credential-in_keychain :
      (t : Store K)
      → backend t ≡ ok in_keychain
      → kc.item t.keychain name ≡ ok (some cred)
      → credential kc name t ≡ ok (some cred)
  unfolding credential
  credential-in_keychain t b there = rw (b, there) refl

  backend-recorded :
      (to : Backend) (t : Store K) (f : File (Option Str))
      → t.forced ≡ none
      → f.content ≡ ok (some (backend_label to))
      → backend (record t { config_file = f }) ≡ ok to
  unfolding backend saved_backend parse_backend str_eq
  backend-recorded in_file t f free read = rw (free, read) refl
  backend-recorded in_keychain t f free read = rw (free, read) refl

  -- The last steps of the move to the keychain.
  removed_last :
      (moved : ℕ) (o : Option Error) (t : Store K)
      → backend t ≡ ok in_keychain
      → kc.item t.keychain name ≡ ok (some cred)
      → credential kc name ((without_file o moved t).0) ≡ ok (some cred)
  unfolding backend
  removed_last moved none t b there = credential-in_keychain _ b there
  removed_last moved (some e) t b there = credential-in_keychain t b there

  -- With the setting written to `p`, and what writing it ended in.
  abbrev AfterSetting : ℕ → Store K → File (Option Str) × Result (Unit {0}) → Type 0
  AfterSetting moved s p =
      credential kc name ((emptied moved (record s { config_file = p.0 }, p.1)).0) ≡ ok (some cred)

  after_setting :
      (moved : ℕ) (s : Store K) (x : K × Result (Unit {0})) (file : Map Credential)
      → s.forced ≡ none
      → backend s ≡ ok in_file
      → s.credentials.content ≡ ok file
      → get_key name file ≡ some cred
      → (x.1 ≡ ok tt → kc.item (x.0) name ≡ ok (some cred))
      → credential kc name ((recorded kc moved s x).0) ≡ ok (some cred)
  unfolding backend record_backend
  after_setting moved s (k, err e) file free b read found set =
      credential-in_file _ file b read found
  after_setting moved s (k, ok u) file free b read found set =
      elim (rewrite-cases (λ saved. some (backend_label in_keychain)) s.config_file) [
        | inl (e, same) ↦
            subst (AfterSetting moved (record s { keychain = k })) (sym same)
              (credential-in_file _ file b read found)
        | inr (a, was, now) ↦ subst (AfterSetting moved (record s { keychain = k })) (sym now) (
            removed_last moved s.removal _
              (backend-recorded in_keychain s
                (record s.config_file { content = ok (some (backend_label in_keychain)) }) free
                refl)
              (set refl))
      ]

  abbrev AfterDeleting : List Str → ℕ → Store K → File (Option Str) × Result (Unit {0}) → Type 0
  AfterDeleting names moved s p =
      credential kc name ((then_delete kc names moved (record s { config_file = p.0 }, p.1)).0)
      ≡ ok (some cred)

  after_writing :
      (names : List Str) (moved : ℕ) (s : Store K) (f : File (Map Credential))
      (file : Map Credential)
      → s.forced ≡ none
      → backend s ≡ ok in_keychain
      → kc.item s.keychain name ≡ ok (some cred)
      → f.content ≡ ok file
      → get_key name file ≡ some cred
      → credential kc name ((then_record kc names moved s (f, ok tt)).0) ≡ ok (some cred)
  unfolding backend record_backend
  after_writing names moved s f file free b there read found =
      elim (rewrite-cases (λ saved. some (backend_label in_file)) s.config_file) [
        | inl (e, same) ↦
            subst (AfterDeleting names moved (record s { credentials = f })) (sym same)
              (credential-in_keychain _ b there)
        | inr (a, was, now) ↦
            subst (AfterDeleting names moved (record s { credentials = f })) (sym now) (
              credential-in_file _ file
                (backend-recorded in_file s
                  (record s.config_file { content = ok (some (backend_label in_file)) }) free refl)
                read found)
      ]

  written_to :
      (names : List Str) (s : Store K) (file : Map Credential) (moved : ℕ) (o : Option Error)
      → s.forced ≡ none
      → backend s ≡ ok in_keychain
      → kc.item s.keychain name ≡ ok (some cred)
      → get_key name file ≡ some cred
      → credential kc name ((then_record kc names moved s (written file s.credentials o)).0)
        ≡ ok (some cred)
  unfolding backend
  written_to names s file moved none free b there found =
      after_writing names moved s (record s.credentials { content = ok file }) file free b there
        refl found
  written_to names s file moved (some e) free b there found = credential-in_keychain _ b there

  read_from :
      (names : List Str) (s : Store K) (c : Result (Map Credential))
      → kc.item s.keychain name ≡ ok (some cred)
      → any (str_eq name) names ≡ true
      → (done : Map Credential × ℕ)
      → (c >>= λ file. read_all kc names s.keychain (file, 0)) ≡ ok done
      → get_key name (done.0) ≡ some cred
  read_from names s (err e) there among done r = absurd (cc r)
  read_from names s (ok file) there among done r =
      read_all-kept kc laws name cred names s.keychain (file, 0) done there (inr among) r

  to_file :
      (names : List Str) (s : Store K) (r : Result (Map Credential × ℕ))
      → s.forced ≡ none
      → backend s ≡ ok in_keychain
      → kc.item s.keychain name ≡ ok (some cred)
      → ((done : Map Credential × ℕ) → r ≡ ok done → get_key name (done.0) ≡ some cred)
      → credential kc name ((filled_file kc names s r).0) ≡ ok (some cred)
  to_file names s (err e) free b there found = credential-in_keychain s b there
  to_file names s (ok (file, moved)) free b there found =
      written_to names s file moved s.credentials.refused free b there (found (file, moved) refl)

  from_keychain :
      (s : Store K) (names : Result (List Str))
      → kc.accounts s.keychain ≡ names
      → s.forced ≡ none
      → backend s ≡ ok in_keychain
      → kc.item s.keychain name ≡ ok (some cred)
      → credential kc name ((keychain_to_file kc names s).0) ≡ ok (some cred)
  from_keychain s (err e) listed free b there = credential-in_keychain s b there
  from_keychain s (ok names) listed free b there =
      to_file names s (s.credentials.content >>= λ file. read_all kc names s.keychain (file, 0))
        free b there
        (read_from names s s.credentials.content there
          (laws.listed s.keychain name cred names there listed))

  from_file :
      (s : Store K) (c : Result (Unit {0})) (file : Map Credential)
      → Distinct file
      → s.forced ≡ none
      → backend s ≡ ok in_file
      → s.credentials.content ≡ ok file
      → get_key name file ≡ some cred
      → credential kc name ((checked kc c s).0) ≡ ok (some cred)
  from_file s (err e) file d free b read found = credential-in_file s file b read found
  from_file s (ok u) file d free b read found =
      subst (λ r. credential kc name ((file_to_keychain kc r s).0) ≡ ok (some cred)) (sym read)
        (after_setting (length file) s (set_all kc file s.keychain) file free b read found
          (λ e. set_all-item kc laws name cred file s.keychain d e found))

  -- Nothing is moved where the environment says where credentials are.
  not_forced :
      (to : Backend) (s : Store K) (o : Option (Result Backend))
      → credential kc name s ≡ ok (some cred)
      → (o ≡ none
          → credential kc name ((unless_there kc to s (saved_backend s)).0) ≡ ok (some cred))
      → credential kc name ((unless_forced kc to s o).0) ≡ ok (some cred)
  not_forced to s none found rest = rest refl
  not_forced to s (some (err e)) found rest = found
  not_forced to s (some (ok b)) found rest = found

  found_in_file :
      (s : Store K) (file : Map Credential)
      → backend s ≡ ok in_file
      → s.credentials.content ≡ ok file
      → credential kc name s ≡ ok (get_key name file)
  unfolding credential
  found_in_file s file b read = rw (b, read) refl

  found_in_keychain :
      (s : Store K) → backend s ≡ ok in_keychain → credential kc name s ≡ kc.item s.keychain name
  unfolding credential
  found_in_keychain s b = rw b refl

  moved_between :
      (now to : Backend) (s : Store K) (file : Map Credential)
      → s.credentials.content ≡ ok file
      → Distinct file
      → s.forced ≡ none
      → credential kc name s ≡ ok (some cred)
      → backend s ≡ ok now
      → credential kc name ((if backend_eq now to then (s, ok none) else move_to kc to s).0)
        ≡ ok (some cred)
  moved_between in_file in_file s file read d free found b = found
  moved_between in_keychain in_keychain s file read d free found b = found
  moved_between in_file in_keychain s file read d free found b =
      from_file s (kc.check s.keychain) file d free b read
        (ok_injective (sym (found_in_file s file b read) ∙ found))
  moved_between in_keychain in_file s file read d free found b =
      from_keychain s (kc.accounts s.keychain) refl free b (sym (found_in_keychain s b) ∙ found)

  backend-saved :
      (s : Store K) (o : Option Backend)
      → s.forced ≡ none
      → saved_backend s ≡ ok o
      → backend s ≡ ok (unwrap_or in_file o)
  unfolding backend
  backend-saved s o free saved = rw (free, saved) refl

  settled :
      (to : Backend) (s : Store K) (file : Map Credential) (saved : Result (Option Backend))
      → s.credentials.content ≡ ok file
      → Distinct file
      → s.forced ≡ none
      → credential kc name s ≡ ok (some cred)
      → saved_backend s ≡ saved
      → credential kc name ((unless_there kc to s saved).0) ≡ ok (some cred)
  settled to s file (err e) read d free found says = found
  settled to s file (ok o) read d free found says =
      moved_between (unwrap_or in_file o) to s file read d free found (backend-saved s o free says)

  -- A credential that is found before a move is found after it, by whichever backend is set then,
  -- whatever the files and the keychain refuse on the way. The keychain is any that keeps what is set,
  -- and the file of credentials can be read and its names are distinct.
  pub credential-use_backend :
      (to : Backend) (s : Store K) (file : Map Credential)
      → s.credentials.content ≡ ok file
      → Distinct file
      → credential kc name s ≡ ok (some cred)
      → credential kc name ((use_backend kc to s).0) ≡ ok (some cred)
  unfolding use_backend
  credential-use_backend to s file read d found =
      not_forced to s s.forced found
        (λ free. settled to s file (saved_backend s) read d free found refl)
