-- ===== src/Config/Store/Removed.antt =====
-- A server that is removed takes its credential along.
use mcpdial.Base.{
  Str, Bool, true, false, Option, none, some, if◌then◌else◌, Map, get_key, has_key, remove_key, ◌≡◌,
  refl, ◌∙◌, ap, str_eq_refl, get_key-remove_key, is_some,
}
use mcpdial.Protocol.Errors.{Error, Result, ok, err, ◌>>=◌}
use mcpdial.Config.Servers.{ServerConfig}
use mcpdial.Config.Credentials.{Backend, in_file, in_keychain, Keychain}
use mcpdial.Config.Files.{File, rewrite}
use mcpdial.Config.Store.{
  Store, server, backend, take_out, credential, remove_in, remove_credential, with_credential,
  remove_server,
}
use mcpdial.Config.Store.Items.{IsKeychain}

absent : {A : Type 0} (o : Option A) → is_some o ≡ false → o ≡ none
absent none h = refl
absent (some a) h = absurd (cc h)

-- What a file says no longer has the key.
abbrev Lost : {A : Type 0} → Str → File (Map A) → Type 0
Lost {A} name f = (m : Map A) × (f.content ≡ ok m) × (get_key name m ≡ none)

then_true : (r : Result Bool) → (r >>= λ _. ok true) ≡ ok true → (b : Bool) × (r ≡ ok b)
then_true (err e) h = absurd (cc h)
then_true (ok b) h = (b, refl)

gone : {A : Type 0} (name : Str) (m : Map A) → get_key name (remove_key name m) ≡ none
gone name m =
    get_key-remove_key name name m ∙ ap (λ b. if b then none else get_key name m) (str_eq_refl name)

taken_out :
    {A : Type 0} (name : Str) (m : Map A) (o : Option Error) (t b : Bool)
    → has_key name m ≡ t
    → (take_out name (record { content = ok m; refused = o })).1 ≡ ok b
    → Lost name ((take_out name (record { content = ok m; refused = o })).0)
unfolding take_out rewrite
taken_out {A} name m o false b e h = rw e (m, refl, absent (get_key name m) e)
taken_out {A} name m none true b e h = rw e (remove_key name m, refl, gone name m)
taken_out {A} name m (some x) true b e h = absurd (cc (rw e at h))

taken_from :
    {A : Type 0} (name : Str) (c : Result (Map A)) (o : Option Error) (b : Bool)
    → (take_out name (record { content = c; refused = o })).1 ≡ ok b
    → Lost name ((take_out name (record { content = c; refused = o })).0)
unfolding take_out rewrite
taken_from name (err e) o b h = absurd (cc h)
taken_from name (ok m) o b h = taken_out name m o (has_key name m) b refl h

-- A key that was taken out, or that was not there, is not there.
take_out-Lost :
    {A : Type 0} (name : Str) (f : File (Map A)) (b : Bool)
    → (take_out name f).1 ≡ ok b
    → Lost name ((take_out name f).0)
take_out-Lost name f b h = taken_from name f.content f.refused b h

module _ {K : Type 0} (kc : Keychain K) (laws : IsKeychain kc) (name : Str) where
  lost_credential :
      (now : Backend) (s : Store K) (b : Bool)
      → backend s ≡ ok now
      → (remove_in kc (ok now) name s).1 ≡ ok b
      → credential kc name ((remove_in kc (ok now) name s).0) ≡ ok none
  unfolding credential backend
  lost_credential in_file s b at_ h =
      let (m, read, none_) = take_out-Lost name s.credentials b h in rw (at_, read, none_) refl
  lost_credential in_keychain s b at_ h = rw at_ (laws.deleted_item s.keychain name b h)

  remove_credential-ok :
      (s : Store K) (r : Result Backend) (b : Bool)
      → backend s ≡ r
      → (remove_in kc r name s).1 ≡ ok b
      → credential kc name ((remove_in kc r name s).0) ≡ ok none
  remove_credential-ok s (err e) b at_ h = absurd (cc h)
  remove_credential-ok s (ok now) b at_ h = lost_credential now s b at_ h

  remove_in-servers :
      (s : Store K) (r : Result Backend) → ((remove_in kc r name s).0).servers ≡ s.servers
  remove_in-servers s (err e) = refl
  remove_in-servers s (ok in_file) = refl
  remove_in-servers s (ok in_keychain) = refl

  server-Lost :
      (t : Store K) (f : File (Map ServerConfig))
      → t.servers ≡ f
      → Lost name f
      → server name t ≡ ok none
  unfolding server
  server-Lost t f same (m, read, none_) = rw (same, read, none_) refl

  removed_with :
      (t : Store K) (r : Result Bool)
      → ((b : Bool) → r ≡ ok b → Lost name t.servers)
      → (with_credential kc name t r).1 ≡ ok true
      → (server name ((with_credential kc name t r).0) ≡ ok none)
        × (credential kc name ((with_credential kc name t r).0) ≡ ok none)
  unfolding remove_credential
  removed_with t (err e) lost h = absurd (cc h)
  removed_with t (ok false) lost h = absurd (cc h)
  removed_with t (ok true) lost h =
      let (b, e) = then_true ((remove_in kc (backend t) name t).1) h in
      (
        server-Lost _ t.servers (remove_in-servers t (backend t)) (lost true refl),
        remove_credential-ok t (backend t) b refl e,
      )

  -- Where a server was removed, looking it up finds nothing, and nor does looking its credential up in the
  -- backend that is set; what the other backend may still hold is not looked at.
  -- The keychain is any in which an item that was deleted is gone.
  pub remove_server-ok :
      (s : Store K)
      → (remove_server kc name s).1 ≡ ok true
      → (server name ((remove_server kc name s).0) ≡ ok none)
        × (credential kc name ((remove_server kc name s).0) ≡ ok none)
  unfolding remove_server remove_credential
  remove_server-ok s h =
      removed_with (record s { servers = (take_out name s.servers).0 })
        ((take_out name s.servers).1) (λ b e. take_out-Lost name s.servers b e) h
