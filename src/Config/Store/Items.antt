-- ===== src/Config/Store/Items.antt =====
-- What a keychain does, and what the loops that fill it and read it leave there.
use mcpdial.Base.{
  Distinct, Bool, Str, true, false, Option, none, some, List, [], ◌∷◌, ℕ, if◌then◌else◌, Map,
  get_key, has_key, ◌≡◌, refl, ap, sym, subst, ◌∙◌, ◌⊎◌, inl, inr, str_eq, str_eq_iff, str_eq-false,
  Bool-cases, any, arith, get_key-put_key,
}
use mcpdial.Protocol.Errors.{Result, ok, err, ◌>>=◌}
use mcpdial.Config.Credentials.{Credential, Keychain}
use mcpdial.Config.Store.Backends.{then_all, set_all, taken_in, read_all}

-- What a keychain does: an item that was set is there, other items stay, an item that is there has its
-- account listed, and one that was deleted is gone.
pub record IsKeychain {K : Type 0} (kc : Keychain K) : Type 0 where
  pub set_item :
      (k : K) (n : Str) (c : Credential)
      → (kc.set k n c).1 ≡ ok tt
      → kc.item ((kc.set k n c).0) n ≡ ok (some c)
  pub set_other :
      (k : K) (n m : Str) (c : Credential)
      → str_eq n m ≡ false
      → kc.item ((kc.set k n c).0) m ≡ kc.item k m
  pub listed :
      (k : K) (n : Str) (c : Credential) (names : List Str)
      → kc.item k n ≡ ok (some c)
      → kc.accounts k ≡ ok names
      → any (str_eq n) names ≡ true
  pub deleted_item :
      (k : K) (n : Str) (b : Bool)
      → (kc.delete k n).1 ≡ ok b
      → kc.item ((kc.delete k n).0) n ≡ ok none

some_injective : {A : Type 0} {a b : A} → some a ≡ some b → a ≡ b
some_injective e = cc e

pub ok_injective : {A : Type 0} {a b : A} → ok a ≡ ok b → a ≡ b
ok_injective e = cc e

none-ne-some : {A : Type 0} {a : A} → ¬ (ok none ≡ ok (some a))
none-ne-some e = cc e

module _ {K : Type 0} (kc : Keychain K) (laws : IsKeychain kc) (name : Str)
    (cred : Credential) where
  -- What the loop does not name stays.
  other_step :
      (m : Map Credential) (k : K) (x : K × Result (Unit {0}))
      → kc.item (x.0) name ≡ kc.item k name
      → ((k1 : K) → kc.item ((set_all kc m k1).0) name ≡ kc.item k1 name)
      → kc.item ((then_all m x (λ k1. set_all kc m k1)).0) name ≡ kc.item k name
  other_step m k (k1, err e) h rest = h
  other_step m k (k1, ok u) h rest = rest k1 ∙ h

  set_all-other :
      (m : Map Credential) (k : K)
      → has_key name m ≡ false
      → kc.item ((set_all kc m k).0) name ≡ kc.item k name
  unfolding set_all get_key
  set_all-other [] k h = refl
  set_all-other ((n, c) ∷ m) k h =
      other_step m k (kc.set k n c) (laws.set_other k n name c (ground arith))
        (λ k1. set_all-other m k1 (ground arith))

  item_step :
      (m : Map Credential) (x : K × Result (Unit {0}))
      → (x.1 ≡ ok tt → kc.item (x.0) name ≡ ok (some cred))
      → ((k1 : K) → kc.item ((set_all kc m k1).0) name ≡ kc.item k1 name)
      → (then_all m x (λ k1. set_all kc m k1)).1 ≡ ok tt
      → kc.item ((then_all m x (λ k1. set_all kc m k1)).0) name ≡ ok (some cred)
  item_step m (k1, err e) h rest done = h done
  item_step m (k1, ok u) h rest done = rest k1 ∙ h refl

  later_step :
      (m : Map Credential) (x : K × Result (Unit {0}))
      → ((k1 : K)
          → (set_all kc m k1).1 ≡ ok tt
          → kc.item ((set_all kc m k1).0) name ≡ ok (some cred))
      → (then_all m x (λ k1. set_all kc m k1)).1 ≡ ok tt
      → kc.item ((then_all m x (λ k1. set_all kc m k1)).0) name ≡ ok (some cred)
  later_step m (k1, err e) rest done = absurd (cc done)
  later_step m (k1, ok u) rest done = rest k1 done

  head_item :
      (n : Str) (c : Credential) (m : Map Credential)
      → str_eq n name ≡ true
      → get_key name ((n, c) ∷ m) ≡ some cred
      → c ≡ cred
  unfolding get_key
  head_item n c m same h =
      some_injective (sym (ap (λ b. if b then some c else get_key name m) same) ∙ h)

  pub set_all-item :
      (m : Map Credential) (k : K)
      → Distinct m
      → (set_all kc m k).1 ≡ ok tt
      → get_key name m ≡ some cred
      → kc.item ((set_all kc m k).0) name ≡ ok (some cred)
  unfolding set_all get_key
  set_all-item [] k d e h = absurd (cc h)
  set_all-item ((n, c) ∷ m) k (fresh, d) e h = elim (Bool-cases (str_eq n name)) [
    | inl same ↦
        item_step m (kc.set k n c)
          (λ e0.
            subst (λ x. kc.item ((kc.set k n c).0) x ≡ ok (some cred)) ((str_eq_iff n name).0 same)
              (laws.set_item k n c e0 ∙ ap (λ x. ok (some x)) (head_item n c m same h)))
          (λ k1.
            set_all-other m k1
              (subst (λ x. has_key x m ≡ false) ((str_eq_iff n name).0 same) fresh))
          e
    | inr other ↦ later_step m (kc.set k n c) (λ k1 e1. set_all-item m k1 d e1 (ground arith)) e
  ]

  -- An item that is read is kept, and found where it was not there yet.
  taken_in-found :
      (n : Str) (k : K) (c : Option Credential) (sofar : Map Credential × ℕ)
      → kc.item k name ≡ ok (some cred)
      → kc.item k n ≡ ok c
      → (get_key name (sofar.0) ≡ some cred) ⊎ (n ≡ name)
      → get_key name ((taken_in n c sofar).0) ≡ some cred
  taken_in-found n k none sofar there e (inl h) = h
  taken_in-found n k none sofar there e (inr same) =
      absurd (none-ne-some (sym e ∙ ap (kc.item k) same ∙ there))
  taken_in-found n k (some c) sofar there e h = elim (Bool-cases (str_eq n name)) [
    | inl same ↦
        get_key-put_key n name c (sofar.0)
        ∙ ap (λ b. if b then some c else get_key name (sofar.0)) same
        ∙ ok_injective (sym e ∙ ap (kc.item k) ((str_eq_iff n name).0 same) ∙ there)
    | inr other ↦
        get_key-put_key n name c (sofar.0)
        ∙ ap (λ b. if b then some c else get_key name (sofar.0)) other
        ∙ elim h [ inl there ↦ there | inr same ↦ absurd (str_eq-false n name other same) ]
  ]

  read_step :
      (n : Str) (names : List Str) (k : K) (w : Result (Option Credential))
      (sofar done : Map Credential × ℕ)
      → kc.item k name ≡ ok (some cred)
      → kc.item k n ≡ w
      → (get_key name (sofar.0) ≡ some cred) ⊎ (any (str_eq name) (n ∷ names) ≡ true)
      → ((next : Map Credential × ℕ)
          → (get_key name (next.0) ≡ some cred) ⊎ (any (str_eq name) names ≡ true)
          → read_all kc names k next ≡ ok done
          → get_key name (done.0) ≡ some cred)
      → (w >>= λ c. read_all kc names k (taken_in n c sofar)) ≡ ok done
      → get_key name (done.0) ≡ some cred
  read_step n names k (err x) sofar done there e h rest r = absurd (cc r)
  read_step n names k (ok c) sofar done there e h rest r =
      rest (taken_in n c sofar)
        (elim h [
          | inl kept ↦ inl (taken_in-found n k c sofar there e (inl kept))
          | inr among ↦ elim (Bool-cases (str_eq name n)) [
            | inl same ↦
                inl (taken_in-found n k c sofar there e (inr (sym ((str_eq_iff name n).0 same))))
            | inr other ↦ inr (ground arith)
          ]
        ])
        r

  pub read_all-kept :
      (names : List Str) (k : K) (sofar done : Map Credential × ℕ)
      → kc.item k name ≡ ok (some cred)
      → (get_key name (sofar.0) ≡ some cred) ⊎ (any (str_eq name) names ≡ true)
      → read_all kc names k sofar ≡ ok done
      → get_key name (done.0) ≡ some cred
  unfolding read_all
  read_all-kept [] k sofar done there (inl h) e =
      subst (λ x. get_key name (x.0) ≡ some cred) (ok_injective e) h
  read_all-kept [] k sofar done there (inr h) e = absurd (cc h)
  read_all-kept (n ∷ names) k sofar done there h e =
      read_step n names k (kc.item k n) sofar done there refl h
        (λ next h e. read_all-kept names k next done there h e) e
