-- ===== src/Base/Maps.antt =====
-- A `BTreeMap<String, T>`: its entries in the order of their keys.
use mathlib.Core.Path.{◌≡◌, refl, sym, ap, ◌∙◌}
use mathlib.Core.Logic.{inl, inr}
use mathlib.Core.Bool.{Bool, false, not}
use mathlib.Core.Option.{Option, none, some}
use mathlib.Core.List.{List, [], ◌∷◌}
use native.Mathlib.Omega.{arith}
use mcpdial.Base.Tests.{if◌then◌else◌, is_some, Bool-cases}
use mcpdial.Base.Texts.{Str, str_eq, str_lt, str_eq_iff}

abbrev pub Map {ℓ} : Type ℓ → Type ℓ
Map A = List (Str × A)

module _ {ℓ} {A : Type ℓ} where
  -- `map.get(k)`.
  unfoldable pub get_key : Str → Map A → Option A
  get_key k [] = none
  get_key k ((j, a) ∷ m) = if str_eq j k then some a else get_key k m

  -- `map.insert(k, a)`.
  unfoldable pub put_key : Str → A → Map A → Map A
  put_key k a [] = (k, a) ∷ []
  put_key k a ((j, b) ∷ m) =
      let later = (j, b) ∷ put_key k a m in
      if str_eq j k then (k, a) ∷ m else if str_lt k j then (k, a) ∷ (j, b) ∷ m else later

  -- `map.retain(keep)`.
  abbrev pub retain : (Str → A → Bool) → Map A → Map A
  retain keep [] = []
  retain keep ((j, a) ∷ m) = let rest = retain keep m in if keep j a then (j, a) ∷ rest else rest

  -- `map.remove(k)`.
  unfoldable pub remove_key : Str → Map A → Map A
  remove_key k m = retain (λ j a. not (str_eq j k)) m

  -- `map.contains_key(k)`.
  abbrev pub has_key : Str → Map A → Bool
  has_key k m = is_some (get_key k m)

  pub get_key-put_key :
      (j k : Str) (a : A) (m : Map A)
      → get_key k (put_key j a m) ≡ (if str_eq j k then some a else get_key k m)
  unfolding get_key put_key
  get_key-put_key j k a [] = refl
  get_key-put_key j k a ((i, b) ∷ m) =
      ground (arith, str_eq_iff j k, str_eq_iff i j, str_eq_iff i k, get_key-put_key j k a m)

  retained :
      (keep : Str → Bool) (i k : Str) (b : A) (m : Map A)
      → get_key k (retain (λ j a. keep j) m) ≡ (if keep k then get_key k m else none)
      → get_key k (retain (λ j a. keep j) ((i, b) ∷ m))
        ≡ (if keep k then get_key k ((i, b) ∷ m) else none)
  unfolding get_key
  retained keep i k b m e = elim (Bool-cases (str_eq i k)) [
    | inl same ↦ elim (Bool-cases (keep i)) [
      | inl h ↦ rw (h, same, sym (ap keep ((str_eq_iff i k).0 same)) ∙ h) refl
      | inr h ↦
          rw (h, same, sym (ap keep ((str_eq_iff i k).0 same)) ∙ h)
            (e
              ∙ ap (λ c. if c then get_key k m else none)
                  (sym (ap keep ((str_eq_iff i k).0 same)) ∙ h))
    ]
    | inr other ↦ elim (Bool-cases (keep i)) [ inl h ↦ rw (h, other) e | inr h ↦ rw (h, other) e ]
  ]

  -- Keeping by the key alone.
  pub get_key-retain :
      (keep : Str → Bool) (k : Str) (m : Map A)
      → get_key k (retain (λ j a. keep j) m) ≡ (if keep k then get_key k m else none)
  unfolding get_key
  get_key-retain keep k [] = ground arith
  get_key-retain keep k ((i, b) ∷ m) = retained keep i k b m (get_key-retain keep k m)

  pub get_key-remove_key :
      (j k : Str) (m : Map A)
      → get_key k (remove_key j m) ≡ (if str_eq k j then none else get_key k m)
  unfolding remove_key
  get_key-remove_key j k m = get_key-retain (λ i. not (str_eq i j)) k m ∙ ground arith

-- The keys of a map, each once.
abbrev pub Distinct : {A : Type 0} → Map A → Type 0
Distinct [] = Unit
Distinct ((k, a) ∷ m) = (has_key k m ≡ false) × Distinct m
