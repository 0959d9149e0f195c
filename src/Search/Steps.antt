-- ===== src/Search/Steps.antt =====
-- The loop of `newest_per_repository`, one hit at a time, whatever the keys and the dates are.
use mcpdial.Base.{
  Str, Bool, true, false, Option, none, some, List, [], ◌∷◌, ℕ, zero, suc, str_eq, str_lt,
  str_eq_iff, str_eq-false, str_lt_irrefl, if◌then◌else◌, not, ◌&&◌, ◌==◌, ==_iff, unwrap_or,
  get_elem?, Map, get_key, put_key, get_key-put_key, ◌≡◌, refl, ap, sym, subst, ◌∙◌, ◌<◌, ◌≤◌,
  arith, Bool-cases, inl, inr,
}
use mcpdial.Search.{drop_at}

-- What is not after `a` is not after what comes behind `a`.
str_lt-behind : (a b c : Str) → str_lt a b ≡ true → str_lt a c ≡ false → str_lt b c ≡ false
unfolding str_lt
str_lt-behind a [] c h e = absurd (cc h)
str_lt-behind a (y ∷ b) [] h e = refl
str_lt-behind [] (y ∷ b) (z ∷ c) h e = absurd (cc e)
str_lt-behind (x ∷ a) (y ∷ b) (z ∷ c) h e = ground (arith, str_lt-behind a b c)

abbrev pub kept_at : List Bool → ℕ → Bool
kept_at keep j = unwrap_or false (get_elem? keep j)

kept_at-drop_at :
    (i j : ℕ) (keep : List Bool) → kept_at (drop_at i keep) j ≡ (kept_at keep j && not (j == i))
kept_at-drop_at i j [] = refl
kept_at-drop_at zero zero (b ∷ keep) = ground arith
kept_at-drop_at zero (suc j) (b ∷ keep) = ground arith
kept_at-drop_at (suc i) zero (b ∷ keep) = ground arith
kept_at-drop_at (suc i) (suc j) (b ∷ keep) = ground (arith, kept_at-drop_at i j keep)

-- What the loop knows after `i` hits, of their keys and dates.
module _ (key : ℕ → Option Str) (date : ℕ → Str) where
  -- A hit that is the newest of its key so far is kept.
  abbrev Stands : Map ℕ → List Bool → ℕ → Type 0
  Stands newest keep i =
      (k : Str) (m : ℕ)
      → get_key k newest ≡ some m
      → (m < i) × (key m ≡ some k) × (kept_at keep m ≡ true)

  -- A hit with a key has one of that key before which it was not published, and is kept only if it is that.
  abbrev Yields : Map ℕ → List Bool → ℕ → Type 0
  Yields newest keep i =
      (j : ℕ) (k : Str)
      → j < i
      → key j ≡ some k
      → (m : ℕ) × (get_key k newest ≡ some m)
        × (str_lt (date m) (date j) ≡ false)
        × (kept_at keep j ≡ true → j ≡ m)

  -- The hits that are still to come are not dropped.
  abbrev Untried : ℕ → List Bool → ℕ → Type 0
  Untried n keep i = (j : ℕ) → i ≤ j → j < n → kept_at keep j ≡ true

  abbrev pub Holds : ℕ → ℕ → Map ℕ × List Bool → Type 0
  Holds n i (newest, keep) = Stands newest keep i × Yields newest keep i × Untried n keep i

  pub unkeyed :
      (n i : ℕ) (newest : Map ℕ) (keep : List Bool)
      → key i ≡ none
      → Holds n i (newest, keep)
      → Holds n (suc i) (newest, keep)
  unkeyed n i newest keep e (stands, yields, untried) = (
    λ k m g. let (lt, found, kept) = stands k m g in (omega (arith, lt), found, kept),
    λ j k lt found. elim (Bool-cases (j == i)) [
      | inl same ↦ absurd (cc (sym e ∙ ap key (sym ((==_iff j i).0 same)) ∙ found))
      | inr other ↦ yields j k (ground (arith, ==_iff j i)) found
    ],
    λ j le lt. untried j (omega (arith, le)) lt,
  )

  -- Hits of different keys are different hits.
  key-apart :
      (i j : ℕ) (k0 k : Str)
      → key i ≡ some k0
      → key j ≡ some k
      → str_eq k0 k ≡ false
      → (j == i) ≡ false
  key-apart i j k0 k e found other = elim (Bool-cases (j == i)) [
    | inl is_i ↦
        let same : some k0 ≡ some k = sym e ∙ ap key (sym ((==_iff j i).0 is_i)) ∙ found in
        absurd (str_eq-false k0 k other (cc same))
    | inr h ↦ h
  ]

  -- The hit becomes the newest of its key.
  replaced :
      (n i : ℕ) (k0 : Str) (newest : Map ℕ) (keep later : List Bool)
      → key i ≡ some k0
      → kept_at later i ≡ true
      → ((m : ℕ) (k : Str)
          → key m ≡ some k
          → str_eq k0 k ≡ false
          → kept_at later m ≡ kept_at keep m)
      → ((j : ℕ)
          → j < i
          → key j ≡ some k0
          → (str_lt (date i) (date j) ≡ false) × (kept_at later j ≡ false))
      → Untried n later (suc i)
      → Holds n i (newest, keep)
      → Holds n (suc i) (put_key k0 i newest, later)
  replaced n i k0 newest keep later e kept same old ahead (stands, yields, untried) = (
    λ k m g. elim (Bool-cases (str_eq k0 k)) [
      | inl is_k0 ↦
          let is_i : i ≡ m = cc (
            sym g
            ∙ get_key-put_key k0 k i newest
            ∙ ap (λ b. if b then some i else get_key k newest) is_k0) in
          let here : k0 ≡ k = (str_eq_iff k0 k).0 is_k0 in
          (
            omega (arith, is_i),
            ap key (sym is_i) ∙ e ∙ ap some here,
            ap (kept_at later) (sym is_i) ∙ kept,
          )
      | inr other ↦
          let there =
            get_key-put_key k0 k i newest
            ∙ ap (λ b. if b then some i else get_key k newest) other in
          let (lt, found, held) = stands k m (sym there ∙ g) in
          (omega (arith, lt), found, same m k found other ∙ held)
    ],
    λ j k lt found. elim (Bool-cases (str_eq k0 k)) [
      | inl is_k0 ↦
          let here : k0 ≡ k = (str_eq_iff k0 k).0 is_k0 in
          let put =
            get_key-put_key k0 k i newest
            ∙ ap (λ b. if b then some i else get_key k newest) is_k0 in
          elim (Bool-cases (j == i)) [
            | inl is_i ↦
                let at_i : j ≡ i = (==_iff j i).0 is_i in
                (
                  i,
                  put,
                  subst (λ x. str_lt (date i) (date x) ≡ false) (sym at_i) (str_lt_irrefl (date i)),
                  λ _. at_i,
                )
            | inr before ↦
                let (older, gone) =
                  old j (ground (arith, ==_iff j i)) (found ∙ ap some (sym here)) in
                (i, put, older, λ held. absurd (cc (sym held ∙ gone)))
          ]
      | inr other ↦
          let there =
            get_key-put_key k0 k i newest
            ∙ ap (λ b. if b then some i else get_key k newest) other in
          let not_i = key-apart i j k0 k e found other in
          let (m, g, older, is_it) = yields j k (ground (arith, ==_iff j i)) found in
          (m, there ∙ g, older, λ held. is_it (sym (same j k found other) ∙ held))
    ],
    ahead,
  )

  pub first_of_key :
      (n i : ℕ) (k0 : Str) (newest : Map ℕ) (keep : List Bool)
      → key i ≡ some k0
      → i < n
      → get_key k0 newest ≡ none
      → Holds n i (newest, keep)
      → Holds n (suc i) (put_key k0 i newest, keep)
  first_of_key n i k0 newest keep e bound fresh (stands, yields, untried) =
      replaced n i k0 newest keep keep e (untried i (omega arith) bound) (λ m k found other. refl)
        (λ j lt found.
          let (m, g, older, is_it) = yields j k0 lt found in absurd (cc (sym fresh ∙ g)))
        (λ j le lt. untried j (omega (arith, le)) lt) (stands, yields, untried)

  pub newer_of_key :
      (n i j0 : ℕ) (k0 : Str) (newest : Map ℕ) (keep : List Bool)
      → key i ≡ some k0
      → i < n
      → get_key k0 newest ≡ some j0
      → str_lt (date j0) (date i) ≡ true
      → Holds n i (newest, keep)
      → Holds n (suc i) (put_key k0 i newest, drop_at j0 keep)
  newer_of_key n i j0 k0 newest keep e bound at_j0 after (stands, yields, untried) =
      let (before, key_j0, kept_j0) = stands k0 j0 at_j0 in
      replaced n i k0 newest keep (drop_at j0 keep) e
        (kept_at-drop_at j0 i keep
          ∙ ground (arith, untried i (omega arith) bound, ==_iff i j0, before))
        (λ m k found other.
          kept_at-drop_at j0 m keep ∙ ground (arith, key-apart j0 m k0 k key_j0 found other))
        (λ j lt found.
          let (m, g, older, is_it) = yields j k0 lt found in
          let is_j0 : m ≡ j0 = cc (sym g ∙ at_j0) in
          (
            str_lt-behind (date j0) (date i) (date j) after
                (subst (λ x. str_lt (date x) (date j) ≡ false) is_j0 older),
            kept_at-drop_at j0 j keep ∙ ground (arith, is_it, is_j0, ==_iff j j0),
          ))
        (λ j le lt.
          kept_at-drop_at j0 j keep
          ∙ ground (arith, untried j (omega (arith, le)) lt, ==_iff j j0, before, le))
        (stands, yields, untried)

  pub older_of_key :
      (n i j0 : ℕ) (k0 : Str) (newest : Map ℕ) (keep : List Bool)
      → key i ≡ some k0
      → get_key k0 newest ≡ some j0
      → str_lt (date j0) (date i) ≡ false
      → Holds n i (newest, keep)
      → Holds n (suc i) (newest, drop_at i keep)
  older_of_key n i j0 k0 newest keep e at_j0 not_after (stands, yields, untried) = (
    λ k m g.
        let (lt, found, kept) = stands k m g in
        (omega (arith, lt), found, kept_at-drop_at i m keep ∙ ground (arith, kept, lt, ==_iff m i)),
    λ j k lt found. elim (Bool-cases (j == i)) [
      | inl is_i ↦
          let at_i : j ≡ i = (==_iff j i).0 is_i in
          let same : k0 ≡ k = cc (sym e ∙ ap key (sym at_i) ∙ found) in
          let dropped : kept_at (drop_at i keep) j ≡ false =
            kept_at-drop_at i j keep ∙ ground (arith, is_i) in
          (
            j0,
            ap (λ x. get_key x newest) (sym same) ∙ at_j0,
            subst (λ x. str_lt (date j0) (date x) ≡ false) (sym at_i) not_after,
            λ held. absurd (cc (sym held ∙ dropped)),
          )
      | inr before ↦
          let (m, g, older, is_it) = yields j k (ground (arith, ==_iff j i)) found in
          (m, g, older, λ held. is_it (ground (arith, sym (kept_at-drop_at i j keep) ∙ held)))
    ],
    λ j le lt.
        kept_at-drop_at i j keep ∙ ground (arith, untried j (omega (arith, le)) lt, ==_iff j i, le),
  )
