-- ===== src/Search/Newest.antt =====
-- Which hits of a repository are kept.
use mcpdial.Base.{
  Str, Bool, true, false, Option, none, some, List, [], ◌∷◌, ℕ, zero, suc, codes, str_lt, ◌+◌,
  if◌then◌else◌, and_then, length, get_elem?, Map, get_key, put_key, ◌≡◌, refl, ap, sym, subst, ◌∙◌,
  ◌<◌, arith, Bool-cases, inl, inr, map,
}
use mcpdial.Json.{index}
use mcpdial.Search.{Hit, repository_key, published_at, drop_at, newer, after_key, newest_loop}
use mcpdial.Search.Steps.{kept_at, Holds, unkeyed, first_of_key, newer_of_key, older_of_key}

module _ (lower : Str → Str) (hs : List Hit) where
  -- The repository of a hit.
  abbrev pub key_at : ℕ → Option Str
  key_at j = and_then (get_elem? hs j) (λ h. repository_key lower (index h.entry (codes "server")))

  abbrev Known : ℕ → Map ℕ × List Bool → Type 0
  Known i state = Holds key_at (published_at hs) (length hs) i state

  newer-Known :
      (i : ℕ) (k0 : Str) (o : Option ℕ) (newest : Map ℕ) (keep : List Bool)
      → key_at i ≡ some k0
      → i < length hs
      → get_key k0 newest ≡ o
      → Known i (newest, keep)
      → Known (suc i) (newer hs i k0 o (newest, keep))
  newer-Known i k0 none newest keep e bound g known =
      first_of_key key_at (published_at hs) (length hs) i k0 newest keep e bound g known
  newer-Known i k0 (some j0) newest keep e bound g known =
      elim (Bool-cases (str_lt (published_at hs j0) (published_at hs i))) [
        | inl after ↦
            subst
              (λ b.
                Known (suc i)
                  (if b then (put_key k0 i newest, drop_at j0 keep) else (newest, drop_at i keep)))
              (sym after)
              (newer_of_key key_at (published_at hs) (length hs) i j0 k0 newest keep e bound g after
                known)
        | inr not_after ↦
            subst
              (λ b.
                Known (suc i)
                  (if b then (put_key k0 i newest, drop_at j0 keep) else (newest, drop_at i keep)))
              (sym not_after)
              (older_of_key key_at (published_at hs) (length hs) i j0 k0 newest keep e g not_after
                known)
      ]

  after_key-Known :
      (i : ℕ) (o : Option Str) (state : Map ℕ × List Bool)
      → key_at i ≡ o
      → i < length hs
      → Known i state
      → Known (suc i) (after_key hs i o state)
  after_key-Known i none (newest, keep) e bound known =
      unkeyed key_at (published_at hs) (length hs) i newest keep e known
  after_key-Known i (some k0) (newest, keep) e bound known =
      newer-Known i k0 (get_key k0 newest) newest keep e bound refl known

  newest_loop-Known :
      (i : ℕ) (rest : List Hit) (state : Map ℕ × List Bool)
      → ((j : ℕ) → get_elem? hs (i + j) ≡ get_elem? rest j)
      → length hs ≡ i + length rest
      → Known i state
      → Known (length hs) (newest_loop lower hs i rest state)
  newest_loop-Known i [] state behind size known =
      subst (λ n. Known n state) (omega (arith, size)) known
  newest_loop-Known i (h ∷ rest) state behind size known =
      newest_loop-Known (suc i) rest
        (after_key hs i (repository_key lower (index h.entry (codes "server"))) state)
        (λ j. ap (get_elem? hs) (omega arith) ∙ behind (suc j)) (omega (arith, size))
        (after_key-Known i (repository_key lower (index h.entry (codes "server"))) state
          (ap (λ o. and_then o (λ x. repository_key lower (index x.entry (codes "server"))))
            (ap (get_elem? hs) (omega arith) ∙ behind 0))
          (omega (arith, size)) known)

  all_kept : (ks : List Hit) (j : ℕ) → j < length ks → kept_at (map (λ h. true) ks) j ≡ true
  all_kept [] j lt = absurd (omega (arith, lt))
  all_kept (h ∷ ks) zero lt = refl
  all_kept (h ∷ ks) (suc j) lt = all_kept ks j (omega (arith, lt))

  abbrev pub flags : List Bool
  flags = (newest_loop lower hs 0 hs ([], map (λ h. true) hs)).1

  -- Of the hits of one repository exactly one is kept, and none of them was published after it.
  pub newest_loop-kept :
      (j : ℕ) (k : Str)
      → j < length hs
      → key_at j ≡ some k
      → (m : ℕ) × (key_at m ≡ some k)
        × (kept_at flags m ≡ true)
        × (str_lt (published_at hs m) (published_at hs j) ≡ false)
        × (kept_at flags j ≡ true → j ≡ m)
  unfolding get_key
  newest_loop-kept j k lt found =
      let (stands, yields, untried) =
        newest_loop-Known 0 hs ([], map (λ h. true) hs) (λ x. ap (get_elem? hs) (omega arith))
          (omega arith)
          (
            λ k m g. absurd (cc g),
            λ j k lt found. absurd (omega (arith, lt)),
            λ j le lt. all_kept hs j lt,
          ) in
      let (m, g, older, is_it) = yields j k lt found in
      let (_, same, kept) = stands k m g in (m, same, kept, older, is_it)
