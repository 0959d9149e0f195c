-- ===== src/Shell/History/Numbers.antt =====
-- What a number or `_` names, and what is said where it names nothing.
use mcpdial.Base.{
  ℕ, ◌+◌, ◌-◌, ◌≤◌, ◌<◌, ◌≡◌, ◌↔◌, ◌⊎◌, inl, inr, refl, ◌∙◌, Option, none, some, List, [], ◌∷◌,
  ◌++◌, Str, codes, str_eq, trim, arith, find, last, last-snoc, Bool-cases, ltb, ◌==◌,
}
use mcpdial.Json.{Value}
use mcpdial.Protocol.Errors.{ok, err, usage, no_such_result, no_longer_kept}
use mcpdial.Shell.History.{
  next_number, Origin, Recorded, History, evict, new_result, file, find_number, out_of_reach,
  find_result,
}
use mcpdial.Shell.History.Bounds.{Runs, IsValid, file-IsValid}

Runs-le : (n p : ℕ) (rs : List Recorded) → Runs n rs p → n ≤ p
Runs-le n p [] h = omega arith
Runs-le n p (r ∷ rs) h = omega (arith, Runs-le (n + 1) p rs h.1)

abbrev numbered : ℕ → List Recorded → Option Recorded
numbered k = find (λ r. r.number == k)

numbered-low : (n p k : ℕ) (rs : List Recorded) → Runs n rs p → k ≤ n → numbered k rs ≡ none
numbered-low n p k [] h low = refl
numbered-low n p k (r ∷ rs) h low = ground (arith, numbered-low (n + 1) p k rs h.1)

numbered-high : (n p k : ℕ) (rs : List Recorded) → Runs n rs p → p < k → numbered k rs ≡ none
numbered-high n p k [] h high = refl
numbered-high n p k (r ∷ rs) h high =
    ground (arith, numbered-high (n + 1) p k rs h.1, Runs-le (n + 1) p rs h.1)

numbered-between :
    (n p k : ℕ) (rs : List Recorded)
    → Runs n rs p
    → n < k
    → k ≤ p
    → (r : Recorded) × (numbered k rs ≡ some r) × (r.number ≡ k)
numbered-between n p k [] h low high = absurd (omega arith)
numbered-between n p k (r ∷ rs) h low high = elim (Bool-cases (r.number == k)) [
  | inl e ↦ (r, rw e, ground arith)
  | inr e ↦
      let (q, found, same) = numbered-between (n + 1) p k rs h.1 (ground arith) high in
      (q, rw e found, same)
]

-- The latest result is found under the latest number.
numbered-last :
    (n p : ℕ) (rs : List Recorded) (r : Recorded)
    → Runs n rs p
    → last rs ≡ some r
    → numbered p rs ≡ some r
numbered-last n p [] r h e = cc
numbered-last n p (q ∷ []) r h e = ground arith
numbered-last n p (q ∷ s ∷ rs) r h e =
    ground (arith, numbered-last (n + 1) p (s ∷ rs) r h.1 e, Runs-le (n + 1 + 1) p rs h.1.1)

last-evict : (rs : List Recorded) (w : ℕ) → last (evict rs w).0 ≡ last rs
unfolding evict
last-evict [] w = refl
last-evict (r ∷ []) w = refl
last-evict (r ∷ s ∷ rs) w = ground (arith, last-evict (s ∷ rs) (w - r.weight))

-- The three places a number can stand in: dropped, kept, or still to come.
place :
    (h : History) (valid : IsValid h) (k : ℕ)
    → (numbered k h.kept ≡ none) × ((k ≤ valid.dropped) ⊎ (h.printed < k))
      ⊎ (r : Recorded) × (numbered k h.kept ≡ some r)
        × (r.number ≡ k)
        × (valid.dropped < k)
        × (k ≤ h.printed)
place h valid k = elim (Bool-cases (ltb valid.dropped k)) [
  | inr low ↦ inl (
    numbered-low valid.dropped h.printed k h.kept valid.numbered (ground arith),
    inl (ground arith),
  )
  | inl past ↦ elim (Bool-cases (ltb h.printed k)) [
    | inl high ↦ inl (
      numbered-high valid.dropped h.printed k h.kept valid.numbered (ground arith),
      inr (ground arith),
    )
    | inr kept ↦
        let (r, found, same) =
          numbered-between valid.dropped h.printed k h.kept valid.numbered (ground arith)
            (ground arith) in
        inr (r, found, same, ground arith, ground arith)
  ]
]

module _ (h : History) (valid : IsValid h) where
  -- What each positive number names: a result exactly when that result is not dropped and has been
  -- printed, and then the one of that number.
  pub find_number-found_iff :
      (k : ℕ)
      → ((r : Recorded) × (find_number h k ≡ ok r) × (r.number ≡ k))
        ↔ ((valid.dropped < k) × (k ≤ h.printed))
  unfolding find_number
  find_number-found_iff k = elim (place h valid k) [
    | inl (missing, out) ↦
        (λ (r, found, same). cc (rw missing at found), λ (low, high). absurd (ground arith))
    | inr (r, found, same, low, high) ↦ (λ _. (low, high), λ _. (r, rw found, same))
  ]

  -- The two ways in which a positive number names nothing, once something has been printed: it is
  -- past the last result, or its result has been dropped.
  pub find_number-missed_iff :
      (k : ℕ)
      → 0 < h.printed
      → ((find_number h k ≡ err (usage (no_such_result k h.printed))) ↔ (h.printed < k))
        × ((find_number h k ≡ err (usage (no_longer_kept k))) ↔ (k ≤ valid.dropped))
  unfolding find_number out_of_reach
  find_number-missed_iff k some_printed = elim (place h valid k) [
    | inl (missing, out) ↦
        rw missing (ground (arith, Runs-le valid.dropped h.printed h.kept valid.numbered))
    | inr (r, found, same, low, high) ↦ rw found (ground arith)
  ]

module _ (json_bytes : Value → ℕ) (h : History) (valid : IsValid h) where
  kept-last :
      (o : Origin) (v : Value) (t : Str)
      → last (file json_bytes h o v t).kept ≡ some (new_result json_bytes h o v t)
  unfolding file
  kept-last o v t =
      let new = new_result json_bytes h o v t in
      last-evict (h.kept ++ new ∷ []) (h.weight + new.weight) ∙ last-snoc h.kept new

  newest-numbered :
      (o : Origin) (v : Value) (t : Str)
      → numbered (next_number h) (file json_bytes h o v t).kept
        ≡ some (new_result json_bytes h o v t)
  unfolding file
  newest-numbered o v t =
      let after = file json_bytes h o v t in
      let valid_after = file-IsValid json_bytes o v t valid in
      numbered-last valid_after.dropped after.printed after.kept (new_result json_bytes h o v t)
        valid_after.numbered (kept-last o v t)

  -- The result just printed is what its own number names and what `_` names.
  pub find_result-file :
      (o : Origin) (v : Value) (t : Str)
      → (find_result (file json_bytes h o v t) (codes "_") ≡ ok (new_result json_bytes h o v t))
        × (find_number (file json_bytes h o v t) (next_number h)
            ≡ ok (new_result json_bytes h o v t))
  unfolding find_number find_result str_eq trim
  find_result-file o v t = (rw (kept-last o v t) refl, rw (newest-numbered o v t) refl)
