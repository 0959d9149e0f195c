-- ===== src/Diagnosis/Nearest.antt =====
-- The candidate that is named is near enough, and none is nearer.
use mcpdial.Base.{
  ℕ, ◌≤◌, ◌<◌, true, Option, none, some, List, [], ◌∷◌, Str, str_eq, str_eq_refl, ◌≡◌, refl, inl,
  inr, Bool-cases, All, any, arith, leb, map_opt,
}
use mcpdial.Diagnosis.{edit_distance, nearer, limit_for, near_ones, closest}

All-le :
    (f : Str → ℕ) (m n : ℕ) (cs : List Str) → m ≤ n → All (λ c. n ≤ f c) cs → All (λ c. m ≤ f c) cs
All-le f m n [] h a = tt
All-le f m n (c ∷ cs) h (here, a) = (omega arith, All-le f m n cs h a)

All-lt :
    (f : Str → ℕ) (m n : ℕ) (cs : List Str) → m ≤ n → All (λ c. n < f c) cs → All (λ c. m ≤ f c) cs
All-lt f m n [] h a = tt
All-lt f m n (c ∷ cs) h (here, a) = (omega arith, All-lt f m n cs h a)

module _ (to_lowercase : Str → Str) where
  -- How far a candidate is from a word, both in lower case.
  abbrev pub distance : Str → Str → ℕ
  distance lower c = edit_distance lower (to_lowercase c)

  -- What is named of some candidates: one of them that is near enough and that none is nearer than, or
  -- nothing, where all are too far.
  abbrev pub IsNearest : Str → ℕ → List Str → Option Str → Type 0
  IsNearest lower limit cs none = All (λ c. limit < distance lower c) cs
  IsNearest lower limit cs (some c) =
      (any (str_eq c) cs ≡ true)
      × (distance lower c ≤ limit)
      × All (λ d. distance lower c ≤ distance lower d) cs

  -- With the distance kept beside the candidate.
  abbrev IsKept : Str → ℕ → List Str → Option (ℕ × Str) → Type 0
  IsKept lower limit cs none = IsNearest lower limit cs none
  IsKept lower limit cs (some (d, c)) = (d ≡ distance lower c) × IsNearest lower limit cs (some c)

  in_reach :
      (lower : Str) (limit : ℕ) (c : Str) (cs : List Str) (rest : Option (ℕ × Str))
      → distance lower c ≤ limit
      → IsKept lower limit cs rest
      → IsKept lower limit (c ∷ cs) (nearer (distance lower c, c) rest)
  in_reach lower limit c cs none near far = (
    refl,
    (
      rw (str_eq_refl c) refl,
      near,
      (omega arith, All-lt (distance lower) (distance lower c) limit cs near far),
    ),
  )
  in_reach lower limit c cs (some (d, e)) near (same, (listed, close, least)) =
      elim (Bool-cases (leb (distance lower c) d)) [
        | inl first ↦ rw first (
          refl,
          (
            rw (str_eq_refl c) refl,
            near,
            (
              omega arith,
              All-le (distance lower) (distance lower c) (distance lower e) cs (ground arith) least,
            ),
          ),
        )
        | inr later ↦ rw later (same, (ground arith, close, (ground arith, least)))
      ]

  out_of_reach :
      (lower : Str) (limit : ℕ) (c : Str) (cs : List Str) (rest : Option (ℕ × Str))
      → limit < distance lower c
      → IsKept lower limit cs rest
      → IsKept lower limit (c ∷ cs) rest
  out_of_reach lower limit c cs none far h = (far, h)
  out_of_reach lower limit c cs (some (d, e)) far (same, (listed, close, least)) =
      (same, (ground arith, close, (omega arith, least)))

  near_ones-IsKept :
      (lower : Str) (limit : ℕ) (cs : List Str)
      → IsKept lower limit cs (near_ones to_lowercase lower limit cs)
  unfolding near_ones
  near_ones-IsKept lower limit [] = tt
  near_ones-IsKept lower limit (c ∷ cs) = elim (Bool-cases (leb (distance lower c) limit)) [
    | inl near ↦
        rw near (in_reach lower limit c cs _ (ground arith) (near_ones-IsKept lower limit cs))
    | inr far ↦
        rw far (out_of_reach lower limit c cs _ (ground arith) (near_ones-IsKept lower limit cs))
  ]

  kept-IsNearest :
      (lower : Str) (limit : ℕ) (cs : List Str) (o : Option (ℕ × Str))
      → IsKept lower limit cs o
      → IsNearest lower limit cs (map_opt (λ c. c.1) o)
  kept-IsNearest lower limit cs none h = h
  kept-IsNearest lower limit cs (some (d, c)) h = h.1

  -- What is suggested for a word is a candidate within one edit of it, or two if it is longer than four
  -- letters, and none is nearer; nothing is suggested exactly where all candidates are further off.
  pub closest-IsNearest :
      (word : Str) (candidates : List Str)
      → IsNearest
          (to_lowercase word)
          (limit_for to_lowercase (to_lowercase word))
          candidates
          (closest to_lowercase word candidates)
  unfolding closest
  closest-IsNearest word candidates =
      kept-IsNearest (to_lowercase word) _ candidates _
        (near_ones-IsKept (to_lowercase word) _ candidates)
