-- ===== src/Diagnosis.antt =====
-- src/diagnose.rs: how far two words are apart, and the nearest of some candidates. Lower case is that
-- of Unicode, a parameter.
pub mod Distance
pub mod Nearest
use mcpdial.Base.{
  ℕ, suc, ◌+◌, Bool, true, false, ◌&&◌, Option, none, some, List, [], ◌∷◌, Str, if◌then◌else◌,
  length, leb, ltb, ◌==◌, last, unwrap_or, map_opt,
}
use Prim.Native.Nat.{min}

-- What stands at a place of a row, and the row behind it; past its end nothing does, and 0 is read.
abbrev pub head_or_0 : List ℕ → ℕ
head_or_0 [] = 0
head_or_0 (d ∷ ds) = d

abbrev pub tail_of : List ℕ → List ℕ
tail_of [] = []
tail_of (d ∷ ds) = ds

abbrev pub substitution : ℕ → ℕ → ℕ → ℕ
substitution x y d = if x == y then d else d + 1

-- Whether the two letters before and here are those of the other word, swapped.
abbrev pub is_swap : Option ℕ → Option ℕ → ℕ → ℕ → Bool
is_swap (some before_x) (some before_y) x y = x == before_y && before_x == y
is_swap _ _ x y = false

abbrev pub with_swap : Bool → ℕ → ℕ → ℕ
with_swap true swapped best = min best (swapped + 1)
with_swap false swapped best = best

abbrev pub cell : Option ℕ → Option ℕ → ℕ → ℕ → ℕ → List ℕ → List ℕ → ℕ
cell before_x before_y x y left prev two_back =
    with_swap (is_swap before_x before_y x y) (head_or_0 two_back)
      (min (min (substitution x y (head_or_0 prev)) (head_or_0 (tail_of prev) + 1)) (left + 1))

-- Two letters back: the row moves on once there is a letter before.
abbrev pub advance : Option ℕ → List ℕ → List ℕ
advance none two_back = two_back
advance (some y) two_back = tail_of two_back

-- The inner loop: the cells of the row of `x` from here on. `prev` stands at the cell before, and
-- `two_back` one further before.
unfoldable pub cells : Option ℕ → ℕ → Option ℕ → ℕ → List ℕ → List ℕ → Str → List ℕ
cells before_x x before_y left prev two_back [] = []
cells before_x x before_y left prev two_back (y ∷ b) =
    let here = cell before_x before_y x y left prev two_back in
    here ∷ cells before_x x (some y) here (tail_of prev) (advance before_y two_back) b

abbrev pub numbers : ℕ → Str → List ℕ
numbers n [] = n ∷ []
numbers n (y ∷ b) = n ∷ numbers (suc n) b

abbrev pub zeros : Str → List ℕ
zeros [] = 0 ∷ []
zeros (y ∷ b) = 0 ∷ zeros b

-- The outer loop; `i` letters are done, and the last of them is `before_x`.
unfoldable pub rows : Str → Str → ℕ → Option ℕ → List ℕ → List ℕ → List ℕ
rows b [] i before_x prev two_back = prev
rows b (x ∷ a) i before_x prev two_back =
    rows b a (suc i) (some x) (suc i ∷ cells before_x x none (suc i) prev two_back b) prev

unfoldable pub edit_distance : Str → Str → ℕ
edit_distance a b = unwrap_or 0 (last (rows b a 0 none (numbers 0 b) (zeros b)))

-- `closest`: the first candidate that is nearest and near enough.
abbrev pub nearer : ℕ × Str → Option (ℕ × Str) → Option (ℕ × Str)
nearer c none = some c
nearer c (some d) = if leb c.0 d.0 then some c else some d

module _ (to_lowercase : Str → Str) where
  abbrev pub limit_for : Str → ℕ
  limit_for word = if leb (length word) 4 then 1 else 2

  unfoldable pub near_ones : Str → ℕ → List Str → Option (ℕ × Str)
  near_ones word limit [] = none
  near_ones word limit (c ∷ cs) =
      let rest = near_ones word limit cs in
      let d = edit_distance word (to_lowercase c) in
      if leb d limit then nearer (d, c) rest else rest

  unfoldable pub closest : Str → List Str → Option Str
  closest word candidates =
      let lower = to_lowercase word in
      map_opt (λ c. c.1) (near_ones lower (limit_for lower) candidates)
