-- ===== src/Diagnosis/Distance.antt =====
-- The rows of the loop hold the distances of the prefixes.
use mcpdial.Base.{
  ℕ, suc, ◌+◌, ◌&&◌, Option, none, some, List, [], ◌∷◌, Str, length, ◌==◌, last, unwrap_or, ◌≡◌,
  refl, sym, ap, ◌∙◌,
}
use Prim.Native.Nat.{min}
use mcpdial.Diagnosis.{
  substitution, with_swap, cell, head_or_0, tail_of, advance, cells, numbers, zeros, rows,
  edit_distance,
}

-- The distance of two words given from their last letter back: the fewest insertions, deletions,
-- substitutions and swaps of neighbours that no other edit touches.
unfoldable pub osa : Str → Str → ℕ
osa [] ys = length ys
osa (x ∷ xs) [] = suc (length xs)
osa (x ∷ []) (y ∷ ys) =
    min (min (substitution x y (osa [] ys)) (osa [] (y ∷ ys) + 1)) (osa (x ∷ []) ys + 1)
osa (x ∷ w ∷ xs) (y ∷ []) =
    min (min (substitution x y (osa (w ∷ xs) [])) (osa (w ∷ xs) (y ∷ []) + 1))
      (osa (x ∷ w ∷ xs) [] + 1)
osa (x ∷ w ∷ xs) (y ∷ z ∷ ys) = with_swap (x == z && w == y) (osa xs ys) (
    min (min (substitution x y (osa (w ∷ xs) (z ∷ ys))) (osa (w ∷ xs) (y ∷ z ∷ ys) + 1))
      (osa (x ∷ w ∷ xs) (z ∷ ys) + 1))

-- The row of the prefix `xs` from the prefix `ys` on, as it is over the rest of the other word.
row : Str → Str → Str → List ℕ
row xs ys [] = osa xs ys ∷ []
row xs ys (y ∷ b) = osa xs ys ∷ row xs (y ∷ ys) b

abbrev first : Str → Option ℕ
first [] = none
first (x ∷ xs) = some x

head-row : (xs ys b : Str) → head_or_0 (row xs ys b) ≡ osa xs ys
unfolding row
head-row xs ys [] = refl
head-row xs ys (y ∷ b) = refl

tail_of-row : (xs ys : Str) (y : ℕ) (b : Str) → tail_of (row xs ys (y ∷ b)) ≡ row xs (y ∷ ys) b
unfolding row
tail_of-row xs ys y b = refl

-- The row two letters back, where the loop reads it: one place before `ys`.
abbrev two_rows_back : Str → Str → Str → List ℕ → List ℕ
two_rows_back [] ys b other = other
two_rows_back (x ∷ xs) [] b other = row xs [] b
two_rows_back (x ∷ xs) (y ∷ ys) b other = row xs ys (y ∷ b)

cell-osa :
    (x : ℕ) (xs : Str) (y : ℕ) (ys b : Str) (other : List ℕ)
    → cell
        (first xs)
        (first ys)
        x
        y
        (osa (x ∷ xs) ys)
        (row xs ys (y ∷ b))
        (two_rows_back xs ys (y ∷ b) other)
      ≡ osa (x ∷ xs) (y ∷ ys)
unfolding osa row
cell-osa x [] y ys b other = rw (head-row [] (y ∷ ys) b) refl
cell-osa x (w ∷ xs) y [] b other = rw (head-row (w ∷ xs) (y ∷ []) b) refl
cell-osa x (w ∷ xs) y (z ∷ ys) b other = rw (head-row (w ∷ xs) (y ∷ z ∷ ys) b) refl

advance-two :
    (xs : Str) (y : ℕ) (ys b : Str) (other : List ℕ)
    → (later : List ℕ) × (advance (first ys) (two_rows_back xs ys (y ∷ b) other)
        ≡ two_rows_back xs (y ∷ ys) b later)
unfolding row
advance-two [] y ys b other = (advance (first ys) other, refl)
advance-two (x ∷ xs) y [] b other = ([], refl)
advance-two (x ∷ xs) y (z ∷ ys) b other = ([], refl)

row_cons : (xs ys b : Str) → row xs ys b ≡ osa xs ys ∷ tail_of (row xs ys b)
unfolding row
row_cons xs ys [] = refl
row_cons xs ys (y ∷ b) = refl

cells-row :
    (x : ℕ) (xs ys b : Str) (other : List ℕ)
    → cells (first xs) x (first ys) (osa (x ∷ xs) ys) (row xs ys b) (two_rows_back xs ys b other) b
      ≡ tail_of (row (x ∷ xs) ys b)
unfolding cells
cells-row x xs ys [] other = unfold row in refl
cells-row x xs ys (y ∷ b) other =
    let (later, two) = advance-two xs y ys b other in
    let ih = cells-row x xs (y ∷ ys) b later in
    rw (cell-osa x xs y ys b other, tail_of-row xs ys y b, two)
      (ap (λ (r : List ℕ). osa (x ∷ xs) (y ∷ ys) ∷ r) ih
        ∙ sym (row_cons (x ∷ xs) (y ∷ ys) b)
        ∙ sym (tail_of-row (x ∷ xs) ys y b))

-- The letters of a word in reverse, in front of others.
abbrev pub reversed_onto : Str → Str → Str
reversed_onto [] done = done
reversed_onto (x ∷ a) done = reversed_onto a (x ∷ done)

rows-row :
    (b a xs : Str) (other : List ℕ)
    → rows b a (length xs) (first xs) (row xs [] b) (two_rows_back xs [] b other)
      ≡ row (reversed_onto a xs) [] b
unfolding rows
rows-row b [] xs other = refl
rows-row b (x ∷ a) xs other =
    let done : (suc (length xs)
          ∷ cells (first xs) x none (suc (length xs)) (row xs [] b) (two_rows_back xs [] b other) b)
        ≡ row (x ∷ xs) [] b =
      unfold osa in
      (ap (λ (r : List ℕ). suc (length xs) ∷ r) (cells-row x xs [] b other)
        ∙ sym (row_cons (x ∷ xs) [] b)) in
    rw done (rows-row b a (x ∷ xs) [])

numbers-row : (ys b : Str) → numbers (length ys) b ≡ row [] ys b
unfolding row osa
numbers-row ys [] = refl
numbers-row ys (y ∷ b) = ap (λ (r : List ℕ). length ys ∷ r) (numbers-row (y ∷ ys) b)

last-row : (xs ys b : Str) → last (row xs ys b) ≡ some (osa xs (reversed_onto b ys))
unfolding row
last-row xs ys [] = refl
last-row xs ys (y ∷ []) = refl
last-row xs ys (y ∷ z ∷ b) = last-row xs (y ∷ ys) (z ∷ b)

-- The three rows that the loop keeps give the distance that the recursion over both words defines.
pub edit_distance-osa :
    (a b : Str) → edit_distance a b ≡ osa (reversed_onto a []) (reversed_onto b [])
unfolding edit_distance
edit_distance-osa a b = rw (numbers-row [] b) (
    ap (λ (r : List ℕ). unwrap_or 0 (last r)) (rows-row b a [] (zeros b))
    ∙ ap (unwrap_or 0) (last-row (reversed_onto a []) [] b))
