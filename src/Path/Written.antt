-- ===== src/Path/Written.antt =====
-- A path that is written out is read back.
use mcpdial.Base.{
  ℕ, Bool, true, false, some, List, [], ◌∷◌, ◌++◌, Str, codes, trim, ◌≡◌, ◌≢◌, refl, ap, ◌∙◌,
  append_assoc, append-nil, All, ◌==◌, and_then, AllDigits, value_of, u64_max, ◌≤◌,
}
use mcpdial.Protocol.Errors.{ok}
use mcpdial.Path.{
  Step, key, at, every, is_key_char, bracketed, read_steps, after_dot, in_key, in_brackets, parse,
  starts_at_top,
}
use mcpdial.Path.Index.{digits-bracket, bracketed-digits}

module _ (is_alphanumeric : ℕ → Bool) (spell : ℕ → Str) where
  -- The text of a path: a step of the front that is no key has a `.` before it.
  abbrev pub step_text : Step → Str
  step_text (key k) = b'.' ∷ k
  step_text (at n) = b'[' ∷ (spell n ++ b']' ∷ [])
  step_text every = b'[' ∷ b']' ∷ []

  abbrev pub texts : List Step → Str
  texts [] = []
  texts (s ∷ steps) = step_text s ++ texts steps

  abbrev pub path_text : List Step → Str
  path_text [] = codes "."
  path_text (key k ∷ steps) = texts (key k ∷ steps)
  path_text (at n ∷ steps) = b'.' ∷ texts (at n ∷ steps)
  path_text (every ∷ steps) = b'.' ∷ texts (every ∷ steps)

  -- A step that can be written: a key of one or more key characters, or an index that a `usize`
  -- holds and whose text is the digits, one or more, that spell it.
  abbrev pub IsWritable : Step → Type 0
  IsWritable (key k) = (k ≢ []) × All (λ c. is_key_char is_alphanumeric c ≡ true) k
  IsWritable (at n) =
      AllDigits (spell n) × (spell n ≢ []) × (value_of 0 (spell n) ≡ n) × (n ≤ u64_max)
  IsWritable every = Unit

  module _ (dot : is_alphanumeric b'.' ≡ false) (bracket : is_alphanumeric b'[' ≡ false) where
    in_key-name :
        (k rest name : Str) (steps : List Step)
        → All (λ c. is_key_char is_alphanumeric c ≡ true) k
        → in_key is_alphanumeric (k ++ rest) name steps
          ≡ in_key is_alphanumeric rest (name ++ k) steps
    unfolding in_key
    in_key-name [] rest name steps h = rw (append-nil name) refl
    in_key-name (c ∷ k) rest name steps (h, hs) = rw h (
        in_key-name k rest (name ++ c ∷ []) steps hs
        ∙ ap (λ (t : Str). in_key is_alphanumeric rest t steps) (append_assoc name (c ∷ []) k))

    -- Behind a key stands the end or another step.
    in_key-texts :
        (rest : List Step) (name : Str) (steps : List Step)
        → in_key is_alphanumeric (texts rest) name steps
          ≡ read_steps is_alphanumeric (texts rest) (steps ++ key name ∷ [])
    unfolding in_key read_steps
    in_key-texts [] name steps = refl
    in_key-texts (key k ∷ rest) name steps = rw dot refl
    in_key-texts (at n ∷ rest) name steps = rw bracket refl
    in_key-texts (every ∷ rest) name steps = rw bracket refl

    in_brackets-inside :
        (t rest inside : Str) (steps : List Step)
        → All (λ c. c == b']' ≡ false) t
        → in_brackets is_alphanumeric (t ++ b']' ∷ rest) inside steps
          ≡ and_then
              (bracketed is_alphanumeric (trim (inside ++ t)))
              (λ step. read_steps is_alphanumeric rest (steps ++ step ∷ []))
    unfolding in_brackets
    in_brackets-inside [] rest inside steps h = rw (append-nil inside) refl
    in_brackets-inside (c ∷ t) rest inside steps (h, hs) = rw h (
        in_brackets-inside t rest (inside ++ c ∷ []) steps hs
        ∙ rw (append_assoc inside (c ∷ []) t) refl)

    read_steps-step :
        (s : Step) (more steps : List Step)
        → IsWritable s
        → read_steps is_alphanumeric (step_text s ++ texts more) steps
          ≡ read_steps is_alphanumeric (texts more) (steps ++ s ∷ [])
    unfolding read_steps after_dot
    read_steps-step (key []) more steps (full, h) = absurd (full refl)
    read_steps-step (key (c ∷ k)) more steps (full, (h, hs)) =
        rw h (in_key-name k (texts more) (c ∷ []) steps hs ∙ in_key-texts more (c ∷ k) steps)
    read_steps-step (at n) more steps (digits, full, spells, fits) =
        rw (append_assoc (spell n) (b']' ∷ []) (texts more)) (
          in_brackets-inside (spell n) (texts more) [] steps (digits-bracket (spell n) digits)
          ∙ rw (bracketed-digits is_alphanumeric (spell n) n digits full spells fits) refl)
    read_steps-step every more steps h = unfold in_brackets trim in refl

    read_steps-texts :
        (more steps : List Step)
        → All IsWritable more
        → read_steps is_alphanumeric (texts more) steps ≡ some (steps ++ more)
    read_steps-texts [] steps h = unfold read_steps in rw (append-nil steps) refl
    read_steps-texts (s ∷ more) steps (h, hs) =
        read_steps-step s more steps h
        ∙ read_steps-texts more (steps ++ s ∷ []) hs
        ∙ ap some (append_assoc steps (s ∷ []) more)

    read_steps-path_text :
        (steps : List Step)
        → All IsWritable steps
        → read_steps is_alphanumeric (path_text steps) [] ≡ some steps
    unfolding read_steps after_dot
    read_steps-path_text [] h = refl
    read_steps-path_text (key k ∷ more) h = read_steps-texts (key k ∷ more) [] h
    read_steps-path_text (at n ∷ more) h = rw bracket (read_steps-texts (at n ∷ more) [] h)
    read_steps-path_text (every ∷ more) h = rw bracket (read_steps-texts (every ∷ more) [] h)

    path_text_top : (steps : List Step) → starts_at_top is_alphanumeric (path_text steps) ≡ true
    path_text_top [] = refl
    path_text_top (key k ∷ more) = refl
    path_text_top (at n ∷ more) = refl
    path_text_top (every ∷ more) = refl

    -- The text of steps is parsed back to those very steps, while each key is one or more key
    -- characters, each index fits a `usize` and is written by the digits that spell it, no blank
    -- ends the text, and neither `.` nor `[` counts as alphanumeric.
    pub parse-path_text :
        (steps : List Step)
        → All IsWritable steps
        → trim (path_text steps) ≡ path_text steps
        → parse is_alphanumeric (path_text steps)
          ≡ ok (record { steps = steps; source = path_text steps })
    unfolding parse
    parse-path_text steps h trimmed =
        rw (trimmed, path_text_top steps, read_steps-path_text steps h) refl
