-- ===== src/Config/Expand/Parts.antt =====
-- A text written from its parts, plain ones and references, expands to what the parts say.
use mcpdial.Base.{
  Str, false, Option, none, some, List, [], ◌∷◌, ◌++◌, ℕ, suc, ◌==◌, length, ◌≡◌, ◌≢◌, refl, All,
  Lacks, split_once-append, split_on-append, split_on-none, or_else, sym, inl, inr, Bool-cases,
  if◌then◌else◌, ◌∙◌, ap, ==_iff, All-append,
}
use mcpdial.Config.Expand.{
  Filled, filled, unset, push, stuck, dollar, pushed, not_empty, name_and_default, valued,
  reference, behind, substitute_from, substitute,
}

-- A plain text, or a reference with the default that it may have.
pub data Part : Type 0 where
  plain : Str → Part
  variable : (name : Str) (fallback : Option Str) → Part

-- A `$` of a plain text is doubled.
abbrev pub escape : Str → Str
escape [] = []
escape (c ∷ s) = if c == dollar then dollar ∷ dollar ∷ escape s else c ∷ escape s

abbrev pub inside : Str → Option Str → Str
inside name none = name
inside name (some fallback) = name ++ b':' ∷ b'-' ∷ fallback

abbrev pub write : List Part → Str
write [] = []
write (plain text ∷ ps) = escape text ++ write ps
write (variable name fallback ∷ ps) = dollar ∷ b'{' ∷ (inside name fallback ++ b'}' ∷ write ps)

-- A name of a reference is not empty and holds neither `}` nor `:`; a default holds no `}`.
abbrev pub IsPart : Part → Type 0
IsPart (plain text) = Unit
IsPart (variable name none) = (name ≢ []) × Lacks b'}' name × Lacks b':' name
IsPart (variable name (some fallback)) =
    (name ≢ []) × Lacks b'}' name × Lacks b':' name × Lacks b'}' fallback

name_and_default-inside :
    (name : Str) (fallback : Option Str)
    → IsPart (variable name fallback)
    → name_and_default (inside name fallback) ≡ (name, fallback)
name_and_default-inside name none h = rw (name_and_default, split_on-none b':' b'-' name h.2) refl
name_and_default-inside name (some fallback) h =
    rw (name_and_default, split_on-append b':' b'-' name fallback h.2) refl

pushed-nil : (f : Filled) → pushed [] f ≡ f
pushed-nil (filled rest) = refl
pushed-nil (unset name) = refl

pushed-cons : (c : ℕ) (t : Str) (f : Filled) → pushed (c ∷ []) (pushed t f) ≡ pushed (c ∷ t) f
pushed-cons c t (filled rest) = refl
pushed-cons c t (unset name) = refl

-- What a reference expands to.
abbrev pub said : Str → Option Str → Filled → Filled
said name (some value) rest = pushed value rest
said name none rest = unset name

module _ (lookup : Str → Option Str) where
  -- What the parts say: the first variable without a value and without a default is the answer.
  abbrev pub fill : List Part → Filled
  fill [] = filled []
  fill (plain text ∷ ps) = pushed text (fill ps)
  fill (variable name fallback ∷ ps) =
      said name (or_else (not_empty (lookup name)) fallback) (fill ps)

  substitute-plain :
      (text rest : Str)
      → substitute_from lookup 0 (escape text ++ rest) ≡ pushed text (substitute_from lookup 0 rest)
  unfolding substitute_from behind
  substitute-plain [] rest = sym (pushed-nil (substitute_from lookup 0 rest))
  substitute-plain (c ∷ text) rest = elim (Bool-cases (c == dollar)) [
    | inl e ↦
        rw (e, substitute-plain text rest, sym ((==_iff c dollar).0 e))
          (pushed-cons c text (substitute_from lookup 0 rest))
    | inr e ↦
        rw (e, e, substitute-plain text rest) (pushed-cons c text (substitute_from lookup 0 rest))
  ]

  substitute_from-skip :
      (s : Str) (c : ℕ) (rest : Str)
      → substitute_from lookup (suc (length s)) (s ++ c ∷ rest) ≡ substitute_from lookup 0 rest
  unfolding substitute_from
  substitute_from-skip [] c rest = refl
  substitute_from-skip (d ∷ s) c rest = substitute_from-skip s c rest

  behind-reference :
      (inner rest : Str)
      → Lacks b'}' inner
      → behind lookup (b'{' ∷ (inner ++ b'}' ∷ rest)) ≡ reference lookup inner
  unfolding behind
  behind-reference inner rest h = rw (split_once-append b'}' inner rest h) refl

  reference-inside :
      (name : Str) (fallback : Option Str)
      → IsPart (variable name fallback)
      → reference lookup (inside name fallback)
        ≡ valued
            (or_else (not_empty (lookup name)) fallback)
            name
            (suc (suc (length (inside name fallback))))
  unfolding reference
  reference-inside [] none h = absurd (h.0 refl)
  reference-inside [] (some fallback) h = absurd (h.0 refl)
  reference-inside (c ∷ name) fallback h = rw (name_and_default-inside (c ∷ name) fallback h) refl

  inside-Lacks :
      (name : Str) (fallback : Option Str)
      → IsPart (variable name fallback)
      → Lacks b'}' (inside name fallback)
  inside-Lacks name none h = h.1
  inside-Lacks name (some fallback) h =
      All-append (λ d. d == b'}' ≡ false) name (b':' ∷ b'-' ∷ fallback) h.1 (refl, (refl, h.3))

  after_valued :
      (value : Option Str) (name inner rest : Str)
      → (elim (valued value name (suc (suc (length inner)))) as (λ x. Filled) [
        | push text skip ↦ pushed text (substitute_from lookup skip (b'{' ∷ (inner ++ b'}' ∷ rest)))
        | stuck name ↦ unset name
      ])
        ≡ said name value (substitute_from lookup 0 rest)
  unfolding substitute_from
  after_valued none name inner rest = refl
  after_valued (some value) name inner rest = rw (substitute_from-skip inner b'}' rest) refl

  substitute-variable :
      (name : Str) (fallback : Option Str) (rest : Str)
      → IsPart (variable name fallback)
      → substitute_from lookup 0 (dollar ∷ b'{' ∷ (inside name fallback ++ b'}' ∷ rest))
        ≡ said name (or_else (not_empty (lookup name)) fallback) (substitute_from lookup 0 rest)
  unfolding substitute_from behind
  substitute-variable name fallback rest h =
      rw
        (
          split_once-append b'}' (inside name fallback) rest (inside-Lacks name fallback h),
          reference-inside name fallback h,
        )
        (after_valued (or_else (not_empty (lookup name)) fallback) name (inside name fallback) rest)

  -- A text written from parts, with each `$` of a plain part doubled, expands to the parts in their
  -- order, each reference replaced by the value of its variable, unexpanded, or by its default where
  -- the variable is unset or empty; the first reference that has neither is the answer instead. The name
  -- of a reference is not empty and holds neither `}` nor `:`, and a default holds no `}`.
  pub substitute-write : (ps : List Part) → All IsPart ps → substitute lookup (write ps) ≡ fill ps
  unfolding substitute
  substitute-write [] h = refl
  substitute-write (plain text ∷ ps) (_, hs) =
      substitute-plain text (write ps) ∙ ap (pushed text) (substitute-write ps hs)
  substitute-write (variable name fallback ∷ ps) (h, hs) =
      substitute-variable name fallback (write ps) h
      ∙ ap (said name (or_else (not_empty (lookup name)) fallback)) (substitute-write ps hs)
