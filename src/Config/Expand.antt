-- ===== src/Config/Expand.antt =====
-- src/config.rs, `substitute`, `expand`: `${NAME}` and `${NAME:-default}` in what a server's
-- configuration says.
pub mod Parts
use mcpdial.Base.{
  Str, Bool, Option, none, some, [], ◌∷◌, ◌++◌, ℕ, suc, zero, ◌==◌, if◌then◌else◌, length, ◌+◌,
  split_once, split_on, or_else,
}
use mcpdial.Protocol.Errors.{Result, ok, err, config, not_set}

-- What `substitute` returns: the text, or the variable that has no value.
pub data Filled : Type 0 where
  filled : Str → Filled
  unset : (name : Str) → Filled

-- What a `$` turns out to be: text to push, and how many characters behind it are used up.
pub data Dollar : Type 0 where
  push : (text : Str) (skip : ℕ) → Dollar
  stuck : (name : Str) → Dollar

abbrev pub dollar : ℕ
dollar = b'$'

-- `lookup(name).filter(|v| !v.is_empty())`.
abbrev pub not_empty : Option Str → Option Str
not_empty none = none
not_empty (some []) = none
not_empty (some (c ∷ v)) = some (c ∷ v)

-- The name and the default of `${..}`.
abbrev pub name_and_default : Str → Str × Option Str
name_and_default inner = elim (split_on (b':' ∷ b'-' ∷ []) inner) [
  | some (name, fallback) ↦ (name, some fallback)
  | none ↦ (inner, none)
]

abbrev pub valued : Option Str → Str → ℕ → Dollar
valued (some value) name skip = push value skip
valued none name skip = stuck name

abbrev pub pushed : Str → Filled → Filled
pushed text (filled rest) = filled (text ++ rest)
pushed text (unset name) = unset name

module _ (lookup : Str → Option Str) where
  -- A reference without a name is left as it is written.
  abbrev pub referred : Str × Option Str → ℕ → Dollar
  referred ([], fallback) skip = push (dollar ∷ []) 0
  referred (c ∷ name, fallback) skip =
      valued (or_else (not_empty (lookup (c ∷ name))) fallback) (c ∷ name) skip

  -- A reference, by the text between its braces.
  unfoldable pub reference : Str → Dollar
  reference inner = referred (name_and_default inner) (suc (suc (length inner)))

  -- What stands behind a `$`.
  unfoldable pub behind : Str → Dollar
  unfolding reference
  behind [] = push (dollar ∷ []) 0
  behind (c ∷ s) =
      if c == dollar
      then push (dollar ∷ []) 1
      else if c == b'{'
      then elim (split_once b'}' s) [
        | some (inner, after) ↦ reference inner
        | none ↦ push (dollar ∷ []) 0
      ]
      else push (dollar ∷ []) 0

  -- The loop, with how many characters are still to be passed over.
  unfoldable pub substitute_from : ℕ → Str → Filled
  unfolding behind
  substitute_from skip [] = filled []
  substitute_from (suc skip) (c ∷ s) = substitute_from skip s
  substitute_from zero (c ∷ s) =
      if c == dollar
      then elim (behind s) [
        | push text skip ↦ pushed text (substitute_from skip s)
        | stuck name ↦ unset name
      ]
      else pushed (c ∷ []) (substitute_from zero s)

  unfoldable pub substitute : Str → Filled
  unfolding substitute_from
  substitute text = substitute_from 0 text

  unfoldable pub expand : Str → Result Str
  unfolding substitute
  expand text = elim (substitute text) [
    | filled out ↦ ok out
    | unset name ↦ err (config (not_set name))
  ]
