-- ===== src/Background/Watching/Marked.antt =====
-- The result of a task that ended, marked as an error where it was not completed.
use mcpdial.Base.{
  Str, true, Option, none, some, codes, ◌≡◌, refl, ◌∙◌, sym, str_eq, inl, inr, Bool-cases,
  if◌then◌else◌, unwrap_or, Option-cases, str_eq_iff,
}
use mcpdial.Json.{Value, bool, obj, Fields, lookup, insert}
use mcpdial.Json.Laws.{lookup-insert}
use mcpdial.Background.Facts.{status_of, ended_without_a_result}
use mcpdial.Background.Watching.{seen, ended_result, text_block, with_content}

-- What a field of the result of a call is: that of the task's result, but for a task that was not
-- completed, whose result is an error and has some content.
abbrev pub ended_field : Value → Fields → Str → Option Value
ended_field state fs key =
    if str_eq (status_of state) (codes "completed")
    then lookup key fs
    else if str_eq (codes "isError") key
    then some (bool true)
    else if str_eq (codes "content") key
    then some (unwrap_or (text_block (ended_without_a_result state)) (lookup key fs))
    else lookup key fs

kept_content :
    (c key : Str) (o : Option Value) (tb : Value) (fs : Fields)
    → lookup c fs ≡ o
    → (if str_eq c key then some (unwrap_or tb o) else lookup key fs)
      ≡ (if str_eq c key then some (unwrap_or tb (lookup key fs)) else lookup key fs)
kept_content c key o tb fs e = elim (Bool-cases (str_eq c key)) [
  | inl same ↦ rw (same, sym e, (str_eq_iff c key).0 same) refl
  | inr other ↦ rw other refl
]

there_already :
    (c key : Str) (v tb : Value) (fs : Fields)
    → lookup c fs ≡ some v
    → lookup key fs ≡ (if str_eq c key then some (unwrap_or tb (lookup key fs)) else lookup key fs)
there_already c key v tb fs e = elim (Bool-cases (str_eq c key)) [
  | inl same ↦ rw (same, sym ((str_eq_iff c key).0 same), e) refl
  | inr other ↦ rw other refl
]

-- The content of a call that failed.
with_content-seen :
    (state : Value) (fs : Fields) (key : Str)
    → (gs : Fields) × (with_content state (obj fs) ≡ seen (obj gs))
      × (lookup key gs ≡ (
          if str_eq (codes "content") key
          then some (unwrap_or (text_block (ended_without_a_result state)) (lookup key fs))
          else lookup key fs))
with_content-seen state fs key = elim (Option-cases (lookup (codes "content") fs)) [
  | inl e ↦ (
    insert (codes "content") (text_block (ended_without_a_result state)) fs,
    rw e refl,
    lookup-insert (codes "content") key (text_block (ended_without_a_result state)) fs
        ∙ kept_content (codes "content") key none (text_block (ended_without_a_result state)) fs e,
  )
  | inr (v, e) ↦ (
    fs,
    rw e refl,
    there_already (codes "content") key v (text_block (ended_without_a_result state)) fs e,
  )
]

marked_field :
    (state : Value) (fs : Fields) (key : Str)
    → (if str_eq (codes "content") key
        then some (
            unwrap_or
              (text_block (ended_without_a_result state))
              (lookup key (insert (codes "isError") (bool true) fs)))
        else lookup key (insert (codes "isError") (bool true) fs))
      ≡ (if str_eq (codes "isError") key
          then some (bool true)
          else if str_eq (codes "content") key
          then some (unwrap_or (text_block (ended_without_a_result state)) (lookup key fs))
          else lookup key fs)
unfolding str_eq
marked_field state fs key = elim (Bool-cases (str_eq (codes "isError") key)) [
  | inl same ↦
      rw
        (
          lookup-insert (codes "isError") key (bool true) fs,
          sym ((str_eq_iff (codes "isError") key).0 same),
        )
        refl
  | inr other ↦ rw (lookup-insert (codes "isError") key (bool true) fs, other) refl
]

pub ended_result-seen :
    (state : Value) (fs : Fields) (key : Str)
    → (gs : Fields) × (ended_result state (obj fs) ≡ seen (obj gs))
      × (lookup key gs ≡ ended_field state fs key)
unfolding ended_result
ended_result-seen state fs key = elim (Bool-cases (str_eq (status_of state) (codes "completed"))) [
  | inl e ↦ (fs, rw e refl, rw e refl)
  | inr e ↦
      let (gs, same_result, same_field) =
        with_content-seen state (insert (codes "isError") (bool true) fs) key in
      (gs, rw e same_result, rw e (same_field ∙ marked_field state fs key))
]
