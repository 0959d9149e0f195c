-- ===== src/Transport/Words/RoundTrip.antt =====
-- Words written for a shell are the words that are read.
use mathlib.Core.List.{cons-ne-nil}
use mcpdial.Base.{
  ℕ, Bool, true, false, ◌||◌, ◌≡◌, ◌≢◌, refl, sym, ap, ◌∙◌, List, [], ◌∷◌, ◌++◌, Str, arith,
  is_whitespace, ◌==◌, ==_iff, any, append_assoc, append-nil, All, Bool-cases, inl, inr,
}
use mcpdial.Protocol.Errors.{ok}
use mcpdial.Transport.Words.{
  quote, double_quote, backslash, unquoted, in_single, split_command, is_special, hide_quote,
  replace_quotes, shell_word, some_words,
}

-- A character that needs no quotes is none of those that the loop looks for.
record IsPlain (c : ℕ) : Type 0 where
  no_quote : c == quote ≡ false
  no_double : c == double_quote ≡ false
  no_backslash : c == backslash ≡ false
  no_blank : is_whitespace c ≡ false

is_special-IsPlain : (c : ℕ) → is_special c ≡ false → IsPlain c
unfolding is_special
is_special-IsPlain c h = record {
  no_quote = ground arith;
  no_double = ground arith;
  no_backslash = ground arith;
  no_blank = ground arith;
}

or-eq-false : (a b : Bool) → (a || b) ≡ false → (a ≡ false) × (b ≡ false)
or-eq-false a b h = ground arith

-- One character outside quotes that is none of those.
unquoted_step :
    (c : ℕ) (s : Str) (b : Bool) (cur : Str) (out : List Str)
    → IsPlain c
    → unquoted (c ∷ s) b cur out ≡ unquoted s true (cur ++ c ∷ []) out
unfolding unquoted
unquoted_step c s b cur out p = rw (p.no_quote, p.no_double, p.no_backslash, p.no_blank)

unquoted-all :
    (s rest : Str) (cur : Str) (out : List Str)
    → any is_special s ≡ false
    → unquoted (s ++ rest) true cur out ≡ unquoted rest true (cur ++ s) out
unquoted-all [] rest cur out h = rw append-nil
unquoted-all (c ∷ s) rest cur out h =
    let (here, later) = or-eq-false (is_special c) (any is_special s) h in
    unquoted_step c (s ++ rest) true cur out (is_special-IsPlain c here)
    ∙ unquoted-all s rest (cur ++ c ∷ []) out later
    ∙ ap (λ (w : Str). unquoted rest true w out) (append_assoc cur (c ∷ []) s)

unquoted-plain :
    (s rest : Str) (b : Bool) (cur : Str) (out : List Str)
    → any is_special s ≡ false
    → s ≢ []
    → unquoted (s ++ rest) b cur out ≡ unquoted rest true (cur ++ s) out
unquoted-plain [] rest b cur out h full = absurd (full refl)
unquoted-plain (c ∷ s) rest b cur out h full =
    let (here, later) = or-eq-false (is_special c) (any is_special s) h in
    unquoted_step c (s ++ rest) b cur out (is_special-IsPlain c here)
    ∙ unquoted-all s rest (cur ++ c ∷ []) out later
    ∙ ap (λ (w : Str). unquoted rest true w out) (append_assoc cur (c ∷ []) s)

in_single_step :
    (c : ℕ) (s cur : Str) (out : List Str)
    → in_single (hide_quote c ++ s) cur out ≡ in_single s (cur ++ c ∷ []) out
unfolding unquoted
in_single_step c s cur out = elim (Bool-cases (c == quote)) [
  | inl e ↦ rw ((==_iff c quote).0 e)
  | inr e ↦ rw (e, in_single, e)
]

in_single-quotes :
    (s rest : Str) (cur : Str) (out : List Str)
    → in_single (replace_quotes s ++ quote ∷ rest) cur out ≡ unquoted rest true (cur ++ s) out
unfolding replace_quotes
in_single-quotes [] rest cur out = rw append-nil (unfold unquoted in refl)
in_single-quotes (c ∷ s) rest cur out = rw (
  append_assoc (hide_quote c) (replace_quotes s) (quote ∷ rest),
  in_single_step c (replace_quotes s ++ quote ∷ rest) cur out,
  in_single-quotes s rest (cur ++ c ∷ []) out,
  append_assoc cur (c ∷ []) s,
)

unquoted-quote :
    (s rest : Str) (out : List Str)
    → unquoted (quote ∷ (replace_quotes s ++ quote ∷ rest)) false [] out ≡ unquoted rest true s out
unquoted-quote s rest out = unfold unquoted in in_single-quotes s rest [] out

-- A written word, with what follows it, is read as that word.
unquoted-shell_word :
    (s rest : Str) (out : List Str)
    → s ≢ []
    → unquoted (shell_word s ++ rest) false [] out ≡ unquoted rest true s out
unfolding shell_word
unquoted-shell_word s rest out full = elim (Bool-cases (any is_special s)) [
  | inl e ↦ rw (e, append_assoc (replace_quotes s) (quote ∷ []) rest) (unquoted-quote s rest out)
  | inr e ↦ rw e (unquoted-plain s rest false [] out e full)
]

-- The words of a line, one blank between two.
unfoldable pub join_words : List Str → Str
join_words [] = []
join_words (w ∷ []) = shell_word w
join_words (w ∷ v ∷ ws) = shell_word w ++ 32 ∷ join_words (v ∷ ws)

unquoted_end : (w : Str) (out : List Str) → unquoted [] true w out ≡ some_words (out ++ w ∷ [])
unfolding unquoted
unquoted_end w out = refl

unquoted_blank :
    (w rest : Str) (out : List Str)
    → unquoted (32 ∷ rest) true w out ≡ unquoted rest false [] (out ++ w ∷ [])
unfolding unquoted
unquoted_blank w rest out = refl

unquoted-join_words :
    (ws : List Str) (out : List Str)
    → ws ≢ []
    → All (λ w. w ≢ []) ws
    → unquoted (join_words ws) false [] out ≡ some_words (out ++ ws)
unfolding join_words
unquoted-join_words [] out full h = absurd (full refl)
unquoted-join_words (w ∷ []) out full (h, hs) =
    ap (λ (l : Str). unquoted l false [] out) (sym (append-nil (shell_word w)))
    ∙ unquoted-shell_word w [] out h
    ∙ unquoted_end w out
unquoted-join_words (w ∷ v ∷ ws) out full (h, hs) =
    unquoted-shell_word w (32 ∷ join_words (v ∷ ws)) out h
    ∙ unquoted_blank w (join_words (v ∷ ws)) out
    ∙ unquoted-join_words (v ∷ ws) (out ++ w ∷ []) (cons-ne-nil v ws) hs
    ∙ ap some_words (append_assoc out (w ∷ []) (v ∷ ws))

-- A command line put together from words, each written for a shell, is split into those very
-- words, if there is a word and none is empty.
pub split_command-join_words :
    (ws : List Str) → ws ≢ [] → All (λ w. w ≢ []) ws → split_command (join_words ws) ≡ ok ws
unfolding split_command
split_command-join_words [] full h = absurd (full refl)
split_command-join_words (w ∷ ws) full h = unquoted-join_words (w ∷ ws) [] full h
