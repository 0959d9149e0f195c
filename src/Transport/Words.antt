-- ===== src/Transport/Words.antt =====
-- src/transport/stdio.rs, `split_command`: the words of a command line; and src/diagnose.rs,
-- `shell_word`: a word written so that it survives a shell.
pub mod RoundTrip
use mcpdial.Base.{
  ℕ, Bool, true, false, ◌||◌, Option, none, some, List, [], ◌∷◌, ◌++◌, Str, codes, if◌then◌else◌,
  is_whitespace, ◌==◌, find_char, any,
}
use mcpdial.Protocol.Errors.{
  Error, usage, unterminated_single, unterminated_double, no_command, Result, ok, err,
}

abbrev pub quote : ℕ
quote = 39

abbrev pub double_quote : ℕ
double_quote = 34

abbrev pub backslash : ℕ
backslash = 92

-- What a backslash escapes inside double quotes: `"`, `\`, `$` and the backquote.
abbrev pub escapes_in_double : ℕ → Bool
escapes_in_double e = e == double_quote || e == backslash || e == 36 || e == 96

abbrev pub close_word : Bool → Str → List Str → List Str
close_word true cur out = out ++ cur ∷ []
close_word false cur out = out

abbrev pub some_words : List Str → Result (List Str)
some_words [] = err (usage no_command)
some_words (w ∷ ws) = ok (w ∷ ws)

-- The loop and its two inner loops; `cur` is the word so far and `out` the words before it.
unfoldable mutual
  pub unquoted : Str → Bool → Str → List Str → Result (List Str)
  unquoted [] in_word cur out = some_words (close_word in_word cur out)
  unquoted (c ∷ s) in_word cur out =
      let opened = in_single s cur out in
      let doubled = in_double s cur out in
      let escaped = after_backslash s cur out in
      let ended = unquoted s false [] (out ++ cur ∷ []) in
      let between = unquoted s false cur out in
      let longer = unquoted s true (cur ++ c ∷ []) out in
      if c == quote
      then opened
      else if c == double_quote
      then doubled
      else if c == backslash
      then escaped
      else if is_whitespace c
      then (if in_word then ended else between)
      else longer

  pub in_single : Str → Str → List Str → Result (List Str)
  in_single [] cur out = err (usage unterminated_single)
  in_single (c ∷ s) cur out =
      let closed = unquoted s true cur out in
      let longer = in_single s (cur ++ c ∷ []) out in if c == quote then closed else longer

  pub in_double : Str → Str → List Str → Result (List Str)
  in_double [] cur out = err (usage unterminated_double)
  in_double (c ∷ s) cur out =
      let closed = unquoted s true cur out in
      let escaped = double_escape s cur out in
      let longer = in_double s (cur ++ c ∷ []) out in
      if c == double_quote then closed else if c == backslash then escaped else longer

  pub double_escape : Str → Str → List Str → Result (List Str)
  double_escape [] cur out = err (usage unterminated_double)
  double_escape (e ∷ s) cur out =
      let bare = in_double s (cur ++ e ∷ []) out in
      let kept = in_double s (cur ++ backslash ∷ e ∷ []) out in
      if escapes_in_double e then bare else kept

  pub after_backslash : Str → Str → List Str → Result (List Str)
  after_backslash [] cur out = some_words (close_word true cur out)
  after_backslash (e ∷ s) cur out = unquoted s true (cur ++ e ∷ []) out

unfoldable pub split_command : Str → Result (List Str)
unfolding unquoted
split_command s = unquoted s false [] []

-- "\"'$`\\*?~<>|&;()[]{}#!"
abbrev pub shell_specials : Str
shell_specials =
    34 ∷ 39 ∷ 36 ∷ 96 ∷ 92 ∷ 42 ∷ 63 ∷ 126 ∷ 60 ∷ 62 ∷ 124 ∷ 38 ∷ 59 ∷ 40 ∷ 41 ∷ 91 ∷ 93 ∷ 123 ∷ 125
    ∷ 35 ∷ 33 ∷ []

unfoldable pub is_special : ℕ → Bool
is_special c = is_whitespace c || find_char c shell_specials

-- `s.replace('\'', r"'\''")`.
abbrev pub hide_quote : ℕ → Str
hide_quote c = if c == quote then quote ∷ backslash ∷ quote ∷ quote ∷ [] else c ∷ []

unfoldable pub replace_quotes : Str → Str
replace_quotes [] = []
replace_quotes (c ∷ s) = hide_quote c ++ replace_quotes s

unfoldable pub shell_word : Str → Str
shell_word s = if any is_special s then quote ∷ (replace_quotes s ++ quote ∷ []) else s
