-- ===== src/Transport/Http/Stream/Agrees.antt =====
-- Reading an event stream as it comes finds what decoding the whole body finds.
use mcpdial.Base.{
  ℕ, Bool, true, false, ◌≡◌, ◌≢◌, refl, sym, ap, ◌∙◌, Option, none, some, List, [], ◌∷◌, ◌++◌, Str,
  arith, codes, Bool-cases, Option-cases, inl, inr, is_empty, trim, trim_start, trim_end-ne-nil,
  all, is_whitespace, ◌&&◌, map, strip_prefix, ◌==◌, ==_iff, ◌↔◌,
}
use mcpdial.Json.{Value}
use mcpdial.Protocol.Errors.{Result, ok, err}
use mcpdial.Protocol.Sse.{sse_loop, sse_events, add_line, decode_events, decode_sse}
use mcpdial.Transport.Http.Stream.{
  Read, found, ended, broke, cut_break, trim_breaks, event_of, read_lines, read_stream,
}
use mcpdial.Transport.Http.Stream.Lines.{HasPlainBreaks, streamed, lines_read, lines-lines_read}

is_empty_of_ne : (s : Str) → s ≢ [] → is_empty s ≡ false
is_empty_of_ne [] h = absurd (h refl)
is_empty_of_ne (c ∷ s) h = refl

is_empty-trim : (s : Str) → is_empty (trim s) ≡ all is_whitespace s
unfolding trim
is_empty-trim [] = refl
is_empty-trim (c ∷ s) = elim (Bool-cases (is_whitespace c)) [
  | inl e ↦ rw (e, trim_start) (is_empty-trim s)
  | inr e ↦ rw (e, trim_start) (is_empty_of_ne _ (trim_end-ne-nil c s e))
]

all-cut_break :
    (c : ℕ) (s : Str) → all is_whitespace (cut_break c s) ≡ (is_whitespace c && all is_whitespace s)
all-cut_break c (d ∷ r) = refl
all-cut_break c [] = elim (Bool-cases (c == 13)) [
  | inl e ↦ rw ((==_iff c 13).0 e)
  | inr e ↦ elim (Bool-cases (c == 10)) [ inl k ↦ rw ((==_iff c 10).0 k) | inr k ↦ rw (e, k) ]
]

all-trim_breaks : (s : Str) → all is_whitespace (trim_breaks s) ≡ all is_whitespace s
unfolding trim_breaks
all-trim_breaks [] = refl
all-trim_breaks (c ∷ s) =
    all-cut_break c (trim_breaks s) ∙ ap (λ b. is_whitespace c && b) (all-trim_breaks s)

is_blank_breaks : (s : Str) → is_empty (trim (trim_breaks s)) ≡ is_empty (trim s)
is_blank_breaks s = is_empty-trim (trim_breaks s) ∙ all-trim_breaks s ∙ sym (is_empty-trim s)

blank_nil : is_empty (trim []) ≡ true
unfolding trim
blank_nil = refl

abbrev read_answer : Read → Option Value
read_answer (found m) = some m
read_answer ended = none
read_answer broke = none

abbrev decoded_answer : Result (Option Value) → Option Value
decoded_answer (ok m) = m
decoded_answer (err e) = none

module _ (from_str : Str → Option Value) (empty : from_str [] ≡ none) where
  read_lines-decode_events :
      (ls : List Str) (held : Str) (seen : List Value) (b : Bool)
      → read_answer (read_lines from_str (λ _. false) ls false held seen).0
        ≡ decoded_answer (decode_events from_str (sse_loop (map trim_breaks ls ++ [] ∷ []) held) b)
  unfolding read_lines sse_loop event_of decode_events
  read_lines-decode_events [] [] seen b = ground (arith, empty, blank_nil)
  read_lines-decode_events [] (c ∷ held) seen b = ground (arith, blank_nil)
  read_lines-decode_events (l ∷ ls) [] seen b = ground (
    arith,
    empty,
    is_blank_breaks l,
    read_lines-decode_events ls [] seen b,
    read_lines-decode_events ls (add_line [] (strip_prefix (codes "data:") (trim_breaks l))) seen b,
  )
  read_lines-decode_events (l ∷ ls) (c ∷ held) seen b = elim (Option-cases (from_str (c ∷ held))) [
    | inl n ↦ ground (
      arith,
      is_blank_breaks l,
      read_lines-decode_events ls [] seen true,
      read_lines-decode_events ls
          (add_line (c ∷ held) (strip_prefix (codes "data:") (trim_breaks l))) seen b,
    )
    | inr (m, s) ↦ ground (
      arith,
      is_blank_breaks l,
      read_lines-decode_events ls [] (seen ++ m ∷ []) b,
      read_lines-decode_events ls
          (add_line (c ∷ held) (strip_prefix (codes "data:") (trim_breaks l))) seen b,
    )
  ]

  found_iff : (r : Read) (m : Value) → (r ≡ found m) ↔ (read_answer r ≡ some m)
  found_iff r m = ground arith

  decoded_iff :
      (r : Result (Option Value)) (m : Value) → (r ≡ ok (some m)) ↔ (decoded_answer r ≡ some m)
  decoded_iff r m = ground arith

  -- A text is read as a stream line by line, by a watcher that never stops, from a connection that
  -- does not break, and is decoded whole: the two find the same answer, or both find none. Each
  -- carriage return of the text stands directly before a line feed, and empty text is no JSON.
  pub read_stream-decode_sse :
      (text : Str) (m : Value)
      → HasPlainBreaks text
      → ((read_stream from_str (λ _. false) (streamed text)).0 ≡ found m)
        ↔ (decode_sse from_str text ≡ ok (some m))
  unfolding read_stream decode_sse sse_events
  read_stream-decode_sse text m plain =
      let agree = read_lines-decode_events (lines_read text) [] [] false in
      rw (lines-lines_read text plain) (
        λ h. (decoded_iff _ m).1 (sym agree ∙ (found_iff _ m).0 h),
        λ h. (found_iff _ m).1 (agree ∙ (decoded_iff _ m).0 h),
      )
