-- ===== src/Transport/Http/Stream/Lines.antt =====
-- A text as the lines that a reader takes from it one by one, and as the lines of `str::lines`.
use mcpdial.Base.{
  ℕ, true, false, ◌≡◌, refl, sym, ap, ◌∙◌, List, [], ◌∷◌, Str, arith, Bool-cases, inl, inr, ◌&&◌,
  not, map, if◌then◌else◌, subst, ◌==◌, ==_iff, lines, put_front, opens_line,
}
use mcpdial.Transport.Http.{Body}
use mcpdial.Transport.Http.Stream.{cut_break, trim_breaks}

-- What `read_line` gives, call after call: each line with the line feed that ends it, and what is
-- behind the last line feed.
unfoldable pub lines_read : Str → List Str
lines_read [] = []
lines_read (c ∷ s) =
    let rest = lines_read s in if c == 10 then (c ∷ []) ∷ rest else put_front c rest

abbrev pub streamed : Str → Body
streamed text = record { chunks = lines_read text; breaks = false }

-- Each carriage return stands directly before a line feed.
abbrev pub HasPlainBreaks : Str → Type 0
HasPlainBreaks [] = Unit
HasPlainBreaks (c ∷ s) = (c == 13 && not (opens_line s) ≡ false) × HasPlainBreaks s

cut_break-kept : (c : ℕ) (s : Str) → (c == 10) ≡ false → (c == 13) ≡ false → cut_break c s ≡ c ∷ s
cut_break-kept c [] feed return = rw (feed, return) refl
cut_break-kept c (d ∷ s) feed return = refl

trim_breaks-put_front :
    (c : ℕ) (ls : List Str)
    → (c == 10) ≡ false
    → (c == 13) ≡ false
    → map trim_breaks (put_front c ls) ≡ put_front c (map trim_breaks ls)
unfolding trim_breaks
trim_breaks-put_front c [] feed return = rw (feed, return) refl
trim_breaks-put_front c (l ∷ ls) feed return =
    ap (λ t. t ∷ map trim_breaks ls) (cut_break-kept c (trim_breaks l) feed return)

-- The text has the lines that are read from it, less their breaks.
abbrev AreRead : Str → Type 0
AreRead s = lines s ≡ map trim_breaks (lines_read s)

AreRead-return : (s : Str) → opens_line s ≡ true → AreRead s → AreRead (13 ∷ s)
unfolding lines lines_read trim_breaks
AreRead-return [] opens same = absurd (cc opens)
AreRead-return (d ∷ s) opens same =
    let feed = (==_iff d 10).0 opens in rw feed (subst (λ c. AreRead (c ∷ s)) feed same)

AreRead-add :
    (c : ℕ) (s : Str) → (c == 13 && not (opens_line s)) ≡ false → AreRead s → AreRead (c ∷ s)
unfolding lines lines_read trim_breaks
AreRead-add c s plain same = elim (Bool-cases (c == 10)) [
  | inl e ↦ rw ((==_iff c 10).0 e) (ap (λ ls. [] ∷ ls) same)
  | inr e ↦ elim (Bool-cases (c == 13)) [
    | inl r ↦
        subst (λ d. AreRead (d ∷ s)) (sym ((==_iff c 13).0 r))
          (AreRead-return s (ground arith) same)
    | inr r ↦ rw (e, r) (ap (put_front c) same ∙ sym (trim_breaks-put_front c (lines_read s) e r))
  ]
]

pub lines-lines_read : (s : Str) → HasPlainBreaks s → AreRead s
unfolding lines lines_read
lines-lines_read [] h = refl
lines-lines_read (c ∷ s) (h, hs) = AreRead-add c s h (lines-lines_read s hs)
