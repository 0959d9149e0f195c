-- ===== src/Base/Texts.antt =====
-- A text is the list of its code points. The operations are the standard library's.
use Prim.Native.Nat.{ℕ, ◌+◌, ◌-◌, ◌*◌, ◌≤◌, ◌^◌}
use Prim.Native.Char.{code}
use Prim.Native.String.{String}
use mathlib.Core.Path.{◌≡◌, refl}
use mathlib.Core.Logic.{◌↔◌, ◌≢◌, inl, inr}
use mathlib.Core.Bool.{Bool, true, false, ◌&&◌, ◌||◌}
use mathlib.Core.Option.{Option, none, some}
use mathlib.Core.List.{List, [], ◌∷◌, ◌++◌}
use native.Mathlib.Omega.{arith}
use mcpdial.Base.Tests.{ltb, leb, ◌==◌, if◌then◌else◌, map_opt, Bool-cases, or_else}
use mcpdial.Base.Lists.{All}

abbrev pub Str : Type 0
Str = List ℕ

-- The code points of a literal.
abbrev pub codes : String → Str
codes String.[] = []
codes (String.◌∷◌ c s) = code c ∷ codes s

-- `a == b` on texts.
unfoldable pub str_eq : Str → Str → Bool
str_eq [] [] = true
str_eq [] (b ∷ t) = false
str_eq (a ∷ s) [] = false
str_eq (a ∷ s) (b ∷ t) = a == b && str_eq s t

pub str_eq_iff : (s t : Str) → (str_eq s t ≡ true) ↔ (s ≡ t)
unfolding str_eq
str_eq_iff [] [] = ground arith
str_eq_iff [] (b ∷ t) = ground arith
str_eq_iff (a ∷ s) [] = ground arith
str_eq_iff (a ∷ s) (b ∷ t) = ground (arith, str_eq_iff s t)

pub str_eq_refl : (s : Str) → str_eq s s ≡ true
str_eq_refl s = (str_eq_iff s s).1 refl

pub str_eq-false : (s t : Str) → str_eq s t ≡ false → s ≢ t
str_eq-false s t h e = cc (h, (str_eq_iff s t).1 e)

pub str_eq_of_ne : (s t : Str) → s ≢ t → str_eq s t ≡ false
str_eq_of_ne s t h = elim (Bool-cases (str_eq s t)) [
  | inl e ↦ absurd (h ((str_eq_iff s t).0 e))
  | inr e ↦ e
]

pub str_eq-sym : (s t : Str) → str_eq s t ≡ str_eq t s
str_eq-sym s t = ground (arith, str_eq_iff s t, str_eq_iff t s)

pub ruleset texts = (arith, str_eq_iff)

-- `a < b`: byte order of UTF-8 is the order of code points.
unfoldable pub str_lt : Str → Str → Bool
str_lt s [] = false
str_lt [] (b ∷ t) = true
str_lt (a ∷ s) (b ∷ t) = ltb a b || (a == b && str_lt s t)

pub str_lt_irrefl : (s : Str) → str_lt s s ≡ false
unfolding str_lt
str_lt_irrefl [] = refl
str_lt_irrefl (c ∷ s) = ground (arith, str_lt_irrefl s)

-- `char::is_whitespace`: the characters with the Unicode property White_Space.
abbrev pub is_whitespace : ℕ → Bool
is_whitespace c =
    leb 9 c && leb c 13
    || c == 32
    || c == 0x85
    || c == 0xa0
    || c == 0x1680
    || leb 0x2000 c && leb c 0x200a
    || c == 0x2028
    || c == 0x2029
    || c == 0x202f
    || c == 0x205f
    || c == 0x3000

abbrev pub is_digit : ℕ → Bool
is_digit c = leb b'0' c && leb c b'9'

-- `trim_start`, `trim_end`, `trim`.
unfoldable pub trim_start : Str → Str
trim_start [] = []
trim_start (c ∷ s) = if is_whitespace c then trim_start s else c ∷ s

-- A trailing run of blanks is dropped from the right.
unfoldable pub trim_end : Str → Str
trim_end [] = []
trim_end (c ∷ s) =
    let rest = trim_end s in
    elim rest [ [] ↦ if is_whitespace c then [] else c ∷ [] | d ∷ r ↦ c ∷ d ∷ r ]

unfoldable pub trim : Str → Str
unfolding trim_start trim_end
trim s = trim_end (trim_start s)

unfoldable pub starts_with : Str → Str → Bool
starts_with [] s = true
starts_with (p ∷ ps) [] = false
starts_with (p ∷ ps) (c ∷ s) = p == c && starts_with ps s

-- `s.strip_prefix(p)`, the prefix first.
abbrev pub strip_prefix : Str → Str → Option Str
strip_prefix [] s = some s
strip_prefix (p ∷ ps) [] = none
strip_prefix (p ∷ ps) (c ∷ s) = if p == c then strip_prefix ps s else none

-- `s.contains(c)`.
abbrev pub find_char : ℕ → Str → Bool
find_char c [] = false
find_char c (d ∷ s) = d == c || find_char c s

-- `s.split_once(c)`.
unfoldable pub split_once : ℕ → Str → Option (Str × Str)
split_once c [] = none
split_once c (d ∷ s) =
    let rest = split_once c s in if d == c then some ([], s) else map_opt (λ p. (d ∷ p.0, p.1)) rest

-- `s.split_once(text)`, the text first.
abbrev pub split_on : Str → Str → Option (Str × Str)
split_on n [] = map_opt (λ rest. ([], rest)) (strip_prefix n [])
split_on n (c ∷ s) =
    or_else (map_opt (λ rest. ([], rest)) (strip_prefix n (c ∷ s)))
      (map_opt (λ p. (c ∷ p.0, p.1)) (split_on n s))

-- The number that digits spell behind `n`.
abbrev pub value_of : ℕ → Str → ℕ
value_of n [] = n
value_of n (c ∷ s) = value_of (n * 10 + (c - b'0')) s

abbrev pub AllDigits : Str → Type 0
AllDigits = All (λ c. is_digit c ≡ true)

abbrev pub u64_max : ℕ
u64_max = 2 ^ 64 - 1

-- The digits of `str::parse` for an unsigned integer, each step checked against the maximum.
unfoldable pub scan_uint : ℕ → ℕ → Str → Option ℕ
scan_uint max n [] = some n
scan_uint max n (c ∷ s) =
    let m = n * 10 + (c - b'0') in
    let rest = scan_uint max m s in if is_digit c && leb m max then rest else none

-- `s.parse::<u64>()`, `s.parse::<usize>()`: an optional `+`, then at least one digit.
unfoldable pub parse_uint : ℕ → Str → Option ℕ
parse_uint max [] = none
parse_uint max (c ∷ []) = scan_uint max 0 (c ∷ [])
parse_uint max (c ∷ d ∷ s) = scan_uint max 0 (if c == b'+' then d ∷ s else c ∷ d ∷ s)

scan_uint-le : (max n : ℕ) (s : Str) {r : ℕ} → n ≤ max → scan_uint max n s ≡ some r → r ≤ max
unfolding scan_uint
scan_uint-le max n [] h e = ground arith
scan_uint-le max n (c ∷ s) {r} h e =
    ground (arith, scan_uint-le max (n * 10 + (c - b'0')) s {r = r})

pub parse_uint-eq-some : (max : ℕ) (s : Str) {r : ℕ} → parse_uint max s ≡ some r → r ≤ max
unfolding parse_uint
parse_uint-eq-some max [] e = cc
parse_uint-eq-some max (c ∷ []) e = scan_uint-le max 0 (c ∷ []) (omega arith) e
parse_uint-eq-some max (c ∷ d ∷ s) e = scan_uint-le max 0 _ (omega arith) e

-- `str::lines`: a line ends at `\n` or `\r\n`, and an ending at the very end opens no line.
abbrev pub put_front : ℕ → List Str → List Str
put_front c [] = (c ∷ []) ∷ []
put_front c (l ∷ ls) = (c ∷ l) ∷ ls

abbrev pub opens_line : Str → Bool
opens_line [] = false
opens_line (c ∷ s) = c == 10

unfoldable pub lines : Str → List Str
lines [] = []
lines (c ∷ s) =
    let rest = lines s in
    if c == 10 then [] ∷ rest else if c == 13 && opens_line s then rest else put_front c rest

-- `haystack.contains(needle)`, the needle first.
unfoldable pub contains : Str → Str → Bool
unfolding starts_with
contains n [] = starts_with n []
contains n (c ∷ s) = starts_with n (c ∷ s) || contains n s

-- `to_ascii_lowercase`.
abbrev pub lower_ascii : ℕ → ℕ
lower_ascii c = if leb b'A' c && leb c b'Z' then c + 32 else c

unfoldable pub to_ascii_lowercase : Str → Str
to_ascii_lowercase [] = []
to_ascii_lowercase (c ∷ s) = lower_ascii c ∷ to_ascii_lowercase s

-- A text in which no line ends.
abbrev pub IsOneLine : Str → Type 0
IsOneLine = All (λ c. (c == 10 ≡ false) × (c == 13 ≡ false))

pub lines-append : (t s : Str) → IsOneLine t → lines (t ++ 10 ∷ s) ≡ t ∷ lines s
unfolding lines
lines-append [] s h = refl
lines-append (c ∷ t) s (h, hs) = rw (lines-append t s hs, h.0, h.1)

pub trim_end-ne-nil : (c : ℕ) (s : Str) → is_whitespace c ≡ false → trim_end (c ∷ s) ≢ []
unfolding trim_end
trim_end-ne-nil c s h =
    elim (trim_end s)
      as (λ r.
        (elim r as (λ q. Str) [ [] ↦ if is_whitespace c then [] else c ∷ [] | d ∷ q ↦ c ∷ d ∷ q ])
        ≢ []) [ [] ↦ rw h (λ e. cc) | d ∷ r ↦ λ e. cc ]

-- A text without a character.
abbrev pub Lacks : ℕ → Str → Type 0
Lacks c = All (λ d. d == c ≡ false)

pub split_once-append : (c : ℕ) (s t : Str) → Lacks c s → split_once c (s ++ c ∷ t) ≡ some (s, t)
unfolding split_once
split_once-append c [] t h = ground arith
split_once-append c (d ∷ s) t (h, hs) = rw (h, split_once-append c s t hs) refl

==-refl : (c : ℕ) → (c == c) ≡ true
==-refl c = ground arith

==_flip : (c d : ℕ) → (c == d) ≡ false → (d == c) ≡ false
==_flip c d h = ground arith

pub split_on-append :
    (c d : ℕ) (s t : Str) → Lacks c s → split_on (c ∷ d ∷ []) (s ++ c ∷ d ∷ t) ≡ some (s, t)
split_on-append c d [] t h = rw (==-refl c, ==-refl d) refl
split_on-append c d (e ∷ s) t (h, hs) = rw (==_flip e c h, split_on-append c d s t hs) refl

pub split_on-none : (c d : ℕ) (s : Str) → Lacks c s → split_on (c ∷ d ∷ []) s ≡ none
split_on-none c d [] h = refl
split_on-none c d (e ∷ s) (h, hs) = rw (==_flip e c h, split_on-none c d s hs) refl

-- `split(c)`: the pieces between the separators, at least one.
abbrev extend : ℕ → List Str → List Str
extend c [] = (c ∷ []) ∷ []
extend c (p ∷ ps) = (c ∷ p) ∷ ps

unfoldable pub split_at : ℕ → Str → List Str
split_at c [] = [] ∷ []
split_at c (d ∷ s) = let rest = split_at c s in if d == c then [] ∷ rest else extend d rest

pub split_at-append : (c : ℕ) (s t : Str) → Lacks c s → split_at c (s ++ c ∷ t) ≡ s ∷ split_at c t
unfolding split_at
split_at-append c [] t h = ground arith
split_at-append c (d ∷ s) t (h, hs) = rw (h, split_at-append c s t hs) refl

pub split_at-one : (c : ℕ) (s : Str) → Lacks c s → split_at c s ≡ s ∷ []
unfolding split_at
split_at-one c [] h = refl
split_at-one c (d ∷ s) (h, hs) = rw (h, split_at-one c s hs) refl
