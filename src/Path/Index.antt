-- ===== src/Path/Index.antt =====
-- An index in brackets is the number that its digits spell.
use mcpdial.Base.{
  Str, Bool, true, false, some, [], ◌∷◌, ℕ, ◌+◌, ◌-◌, ◌*◌, ◌≤◌, ◌==◌, ◌≡◌, ◌≢◌, refl, ap, ◌∙◌,
  arith, All, AllDigits, is_digit, is_whitespace, value_of, u64_max, scan_uint, parse_uint, trim,
  trim_start, trim_end, map_opt, sym, subst,
}
use mcpdial.Path.{at, bracketed}

value_of-le : (n : ℕ) (s : Str) → n ≤ value_of n s
value_of-le n [] = omega arith
value_of-le n (c ∷ s) = omega (arith, value_of-le (n * 10 + (c - b'0')) s)

scan_uint-value_of :
    (max n : ℕ) (s : Str)
    → AllDigits s
    → value_of n s ≤ max
    → scan_uint max n s ≡ some (value_of n s)
unfolding scan_uint
scan_uint-value_of max n [] h le = refl
scan_uint-value_of max n (c ∷ s) (h, hs) le = ground (
  arith,
  h,
  value_of-le (n * 10 + (c - b'0')) s,
  scan_uint-value_of max (n * 10 + (c - b'0')) s hs le,
)

digit-plus : (c : ℕ) → is_digit c ≡ true → (c == b'+') ≡ false
digit-plus c h = ground arith

digit-blank : (c : ℕ) → is_digit c ≡ true → is_whitespace c ≡ false
digit-blank c h = ground arith

digit-bracket : (c : ℕ) → is_digit c ≡ true → (c == b']') ≡ false
digit-bracket c h = ground arith

pub digits-bracket : (s : Str) → AllDigits s → All (λ c. c == b']' ≡ false) s
digits-bracket [] h = tt
digits-bracket (c ∷ s) (h, hs) = (digit-bracket c h, digits-bracket s hs)

parse_uint-value_of :
    (max : ℕ) (s : Str)
    → AllDigits s
    → s ≢ []
    → value_of 0 s ≤ max
    → parse_uint max s ≡ some (value_of 0 s)
unfolding parse_uint
parse_uint-value_of max [] h full le = absurd (full refl)
parse_uint-value_of max (c ∷ []) h full le = scan_uint-value_of max 0 (c ∷ []) h le
parse_uint-value_of max (c ∷ d ∷ s) h full le =
    rw (digit-plus c (h.0)) (scan_uint-value_of max 0 (c ∷ d ∷ s) h le)

trim_end-digits : (s : Str) → AllDigits s → trim_end s ≡ s
unfolding trim_end
trim_end-digits [] h = refl
trim_end-digits (c ∷ []) (h, hs) = rw (digit-blank c h) refl
trim_end-digits (c ∷ d ∷ s) (h, hs) = rw (trim_end-digits (d ∷ s) hs) refl

trim-digits : (s : Str) → AllDigits s → trim s ≡ s
unfolding trim trim_start
trim-digits [] h = refl
trim-digits (c ∷ s) (h, hs) = rw (digit-blank c h) (trim_end-digits (c ∷ s) (h, hs))

-- Digits, at least one, that spell a number that a `usize` holds.
pub bracketed-digits :
    (is_alphanumeric : ℕ → Bool) (s : Str) (n : ℕ)
    → AllDigits s
    → s ≢ []
    → value_of 0 s ≡ n
    → n ≤ u64_max
    → bracketed is_alphanumeric (trim s) ≡ some (at n)
bracketed-digits is_alphanumeric [] n h full e le = absurd (full refl)
bracketed-digits is_alphanumeric (c ∷ s) n h full e le =
    ap (bracketed is_alphanumeric) (trim-digits (c ∷ s) h)
    ∙ ap (λ o. map_opt at o)
        (parse_uint-value_of u64_max (c ∷ s) h full (subst (λ x. x ≤ u64_max) (sym e) le))
    ∙ ap (λ x. some (at x)) e
