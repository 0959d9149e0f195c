-- ===== src/Oauth/Utf8/Steps.antt =====
-- Reading the bytes of one character after another.
use mcpdial.Base.{
  suc, Str, true, false, [], ◌∷◌, ◌++◌, ℕ, ◌+◌, ◌%◌, ◌<◌, ◌≤◌, leb, ltb, ◌≡◌, refl, ap, ◌∙◌, arith,
}
use mcpdial.Oauth.Utf8.{
  Pending, clear, pending, go_on_with, is_lead, low_after, high_after, more_after, start_char,
  next_byte, lossy_from,
}

abbrev pub continuation : ℕ → ℕ
continuation n = 0x80 + n % 64

pub lossy-low : (b : ℕ) (s : Str) → b < 0x80 → lossy_from clear (b ∷ s) ≡ b ∷ lossy_from clear s
unfolding lossy_from
lossy-low b s h = ground arith

start_char-lead :
    (b : ℕ)
    → 0xc2 ≤ b
    → b ≤ 0xf4
    → start_char b ≡ ([], pending (b ∷ []) (low_after b) (high_after b) (more_after b))
start_char-lead b low high = rw (is_high, is_first) refl
  where
    is_high : ltb b 0x80 ≡ false
    is_high = ground arith

    is_first : is_lead b ≡ true
    is_first = ground arith

lossy-lead :
    (b : ℕ) (s : Str)
    → 0xc2 ≤ b
    → b ≤ 0xf4
    → lossy_from clear (b ∷ s)
      ≡ lossy_from (pending (b ∷ []) (low_after b) (high_after b) (more_after b)) s
unfolding lossy_from
lossy-lead b s low high =
    ap (λ (r : Str × Pending). r.0 ++ lossy_from (r.1) s) (start_char-lead b low high)

-- A byte within the bounds.
next_byte-within :
    (read : Str) (low high more b : ℕ)
    → low ≤ b
    → b ≤ high
    → next_byte (pending read low high more) b ≡ go_on_with (read ++ b ∷ []) more
next_byte-within read low high more b l h = rw (from, upto) refl
  where
    from : leb low b ≡ true
    from = ground arith

    upto : leb b high ≡ true
    upto = ground arith

lossy-last :
    (read : Str) (low high b : ℕ) (s : Str)
    → low ≤ b
    → b ≤ high
    → lossy_from (pending read low high 0) (b ∷ s) ≡ (read ++ b ∷ []) ++ lossy_from clear s
unfolding lossy_from
lossy-last read low high b s l h =
    ap (λ (r : Str × Pending). r.0 ++ lossy_from (r.1) s) (next_byte-within read low high 0 b l h)

lossy-more :
    (read : Str) (low high more b : ℕ) (s : Str)
    → low ≤ b
    → b ≤ high
    → lossy_from (pending read low high (suc more)) (b ∷ s)
      ≡ lossy_from (pending (read ++ b ∷ []) 0x80 0xbf more) s
unfolding lossy_from
lossy-more read low high more b s l h =
    ap (λ (r : Str × Pending). r.0 ++ lossy_from (r.1) s)
      (next_byte-within read low high (suc more) b l h)

low_after-le :
    (b d : ℕ) → (b ≡ 0xe0 → 0xa0 ≤ d) → (b ≡ 0xf0 → 0x90 ≤ d) → 0x80 ≤ d → low_after b ≤ d
low_after-le b d three four h = ground arith

le-high_after :
    (b d : ℕ) → (b ≡ 0xed → d ≤ 0x9f) → (b ≡ 0xf4 → d ≤ 0x8f) → d ≤ 0xbf → d ≤ high_after b
le-high_after b d three four h = ground arith

-- The bytes behind the second one.
abbrev pub IsFollowing : ℕ → Type 0
IsFollowing b = (0x80 ≤ b) × (b ≤ 0xbf)

pub continuation-IsFollowing : (n : ℕ) → IsFollowing (continuation n)
continuation-IsFollowing n = (omega arith, omega arith)

more_after_two : (b : ℕ) → b < 0xe0 → more_after b ≡ 0
more_after_two b h = ground arith

more_after_three : (b : ℕ) → 0xe0 ≤ b → b < 0xf0 → more_after b ≡ 1
more_after_three b l h = ground arith

more_after_four : (b : ℕ) → 0xf0 ≤ b → more_after b ≡ 2
more_after_four b l = ground arith

-- The byte behind a first byte.
abbrev pub IsSecond : ℕ → ℕ → Type 0
IsSecond b d = (low_after b ≤ d) × (d ≤ high_after b)

pub continuation-IsSecond :
    (b n : ℕ)
    → (b ≡ 0xe0 → 0x20 ≤ n % 64)
    → (b ≡ 0xed → n % 64 ≤ 0x1f)
    → (b ≡ 0xf0 → 0x10 ≤ n % 64)
    → (b ≡ 0xf4 → n % 64 ≤ 0xf)
    → IsSecond b (continuation n)
continuation-IsSecond b n e0 ed f0 f4 = (
  low_after-le b (continuation n) (λ e. omega (arith, e0 e)) (λ e. omega (arith, f0 e))
      (omega arith),
  le-high_after b (continuation n) (λ e. omega (arith, ed e)) (λ e. omega (arith, f4 e))
      (omega arith),
)

pub lossy-two :
    (b d : ℕ) (s : Str)
    → 0xc2 ≤ b
    → b < 0xe0
    → IsSecond b d
    → lossy_from clear (b ∷ d ∷ s) ≡ b ∷ d ∷ lossy_from clear s
lossy-two b d s low high (dl, dh) =
    lossy-lead b (d ∷ s) low (omega arith)
    ∙ rw (more_after_two b high) (lossy-last (b ∷ []) (low_after b) (high_after b) d s dl dh)

pub lossy-three :
    (b d e : ℕ) (s : Str)
    → 0xe0 ≤ b
    → b < 0xf0
    → IsSecond b d
    → IsFollowing e
    → lossy_from clear (b ∷ d ∷ e ∷ s) ≡ b ∷ d ∷ e ∷ lossy_from clear s
lossy-three b d e s low high (dl, dh) (el, eh) =
    lossy-lead b (d ∷ e ∷ s) (omega arith) (omega arith)
    ∙ rw (more_after_three b low high)
        (lossy-more (b ∷ []) (low_after b) (high_after b) 0 d (e ∷ s) dl dh)
    ∙ lossy-last (b ∷ d ∷ []) 0x80 0xbf e s el eh

pub lossy-four :
    (b d e f : ℕ) (s : Str)
    → 0xf0 ≤ b
    → b ≤ 0xf4
    → IsSecond b d
    → IsFollowing e
    → IsFollowing f
    → lossy_from clear (b ∷ d ∷ e ∷ f ∷ s) ≡ b ∷ d ∷ e ∷ f ∷ lossy_from clear s
lossy-four b d e f s low high (dl, dh) (el, eh) (fl, fh) =
    lossy-lead b (d ∷ e ∷ f ∷ s) (omega arith) high
    ∙ rw (more_after_four b low)
        (lossy-more (b ∷ []) (low_after b) (high_after b) 1 d (e ∷ f ∷ s) dl dh)
    ∙ lossy-more (b ∷ d ∷ []) 0x80 0xbf 0 e (f ∷ s) el eh
    ∙ lossy-last (b ∷ d ∷ e ∷ []) 0x80 0xbf f s fl fh
