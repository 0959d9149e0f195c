-- ===== src/Oauth/Utf8/Chars.antt =====
-- The UTF-8 bytes of characters are read as they are.
use mcpdial.Base.{
  Str, true, false, List, [], ◌∷◌, ◌++◌, ℕ, ◌+◌, ◌/◌, ◌<◌, ◌≤◌, ltb, if◌then◌else◌, ◌≡◌, refl, ap,
  ◌∙◌, All, arith, ◌⊎◌, inl, inr, Bool-cases, All-append,
}
use mcpdial.Oauth.Utf8.{clear, lossy_from, from_utf8_lossy}
use mcpdial.Oauth.Utf8.Steps.{
  continuation, continuation-IsFollowing, continuation-IsSecond, IsSecond, lossy-low, lossy-two,
  lossy-three, lossy-four,
}

-- A Unicode scalar value, which is what a `char` is.
abbrev pub IsChar : ℕ → Type 0
IsChar c = (c < 0xd800) ⊎ ((0xe000 ≤ c) × (c < 0x110000))

-- `char::encode_utf8`.
abbrev pub encode_utf8 : ℕ → Str
encode_utf8 c =
    if ltb c 0x80
    then c ∷ []
    else if ltb c 0x800
    then (0xc0 + c / 64) ∷ continuation c ∷ []
    else if ltb c 0x10000
    then (0xe0 + c / 4096) ∷ continuation (c / 64) ∷ continuation c ∷ []
    else (0xf0 + c / 262144) ∷ continuation (c / 4096) ∷ continuation (c / 64) ∷ continuation c ∷ []

abbrev pub utf8 : List ℕ → Str
utf8 [] = []
utf8 (c ∷ cs) = encode_utf8 c ++ utf8 cs

ltb-true : (c n : ℕ) → ltb c n ≡ true → c < n
ltb-true c n e = ground arith

ltb-false : (c n : ℕ) → ltb c n ≡ false → n ≤ c
ltb-false c n e = ground arith

IsSecond-three :
    (c : ℕ)
    → 0x800 ≤ c
    → c < 0x10000
    → IsChar c
    → IsSecond (0xe0 + c / 4096) (continuation (c / 64))
IsSecond-three c low top (inl h) =
    continuation-IsSecond (0xe0 + c / 4096) (c / 64) (λ e. omega arith) (λ e. omega arith)
      (λ e. omega arith) (λ e. omega arith)
IsSecond-three c low top (inr (l, h)) =
    continuation-IsSecond (0xe0 + c / 4096) (c / 64) (λ e. omega arith) (λ e. omega arith)
      (λ e. omega arith) (λ e. omega arith)

encode-two :
    (c : ℕ) (s : Str)
    → 0x80 ≤ c
    → c < 0x800
    → lossy_from clear ((0xc0 + c / 64) ∷ continuation c ∷ s)
      ≡ (0xc0 + c / 64) ∷ continuation c ∷ lossy_from clear s
encode-two c s low high = lossy-two (0xc0 + c / 64) (continuation c) s (omega arith) (omega arith) (
    continuation-IsSecond (0xc0 + c / 64) c (λ e. omega arith) (λ e. omega arith) (λ e. omega arith)
      (λ e. omega arith))

encode-four :
    (c : ℕ) (s : Str)
    → 0x10000 ≤ c
    → c < 0x110000
    → lossy_from clear
        ((0xf0 + c / 262144) ∷ continuation (c / 4096) ∷ continuation (c / 64) ∷ continuation c ∷ s)
      ≡ (0xf0 + c / 262144)
        ∷ continuation (c / 4096)
        ∷ continuation (c / 64)
        ∷ continuation c
        ∷ lossy_from clear s
encode-four c s low high =
    lossy-four (0xf0 + c / 262144) (continuation (c / 4096)) (continuation (c / 64))
      (continuation c) s (omega arith) (omega arith)
      (continuation-IsSecond (0xf0 + c / 262144) (c / 4096) (λ e. omega arith) (λ e. omega arith)
        (λ e. omega arith) (λ e. omega arith))
      (continuation-IsFollowing (c / 64)) (continuation-IsFollowing c)

IsChar-lt : (c : ℕ) → IsChar c → c < 0x110000
IsChar-lt c (inl h) = omega arith
IsChar-lt c (inr (l, h)) = h

lossy-encode_utf8 :
    (c : ℕ) (s : Str)
    → IsChar c
    → lossy_from clear (encode_utf8 c ++ s) ≡ encode_utf8 c ++ lossy_from clear s
lossy-encode_utf8 c s h = elim (Bool-cases (ltb c 0x80)) [
  | inl one ↦ rw one (lossy-low c s (ltb-true c 0x80 one))
  | inr one ↦ elim (Bool-cases (ltb c 0x800)) [
    | inl two ↦ rw (one, two) (encode-two c s (ltb-false c 0x80 one) (ltb-true c 0x800 two))
    | inr two ↦ elim (Bool-cases (ltb c 0x10000)) [
      | inl three ↦
          let high = ltb-true c 0x10000 three in
          rw (one, two, three)
            (lossy-three (0xe0 + c / 4096) (continuation (c / 64)) (continuation c) s (omega arith)
              (omega arith) (IsSecond-three c (ltb-false c 0x800 two) high h)
              (continuation-IsFollowing c))
      | inr three ↦
          rw (one, two, three) (encode-four c s (ltb-false c 0x10000 three) (IsChar-lt c h))
    ]
  ]
]

abbrev pub IsBytes : Str → Type 0
IsBytes = All (λ b. b < 256)

encode_utf8-IsBytes : (c : ℕ) → IsChar c → IsBytes (encode_utf8 c)
encode_utf8-IsBytes c h = elim (Bool-cases (ltb c 0x80)) [
  | inl one ↦ let low = ltb-true c 0x80 one in rw one (omega arith, tt)
  | inr one ↦ elim (Bool-cases (ltb c 0x800)) [
    | inl two ↦ let low = ltb-true c 0x800 two in rw (one, two) (omega arith, (omega arith, tt))
    | inr two ↦ elim (Bool-cases (ltb c 0x10000)) [
      | inl three ↦
          let low = ltb-true c 0x10000 three in
          rw (one, two, three) (omega arith, (omega arith, (omega arith, tt)))
      | inr three ↦
          let top = IsChar-lt c h in
          rw (one, two, three) (omega arith, (omega arith, (omega arith, (omega arith, tt))))
    ]
  ]
]

pub utf8-IsBytes : (cs : List ℕ) → All IsChar cs → IsBytes (utf8 cs)
utf8-IsBytes [] h = tt
utf8-IsBytes (c ∷ cs) (h, hs) =
    All-append (λ b. b < 256) (encode_utf8 c) (utf8 cs) (encode_utf8-IsBytes c h)
      (utf8-IsBytes cs hs)

pub from_utf8_lossy-utf8 : (cs : List ℕ) → All IsChar cs → from_utf8_lossy (utf8 cs) ≡ utf8 cs
unfolding lossy_from
from_utf8_lossy-utf8 [] h = refl
from_utf8_lossy-utf8 (c ∷ cs) (h, hs) =
    lossy-encode_utf8 c (utf8 cs) h ∙ ap (λ s. encode_utf8 c ++ s) (from_utf8_lossy-utf8 cs hs)
