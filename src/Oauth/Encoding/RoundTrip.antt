-- ===== src/Oauth/Encoding/RoundTrip.antt =====
-- What is encoded is decoded again.
use mcpdial.Base.{
  split_at, split_at-append, split_at-one, Str, true, false, some, List, [], ◌∷◌, ◌++◌, ℕ, ◌/◌, ◌%◌,
  ◌<◌, ◌==◌, ◌≡◌, refl, ap, ◌∙◌, inl, inr, Bool-cases, All, arith, Lacks, split_once-append,
  All-append, ◌⊎◌, is_empty, unwrap_or, map_opt, map,
}
use mcpdial.Oauth.Encoding.{
  is_unreserved, upper_hex, encoded, urlencode, hex_digit, radix16, is_inside, put, urldecode,
  decoded_bytes, halves, decoded_pair, decoded_all, query_params,
}
use mcpdial.Oauth.Utf8.{from_utf8_lossy}
use mcpdial.Oauth.Utf8.Chars.{IsChar, IsBytes, utf8, utf8-IsBytes, from_utf8_lossy-utf8}

hex_digit-upper_hex : (d : ℕ) → d < 16 → hex_digit (upper_hex d) ≡ some d
hex_digit-upper_hex d h = ground arith

upper_hex-plus : (d : ℕ) → d < 16 → (upper_hex d == b'+') ≡ false
upper_hex-plus d h = ground arith

radix16-upper_hex : (b : ℕ) → b < 256 → radix16 (upper_hex (b / 16)) (upper_hex (b % 16)) ≡ some b
unfolding radix16
radix16-upper_hex b h =
    rw
      (
        upper_hex-plus (b / 16) (omega arith),
        hex_digit-upper_hex (b / 16) (omega arith),
        hex_digit-upper_hex (b % 16) (omega arith),
      )
      (ap some (omega arith))

decoded_bytes-plain :
    (c : ℕ) (s : Str)
    → (c == b'%') ≡ false
    → (c == b'+') ≡ false
    → decoded_bytes (c ∷ s) ≡ put c (decoded_bytes s)
unfolding decoded_bytes
decoded_bytes-plain c [] h g = rw g refl
decoded_bytes-plain c (a ∷ []) h g = rw g refl
decoded_bytes-plain c (a ∷ b ∷ s) h g = rw (h, g) refl

urlencode-is_inside : (s : Str) → is_inside (urlencode s) ≡ false
unfolding urlencode
urlencode-is_inside [] = refl
urlencode-is_inside (b ∷ s) = elim (Bool-cases (is_unreserved b)) [
  | inl e ↦ rw e (ground arith)
  | inr e ↦ rw e refl
]

-- The bytes of a text are what its encoding decodes to.
decoded_bytes-urlencode : (s : Str) → IsBytes s → decoded_bytes (urlencode s) ≡ some s
unfolding urlencode decoded_bytes
decoded_bytes-urlencode [] h = refl
decoded_bytes-urlencode (b ∷ s) (hb, hs) = elim (Bool-cases (is_unreserved b)) [
  | inl e ↦ rw e (
      decoded_bytes-plain b (urlencode s) (ground arith) (ground arith)
      ∙ ap (put b) (decoded_bytes-urlencode s hs))
  | inr e ↦
      rw (e, urlencode-is_inside s, radix16-upper_hex b hb)
        (ap (put b) (decoded_bytes-urlencode s hs))
]

-- A text comes back whole: the bytes of characters are read as those characters.
urldecode-urlencode :
    (cs : List ℕ) → All IsChar cs → urldecode (urlencode (utf8 cs)) ≡ some (utf8 cs)
urldecode-urlencode cs h =
    ap (map_opt from_utf8_lossy) (decoded_bytes-urlencode (utf8 cs) (utf8-IsBytes cs h))
    ∙ ap some (from_utf8_lossy-utf8 cs h)

-- A query written from its pairs.
abbrev pub write_pair : Str × Str → Str
write_pair (k, v) = urlencode k ++ b'=' ∷ urlencode v

abbrev pub write_query : List (Str × Str) → Str
write_query [] = []
write_query (p ∷ []) = write_pair p
write_query (p ∷ q ∷ ps) = write_pair p ++ b'&' ∷ write_query (q ∷ ps)

upper_hex-Lacks : (c d : ℕ) → (c ≡ b'&') ⊎ (c ≡ b'=') → d < 16 → (upper_hex d == c) ≡ false
upper_hex-Lacks c d (inl e) h = rw e (ground arith)
upper_hex-Lacks c d (inr e) h = rw e (ground arith)

plain-Lacks : (c b : ℕ) → (c ≡ b'&') ⊎ (c ≡ b'=') → is_unreserved b ≡ true → (b == c) ≡ false
plain-Lacks c b (inl e) h = rw e (ground arith)
plain-Lacks c b (inr e) h = rw e (ground arith)

percent-Lacks : (c : ℕ) → (c ≡ b'&') ⊎ (c ≡ b'=') → (b'%' == c) ≡ false
percent-Lacks c (inl e) = rw e refl
percent-Lacks c (inr e) = rw e refl

encoded-Lacks : (c b : ℕ) → (c ≡ b'&') ⊎ (c ≡ b'=') → b < 256 → Lacks c (encoded b)
encoded-Lacks c b e h = elim (Bool-cases (is_unreserved b)) [
  | inl u ↦ rw u (plain-Lacks c b e u, tt)
  | inr u ↦ rw u (
    percent-Lacks c e,
    (upper_hex-Lacks c (b / 16) e (omega arith), (upper_hex-Lacks c (b % 16) e (omega arith), tt)),
  )
]

urlencode-Lacks : (c : ℕ) (s : Str) → (c ≡ b'&') ⊎ (c ≡ b'=') → IsBytes s → Lacks c (urlencode s)
unfolding urlencode
urlencode-Lacks c [] e h = tt
urlencode-Lacks c (b ∷ s) e (hb, hs) =
    All-append (λ d. d == c ≡ false) (encoded b) (urlencode s) (encoded-Lacks c b e hb)
      (urlencode-Lacks c s e hs)

-- A pair of texts of characters, and the bytes of the two.
abbrev pub IsPair : List ℕ × List ℕ → Type 0
IsPair (k, v) = All IsChar k × All IsChar v

abbrev pub utf8_pair : List ℕ × List ℕ → Str × Str
utf8_pair (k, v) = (utf8 k, utf8 v)

write_pair-Lacks : (p : List ℕ × List ℕ) → IsPair p → Lacks b'&' (write_pair (utf8_pair p))
write_pair-Lacks (k, v) (hk, hv) =
    All-append (λ d. d == b'&' ≡ false) (urlencode (utf8 k)) (b'=' ∷ urlencode (utf8 v))
      (urlencode-Lacks b'&' (utf8 k) (inl refl) (utf8-IsBytes k hk))
      (refl, urlencode-Lacks b'&' (utf8 v) (inl refl) (utf8-IsBytes v hv))

halves-write_pair :
    (k v : Str) → IsBytes k → halves (write_pair (k, v)) ≡ (urlencode k, urlencode v)
halves-write_pair k v h =
    ap (unwrap_or (write_pair (k, v), []))
      (split_once-append b'=' (urlencode k) (urlencode v) (urlencode-Lacks b'=' k (inr refl) h))

decoded_pair-write_pair :
    (p : List ℕ × List ℕ)
    → IsPair p
    → decoded_pair (halves (write_pair (utf8_pair p))) ≡ some (utf8_pair p)
decoded_pair-write_pair (k, v) (hk, hv) =
    ap decoded_pair (halves-write_pair (utf8 k) (utf8 v) (utf8-IsBytes k hk))
    ∙ rw (urldecode-urlencode k hk, urldecode-urlencode v hv) refl

has_more : (s t : Str) (c : ℕ) → is_empty (s ++ c ∷ t) ≡ false
has_more [] t c = refl
has_more (d ∷ s) t c = refl

decoded_all-pair :
    (p : List ℕ × List ℕ) (ps : List Str) (qs : List (Str × Str))
    → IsPair p
    → decoded_all ps ≡ some qs
    → decoded_all (write_pair (utf8_pair p) ∷ ps) ≡ some (utf8_pair p ∷ qs)
decoded_all-pair (k, v) ps qs h e =
    rw
      (has_more (urlencode (utf8 k)) (urlencode (utf8 v)) b'=', decoded_pair-write_pair (k, v) h, e)
      refl

-- A query that is written from pairs of texts, each encoded, reads as those pairs, whatever Unicode
-- characters the texts have.
pub query_params-write_query :
    (ps : List (List ℕ × List ℕ))
    → All IsPair ps
    → query_params (write_query (map utf8_pair ps)) ≡ some (map utf8_pair ps)
unfolding query_params
query_params-write_query [] h = refl
query_params-write_query (p ∷ []) (h, _) =
    ap decoded_all (split_at-one b'&' (write_pair (utf8_pair p)) (write_pair-Lacks p h))
    ∙ decoded_all-pair p [] [] h refl
query_params-write_query (p ∷ q ∷ ps) (h, hs) =
    ap decoded_all (
      split_at-append b'&' (write_pair (utf8_pair p)) (write_query (map utf8_pair (q ∷ ps)))
        (write_pair-Lacks p h))
    ∙ decoded_all-pair p (split_at b'&' (write_query (map utf8_pair (q ∷ ps))))
        (map utf8_pair (q ∷ ps)) h (query_params-write_query (q ∷ ps) hs)
