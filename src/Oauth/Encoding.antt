-- ===== src/Oauth/Encoding.antt =====
-- src/oauth.rs: `urlencode`, `urldecode` and `query_params`. A text is the list of its UTF-8 bytes.
-- Slicing a text inside of a character panics, which is the `none` of `urldecode`.
pub mod RoundTrip
use mcpdial.Base.{
  split_at, Str, Bool, true, false, Option, none, some, List, [], ◌∷◌, ◌++◌, ℕ, ◌+◌, ◌-◌, ◌*◌, ◌/◌,
  ◌%◌, leb, ltb, ◌==◌, ◌&&◌, ◌||◌, if◌then◌else◌, map_opt, and_then, is_digit, is_empty, split_once,
  unwrap_or,
}
use mcpdial.Oauth.Utf8.{from_utf8_lossy, lossy_from}

abbrev pub is_unreserved : ℕ → Bool
is_unreserved b =
    leb b'A' b && leb b b'Z'
    || leb b'a' b && leb b b'z'
    || is_digit b
    || b == b'-'
    || b == b'.'
    || b == b'_'
    || b == b'~'

-- A digit of `{:02X}`.
abbrev pub upper_hex : ℕ → ℕ
upper_hex d = if ltb d 10 then d + b'0' else d - 10 + b'A'

abbrev pub encoded : ℕ → Str
encoded b = if is_unreserved b then b ∷ [] else b'%' ∷ upper_hex (b / 16) ∷ upper_hex (b % 16) ∷ []

unfoldable pub urlencode : Str → Str
urlencode [] = []
urlencode (b ∷ s) = encoded b ++ urlencode s

-- `char::to_digit(16)`.
abbrev pub hex_digit : ℕ → Option ℕ
hex_digit c =
    if is_digit c
    then some (c - b'0')
    else if leb b'a' c && leb c b'f'
    then some (c - b'a' + 10)
    else if leb b'A' c && leb c b'F'
    then some (c - b'A' + 10)
    else none

-- `u8::from_str_radix` on two characters, which takes a leading `+`.
unfoldable pub radix16 : ℕ → ℕ → Option ℕ
radix16 a b =
    if a == b'+'
    then hex_digit b
    else and_then (hex_digit a) (λ high. map_opt (λ low. high * 16 + low) (hex_digit b))

-- Whether a text is cut inside of a character there.
abbrev pub is_inside : Str → Bool
is_inside [] = false
is_inside (b ∷ s) = leb 0x80 b && ltb b 0xc0

abbrev pub plain_byte : ℕ → ℕ
plain_byte c = if c == b'+' then b' ' else c

abbrev pub put : ℕ → Option Str → Option Str
put b rest = map_opt (λ s. b ∷ s) rest

-- Two characters behind a `%`, with what is decoded from behind them and from behind the `%`.
abbrev pub escaped : Option ℕ → Option Str → Option Str → Option Str
escaped (some v) behind after = put v behind
escaped none behind after = put b'%' after

-- The loop of `urldecode`.
unfoldable pub decoded_bytes : Str → Option Str
unfolding radix16
decoded_bytes [] = some []
decoded_bytes (c ∷ []) = some (plain_byte c ∷ [])
decoded_bytes (c ∷ a ∷ []) = put (plain_byte c) (decoded_bytes (a ∷ []))
decoded_bytes (c ∷ a ∷ b ∷ s) =
    let behind = decoded_bytes s in
    let after = decoded_bytes (a ∷ b ∷ s) in
    if c == b'%'
    then if is_inside s then none else escaped (radix16 a b) behind after
    else put (plain_byte c) after

abbrev pub urldecode : Str → Option Str
urldecode s = map_opt from_utf8_lossy (decoded_bytes s)

-- `p.split_once('=').unwrap_or((p, ""))`.
abbrev pub halves : Str → Str × Str
halves p = unwrap_or (p, []) (split_once b'=' p)

abbrev pub decoded_pair : Str × Str → Option (Str × Str)
decoded_pair (k, v) = and_then (urldecode k) (λ key. map_opt (λ value. (key, value)) (urldecode v))

abbrev pub decoded_all : List Str → Option (List (Str × Str))
decoded_all [] = some []
decoded_all (p ∷ ps) =
    let rest = decoded_all ps in
    if is_empty p
    then rest
    else and_then (decoded_pair (halves p)) (λ pair. map_opt (λ qs. pair ∷ qs) rest)

unfoldable pub query_params : Str → Option (List (Str × Str))
unfolding decoded_bytes lossy_from split_at split_once
query_params query = decoded_all (split_at b'&' query)
