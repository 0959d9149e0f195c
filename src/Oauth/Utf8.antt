-- ===== src/Oauth/Utf8.antt =====
-- `String::from_utf8_lossy`, as `urldecode` of src/oauth.rs applies it to the bytes it decodes. A
-- text is the list of its UTF-8 bytes.
pub mod Chars
pub mod Steps
use mcpdial.Base.{
  Str, Bool, true, false, [], ◌∷◌, ◌++◌, ℕ, zero, suc, leb, ltb, ◌==◌, ◌&&◌, if◌then◌else◌,
}

-- Bytes that begin a character, with the bounds of the byte that comes next_byte and how many come
-- behind that one.
pub data Pending : Type 0 where
  clear : Pending
  pending : (read : Str) (low high more : ℕ) → Pending

-- U+FFFD.
abbrev pub replacement : Str
replacement = 0xef ∷ 0xbf ∷ 0xbd ∷ []

-- The first byte of a character of two bytes or more.
abbrev pub is_lead : ℕ → Bool
is_lead b = leb 0xc2 b && leb b 0xf4

abbrev pub low_after : ℕ → ℕ
low_after b = if b == 0xe0 then 0xa0 else if b == 0xf0 then 0x90 else 0x80

abbrev pub high_after : ℕ → ℕ
high_after b = if b == 0xed then 0x9f else if b == 0xf4 then 0x8f else 0xbf

abbrev pub more_after : ℕ → ℕ
more_after b = if ltb b 0xe0 then 0 else if ltb b 0xf0 then 1 else 2

-- A byte with nothing before it: what is put out, and what is pending.
abbrev pub start_char : ℕ → Str × Pending
start_char b =
    if ltb b 0x80
    then (b ∷ [], clear)
    else if is_lead b
    then ([], pending (b ∷ []) (low_after b) (high_after b) (more_after b))
    else (replacement, clear)

abbrev pub go_on_with : Str → ℕ → Str × Pending
go_on_with read zero = (read, clear)
go_on_with read (suc more) = ([], pending read 0x80 0xbf more)

-- Bytes that no character begins with, the longest run of them that one could, are one U+FFFD.
abbrev pub next_byte : Pending → ℕ → Str × Pending
next_byte clear b = start_char b
next_byte (pending read low high more) b =
    if leb low b && leb b high
    then go_on_with (read ++ b ∷ []) more
    else (replacement ++ (start_char b).0, (start_char b).1)

abbrev pub left_at_end : Pending → Str
left_at_end clear = []
left_at_end (pending read low high more) = replacement

unfoldable pub lossy_from : Pending → Str → Str
lossy_from p [] = left_at_end p
lossy_from p (b ∷ s) = (next_byte p b).0 ++ lossy_from ((next_byte p b).1) s

abbrev pub from_utf8_lossy : Str → Str
from_utf8_lossy = lossy_from clear
