-- ===== src/Base.antt =====
-- The names that the other modules share: the libraries', passed on, and those of the children:
-- Boolean tests, lists over the native numbers, texts as lists of code points, and integers.
mod Tests
mod Lists
mod Texts
mod Ints
mod Maps
pub use Tests.*
pub use Lists.*
unfoldable pub use Texts.{
  str_eq, str_lt, trim, trim_start, trim_end, split_once, starts_with, lines, contains,
  to_ascii_lowercase, parse_uint, scan_uint, split_at,
}
pub use Texts.{
  Str, codes, is_whitespace, is_digit, str_eq_iff, str_eq_refl, str_eq-false, strip_prefix,
  value_of, u64_max, AllDigits, parse_uint-eq-some, texts, find_char, str_eq-sym, str_eq_of_ne,
  IsOneLine, lines-append, put_front, opens_line, split_on, split_once-append, split_on-append,
  split_on-none, Lacks, trim_end-ne-nil, lower_ascii, str_lt_irrefl, split_at-append, split_at-one,
}
pub use Ints.*
unfoldable pub use Maps.{get_key, put_key, remove_key}
pub use Maps.{Map, retain, has_key, Distinct, get_key-put_key, get_key-retain, get_key-remove_key}
pub use Prim.Native.Nat.{ℕ, zero, suc, ◌+◌, ◌-◌, ◌*◌, ◌/◌, ◌%◌, ◌^◌, ◌≤◌, ◌<◌}
pub use mathlib.Core.Path.{◌≡◌, refl, sym, ap, ◌∙◌, subst}
pub use mathlib.Core.Logic.{◌≢◌, ◌↔◌, ◌⊎◌, inl, inr}
pub use mathlib.Core.Bool.{Bool, true, false, not, ◌&&◌, ◌||◌, and-eq-true_iff}
pub use mathlib.Core.Option.{Option, none, some}
pub use mathlib.Core.List.{List, [], ◌∷◌, ◌++◌, map, append-nil, append_assoc}
pub use native.Mathlib.Omega.{arith}
