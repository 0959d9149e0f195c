-- ===== src/Protocol/Version/Order.antt =====
-- The revisions: their texts are read back.
use mcpdial.Base.{some, ◌≡◌, ◌↔◌, refl, Str, codes, str_eq, str_eq_iff, arith}
use mcpdial.Protocol.Version.{
  KnownVersion, v2026_07_28, v2025_11_25, v2025_06_18, v2025_03_26, as_str, parse,
}

parse_sound : (s : Str) {v : KnownVersion} → parse s ≡ some v → s ≡ as_str v
unfolding parse
parse_sound s e = ground (
  arith,
  str_eq_iff (codes "2026-07-28") s,
  str_eq_iff (codes "2025-11-25") s,
  str_eq_iff (codes "2025-06-18") s,
  str_eq_iff (codes "2025-03-26") s,
)

parse-as_str : (v : KnownVersion) → parse (as_str v) ≡ some v
unfolding parse str_eq
parse-as_str v2026_07_28 = refl
parse-as_str v2025_11_25 = refl
parse-as_str v2025_06_18 = refl
parse-as_str v2025_03_26 = refl

-- A text parses to a revision exactly when it is that revision's own text.
pub parse-eq-some_iff : (s : Str) (v : KnownVersion) → (parse s ≡ some v) ↔ (s ≡ as_str v)
parse-eq-some_iff s v = (parse_sound s, λ e. rw e (parse-as_str v))
