-- ===== src/Protocol/Version.antt =====
-- src/protocol.rs: the protocol revisions, their order, and the two eras.
pub mod Order
use mcpdial.Base.{
  Bool, true, false, not, Option, List, [], ◌∷◌, Str, codes, str_eq, str_lt, find, if◌then◌else◌,
}

pub data KnownVersion : Type 0 where
  v2026_07_28 v2025_11_25 v2025_06_18 v2025_03_26 : KnownVersion

abbrev pub all_versions : List KnownVersion
all_versions = v2026_07_28 ∷ v2025_11_25 ∷ v2025_06_18 ∷ v2025_03_26 ∷ []

abbrev pub latest : KnownVersion
latest = v2026_07_28

abbrev pub latest_legacy : KnownVersion
latest_legacy = v2025_11_25

abbrev pub as_str : KnownVersion → Str
as_str v2026_07_28 = codes "2026-07-28"
as_str v2025_11_25 = codes "2025-11-25"
as_str v2025_06_18 = codes "2025-06-18"
as_str v2025_03_26 = codes "2025-03-26"

-- `a >= b`, by `Ord::cmp`: the order of the two texts.
unfoldable pub version_ge : KnownVersion → KnownVersion → Bool
unfolding str_lt
version_ge a b = not (str_lt (as_str a) (as_str b))

unfoldable pub is_modern : KnownVersion → Bool
unfolding version_ge
is_modern v = version_ge v v2026_07_28

unfoldable pub parse : Str → Option KnownVersion
parse s = find (λ v. str_eq (as_str v) s) all_versions

pub data Era : Type 0 where
  discovery handshake : Era

unfoldable pub era_of : KnownVersion → Era
unfolding is_modern
era_of v = if is_modern v then discovery else handshake

abbrev pub opens_at : Era → KnownVersion
opens_at discovery = latest
opens_at handshake = latest_legacy
