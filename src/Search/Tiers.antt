-- ===== src/Search/Tiers.antt =====
-- The tiers of a score.
use native.Mathlib.Nat.{div-le_of_le-mul}
use mcpdial.Base.{
  Str, Bool, true, false, List, [], ◌∷◌, ℕ, ◌≡◌, ◌≤◌, ◌<◌, ◌+◌, ◌*◌, ◌/◌, arith, length, contains,
}
use mcpdial.Json.{Value}
use mcpdial.Search.{
  Text, score, gains, minus, int_lt, one_if, hits, is_exact, is_vendor, Dialable, easily,
  with_setup, no, dialing, dialable, short_name,
}

-- The place of an entry among the signals that come first: the catalog, then a name or a title that is
-- the query, then a vendor that the query names.
abbrev pub tier : Text → List Str → Bool → ℕ
tier t words listed = 4 * one_if listed + 2 * one_if (is_exact t words) + one_if (is_vendor t words)

one_if_le : (b : Bool) → one_if b ≤ 1
one_if_le true = omega arith
one_if_le false = omega arith

hits_le : (words : List Str) (text : Str) → hits words text ≤ length words
hits_le [] text = omega arith
hits_le (w ∷ ws) text = omega (arith, one_if_le (contains w text), hits_le ws text)

title_share_le : (h n : ℕ) → h ≤ n → 10000 * h / n ≤ 10000
title_share_le h n e = div-le_of_le-mul n (omega (arith, e))

name_share_le : (h n : ℕ) → h ≤ n → 1000 * h / n ≤ 1000
name_share_le h n e = div-le_of_le-mul n (omega (arith, e))

dialing_le : (d : Dialable) → dialing d ≤ 100
dialing_le easily = omega arith
dialing_le with_setup = omega arith
dialing_le no = omega arith

minus-lt : (a b c d : ℕ) → a + d < c + b → int_lt (minus a b) (minus c d) ≡ true
minus-lt a b c d h = ground arith

-- What stands behind the three signals never makes up for them: of two entries, the one on the higher tier
-- has the higher score.
pub score-tier :
    (words : List Str) (t u : Text) (s r : Value) (listed_t listed_u crowded_t crowded_u : Bool)
    → tier t words listed_t < tier u words listed_u
    → int_lt (score t words s listed_t crowded_t) (score u words r listed_u crowded_u) ≡ true
unfolding score
score-tier words t u s r listed_t listed_u crowded_t crowded_u h =
    minus-lt (gains t words s listed_t) (10 * one_if crowded_t) (gains u words r listed_u)
      (10 * one_if crowded_u)
      (omega (
        arith,
        h,
        one_if_le listed_t,
        one_if_le listed_u,
        one_if_le (is_exact t words),
        one_if_le (is_exact u words),
        one_if_le (is_vendor t words),
        one_if_le (is_vendor u words),
        one_if_le crowded_t,
        one_if_le crowded_u,
        title_share_le (hits words t.title) (length words) (hits_le words t.title),
        name_share_le (hits words (short_name t.name)) (length words)
            (hits_le words (short_name t.name)),
        dialing_le (dialable s),
      ))
