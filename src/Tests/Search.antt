-- ===== src/Tests/Search.antt =====
-- The theorem about src/search.rs at concrete inputs, and a ranking.
use mcpdial.Base.{
  true, false, List, [], ◌∷◌, Str, codes, ◌≡◌, refl, arith, str_eq, split_once, some, ℕ, pos,
  str_lt,
}
use mcpdial.Json.{lookup, Value, obj, field, end, str}
use mcpdial.Search.{
  Text, score, int_lt, rank, Hit, published_at, repository_key, newest_per_repository,
}
use mcpdial.Search.Steps.{kept_at}
use mcpdial.Search.Newest.{key_at, flags, newest_loop-kept}
use mcpdial.Search.Tiers.{score-tier}

abbrev named_only : Str → Text
named_only name = record { name = name; title = []; description = [] }

abbrev one_word : List Str
one_word = codes "github" ∷ []

score-tier_example :
    int_lt
      (score (named_only (codes "x/github")) one_word (obj end) false false)
      (score (named_only (codes "github/x")) one_word (obj end) false true)
    ≡ true
unfolding str_eq split_once
score-tier_example =
    score-tier one_word (named_only (codes "x/github")) (named_only (codes "github/x")) (obj end)
      (obj end) false false false true (omega arith)

abbrev entry_named : Str → Value
entry_named name = obj (field (codes "server") (obj (field (codes "name") (str name) end)) end)

-- The vendor's own server goes before one that another vendor named after it.
ranked :
    rank
      (λ s. s)
      (codes "github")
      (entry_named (codes "x/github") ∷ entry_named (codes "github/x") ∷ [])
      []
    ≡ entry_named (codes "github/x") ∷ entry_named (codes "x/github") ∷ []
unfolding rank lookup
ranked = refl

-- Two listings of one repository, the later one second.
abbrev listed_at : Str → Hit
listed_at date = record {
  points = pos 0;
  lowercase_name = [];
  entry = obj (
      field (codes "_meta")
        (obj (
          field (codes "io.modelcontextprotocol.registry/official")
            (obj (field (codes "publishedAt") (str date) end)) end))
        (field (codes "server")
          (obj (field (codes "repository") (obj (field (codes "url") (str (codes "u")) end)) end))
          end));
}

abbrev two_listings : List Hit
two_listings = listed_at (codes "2025") ∷ listed_at (codes "2026") ∷ []

newest_loop-kept_example :
    (m : ℕ) × (key_at (λ s. s) two_listings m ≡ some (codes "u#"))
    × (kept_at (flags (λ s. s) two_listings) m ≡ true)
    × (str_lt (published_at two_listings m) (published_at two_listings 0) ≡ false)
    × (kept_at (flags (λ s. s) two_listings) 0 ≡ true → 0 ≡ m)
unfolding repository_key lookup
newest_loop-kept_example = newest_loop-kept (λ s. s) two_listings 0 (codes "u#") (omega arith) refl

later_kept : newest_per_repository (λ s. s) two_listings ≡ listed_at (codes "2026") ∷ []
unfolding newest_per_repository lookup
later_kept = refl
