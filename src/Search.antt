-- ===== src/Search.antt =====
-- src/search.rs: the ranking of registry entries for a query. `to_lowercase` is a parameter.
pub mod Tiers
pub mod Steps
pub mod Newest
use mcpdial.Base.{
  Str, Bool, true, false, Option, none, some, List, [], ◌∷◌, ◌++◌, ℕ, zero, suc, codes, str_eq,
  str_lt, if◌then◌else◌, not, any, all, is_empty, unwrap_or, or_else, and_then, map_opt, length,
  get_elem?, strip_prefix, split_once, split_at, contains, trim, is_whitespace, find_char, last,
  ltb, leb, ◌+◌, ◌-◌, ◌*◌, ◌/◌, ◌||◌, ◌&&◌, ◌==◌, ℤ, pos, negsuc, int_eq, Map, get_key, put_key,
  map,
}
use mcpdial.Json.{Value, str, index, as_str, as_array, value_eq}
use mcpdial.Schema.{join}

abbrev many_servers : ℕ
many_servers = 100

-- `split_whitespace`.
abbrev in_word : ℕ → List Str → List Str
in_word c [] = (c ∷ []) ∷ []
in_word c (w ∷ ws) = (c ∷ w) ∷ ws

abbrev next_word : List Str → List Str
next_word ([] ∷ ws) = [] ∷ ws
next_word ws = [] ∷ ws

abbrev words_from : Str → List Str
words_from [] = []
words_from (c ∷ s) = if is_whitespace c then next_word (words_from s) else in_word c (words_from s)

abbrev not_blank : List Str → List Str
not_blank [] = []
not_blank ([] ∷ ws) = not_blank ws
not_blank (w ∷ ws) = w ∷ not_blank ws

unfoldable pub split_whitespace : Str → List Str
split_whitespace s = not_blank (words_from s)

-- A difference of sums, in `i64`.
abbrev pub minus : ℕ → ℕ → ℤ
minus a b = if leb b a then pos (a - b) else negsuc (b - a - 1)

abbrev pub int_lt : ℤ → ℤ → Bool
int_lt (pos a) (pos b) = ltb a b
int_lt (negsuc a) (pos b) = true
int_lt (pos a) (negsuc b) = false
int_lt (negsuc a) (negsuc b) = ltb b a

abbrev pub one_if : Bool → ℕ
one_if true = 1
one_if false = 0

pub record Text : Type 0 where
  pub name : Str
  pub title : Str
  pub description : Str

abbrev text_at : Value → Str → Str
text_at v key = unwrap_or [] (as_str (index v key))

-- `Text::of`.
unfoldable pub text_of : (Str → Str) → Value → Text
text_of lower server =
    let name = lower (text_at server (codes "name")) in
    record {
      name = unwrap_or name (strip_prefix (codes "io.github.") name);
      title = lower (text_at server (codes "title"));
      description = lower (text_at server (codes "description"));
    }

unfoldable pub matches_all : Text → List Str → Bool
unfolding contains
matches_all t words =
    all (λ w. contains w t.name || contains w t.title || contains w t.description) words

abbrev pub official_vendor : Str → Option Str
official_vendor name =
    and_then (split_once b'/' name) (λ p. if find_char b'.' (p.0) then none else some (p.0))

abbrev pub namespace_of : Value → Str
namespace_of server =
    let name = text_at server (codes "name") in
    unwrap_or name (map_opt (λ p. p.0) (split_once b'/' name))

pub data Dialable : Type 0 where
  easily : Dialable
  with_setup : Dialable
  no : Dialable

abbrev is_remote : Option Str → Bool
is_remote none = false
is_remote (some ty) = str_eq ty (codes "streamable-http") || str_eq ty (codes "sse")

abbrev list_at : Value → Str → List Value
list_at server key = unwrap_or [] (as_array (index server key))

abbrev has_package : Value → Str → Bool
has_package server kind =
    any (λ p. value_eq (index p (codes "registryType")) (str kind))
      (list_at server (codes "packages"))

unfoldable pub dialable : Value → Dialable
unfolding str_eq value_eq
dialable server =
    if any (λ r. is_remote (as_str (index r (codes "type")))) (list_at server (codes "remotes"))
      || has_package server (codes "npm")
    then easily
    else if has_package server (codes "pypi") || has_package server (codes "oci")
    then with_setup
    else no

abbrev pub hits : List Str → Str → ℕ
hits [] text = 0
hits (w ∷ ws) text = one_if (contains w text) + hits ws text

abbrev pub short_name : Str → Str
short_name name = unwrap_or [] (last (split_at b'/' name))

abbrev pub dialing : Dialable → ℕ
dialing easily = 100
dialing with_setup = 50
dialing no = 0

-- The three signals that a score starts with.
abbrev pub is_exact : Text → List Str → Bool
is_exact t words = let whole = join (codes " ") words in str_eq t.name whole || str_eq t.title whole

abbrev is_word : List Str → Option Str → Bool
is_word words none = false
is_word words (some vendor) = any (λ w. str_eq vendor w) words

abbrev pub is_vendor : Text → List Str → Bool
is_vendor t words = is_word words (official_vendor t.name)

-- What a score adds up; there is always a word, so `n` is not 0.
abbrev pub gains : Text → List Str → Value → Bool → ℕ
gains t words server listed =
    let n = length words in
    10000000 * one_if listed
    + 1000000 * one_if (is_exact t words)
    + 100000 * one_if (is_vendor t words)
    + 10000 * hits words t.title / n
    + 1000 * hits words (short_name t.name) / n
    + dialing (dialable server)

unfoldable pub score : Text → List Str → Value → (listed crowded : Bool) → ℤ
unfolding dialable contains split_at split_once str_eq
score t words server listed crowded = minus (gains t words server listed) (10 * one_if crowded)

pub record Hit : Type 0 where
  pub points : ℤ
  pub lowercase_name : Str
  pub entry : Value

-- `repository_key`: `trim_end_matches` and `trim_matches` of the source.
abbrev trim_slash_end : Str → Str
trim_slash_end [] = []
trim_slash_end (c ∷ s) =
    let rest = trim_slash_end s in if is_empty rest && c == b'/' then [] else c ∷ rest

abbrev trim_slash_start : Str → Str
trim_slash_start [] = []
trim_slash_start (c ∷ s) = if c == b'/' then trim_slash_start s else c ∷ s

-- Every `.git` at the end.
abbrev trim_git_end : Str → Str
trim_git_end [] = []
trim_git_end (c ∷ s) =
    let rest = trim_git_end s in if str_eq (c ∷ rest) (codes ".git") then [] else c ∷ rest

abbrev key_for : (Str → Str) → Value → Str → Option Str
key_for lower repository url =
    if is_empty url
    then none
    else some (
        lower (trim_git_end (trim_slash_end url))
        ++ b'#' ∷ trim_slash_end (trim_slash_start (text_at repository (codes "subfolder"))))

unfoldable pub repository_key : (Str → Str) → Value → Option Str
unfolding trim str_eq
repository_key lower server =
    let repository = index server (codes "repository") in
    and_then (as_str (index repository (codes "url"))) (λ url. key_for lower repository (trim url))

abbrev pub published : Value → Str
published entry =
    let official =
      index (index entry (codes "_meta")) (codes "io.modelcontextprotocol.registry/official") in
    unwrap_or [] (
      or_else (as_str (index official (codes "publishedAt")))
        (as_str (index official (codes "updatedAt"))))

abbrev drop_at : ℕ → List Bool → List Bool
drop_at i [] = []
drop_at zero (b ∷ keep) = false ∷ keep
drop_at (suc i) (b ∷ keep) = b ∷ drop_at i keep

-- What a hit with a key does to the newest ones and to what is kept.
abbrev pub published_at : List Hit → ℕ → Str
published_at hs j = unwrap_or [] (map_opt (λ h. published h.entry) (get_elem? hs j))

abbrev newer : List Hit → ℕ → Str → Option ℕ → Map ℕ × List Bool → Map ℕ × List Bool
newer hs i key none (newest, keep) = (put_key key i newest, keep)
newer hs i key (some j) (newest, keep) =
    if str_lt (published_at hs j) (published_at hs i)
    then (put_key key i newest, drop_at j keep)
    else (newest, drop_at i keep)

abbrev after_key : List Hit → ℕ → Option Str → Map ℕ × List Bool → Map ℕ × List Bool
after_key hs i none state = state
after_key hs i (some key) state = newer hs i key (get_key key (state.0)) state

abbrev newest_loop : (Str → Str) → List Hit → ℕ → List Hit → Map ℕ × List Bool → Map ℕ × List Bool
newest_loop lower hs i [] state = state
newest_loop lower hs i (h ∷ rest) state =
    newest_loop lower hs (suc i) rest
      (after_key hs i (repository_key lower (index h.entry (codes "server"))) state)

abbrev kept_hits : List Hit → List Bool → List Hit
kept_hits (h ∷ hs) (k ∷ keep) = let rest = kept_hits hs keep in if k then h ∷ rest else rest
kept_hits _ _ = []

unfoldable pub newest_per_repository : (Str → Str) → List Hit → List Hit
unfolding repository_key get_key put_key str_lt
newest_per_repository lower hs =
    kept_hits hs ((newest_loop lower hs 0 hs ([], map (λ h. true) hs)).1)

-- `sort_by`, which keeps the order of equal hits.
abbrev is_before : Hit → Hit → Bool
is_before k h =
    int_lt h.points k.points || int_eq h.points k.points && str_lt k.lowercase_name h.lowercase_name

abbrev insert_hit : Hit → List Hit → List Hit
insert_hit h [] = h ∷ []
insert_hit h (k ∷ ks) = if is_before k h then k ∷ insert_hit h ks else h ∷ k ∷ ks

abbrev sort_hits : List Hit → List Hit
sort_hits [] = []
sort_hits (h ∷ hs) = insert_hit h (sort_hits hs)

-- How many entries share a namespace.
abbrev in_namespace : Str → List Value → ℕ
in_namespace ns [] = 0
in_namespace ns (e ∷ es) =
    one_if (str_eq (namespace_of (index e (codes "server"))) ns) + in_namespace ns es

module _ (lower : Str → Str) where
  abbrev hit_of : List Str → List Value → List Str → Value → Hit
  hit_of words entries catalog e =
      let server = index e (codes "server") in
      let name = text_at server (codes "name") in
      record {
        points =
            score (text_of lower server) words server (any (λ c. str_eq c name) catalog)
              (ltb many_servers (in_namespace (namespace_of server) entries));
        lowercase_name = lower name;
        entry = e;
      }

  abbrev hits_in : List Str → List Value → List Str → List Value → List Hit
  hits_in words entries catalog [] = []
  hits_in words entries catalog (e ∷ es) =
      let rest = hits_in words entries catalog es in
      if matches_all (text_of lower (index e (codes "server"))) words
      then hit_of words entries catalog e ∷ rest
      else rest

  unfoldable pub rank : Str → List Value → List Str → List Value
  unfolding split_whitespace matches_all text_of score newest_per_repository
  rank query entries catalog =
      let words = map lower (split_whitespace query) in
      if is_empty words
      then []
      else map (λ h. h.entry)
          (sort_hits (newest_per_repository lower (hits_in words entries catalog entries)))
