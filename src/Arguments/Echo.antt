-- ===== src/Arguments/Echo.antt =====
-- What an echoed call says: the words that `as_pairs` writes make the same call again.
use mcpdial.Base.{
  Bool, true, false, Option, List, [], ◌∷◌, ◌++◌, Str, ◌≡◌, ◌≢◌, refl, if◌then◌else◌, map, All,
}
use mcpdial.Json.{Value, obj, Fields, end, field}
use mcpdial.Arguments.Ascending.{IsMap}
use mcpdial.Arguments.Said.{AreAdmitted, parse_pairs-pair_words}
use mcpdial.Protocol.Errors.{ok, ◌>>=◌}
use mcpdial.Transport.Words.{shell_word, split_command}
use mcpdial.Transport.Words.RoundTrip.{join_words, split_command-join_words}
use mcpdial.Arguments.{parse_pairs, pair_word, pair_words, as_pairs}

-- The echoed arguments: the words, one blank between two.
abbrev pub join : List Str → Str
join [] = []
join (w ∷ []) = w
join (w ∷ v ∷ ws) = w ++ 32 ∷ join (v ∷ ws)

join-map : (ws : List Str) → join (map shell_word ws) ≡ join_words ws
unfolding join_words
join-map [] = refl
join-map (w ∷ []) = refl
join-map (w ∷ v ∷ ws) = rw (join-map (v ∷ ws)) refl

append-ne-nil : (s t : Str) → s ≢ [] → s ++ t ≢ []
append-ne-nil [] t h = absurd (h refl)
append-ne-nil (c ∷ s) t h = λ e. cc

if-ne-nil : (b : Bool) (s t : Str) → s ≢ [] → t ≢ [] → (if b then s else t) ≢ []
if-ne-nil true s t hs ht = hs
if-ne-nil false s t hs ht = ht

module _ (read_json : Str → Option Value) (print : Value → Str) (schema : Value) where
  pair_words-All :
      (fs : Fields)
      → AreAdmitted read_json print schema fs
      → All (λ w. w ≢ []) (pair_words read_json print schema fs)
  unfolding pair_word
  pair_words-All end h = tt
  pair_words-All (field k v fs) (name, reads, let_in, h) =
      (if-ne-nil _ _ _ (append-ne-nil k _ name.2) (append-ne-nil k _ name.2), pair_words-All fs h)

  -- The line that `as_pairs` writes for arguments, split as a shell does and read against the same
  -- schema, makes those arguments: if there is one, each name can be carried by a pair and is let in
  -- by the schema, and each value is read back from the JSON printed for it.
  pub parse_pairs-as_pairs :
      (fs : Fields)
      → fs ≢ end
      → IsMap fs
      → AreAdmitted read_json print schema fs
      → (split_command (join (as_pairs read_json print (obj fs) schema)) >>= λ ws.
          parse_pairs read_json ws schema)
        ≡ ok (obj fs)
  unfolding as_pairs
  parse_pairs-as_pairs end full order h = absurd (full refl)
  parse_pairs-as_pairs (field k v fs) full order h =
      rw
        (
          join-map (pair_words read_json print schema (field k v fs)),
          split_command-join_words (pair_words read_json print schema (field k v fs)) (λ e. cc)
              (pair_words-All (field k v fs) h),
        )
        (parse_pairs-pair_words read_json print schema (field k v fs) order h)
