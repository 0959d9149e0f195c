-- ===== src/Arguments/Said.antt =====
-- What one word of an echoed call says, and what all of them say.
use mcpdial.Base.{
  ℕ, true, false, Option, none, some, [], ◌∷◌, ◌++◌, Str, ◌≡◌, ◌≢◌, inl, inr, refl, append_assoc,
  ◌==◌, is_empty, All, Bool-cases, ◌∙◌, sym, str_eq_refl, split_once-append,
}
use mcpdial.Json.{Value, obj, Fields, end, field, lookup, insert, index, value_eq}
use mcpdial.Arguments.Ascending.{Ascends, IsMap, snoc, append, insert-snoc, append-snoc, append-end}
use mcpdial.Json.Laws.{value_eq_iff}
use mcpdial.Protocol.Errors.{Result, ok, err, ◌>>=◌}
use mcpdial.Arguments.{
  strip_colon, split, text, as_json, admit, spec_of, read_pair, write_pairs, parse_pairs, pair_word,
  pair_words, plain, reads_back, value_for,
}

-- A name that a pair can carry: it holds no `=`, does not end in `:` and is not empty.
abbrev pub IsPairName : Str → Type 0
IsPairName key = All (λ c. c == b'=' ≡ false) key × (strip_colon key ≡ none) × (key ≢ [])

strip_colon-snoc : (s : Str) → strip_colon (s ++ b':' ∷ []) ≡ some s
unfolding strip_colon
strip_colon-snoc [] = refl
strip_colon-snoc (c ∷ []) = refl
strip_colon-snoc (c ∷ d ∷ s) = rw (strip_colon-snoc (d ∷ s)) refl

All-append_one : (P : ℕ → Type 0) (s : Str) (c : ℕ) → All P s → P c → All P (s ++ c ∷ [])
All-append_one P [] c h hc = (hc, tt)
All-append_one P (d ∷ s) c (h, hs) hc = (h, All-append_one P s c hs hc)

not_empty : (s : Str) → s ≢ [] → is_empty s ≡ false
not_empty [] h = absurd (h refl)
not_empty (c ∷ s) h = refl

module _ (read_json : Str → Option Value) (print : Value → Str) where
  split_text :
      (key t : Str)
      → IsPairName key
      → split read_json (key ++ b'=' ∷ t) ≡ ok (record { key = key; value = text t })
  unfolding split
  split_text key t (plain_name, no_colon, full) =
      rw (split_once-append b'=' key t plain_name, no_colon, not_empty key full) refl

  split_json :
      (key : Str) (v : Value)
      → IsPairName key
      → read_json (print v) ≡ some v
      → split read_json (key ++ b':' ∷ b'=' ∷ print v)
        ≡ ok (record { key = key; value = as_json v })
  unfolding split
  split_json key v (plain_name, no_colon, full) reads =
      rw
        (
          ← append_assoc key (b':' ∷ []) (b'=' ∷ print v),
          split_once-append b'=' (key ++ b':' ∷ []) (print v)
              (All-append_one _ key b':' plain_name refl),
          strip_colon-snoc key,
          not_empty key full,
          reads,
        )
        refl

  module _ (schema : Value) where
    entry_of : Result (Str × Value) → Result Fields
    entry_of r = r >>= λ (k, v). ok (insert k v end)

    abbrev said : Str → Result {0} Unit → Result Value → Result (Str × Value)
    said key a r = a >>= λ u. r >>= λ v. ok (key, v)

    index_entry : (key : Str) (v : Value) → index (obj (insert key v end)) key ≡ v
    unfolding insert lookup
    index_entry key v = rw (str_eq_refl key, index) refl

    text_of :
        (key : Str) (value : Value) (a : Result {0} Unit) (r : Result Value)
        → reads_back read_json print key value (entry_of (said key a r) >>= λ out. ok (obj out))
          ≡ true
        → said key a r ≡ ok (key, value)
    unfolding entry_of
    text_of key value (err e) r same = cc
    text_of key value (ok u) (err e) same = cc
    text_of key value (ok u) (ok v) same =
        let found : value_eq (index (obj (insert key v end)) key) value ≡ true = same in
        rw
          (sym (index_entry key v)
            ∙ (value_eq_iff (index (obj (insert key v end)) key) value).0 found)
          refl

    -- What a word that reads back says, and what one that is JSON says.
    read_pair_text :
        (key t : Str) (value : Value)
        → IsPairName key
        → reads_back read_json print key value
            (parse_pairs read_json ((key ++ b'=' ∷ t) ∷ []) schema)
          ≡ true
        → read_pair read_json schema (key ++ b'=' ∷ t) ≡ ok (key, value)
    unfolding parse_pairs write_pairs read_pair entry_of
    read_pair_text key t value name same = rw (split_text key t name) (
        text_of key value (admit read_json schema key (spec_of read_json schema key))
          (value_for read_json schema (record { key = key; value = text t }) (text t))
          (rw (split_text key t name) at same))

    read_pair_json :
        (key : Str) (v : Value)
        → IsPairName key
        → read_json (print v) ≡ some v
        → admit read_json schema key (spec_of read_json schema key) ≡ ok tt
        → read_pair read_json schema (key ++ b':' ∷ b'=' ∷ print v) ≡ ok (key, v)
    unfolding read_pair
    read_pair_json key v name reads let_in = rw (split_json key v name reads, let_in) refl

    read_pair-pair_word :
        (key : Str) (v : Value)
        → IsPairName key
        → read_json (print v) ≡ some v
        → admit read_json schema key (spec_of read_json schema key) ≡ ok tt
        → read_pair read_json schema (pair_word read_json print schema key v) ≡ ok (key, v)
    unfolding pair_word
    read_pair-pair_word key v name reads let_in =
        elim (Bool-cases (
          reads_back read_json print key v
            (parse_pairs read_json ((key ++ b'=' ∷ plain read_json print v) ∷ []) schema))) [
              | inl same ↦ rw same (read_pair_text key (plain read_json print v) v name same)
              | inr other ↦ rw other (read_pair_json key v name reads let_in)
            ]

    -- Every argument has a name that a pair can carry and that the schema lets in, and its value is
    -- read back from the JSON printed for it.
    abbrev pub AreAdmitted : Fields → Type 0
    AreAdmitted end = Unit
    AreAdmitted (field k v fs) =
        IsPairName k
        × (read_json (print v) ≡ some v)
        × (admit read_json schema k (spec_of read_json schema k) ≡ ok tt)
        × AreAdmitted fs

    write_pairs-pair_words :
        (fs out : Fields)
        → Ascends out fs
        → AreAdmitted fs
        → write_pairs read_json schema (pair_words read_json print schema fs) out
          ≡ ok (append out fs)
    unfolding write_pairs
    write_pairs-pair_words end out order h = rw (append-end out) refl
    write_pairs-pair_words (field k v fs) out (here, order) (name, reads, let_in, h) =
        rw
          (
            read_pair-pair_word k v name reads let_in,
            insert-snoc k v out here,
            write_pairs-pair_words fs (snoc out k v) order h,
            append-snoc out k v fs,
          )
          refl

    -- The words that `as_pairs` writes, before they are quoted, are read back as the same arguments,
    -- if each name can be carried by a pair and is let in by the schema, and each value is read
    -- back from the JSON printed for it.
    pub parse_pairs-pair_words :
        (fs : Fields)
        → IsMap fs
        → AreAdmitted fs
        → parse_pairs read_json (pair_words read_json print schema fs) schema ≡ ok (obj fs)
    unfolding parse_pairs
    parse_pairs-pair_words fs order h = rw (write_pairs-pair_words fs end order h) refl
