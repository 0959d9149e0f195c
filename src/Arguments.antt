-- ===== src/Arguments.antt =====
-- src/args.rs: the `key=value` and `key:=json` words of `call` and `prompt`, read against a tool's
-- schema and written back. The reader and the writer of JSON are parameters.
pub mod Ascending
pub mod Said
pub mod Echo
use mcpdial.Base.{
  ℕ, Bool, true, false, not, ◌&&◌, ◌||◌, Option, none, some, List, [], ◌∷◌, ◌++◌, Str, codes,
  str_eq, starts_with, split_once, if◌then◌else◌, length, all, map, unwrap_or, ◌==◌, is_empty,
}
use mcpdial.Json.{
  Number, num, str, bool, Value, null, obj, Fields, end, field, lookup, insert, get, index, as_str,
  as_object, value_eq,
}
use mcpdial.Protocol.Errors.{
  Error, usage, both_forms, not_a_pair, nameless_pair, not_json, takes_number, takes_boolean,
  needs_json_form, unknown_argument, Result, ok, err, ok_or, ◌>>=◌,
}
use mcpdial.Transport.Words.{shell_word}

-- `Form`: the text of one JSON object, or words that are pairs.
pub data Form : Type 0 where
  json : Str → Form
  pairs : List Str → Form

-- `Raw` and `Pair`.
pub data Raw : Type 0 where
  text : Str → Raw
  as_json : Value → Raw

pub record Pair : Type 0 where
  pub key : Str
  pub value : Raw

unfoldable pub is_json_form : Str → Bool
is_json_form word =
    starts_with (codes "{") word || starts_with (codes "@") word || str_eq word (codes "-")

-- `left.strip_suffix(':')`.
unfoldable pub strip_colon : Str → Option Str
strip_colon [] = none
strip_colon (c ∷ []) = if c == b':' then some [] else none
strip_colon (c ∷ d ∷ s) = elim (strip_colon (d ∷ s)) [ none ↦ none | some t ↦ some (c ∷ t) ]

-- `looks_like_pair`.
abbrev pub has_name : Option (Str × Str) → Bool
has_name none = false
has_name (some (left, value)) = not (is_empty (unwrap_or left (strip_colon left)))

unfoldable pub looks_like_pair : Str → Bool
looks_like_pair word = not (is_json_form word) && has_name (split_once b'=' word)

module _ (read_json : Str → Option Value) where
  -- `split`, once the word is cut at its `=` and the key is known.
  abbrev pub json_pair : Str → Str → Option Value → Result Pair
  json_pair key value none = err (usage (not_json key value))
  json_pair key value (some v) = ok (record { key = key; value = as_json v })

  abbrev pub named_pair : Str → Str → Option Str → Str → Result Pair
  named_pair word left none value =
      if is_empty left
      then err (usage (nameless_pair word))
      else ok (record { key = left; value = text value })
  named_pair word left (some key) value =
      if is_empty key
      then err (usage (nameless_pair word))
      else json_pair key value (read_json value)

  abbrev pub cut_pair : Str → Option (Str × Str) → Result Pair
  cut_pair word none = err (usage (not_a_pair word))
  cut_pair word (some (left, value)) = named_pair word left (strip_colon left) value

  unfoldable pub split : Str → Result Pair
  split word = cut_pair word (split_once b'=' word)

  -- `form`.
  abbrev pub check_pairs : List Str → Result {0} Unit
  check_pairs [] = ok tt
  check_pairs (word ∷ words) =
      let rest = check_pairs words in
      let checked : Result {0} Unit = split word >>= λ p. rest in
      if is_json_form word then err (usage both_forms) else checked

  unfoldable pub form : List Str → Result Form
  form [] = ok (json (codes "{}"))
  form (first ∷ more) =
      let words : Result Form = check_pairs (first ∷ more) >>= λ u. ok (pairs (first ∷ more)) in
      let alone = ok (json first) in
      if is_json_form first
      then (if is_empty more then alone else err (usage both_forms))
      else if is_empty more && not (looks_like_pair first)
      then alone
      else words

  -- `reject_unknown_key`.
  abbrev pub keys : Fields → List Str
  keys end = []
  keys (field k v fs) = k ∷ keys fs

  abbrev pub keys_of : Option Fields → List Str
  keys_of none = []
  keys_of (some fs) = keys fs

  unfoldable pub reject_unknown_key : Value → Str → Result {0} Unit
  reject_unknown_key schema key =
      if value_eq (index schema (codes "additionalProperties")) (bool false)
      then err
          (usage (unknown_argument key (keys_of (as_object (index schema (codes "properties"))))))
      else ok tt

  -- What `coerce` makes of a text where the schema declares `type`.
  abbrev pub read_number : Option Value → Str → Str → Result Value
  read_number (some (num n)) key written = ok (num n)
  read_number _ key written = err (usage (takes_number key written))

  unfoldable pub coerce : Str → Str → Value → Result Value
  coerce key written spec =
      let declared = unwrap_or (codes "") (as_str (index spec (codes "type"))) in
      if str_eq declared (codes "integer") || str_eq declared (codes "number")
      then read_number (read_json written) key written
      else if str_eq declared (codes "boolean")
      then if str_eq written (codes "true")
        then ok (bool true)
        else if str_eq written (codes "false")
        then ok (bool false)
        else err (usage (takes_boolean key written))
      else if str_eq declared (codes "array")
      then err (usage (needs_json_form key (codes "an array")))
      else if str_eq declared (codes "object")
      then err (usage (needs_json_form key (codes "an object")))
      else ok (str written)

  -- One word of `parse_pairs`: its key and the value meant.
  abbrev pub spec_of : Value → Str → Option Value
  spec_of schema key = get key (index schema (codes "properties"))

  abbrev pub admit : Value → Str → Option Value → Result {0} Unit
  admit schema key none = reject_unknown_key schema key
  admit schema key (some spec) = ok tt

  abbrev pub value_for : Value → Pair → Raw → Result Value
  value_for schema p (as_json v) = ok v
  value_for schema p (text written) = coerce p.key written (unwrap_or null (spec_of schema p.key))

  unfoldable pub read_pair : Value → Str → Result (Str × Value)
  read_pair schema word = split word >>= λ p. admit schema p.key (spec_of schema p.key) >>= λ u.
      value_for schema p p.value >>= λ v. ok (p.key, v)

  -- `parse_pairs`: the loop over the words, with the map made so far.
  unfoldable pub write_pairs : Value → List Str → Fields → Result Fields
  write_pairs schema [] out = ok out
  write_pairs schema (word ∷ words) out =
      read_pair schema word >>= λ (key, v). write_pairs schema words (insert key v out)

  unfoldable pub parse_pairs : List Str → Value → Result Value
  parse_pairs words schema = write_pairs schema words end >>= λ out. ok (obj out)

  -- `needs_schema`.
  abbrev pub is_json_pair : Result Pair → Bool
  is_json_pair (err e) = false
  is_json_pair (ok p) = elim p.value [ text t ↦ false | as_json v ↦ true ]

  unfoldable pub needs_schema : List Str → Bool
  needs_schema words = not (all (λ word. is_json_pair (split word)) words)

  module _ (print : Value → Str) where
    -- `schema::plain`.
    abbrev pub plain : Value → Str
    plain (str s) = s
    plain v = print v

    -- `as_pairs`: the word for one argument, before it is quoted.
    abbrev pub reads_back : Str → Value → Result Value → Bool
    reads_back key value (err e) = false
    reads_back key value (ok back) = value_eq (index back key) value

    unfoldable pub pair_word : Value → Str → Value → Str
    pair_word schema key value =
        let written = key ++ b'=' ∷ plain value in
        if reads_back key value (parse_pairs (written ∷ []) schema)
        then written
        else key ++ b':' ∷ b'=' ∷ print value

    abbrev pub pair_words : Value → Fields → List Str
    pair_words schema end = []
    pair_words schema (field k v fs) = pair_word schema k v ∷ pair_words schema fs

    unfoldable pub as_pairs : Value → Value → List Str
    as_pairs (obj fs) schema = map shell_word (pair_words schema fs)
    as_pairs _ schema = []
