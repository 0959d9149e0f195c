-- ===== src/Elicit/Forms.antt =====
-- src/elicit.rs: the properties of the form that an elicitation carries, and the values that they take.
-- Floating point is a parameter: what the code asks of an `f64`.
use mcpdial.Base.{
  Str, Bool, true, false, Option, none, some, List, [], ◌∷◌, ℕ, zero, suc, codes, str_eq,
  if◌then◌else◌, not, any, find, is_empty, unwrap_or, or_else, and_then, map_opt, length, ltb, ◌||◌,
  ◌&&◌, ◌==◌, is_digit, get_elem?, split_once, split_at, trim, to_ascii_lowercase, parse_uint,
  u64_max, ℤ, find_char,
}
use mcpdial.Json.{
  Value, bool, num, int, str, arr, Fields, field, end, index, get, as_str, as_array, as_object,
  as_u64, value_eq, from_list,
}
use mcpdial.Schema.{required_names}

pub record Floats (F : Type 0) : Type 0 where
  -- `as_f64`, `str::parse::<f64>` and `json!(n)`
  pub as_f64 : Value → Option F
  pub parse_f64 : Str → Option F
  pub from_f64 : F → Value
  -- `<`, `fract() == 0.0` and `as i64`
  pub lt : F → F → Bool
  pub is_whole : F → Bool
  pub truncated : F → ℤ

pub record Choice : Type 0 where
  pub value : Value
  pub title : Str

pub data Kind (F : Type 0) : Type 0 where
  text : (min max : Option ℕ) (pattern format : Option Str) → Kind F
  number : (whole : Bool) (min max : Option F) → Kind F
  boolean : Kind F
  choice : List Choice → Kind F
  multi : (of : List Choice) (min max : Option ℕ) → Kind F

pub record Field (F : Type 0) : Type 0 where
  pub name : Str
  pub title : Str
  pub description : Option Str
  pub kind : Kind F
  pub required : Bool
  pub default : Option Value

-- The fields of a form, or why it cannot be filled in.
pub data Form (F : Type 0) : Type 0 where
  no_properties : Form F
  unfillable : (name : Str) → Form F
  form : List (Field F) → Form F

-- Why a value is not taken.
pub data Complaint : Type 0 where
  not_a_string : Value → Complaint
  shorter : Value → Complaint
  longer : Value → Complaint
  ill_formed : (format : Str) → Str → Complaint
  not_a_number : Value → Complaint
  unreadable_number : Str → Complaint
  not_whole : Value → Complaint
  less : Value → Complaint
  more : Value → Complaint
  not_a_bool : Value → Complaint
  not_an_option : Value → Complaint
  unknown_word : Str → Complaint
  not_a_list : Value → Complaint
  too_few : Value → Complaint
  too_many : Value → Complaint
  no_yes_or_no : Complaint

pub data Checked : Type 0 where
  good : Value → Checked
  bad : Complaint → Checked

-- `is_date`.
abbrev date_chars : ℕ → Str → Bool
date_chars i [] = i == 10
date_chars i (c ∷ s) = (if i == 4 || i == 7 then c == b'-' else is_digit c) && date_chars (suc i) s

unfoldable pub is_date : Str → Bool
is_date s = date_chars 0 s

abbrev both_sides : (Str → Str → Bool) → Option (Str × Str) → Bool
both_sides p none = false
both_sides p (some (a, b)) = p a b

unfoldable pub is_well_formed : Str → Str → Bool
unfolding split_once str_eq is_date
is_well_formed format s =
    if str_eq format (codes "email")
    then both_sides (λ user host. not (is_empty user) && find_char b'.' host) (split_once b'@' s)
    else if str_eq format (codes "uri")
    then both_sides (λ scheme rest. not (is_empty scheme) && not (is_empty rest))
        (split_once b':' s)
    else if str_eq format (codes "date")
    then is_date s
    else if str_eq format (codes "date-time")
    then both_sides (λ date time. is_date date && not (is_empty time)) (split_once b'T' s)
    else true

abbrev is_below : Option ℕ → ℕ → Bool
is_below none n = false
is_below (some m) n = ltb n m

abbrev is_above : Option ℕ → ℕ → Bool
is_above none n = false
is_above (some m) n = ltb m n

abbrev has_format : Option Str → Str → Bool
has_format none s = true
has_format (some format) s = is_well_formed format s

-- The option of a value.
abbrev option_for : List Choice → Value → Option Value
option_for of v = map_opt (λ c. c.value) (find (λ c. value_eq c.value v) of)

abbrev option_or : Complaint → Option Value → Checked
option_or why none = bad why
option_or why (some v) = good v

-- `collect::<Result<Vec<_>, _>>()`, with what each item gives.
abbrev put_good : Checked → Option Complaint × List Value → Option Complaint × List Value
put_good (bad why) rest = (some why, [])
put_good (good v) (some why, vs) = (some why, [])
put_good (good v) (none, vs) = (none, v ∷ vs)

abbrev gather {ℓ} : {A : Type ℓ} → (A → Checked) → List A → Option Complaint × List Value
gather f [] = (none, [])
gather f (x ∷ xs) = put_good (f x) (gather f xs)

abbrev gathered : Option Complaint × List Value → Checked
gathered (some why, vs) = bad why
gathered (none, vs) = good (arr (from_list vs))

abbrev then_checked : Checked → (Value → Checked) → Checked
then_checked (bad why) next = bad why
then_checked (good v) next = next v

module _ {F : Type 0} (fl : Floats F) where
  abbrev check_text : Option ℕ → Option ℕ → Option Str → Value → Option Str → Checked
  check_text min max format v none = bad (not_a_string v)
  check_text min max format v (some s) =
      if is_below min (length s)
      then bad (shorter v)
      else if is_above max (length s)
      then bad (longer v)
      else if has_format format s
      then good v
      else bad (ill_formed (unwrap_or [] format) s)

  abbrev is_less : F → Option F → Bool
  is_less n none = false
  is_less n (some m) = fl.lt n m

  abbrev is_more : F → Option F → Bool
  is_more n none = false
  is_more n (some m) = fl.lt m n

  abbrev check_number : Bool → Option F → Option F → Value → Option F → Checked
  check_number whole min max v none = bad (not_a_number v)
  check_number whole min max v (some n) =
      if whole && not (fl.is_whole n)
      then bad (not_whole v)
      else if is_less n min
      then bad (less v)
      else if is_more n max
      then bad (more v)
      else good (if whole then num (int (fl.truncated n)) else v)

  abbrev check_multi : List Choice → Option ℕ → Option ℕ → Value → Option (List Value) → Checked
  check_multi of min max v none = bad (not_a_list v)
  check_multi of min max v (some vs) =
      if is_below min (length vs)
      then bad (too_few v)
      else if is_above max (length vs)
      then bad (too_many v)
      else gathered (gather (λ item. option_or (not_an_option item) (option_for of item)) vs)

  abbrev check_bool : Value → Checked
  check_bool (bool b) = good (bool b)
  check_bool v = bad (not_a_bool v)

  -- `Field::check`.
  abbrev check_kind : Kind F → Value → Checked
  check_kind (text min max pattern format) v = check_text min max format v (as_str v)
  check_kind (number whole min max) v = check_number whole min max v (fl.as_f64 v)
  check_kind boolean v = check_bool v
  check_kind (choice of) v = option_or (not_an_option v) (option_for of v)
  check_kind (multi of min max) v = check_multi of min max v (as_array v)

  unfoldable pub check_field : Field F → Value → Checked
  unfolding is_well_formed value_eq
  check_field f v = check_kind f.kind v

module _ (print : Value → Str) where
  -- `schema::plain`.
  abbrev plain_value : Value → Str
  plain_value (str s) = s
  plain_value v = print v

  -- `pick`: the number of an option, its value, or its title.
  abbrev numbered : List Choice → Option ℕ → Option Value
  numbered of none = none
  numbered of (some zero) = none
  numbered of (some (suc i)) = map_opt (λ c. c.value) (get_elem? of i)

  unfoldable pub pick : List Choice → Str → Checked
  unfolding parse_uint to_ascii_lowercase str_eq
  pick of word = option_or (unknown_word word) (
      or_else (numbered of (parse_uint u64_max word)) (
        map_opt (λ c. c.value)
          (find
            (λ c.
              str_eq (plain_value c.value) word
              || str_eq (to_ascii_lowercase c.title) (to_ascii_lowercase word))
            of)))

  -- `choices`: a bare `enum`, or a `oneOf` of constants.
  abbrev enum_choices : List Value → ℕ → List Value → List Choice
  enum_choices names i [] = []
  enum_choices names i (v ∷ vs) =
      record { value = v; title = unwrap_or (plain_value v) (and_then (get_elem? names i) as_str) }
      ∷ enum_choices names (suc i) vs

  abbrev variant_choice : Value → Value → Choice
  variant_choice variant value = record {
    value = value;
    title = unwrap_or (plain_value value) (as_str (index variant (codes "title")));
  }

  abbrev variant_choices : List Value → Option (List Choice)
  variant_choices [] = some []
  variant_choices (v ∷ vs) =
      and_then (get (codes "const") v)
        (λ value. map_opt (λ cs. variant_choice v value ∷ cs) (variant_choices vs))

  unfoldable pub form_choices : Value → Option (List Choice)
  form_choices spec =
      let names = unwrap_or [] (as_array (index spec (codes "enumNames"))) in
      elim (as_array (index spec (codes "enum"))) [
        | some values ↦ some (enum_choices names 0 values)
        | none ↦ and_then (as_array (index spec (codes "oneOf"))) variant_choices
      ]

module _ {F : Type 0} (fl : Floats F) (print : Value → Str) where
  abbrev is_yes : Str → Bool
  is_yes s = any (str_eq s) (codes "y" ∷ codes "yes" ∷ codes "true" ∷ codes "t" ∷ codes "1" ∷ [])

  abbrev is_no : Str → Bool
  is_no s = any (str_eq s) (codes "n" ∷ codes "no" ∷ codes "false" ∷ codes "f" ∷ codes "0" ∷ [])

  abbrev read_bool : Str → Checked
  read_bool s =
      if is_yes s then good (bool true) else if is_no s then good (bool false) else bad no_yes_or_no

  abbrev read_number : Str → Option F → Checked
  read_number line none = bad (unreadable_number line)
  read_number line (some n) = good (fl.from_f64 n)

  abbrev some_words : List Str → List Str
  some_words [] = []
  some_words (w ∷ ws) =
      let rest = some_words ws in if is_empty (trim w) then rest else trim w ∷ rest

  -- `Field::read`: a typed line as a value, before it is checked.
  abbrev typed_value : Kind F → Str → Checked
  typed_value (text min max pattern format) line = good (str line)
  typed_value (number whole min max) line = read_number line (fl.parse_f64 line)
  typed_value boolean line = read_bool (to_ascii_lowercase line)
  typed_value (choice of) line = pick print of line
  typed_value (multi of min max) line =
      gathered (gather (λ word. pick print of word) (some_words (split_at b',' line)))

  unfoldable pub read_field : Field F → Str → Checked
  unfolding check_field pick split_at trim to_ascii_lowercase str_eq
  read_field f line = then_checked (typed_value f.kind line) (λ v. check_field fl f v)

  -- `Kind::of`.
  abbrev count : Value → Str → Option ℕ
  count spec key = as_u64 (index spec key)

  abbrev text_kind : Value → Kind F
  text_kind spec =
      text (count spec (codes "minLength")) (count spec (codes "maxLength"))
        (as_str (index spec (codes "pattern"))) (as_str (index spec (codes "format")))

  abbrev number_kind : Bool → Value → Kind F
  number_kind whole spec =
      number whole (fl.as_f64 (index spec (codes "minimum")))
        (fl.as_f64 (index spec (codes "maximum")))

  abbrev multi_kind : Value → Option (Kind F)
  multi_kind spec =
      map_opt (λ of. multi of (count spec (codes "minItems")) (count spec (codes "maxItems")))
        (form_choices print (index spec (codes "items")))

  abbrev kind_for : Value → Str → Option (Kind F)
  kind_for spec ty =
      if str_eq ty (codes "string")
      then some (text_kind spec)
      else if str_eq ty (codes "number") || str_eq ty (codes "integer")
      then some (number_kind (str_eq ty (codes "integer")) spec)
      else if str_eq ty (codes "boolean")
      then some boolean
      else if str_eq ty (codes "array")
      then multi_kind spec
      else none

  unfoldable pub kind_of : Value → Option (Kind F)
  unfolding form_choices str_eq
  kind_of spec =
      or_else (map_opt choice (form_choices print spec))
        (and_then (as_str (index spec (codes "type"))) (kind_for spec))

  -- `Field::list`.
  abbrev pub with_field : Field F → Form F → Form F
  with_field f (form fs) = form (f ∷ fs)
  with_field f other = other

  abbrev pub field_of : Str → Value → Bool → Kind F → Field F
  field_of name spec required kind = record {
    name = name;
    title = unwrap_or name (as_str (index spec (codes "title")));
    description = as_str (index spec (codes "description"));
    kind = kind;
    required = required;
    default = get (codes "default") spec;
  }

  abbrev pub taken : Str → Value → Bool → Option (Kind F) → Form F → Form F
  taken name spec required (some kind) rest = with_field (field_of name spec required kind) rest
  taken name spec true none rest = unfillable name
  taken name spec false none rest = rest

  abbrev pub fields_from : List Str → Fields → Form F
  fields_from needed end = form []
  fields_from needed (field name spec fs) =
      taken name spec (any (str_eq name) needed) (kind_of spec) (fields_from needed fs)

  abbrev pub listed_form : List Str → Option Fields → Form F
  listed_form needed none = no_properties
  listed_form needed (some props) = fields_from needed props

  unfoldable pub form_fields : Value → Form F
  unfolding kind_of
  form_fields schema =
      listed_form (required_names schema) (as_object (index schema (codes "properties")))
