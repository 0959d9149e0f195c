-- ===== src/Schema.antt =====
-- src/schema.rs: what a tool's JSON Schema says of one value. Printing a value is serde_json's.
use mcpdial.Base.{
  Str, Bool, true, false, Option, none, some, List, [], ◌∷◌, ◌++◌, ℕ, zero, suc, codes, str_eq, ltb,
  leb, if◌then◌else◌, not, is_empty, length, any, is_some, unwrap_or, or_else, and_then, map_opt,
  find_char, trim, lines, ◌||◌, ◌&&◌, map,
}
use mcpdial.Json.{
  Value, str, arr, Fields, end, items, fields, index, get, as_str, as_array, as_object, is_object,
  is_null,
}

-- `LISTED`, `DEPTH` and `UNIONS`.
abbrev most_listed : ℕ
most_listed = 4

abbrev schema_depth : ℕ
schema_depth = 1

abbrev schema_unions : ℕ
schema_unions = 1

-- `iter().take(n)`.
abbrev pub take {ℓ} : {A : Type ℓ} → ℕ → List A → List A
take zero xs = []
take (suc n) [] = []
take (suc n) (x ∷ xs) = x ∷ take n xs

-- `join(separator)`.
abbrev pub join : Str → List Str → Str
join separator [] = []
join separator (s ∷ []) = s
join separator (s ∷ t ∷ ts) = s ++ (separator ++ join separator (t ∷ ts))

-- `filter_map(Value::as_str)`.
abbrev pub strings : List Value → List Str
strings [] = []
strings (str s ∷ vs) = s ∷ strings vs
strings (v ∷ vs) = strings vs

abbrev not_empty_list {ℓ} : {A : Type ℓ} → List A → Option (List A)
not_empty_list [] = none
not_empty_list (x ∷ xs) = some (x ∷ xs)

-- The names that `required` lists.
abbrev pub required_names : Value → List Str
required_names schema = unwrap_or [] (map_opt strings (as_array (index schema (codes "required"))))

-- `["anyOf", "oneOf"].find_map(as_array).filter(..)`.
abbrev pub alternatives : Value → Option (List Value)
alternatives spec =
    and_then
      (or_else (as_array (index spec (codes "anyOf"))) (as_array (index spec (codes "oneOf"))))
      not_empty_list

-- The loop of `example_of`: the first alternative stands for all of them, where no type is declared.
abbrev first_of : Value → Option (List Value) → (Value → Value) → Value
first_of spec (some (branch ∷ _)) go_on =
    if is_null (index spec (codes "type")) then go_on branch else spec
first_of spec _ go_on = spec

abbrev example_from : ℕ → Value → Value
example_from zero spec = spec
example_from (suc n) spec = first_of spec (alternatives spec) (λ branch. example_from n branch)

abbrev pub example_of : Value → Value
example_of spec = example_from schema_unions spec

-- `properties`.
abbrev some_fields : Fields → Option Fields
some_fields end = none
some_fields fs = some fs

abbrev pub properties : Value → Option Fields
properties spec = and_then (as_object (index (example_of spec) (codes "properties"))) some_fields

-- `allowed_values`.
abbrev only_value : Option Value → List Value
only_value none = []
only_value (some v) = v ∷ []

unfoldable pub allowed_values : Value → List Value
allowed_values spec =
    let example = example_of spec in
    unwrap_or (only_value (get (codes "const") example))
      (and_then (as_array (index example (codes "enum"))) not_empty_list)

pub record Parameter : Type 0 where
  pub name : Str
  pub spec : Value
  pub required : Bool

abbrev parameter_of : List Str → Str × Value → Parameter
parameter_of needed (name, spec) = record {
  name = name;
  spec = spec;
  required = any (str_eq name) needed;
}

-- `sort_by_key(|p| !p.required)`, which keeps the order of the rest.
abbrev insert_parameter : Parameter → List Parameter → List Parameter
insert_parameter p [] = p ∷ []
insert_parameter p (q ∷ qs) =
    let later = q ∷ insert_parameter p qs in
    if not p.required && q.required then later else p ∷ q ∷ qs

abbrev sort_parameters : List Parameter → List Parameter
sort_parameters [] = []
sort_parameters (p ∷ ps) = insert_parameter p (sort_parameters ps)

abbrev parameters_of : List Str → Option Fields → List Parameter
parameters_of needed none = []
parameters_of needed (some props) = sort_parameters (map (parameter_of needed) (fields props))

unfoldable pub parameters : Value → List Parameter
parameters schema = parameters_of (required_names schema) (properties schema)

pub data Asked : Type 0 where
  choice : List Value → Asked
  boolean : Asked
  number : Asked
  json : Asked
  text : Asked

abbrev asked_type : Option Str → Asked
asked_type none = text
asked_type (some ty) =
    if str_eq ty (codes "boolean")
    then boolean
    else if str_eq ty (codes "number") || str_eq ty (codes "integer")
    then number
    else if str_eq ty (codes "array") || str_eq ty (codes "object")
    then json
    else text

-- `example_type`.
abbrev pub example_type : Value → Option Str
example_type spec = as_str (index (example_of spec) (codes "type"))

unfoldable pub asked : Value → Asked
unfolding allowed_values
asked spec =
    let values = allowed_values spec in
    if not (is_empty values) then choice values else asked_type (example_type spec)

-- `summary`.
abbrev first_line : List Str → Option Str
first_line [] = none
first_line (l ∷ ls) = if is_empty l then none else some l

unfoldable pub summary : Value → Option Str
unfolding trim lines
summary spec =
    and_then (as_str (index spec (codes "description"))) (λ s. first_line (lines (trim s)))

-- `choices`.
unfoldable pub choices : Value → Option (List Value)
unfolding allowed_values
choices spec = map_opt (take most_listed) (not_empty_list (allowed_values spec))

-- `joined`: what is past `LISTED` is left out.
abbrev joined : List Str → Str
joined parts =
    join (codes "|")
      (if leb (length parts) most_listed then parts else take most_listed parts ++ codes "..." ∷ [])

-- `grouped`.
abbrev grouped : Str → Str
grouped item =
    if find_char b'|' item || find_char b' ' item then b'(' ∷ (item ++ b')' ∷ []) else item

abbrev declared_types : Value → List Str
declared_types (str one) = one ∷ []
declared_types (arr many) = strings (items many)
declared_types _ = []

module _ (print : Value → Str) where
  abbrev untyped : Value → Option Value → Str
  untyped spec (some only) = print only
  untyped spec none = codes "any"

  -- What no type is declared of.
  abbrev branches_of : (Value → Str) → Value → Option (List Value) → Str
  branches_of branch spec (some branches) = joined (map branch branches)
  branches_of branch spec none =
      if is_some (get (codes "enum") spec)
      then codes "enum"
      else untyped spec (get (codes "const") spec)

  -- `fields`, with what a property of the object is named by.
  abbrev listed_field : (Value → Str) → List Str → Str × Value → Str
  listed_field inner needed (name, spec) =
      name ++ ((if any (str_eq name) needed then [] else codes "?") ++ (codes ": " ++ inner spec))

  abbrev listed_fields : (Value → Str) → List Str → Fields → Str
  listed_fields inner needed props = join (codes ", ") (
      map (listed_field inner needed) (take most_listed (fields props))
      ++ (if ltb most_listed (length (fields props)) then codes "..." ∷ [] else []))

  abbrev object_named : (Value → Str) → Value → Option Fields → Str
  object_named inner spec none = codes "object"
  object_named inner spec (some props) =
      codes "object {" ++ (listed_fields inner (required_names spec) props ++ codes "}")

  -- `structured`, where there is a level left.
  abbrev structured : (Value → Str) → Value → Str → Str
  structured inner spec ty =
      if str_eq ty (codes "array") && is_object (index spec (codes "items"))
      then grouped (inner (index spec (codes "items"))) ++ codes "[]"
      else if str_eq ty (codes "object")
      then object_named inner spec
          (and_then (as_object (index spec (codes "properties"))) some_fields)
      else ty

  abbrev typed : (Str → Str) → Str → List Str → Str
  typed name_type other [] = other
  typed name_type other (ty ∷ tys) = joined (map name_type (ty ∷ tys))

  -- `named`, with the levels of structure and the layers of alternatives that it may spell out.
  unfoldable pub type_named : ℕ → ℕ → Value → Str
  type_named zero zero spec =
      typed (λ ty. ty) (branches_of (λ b. []) spec none)
        (declared_types (index spec (codes "type")))
  type_named zero (suc unions) spec =
      typed (λ ty. ty) (branches_of (λ b. type_named zero unions b) spec (alternatives spec))
        (declared_types (index spec (codes "type")))
  type_named (suc depth) zero spec =
      typed (structured (λ v. type_named depth zero v) spec) (branches_of (λ b. []) spec none)
        (declared_types (index spec (codes "type")))
  type_named (suc depth) (suc unions) spec =
      typed (structured (λ v. type_named depth (suc unions) v) spec)
        (branches_of (λ b. type_named (suc depth) unions b) spec (alternatives spec))
        (declared_types (index spec (codes "type")))

  unfoldable pub type_name : Value → Str
  unfolding type_named
  type_name spec = type_named schema_depth schema_unions spec

  -- `plain`.
  abbrev plain_text : Value → Str
  plain_text (str s) = s
  plain_text v = print v

  abbrev placeholder_for : Option Str → Bool → Str
  placeholder_for none quoted = codes "<value>"
  placeholder_for (some ty) quoted =
      if str_eq ty (codes "string")
      then (if quoted then codes "\"<string>\"" else codes "<string>")
      else if str_eq ty (codes "number") || str_eq ty (codes "integer")
      then codes "<number>"
      else if str_eq ty (codes "boolean")
      then codes "true|false"
      else if str_eq ty (codes "array") && quoted
      then codes "[...]"
      else if str_eq ty (codes "object") && quoted
      then codes "{...}"
      else codes "<value>"

  -- `json_placeholder` and `pair_placeholder`.
  unfoldable pub json_placeholder : Value → Str
  unfolding choices
  json_placeholder spec =
      let example = example_of spec in
      elim (choices example) [
        | some values ↦ join (codes "|") (map print values)
        | none ↦ placeholder_for (as_str (index example (codes "type"))) true
      ]

  unfoldable pub pair_placeholder : Value → Str
  unfolding choices
  pair_placeholder spec =
      let example = example_of spec in
      elim (choices example) [
        | some values ↦ join (codes "|") (map plain_text values)
        | none ↦ placeholder_for (as_str (index example (codes "type"))) false
      ]
