-- ===== src/Tests/Forms.antt =====
-- The theorems about src/snapshot.rs and src/elicit.rs at concrete inputs.
use mcpdial.Base.{
  true, false, none, List, [], ◌∷◌, Str, codes, ◌≡◌, refl, ◌↔◌, All, find, str_eq, pos,
}
use mcpdial.Json.{Value, str, arr, cons, nil, obj, Fields, field, end, lookup}
use mcpdial.Snapshot.{compare, is_ok, name_of}
use mcpdial.Snapshot.Kept.{IsKeptBy, compare-is_ok_iff}
use mcpdial.Elicit.{Elicit, answer_form, fill, accept}
use mcpdial.Elicit.Forms.{Floats, Field, text, form_fields}
use mcpdial.Elicit.Required.{HasRequired, schema_in, answer_form-HasRequired}
use mcpdial.Elicit.Taken.{TakesAs, fill-accept_iff}

abbrev printed : Value → Str
printed v = codes "?"

abbrev typed_as : Str → Value
typed_as ty = obj (field (codes "type") (str ty) end)

-- A tool of one parameter.
abbrev tool_taking : Fields → List Value
tool_taking properties =
    obj (
      field (codes "inputSchema") (obj (field (codes "properties") (obj properties) end))
        (field (codes "name") (str (codes "echo")) end))
    ∷ []

abbrev was_offered : List Value
was_offered = tool_taking (field (codes "text") (typed_as (codes "string")) end)

abbrev is_offered : List Value
is_offered = tool_taking (field (codes "text") (typed_as (codes "number")) end)

compare-is_ok_iff_example :
    (is_ok (compare printed was_offered is_offered false) ≡ true)
    ↔ All
        (λ was. IsKeptBy printed was (find (λ t. str_eq (name_of t) (name_of was)) is_offered))
        was_offered
compare-is_ok_iff_example = compare-is_ok_iff printed was_offered is_offered

-- No number is a float here.
abbrev no_floats : Floats Value
no_floats = record {
  as_f64 = λ v. none;
  parse_f64 = λ s. none;
  from_f64 = λ v. v;
  lt = λ a b. false;
  is_whole = λ a. true;
  truncated = λ a. pos 0;
}

abbrev region : Field Value
region = record {
  name = codes "region";
  title = codes "region";
  description = none;
  kind = text none none none none;
  required = true;
  default = none;
}

abbrev at_terminal : Elicit
at_terminal = record { answers = none; ask = true; later = false; browser = false }

abbrev asking_region : Value
asking_region = obj (
    field (codes "requestedSchema")
      (obj (
        field (codes "properties") (obj (field (codes "region") (typed_as (codes "string")) end))
          (field (codes "required") (arr (cons (str (codes "region")) nil)) end)))
      end)

region_accepted :
    (answer_form no_floats printed at_terminal none asking_region ([] ∷ codes "eu" ∷ [])).0.action
    ≡ accept
unfolding answer_form form_fields lookup
region_accepted = refl

answer_form-HasRequired_example :
    HasRequired
      (schema_in asking_region)
      ((answer_form no_floats printed at_terminal none asking_region ([] ∷ codes "eu" ∷ [])).0)
answer_form-HasRequired_example =
    answer_form-HasRequired no_floats printed at_terminal none asking_region ([] ∷ codes "eu" ∷ [])
      region_accepted

abbrev given_ahead : Fields
given_ahead = field (codes "region") (str (codes "eu")) end

fill-accept_iff_example :
    ((fill no_floats (region ∷ []) given_ahead).action ≡ accept)
    ↔ All (λ f. TakesAs no_floats f (lookup f.name given_ahead)) (region ∷ [])
fill-accept_iff_example = fill-accept_iff no_floats (region ∷ []) given_ahead
