-- ===== src/Elicit/Required.antt =====
-- What an accepted form has of what the request requires.
use mcpdial.Base.{
  Str, Bool, true, false, Option, none, some, List, [], ◌∷◌, ◌≡◌, refl, ◌∙◌, All, any, is_some,
  unwrap_or, map_opt, codes, str_eq, str_eq-sym,
}
use mcpdial.Json.{
  Value, null, bool, num, str, arr, obj, Fields, field, end, fields, index, lookup, as_array,
  as_object, value_eq,
}
use mcpdial.Schema.{strings, required_names}
use mcpdial.Elicit.Forms.{
  Floats, Field, Kind, Form, no_properties, unfillable, form, with_field, field_of, taken,
  fields_from, listed_form, form_fields, kind_of,
}
use mcpdial.Elicit.{Elicit, Reply, accept, form_reply, answer_form}
use mcpdial.Elicit.Complete.{IsCovered, with_answers-IsComplete}

-- What a request asks for, as it says it itself.
abbrev pub schema_in : Value → Value
schema_in params = index params (codes "requestedSchema")

-- Its list of required names has a name.
abbrev pub is_required : Value → Str → Bool
is_required schema name =
    any (λ v. value_eq v (str name)) (unwrap_or [] (as_array (index schema (codes "required"))))

abbrev pub has_value : Option Fields → Str → Bool
has_value none name = false
has_value (some content) name = is_some (lookup name content)

-- The properties of a form are there, and a reply has a value for each that is required.
abbrev pub HasRequired : Value → Reply → Type 0
HasRequired schema r =
    (props : Fields) × (as_object (index schema (codes "properties")) ≡ some props)
    × All (λ p. is_required schema (p.0) ≡ true → has_value r.content (p.0) ≡ true) (fields props)

strings-value_eq :
    (name : Str) (vs : List Value)
    → any (str_eq name) (strings vs) ≡ any (λ v. value_eq v (str name)) vs
unfolding value_eq
strings-value_eq name [] = refl
strings-value_eq name (str s ∷ vs) = rw (str_eq-sym name s, strings-value_eq name vs) refl
strings-value_eq name (null ∷ vs) = strings-value_eq name vs
strings-value_eq name (bool b ∷ vs) = strings-value_eq name vs
strings-value_eq name (num n ∷ vs) = strings-value_eq name vs
strings-value_eq name (arr ws ∷ vs) = strings-value_eq name vs
strings-value_eq name (obj fs ∷ vs) = strings-value_eq name vs

named_by :
    (name : Str) (o : Option (List Value))
    → any (str_eq name) (unwrap_or [] (map_opt strings o))
      ≡ any (λ v. value_eq v (str name)) (unwrap_or [] o)
named_by name none = refl
named_by name (some vs) = strings-value_eq name vs

module _ {F : Type 0} (fl : Floats F) (print : Value → Str) where
  -- A form that can be filled in, with its required fields covered.
  abbrev Covers : Option Fields → Form F → Type 0
  Covers content no_properties = ⊥
  Covers content (unfillable name) = ⊥
  Covers content (form fs) = All (IsCovered content) fs

  covered :
      (content : Option Fields) (f : Field F)
      → IsCovered content f
      → f.required ≡ true
      → has_value content f.name ≡ true
  covered none f h = absurd h
  covered (some content) f h = h

  with_field-Covers :
      (content : Option Fields) (f : Field F) (rest : Form F)
      → Covers content (with_field fl print f rest)
      → IsCovered content f × Covers content rest
  with_field-Covers content f no_properties h = absurd h
  with_field-Covers content f (unfillable name) h = absurd h
  with_field-Covers content f (form fs) h = h

  taken-Covers :
      (content : Option Fields) (name : Str) (spec : Value) (b : Bool) (k : Option (Kind F))
      (rest : Form F)
      → Covers content (taken fl print name spec b k rest)
      → (b ≡ true → has_value content name ≡ true) × Covers content rest
  taken-Covers content name spec b (some kind) rest h =
      let (here, later) = with_field-Covers content (field_of fl print name spec b kind) rest h in
      (covered content (field_of fl print name spec b kind) here, later)
  taken-Covers content name spec true none rest h = absurd h
  taken-Covers content name spec false none rest h = (λ e. absurd (cc e), h)

  fields_from-Covers :
      (content : Option Fields) (schema : Value) (fs : Fields)
      → Covers content (fields_from fl print (required_names schema) fs)
      → All (λ p. is_required schema (p.0) ≡ true → has_value content (p.0) ≡ true) (fields fs)
  fields_from-Covers content schema end h = tt
  fields_from-Covers content schema (field name spec fs) h =
      let (here, later) =
        taken-Covers content name spec (any (str_eq name) (required_names schema))
          (kind_of fl print spec) (fields_from fl print (required_names schema) fs) h in
      (
        λ e. here (named_by name (as_array (index schema (codes "required"))) ∙ e),
        fields_from-Covers content schema fs later,
      )

  listed_form-HasRequired :
      (r : Reply) (schema : Value) (o : Option Fields)
      → as_object (index schema (codes "properties")) ≡ o
      → Covers r.content (listed_form fl print (required_names schema) o)
      → HasRequired schema r
  listed_form-HasRequired r schema none e h = absurd h
  listed_form-HasRequired r schema (some props) e h =
      (props, e, fields_from-Covers r.content schema props h)

  form_reply-Covers :
      (ask : Bool) (answers : Option Fields) (o : Form F) (ls : List Str)
      → (form_reply fl print ask answers o ls).0.action ≡ accept
      → Covers (form_reply fl print ask answers o ls).0.content o
  form_reply-Covers ask answers no_properties ls e = absurd (cc e)
  form_reply-Covers ask answers (unfillable name) ls e = absurd (cc e)
  form_reply-Covers ask answers (form fs) ls e =
      with_answers-IsComplete fl print ask answers fs ls e

  -- A form is only accepted where the request names properties, and with a value for each property that
  -- the request requires, whether the values were given ahead or are typed, and whatever is typed.
  pub answer_form-HasRequired :
      (e : Elicit) (answers : Option Fields) (params : Value) (ls : List Str)
      → (answer_form fl print e answers params ls).0.action ≡ accept
      → HasRequired (schema_in params) ((answer_form fl print e answers params ls).0)
  unfolding answer_form form_fields
  answer_form-HasRequired e answers params ls accepted =
      listed_form-HasRequired ((answer_form fl print e answers params ls).0) (schema_in params) _
        refl (form_reply-Covers e.ask answers (form_fields fl print (schema_in params)) ls accepted)
