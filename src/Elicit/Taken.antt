-- ===== src/Elicit/Taken.antt =====
-- When values that are given ahead fill in a form.
use mcpdial.Base.{Bool, true, false, Option, none, some, List, [], ◌∷◌, ◌≡◌, arith, All, ◌↔◌}
use mcpdial.Json.{Value, Fields, end, lookup, insert}
use mcpdial.Elicit.Forms.{Floats, Field, Checked, good, bad, check_field}
use mcpdial.Elicit.{Reply, accept, then_fill, fill_one, fill_from, fill}

abbrev pub is_good : Checked → Bool
is_good (good v) = true
is_good (bad why) = false

module _ {F : Type 0} (fl : Floats F) where
  -- A value that its property takes, or no value where none is needed.
  abbrev pub TakesAs : Field F → Option Value → Type 0
  TakesAs f none = f.required ≡ false
  TakesAs f (some given) = is_good (check_field fl f given) ≡ true

  then_fill-accept :
      {P : Type 0} (f : Field F) (c : Checked) (content : Fields) (go_on : Fields → Reply)
      → ((next : Fields) → ((go_on next).action ≡ accept) ↔ P)
      → ((then_fill fl f c content go_on).action ≡ accept) ↔ ((is_good c ≡ true) × P)
  then_fill-accept f (bad why) content go_on h = ground arith
  then_fill-accept f (good v) content go_on h = ground (arith, h (insert f.name v content))

  fill_one-accept :
      {P : Type 0} (f : Field F) (o : Option Value) (content : Fields) (go_on : Fields → Reply)
      → ((next : Fields) → ((go_on next).action ≡ accept) ↔ P)
      → ((fill_one fl f o content go_on).action ≡ accept) ↔ (TakesAs f o × P)
  fill_one-accept f none content go_on h = ground (arith, h content)
  fill_one-accept f (some given) content go_on h =
      then_fill-accept f (check_field fl f given) content go_on h

  fill_from-accept :
      (fs : List (Field F)) (values content : Fields)
      → ((fill_from fl fs values content).action ≡ accept)
        ↔ All (λ f. TakesAs f (lookup f.name values)) fs
  unfolding fill_from
  fill_from-accept [] values content = ground arith
  fill_from-accept (f ∷ fs) values content =
      fill_one-accept f (lookup f.name values) content (λ next. fill_from fl fs values next)
        (λ next. fill_from-accept fs values next)

  -- Values that are given ahead are accepted exactly where each property has one that passes its checks, or
  -- has none and is not required.
  pub fill-accept_iff :
      (fs : List (Field F)) (values : Fields)
      → ((fill fl fs values).action ≡ accept) ↔ All (λ f. TakesAs f (lookup f.name values)) fs
  unfolding fill
  fill-accept_iff fs values = fill_from-accept fs values end
