-- ===== src/Snapshot/Kept.antt =====
-- What a comparison that passes says of the tools.
use mcpdial.Base.{
  Str, true, false, Option, none, some, List, [], ◌∷◌, ◌++◌, str_eq, str_eq_iff, find, is_some,
  ◌&&◌, ◌≡◌, refl, subst, sym, append-nil, ◌↔◌, arith, All, ◌⊎◌,
}
use mcpdial.Json.{Value, Fields, field, end, lookup, fields}
use mcpdial.Schema.{type_name}
use mcpdial.Snapshot.{
  Difference, name_of, is_ok, fields_of, schema_of, is_needed, had_property, had_properties,
  new_property, new_properties, schema_differences, tool_differences, all_differences, added,
  compare,
}

is_ok-append : (xs ys : List Difference) → is_ok (xs ++ ys) ≡ (is_ok xs && is_ok ys)
unfolding is_ok
is_ok-append [] ys = ground arith
is_ok-append (x ∷ xs) ys = ground (arith, is_ok-append xs ys)

-- Both parts pass, each exactly where its own condition holds.
both_ok :
    {P Q : Type 0} (xs ys : List Difference)
    → ((is_ok xs ≡ true) ↔ P)
    → ((is_ok ys ≡ true) ↔ Q)
    → (is_ok (xs ++ ys) ≡ true) ↔ (P × Q)
both_ok xs ys p q = ground (arith, is_ok-append xs ys, p, q)

added-is_ok :
    (print : Value → Str) (snapshot live : List Value) → is_ok (added print snapshot live) ≡ true
unfolding is_ok
added-is_ok print snapshot [] = refl
added-is_ok print snapshot (t ∷ live) = ground (arith, added-is_ok print snapshot live)

module _ (print : Value → Str) where
  -- What callers may rely on, of a property that a tool had: it is there with its type, or nobody had to
  -- give it; and nobody has to give it now who had not to.
  abbrev pub IsHeldAs : Value → Value → Str → Value → Option Value → Type 0
  IsHeldAs before after name spec none = is_needed before name ≡ false
  IsHeldAs before after name spec (some now_spec) =
      (type_name print spec ≡ type_name print now_spec)
      × ((is_needed after name ≡ true) → (is_needed before name ≡ true))

  abbrev pub IsHeld : Value → Value → Str × Value → Type 0
  IsHeld before after (name, spec) = IsHeldAs before after name spec (lookup name (fields_of after))

  abbrev pub IsOptional : Value → Value → Str × Value → Type 0
  IsOptional before after (name, spec) =
      (is_some (lookup name (fields_of before)) ≡ true) ⊎ (is_needed after name ≡ false)

  -- A tool that still takes every call that it took: all that it had is held, and what is new is optional.
  abbrev pub IsKept : Value → Value → Type 0
  IsKept was now =
      All (IsHeld (schema_of was) (schema_of now)) (fields (fields_of (schema_of was)))
      × All (IsOptional (schema_of was) (schema_of now)) (fields (fields_of (schema_of now)))

  had_property-is_ok :
      (tool : Str) (before after : Value) (name : Str) (spec : Value) (o : Option Value)
      → (is_ok (had_property print tool false before after name spec o) ≡ true)
        ↔ IsHeldAs before after name spec o
  unfolding is_ok
  had_property-is_ok tool before after name spec none = ground arith
  had_property-is_ok tool before after name spec (some now_spec) =
      ground (arith, str_eq_iff (type_name print spec) (type_name print now_spec))

  had_properties-is_ok :
      (tool : Str) (before after : Value) (fs : Fields)
      → (is_ok (had_properties print tool false before after fs) ≡ true)
        ↔ All (IsHeld before after) (fields fs)
  unfolding is_ok
  had_properties-is_ok tool before after end = ground arith
  had_properties-is_ok tool before after (field name spec fs) =
      both_ok (had_property print tool false before after name spec (lookup name (fields_of after)))
        (had_properties print tool false before after fs)
        (had_property-is_ok tool before after name spec (lookup name (fields_of after)))
        (had_properties-is_ok tool before after fs)

  new_property-is_ok :
      (tool : Str) (before after : Value) (name : Str) (spec : Value)
      → (is_ok (new_property print tool false before after name) ≡ true)
        ↔ IsOptional before after (name, spec)
  unfolding is_ok
  new_property-is_ok tool before after name spec = ground arith

  new_properties-is_ok :
      (tool : Str) (before after : Value) (fs : Fields)
      → (is_ok (new_properties print tool false before after fs) ≡ true)
        ↔ All (IsOptional before after) (fields fs)
  unfolding is_ok
  new_properties-is_ok tool before after end = ground arith
  new_properties-is_ok tool before after (field name spec fs) =
      both_ok (new_property print tool false before after name)
        (new_properties print tool false before after fs)
        (new_property-is_ok tool before after name spec) (new_properties-is_ok tool before after fs)

  schema_differences-is_ok :
      (tool : Str) (was now : Value)
      → (is_ok (schema_differences print tool was now false) ≡ true) ↔ IsKept was now
  unfolding schema_differences
  schema_differences-is_ok tool was now =
      both_ok
        (had_properties print tool false (schema_of was) (schema_of now)
          (fields_of (schema_of was)))
        (new_properties print tool false (schema_of was) (schema_of now)
          (fields_of (schema_of now)))
        (had_properties-is_ok tool (schema_of was) (schema_of now) (fields_of (schema_of was)))
        (new_properties-is_ok tool (schema_of was) (schema_of now) (fields_of (schema_of now)))

  -- A tool of that name is there, and the first one keeps what the tool promised.
  abbrev pub IsKeptBy : Value → Option Value → Type 0
  IsKeptBy was none = ⊥
  IsKeptBy was (some now) = IsKept was now

  tool_differences-is_ok :
      (was : Value) (o : Option Value)
      → (is_ok (tool_differences print false was o) ≡ true) ↔ IsKeptBy was o
  unfolding is_ok
  tool_differences-is_ok was none = ground arith
  tool_differences-is_ok was (some now) =
      subst (λ ds. (is_ok ds ≡ true) ↔ IsKept was now)
        {x = schema_differences print (name_of was) was now false} (sym (append-nil _))
        (schema_differences-is_ok (name_of was) was now)

  all_differences-is_ok :
      (live snapshot : List Value)
      → (is_ok (all_differences print false live snapshot) ≡ true)
        ↔ All (λ was. IsKeptBy was (find (λ t. str_eq (name_of t) (name_of was)) live)) snapshot
  unfolding is_ok
  all_differences-is_ok live [] = ground arith
  all_differences-is_ok live (was ∷ snapshot) =
      both_ok (tool_differences print false was (find (λ t. str_eq (name_of t) (name_of was)) live))
        (all_differences print false live snapshot)
        (tool_differences-is_ok was (find (λ t. str_eq (name_of t) (name_of was)) live))
        (all_differences-is_ok live snapshot)

  -- A comparison that is not strict passes exactly where each tool of the snapshot is still there, under
  -- its name, and keeps what it promised: each property that it had is there with its type, or is gone and
  -- was not required; and no property is required that was not.
  pub compare-is_ok_iff :
      (snapshot live : List Value)
      → (is_ok (compare print snapshot live false) ≡ true)
        ↔ All (λ was. IsKeptBy was (find (λ t. str_eq (name_of t) (name_of was)) live)) snapshot
  unfolding compare
  compare-is_ok_iff snapshot live =
      let (there, back) = all_differences-is_ok live snapshot in
      let e =
        is_ok-append (all_differences print false live snapshot) (added print snapshot live) in
      ground (arith, e, added-is_ok print snapshot live, there, back)
