-- ===== src/Json/Laws.antt =====
-- The laws of a map and of equality on JSON values.
use mcpdial.Base.{
  true, some, ◌≡◌, ◌↔◌, refl, Str, str_eq, str_eq_iff, if◌then◌else◌, int_eq_iff, arith,
  and-eq-true_iff, ◌&&◌,
}
use mcpdial.Json.{
  Number, int, float, Value, null, bool, num, str, arr, obj, Items, nil, cons, Fields, end, field,
  lookup, insert, value_eq, items_eq, fields_eq, number_eq,
}

pub lookup-insert :
    (k j : Str) (v : Value) (fs : Fields)
    → lookup j (insert k v fs) ≡ (if str_eq k j then some v else lookup j fs)
unfolding lookup insert
lookup-insert k j v end = refl
lookup-insert k j v (field i w fs) =
    ground (arith, str_eq_iff k j, str_eq_iff i k, str_eq_iff i j, lookup-insert k j v fs)

number_eq_iff : (a b : Number) → (number_eq a b ≡ true) ↔ (a ≡ b)
number_eq_iff (int a) (int b) = ground (arith, int_eq_iff a b)
number_eq_iff (float a) (float b) = ground (arith, str_eq_iff a b)
number_eq_iff (int a) (float b) = ground arith
number_eq_iff (float a) (int b) = ground arith

mutual
  unfolding value_eq

  value_eq_sound : (a b : Value) → value_eq a b ≡ true → a ≡ b
  value_eq_sound null null h = refl
  value_eq_sound (bool a) (bool b) h = ground arith
  value_eq_sound (num a) (num b) h = ground (arith, number_eq_iff a b)
  value_eq_sound (str a) (str b) h = ground (arith, str_eq_iff a b)
  value_eq_sound (arr a) (arr b) h = cc (items_eq_sound a b h)
  value_eq_sound (obj a) (obj b) h = cc (fields_eq_sound a b h)
  value_eq_sound _ _ h = cc

  items_eq_sound : (a b : Items) → items_eq a b ≡ true → a ≡ b
  items_eq_sound nil nil h = refl
  items_eq_sound (cons a xs) (cons b ys) h =
      ground (arith, value_eq_sound a b, items_eq_sound xs ys)
  items_eq_sound _ _ h = cc

  fields_eq_sound : (a b : Fields) → fields_eq a b ≡ true → a ≡ b
  fields_eq_sound end end h = refl
  fields_eq_sound (field j a fs) (field k b gs) h =
      let (front, rest) = (and-eq-true_iff (str_eq j k && value_eq a b) (fields_eq fs gs)).0 h in
      let (same, here) = (and-eq-true_iff (str_eq j k) (value_eq a b)).0 front in
      cc ((str_eq_iff j k).0 same, value_eq_sound a b here, fields_eq_sound fs gs rest)
  fields_eq_sound _ _ h = cc

mutual
  unfolding value_eq

  value_eq_refl : (a : Value) → value_eq a a ≡ true
  value_eq_refl null = refl
  value_eq_refl (bool a) = ground arith
  value_eq_refl (num a) = (number_eq_iff a a).1 refl
  value_eq_refl (str a) = (str_eq_iff a a).1 refl
  value_eq_refl (arr a) = items_eq_refl a
  value_eq_refl (obj a) = fields_eq_refl a

  items_eq_refl : (a : Items) → items_eq a a ≡ true
  items_eq_refl nil = refl
  items_eq_refl (cons a xs) = ground (arith, value_eq_refl a, items_eq_refl xs)

  fields_eq_refl : (a : Fields) → fields_eq a a ≡ true
  fields_eq_refl end = refl
  fields_eq_refl (field j a fs) = ground (arith, str_eq_iff j j, value_eq_refl a, fields_eq_refl fs)

pub value_eq_iff : (a b : Value) → (value_eq a b ≡ true) ↔ (a ≡ b)
value_eq_iff a b = (value_eq_sound a b, λ e. rw e (value_eq_refl b))
