-- ===== src/Json.antt =====
-- serde_json's `Value`, as the code uses it: the constructors that the source matches on, `get`,
-- indexing, `insert`, `entry(..).or_insert` and equality. A `Map` is a `BTreeMap` (the crate is
-- built without `preserve_order`), so its entries stand in the order of their keys. An integer is
-- exact; any other number is the text that serde_json prints for it, which nothing here reads.
pub mod Laws
use mcpdial.Base.{
  ℕ, zero, suc, Bool, true, false, ◌&&◌, Option, none, some, List, [], ◌∷◌, Str, str_eq, str_lt,
  if◌then◌else◌, ℤ, pos, negsuc, int_eq, leb, u64_max, ◌^◌, and_then, ◌-◌,
}

pub data Number : Type 0 where
  int : ℤ → Number
  float : Str → Number

mutual
  pub data Value : Type 0 where
    null : Value
    bool : Bool → Value
    num : Number → Value
    str : Str → Value
    arr : Items → Value
    obj : Fields → Value

  pub data Items : Type 0 where
    nil : Items
    cons : Value → Items → Items

  pub data Fields : Type 0 where
    end : Fields
    field : Str → Value → Fields → Fields

abbrev pub items : Items → List Value
items nil = []
items (cons v vs) = v ∷ items vs

abbrev pub from_list : List Value → Items
from_list [] = nil
from_list (v ∷ vs) = cons v (from_list vs)

abbrev pub fields : Fields → List (Str × Value)
fields end = []
fields (field k v fs) = (k, v) ∷ fields fs

-- `map.get(k)`.
unfoldable pub lookup : Str → Fields → Option Value
lookup k end = none
lookup k (field j v fs) = if str_eq j k then some v else lookup k fs

-- `map.insert(k, v)`.
unfoldable pub insert : Str → Value → Fields → Fields
unfolding str_lt
insert k v end = field k v end
insert k v (field j w fs) =
    let later = field j w (insert k v fs) in
    if str_eq j k then field k v fs else if str_lt k j then field k v (field j w fs) else later

-- `value.get(k)`: nothing unless the value is an object that has the key.
abbrev pub get : Str → Value → Option Value
get k (obj fs) = lookup k fs
get k _ = none

-- `result[key] = value`: null becomes an object, and what is neither panics.
abbrev pub set_index : Str → Value → Value → Option Value
set_index key value null = some (obj (field key value end))
set_index key value (obj fs) = some (obj (insert key value fs))
set_index key value _ = none

-- `&value[k]`: null where `get` finds nothing.
abbrev pub index : Value → Str → Value
index v k = elim (get k v) [ none ↦ null | some w ↦ w ]

abbrev pub as_str : Value → Option Str
as_str (str s) = some s
as_str _ = none

abbrev pub as_array : Value → Option (List Value)
as_array (arr vs) = some (items vs)
as_array _ = none

abbrev pub as_object : Value → Option Fields
as_object (obj fs) = some fs
as_object _ = none

abbrev pub is_object : Value → Bool
is_object (obj fs) = true
is_object _ = false

abbrev pub is_null : Value → Bool
is_null null = true
is_null _ = false

-- `as_i64`: an integer between -2^63 and 2^63 - 1.
abbrev pub as_i64 : Value → Option ℤ
as_i64 (num (int (pos n))) = if leb n (2 ^ 63 - 1) then some (pos n) else none
as_i64 (num (int (negsuc n))) = if leb n (2 ^ 63 - 1) then some (negsuc n) else none
as_i64 _ = none

-- `as_u64`.
abbrev pub as_u64 : Value → Option ℕ
as_u64 (num (int (pos n))) = if leb n u64_max then some n else none
as_u64 _ = none

abbrev pub bool_eq : Bool → Bool → Bool
bool_eq true true = true
bool_eq false false = true
bool_eq _ _ = false

abbrev pub number_eq : Number → Number → Bool
number_eq (int a) (int b) = int_eq a b
number_eq (float a) (float b) = str_eq a b
number_eq _ _ = false

-- `a == b`.
unfoldable mutual
  pub value_eq : Value → Value → Bool
  value_eq null null = true
  value_eq (bool a) (bool b) = bool_eq a b
  value_eq (num a) (num b) = number_eq a b
  value_eq (str a) (str b) = str_eq a b
  value_eq (arr a) (arr b) = items_eq a b
  value_eq (obj a) (obj b) = fields_eq a b
  value_eq _ _ = false

  pub items_eq : Items → Items → Bool
  items_eq nil nil = true
  items_eq (cons a as_) (cons b bs) = value_eq a b && items_eq as_ bs
  items_eq _ _ = false

  pub fields_eq : Fields → Fields → Bool
  fields_eq end end = true
  fields_eq (field j a fs) (field k b gs) = str_eq j k && value_eq a b && fields_eq fs gs
  fields_eq _ _ = false
