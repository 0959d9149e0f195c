-- ===== src/Arguments/Ascending.antt =====
-- Maps whose entries stand in the order of their keys, built by insertion.
use mcpdial.Base.{false, Str, str_eq, ◌≡◌, refl, str_lt, ap}
use mcpdial.Json.{Value, Fields, end, field, insert}

-- No key of the map is `k` or comes after it.
abbrev pub Below : Str → Fields → Type 0
Below k end = Unit
Below k (field j v fs) = (str_eq j k ≡ false) × (str_lt k j ≡ false) × Below k fs

abbrev pub snoc : Fields → Str → Value → Fields
snoc end k v = field k v end
snoc (field j w fs) k v = field j w (snoc fs k v)

abbrev pub append : Fields → Fields → Fields
append end gs = gs
append (field j w fs) gs = field j w (append fs gs)

-- The entries of `fs`, each behind all that stand before it, `out` included.
abbrev pub Ascends : Fields → Fields → Type 0
Ascends out end = Unit
Ascends out (field k v fs) = Below k out × Ascends (snoc out k v) fs

-- The entries of a `BTreeMap`: in the order of their keys, which differ.
abbrev pub IsMap : Fields → Type 0
IsMap = Ascends end

pub insert-snoc : (k : Str) (v : Value) (fs : Fields) → Below k fs → insert k v fs ≡ snoc fs k v
unfolding insert
insert-snoc k v end h = refl
insert-snoc k v (field j w fs) (apart, later, h) = rw (apart, later, insert-snoc k v fs h) refl

pub append-snoc :
    (out : Fields) (k : Str) (v : Value) (fs : Fields)
    → append (snoc out k v) fs ≡ append out (field k v fs)
append-snoc end k v fs = refl
append-snoc (field j w out) k v fs = ap (field j w) (append-snoc out k v fs)

pub append-end : (fs : Fields) → append fs end ≡ fs
append-end end = refl
append-end (field j w fs) = ap (field j w) (append-end fs)
