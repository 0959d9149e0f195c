-- ===== src/Shell/History.antt =====
-- src/shell/history.rs and `edit_target` of src/shell/edit.rs: the results a session remembers,
-- bounded in number and in bytes. The length of a value's JSON is a parameter. The counters are
-- natural numbers: no session prints 2^64 results.
pub mod Bounds
pub mod Numbers
use mcpdial.Base.{
  ℕ, suc, ◌+◌, ◌-◌, ◌*◌, Bool, true, false, ◌||◌, ◌&&◌, Option, none, some, List, [], ◌∷◌, ◌++◌,
  Str, codes, str_eq, if◌then◌else◌, ltb, ◌==◌, length, last, find, trim, strip_prefix, parse_uint,
  u64_max, and_then, unwrap_or, map_opt,
}
use mcpdial.Json.{Value, Fields, end, field, obj, insert, as_object}
use mcpdial.Protocol.Errors.{
  Error, usage, nothing_yet, not_a_result_number, no_such_result, no_longer_kept, no_call_yet,
  not_a_call, Result, ok, err, ok_or, ◌>>=◌,
}

-- RESULTS, BYTES and CALLS.
abbrev pub most_results : ℕ
most_results = 50

abbrev pub most_bytes : ℕ
most_bytes = 8_388_608

abbrev pub most_calls : ℕ
most_calls = most_results

pub data Origin : Type 0 where
  call : (tool : Str) (arguments : Value) → Origin
  prompt : (name : Str) → Origin
  read : (uri : Str) → Origin
  raw : (method : Str) → Origin

abbrev pub command : Origin → Str
command (call tool arguments) = codes "call"
command (prompt name) = codes "prompt"
command (read uri) = codes "read"
command (raw method) = codes "raw"

pub record Recorded : Type 0 where
  pub number : ℕ
  pub origin : Origin
  pub result : Value
  pub text : Str
  pub weight : ℕ

-- `kept` is oldest first.
pub record History : Type 0 where
  pub kept : List Recorded
  pub weight : ℕ
  pub printed : ℕ
  pub sent : List (Str × Value)

abbrev pub fresh : History
fresh = record { kept = []; weight = 0; printed = 0; sent = [] }

abbrev pub next_number : History → ℕ
next_number h = h.printed + 1

-- `str::len`: the bytes of UTF-8.
abbrev pub utf8_width : ℕ → ℕ
utf8_width c = if ltb c 0x80 then 1 else if ltb c 0x800 then 2 else if ltb c 0x10000 then 3 else 4

unfoldable pub byte_len : Str → ℕ
byte_len [] = 0
byte_len (c ∷ s) = utf8_width c + byte_len s

-- The loop of `record`: the oldest is dropped while more than one is kept and a bound is passed.
unfoldable pub evict : List Recorded → ℕ → List Recorded × ℕ
evict [] w = ([], w)
evict (r ∷ []) w = (r ∷ [], w)
evict (r ∷ s ∷ rs) w =
    let rest = evict (s ∷ rs) (w - r.weight) in
    if ltb most_results (length (r ∷ s ∷ rs)) || ltb most_bytes w then rest else (r ∷ s ∷ rs, w)

module _ (json_bytes : Value → ℕ) where
  unfoldable pub new_result : History → Origin → Value → Str → Recorded
  new_result h origin result text = record {
    number = h.printed + 1;
    origin = origin;
    result = result;
    text = text;
    weight = json_bytes result + byte_len text;
  }

  -- `History::record`.
  unfoldable pub file : History → Origin → Value → Str → History
  unfolding new_result evict
  file h origin result text =
      let new = new_result h origin result text in
      let (kept, weight) = evict (h.kept ++ new ∷ []) (h.weight + new.weight) in
      record h { kept = kept; weight = weight; printed = h.printed + 1 }

-- The loop of `sending`.
unfoldable pub trim_calls : List (Str × Value) → List (Str × Value)
trim_calls [] = []
trim_calls (c ∷ cs) =
    let rest = trim_calls cs in if ltb most_calls (length (c ∷ cs)) then rest else c ∷ cs

unfoldable pub sending : History → Str → Value → History
unfolding trim_calls
sending h tool arguments = record h { sent = trim_calls (h.sent ++ (tool, arguments) ∷ []) }

-- `iter().rev().find(p)`.
abbrev pub find_last {ℓ} : {A : Type ℓ} → (A → Bool) → List A → Option A
find_last p [] = none
find_last p (x ∷ xs) = elim (find_last p xs) [
  | some y ↦ some y
  | none ↦ if p x then some x else none
]

abbrev pub is_wanted : Option Str → Str × Value → Bool
is_wanted none c = true
is_wanted (some tool) c = str_eq tool c.0

unfoldable pub last_call : History → Option Str → Option (Str × Value)
last_call h tool = find_last (is_wanted tool) h.sent

unfoldable pub out_of_reach : History → ℕ → Error
out_of_reach h number =
    if h.printed == 0
    then usage nothing_yet
    else if ltb h.printed number
    then usage (no_such_result number h.printed)
    else usage (no_longer_kept number)

-- The result numbered `number`.
unfoldable pub find_number : History → ℕ → Result Recorded
find_number h number = ok_or (find (λ r. r.number == number) h.kept) (out_of_reach h number)

-- The number that a reference spells: positive, with or without the `$`.
abbrev pub positive : ℕ → Option ℕ
positive n = if ltb 0 n then some n else none

unfoldable pub number_of : Str → Option ℕ
number_of named =
    and_then (parse_uint u64_max (unwrap_or named (strip_prefix (codes "$") named))) positive

-- `History::find`.
unfoldable pub find_result : History → Str → Result Recorded
unfolding find_number number_of
find_result h reference =
    let named = trim reference in
    let numbered : Result Recorded =
      ok_or (number_of named) (usage (not_a_result_number named)) >>= find_number h in
    if str_eq named (codes "_") then ok_or (last h.kept) (usage nothing_yet) else numbered

-- `merged`: `base` with `changes` written over it.
abbrev pub write_over : Fields → Fields → Fields
write_over base end = base
write_over base (field k v changes) = write_over (insert k v base) changes

abbrev pub merge_objects : Option Fields → Option Fields → Value → Value
merge_objects (some base) (some extra) changes = obj (write_over base extra)
merge_objects _ _ changes = changes

unfoldable pub merged : Value → Value → Value
merged base changes = merge_objects (as_object base) (as_object changes) changes

-- `edit_target`.
abbrev pub call_of : Recorded → Origin → Result (Str × Value)
call_of r (call tool arguments) = ok (tool, arguments)
call_of r other = err (usage (not_a_call r.number (command other)))

unfoldable pub edit_target : History → Str → Result (Str × Value)
unfolding find_result last_call
edit_target h [] = ok_or (last_call h none) (usage no_call_yet)
edit_target h (c ∷ named) = find_result h (c ∷ named) >>= λ r. call_of r r.origin
