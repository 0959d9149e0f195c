-- ===== src/Transport/Retry/Tools.antt =====
-- Which tools the client holds to be idempotent.
use mcpdial.Base.{
  Bool, true, false, ◌≡◌, refl, Option, none, some, List, [], ◌∷◌, Str, str_eq, str_eq_iff, arith,
  codes, if◌then◌else◌, Bool-cases, Option-cases, inl, inr, unwrap_or, and_then,
}
use mcpdial.Json.{Value, index, as_str, as_array}
use mcpdial.Transport.Retry.{
  contains_name, insert_name, remove_name, note_tool, note_each, note_tools, has_hint,
}

contains-insert_name :
    (n m : Str) (names : List Str)
    → contains_name (insert_name n names) m ≡ (if str_eq n m then true else contains_name names m)
unfolding insert_name
contains-insert_name n m names = elim (Bool-cases (str_eq n m)) [
  | inl e ↦
      let same = (str_eq_iff n m).0 e in
      rw (e, ← same)
        (elim (Bool-cases (contains_name names n)) [
          | inl k ↦ rw (k) k
          | inr k ↦ rw k (ground (arith, str_eq_iff n n))
        ])
  | inr e ↦ elim (Bool-cases (contains_name names n)) [ inl k ↦ rw (k, e) | inr k ↦ rw (k, e) ]
]

contains-remove_name :
    (n m : Str) (names : List Str)
    → contains_name (remove_name n names) m ≡ (if str_eq n m then false else contains_name names m)
unfolding remove_name
contains-remove_name n m [] = ground arith
contains-remove_name n m (k ∷ names) =
    ground (arith, contains-remove_name n m names, str_eq_iff k n, str_eq_iff k m, str_eq_iff n m)

-- What a page of tools says of one name: the last tool of that name decides, and a page that does
-- not name it says nothing.
pub hint_of : Str → List Value → Option Bool
hint_of name [] = none
hint_of name (tool ∷ tools) = elim (hint_of name tools) [
  | some h ↦ some h
  | none ↦ elim (as_str (index tool (codes "name"))) [
    | none ↦ none
    | some n ↦ if str_eq n name then some (has_hint tool) else none
  ]
]

note_tool-contains :
    (m : Str) (names : List Str) (tool : Value)
    → contains_name (note_tool names tool) m
      ≡ unwrap_or (contains_name names m) (hint_of m (tool ∷ []))
unfolding note_tool hint_of
note_tool-contains m names tool = elim (Option-cases (as_str (index tool (codes "name")))) [
  | inl e ↦ ground arith
  | inr (n, e) ↦ ground (arith, contains-insert_name n m names, contains-remove_name n m names)
]

note_each-contains :
    (m : Str) (names : List Str) (tools : List Value)
    → contains_name (note_each names tools) m ≡ unwrap_or (contains_name names m) (hint_of m tools)
unfolding note_each hint_of
note_each-contains m names [] = refl
note_each-contains m names (tool ∷ tools) =
    ground
      (arith, note_each-contains m (note_tool names tool) tools, note_tool-contains m names tool)

-- After a `tools/list` page a name is held to be idempotent exactly as the last tool of that name
-- on the page says, and as before where the page does not name it; a reply without a list of
-- tools changes nothing.
pub note_tools-contains :
    (m : Str) (names : List Str) (reply : Value)
    → contains_name (note_tools names reply) m
      ≡ unwrap_or
          (contains_name names m)
          (and_then (as_array (index (index reply (codes "result")) (codes "tools"))) (hint_of m))
unfolding note_tools
note_tools-contains m names reply =
    elim (Option-cases (as_array (index (index reply (codes "result")) (codes "tools")))) [
      | inl e ↦ rw (e, note_tools)
      | inr (tools, e) ↦ rw (e, note_tools) (note_each-contains m names tools)
    ]
