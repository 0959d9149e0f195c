-- ===== src/Snapshot.antt =====
-- src/snapshot.rs: a list of tools that was written down, against what the server has now.
pub mod Kept
use mcpdial.Base.{
  Str, Bool, true, false, Option, none, some, List, [], ◌∷◌, ◌++◌, ℕ, codes, str_eq, str_lt,
  if◌then◌else◌, not, any, find, is_some, is_empty, unwrap_or, ◌||◌, ◌&&◌, map,
}
use mcpdial.Json.{
  Value, str, obj, Fields, field, end, arr, from_list, index, lookup, insert, as_str, as_object,
  value_eq, fields, bool,
}
use mcpdial.Schema.{type_name, required_names}

abbrev pub name_of : Value → Str
name_of tool = unwrap_or [] (as_str (index tool (codes "name")))

-- `sort_by` on the names, which keeps the order of tools of one name.
abbrev insert_tool : Value → List Value → List Value
insert_tool t [] = t ∷ []
insert_tool t (u ∷ us) = if str_lt (name_of u) (name_of t) then u ∷ insert_tool t us else t ∷ u ∷ us

unfoldable pub sort_tools : List Value → List Value
unfolding str_lt
sort_tools [] = []
sort_tools (t ∷ ts) = insert_tool t (sort_tools ts)

-- `document`, whose keys stand in their order.
unfoldable pub document : Value → List Value → Value
unfolding sort_tools
document server_info tools =
    let about = index server_info (codes "serverInfo") in
    obj (
      field (codes "protocolVersion") (index server_info (codes "protocolVersion")) (
        field (codes "server")
          (obj (
            field (codes "name") (index about (codes "name"))
              (field (codes "version") (index about (codes "version")) end)))
          (field (codes "tools") (arr (from_list (sort_tools tools))) end)))

pub record Difference : Type 0 where
  pub tool : Str
  pub kind : Str
  pub detail : Str
  pub breaking : Bool

abbrev difference : Str → Str → Str → Bool → Difference
difference tool kind detail breaking = record {
  tool = tool;
  kind = kind;
  detail = detail;
  breaking = breaking;
}

-- `Difference::line` and `Difference::to_json`.
unfoldable pub line : Difference → Str
line d =
    (if d.breaking then [] else codes "info: ")
    ++ (codes "tool " ++ (d.tool ++ (codes ": " ++ d.detail)))

unfoldable pub difference_json : Difference → Value
difference_json d = obj (
    field (codes "detail") (str d.detail) (
      field (codes "kind") (str d.kind) (
        field (codes "level") (str (if d.breaking then codes "fail" else codes "info"))
          (field (codes "tool") (str d.tool) end))))

-- `Comparison::ok` and `Comparison::to_json`, of the differences that were found.
unfoldable pub is_ok : List Difference → Bool
is_ok differences = not (any (λ d. d.breaking) differences)

unfoldable pub comparison_json : List Difference → Value
unfolding is_ok difference_json
comparison_json differences = obj (
    field (codes "differences") (arr (from_list (map difference_json differences)))
      (field (codes "ok") (bool (is_ok differences)) end))

-- `named`: the tools of a name.
unfoldable pub tools_named : List Value → Str → List Value
unfolding value_eq
tools_named [] name = []
tools_named (t ∷ ts) name =
    let rest = tools_named ts name in
    if value_eq (index t (codes "name")) (str name) then t ∷ rest else rest

-- `object` and `fields`.
abbrev pub object : Value → Fields
object value = unwrap_or end (as_object value)

abbrev pub fields_of : Value → Fields
fields_of schema = object (index schema (codes "properties"))

abbrev pub schema_of : Value → Value
schema_of tool = index tool (codes "inputSchema")

abbrev pub is_needed : Value → Str → Bool
is_needed schema name = any (str_eq name) (required_names schema)

module _ (print : Value → Str) where
  -- What `properties` says of a property that the snapshot has.
  abbrev pub removed : Str → Bool → Str → Bool → List Difference
  removed tool strict name was_needed =
      difference tool (codes "property-removed")
        ((if was_needed then codes "required property " else codes "optional property ")
          ++ (name ++ codes " was removed"))
        (was_needed || strict)
      ∷ []

  abbrev pub retyped : Str → Str → Str → Str → List Difference
  retyped tool name was_type now_type =
      if str_eq was_type now_type
      then []
      else difference tool (codes "type-changed")
          (codes "property "
            ++ (name ++ (codes " is " ++ (now_type ++ (codes ", was " ++ was_type)))))
          true
        ∷ []

  abbrev pub required_otherwise : Str → Bool → Str → Bool → Bool → List Difference
  required_otherwise tool strict name was_needed is_needed =
      if is_needed && not was_needed
      then difference tool (codes "now-required")
          (codes "property " ++ (name ++ codes " is now required")) true
        ∷ []
      else if was_needed && not is_needed
      then difference tool (codes "now-optional")
          (codes "required property " ++ (name ++ codes " is now optional")) strict
        ∷ []
      else []

  abbrev pub had_property :
      Str → Bool → Value → Value → Str → Value → Option Value → List Difference
  had_property tool strict before after name spec none =
      removed tool strict name (is_needed before name)
  had_property tool strict before after name spec (some now_spec) =
      retyped tool name (type_name print spec) (type_name print now_spec)
      ++ required_otherwise tool strict name (is_needed before name) (is_needed after name)

  abbrev pub had_properties : Str → Bool → Value → Value → Fields → List Difference
  had_properties tool strict before after end = []
  had_properties tool strict before after (field name spec fs) =
      had_property tool strict before after name spec (lookup name (fields_of after))
      ++ had_properties tool strict before after fs

  -- And of one that it does not have.
  abbrev pub new_property : Str → Bool → Value → Value → Str → List Difference
  new_property tool strict before after name =
      if is_some (lookup name (fields_of before))
      then []
      else if is_needed after name
      then difference tool (codes "now-required")
          (codes "property " ++ (name ++ codes " is new and required")) true
        ∷ []
      else difference tool (codes "property-added")
          (codes "optional property " ++ (name ++ codes " was added")) strict
        ∷ []

  abbrev pub new_properties : Str → Bool → Value → Value → Fields → List Difference
  new_properties tool strict before after end = []
  new_properties tool strict before after (field name spec fs) =
      new_property tool strict before after name ++ new_properties tool strict before after fs

  unfoldable pub schema_differences : Str → Value → Value → Bool → List Difference
  unfolding type_name lookup
  schema_differences tool was now strict =
      let before = schema_of was in
      let after = schema_of now in
      had_properties tool strict before after (fields_of before)
      ++ new_properties tool strict before after (fields_of after)

  -- `keys`: the names of both objects, each once and in their order.
  abbrev pub all_keys : Fields → Fields → Fields
  all_keys end after = after
  all_keys (field k v fs) after = insert k v (all_keys fs after)

  abbrev pub key_detail : Str → Option Value → Option Value → Option Str
  key_detail key (some a) (some b) =
      if value_eq a b then none else some (key ++ codes " differs from the snapshot")
  key_detail key (some a) none = some (key ++ codes " was removed")
  key_detail key none _ = some (key ++ codes " was added")

  abbrev pub key_differs : Str → Option Str → List Difference
  key_differs tool none = []
  key_differs tool (some detail) = difference tool (codes "differs") detail true ∷ []

  abbrev pub keys_of : Str → Fields → Fields → Bool → Fields → List Difference
  keys_of tool before after explained end = []
  keys_of tool before after explained (field key v fs) =
      (if str_eq key (codes "inputSchema") && explained
        then []
        else key_differs tool (key_detail key (lookup key before) (lookup key after)))
      ++ keys_of tool before after explained fs

  unfoldable pub key_differences : Str → Value → Value → Bool → List Difference
  unfolding lookup insert value_eq
  key_differences tool was now explained =
      keys_of tool (object was) (object now) explained (all_keys (object was) (object now))

  -- One tool of the snapshot.
  abbrev pub tool_differences : Bool → Value → Option Value → List Difference
  tool_differences strict was none =
      difference (name_of was) (codes "tool-missing") (codes "gone from the server") true ∷ []
  tool_differences strict was (some now) =
      let found = schema_differences (name_of was) was now strict in
      found ++ (if strict then key_differences (name_of was) was now (not (is_empty found)) else [])

  abbrev pub all_differences : Bool → List Value → List Value → List Difference
  all_differences strict live [] = []
  all_differences strict live (was ∷ snapshot) =
      tool_differences strict was (find (λ t. str_eq (name_of t) (name_of was)) live)
      ++ all_differences strict live snapshot

  -- The tools that are new.
  abbrev pub added : List Value → List Value → List Difference
  added snapshot [] = []
  added snapshot (now ∷ live) =
      let rest = added snapshot live in
      if any (λ t. str_eq (name_of t) (name_of now)) snapshot
      then rest
      else difference (name_of now) (codes "tool-added") (codes "not in the snapshot") false ∷ rest

  unfoldable pub compare : List Value → List Value → Bool → List Difference
  unfolding schema_differences key_differences
  compare snapshot live strict = all_differences strict live snapshot ++ added snapshot live
