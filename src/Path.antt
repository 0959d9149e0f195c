-- ===== src/Path.antt =====
-- src/path.rs: the `| ...` at the end of a shell line. `char::is_alphanumeric`, reading JSON, printing
-- JSON and running `jq` are parameters. The loop of `parse` stands on the text that is left, one
-- function for each place in it: the `take_while` and the `split_once(']')` of the source are the
-- functions `in_key` and `in_brackets`.
pub mod Selected
pub mod Index
pub mod Written
use mcpdial.Base.{
  ℕ, Bool, true, false, not, ◌||◌, Option, none, some, List, [], ◌∷◌, ◌++◌, Str, codes, str_eq,
  trim, if◌then◌else◌, ◌==◌, get_elem?, parse_uint, u64_max, is_whitespace, map_opt, unwrap_or,
  and_then, is_empty, lines, map,
}
use mcpdial.Json.{
  Value, null, str, arr, obj, items, Items, Fields, end, field, get, index, as_str, as_array,
  value_eq,
}
use mcpdial.Protocol.Errors.{
  Message, Error, usage, not_a_path, unterminated_in_filter, Result, ok, err, ◌>>=◌,
}
use mcpdial.Transport.Words.{split_command}

pub data Step : Type 0 where
  key : Str → Step
  at : ℕ → Step
  every : Step

pub record Steps : Type 0 where
  pub steps : List Step
  pub source : Str

pub data Filter : Type 0 where
  path : Steps → Filter
  jq : List Str → Filter

-- `note`: what is said beside the lines; empty, that a path matched nothing, or a warning of `jq`.
pub data Note : Type 0 where
  quiet : Note
  matched_nothing : (source : Str) → Note
  warning : Str → Note

pub record Filtered : Type 0 where
  pub text : Option Str
  pub note : Note

pub record Said : Type 0 where
  pub out : Str
  pub warned : Str

module _ (is_alphanumeric : ℕ → Bool) where
  abbrev pub is_key_char : ℕ → Bool
  is_key_char c = is_alphanumeric c || c == b'_' || c == b'-'

  -- What stands between brackets.
  abbrev pub as_index : Option ℕ → Option Step
  as_index n = map_opt at n

  abbrev pub bracketed : Str → Option Step
  bracketed [] = some every
  bracketed (c ∷ s) = as_index (parse_uint u64_max (c ∷ s))

  unfoldable mutual
    pub read_steps : Str → List Step → Option (List Step)
    read_steps [] steps = some steps
    read_steps (c ∷ s) steps =
        let dotted = after_dot s steps in
        let opened = in_brackets s [] steps in
        if c == b'.' then dotted else if c == b'[' then opened else none

    pub after_dot : Str → List Step → Option (List Step)
    after_dot [] steps = some steps
    after_dot (c ∷ s) steps =
        let named = in_key s (c ∷ []) steps in
        let opened = in_brackets s [] steps in
        if is_key_char c then named else if c == b'[' then opened else none

    pub in_key : Str → Str → List Step → Option (List Step)
    in_key [] name steps = some (steps ++ key name ∷ [])
    in_key (c ∷ s) name steps =
        let longer = in_key s (name ++ c ∷ []) steps in
        let dotted = after_dot s (steps ++ key name ∷ []) in
        let opened = in_brackets s [] (steps ++ key name ∷ []) in
        if is_key_char c
        then longer
        else if c == b'.'
        then dotted
        else if c == b'['
        then opened
        else none

    pub in_brackets : Str → Str → List Step → Option (List Step)
    in_brackets [] inside steps = none
    in_brackets (c ∷ s) inside steps =
        let closed : Option (List Step) =
          and_then (bracketed (trim inside)) (λ step. read_steps s (steps ++ step ∷ [])) in
        let longer = in_brackets s (inside ++ c ∷ []) steps in if c == b']' then closed else longer

  -- `parse`.
  abbrev pub starts_at_top : Str → Bool
  starts_at_top [] = false
  starts_at_top (c ∷ s) = c == b'.'

  abbrev pub path_of : Str → Option (List Step) → Result Steps
  path_of source none = err (usage (not_a_path source))
  path_of source (some steps) = ok (record { steps = steps; source = source })

  unfoldable pub parse : Str → Result Steps
  parse expression =
      let source = trim expression in
      if starts_at_top source
      then path_of source (read_steps source [])
      else err (usage (not_a_path source))

  -- `split_once(char::is_whitespace)`.
  abbrev pub split_blank : Str → Option (Str × Str)
  split_blank [] = none
  split_blank (c ∷ s) =
      let rest = split_blank s in
      if is_whitespace c then some ([], s) else map_opt (λ p. (c ∷ p.0, p.1)) rest

  -- `Filter::parse`.
  abbrev pub jq_filter : Str → Result (List Str) → Result Filter
  jq_filter written (err e) = err (usage (unterminated_in_filter written))
  jq_filter written (ok args) = ok (jq args)

  unfoldable pub parse_filter : Str → Result Filter
  parse_filter expression =
      let written = trim expression in
      let (head, tail) = unwrap_or (written, codes ".") (split_blank written) in
      if str_eq head (codes "jq")
      then jq_filter written (split_command tail)
      else (parse written >>= λ p. ok (path p))

-- What one step finds in one value.
abbrev pub option_list {ℓ} : {A : Type ℓ} → Option A → List A
option_list none = []
option_list (some a) = a ∷ []

abbrev pub field_values : Fields → List Value
field_values end = []
field_values (field k v fs) = v ∷ field_values fs

unfoldable pub step_into : Step → Value → List Value
step_into (key k) v = option_list (get k v)
step_into (at n) (arr vs) = option_list (get_elem? (items vs) n)
step_into (at n) _ = []
step_into every (arr vs) = items vs
step_into every (obj fs) = field_values fs
step_into every _ = []

abbrev pub flat_map {ℓ κ} : {A : Type ℓ} {B : Type κ} → (A → List B) → List A → List B
flat_map f [] = []
flat_map f (x ∷ xs) = f x ++ flat_map f xs

-- `select`: the loop over the steps, with the values found so far.
unfoldable pub walk : List Step → List Value → List Value
walk [] found = found
walk (step ∷ steps) found = walk steps (flat_map (step_into step) found)

unfoldable pub select : Steps → Value → List Value
select p v = walk p.steps (v ∷ [])

module _ (read_json : Str → Option Value) (print : Value → Str) where
  -- `text_json`: the text blocks, joined, while they are one document.
  abbrev pub text_of : Value → List Str
  text_of block =
      if value_eq (index block (codes "type")) (str (codes "text"))
      then option_list (as_str (index block (codes "text")))
      else []

  abbrev pub join_lines : List Str → Str
  join_lines [] = []
  join_lines (l ∷ []) = l
  join_lines (l ∷ m ∷ ls) = l ++ 10 ∷ join_lines (m ∷ ls)

  abbrev pub document : List Str → Option Value
  document [] = none
  document (t ∷ ts) = read_json (trim (join_lines (t ∷ ts)))

  unfoldable pub text_json : Value → Option Value
  text_json result =
      and_then (as_array (index result (codes "content")))
        (λ blocks. document (flat_map text_of blocks))

  -- `subject`.
  unfoldable pub subject : Value → Value
  subject result =
      unwrap_or (unwrap_or result (text_json result)) (get (codes "structuredContent") result)

  -- `lines` and `lines_of`.
  abbrev pub bare : Option Str → Value → Str
  bare none v = print v
  bare (some s) v = s

  abbrev pub line_of : Bool → Value → Str
  line_of true v = print v
  line_of false v = bare (as_str v) v

  unfoldable pub lines_found : List Value → Bool → Str
  lines_found found json = join_lines (map (line_of json) found)

  unfoldable pub lines_of : Str → Str
  lines_of written = join_lines (lines written)

  -- `Filter::apply`.
  abbrev pub path_made : Str → Bool → List Value → Filtered
  path_made source json [] = record { text = none; note = matched_nothing source }
  path_made source json (v ∷ found) = record {
    text = some (lines_found (v ∷ found) json);
    note = quiet;
  }

  abbrev pub note_of : Str → Note
  note_of [] = quiet
  note_of (c ∷ s) = warning (c ∷ s)

  abbrev pub jq_made : Said → Filtered
  jq_made said = record {
    text = if is_empty said.out then none else some (lines_of said.out);
    note = note_of said.warned;
  }

  unfoldable pub apply : (List Str → Value → Result Said) → Filter → Value → Bool → Result Filtered
  apply run_jq (path p) result json = ok (path_made p.source json (select p (subject result)))
  apply run_jq (jq args) result json = run_jq args (subject result) >>= λ said. ok (jq_made said)
