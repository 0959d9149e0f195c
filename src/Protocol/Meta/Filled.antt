-- ===== src/Protocol/Meta/Filled.antt =====
-- What the filled-in params hold, key by key.
use mcpdial.Base.{
  ℕ, ◌≡◌, refl, Option, none, some, Str, codes, arith, Bool-cases, str_eq, str_eq_iff, pos, or_else,
  if◌then◌else◌, unwrap_or, str_eq_refl, inl, inr, map_opt,
}
use mcpdial.Json.{Value, num, str, obj, Fields, end, field, int, get, lookup, insert}
use mcpdial.Json.Laws.{lookup-insert}
use mcpdial.Protocol.Version.{KnownVersion}
use mcpdial.Protocol.Meta.{
  extend, or_insert, client_fields, own_meta, with_client_meta, with_input_responses,
  with_progress_token, add_answers, add_state,
}

-- No key stands twice, as in every map.
abbrev pub IsDistinct : Fields → Type 0
IsDistinct end = Unit
IsDistinct (field k v fs) = (lookup k fs ≡ none) × IsDistinct fs

pub lookup-extend :
    (j : Str) (ours theirs : Fields)
    → IsDistinct theirs
    → lookup j (extend ours theirs) ≡ or_else (lookup j theirs) (lookup j ours)
unfolding extend lookup
lookup-extend j ours end h = refl
lookup-extend j ours (field k v theirs) (fresh, h) = elim (Bool-cases (str_eq k j)) [
  | inl e ↦ rw (
    e,
    lookup-extend j (insert k v ours) theirs h,
    lookup-insert k j v ours,
    e,
    ← (str_eq_iff k j).0 e,
    fresh,
  )
  | inr e ↦ rw (e, lookup-extend j (insert k v ours) theirs h, lookup-insert k j v ours, e)
]

pub lookup-or_insert :
    (k j : Str) (v : Value) (fs : Fields)
    → lookup j (or_insert k v fs)
      ≡ (if str_eq k j then some (unwrap_or v (lookup k fs)) else lookup j fs)
unfolding or_insert
lookup-or_insert k j v fs = ground (arith, lookup-insert k j v fs, str_eq_iff k j)

-- `get` after an insert at a key, at that key and at any other.
get-insert :
    (k j : Str) (v : Value) (fs : Fields)
    → get j (obj (insert k v fs)) ≡ (if str_eq k j then some v else lookup j fs)
get-insert k j v fs = lookup-insert k j v fs

get-insert_self : (k : Str) (v : Value) (fs : Fields) → lookup k (insert k v fs) ≡ some v
get-insert_self k v fs = rw (lookup-insert k k v fs, str_eq_refl k)

-- The params of a 2026-07-28 request that already carry a `_meta` object: the result has a `_meta`
-- in which each key is the caller's own where the caller set it and the client's where not, and
-- every other param is what it was.
pub with_client_meta_lem :
    (fs theirs : Fields) (version : KnownVersion) (capabilities : Value)
    → own_meta fs ≡ some theirs
    → IsDistinct theirs
    → (m : Fields) × ((j : Str)
        → get j (with_client_meta (some (obj fs)) version capabilities)
          ≡ (if str_eq (codes "_meta") j then some (obj m) else lookup j fs))
      × ((k : Str)
          → lookup k m ≡ or_else (lookup k theirs) (lookup k (client_fields version capabilities)))
unfolding with_client_meta
with_client_meta_lem fs theirs version capabilities own h = (
  extend (client_fields version capabilities) theirs,
  λ j. rw own (get-insert (codes "_meta") j _ fs),
  λ k. lookup-extend k (client_fields version capabilities) theirs h,
)

-- Answers go out only where there are some.
abbrev pub sent : Fields → Option Value
sent end = none
sent (field k v fs) = some (obj (field k v fs))

lookup-add_answers :
    (j : Str) (answers fs : Fields)
    → lookup j (add_answers answers fs) ≡ (
        if str_eq (codes "inputResponses") j
        then or_else (sent answers) (lookup j fs)
        else lookup j fs)
lookup-add_answers j end fs = ground arith
lookup-add_answers j (field k v as_) fs = lookup-insert (codes "inputResponses") j _ fs

lookup-add_state :
    (j : Str) (state : Option Str) (fs : Fields)
    → lookup j (add_state state fs) ≡ (
        if str_eq (codes "requestState") j
        then or_else (map_opt str state) (lookup j fs)
        else lookup j fs)
lookup-add_state j none fs = ground arith
lookup-add_state j (some s) fs = lookup-insert (codes "requestState") j _ fs

-- The retried params of a demand for input: the state stands under `requestState` where the server
-- sent one, the answers stand under `inputResponses` where there are some, and every other param,
-- these two included where there is nothing to send, is what it was.
pub with_input_responses_lem :
    (fs answers : Fields) (state : Option Str) (j : Str)
    → get j (with_input_responses (some (obj fs)) answers state) ≡ (
        if str_eq (codes "requestState") j
        then or_else (map_opt str state) (lookup j fs)
        else if str_eq (codes "inputResponses") j
        then or_else (sent answers) (lookup j fs)
        else lookup j fs)
unfolding with_input_responses
with_input_responses_lem fs answers state j = elim (Bool-cases (str_eq (codes "requestState") j)) [
  | inl e ↦
      rw
        (
          lookup-add_state j state (add_answers answers fs),
          e,
          lookup-add_answers j answers fs,
          ← (str_eq_iff (codes "requestState") j).0 e,
        )
        (unfold str_eq in refl)
  | inr e ↦
      rw (lookup-add_state j state (add_answers answers fs), e, lookup-add_answers j answers fs)
]

-- The params of a request that is to report progress, where `_meta` is absent (then `m` is empty)
-- or an object `m`: the token in `_meta` is the caller's own where there is one and the request's
-- id where not, and nothing else in `_meta` or beside it has changed.
pub with_progress_token_lem :
    (fs m : Fields) (id : ℕ)
    → unwrap_or (obj end) (lookup (codes "_meta") fs) ≡ obj m
    → (m' : Fields) × ((j : Str)
        → get j (with_progress_token (some (obj fs)) id)
          ≡ (if str_eq (codes "_meta") j then some (obj m') else lookup j fs))
      × ((k : Str)
          → lookup k m' ≡ (
              if str_eq (codes "progressToken") k
              then some (unwrap_or (num (int (pos id))) (lookup (codes "progressToken") m))
              else lookup k m))
unfolding with_progress_token
with_progress_token_lem fs m id e = (
  or_insert (codes "progressToken") (num (int (pos id))) m,
  λ j. rw e (get-insert (codes "_meta") j _ fs),
  λ k. lookup-or_insert (codes "progressToken") k (num (int (pos id))) m,
)
