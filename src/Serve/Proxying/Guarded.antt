-- ===== src/Serve/Proxying/Guarded.antt =====
-- What a proxy keeps from its clients.
use mcpdial.Base.{
  Str, true, Option, none, some, List, [], ℕ, ◌≡◌, refl, ap, sym, ◌∙◌, inl, inr, ◌⊎◌, Bool-cases,
  str_eq, str_eq_iff, codes, not, if◌then◌else◌, if_rule, All, unwrap_or, subst, get_key, ℤ,
  str_eq_refl,
}
use mcpdial.Json.{
  Value, null, arr, obj, Items, nil, cons, items, Fields, lookup, insert, index, get, as_array,
  is_object,
}
use mcpdial.Json.Laws.{lookup-insert}
use mcpdial.Protocol.Errors.{Error, rpc, Result, ok, err}
use mcpdial.Protocol.Messages.{reply, reply_error}
use mcpdial.Session.{Transport, Session, ask}
use mcpdial.Client.Tools.{tool_name}
use mcpdial.Serve.Filtering.{ToolFilter, permits, permitted_items, retained, retain_tools}
use mcpdial.Serve.Proxying.{
  used_at, adjust, invalid_request, Upstream, Proxy, Answer, message, present, method_of, tool_of,
  answered, wanted, handle, requested, relayed, session_mut, upstream_error,
}

module _ {S : Type 0} (T : Transport S) (told : Error → Str) (name : Str) where
  -- The proxy as it was, or leave to call the tool.
  abbrev Untouched : Str → Proxy S → Proxy S × Answer → Type 0
  Untouched tool p x = (x.0 ≡ p) ⊎ (permits p.filter tool ≡ true)

  answered-Untouched :
      (now : ℕ) (c : Result (Session S × Value)) (minted : Result Str) (session : Option Str)
      (msg msg_id : Value) (method : Str) (p : Proxy S)
      → method ≡ codes "tools/call"
      → Untouched (tool_of msg) p (answered T told name now c minted session msg msg_id method p)
  unfolding str_eq
  answered-Untouched now c minted session msg msg_id method p e =
      rw e (elim (Bool-cases (permits p.filter (tool_of msg))) [
        | inl may ↦ inr may
        | inr may_not ↦ inl (rw may_not refl)
      ])

  -- A tool that the filter does not permit is not called: a `tools/call` that wants a reply leaves the
  -- proxy and its upstream sessions as they were, unless the filter permits the tool.
  pub handle-unexposed :
      (now : ℕ) (c : Result (Session S × Value)) (minted : Result Str) (session : Option Str)
      (msg msg_id : Value) (p : Proxy S)
      → present (get (codes "id") msg) ≡ some msg_id
      → method_of msg ≡ codes "tools/call"
      → ((handle T told name now c minted session msg p).0 ≡ p)
        ⊎ (permits p.filter (tool_of msg) ≡ true)
  unfolding handle
  handle-unexposed now c minted session msg msg_id p with_id e =
      if_rule (Untouched (tool_of msg) p) (not (is_object msg)) _ _ (inl refl) (
        subst (λ o. Untouched (tool_of msg) p (wanted T told name now c minted session msg p o))
          (sym with_id) (answered-Untouched now c minted session msg msg_id (method_of msg) p e))

-- The tools that a result of `tools/list` shows.
abbrev pub tools_shown : Value → List Value
tools_shown result = unwrap_or [] (as_array (index result (codes "tools")))

abbrev pub IsExposed : ToolFilter → Value → Type 0
IsExposed f t = permits f (tool_name t) ≡ true

permitted_items-IsExposed :
    (f : ToolFilter) (ts : Items) → All (IsExposed f) (items (permitted_items f ts))
permitted_items-IsExposed f nil = tt
permitted_items-IsExposed f (cons t ts) = elim (Bool-cases (permits f (tool_name t))) [
  | inl may ↦ rw may (may, permitted_items-IsExposed f ts)
  | inr may_not ↦ rw may_not (permitted_items-IsExposed f ts)
]

-- What a field shows.
abbrev tools_in : Option Value → List Value
tools_in none = []
tools_in (some v) = unwrap_or [] (as_array v)

shown_at :
    (f : ToolFilter) (fs : Fields) (o : Option Value)
    → lookup (codes "tools") fs ≡ o
    → All (IsExposed f) (tools_in o)
    → All (IsExposed f) (tools_shown (obj fs))
shown_at f fs o e h =
    elim (lookup (codes "tools") fs)
        as (λ q.
          All (IsExposed f) (tools_in q)
          → All (IsExposed f) (unwrap_or [] (as_array (unwrap_or null q)))) [
            | none ↦ λ h. h
            | some v ↦ λ h. h
          ]
      (subst (λ q. All (IsExposed f) (tools_in q)) (sym e) h)

retained-IsExposed :
    (f : ToolFilter) (fs : Fields) (o : Option Value)
    → lookup (codes "tools") fs ≡ o
    → All (IsExposed f) (tools_shown (retained f fs o))
retained-IsExposed f fs (some (arr ts)) e =
    shown_at f (insert (codes "tools") (arr (permitted_items f ts)) fs)
      (some (arr (permitted_items f ts)))
      (lookup-insert (codes "tools") (codes "tools") (arr (permitted_items f ts)) fs
        ∙ ap (λ b. if b then some (arr (permitted_items f ts)) else lookup (codes "tools") fs)
            (str_eq_refl (codes "tools")))
      (permitted_items-IsExposed f ts)
retained-IsExposed f fs none e = shown_at f fs none e tt
retained-IsExposed f fs (some v) e = shown_at f fs (some v) e tt

retain_tools-IsExposed :
    (f : ToolFilter) (result : Value) → All (IsExposed f) (tools_shown (retain_tools f result))
unfolding retain_tools
retain_tools-IsExposed f (obj fs) = retained-IsExposed f fs (lookup (codes "tools") fs) refl
retain_tools-IsExposed f result = tt

-- The tools that a reply shows.
abbrev pub IsGuarded : ToolFilter → Answer → Type 0
IsGuarded f (message m) = All (IsExposed f) (tools_shown (index m (codes "result")))
IsGuarded f answer = Unit

reply-IsGuarded :
    (f : ToolFilter) (id result : Value)
    → All (IsExposed f) (tools_shown result)
    → IsGuarded f (message (reply id result))
unfolding reply lookup str_eq
reply-IsGuarded f id result h = h

reply_error-IsGuarded :
    (f : ToolFilter) (id : Value) (code : ℤ) (said : Str)
    → IsGuarded f (message (reply_error id code said))
unfolding reply_error lookup str_eq
reply_error-IsGuarded f id code said = tt

upstream_error-IsGuarded :
    (told : Error → Str) (f : ToolFilter) (id : Value) (e : Error)
    → IsGuarded f (message (upstream_error told id e))
unfolding upstream_error reply_error lookup str_eq
upstream_error-IsGuarded told f id (rpc code said none) = tt
upstream_error-IsGuarded told f id (rpc code said (some d)) = tt
upstream_error-IsGuarded told f id e = tt

module _ {S : Type 0} (T : Transport S) (told : Error → Str) (name : Str) where
  -- What a proxy answers shows no tool but those that the filter permits.
  abbrev Guards : ToolFilter → Proxy S × Answer → Type 0
  Guards f x = IsGuarded f (x.1)

  relayed-Guards :
      (id : Str) (msg_id : Value) (method : Str) (p : Proxy S) (r : Session S × Result Value)
      → method ≡ codes "tools/list"
      → Guards p.filter (relayed T told id msg_id method p r)
  relayed-Guards id msg_id method p (s, err e) h = upstream_error-IsGuarded told p.filter msg_id e
  relayed-Guards id msg_id method p (s, ok result) h =
      subst
        (λ b.
          IsGuarded p.filter
            (message (reply msg_id (if b then retain_tools p.filter result else result))))
        (sym ((str_eq_iff method (codes "tools/list")).1 h))
        (reply-IsGuarded p.filter msg_id (retain_tools p.filter result)
          (retain_tools-IsExposed p.filter result))

  requested-Guards :
      (f : ToolFilter) (msg_id : Value) (method : Str) (params : Option Value)
      (x : Proxy S × Option (Str × Upstream S))
      → (x.0).filter ≡ f
      → method ≡ codes "tools/list"
      → Guards f (requested T told msg_id method params x)
  requested-Guards f msg_id method params (p, none) same_filter h = tt
  requested-Guards f msg_id method params (p, some (id, up)) same_filter h =
      subst (λ g. Guards g (relayed T told id msg_id method p (ask T up.session method params)))
        same_filter (relayed-Guards id msg_id method p (ask T up.session method params) h)

  session_mut-filter :
      (now : ℕ) (session : Option Str) (p : Proxy S)
      → ((session_mut now session p).0).filter ≡ p.filter
  unfolding session_mut
  session_mut-filter now none p = refl
  session_mut-filter now (some id) p =
      elim (get_key id p.sessions)
        as (λ o.
          ((elim o as (λ q. Proxy S × Option (Str × Upstream S)) [
            | none ↦ (p, none)
            | some up ↦ (
              record p { sessions = adjust id (used_at now) p.sessions },
              some (id, used_at now up),
            )
          ]).0
          ).filter
          ≡ p.filter) [ none ↦ refl | some up ↦ refl ]

  answered-Guards :
      (now : ℕ) (c : Result (Session S × Value)) (minted : Result Str) (session : Option Str)
      (msg msg_id : Value) (method : Str) (p : Proxy S)
      → method ≡ codes "tools/list"
      → Guards p.filter (answered T told name now c minted session msg msg_id method p)
  unfolding str_eq
  answered-Guards now c minted session msg msg_id method p e =
      subst (λ m. Guards p.filter (answered T told name now c minted session msg msg_id m p))
        (sym e)
        (requested-Guards p.filter msg_id (codes "tools/list") (get (codes "params") msg)
          (session_mut now session p) (session_mut-filter now session p) refl)

  -- A list of tools that a client is sent, in reply to its `tools/list`, holds no tool but those that the
  -- filter permits, whatever the server lists.
  pub handle-IsGuarded :
      (now : ℕ) (c : Result (Session S × Value)) (minted : Result Str) (session : Option Str)
      (msg msg_id : Value) (p : Proxy S)
      → present (get (codes "id") msg) ≡ some msg_id
      → method_of msg ≡ codes "tools/list"
      → IsGuarded p.filter ((handle T told name now c minted session msg p).1)
  unfolding handle
  handle-IsGuarded now c minted session msg msg_id p with_id e =
      if_rule (Guards p.filter) (not (is_object msg)) _ _
        (reply_error-IsGuarded p.filter null invalid_request _)
        (subst (λ o. Guards p.filter (wanted T told name now c minted session msg p o))
          (sym with_id) (answered-Guards now c minted session msg msg_id (method_of msg) p e))
