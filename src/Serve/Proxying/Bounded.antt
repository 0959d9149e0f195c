-- ===== src/Serve/Proxying/Bounded.antt =====
-- The sessions of a proxy stay within their bound.
use mcpdial.Base.{
  Str, true, Option, none, some, List, [], ◌∷◌, ℕ, zero, suc, ◌+◌, ◌≤◌, ◌<◌, length, Map, get_key,
  put_key, remove_key, has_key, ◌≡◌, refl, inl, inr, Bool-cases, arith, str_eq, leb, not,
  str_eq_refl, is_some, subst, map_opt, if_rule, codes, ◌&&◌,
}
use mcpdial.Json.{Value, get, is_object}
use mcpdial.Protocol.Errors.{Error, Result, ok, err}
use mcpdial.Session.{Transport, Session, ask}
use mcpdial.Serve.Filtering.{permits}
use mcpdial.Serve.Proxying.{
  wanted, method_of, tool_of, staler, stalest_of, used_at, Upstream, Proxy, Answer, adjust,
  max_sessions, stalest, room, room_turn, make_room, session_mut, left_with, notified, relayed,
  requested, connected, open_upstream, answered, passed_on, present, handle, close,
}

length-adjust : {A : Type 0} (k : Str) (f : A → A) (m : Map A) → length (adjust k f m) ≡ length m
unfolding adjust
length-adjust k f [] = refl
length-adjust k f ((j, a) ∷ m) = ground (arith, length-adjust k f m)

length-put_key :
    {A : Type 0} (k : Str) (a : A) (m : Map A) → length (put_key k a m) ≤ suc (length m)
unfolding put_key
length-put_key k a [] = omega arith
length-put_key k a ((j, b) ∷ m) = ground (arith, length-put_key k a m)

length-remove_key : {A : Type 0} (k : Str) (m : Map A) → length (remove_key k m) ≤ length m
unfolding remove_key
length-remove_key k [] = omega arith
length-remove_key k ((j, a) ∷ m) = ground (arith, length-remove_key k m)

removed :
    {A : Type 0} (k : Str) (m : Map A) → has_key k m ≡ true → length (remove_key k m) < length m
unfolding remove_key get_key
removed k [] h = absurd (cc h)
removed k ((j, a) ∷ m) h = elim (Bool-cases (str_eq j k)) [
  | inl e ↦ rw e (omega (arith, length-remove_key k m))
  | inr e ↦ rw e (omega (arith, removed k m (ground arith)))
]

some_injective : {A : Type 0} {a b : A} → some a ≡ some b → a ≡ b
some_injective e = cc e

has_key-head : {A : Type 0} (j : Str) (a : A) (m : Map A) → has_key j ((j, a) ∷ m) ≡ true
unfolding get_key
has_key-head j a m = rw (str_eq_refl j) refl

has_key-tail :
    {A : Type 0} (j k : Str) (a : A) (m : Map A)
    → has_key k m ≡ true
    → has_key k ((j, a) ∷ m) ≡ true
unfolding get_key
has_key-tail j k a m h = elim (Bool-cases (str_eq j k)) [ inl e ↦ rw e refl | inr e ↦ rw e h ]

module _ {S : Type 0} where
  staler-has_key :
      (j : Str) (up : Upstream S) (m : Map (Upstream S)) (o : Option (Str × ℕ))
      → ((q : Str × ℕ) → o ≡ some q → has_key (q.0) m ≡ true)
      → has_key ((staler (j, up.used) o).0) ((j, up) ∷ m) ≡ true
  staler-has_key j up m none h = has_key-head j up m
  staler-has_key j up m (some (other, least)) h = elim (Bool-cases (leb up.used least)) [
    | inl e ↦ rw e (has_key-head j up m)
    | inr e ↦ rw e (has_key-tail j other up m (h (other, least) refl))
  ]

  stalest_of-has_key :
      (m : Map (Upstream S)) (q : Str × ℕ) → stalest_of m ≡ some q → has_key (q.0) m ≡ true
  stalest_of-has_key [] q h = absurd (cc h)
  stalest_of-has_key ((j, up) ∷ m) q h =
      subst (λ x. has_key (x.0) ((j, up) ∷ m) ≡ true) (some_injective h)
        (staler-has_key j up m (stalest_of m) (λ r e. stalest_of-has_key m r e))

  -- One turn of `make_room` drops a session, if there is one.
  length-room_turn :
      (m : Map (Upstream S)) (o : Option (Str × ℕ)) (n : ℕ)
      (go_on : Map (Upstream S) → Map (Upstream S))
      → stalest_of m ≡ o
      → length m ≤ suc n + 15
      → 16 ≤ length m
      → ((l : Map (Upstream S)) → length l ≤ n + 15 → length (go_on l) ≤ 15)
      → length (room_turn m (map_opt (λ q. q.0) o) go_on) ≤ 15
  length-room_turn [] none n go_on e h big rest = absurd (omega (arith, big))
  length-room_turn (x ∷ m) none n go_on e h big rest = absurd (cc e)
  length-room_turn m (some q) n go_on e h big rest =
      rest (remove_key (q.0) m) (omega (arith, removed (q.0) m (stalest_of-has_key m q e)))

  length-room : (n : ℕ) (m : Map (Upstream S)) → length m ≤ n + 15 → length (room n m) ≤ 15
  unfolding room stalest
  length-room zero m h = omega arith
  length-room (suc n) m h = elim (Bool-cases (leb max_sessions (length m))) [
    | inl e ↦ rw e (
        length-room_turn m (stalest_of m) n (λ l. room n l) refl h (ground arith)
          (λ l hl. length-room n l hl))
    | inr e ↦ rw e (ground arith)
  ]

  length-make_room : (m : Map (Upstream S)) → length (make_room m) ≤ 15
  unfolding make_room
  length-make_room m = length-room (length m) m (omega arith)

-- A proxy with no more sessions than it may have.
abbrev pub IsBounded : {S : Type 0} → Proxy S → Type 0
IsBounded p = length p.sessions ≤ max_sessions

abbrev LeavesBounded : {S : Type 0} → Proxy S × Answer → Type 0
LeavesBounded x = IsBounded (x.0)

-- What a client asks of the proxy, with what happens around it at that moment.
pub data Job (S : Type 0) : Type 0 where
  relay :
      (now : ℕ) (connection : Result (Session S × Value)) (minted : Result Str)
      (session : Option Str) (msg : Value)
      → Job S
  end_session : (session : Option Str) → Job S

module _ {S : Type 0} where
  left_with-IsBounded :
      (id : Str) (s : Session S) (p : Proxy S) → IsBounded p → IsBounded (left_with id s p)
  left_with-IsBounded id s p h =
      omega (arith, h, length-adjust id (λ up. record up { session = s }) p.sessions)

  session_mut-IsBounded :
      (now : ℕ) (session : Option Str) (p : Proxy S)
      → IsBounded p
      → IsBounded ((session_mut now session p).0)
  unfolding session_mut
  session_mut-IsBounded now none p h = h
  session_mut-IsBounded now (some id) p h =
      elim (get_key id p.sessions)
        as (λ o. IsBounded (
          (elim o as (λ q. Proxy S × Option (Str × Upstream S)) [
            | none ↦ (p, none)
            | some up ↦ (
              record p { sessions = adjust id (used_at now) p.sessions },
              some (id, used_at now up),
            )
          ]).0)) [
            | none ↦ h
            | some up ↦ omega (arith, h, length-adjust id (used_at now) p.sessions)
          ]

module _ {S : Type 0} (T : Transport S) (told : Error → Str) (name : Str) where
  notified-IsBounded :
      (method : Str) (params : Option Value) (x : Proxy S × Option (Str × Upstream S))
      → IsBounded (x.0)
      → IsBounded ((notified T method params x).0)
  notified-IsBounded method params (p, none) h = h
  notified-IsBounded method params (p, some (id, up)) h = left_with-IsBounded id _ p h

  relayed-IsBounded :
      (id : Str) (msg_id : Value) (method : Str) (p : Proxy S) (r : Session S × Result Value)
      → IsBounded p
      → IsBounded ((relayed T told id msg_id method p r).0)
  relayed-IsBounded id msg_id method p (s, err e) h = left_with-IsBounded id s p h
  relayed-IsBounded id msg_id method p (s, ok result) h = left_with-IsBounded id s p h

  requested-IsBounded :
      (msg_id : Value) (method : Str) (params : Option Value)
      (x : Proxy S × Option (Str × Upstream S))
      → IsBounded (x.0)
      → IsBounded ((requested T told msg_id method params x).0)
  requested-IsBounded msg_id method params (p, none) h = h
  requested-IsBounded msg_id method params (p, some (id, up)) h =
      relayed-IsBounded id msg_id method p (ask T up.session method params) h

  connected-IsBounded :
      (now : ℕ) (msg_id : Value) (p : Proxy S) (minted : Result Str)
      (c : Result (Session S × Value))
      → length p.sessions ≤ 15
      → IsBounded ((connected T told name now msg_id p minted c).0)
  connected-IsBounded now msg_id p minted (err e) h = omega (arith, h)
  connected-IsBounded now msg_id p (err e) (ok (s, info)) h = omega (arith, h)
  connected-IsBounded now msg_id p (ok id) (ok (s, info)) h =
      omega
        (arith, h, length-put_key id (record { session = s; info = info; used = now }) p.sessions)

  open_upstream-IsBounded :
      (now : ℕ) (c : Result (Session S × Value)) (minted : Result Str) (msg_id : Value)
      (p : Proxy S)
      → IsBounded ((open_upstream T told name now c minted msg_id p).0)
  unfolding open_upstream
  open_upstream-IsBounded now c minted msg_id p =
      connected-IsBounded now msg_id (record p { sessions = make_room p.sessions }) minted c
        (length-make_room p.sessions)

  answered-IsBounded :
      (now : ℕ) (c : Result (Session S × Value)) (minted : Result Str) (session : Option Str)
      (msg msg_id : Value) (method : Str) (p : Proxy S)
      → IsBounded p
      → IsBounded ((answered T told name now c minted session msg msg_id method p).0)
  answered-IsBounded now c minted session msg msg_id method p h =
      if_rule LeavesBounded (str_eq method (codes "initialize")) _ _
        (open_upstream-IsBounded now c minted msg_id p)
        (if_rule LeavesBounded (str_eq method (codes "ping")) _ _ h (
          if_rule LeavesBounded
            (str_eq method (codes "tools/call") && not (permits p.filter (tool_of msg))) _ _ h
            (requested-IsBounded msg_id method (get (codes "params") msg)
              (session_mut now session p) (session_mut-IsBounded now session p h))))

  passed_on-IsBounded :
      (now : ℕ) (session : Option Str) (msg : Value) (method : Str) (p : Proxy S)
      → IsBounded p
      → IsBounded ((passed_on T told now session msg method p).0)
  passed_on-IsBounded now session msg method p h =
      if_rule LeavesBounded (str_eq method (codes "notifications/initialized")) _ _ h (
        notified-IsBounded method (get (codes "params") msg) (session_mut now session p)
          (session_mut-IsBounded now session p h))

  with_id-IsBounded :
      (now : ℕ) (c : Result (Session S × Value)) (minted : Result Str) (session : Option Str)
      (msg : Value) (p : Proxy S) (o : Option Value)
      → IsBounded p
      → IsBounded ((wanted T told name now c minted session msg p o).0)
  with_id-IsBounded now c minted session msg p none h =
      passed_on-IsBounded now session msg (method_of msg) p h
  with_id-IsBounded now c minted session msg p (some msg_id) h =
      answered-IsBounded now c minted session msg msg_id (method_of msg) p h

  handle-IsBounded :
      (now : ℕ) (c : Result (Session S × Value)) (minted : Result Str) (session : Option Str)
      (msg : Value) (p : Proxy S)
      → IsBounded p
      → IsBounded ((handle T told name now c minted session msg p).0)
  unfolding handle
  handle-IsBounded now c minted session msg p h =
      if_rule LeavesBounded (not (is_object msg)) _ _ h
        (with_id-IsBounded now c minted session msg p (present (get (codes "id") msg)) h)

  close-IsBounded :
      (session : Option Str) (p : Proxy S) → IsBounded p → IsBounded ((close session p).0)
  unfolding close
  close-IsBounded none p h = h
  close-IsBounded (some id) p h =
      if_rule LeavesBounded (is_some (get_key id p.sessions)) _ _
        (omega (arith, h, length-remove_key id p.sessions)) h

  -- What a job does to the proxy.
  abbrev pub job_done : Proxy S → Job S → Proxy S
  job_done p (relay now c minted session msg) = (handle T told name now c minted session msg p).0
  job_done p (end_session session) = (close session p).0

  abbrev pub all_done : Proxy S → List (Job S) → Proxy S
  all_done p [] = p
  all_done p (j ∷ js) = all_done (job_done p j) js

  job_done-IsBounded : (p : Proxy S) (j : Job S) → IsBounded p → IsBounded (job_done p j)
  job_done-IsBounded p (relay now c minted session msg) h =
      handle-IsBounded now c minted session msg p h
  job_done-IsBounded p (end_session session) h = close-IsBounded session p h

  -- Whatever its clients ask, and whatever the server answers, a proxy never has more sessions than
  -- `max_sessions`, if it starts so.
  pub all_done-IsBounded :
      (p : Proxy S) (js : List (Job S)) → IsBounded p → IsBounded (all_done p js)
  all_done-IsBounded p [] h = h
  all_done-IsBounded p (j ∷ js) h = all_done-IsBounded (job_done p j) js (job_done-IsBounded p j h)
