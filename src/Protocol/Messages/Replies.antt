-- ===== src/Protocol/Messages/Replies.antt =====
-- A reply reaches the request it answers, and a request of ours is one on the other side.
use mcpdial.Base.{
  ℕ, ◌≡◌, ◌≢◌, ◌↔◌, inl, inr, refl, Option, none, some, Str, codes, arith, Option-cases, Bool-cases,
  str_eq, str_eq_iff, pos, ℤ,
}
use mcpdial.Json.{Value, null, bool, num, str, arr, obj, int, get, lookup, insert}
use mcpdial.Json.Laws.{value_eq_iff}
use mcpdial.Protocol.Errors.{ok, err, rpc, method_not_found}
use mcpdial.Protocol.Incoming.{response, server_request, notification, classify, check}
use mcpdial.Protocol.Messages.{
  ping, request, notify, reply, reply_error, answer, answer_with, Responder, refusal,
}

-- What `classify` and `check` read of a message that carries an id and no method.
record IsReply (id msg : Value) : Type 0 where
  carries : get (codes "id") msg ≡ some id
  silent : get (codes "method") msg ≡ none

reply-IsReply : (id result : Value) → IsReply id (reply id result)
unfolding reply lookup str_eq insert
reply-IsReply id result = record { carries = refl; silent = refl }

reply_error-IsReply : (id : Value) (code : ℤ) (m : Str) → IsReply id (reply_error id code m)
unfolding reply_error lookup str_eq insert
reply_error-IsReply id code m = record { carries = refl; silent = refl }

answer-IsReply : (id : Value) (method : Str) → IsReply id (answer id method)
unfolding answer
answer-IsReply id method = elim (Bool-cases (str_eq method ping)) [
  | inl e ↦ rw e (reply-IsReply id _)
  | inr e ↦ rw e (reply_error-IsReply id _ _)
]

answer_with-IsReply :
    (id : Value) (method : Str) (params : Value) (r : Option Responder)
    → IsReply id (answer_with id method params r)
unfolding answer_with
answer_with-IsReply id method params none = answer-IsReply id method
answer_with-IsReply id method params (some serve) = elim (Bool-cases (str_eq method ping)) [
  | inl e ↦ rw e (answer-IsReply id method)
  | inr e ↦ rw e (elim (Option-cases (serve method params)) [
    | inl s ↦ rw s (answer-IsReply id method)
    | inr (v, s) ↦ rw s (reply-IsReply id v)
  ])
]

classify_of_IsReply :
    (id msg : Value) → id ≢ null → IsReply id msg → classify msg (some id) ≡ response
unfolding classify
classify_of_IsReply null msg h r = absurd (h refl)
classify_of_IsReply (bool b) msg h r =
    rw (r.carries, r.silent) (ground (arith, value_eq_iff (bool b) (bool b)))
classify_of_IsReply (num b) msg h r =
    rw (r.carries, r.silent) (ground (arith, value_eq_iff (num b) (num b)))
classify_of_IsReply (str b) msg h r =
    rw (r.carries, r.silent) (ground (arith, value_eq_iff (str b) (str b)))
classify_of_IsReply (arr b) msg h r =
    rw (r.carries, r.silent) (ground (arith, value_eq_iff (arr b) (arr b)))
classify_of_IsReply (obj b) msg h r =
    rw (r.carries, r.silent) (ground (arith, value_eq_iff (obj b) (obj b)))

-- Whatever the server asked and whatever serves it, the reply the client sends is one that a peer
-- waiting on the request's id takes for its answer.
pub classify-answer_with :
    (id : Value) (method : Str) (params : Value) (r : Option Responder)
    → id ≢ null
    → classify (answer_with id method params r) (some id) ≡ response
classify-answer_with id method params r h =
    classify_of_IsReply id _ h (answer_with-IsReply id method params r)

-- What the installed responder, if any, makes of a request.
abbrev pub served : Option Responder → Str → Value → Option Value
served none method params = none
served (some serve) method params = serve method params

check-reply_error :
    (id : Value) (m : Str)
    → check (some (reply_error id method_not_found m)) ≡ err (rpc method_not_found m none)
unfolding check reply_error lookup str_eq insert
check-reply_error id m = refl

check-reply : (id v : Value) → check (some (reply id v)) ≡ ok (some (reply id v))
unfolding check reply lookup str_eq insert
check-reply id v = refl

IsRefusal : Str → Value → Type 0
IsRefusal method msg = check (some msg) ≡ err (rpc method_not_found (refusal method) none)

reply-not-IsRefusal : (id v : Value) (method : Str) → ¬ IsRefusal method (reply id v)
unfolding IsRefusal
reply-not-IsRefusal id v method h = cc (h, check-reply id v)

answer-IsRefusal_iff :
    (id : Value) (method : Str) → IsRefusal method (answer id method) ↔ (method ≢ ping)
unfolding answer
answer-IsRefusal_iff id method = elim (Bool-cases (str_eq method ping)) [
  | inl e ↦ rw e (
    λ h. absurd (reply-not-IsRefusal id _ method h),
    λ h. absurd (h ((str_eq_iff method ping).0 e)),
  )
  | inr e ↦ rw e (
    λ h p. cc (e, (str_eq_iff method ping).1 p),
    λ h. unfold IsRefusal in check-reply_error id (refusal method),
  )
]

-- The client refuses with "method not found" exactly the requests that are no `ping` and that no
-- installed responder serves; a `ping` is answered whatever is installed.
pub answer_with-refused_iff :
    (id : Value) (method : Str) (params : Value) (r : Option Responder)
    → (check (some (answer_with id method params r))
        ≡ err (rpc method_not_found (refusal method) none))
      ↔ ((method ≢ ping) × (served r method params ≡ none))
unfolding answer_with IsRefusal
answer_with-refused_iff id method params none =
    let (to, from) = answer-IsRefusal_iff id method in (λ h. (to h, refl), λ h. from h.0)
answer_with-refused_iff id method params (some serve) =
    let (to, from) = answer-IsRefusal_iff id method in
    elim (Bool-cases (str_eq method ping)) [
      | inl e ↦ rw e (
        λ h. absurd (to h ((str_eq_iff method ping).0 e)),
        λ h. absurd (h.0 ((str_eq_iff method ping).0 e)),
      )
      | inr e ↦ rw e (elim (Option-cases (serve method params)) [
        | inl s ↦ rw s (λ h. (to h, refl), λ h. from h.0)
        | inr (v, s) ↦
            rw s (λ h. absurd (reply-not-IsRefusal id v method h), λ h. absurd (cc (h.1)))
      ])
    ]

-- What a peer reads off the messages the client opens with: a request is a request under the
-- client's own id and method, and a notification is one, whatever the peer itself is waiting for.
pub classify-request :
    (method : Str) (id : ℕ) (params : Option Value) (awaiting : Option Value)
    → (classify (request method id params) awaiting ≡ server_request (num (int (pos id))) method)
      × (classify (notify method params) awaiting ≡ notification method)
unfolding classify request notify lookup str_eq insert
classify-request method id none awaiting = (refl, refl)
classify-request method id (some p) awaiting = (refl, refl)
