-- ===== src/Transport/Http/Once.antt =====
-- How often a request is delivered.
use mcpdial.Base.{
  ℕ, Bool, true, ◌≡◌, ◌≢◌, ◌↔◌, ◌⊎◌, inl, inr, refl, subst, Option, none, some, List, [], Str,
  arith, Bool-cases, Option-cases, is_some, unwrap_or,
}
use mcpdial.Json.{Value}
use mcpdial.Protocol.Errors.{Error, Result, ok, err}
use mcpdial.Protocol.Sse.{decode_body}
use mcpdial.Transport.Retry.{Failure, final, worth_retrying, delay, is_idempotent}
use mcpdial.Transport.Retry.Delay.{IsSafe, delay-ne-none_iff}
use mcpdial.Transport.Http.{
  Response, Posted, unsent, replied, HttpTransport, Attempted, answered, failed, is_redirect,
  is_success,
}
use mcpdial.Transport.Http.Attempt.{
  Outcome, accepted, settle, retried, conclude, finish, attempt, decoded, Exchange, final_result,
  retry_delay_of, send_watching,
}

-- A failure that is not final has left the transport as it was.
abbrev Kept : HttpTransport → HttpTransport → Attempted → Type 0
Kept t after (answered reply) = Unit
Kept t after (failed e f) = (f ≡ final) ⊎ (after ≡ t)

Kept-same : (t : HttpTransport) (a : Attempted) → Kept t t a
Kept-same t (answered reply) = tt
Kept-same t (failed e f) = inr refl

decoded-Kept :
    (t : HttpTransport) (p : Value) (r : Response) (d : Result (Option Value))
    → Kept t (decoded t p r d).0 (decoded t p r d).1
decoded-Kept t p r (ok reply) = tt
decoded-Kept t p r (err e) = inl refl

failed-injective : {e e' : Error} {f f' : Failure} → failed e f ≡ failed e' f' → f' ≡ f
failed-injective h = cc

module _ (from_str : Str → Option Value) (probe : Bool) where
  accepted-Kept :
      (t : HttpTransport) (p : Value) (r : Response) (text : Str) (s : Option Value)
      → Kept t (accepted from_str probe t p r text s).0 (accepted from_str probe t p r text s).1
  unfolding accepted
  accepted-Kept t p r text (some msg) = tt
  accepted-Kept t p r text none =
      decoded-Kept t p r (decode_body from_str text (unwrap_or [] r.content_type))

  settle-Kept :
      (t : HttpTransport) (p : Value) (r : Response) (text : Str) (streamed : Option Value)
      → Kept t
          (settle from_str probe t p r text streamed).0
          (settle from_str probe t p r text streamed).1
  unfolding settle
  settle-Kept t p r text streamed = elim (Bool-cases (is_redirect r.code)) [
    | inl e ↦ rw e (inl refl)
    | inr e ↦ elim (Bool-cases (is_success r.code)) [
      | inl s ↦ rw (e, s) (accepted-Kept t p r text streamed)
      | inr s ↦ rw (e, s) (Kept-same t _)
    ]
  ]

  finish-Kept :
      (t : HttpTransport) (p : Value) (r : Response) (seen : List Value)
      (body : Option (Str × Option Value))
      → Kept t
          (finish from_str probe t p r seen body).after
          (finish from_str probe t p r seen body).result
  unfolding finish
  finish-Kept t p r seen none = inr refl
  finish-Kept t p r seen (some (text, streamed)) = settle-Kept t p r text streamed

  attempt-Kept :
      (t : HttpTransport) (p : Value) (first : Posted)
      → Kept t (attempt from_str probe t p first).after (attempt from_str probe t p first).result
  unfolding attempt
  attempt-Kept t p (unsent e) = inr refl
  attempt-Kept t p (replied r) = finish-Kept t p r _ _

  -- The failure, if any, of the first POST of an exchange.
  abbrev pub FailsWith : HttpTransport → Value → Posted → Error → Failure → Type 0
  FailsWith t p first e f = (attempt from_str probe t p first).result ≡ failed e f

  retry_same :
      (t : HttpTransport) (p : Value) (f : Failure)
      → (retry_delay_of t t p f ≢ none) ↔ (
          (t.wait ≡ none)
          × (t.retry.enabled ≡ true)
          × IsSafe (is_idempotent p t.idempotent_tools) (is_some t.session_id) f)
  unfolding retry_delay_of
  retry_same t p f = elim (Option-cases t.wait) [
    | inl w ↦
        let (to, from) =
          delay-ne-none_iff t.retry (is_idempotent p t.idempotent_tools) (is_some t.session_id) f in
        (
          λ h. let (on, safe) = to (rw (w, retry_delay_of) at h) in (w, on, safe),
          λ h. rw (w, retry_delay_of) (from (h.1, h.2)),
        )
    | inr (n, w) ↦ (λ h. absurd (h (rw (w, retry_delay_of) refl)), λ h. absurd (ground arith))
  ]

  retry_final : (t after : HttpTransport) (p : Value) → retry_delay_of t after p final ≡ none
  unfolding retry_delay_of delay worth_retrying
  retry_final t after p = ground arith

  retry_iff :
      (t after : HttpTransport) (p : Value) (f : Failure)
      → (f ≡ final) ⊎ (after ≡ t)
      → (retry_delay_of t after p f ≢ none) ↔ (
          (t.wait ≡ none)
          × (t.retry.enabled ≡ true)
          × IsSafe (is_idempotent p t.idempotent_tools) (is_some t.session_id) f)
  retry_iff t after p f (inl e) = rw e (λ h. absurd (h (retry_final t after p)), λ h. absurd h.2)
  retry_iff t after p f (inr e) = rw e (retry_same t p f)

  retried-posts :
      (p : Value) (second : Posted) (one : Outcome) (e : Error) (d : Option ℕ)
      → ((retried from_str probe p second one e d).posts ≡ 2) ↔ (d ≢ none)
  unfolding retried
  retried-posts p second one e none = (λ h. absurd (omega arith), λ h. absurd (h refl))
  retried-posts p second one e (some pause) = (λ h. cc, λ h. refl)

  -- The first attempt failed in a way that is safe to repeat, retrying is on and no bounded wait
  -- is set.
  abbrev pub MayRepeat : HttpTransport → Value → Attempted → Type 0
  MayRepeat t p r =
      (e : Error) × (f : Failure) × (r ≡ failed e f)
      × (t.wait ≡ none)
      × (t.retry.enabled ≡ true)
      × IsSafe (is_idempotent p t.idempotent_tools) (is_some t.session_id) f

  conclude-twice_iff :
      (t : HttpTransport) (p : Value) (second : Posted) (one : Outcome) (r : Attempted)
      → Kept t one.after r
      → ((conclude from_str probe t p second one r).posts ≡ 2) ↔ MayRepeat t p r
  unfolding conclude
  conclude-twice_iff t p second one (answered reply) kept =
      (λ h. absurd (omega arith), λ h. absurd (cc (h.2)))
  conclude-twice_iff t p second one (failed e f) kept =
      let (to, from) = retry_iff t one.after p f kept in
      let (posted, repeated) = retried-posts p second one e (retry_delay_of t one.after p f) in
      (
        λ h. let (w, on, safe) = to (posted h) in (e, f, refl, w, on, safe),
        λ h. repeated (
            from (
              h.3,
              h.4,
              subst (λ x. IsSafe (is_idempotent p t.idempotent_tools) (is_some t.session_id) x)
                  (failed-injective h.2) h.5,
            )),
      )

  -- A second POST goes out exactly when the first attempt failed in a way that is safe to repeat,
  -- retrying is on and no bounded wait is set; otherwise there is one POST.
  pub send_watching-twice_iff :
      (t : HttpTransport) (p : Value) (first second : Posted)
      → ((send_watching from_str probe t p first second).posts ≡ 2)
        ↔ MayRepeat t p (attempt from_str probe t p first).result
  unfolding send_watching
  send_watching-twice_iff t p first second =
      conclude-twice_iff t p second (attempt from_str probe t p first) _ (attempt-Kept t p first)

  -- The exchange ends as the second attempt ends, and that was made from the transport `t`.
  abbrev pub EndsAs : HttpTransport → Value → Posted → Exchange → Type 0
  EndsAs t p second x =
      (x.result ≡ final_result (attempt from_str probe t p second).result)
      × (x.after ≡ (attempt from_str probe t p second).after)

  retried-EndsAs :
      (p : Value) (second : Posted) (one : Outcome) (e : Error) (d : Option ℕ)
      → (retried from_str probe p second one e d).posts ≡ 2
      → EndsAs one.after p second (retried from_str probe p second one e d)
  unfolding retried
  retried-EndsAs p second one e none h = absurd (omega arith)
  retried-EndsAs p second one e (some pause) h = (refl, refl)

  conclude-EndsAs :
      (t : HttpTransport) (p : Value) (second : Posted) (one : Outcome) (r : Attempted)
      → Kept t one.after r
      → (conclude from_str probe t p second one r).posts ≡ 2
      → EndsAs t p second (conclude from_str probe t p second one r)
  unfolding conclude
  conclude-EndsAs t p second one (answered reply) kept h = absurd (omega arith)
  conclude-EndsAs t p second one (failed e f) (inl final_one) h =
      let posted = (retried-posts p second one e (retry_delay_of t one.after p f)).0 h in
      absurd (posted (rw final_one (retry_final t one.after p)))
  conclude-EndsAs t p second one (failed e f) (inr same) h =
      subst (λ s. EndsAs s p second (conclude from_str probe t p second one (failed e f))) same
        (retried-EndsAs p second one e (retry_delay_of t one.after p f) h)

  -- The retry is the first attempt over again: it is made from the very transport the first was
  -- made from (no session and no tool was learned in between), and the exchange ends as it ends.
  pub send_watching-retry :
      (t : HttpTransport) (p : Value) (first second : Posted)
      → (send_watching from_str probe t p first second).posts ≡ 2
      → EndsAs t p second (send_watching from_str probe t p first second)
  unfolding send_watching
  send_watching-retry t p first second h =
      conclude-EndsAs t p second (attempt from_str probe t p first) _ (attempt-Kept t p first) h
