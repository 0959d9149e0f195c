-- ===== src/Protocol/Sse/Answers.antt =====
-- Which answer is read out of an event stream, and when there is none.
use mcpdial.Base.{
  Bool, true, false, ◌≡◌, ◌≢◌, ◌↔◌, ◌⊎◌, inl, inr, refl, Option, none, some, List, [], ◌∷◌, ◌++◌,
  Str, arith, All, Option-cases, Bool-cases,
}
use mcpdial.Json.{Value}
use mcpdial.Protocol.Errors.{ok}
use mcpdial.Protocol.Incoming.{Incoming, response, classify}
use mcpdial.Protocol.Sse.{is_response, sse_events, decode_events, decode_sse}
use mcpdial.Protocol.Sse.Events.{IsPayload, write_events, sse_events-write_events}

module _ (from_str : Str → Option Value) where
  abbrev pub IsAnswer : Str → Value → Type 0
  IsAnswer e msg = (from_str e ≡ some msg) × (classify msg none ≡ response)

  -- The server talking to us: JSON, and no answer.
  abbrev pub IsChatter : Str → Type 0
  IsChatter e = (m : Value) × (from_str e ≡ some m) × (classify m none ≢ response)

  -- What is stepped over: chatter, or no JSON at all.
  abbrev pub IsPassed : Str → Type 0
  IsPassed e = (from_str e ≡ none) ⊎ IsChatter e

  -- The first answer among the events, everything in front of it stepped over.
  abbrev pub FirstAnswer : List Str → Value → Type 0
  FirstAnswer [] msg = ⊥
  FirstAnswer (e ∷ es) msg = IsAnswer e msg ⊎ (IsPassed e × FirstAnswer es msg)

  is_response_iff : (i : Incoming) → (is_response i ≡ true) ↔ (i ≡ response)
  is_response_iff i = ground arith

  answered :
      (e : Str) (es : List Str) (b : Bool) (msg m : Value)
      → from_str e ≡ some m
      → is_response (classify m none) ≡ true
      → decode_events from_str (e ∷ es) b ≡ ok (some msg)
      → IsAnswer e msg
  unfolding decode_events
  answered e es b msg m s y h = ground (arith, is_response_iff (classify m none))

  decode_events_sound :
      (es : List Str) (b : Bool) (msg : Value)
      → decode_events from_str es b ≡ ok (some msg)
      → FirstAnswer es msg
  unfolding decode_events
  decode_events_sound [] b msg h = ground arith
  decode_events_sound (e ∷ es) b msg h = elim (Option-cases (from_str e)) [
    | inl n ↦ inr (inl n, decode_events_sound es true msg (rw (n, decode_events) at h))
    | inr (m, s) ↦ elim (Bool-cases (is_response (classify m none))) [
      | inl y ↦ inl (answered e es b msg m s y h)
      | inr n ↦ inr (
        inr (m, s, λ c. cc (n, (is_response_iff (classify m none)).1 c)),
        decode_events_sound es b msg (ground arith),
      )
    ]
  ]

  decode_events_complete :
      (es : List Str) (b : Bool) (msg : Value)
      → FirstAnswer es msg
      → decode_events from_str es b ≡ ok (some msg)
  unfolding decode_events
  decode_events_complete [] b msg h = absurd h
  decode_events_complete (e ∷ es) b msg (inl (s, c)) =
      ground (arith, is_response_iff (classify msg none))
  decode_events_complete (e ∷ es) b msg (inr (inl n, later)) =
      rw (n, decode_events) (decode_events_complete es true msg later)
  decode_events_complete (e ∷ es) b msg (inr (inr (m, s, c), later)) =
      ground (arith, is_response_iff (classify m none), decode_events_complete es b msg later)

  -- The body of an event stream yields a message exactly when some event is an answer, and then it
  -- yields the first: whatever stands in front of it, chatter or broken events, is stepped over.
  pub decode_sse-eq-some_iff :
      (body : Str) (msg : Value)
      → (decode_sse from_str body ≡ ok (some msg)) ↔ FirstAnswer (sse_events body) msg
  unfolding decode_sse
  decode_sse-eq-some_iff body msg =
      (decode_events_sound (sse_events body) false msg, decode_events_complete _ false msg)

  decode_events-broken : (es : List Str) → decode_events from_str es true ≢ ok none
  unfolding decode_events
  decode_events-broken [] = cc
  decode_events-broken (e ∷ es) = ground (arith, decode_events-broken es)

  decode_events-All : (es : List Str) → decode_events from_str es false ≡ ok none → All IsChatter es
  unfolding decode_events
  decode_events-All [] h = tt
  decode_events-All (e ∷ es) h = elim (Option-cases (from_str e)) [
    | inl n ↦ absurd (decode_events-broken es (rw (n, decode_events) at h))
    | inr (m, s) ↦ elim (Bool-cases (is_response (classify m none))) [
      | inl y ↦ absurd (ground arith)
      | inr n ↦ (
        (m, s, λ c. cc (n, (is_response_iff (classify m none)).1 c)),
        decode_events-All es (ground arith),
      )
    ]
  ]

  decode_events_of_chatter :
      (es : List Str) → All IsChatter es → decode_events from_str es false ≡ ok none
  unfolding decode_events
  decode_events_of_chatter [] h = refl
  decode_events_of_chatter (e ∷ es) ((m, s, c), hs) =
      ground (arith, is_response_iff (classify m none), decode_events_of_chatter es hs)

  -- No message and no error is the result exactly when every event is JSON and none is an answer.
  pub decode_sse-eq-none_iff :
      (body : Str) → (decode_sse from_str body ≡ ok none) ↔ All IsChatter (sse_events body)
  unfolding decode_sse
  decode_sse-eq-none_iff body =
      (decode_events-All (sse_events body), decode_events_of_chatter (sse_events body))

  FirstAnswer-append :
      (before after : List Str) {e : Str} {msg : Value}
      → All IsPassed before
      → IsAnswer e msg
      → FirstAnswer (before ++ e ∷ after) msg
  FirstAnswer-append [] after h a = inl a
  FirstAnswer-append (b ∷ bs) after (p, h) a = inr (p, FirstAnswer-append bs after h a)

  -- From the server's pen to the client's answer: of payloads written as events, the first answer
  -- is what the client gets, whatever chatter or broken JSON was written in front of it and
  -- whatever comes after it.
  pub decode_sse-write_events :
      (before after : List Str) (e : Str) (msg : Value)
      → All IsPayload (before ++ e ∷ after)
      → All IsPassed before
      → IsAnswer e msg
      → decode_sse from_str (write_events (before ++ e ∷ after)) ≡ ok (some msg)
  decode_sse-write_events before after e msg payloads passed a =
      (decode_sse-eq-some_iff _ msg).1
        (rw (sse_events-write_events _ payloads) (FirstAnswer-append before after passed a))
