-- ===== src/Session.antt =====
-- src/session.rs: a session over a transport, and a request with the rounds of input that a server may
-- ask for. A transport is a record of operations on a state of its own; a watcher is whether it wants
-- to hear of progress, and what it is told is left out.
pub mod Opening
pub mod Pages
pub mod Rounds
pub mod Stdio
use mcpdial.Base.{
  ℕ, zero, suc, ◌+◌, Bool, true, false, Option, none, some, Str, codes, if◌then◌else◌, unwrap_or,
  and_then,
}
use mcpdial.Json.{Value, null, obj, Fields, end, field, insert, get, index, as_str}
use mcpdial.Protocol.Version.{KnownVersion, Era, is_modern, latest, opens_at}
use mcpdial.Protocol.Errors.{
  Error, transport, undeclared_input, unanswered_input, still_asking, Result, ok, err, ok_or, ◌>>=◌,
}
use mcpdial.Protocol.Incoming.{check}
use mcpdial.Protocol.Messages.{Responder, request, notify}
use mcpdial.Protocol.Meta.{
  InputRequired, input_required, with_input_responses, with_client_meta, with_progress_token,
}

abbrev pub max_pages : ℕ
max_pages = 1000

abbrev pub max_input_rounds : ℕ
max_input_rounds = 4

-- What a session uses of the trait `Transport`.
pub record Transport (S : Type 0) : Type 0 where
  pub send_watching : S → Value → S × Result (Option Value)
  pub send_one : S → Value → S × Result (Option Value)
  pub negotiated : S → KnownVersion → S

pub record Answering : Type 0 where
  pub capabilities : Value
  pub respond : Responder

pub record Session (S : Type 0) : Type 0 where
  pub carrier : S
  pub next_id : ℕ
  pub server_info : Value
  pub version : KnownVersion
  pub pinned : Bool
  pub expected : Option Era
  pub capabilities : Value
  pub answering : Option Answering

abbrev pub with_token : Bool → Option Value → ℕ → Option Value
with_token true params id = some (with_progress_token params id)
with_token false params id = params

abbrev pub result_of : Option Value → Value
result_of msg = unwrap_or (obj end) (and_then msg (get (codes "result")))

-- `asked_for_input`.
unfoldable pub asked_for_input : KnownVersion → Value → Option InputRequired
asked_for_input version result = if is_modern version then input_required result else none

-- `answer`.
abbrev pub answer_all : Str → Responder → Fields → Fields → Result Fields
answer_all method respond end answers = ok answers
answer_all method respond (field key asking more) answers =
    let wants = unwrap_or (codes "") (as_str (index asking (codes "method"))) in
    ok_or (respond wants (index asking (codes "params")))
      (transport (unanswered_input method wants))
    >>= λ answer. answer_all method respond more (insert key answer answers)

abbrev pub answer_with : Option Answering → Str → Fields → Result Fields
answer_with none method requests = err (transport (undeclared_input method))
answer_with (some a) method requests = answer_all method a.respond requests end

unfoldable pub answer : Option Answering → Str → Fields → Result Fields
answer answering method end = ok end
answer answering method (field k v more) = answer_with answering method (field k v more)

module _ {S : Type 0} where
  -- `new`, `declaring`, `answering`, `offering` and `expecting`.
  abbrev pub fresh : S → Session S
  fresh carrier = record {
    carrier = carrier;
    next_id = 0;
    server_info = null;
    version = latest;
    pinned = false;
    expected = none;
    capabilities = obj end;
    answering = none;
  }

  abbrev pub declaring : Session S → Value → Session S
  declaring s capabilities = record s { capabilities = capabilities }

  abbrev pub answering_with : Session S → Value → Responder → Session S
  answering_with s capabilities respond = record s {
    answering = some (record { capabilities = capabilities; respond = respond });
  }

  abbrev pub offering : Session S → KnownVersion → Session S
  offering s version = record s { version = version; pinned = true }

  abbrev pub expecting : Session S → Era → Session S
  expecting s era = record s { version = opens_at era; expected = some era }

  abbrev pub declares : Session S → Value
  declares s = elim s.answering [ some a ↦ a.capabilities | none ↦ obj end ]

  -- `?` on a call that leaves a session behind.
  abbrev pub on_ok :
      {A B : Type 0}
      → Session S × Result A
      → (Session S → A → Session S × Result B)
      → Session S × Result B
  on_ok (s, err e) go_on = (s, err e)
  on_ok (s, ok a) go_on = go_on s a

  -- `send`: one request and its result.
  abbrev pub with_meta : Session S → Option Value → Option Value
  with_meta s params =
      if is_modern s.version then some (with_client_meta params s.version (declares s)) else params

  abbrev pub received : Session S → S × Result (Option Value) → Session S × Result Value
  received s (carrier, reply) =
      (record s { carrier = carrier }, reply >>= check >>= λ msg. ok (result_of msg))

  module _ (T : Transport S) where
    unfoldable pub send : Session S → Str → Option Value → Bool → Session S × Result Value
    send s method params progress =
        let id = s.next_id + 1 in
        let sent = request method id (with_meta s (with_token progress params id)) in
        received (record s { next_id = id }) (T.send_watching s.carrier sent)

    -- The rounds of `request_watching`, with the result so far.
    abbrev pub still : Session S → Str → Value → Option InputRequired → Session S × Result Value
    still s method result none = (s, ok result)
    still s method result (some asked) = (s, err (transport (still_asking method max_input_rounds)))

    abbrev pub again :
        Session S
        → Str
        → Option Value
        → Bool
        → Option Str
        → Result Fields
        → (Session S → Value → Session S × Result Value)
        → Session S × Result Value
    again s method params progress state (err e) go_on = (s, err e)
    again s method params progress state (ok answers) go_on =
        on_ok (send s method (some (with_input_responses params answers state)) progress) go_on

    abbrev pub one_round :
        Session S
        → Str
        → Option Value
        → Bool
        → Value
        → Option InputRequired
        → (Session S → Value → Session S × Result Value)
        → Session S × Result Value
    one_round s method params progress result none go_on = (s, ok result)
    one_round s method params progress result (some asked) go_on =
        again s method params progress asked.state (answer s.answering method asked.requests) go_on

    unfoldable pub rounds :
        ℕ → Session S → Str → Option Value → Bool → Value → Session S × Result Value
    rounds zero s method params progress result =
        still s method result (asked_for_input s.version result)
    rounds (suc n) s method params progress result =
        one_round s method params progress result (asked_for_input s.version result)
          (λ t r. rounds n t method params progress r)

    unfoldable pub request_watching :
        Session S → Str → Option Value → Bool → Session S × Result Value
    request_watching s method params progress =
        on_ok (send s method params progress)
          (λ t result. rounds max_input_rounds t method params progress result)

    abbrev pub ask : Session S → Str → Option Value → Session S × Result Value
    ask s method params = request_watching s method params false

    -- `notify`.
    unfoldable pub tell : Session S → Str → Option Value → Session S × Result {0} Unit
    tell s method params =
        let (carrier, reply) = T.send_one s.carrier (notify method params) in
        (record s { carrier = carrier }, reply >>= λ r. ok tt)
