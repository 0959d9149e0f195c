-- ===== src/Transport/Http/Attempt.antt =====
-- src/transport/http.rs, `attempt` and `send_watching`.
use mcpdial.Base.{
  ℕ, Bool, true, false, not, ◌&&◌, Option, none, some, List, [], ◌++◌, Str, codes, if◌then◌else◌,
  is_some, unwrap_or,
}
use mcpdial.Json.{Value}
use mcpdial.Protocol.Errors.{Error, http, transport, redirected, legacy_sse, Result, ok, err}
use mcpdial.Protocol.Sse.{decode_body}
use mcpdial.Transport.Retry.{Failure, status, final, delay, is_idempotent, note_tools, retry_after}
use mcpdial.Transport.Http.{
  Response, Posted, unsent, replied, HttpTransport, Attempted, answered, failed, is_success,
  is_redirect, streaming, failed_like_a_legacy_endpoint, unsent_failure, broken, concat, method_is,
}
use mcpdial.Transport.Http.Stream.{found, ended, broke, read_stream}

-- The transport after an attempt, what `watch` saw, and what the attempt came to.
pub record Outcome : Type 0 where
  pub after : HttpTransport
  pub watched : List Value
  pub result : Attempted

-- The transport once a success has come: it spoke streamable HTTP, and a session it named is kept.
abbrev pub opened : HttpTransport → Response → HttpTransport
opened t r = elim r.session_id [
  | none ↦ record t { spoke_streamable_http = true }
  | some sid ↦ record t { spoke_streamable_http = true; session_id = some sid }
]

-- `tools/list` pages teach which tools are idempotent.
abbrev pub learned : HttpTransport → Value → Option Value → HttpTransport
learned t payload none = t
learned t payload (some page) =
    if method_is payload (codes "tools/list")
    then record t { idempotent_tools = note_tools t.idempotent_tools page }
    else t

-- What the decoded body makes of a success.
abbrev pub decoded :
    HttpTransport → Value → Response → Result (Option Value) → HttpTransport × Attempted
decoded t payload r (ok reply) = (learned (opened t r) payload reply, answered reply)
decoded t payload r (err e) = (opened t r, failed e final)

-- What an exchange comes to: the transport after it, how many POSTs went out, how long it slept
-- between them, what `watch` saw, and the result.
pub record Exchange : Type 0 where
  pub after : HttpTransport
  pub posts : ℕ
  pub slept : Option ℕ
  pub watched : List Value
  pub result : Result (Option Value)

abbrev pub final_result : Attempted → Result (Option Value)
final_result (answered reply) = ok reply
final_result (failed e f) = err e

-- The delay before the one retry, if there is to be one: none under a bounded wait.
unfoldable pub retry_delay_of : HttpTransport → HttpTransport → Value → Failure → Option ℕ
retry_delay_of before t payload f =
    if is_some t.wait
    then none
    else delay t.retry (is_idempotent payload before.idempotent_tools) (is_some t.session_id) f

module _ (from_str : Str → Option Value) (probe : Bool) where
  -- The text of the reply and the answer found in it on the way, or an I/O error.
  unfoldable pub read_reply : Response → Option (Str × Option Value) × List Value
  read_reply r =
      let streamed : Option (Str × Option Value) × List Value =
        let (end, seen) = read_stream from_str (λ _. false) r.body in
        (
          elim end [
            | found msg ↦ some (concat r.body.chunks, some msg)
            | ended ↦ some (concat r.body.chunks, none)
            | broke ↦ none
          ],
          seen,
        ) in
      let whole : Option (Str × Option Value) × List Value =
        (if r.body.breaks then none else some (concat r.body.chunks, none), []) in
      if streaming r.code (unwrap_or [] r.content_type) then streamed else whole

  -- A status that is neither a success nor a redirect.
  unfoldable pub refused : HttpTransport → Value → Response → Str → Attempted
  refused t payload r text =
      if not t.spoke_streamable_http
        && not (method_is payload (codes "server/discover"))
        && failed_like_a_legacy_endpoint r.code r.www_authenticate
        && probe
      then failed (transport legacy_sse) final
      else failed (http r.code text r.www_authenticate) (status r.code (retry_after r.retry_after))

  unfoldable pub accepted :
      HttpTransport → Value → Response → Str → Option Value → HttpTransport × Attempted
  accepted t payload r text (some msg) =
      (learned (opened t r) payload (some msg), answered (some msg))
  accepted t payload r text none =
      decoded t payload r (decode_body from_str text (unwrap_or [] r.content_type))

  unfoldable pub settle :
      HttpTransport → Value → Response → Str → Option Value → HttpTransport × Attempted
  settle t payload r text streamed =
      if is_redirect r.code
      then (t, failed (transport (redirected r.code r.location)) final)
      else if not (is_success r.code)
      then (t, refused t payload r text)
      else accepted t payload r text streamed

  -- With the body read, or broken off.
  unfoldable pub finish :
      HttpTransport → Value → Response → List Value → Option (Str × Option Value) → Outcome
  finish t payload r seen none = record { after = t; watched = seen; result = broken r }
  finish t payload r seen (some (text, streamed)) =
      let (after, result) = settle t payload r text streamed in
      record { after = after; watched = seen; result = result }

  unfoldable pub attempt : HttpTransport → Value → Posted → Outcome
  attempt t payload (unsent e) = record { after = t; watched = []; result = unsent_failure e }
  attempt t payload (replied r) = let (body, seen) = read_reply r in finish t payload r seen body

  -- The second attempt, if there is a delay to wait for it.
  unfoldable pub retried : Value → Posted → Outcome → Error → Option ℕ → Exchange
  retried payload second one e none = record {
    after = one.after;
    posts = 1;
    slept = none;
    watched = one.watched;
    result = err e;
  }
  retried payload second one e (some pause) =
      let two = attempt one.after payload second in
      record {
        after = two.after;
        posts = 2;
        slept = some pause;
        watched = one.watched ++ two.watched;
        result = final_result two.result;
      }

  unfoldable pub conclude : HttpTransport → Value → Posted → Outcome → Attempted → Exchange
  conclude t payload second one (answered reply) = record {
    after = one.after;
    posts = 1;
    slept = none;
    watched = one.watched;
    result = ok reply;
  }
  conclude t payload second one (failed e f) =
      retried payload second one e (retry_delay_of t one.after payload f)

  -- `send_watching`: `first` and `second` are what the POSTs come to, the second if it is made.
  unfoldable pub send_watching : HttpTransport → Value → Posted → Posted → Exchange
  unfolding conclude retried
  send_watching t payload first second =
      let one = attempt t payload first in conclude t payload second one one.result
