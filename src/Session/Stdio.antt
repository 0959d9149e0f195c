-- ===== src/Session/Stdio.antt =====
-- src/transport/stdio.rs, `impl Transport for StdioTransport`: the framed exchange as the transport of a
-- session. Its state is the framed stream and the lines that the server has still to send; `ended` is how
-- they end, and `gone` what is said of a server that is gone. A watcher replies to nothing.
use mcpdial.Base.{
  ℕ, ◌+◌, Bool, Option, none, some, List, [], Str, codes, ◌≡◌, refl, ap, ◌∙◌, pos, str_eq, str_lt,
}
use mcpdial.Json.{Value, num, str, int, get, insert, lookup}
use mcpdial.Protocol.Errors.{Error, Result, ok, ◌>>=◌}
use mcpdial.Protocol.Incoming.{check}
use mcpdial.Protocol.Messages.{request}
use mcpdial.Transport.Framed.{Framed, Ended, exchange, patience}
use mcpdial.Transport.Framed.Exchange.{ends_as, first_reply, exchange-IsSettled}
use mcpdial.Session.{Transport, Session, received, result_of, send, with_meta, with_token}

abbrev pub unanswered : Value → Option Value
unanswered msg = none

module _ (from_str : Str → Option Value) (gone : Error) (ended : Ended) where
  abbrev pub Stream : Type 0
  Stream = Framed × List Str

  abbrev pub left_over : Framed × Result (Option Value) × List Str → Stream × Result (Option Value)
  left_over (f, result, unread) = ((f, unread), result)

  unfoldable pub send_on : Stream → Value → Stream × Result (Option Value)
  send_on (f, lines) payload = left_over (exchange from_str gone f payload unanswered lines ended)

  abbrev pub stdio : Transport Stream
  stdio = record { send_watching = send_on; send_one = send_on; negotiated = λ s v. s }

  -- What a request of a session comes to.
  abbrev pub finish : Result (Option Value) → Result Value
  finish reply = reply >>= check >>= λ msg. ok (result_of msg)

  received-left_over :
      (s : Session Stream) (o : Framed × Result (Option Value) × List Str)
      → ((received s (left_over o)).1 ≡ finish o.1) × ((received s (left_over o)).0.carrier.1 ≡ o.2)
  received-left_over s (f, result, unread) = (refl, refl)

  request-get :
      (method : Str) (id : ℕ) (params : Option Value)
      → (get (codes "id") (request method id params) ≡ some (num (int (pos id))))
        × (get (codes "method") (request method id params) ≡ some (str method))
  unfolding request insert lookup str_eq str_lt
  request-get method id none = (refl, refl)
  request-get method id (some p) = (refl, refl)

  -- How the exchange of the session's next request ends: by the first line that is the reply under the
  -- request's own id, or as the lines end.
  abbrev pub reply_end : Session Stream → Framed → List Str → Result (Option Value) × List Str
  reply_end s f lines =
      let id = num (int (pos (s.next_id + 1))) in
      ends_as from_str unanswered id gone (patience f) ended
        (first_reply from_str unanswered id lines)

  -- A request of a session over stdio, while the server reads all that it is sent: its result is that of
  -- the first line that is the reply under the request's own id, an error reply raised as one, whatever
  -- other lines come before; the lines behind it are left for what is asked next.
  pub send-stdio :
      (s : Session Stream) (f : Framed) (lines : List Str) (method : Str) (params : Option Value)
      (progress : Bool)
      → f.accepts ≡ some []
      → ((send stdio (record s { carrier = (f, lines) }) method params progress).1
          ≡ finish (reply_end s f lines).0)
        × ((send stdio (record s { carrier = (f, lines) }) method params progress).0.carrier.1
            ≡ (reply_end s f lines).1)
  unfolding send send_on
  send-stdio s f lines method params progress h =
      let id = s.next_id + 1 in
      let asked = with_meta (record s { carrier = (f, lines) }) (with_token progress params id) in
      let payload = request method id asked in
      let (has_id, has_method) = request-get method id asked in
      let o = exchange from_str gone f payload unanswered lines ended in
      let settled =
        exchange-IsSettled from_str unanswered (num (int (pos id))) gone f payload (str method)
          lines ended h has_id has_method in
      let (result, unread) =
        received-left_over (record s { carrier = (f, lines); next_id = id }) o in
      (
        result ∙ ap (λ (e : Result (Option Value) × List Str). finish e.0) settled.result,
        unread ∙ ap (λ (e : Result (Option Value) × List Str). e.1) settled.result,
      )
