-- ===== src/Transport/Framed.antt =====
-- src/transport/stdio.rs, `Framed`: one message for each line over a pair of streams. What the reader
-- thread puts on the channel before the time is up is a list of lines, and an end: the time ran out,
-- or the channel closed. Each entry of `accepts` says whether one write to the peer succeeds; past its
-- end they all do. `forward` is a function of the message, and the calls of it are kept in `heard`;
-- `log` is what the logger is told.
pub mod Exchange
pub mod Poll
use mcpdial.Base.{
  if◌then◌else◌, ℕ, zero, suc, any, codes, ◌-◌, Bool, true, false, Option, none, some, List, [],
  ◌∷◌, ◌++◌, Str, trim, unwrap_or, is_empty, get_elem?,
}
use mcpdial.Json.{Value, null, get, index}
use mcpdial.Protocol.Errors.{Error, transport, no_reply, Result, ok, err}
use mcpdial.Protocol.Incoming.{Incoming, response, server_request, notification, foreign, classify}
use mcpdial.Protocol.Messages.{Responder, answer_with}

abbrev pub most_lines_per_poll : ℕ
most_lines_per_poll = 4096

pub data Kind : Type 0 where
  reply server_asked other : Kind

-- `TraceEvent`, as far as this part logs.
pub data Trace : Type 0 where
  sent : Value → Trace
  received : Value → Kind → Trace
  not_json : Str → Trace

pub data Ended : Type 0 where
  timed_out disconnected : Ended

pub data Taken : Type 0 where
  nothing : Taken
  answered : Value → Taken
  broken : Taken

-- `accepts` is of the writer, and nothing once it is closed; `written` is what the peer was sent.
pub record Framed : Type 0 where
  pub accepts : Option (List Bool)
  pub written : List Value
  pub timeout : ℕ
  pub wait : Option ℕ
  pub responder : Option Responder
  pub heard : List Value
  pub log : List Trace

abbrev pub answer_requests : Framed → Responder → Framed
answer_requests f responder = record f { responder = some responder }

-- `wait_at_most`: the state after, and the wait there was.
abbrev pub wait_at_most : Framed → Option ℕ → Framed × Option ℕ
wait_at_most f within = (record f { wait = within }, f.wait)

abbrev pub patience : Framed → ℕ
patience f = unwrap_or f.timeout f.wait

abbrev pub close_writer : Framed → Framed
close_writer f = record f { accepts = none }

abbrev pub note : Framed → Trace → Framed
note f t = record f { log = f.log ++ t ∷ [] }

-- `write_line`: the state after, and whether the line was written.
abbrev pub write_with : Framed → Option (List Bool) → Value → Framed × Bool
write_with f none message = (f, false)
write_with f (some []) message = (record f { written = f.written ++ message ∷ [] }, true)
write_with f (some (true ∷ rest)) message =
    (record f { accepts = some rest; written = f.written ++ message ∷ [] }, true)
write_with f (some (false ∷ rest)) message = (record f { accepts = some rest }, false)

unfoldable pub write_line : Framed → Value → Framed × Bool
write_line f message = write_with f f.accepts message

-- The exchange goes on after a reply that was written, and is broken by one that was not.
abbrev pub after_write : Framed × Bool → Framed × Taken
after_write (f, true) = (f, nothing)
after_write (f, false) = (f, broken)

abbrev pub hear : Framed → Value → Framed
hear f msg = record f { heard = f.heard ++ msg ∷ [] }

-- The reply to what the peer asked: from elsewhere, or the client's own.
abbrev pub reply_to : Option Responder → Value → Value → Str → Option Value → Value
reply_to responder msg theirs method (some from_elsewhere) = from_elsewhere
reply_to responder msg theirs method none =
    answer_with theirs method (index msg (codes "params")) responder

-- `take`, once the line is a message and the message is sorted.
unfoldable pub take_message : Framed → (Value → Option Value) → Value → Incoming → Framed × Taken
take_message f forward msg response = (note f (received msg reply), answered msg)
take_message f forward msg (server_request theirs method) =
    let said = reply_to f.responder msg theirs method (forward msg) in
    let told = note (hear (note f (received msg server_asked)) msg) (sent said) in
    after_write (write_line told said)
take_message f forward msg (notification method) = (hear (note f (received msg other)) msg, nothing)
take_message f forward msg foreign = (note f (received msg other), nothing)

module _ (from_str : Str → Option Value) where
  abbrev pub take_parsed :
      Framed → (Value → Option Value) → Str → Option Value → Option Value → Framed × Taken
  take_parsed f forward line awaiting none = (note f (not_json line), nothing)
  take_parsed f forward line awaiting (some msg) =
      take_message f forward msg (classify msg awaiting)

  unfoldable pub take : Framed → Str → Option Value → (Value → Option Value) → Framed × Taken
  take f received_line awaiting forward =
      let line = trim received_line in
      if is_empty line then (f, nothing) else take_parsed f forward line awaiting (from_str line)

  -- What an exchange comes to: the state after, the result, and the lines not read yet.
  abbrev pub Outcome : Type 0
  Outcome = Framed × Result (Option Value) × List Str

  module _ (gone : Error) where
    -- The loop of `exchange`.
    abbrev pub ended_exchange : Framed → ℕ → Ended → Outcome
    ended_exchange f patience timed_out = (f, err (transport (no_reply patience)), [])
    ended_exchange f patience disconnected = (f, err gone, [])

    abbrev pub settle : Framed × Taken → Outcome → List Str → Outcome
    settle (f, answered msg) onward unread = (f, ok (some msg), unread)
    settle (f, broken) onward unread = (f, err gone, unread)
    settle (f, nothing) onward unread = onward

    unfoldable pub wait_for_reply :
        Framed → Value → ℕ → (Value → Option Value) → List Str → Ended → Outcome
    wait_for_reply f id patience forward [] ended = ended_exchange f patience ended
    wait_for_reply f id patience forward (line ∷ lines) ended =
        let next = take f line (some id) forward in
        settle next (wait_for_reply next.0 id patience forward lines ended) lines

    -- The id of a request; a notification and a reply of ours have none that is waited for.
    abbrev pub awaited : Option Value → Option Value → Option Value
    awaited (some id) (some method) = some id
    awaited _ _ = none

    abbrev pub after_sending :
        Framed × Bool → Option Value → (Value → Option Value) → List Str → Ended → Outcome
    after_sending (f, false) id forward lines ended = (f, err gone, lines)
    after_sending (f, true) none forward lines ended = (f, ok none, lines)
    after_sending (f, true) (some id) forward lines ended =
        wait_for_reply f id (patience f) forward lines ended

    unfoldable pub exchange : Framed → Value → (Value → Option Value) → List Str → Ended → Outcome
    exchange f payload forward lines ended =
        after_sending (write_line (note f (sent payload)) payload)
          (awaited (get (codes "id") payload) (get (codes "method") payload)) forward lines ended

    -- The loop of `listen`; `watch` says whether enough was heard.
    abbrev pub silent : Value → Option Value
    silent msg = none

    abbrev pub ended_listening : Framed → Ended → Outcome
    ended_listening f timed_out = (f, ok none, [])
    ended_listening f disconnected = (f, err gone, [])

    -- Whether `watch`, called on what this line added to what was heard, asked to stop.
    abbrev pub added : List Value → List Value → List Value
    added [] now = now
    added (v ∷ before) [] = []
    added (v ∷ before) (w ∷ now) = added before now

    abbrev pub settle_listening : Framed × Taken → Bool → Outcome → List Str → Outcome
    settle_listening (f, answered msg) enough onward unread = (f, ok (some msg), unread)
    settle_listening (f, broken) enough onward unread = (f, err gone, unread)
    settle_listening (f, nothing) true onward unread = (f, ok none, unread)
    settle_listening (f, nothing) false onward unread = onward

    unfoldable pub wait_listening : Framed → Value → (Value → Bool) → List Str → Ended → Outcome
    wait_listening f id watch [] ended = ended_listening f ended
    wait_listening f id watch (line ∷ lines) ended =
        let next = take f line (some id) silent in
        settle_listening next (any watch (added f.heard next.0.heard))
          (wait_listening next.0 id watch lines ended) lines

    abbrev pub after_opening : Framed × Bool → Value → (Value → Bool) → List Str → Ended → Outcome
    after_opening (f, false) id watch lines ended = (f, err gone, lines)
    after_opening (f, true) id watch lines ended = wait_listening f id watch lines ended

    unfoldable pub listen : Framed → Value → (Value → Bool) → List Str → Ended → Outcome
    listen f payload watch lines ended =
        after_opening (write_line (note f (sent payload)) payload) (index payload (codes "id"))
          watch lines ended

  -- The loop of `poll`, over the lines already received, and the lines left.
  abbrev pub settle_poll : Framed × Taken → Framed × List Str → List Str → Framed × List Str
  settle_poll (f, broken) onward unread = (f, unread)
  settle_poll (f, answered msg) onward unread = onward
  settle_poll (f, nothing) onward unread = onward

  unfoldable pub poll_lines : ℕ → Framed → List Str → Framed × List Str
  poll_lines zero f lines = (f, lines)
  poll_lines (suc n) f [] = (f, [])
  poll_lines (suc n) f (line ∷ lines) =
      let next = take f line none (λ msg. none) in
      settle_poll next (poll_lines n next.0 lines) lines

  unfoldable pub poll : Framed → List Str → Framed × List Str
  poll f lines = poll_lines most_lines_per_poll f lines
