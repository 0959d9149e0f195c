-- ===== src/Transport/Framed/Exchange.antt =====
-- Which line an exchange takes for its reply, and what it sends while it waits.
use mcpdial.Base.{
  ℕ, Option, none, some, List, [], ◌∷◌, ◌++◌, Str, codes, trim, is_empty, if◌then◌else◌, ◌≡◌, refl,
  sym, ap, ◌∙◌, inl, inr, Bool-cases, append-nil, append_assoc,
}
use mcpdial.Json.{Value, get}
use mcpdial.Protocol.Errors.{Error, transport, no_reply, Result, ok, err}
use mcpdial.Protocol.Incoming.{Incoming, response, server_request, notification, foreign, classify}
use mcpdial.Protocol.Messages.{Responder}
use mcpdial.Transport.Framed.{
  write_with, Framed, Taken, nothing, answered, Ended, timed_out, disconnected, sent, patience,
  note, write_line, reply_to, take_message, take_parsed, take, settle, wait_for_reply, exchange,
}

module _ (from_str : Str → Option Value) (forward : Value → Option Value) (id : Value) where
  -- The message that a line holds.
  abbrev pub parsed : Str → Option Value
  parsed line = if is_empty (trim line) then none else from_str (trim line)

  abbrev pub reply_in : Value → Incoming → Option Value
  reply_in msg response = some msg
  reply_in msg _ = none

  abbrev pub reply_of : Option Value → Option Value
  reply_of none = none
  reply_of (some msg) = reply_in msg (classify msg (some id))

  -- The first line that is the reply, and the lines behind it.
  abbrev pub pick : Option Value → List Str → Option (Value × List Str) → Option (Value × List Str)
  pick (some msg) unread later = some (msg, unread)
  pick none unread later = later

  abbrev pub first_reply : List Str → Option (Value × List Str)
  first_reply [] = none
  first_reply (line ∷ lines) = pick (reply_of (parsed line)) lines (first_reply lines)

  -- What the peer is owed for a message: a reply, if it is a request.
  abbrev pub owed_in : Option Responder → Value → Incoming → List Value
  owed_in responder msg (server_request theirs method) =
      reply_to responder msg theirs method (forward msg) ∷ []
  owed_in responder msg _ = []

  abbrev pub owed_for : Option Responder → Option Value → List Value
  owed_for responder none = []
  owed_for responder (some msg) = owed_in responder msg (classify msg (some id))

  -- What the peer is owed for all its lines up to the reply.
  abbrev pub unless_reply : Option Value → List Value → List Value
  unless_reply (some msg) owed = []
  unless_reply none owed = owed

  abbrev pub owed : Option Responder → List Str → List Value
  owed responder [] = []
  owed responder (line ∷ lines) =
      unless_reply (reply_of (parsed line))
        (owed_for responder (parsed line) ++ owed responder lines)

  abbrev taken_of : Option Value → Taken
  taken_of none = nothing
  taken_of (some msg) = answered msg

  -- What taking in a message does, while the peer reads all that it is sent.
  record IsTaken (f : Framed) (msg : Option Value) (next : Framed × Taken) : Type 0 where
    open_still : next.0.accepts ≡ some []
    same : next.0.responder ≡ f.responder
    wrote : next.0.written ≡ f.written ++ owed_for f.responder msg
    took : next.1 ≡ taken_of (reply_of msg)

  record IsSorted (f : Framed) (msg : Value) (i : Incoming) (next : Framed × Taken) : Type 0 where
    open_still : next.0.accepts ≡ some []
    same : next.0.responder ≡ f.responder
    wrote : next.0.written ≡ f.written ++ owed_in f.responder msg i
    took : next.1 ≡ taken_of (reply_in msg i)

  take_message-IsSorted :
      (f : Framed) (msg : Value) (i : Incoming)
      → f.accepts ≡ some []
      → IsSorted f msg i (take_message f forward msg i)
  unfolding take_message write_line
  take_message-IsSorted f msg response h = record {
    open_still = h;
    same = refl;
    wrote = sym (append-nil f.written);
    took = refl;
  }
  take_message-IsSorted f msg (notification m) h = record {
    open_still = h;
    same = refl;
    wrote = sym (append-nil f.written);
    took = refl;
  }
  take_message-IsSorted f msg foreign h = record {
    open_still = h;
    same = refl;
    wrote = sym (append-nil f.written);
    took = refl;
  }
  take_message-IsSorted f msg (server_request theirs m) h =
      rw h (record { open_still = refl; same = refl; wrote = refl; took = refl })

  take_parsed-IsTaken :
      (f : Framed) (line : Str) (o : Option Value)
      → f.accepts ≡ some []
      → IsTaken f o (take_parsed from_str f forward line (some id) o)
  take_parsed-IsTaken f line none h = record {
    open_still = h;
    same = refl;
    wrote = sym (append-nil f.written);
    took = refl;
  }
  take_parsed-IsTaken f line (some msg) h =
      let s = take_message-IsSorted f msg (classify msg (some id)) h in
      record { open_still = s.open_still; same = s.same; wrote = s.wrote; took = s.took }

  take-IsTaken :
      (f : Framed) (line : Str)
      → f.accepts ≡ some []
      → IsTaken f (parsed line) (take from_str f line (some id) forward)
  unfolding take
  take-IsTaken f line h = elim (Bool-cases (is_empty (trim line))) [
    | inl e ↦
        rw e
          (record { open_still = h; same = refl; wrote = sym (append-nil f.written); took = refl })
    | inr e ↦ rw e (take_parsed-IsTaken f (trim line) (from_str (trim line)) h)
  ]

  -- How an exchange ends: with the first reply, leaving the lines behind it, or as the lines ended.
  abbrev pub ends_as :
      Error → ℕ → Ended → Option (Value × List Str) → Result (Option Value) × List Str
  ends_as gone patience ended (some (msg, unread)) = (ok (some msg), unread)
  ends_as gone patience timed_out none = (err (transport (no_reply patience)), [])
  ends_as gone patience disconnected none = (err gone, [])

  pub record IsSettled (o : Result (Option Value) × List Str) (told : List Value)
      (out : Framed × Result (Option Value) × List Str) : Type 0 where
    pub result : (out.1, out.2) ≡ o
    pub wrote : out.0.written ≡ told

  module _ (gone : Error) (within : ℕ) where
    settle-IsSettled :
        (next : Framed × Taken) (r : Option Value)
        (onward : Framed × Result (Option Value) × List Str) (unread : List Str)
        (told later : List Value) (ended : Ended) (rest : Option (Value × List Str))
        → next.1 ≡ taken_of r
        → ((m : Value) → r ≡ some m → next.0.written ≡ told)
        → IsSettled (ends_as gone within ended rest) (told ++ later) onward
        → IsSettled
            (ends_as gone within ended (pick r unread rest))
            (told ++ unless_reply r later)
            (settle from_str gone next onward unread)
    settle-IsSettled (g, t) none onward unread told later ended rest took wrote h = rw took h
    settle-IsSettled (g, t) (some msg) onward unread told later ended rest took wrote h =
        rw took (record { result = refl; wrote = wrote msg refl ∙ sym (append-nil told) })

    reply_owes :
        (responder : Option Responder) (msg : Value) (i : Incoming) (m : Value)
        → reply_in msg i ≡ some m
        → owed_in responder msg i ≡ []
    reply_owes responder msg response m e = refl
    reply_owes responder msg foreign m e = refl
    reply_owes responder msg (notification k) m e = refl
    reply_owes responder msg (server_request theirs k) m e = cc

    reply_owes_nothing :
        (responder : Option Responder) (o : Option Value) (m : Value)
        → reply_of o ≡ some m
        → owed_for responder o ≡ []
    reply_owes_nothing responder none m e = refl
    reply_owes_nothing responder (some msg) m e =
        reply_owes responder msg (classify msg (some id)) m e

    wait-IsSettled :
        (f : Framed) (lines : List Str) (ended : Ended)
        → f.accepts ≡ some []
        → IsSettled
            (ends_as gone within ended (first_reply lines))
            (f.written ++ owed f.responder lines)
            (wait_for_reply from_str gone f id within forward lines ended)
    unfolding wait_for_reply
    wait-IsSettled f [] timed_out h = record { result = refl; wrote = sym (append-nil f.written) }
    wait-IsSettled f [] disconnected h = record {
      result = refl;
      wrote = sym (append-nil f.written);
    }
    wait-IsSettled f (line ∷ lines) ended h =
        let next = take from_str f line (some id) forward in
        let s = take-IsTaken f line h in
        let onward = wait-IsSettled next.0 lines ended s.open_still in
        settle-IsSettled next (reply_of (parsed line)) _ lines f.written
          (owed_for f.responder (parsed line) ++ owed f.responder lines) ended (first_reply lines)
          s.took
          (λ m e.
            s.wrote
            ∙ ap (λ (r : List Value). f.written ++ r)
                (reply_owes_nothing f.responder (parsed line) m e)
            ∙ append-nil f.written)
          (record {
            result = onward.result;
            wrote =
                onward.wrote
                ∙ rw (s.same, s.wrote)
                    (append_assoc f.written (owed_for f.responder (parsed line))
                      (owed f.responder lines));
          })

  sending :
      (gone : Error) (f : Framed) (payload method : Value) (lines : List Str) (ended : Ended)
      → f.accepts ≡ some []
      → get (codes "id") payload ≡ some id
      → get (codes "method") payload ≡ some method
      → exchange from_str gone f payload forward lines ended
        ≡ wait_for_reply from_str gone
            (write_with (note f (sent payload)) (some []) payload).0
            id
            (patience f)
            forward
            lines
            ended
  unfolding exchange write_line
  sending gone f payload method lines ended h has_id has_method = rw (h, has_id, has_method) refl

  -- What an exchange comes to while the peer reads all that it is sent: the result is the first line
  -- that is the reply, with the lines behind it left unread, and where there is none the error of how
  -- the lines ended; the peer is sent the request, and then one reply for each request of its own
  -- that came before that line, in order.
  pub exchange-IsSettled :
      (gone : Error) (f : Framed) (payload method : Value) (lines : List Str) (ended : Ended)
      → f.accepts ≡ some []
      → get (codes "id") payload ≡ some id
      → get (codes "method") payload ≡ some method
      → IsSettled
          (ends_as gone (patience f) ended (first_reply lines))
          ((f.written ++ payload ∷ []) ++ owed f.responder lines)
          (exchange from_str gone f payload forward lines ended)
  exchange-IsSettled gone f payload method lines ended h has_id has_method =
      let f1 = (write_with (note f (sent payload)) (some []) payload).0 in
      let s = wait-IsSettled gone (patience f) f1 lines ended h in
      rw (sending gone f payload method lines ended h has_id has_method)
        (record { result = s.result; wrote = s.wrote })
