-- ===== src/Transport/Framed/Poll.antt =====
-- How much one look at the channel reads.
use mcpdial.Base.{
  ℕ, zero, suc, ◌≤◌, List, [], ◌∷◌, ◌++◌, Str, Option, none, some, ◌≢◌, inl, inr, ◌∙◌, Bool-cases,
  is_empty, trim, ◌≡◌, refl, arith, length, ap,
}
use mcpdial.Json.{Value}
use mcpdial.Protocol.Incoming.{Incoming, response, server_request, notification, foreign, classify}
use mcpdial.Transport.Framed.{
  take_message, take_parsed, write_line, Framed, Taken, nothing, answered, broken,
  most_lines_per_poll, take, settle_poll, poll_lines, poll,
}

-- `rest` is what is left of `lines` once at most `n` are read.
abbrev pub Leaves : ℕ → List Str → List Str → Type 0
Leaves n lines rest = (read : List Str) × (lines ≡ read ++ rest) × (length read ≤ n)

-- All lines but the first `n`.
abbrev pub skip : ℕ → List Str → List Str
skip zero lines = lines
skip (suc n) [] = []
skip (suc n) (line ∷ lines) = skip n lines

module _ (from_str : Str → Option Value) where
  settle_poll-Leaves :
      (n : ℕ) (line : Str) (lines : List Str) (next : Framed × Taken) (onward : Framed × List Str)
      → Leaves n lines onward.1
      → Leaves (suc n) (line ∷ lines) (settle_poll from_str next onward lines).1
  settle_poll-Leaves n line lines (f, broken) onward h = (line ∷ [], refl, omega arith)
  settle_poll-Leaves n line lines (f, answered msg) onward (read, split, few) =
      (line ∷ read, ap (λ (l : List Str). line ∷ l) split, omega arith)
  settle_poll-Leaves n line lines (f, nothing) onward (read, split, few) =
      (line ∷ read, ap (λ (l : List Str). line ∷ l) split, omega arith)

  poll_lines-Leaves :
      (n : ℕ) (f : Framed) (lines : List Str) → Leaves n lines (poll_lines from_str n f lines).1
  unfolding poll_lines
  poll_lines-Leaves zero f lines = ([], refl, omega arith)
  poll_lines-Leaves (suc n) f [] = ([], refl, omega arith)
  poll_lines-Leaves (suc n) f (line ∷ lines) =
      settle_poll-Leaves n line lines _ _ (poll_lines-Leaves n _ lines)

  -- While the peer reads all that it is sent, no line ends a poll early.
  record GoesOn (next : Framed × Taken) : Type 0 where
    open_still : next.0.accepts ≡ some []
    unbroken : next.1 ≢ broken

  module _ (forward : Value → Option Value) where
    take_message-GoesOn :
        (f : Framed) (msg : Value) (i : Incoming)
        → f.accepts ≡ some []
        → GoesOn (take_message f forward msg i)
    unfolding take_message write_line
    take_message-GoesOn f msg response h = record { open_still = h; unbroken = λ e. cc }
    take_message-GoesOn f msg (notification m) h = record { open_still = h; unbroken = λ e. cc }
    take_message-GoesOn f msg foreign h = record { open_still = h; unbroken = λ e. cc }
    take_message-GoesOn f msg (server_request theirs m) h =
        rw h (record { open_still = refl; unbroken = λ e. cc })

    take_parsed-GoesOn :
        (f : Framed) (line : Str) (awaiting o : Option Value)
        → f.accepts ≡ some []
        → GoesOn (take_parsed from_str f forward line awaiting o)
    take_parsed-GoesOn f line awaiting none h = record { open_still = h; unbroken = λ e. cc }
    take_parsed-GoesOn f line awaiting (some msg) h =
        take_message-GoesOn f msg (classify msg awaiting) h

    take-GoesOn :
        (f : Framed) (line : Str) (awaiting : Option Value)
        → f.accepts ≡ some []
        → GoesOn (take from_str f line awaiting forward)
    unfolding take
    take-GoesOn f line awaiting h = elim (Bool-cases (is_empty (trim line))) [
      | inl e ↦ rw e (record { open_still = h; unbroken = λ e. cc })
      | inr e ↦ rw e (take_parsed-GoesOn f (trim line) awaiting (from_str (trim line)) h)
    ]

  settle_poll_on :
      (next : Framed × Taken) (onward : Framed × List Str) (unread : List Str)
      → next.1 ≢ broken
      → settle_poll from_str next onward unread ≡ onward
  settle_poll_on (f, broken) onward unread h = absurd (h refl)
  settle_poll_on (f, answered msg) onward unread h = refl
  settle_poll_on (f, nothing) onward unread h = refl

  poll_lines-skip :
      (n : ℕ) (f : Framed) (lines : List Str)
      → f.accepts ≡ some []
      → (poll_lines from_str n f lines).1 ≡ skip n lines
  unfolding poll_lines
  poll_lines-skip zero f lines h = refl
  poll_lines-skip (suc n) f [] h = refl
  poll_lines-skip (suc n) f (line ∷ lines) h =
      let on = take-GoesOn (λ msg. none) f line none h in
      ap (λ (o : Framed × List Str). o.1)
        (settle_poll_on (take from_str f line none (λ msg. none))
          (poll_lines from_str n (take from_str f line none (λ msg. none)).0 lines) lines
          on.unbroken)
      ∙ poll_lines-skip n (take from_str f line none (λ msg. none)).0 lines on.open_still

  -- While the peer reads all that it is sent, one poll reads the first 4096 of the lines that wait, or
  -- all if they are fewer, and leaves the others as they are.
  pub poll-skip :
      (f : Framed) (lines : List Str)
      → f.accepts ≡ some []
      → (poll from_str f lines).1 ≡ skip most_lines_per_poll lines
  unfolding poll
  poll-skip f lines h = poll_lines-skip most_lines_per_poll f lines h

  -- One poll never reads more than 4096 of the lines that wait, from the front, and leaves the others as
  -- they are, whether or not the peer reads what it is sent.
  pub poll-Leaves :
      (f : Framed) (lines : List Str) → Leaves most_lines_per_poll lines (poll from_str f lines).1
  unfolding poll
  poll-Leaves f lines = poll_lines-Leaves most_lines_per_poll f lines
