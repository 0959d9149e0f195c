-- ===== src/Transport/Http/Stream.antt =====
-- src/transport/http.rs, `read_stream`: an event stream read as it comes, up to the answer.
pub mod Agrees
pub mod Lines
use mcpdial.Base.{
  ℕ, Bool, true, false, not, ◌||◌, Option, none, some, List, [], ◌∷◌, ◌++◌, Str, codes,
  if◌then◌else◌, trim, strip_prefix, is_empty, ◌==◌,
}
use mcpdial.Json.{Value}
use mcpdial.Protocol.Incoming.{Incoming, classify}
use mcpdial.Protocol.Sse.{add_line, is_response}
use mcpdial.Transport.Http.{Body}

-- What reading a stream comes to: the answer, the end of the stream (or of the watcher's
-- interest), or an I/O error.
pub data Read : Type 0 where
  found : Value → Read
  ended : Read
  broke : Read

-- `trim_end_matches(['\r', '\n'])`.
abbrev pub cut_break : ℕ → Str → Str
cut_break c [] = if c == 13 || c == 10 then [] else c ∷ []
cut_break c (d ∷ r) = c ∷ d ∷ r

unfoldable pub trim_breaks : Str → Str
trim_breaks [] = []
trim_breaks (c ∷ s) = cut_break c (trim_breaks s)

-- An event that a blank line or the end of the stream closes.
pub data Event : Type 0 where
  answer : Value → Event
  watched : Value → Event
  noise : Event

module _ (from_str : Str → Option Value) (stops : Value → Bool) where
  unfoldable pub event_of : Str → Event
  event_of held = elim (from_str held) [
    | none ↦ noise
    | some msg ↦ if is_response (classify msg none) then answer msg else watched msg
  ]

  -- The loop: the lines to come, what the event holds so far, and what `watch` has seen. The
  -- watcher asks to stop at a message where `stops` holds.
  unfoldable pub read_lines : List Str → Bool → Str → List Value → Read × List Value
  read_lines [] true held seen = (broke, seen)
  read_lines [] false held seen = elim (event_of held) [
    | answer msg ↦ (found msg, seen)
    | watched msg ↦ (ended, seen ++ msg ∷ [])
    | noise ↦ (ended, seen)
  ]
  read_lines (line ∷ ls) breaks held seen =
      let next =
        read_lines ls breaks (add_line held (strip_prefix (codes "data:") (trim_breaks line)))
          seen in
      let closed : Read × List Value = elim (event_of held) [
        | answer msg ↦ (found msg, seen)
        | watched msg ↦
            let on = read_lines ls breaks [] (seen ++ msg ∷ []) in
            if stops msg then (ended, seen ++ msg ∷ []) else on
        | noise ↦ read_lines ls breaks [] seen
      ] in
      if is_empty (trim line) then closed else next

  unfoldable pub read_stream : Body → Read × List Value
  unfolding read_lines
  read_stream body = read_lines body.chunks body.breaks [] []
