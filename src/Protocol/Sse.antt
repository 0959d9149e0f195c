-- ===== src/Protocol/Sse.antt =====
-- src/protocol.rs: the JSON-RPC message in the body of an HTTP response, plain or as an event
-- stream. `serde_json::from_str` is a parameter; its errors are not told apart.
pub mod Events
pub mod Answers
use mcpdial.Base.{
  ℕ, Bool, true, false, not, ◌||◌, Option, none, some, List, [], ◌∷◌, ◌++◌, Str, codes, is_empty,
  if◌then◌else◌, trim, lines, contains, to_ascii_lowercase, starts_with, strip_prefix,
}
use mcpdial.Json.{Value}
use mcpdial.Protocol.Errors.{Error, transport, malformed_json, Result, ok, err, ok_or}
use mcpdial.Protocol.Incoming.{Incoming, response, server_request, notification, foreign, classify}

-- One more `data:` line: a line break in front of it, unless it is the first.
abbrev pub add_data : Str → Str → Str
add_data held value = (if is_empty held then [] else held ++ 10 ∷ []) ++ trim value

-- A line that is not empty: only a `data:` line adds to the event.
abbrev pub add_line : Str → Option Str → Str
add_line held none = held
add_line held (some value) = add_data held value

-- The loop over the lines; `data` is what the event holds so far.
unfoldable pub sse_loop : List Str → Str → List Str
sse_loop [] held = []
sse_loop (line ∷ ls) held =
    let closed = if is_empty held then sse_loop ls [] else held ∷ sse_loop ls [] in
    let longer = sse_loop ls (add_line held (strip_prefix (codes "data:") line)) in
    if is_empty (trim line) then closed else longer

-- An empty line is chained at the end of the body.
unfoldable pub sse_events : Str → List Str
unfolding sse_loop
sse_events body = sse_loop (lines body ++ [] ∷ []) []

abbrev pub is_response : Incoming → Bool
is_response response = true
is_response _ = false

module _ (from_str : Str → Option Value) where
  -- The loop of `decode_sse`; `broken` says that an event before was no JSON.
  unfoldable pub decode_events : List Str → Bool → Result (Option Value)
  decode_events [] broken = if broken then err (transport malformed_json) else ok none
  decode_events (event ∷ events) broken = elim (from_str event) [
    | some msg ↦
        let rest = decode_events events broken in
        if is_response (classify msg none) then ok (some msg) else rest
    | none ↦ decode_events events true
  ]

  unfoldable pub decode_sse : Str → Result (Option Value)
  unfolding decode_events
  decode_sse body = decode_events (sse_events body) false

  abbrev decode_json : Option Value → Result (Option Value)
  decode_json (some msg) = ok (some msg)
  decode_json none = err (transport malformed_json)

  abbrev pub looks_like_sse : Str → Str → Bool
  looks_like_sse body content_type =
      contains (codes "text/event-stream") (to_ascii_lowercase content_type)
      || starts_with (codes "event:") body
      || starts_with (codes "data:") body

  unfoldable pub decode_body : Str → Str → Result (Option Value)
  unfolding decode_sse
  decode_body body content_type =
      let text = trim body in
      if is_empty text
      then ok none
      else if looks_like_sse text content_type
      then decode_sse text
      else decode_json (from_str text)
