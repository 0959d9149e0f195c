-- ===== src/Protocol/Sse/Events.antt =====
-- An event stream written event by event is read back event by event.
use mcpdial.Base.{
  false, ◌≡◌, ◌≢◌, refl, ap, ◌∙◌, List, [], ◌∷◌, ◌++◌, Str, codes, is_empty, trim, trim_end-ne-nil,
  lines, IsOneLine, lines-append, All,
}
use mcpdial.Protocol.Sse.{sse_loop, sse_events}

-- A payload that an event can carry on one `data:` line: some text, trimmed, on one line.
abbrev pub IsPayload : Str → Type 0
IsPayload t = (t ≢ []) × (trim t ≡ t) × IsOneLine t

-- What a server writes: `data: PAYLOAD` and an empty line, for each event.
pub write_events : List Str → Str
write_events [] = []
write_events (t ∷ ts) = (codes "data: " ++ t) ++ 10 ∷ 10 ∷ write_events ts

-- The lines of what is written.
written : List Str → List Str
written [] = []
written (t ∷ ts) = (codes "data: " ++ t) ∷ [] ∷ written ts

data-IsOneLine : (t : Str) → IsOneLine t → IsOneLine (codes "data: " ++ t)
data-IsOneLine t h = (
  (refl, refl),
  ((refl, refl), ((refl, refl), ((refl, refl), ((refl, refl), ((refl, refl), h))))),
)

lines-write_events : (ts : List Str) → All IsPayload ts → lines (write_events ts) ≡ written ts
unfolding write_events written lines
lines-write_events [] h = refl
lines-write_events (t ∷ ts) ((full, trimmed, line), hs) =
    lines-append (codes "data: " ++ t) (10 ∷ write_events ts) (data-IsOneLine t line)
    ∙ ap (λ (r : List Str). (codes "data: " ++ t) ∷ [] ∷ r) (lines-write_events ts hs)

is_empty_of_ne : (s : Str) → s ≢ [] → is_empty s ≡ false
is_empty_of_ne [] h = absurd (h refl)
is_empty_of_ne (c ∷ s) h = refl

trim-data : (t : Str) → is_empty (trim (codes "data: " ++ t)) ≡ false
unfolding trim
trim-data t = is_empty_of_ne _ (trim_end-ne-nil b'd' (codes "ata: " ++ t) refl)

trim-blank : (t : Str) → trim (32 ∷ t) ≡ trim t
unfolding trim
trim-blank t = refl

trim-nil : trim [] ≡ []
unfolding trim
trim-nil = refl

sse_loop-written : (ts : List Str) → All IsPayload ts → sse_loop (written ts ++ [] ∷ []) [] ≡ ts
unfolding sse_loop written
sse_loop-written [] h = unfold trim in refl
sse_loop-written (t ∷ ts) ((full, trimmed, line), hs) =
    rw (trim-data t, trim-blank t, trimmed, trim-nil, is_empty_of_ne t full)
      (ap (λ (r : List Str). t ∷ r) (sse_loop-written ts hs))

-- Payloads written as events, one `data:` line each, are read back as they are and in order.
pub sse_events-write_events : (ts : List Str) → All IsPayload ts → sse_events (write_events ts) ≡ ts
unfolding sse_events
sse_events-write_events ts h = rw (lines-write_events ts h) (sse_loop-written ts h)
