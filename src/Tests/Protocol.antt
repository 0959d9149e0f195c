-- ===== src/Tests/Protocol.antt =====
-- The theorems about src/protocol.rs at concrete inputs.
use mcpdial.Base.{
  ◌≡◌, ◌≢◌, ◌↔◌, inr, refl, Option, none, some, [], ◌∷◌, Str, codes, str_eq, trim, if◌then◌else◌,
  pos,
}
use mcpdial.Json.{Value, null, num, str, obj, Fields, end, field, int, lookup}
use mcpdial.Protocol.Errors.{ok}
use mcpdial.Protocol.Version.{
  KnownVersion, v2026_07_28, v2025_11_25, v2025_06_18, v2025_03_26, as_str,
}
use mcpdial.Protocol.Incoming.{response, id_of, method_of, classify}
use mcpdial.Protocol.Incoming.Sorting.{classify-response_iff}
use mcpdial.Protocol.Sse.{decode_sse}
use mcpdial.Protocol.Sse.Events.{IsPayload, write_events}
use mcpdial.Protocol.Sse.Answers.{IsAnswer, IsPassed, decode_sse-write_events}

abbrev seven : Value
seven = num (int (pos 7))

abbrev pong : Value
pong = obj (field (codes "id") seven (field (codes "result") null end))

abbrev log_line : Value
log_line = obj (field (codes "method") (str (codes "notifications/message")) end)

-- A reader of JSON that knows two texts.
abbrev reads : Str → Option Value
reads s =
    if str_eq s (codes "P") then some pong else if str_eq s (codes "L") then some log_line else none

abbrev mute : Value → Str
mute j = []

mute_apart : (j : Value) (k : KnownVersion) → mute j ≢ as_str k
mute_apart j v2026_07_28 = cc
mute_apart j v2025_11_25 = cc
mute_apart j v2025_06_18 = cc
mute_apart j v2025_03_26 = cc

classify-response_iff_example :
    (classify pong (some seven) ≡ response) ↔ ((method_of pong ≡ none) × (id_of pong ≡ some seven))
classify-response_iff_example = classify-response_iff pong seven

IsPayload-L : IsPayload (codes "L")
unfolding trim
IsPayload-L = (cc, refl, ((refl, refl), tt))

IsPayload-P : IsPayload (codes "P")
unfolding trim
IsPayload-P = (cc, refl, ((refl, refl), tt))

log-IsPassed : IsPassed reads (codes "L")
unfolding str_eq classify lookup
log-IsPassed = inr (log_line, refl, cc)

pong_is_answer : IsAnswer reads (codes "P") pong
unfolding str_eq classify lookup
pong_is_answer = (refl, refl)

decode_sse-write_events_example :
    decode_sse reads (write_events (codes "L" ∷ codes "P" ∷ codes "L" ∷ [])) ≡ ok (some pong)
decode_sse-write_events_example =
    decode_sse-write_events reads (codes "L" ∷ []) (codes "L" ∷ []) (codes "P") pong
      (IsPayload-L, (IsPayload-P, (IsPayload-L, tt))) (log-IsPassed, tt) pong_is_answer

abbrev own : Fields
own = field (codes "progressToken") seven end

abbrev params : Fields
params = field (codes "_meta") (obj own) (field (codes "name") null end)
