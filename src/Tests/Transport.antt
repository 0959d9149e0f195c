-- ===== src/Tests/Transport.antt =====
-- The theorems about src/transport at concrete inputs.
use mcpdial.Base.{
  true, false, ◌≡◌, ◌↔◌, refl, Option, none, some, [], ◌∷◌, Str, codes, map, lines, arith, pos,
}
use mcpdial.Json
use mcpdial.Json.{
  null, str, obj, arr, cons, nil, field, end, bool, num, int, lookup, index, as_array,
}
use mcpdial.Protocol.Errors.{ok}
use mcpdial.Protocol.Incoming.{classify}
use mcpdial.Protocol.Sse.{decode_sse}
use mcpdial.Transport.Retry.{Retry, delay, is_idempotent, io, connection_reset, worth_retrying}
use mcpdial.Transport.Http.{Posted, unsent, HttpTransport}
use mcpdial.Transport.Http.Stream.{found, read_stream, event_of, trim_breaks}
use mcpdial.Transport.Http.Stream.Lines.{HasPlainBreaks, streamed, lines_read}
use mcpdial.Transport.Http.Stream.Agrees.{read_stream-decode_sse}
use mcpdial.Transport.Http.Attempt.{attempt, send_watching, retry_delay_of}
use mcpdial.Transport.Http.Once.{MayRepeat, send_watching-twice_iff}
use mcpdial.Transport.Words.{split_command}
use mcpdial.Transport.Words.RoundTrip.{join_words, split_command-join_words}

abbrev on : Retry
on = record { enabled = true; timeout = 60_000 }

abbrev lookup_tool : Json.Value
lookup_tool = obj (
    field (codes "annotations") (obj (field (codes "idempotentHint") (bool true) end))
      (field (codes "name") (str (codes "lookup")) end))

abbrev page : Json.Value
page =
    obj (field (codes "result") (obj (field (codes "tools") (arr (cons lookup_tool nil)) end)) end)

abbrev fresh : HttpTransport
fresh = record {
  retry = on;
  wait = none;
  session_id = none;
  idempotent_tools = [];
  spoke_streamable_http = false;
}

abbrev no_json : Str → Option Json.Value
no_json s = none

abbrev reset : Posted
reset = unsent (io connection_reset)

send_watching-twice_iff_example :
    ((send_watching no_json false fresh null reset reset).posts ≡ 2)
    ↔ MayRepeat no_json false fresh null (attempt no_json false fresh null reset).result
send_watching-twice_iff_example = send_watching-twice_iff no_json false fresh null reset reset

sent_twice : (send_watching no_json false fresh null reset reset).posts ≡ 2
unfolding send_watching attempt retry_delay_of delay worth_retrying is_idempotent
sent_twice = refl

abbrev text : Str
text = codes "data: x\r\n\r\n"

text-HasPlainBreaks : HasPlainBreaks text
text-HasPlainBreaks = ground arith

abbrev said : Json.Value
said = obj (field (codes "id") (num (int (pos 1))) (field (codes "result") null end))

abbrev some_text : Str → Option Json.Value
some_text [] = none
some_text (c ∷ s) = some said

read_stream-decode_sse_example :
    ((read_stream some_text (λ _. false) (streamed text)).0 ≡ found said)
    ↔ (decode_sse some_text text ≡ ok (some said))
read_stream-decode_sse_example = read_stream-decode_sse some_text refl text said text-HasPlainBreaks

said_found : (read_stream some_text (λ _. false) (streamed text)).0 ≡ found said
unfolding read_stream event_of lines_read trim_breaks classify lookup mcpdial.Base.trim
    mcpdial.Base.str_eq
said_found = refl

abbrev same : Str → Str
same s = s

split_command-join_words_example :
    split_command (join_words (codes "it's" ∷ codes "a b" ∷ []))
    ≡ ok (codes "it's" ∷ codes "a b" ∷ [])
split_command-join_words_example =
    split_command-join_words (codes "it's" ∷ codes "a b" ∷ []) (cc) (cc, (cc, tt))

words_run :
    split_command (codes "npx -y 'a b' \"c\\\"d\"")
    ≡ ok (codes "npx" ∷ codes "-y" ∷ codes "a b" ∷ codes "c\"d" ∷ [])
unfolding split_command
words_run = refl
