-- ===== src/Tests/Framed.antt =====
-- The theorems about the framed exchange of src/transport/stdio.rs, alone and under a session, at
-- concrete inputs.
use mcpdial.Base.{
  false, Option, none, some, List, [], ◌∷◌, ◌++◌, Str, codes, str_eq, if◌then◌else◌, ◌≡◌, refl, pos,
  trim,
}
use mcpdial.Json.{Value, num, str, obj, end, field, int, lookup, value_eq}
use mcpdial.Protocol.Errors.{transport, gone}
use mcpdial.Protocol.Incoming.{classify}
use mcpdial.Protocol.Messages.{answer_with, answer, reply}
use mcpdial.Transport.Framed.{Framed, timed_out, exchange}
use mcpdial.Session.{Session, fresh, send}
use mcpdial.Session.Stdio.{stdio, finish, reply_end, send-stdio}
use mcpdial.Transport.Framed.Exchange.{exchange-IsSettled, IsSettled, ends_as, first_reply, owed}

abbrev one : Value
one = num (int (pos 1))

abbrev asked : Value
asked = obj (field (codes "id") one (field (codes "method") (str (codes "tools/list")) end))

abbrev answer_line : Value
answer_line = obj (field (codes "id") one (field (codes "result") (obj end) end))

abbrev ping_line : Value
ping_line =
    obj (field (codes "id") (str (codes "s1")) (field (codes "method") (str (codes "ping")) end))

-- A reader of JSON that knows two lines.
abbrev reads : Str → Option Value
reads s =
    if str_eq s (codes "A")
    then some answer_line
    else if str_eq s (codes "P")
    then some ping_line
    else none

abbrev unasked : Value → Option Value
unasked msg = none

abbrev opened : Framed
opened = record {
  accepts = some [];
  written = [];
  timeout = 30;
  wait = none;
  responder = none;
  heard = [];
  log = [];
}

abbrev chatter : List Str
chatter = codes "npm warn" ∷ codes "P" ∷ codes " A" ∷ codes "later" ∷ []

exchange-IsSettled_example :
    IsSettled reads unasked one
      (ends_as reads unasked one
        (transport gone)
        30
        timed_out
        (first_reply reads unasked one chatter))
      (([] ++ asked ∷ []) ++ owed reads unasked one none chatter)
      (exchange reads (transport gone) opened asked unasked chatter timed_out)
unfolding lookup str_eq
exchange-IsSettled_example =
    exchange-IsSettled reads unasked one (transport gone) opened asked (str (codes "tools/list"))
      chatter timed_out refl refl refl

-- The ping is answered, and the line behind the reply is left.
ping_is_owed : owed reads unasked one none chatter ≡ reply (str (codes "s1")) (obj end) ∷ []
unfolding lookup str_eq trim classify value_eq answer_with answer
ping_is_owed = refl

-- The same lines under a session.
abbrev over_stdio : Session (Framed × List Str)
over_stdio = fresh (opened, chatter)

send-stdio_example :
    ((send
        (stdio reads (transport gone) timed_out)
        (record over_stdio { carrier = (opened, chatter) })
        (codes "tools/list")
        none
        false).1
      ≡ finish reads
          (transport gone)
          timed_out
          (reply_end reads (transport gone) timed_out over_stdio opened chatter).0)
    × ((send
          (stdio reads (transport gone) timed_out)
          (record over_stdio { carrier = (opened, chatter) })
          (codes "tools/list")
          none
          false).0.carrier.1
        ≡ (reply_end reads (transport gone) timed_out over_stdio opened chatter).1)
send-stdio_example =
    send-stdio reads (transport gone) timed_out over_stdio opened chatter (codes "tools/list") none
      false refl
