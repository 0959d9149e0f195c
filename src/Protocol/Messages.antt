-- ===== src/Protocol/Messages.antt =====
-- src/protocol.rs: the messages the client builds: requests, notifications, and its replies to
-- what the server asks.
pub mod Replies
use mcpdial.Base.{
  ℕ, Bool, true, false, Option, none, some, Str, codes, str_eq, if◌then◌else◌, pos, negsuc, ℤ, ◌++◌,
}
use mcpdial.Json.{Value, null, num, str, obj, Fields, end, field, int, insert}
use mcpdial.Protocol.Errors.{method_not_found}

abbrev pub ping : Str
ping = codes "ping"

-- `json!({ "k": v, .. })`: the keys are inserted one after another.
abbrev pub object2 : Str → Value → Str → Value → Fields
object2 j v k w = insert k w (insert j v end)

abbrev pub with_params : Option Value → Fields → Value
with_params none fs = obj fs
with_params (some p) fs = obj (insert (codes "params") p fs)

unfoldable pub request : Str → ℕ → Option Value → Value
unfolding insert
request method id params = with_params params (
    insert (codes "method") (str method)
      (object2 (codes "jsonrpc") (str (codes "2.0")) (codes "id") (num (int (pos id)))))

unfoldable pub notify : Str → Option Value → Value
unfolding insert
notify method params =
    with_params params (object2 (codes "jsonrpc") (str (codes "2.0")) (codes "method") (str method))

unfoldable pub reply : Value → Value → Value
unfolding insert
reply id result =
    obj (
      insert (codes "result") result
        (object2 (codes "jsonrpc") (str (codes "2.0")) (codes "id") id))

unfoldable pub reply_error : Value → ℤ → Str → Value
unfolding insert
reply_error id code message = obj (
    insert (codes "error")
      (obj (object2 (codes "code") (num (int code)) (codes "message") (str message)))
      (object2 (codes "jsonrpc") (str (codes "2.0")) (codes "id") id))

abbrev pub refusal : Str → Str
refusal method = codes "mcpdial does not implement " ++ method

unfoldable pub answer : Value → Str → Value
answer id method =
    if str_eq method ping
    then reply id (obj end)
    else reply_error id method_not_found (refusal method)

-- A `Responder` is handed the method and its params. It may keep state of its own (`FnMut`): what
-- it answers at this call is what is passed.
abbrev pub Responder : Type 0
Responder = Str → Value → Option Value

unfoldable pub answer_with : Value → Str → Value → Option Responder → Value
answer_with id method params none = answer id method
answer_with id method params (some serve) =
    let served : Value = elim (serve method params) [
      | some result ↦ reply id result
      | none ↦ answer id method
    ] in
    if str_eq method ping then answer id method else served
