-- ===== src/Protocol/Incoming/Sorting.antt =====
-- Which messages count as the answer that a client waits for.
use mcpdial.Base.{Bool, ◌≡◌, ◌↔◌, Option, none, some, Str, codes, arith, is_some}
use mcpdial.Json.{Value, get}
use mcpdial.Json.Laws.{value_eq_iff}
use mcpdial.Protocol.Incoming.{
  response, server_request, notification, id_of, method_of, sort_by, classify,
}

sort_by-awaited :
    (m : Option Str) (id : Option Value) (ours : Value) (e : Bool)
    → (sort_by m id (some ours) e ≡ response) ↔ ((m ≡ none) × (id ≡ some ours))
sort_by-awaited (some m) (some id) ours e = ground arith
sort_by-awaited (some m) none ours e = ground arith
sort_by-awaited none none ours e = ground arith
sort_by-awaited none (some id) ours e = ground (arith, value_eq_iff id ours)

-- While an id is awaited, a message is the answer exactly when it names no method and carries that
-- very id: a request of the server's own is never the answer, even where it reuses the id, and an
-- `error` without the id is none either.
pub classify-response_iff :
    (msg ours : Value)
    → (classify msg (some ours) ≡ response) ↔ ((method_of msg ≡ none) × (id_of msg ≡ some ours))
unfolding classify
classify-response_iff msg ours =
    sort_by-awaited (method_of msg) (id_of msg) ours (is_some (get (codes "error") msg))

-- What is owed to the sender, whatever is awaited: a message is a request exactly when it names a
-- method and an id that is not null, and then that id and method are the ones it carries; it is a
-- notification exactly when it names a method and no such id.
pub record IsOwed (msg : Value) (awaiting : Option Value) : Type 0 where
  pub request :
      (id : Value) (m : Str)
      → (classify msg awaiting ≡ server_request id m)
        ↔ ((method_of msg ≡ some m) × (id_of msg ≡ some id))
  pub one_way :
      (m : Str)
      → (classify msg awaiting ≡ notification m) ↔ ((method_of msg ≡ some m) × (id_of msg ≡ none))

sort_by-request :
    (m : Option Str) (id : Option Value) (a : Option Value) (e : Bool) (i : Value) (k : Str)
    → (sort_by m id a e ≡ server_request i k) ↔ ((m ≡ some k) × (id ≡ some i))
sort_by-request (some m) (some id) a e i k = ground arith
sort_by-request (some m) none a e i k = ground arith
sort_by-request none id a e i k = ground arith

sort_by-notification :
    (m : Option Str) (id : Option Value) (a : Option Value) (e : Bool) (k : Str)
    → (sort_by m id a e ≡ notification k) ↔ ((m ≡ some k) × (id ≡ none))
sort_by-notification (some m) (some id) a e k = ground arith
sort_by-notification (some m) none a e k = ground arith
sort_by-notification none id a e k = ground arith

pub classify-IsOwed : (msg : Value) (awaiting : Option Value) → IsOwed msg awaiting
unfolding classify
classify-IsOwed msg awaiting = record {
  request = λ i k. sort_by-request (method_of msg) (id_of msg) awaiting _ i k;
  one_way = λ k. sort_by-notification (method_of msg) (id_of msg) awaiting _ k;
}
