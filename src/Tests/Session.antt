-- ===== src/Tests/Session.antt =====
-- The theorems about src/session.rs at concrete inputs.
use mcpdial.Base.{
  true, false, Option, none, some, List, [], ◌∷◌, Str, codes, str_eq, ◌≡◌, refl, arith,
}
use mcpdial.Json.{Value, str, arr, nil, cons, obj, end, field, lookup}
use mcpdial.Protocol.Errors.{http, transport, gone, Result, ok, err}
use mcpdial.Protocol.Incoming.{check}
use mcpdial.Protocol.Errors.{rpc, method_not_found}
use mcpdial.Json.{index, num, int}
use mcpdial.Protocol.Negotiate.{negotiate}
use mcpdial.Session.Opening.{hello}
use mcpdial.Session.{ask}
use mcpdial.Session.Opening.Legacy.{shaken, open_session-shaken}
use mcpdial.Protocol.Version
use mcpdial.Protocol.Version.{latest_legacy, v2025_06_18, v2026_07_28, is_modern}
use mcpdial.Session.{
  Transport, Session, fresh, offering, send, rounds, request_watching, asked_for_input,
}
use mcpdial.Session.Rounds.{IsSettled, request_watching-IsSettled}
use mcpdial.Session.Pages.{Serves, list_paginated, list_paginated-served, concat, next_cursor}
use mcpdial.Session.Opening.{open_session}
use mcpdial.Session.Opening.Pinned.{IsHeld, open_session-IsHeld}

-- A server that gives its replies one after another, and then is gone.
abbrev pub Scripted : Type 0
Scripted = List (Result (Option Value))

abbrev pub next_reply : Scripted → Value → Scripted × Result (Option Value)
next_reply [] message = ([], err (transport gone))
next_reply (r ∷ rs) message = (rs, r)

abbrev pub scripted : Transport Scripted
scripted = record { send_watching = next_reply; send_one = next_reply; negotiated = λ s v. s }

abbrev pub replying : Value → Result (Option Value)
replying result = ok (some (obj (field (codes "result") result end)))

abbrev demand : Value
demand = obj (field (codes "resultType") (str (codes "input_required")) end)

abbrev finished : Value
finished = obj (field (codes "resultType") (str (codes "complete")) end)

abbrev asked_once : Session Scripted
asked_once = fresh (replying demand ∷ replying finished ∷ [])

request_watching-IsSettled_example :
    IsSettled 5 asked_once (request_watching scripted asked_once (codes "tools/call") none false)
request_watching-IsSettled_example =
    request_watching-IsSettled scripted asked_once (codes "tools/call") none false

abbrev pub tool : Str → Value
tool name = obj (field (codes "name") (str name) end)

abbrev first_page : Value
first_page = obj (
    field (codes "nextCursor") (str (codes "c"))
      (field (codes "tools") (arr (cons (tool (codes "echo")) nil)) end))

abbrev last_page : Value
last_page = obj (field (codes "tools") (arr (cons (tool (codes "add")) nil)) end)

abbrev two_pages : Session Scripted
two_pages = offering (fresh (replying first_page ∷ replying last_page ∷ [])) latest_legacy

abbrev one_left : Session Scripted
one_left = record two_pages { carrier = replying last_page ∷ []; next_id = 1 }

abbrev all_read : Session Scripted
all_read = record two_pages { carrier = []; next_id = 2 }

abbrev tools_listed : List (List Value)
tools_listed = (tool (codes "echo") ∷ []) ∷ (tool (codes "add") ∷ []) ∷ []

served :
    Serves scripted (codes "tools/list") (codes "tools") two_pages none [] tools_listed all_read
unfolding request_watching send rounds asked_for_input lookup str_eq check next_cursor is_modern
served = (first_page, one_left, codes "c", refl, refl, refl, (last_page, refl, refl, refl))

list_paginated-served_example :
    list_paginated scripted (codes "tools/list") (codes "tools") two_pages
    ≡ (all_read, ok (concat tools_listed))
list_paginated-served_example =
    list_paginated-served scripted (codes "tools/list") (codes "tools") two_pages tools_listed
      all_read served (omega arith)

-- A server that knows no discovery, and a session pinned to the revision that has it.
abbrev pinned : Session Scripted
pinned = offering (fresh (err (http 404 [] none) ∷ [])) v2026_07_28

abbrev prints : Value → Str
prints v = codes "?"

abbrev reads : Str → Option Value
reads s = none

pinned_is_modern : is_modern pinned.version ≡ true
unfolding is_modern
pinned_is_modern = refl

open_session-IsHeld_example : IsHeld (open_session scripted prints reads pinned)
open_session-IsHeld_example = open_session-IsHeld scripted prints reads pinned refl pinned_is_modern

-- A server of the handshake era.
abbrev unknown_method : Value
unknown_method = obj (
    field (codes "error")
      (obj (
        field (codes "code") (num (int method_not_found))
          (field (codes "message") (str (codes "no")) end)))
      end)

abbrev says_version : Value
says_version = obj (field (codes "protocolVersion") (str (codes "2025-06-18")) end)

abbrev legacy : Session Scripted
legacy = fresh (ok (some unknown_method) ∷ replying says_version ∷ ok none ∷ [])

abbrev refused : Session Scripted
refused = record legacy { carrier = replying says_version ∷ ok none ∷ []; next_id = 1 }

abbrev greeted : Session Scripted
greeted = record legacy { carrier = ok none ∷ []; next_id = 2; version = latest_legacy }

was_refused :
    ask scripted legacy (codes "server/discover") none
    ≡ (refused, err (rpc method_not_found (codes "no") none))
unfolding request_watching send rounds asked_for_input lookup str_eq check is_modern
was_refused = refl

was_greeted :
    ask scripted
      (record refused { version = latest_legacy })
      (codes "initialize")
      (some (hello scripted prints (record refused { version = latest_legacy }) latest_legacy))
    ≡ (greeted, ok says_version)
unfolding request_watching send rounds asked_for_input lookup str_eq check is_modern
was_greeted = refl

was_agreed :
    negotiate prints latest_legacy (index says_version (codes "protocolVersion")) ≡ ok v2025_06_18
unfolding negotiate Version.parse str_eq lookup
was_agreed = refl

open_session-shaken_example : open_session scripted prints reads legacy ≡ (
  shaken scripted prints reads legacy refused greeted
      (codes "no")
      none
      says_version
      v2025_06_18
      []
      none,
  ok tt,
)
open_session-shaken_example =
    open_session-shaken scripted prints reads legacy refused greeted (codes "no") none says_version
      v2025_06_18 [] none refl refl was_refused was_greeted was_agreed refl
