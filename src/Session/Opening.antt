-- ===== src/Session/Opening.antt =====
-- src/session.rs, `open`: how a session finds out which era a server speaks. Reading the body of an
-- HTTP error and the JSON text of a value are parameters.
pub mod Pinned
pub mod Legacy
use mcpdial.Base.{
  ℕ, Bool, true, false, not, ◌&&◌, ◌||◌, Option, none, some, List, [], ◌∷◌, Str, codes,
  if◌then◌else◌, and_then, map_opt, is_some, unwrap_or, ◌==◌, int_eq, ℤ,
}
use mcpdial.Json.{
  Value, null, str, obj, Fields, end, field, insert, lookup, get, index, as_str, as_array, as_i64,
  is_object,
}
use mcpdial.Protocol.Version.{
  KnownVersion, Era, discovery, handshake, is_modern, latest, latest_legacy, version_ge,
}
use mcpdial.Protocol.Version
use mcpdial.Protocol.Errors.{
  Error, rpc, http, transport, no_discovery, speaks_neither, method_not_found,
  unsupported_protocol_version, is_modern_error, Result, ok, err,
}
use mcpdial.Protocol.Meta.{rpc_error, client_info, or_insert}
use mcpdial.Protocol.Negotiate.{negotiate}
use mcpdial.Session.{Transport, Session, on_ok, ask, tell}

abbrev pub meta_server_info : Str
meta_server_info = codes "io.modelcontextprotocol/serverInfo"

-- `newest_with_a_handshake`.
abbrev pub handshakes : List Value → List KnownVersion
handshakes [] = []
handshakes (v ∷ vs) = elim (and_then (as_str v) Version.parse) [
  | none ↦ handshakes vs
  | some version ↦ if is_modern version then handshakes vs else version ∷ handshakes vs
]

abbrev pub newest : List KnownVersion → Option KnownVersion
newest [] = none
newest (v ∷ vs) = elim (newest vs) [
  | none ↦ some v
  | some w ↦ if version_ge w v then some w else some v
]

unfoldable pub newest_with_a_handshake : Value → Option KnownVersion
newest_with_a_handshake supported =
    and_then (as_array supported) (λ versions. newest (handshakes versions))

-- An HTTP status that reads as "no such method".
abbrev pub is_refusal : ℕ → Bool
is_refusal status = status == 400 || status == 404 || status == 405

abbrev pub is_refused_http : Error → Bool
is_refused_http (http status body www) = is_refusal status
is_refused_http _ = false

abbrev pub reads_as_no_such_method : Error → Bool
reads_as_no_such_method (rpc code message detail) = true
reads_as_no_such_method e = is_refused_http e

abbrev pub code_is : (ℤ → Bool) → Option ℤ → Bool
code_is p none = false
code_is p (some c) = p c

module _ (from_str : Str → Option Value) where
  abbrev pub code_of : Error → Option ℤ
  code_of refused = and_then (rpc_error from_str refused) (λ e. as_i64 (index e (codes "code")))

  unfoldable pub moved_past_the_handshake : Error → Bool
  moved_past_the_handshake refused =
      code_is (λ c. int_eq c method_not_found || is_modern_error c) (code_of refused)
      || is_refused_http refused

  -- `instead_of_discovering`.
  abbrev pub supported : Error → Value
  supported refused = elim (rpc_error from_str refused) [
    | none ↦ null
    | some e ↦ index (index e (codes "data")) (codes "supported")
  ]

  abbrev pub usable : Value → KnownVersion → Option KnownVersion → Result (Option KnownVersion)
  usable named tried none = err (transport (speaks_neither named tried))
  usable named tried (some version) = ok (some version)

  unfoldable pub instead_of_discovering : Bool → KnownVersion → Error → Result (Option KnownVersion)
  instead_of_discovering pinned version refused =
      let named = supported refused in
      if code_is (λ c. int_eq c unsupported_protocol_version) (code_of refused)
      then usable named version (if pinned then none else newest_with_a_handshake named)
      else if pinned || code_is is_modern_error (code_of refused)
      then ok none
      else if reads_as_no_such_method refused
      then ok (some latest_legacy)
      else ok none

-- What `discover` keeps of a result that is an object.
abbrev pub name_server : Option Value → Fields → Fields
name_server none fs = fs
name_server (some meta) fs =
    let info = index meta meta_server_info in
    if is_object info then or_insert (codes "serverInfo") info fs else fs

abbrev pub discovered : KnownVersion → Fields → Fields
discovered version fs =
    insert (codes "protocolVersion") (str (Version.as_str version))
      (name_server (lookup (codes "_meta") fs) fs)

module _ {S : Type 0} (T : Transport S) where
  abbrev pub keep_discovery : Session S → Value → Session S × Result {0} Unit
  keep_discovery s (obj fs) = (record s { server_info = obj (discovered s.version fs) }, ok tt)
  keep_discovery s other = (s, err (transport (no_discovery other)))

  unfoldable pub discover : Session S → Session S × Result {0} Unit
  discover s = on_ok (ask T s (codes "server/discover") none) keep_discovery

  module _ (to_string : Value → Str) where
    -- `initialize`.
    abbrev pub settle_version :
        Session S → Value → Result KnownVersion → Session S × Result {0} Unit
    settle_version s info (err e) = (s, err e)
    settle_version s info (ok version) =
        tell T
          (record s {
            version = version;
            server_info = info;
            carrier = T.negotiated s.carrier version;
          })
          (codes "notifications/initialized") none

    abbrev pub hello : Session S → KnownVersion → Value
    hello s offered = obj (
        insert (codes "clientInfo") client_info (
          insert (codes "capabilities") s.capabilities
            (insert (codes "protocolVersion") (str (Version.as_str offered)) end)))

    unfoldable pub initialize : Session S → Session S × Result {0} Unit
    initialize s =
        let offered = if version_ge latest_legacy s.version then s.version else latest_legacy in
        on_ok (ask T (record s { version = offered }) (codes "initialize") (some (hello s offered)))
          (λ t info.
            settle_version t info
              (negotiate to_string offered (index info (codes "protocolVersion"))))

    module _ (from_str : Str → Option Value) where
      -- `bring_up`.
      abbrev pub fall_back :
          Session S → Error → Result (Option KnownVersion) → Session S × Result {0} Unit
      fall_back s refused (err e) = (s, err e)
      fall_back s refused (ok none) = (s, err refused)
      fall_back s refused (ok (some version)) = initialize (record s { version = version })

      abbrev pub after_discovery : Session S × Result {0} Unit → Session S × Result {0} Unit
      after_discovery (s, ok u) = (s, ok u)
      after_discovery (s, err refused) =
          fall_back s refused (instead_of_discovering from_str s.pinned s.version refused)

      unfoldable pub bring_up : Session S → Session S × Result {0} Unit
      bring_up s = if is_modern s.version then after_discovery (discover s) else initialize s

      -- `open`.
      abbrev pub is_handshake : Option Era → Bool
      is_handshake (some handshake) = true
      is_handshake _ = false

      abbrev pub after_expectation : Session S × Result {0} Unit → Session S × Result {0} Unit
      after_expectation (s, ok u) = (s, ok u)
      after_expectation (s, err refused) =
          let anew = bring_up (record s { expected = none; version = latest }) in
          if is_handshake s.expected && moved_past_the_handshake from_str refused
          then anew
          else (s, err refused)

      unfoldable pub open_session : Session S → Session S × Result {0} Unit
      open_session s = after_expectation (bring_up s)
