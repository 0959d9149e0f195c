-- ===== src/Session/Opening/Legacy.antt =====
-- A server that never heard of discovery gets the handshake.
use mcpdial.Base.{
  Bool, true, false, Option, none, some, Str, codes, ◌≡◌, refl, sym, ap, ◌∙◌, str_eq, str_lt,
}
use mcpdial.Json.{Value, insert, lookup, index}
use mcpdial.Protocol.Errors.{rpc, method_not_found, Result, ok, err, is_modern_error}
use mcpdial.Protocol.Messages.{notify}
use mcpdial.Protocol.Meta.{rpc_error}
use mcpdial.Protocol.Negotiate.{negotiate}
use mcpdial.Protocol.Version.{KnownVersion, is_modern, latest, latest_legacy, version_ge}
use mcpdial.Session.{Transport, Session, ask, tell}
use mcpdial.Session.Rounds.{request_watching-IsSettled}
use mcpdial.Session.Opening.{
  discover, initialize, hello, instead_of_discovering, fall_back, after_discovery, bring_up,
  after_expectation, open_session,
}

instead_of_unknown :
    (from_str : Str → Option Value) (version : KnownVersion) (message : Str) (detail : Option Value)
    → instead_of_discovering from_str false version (rpc method_not_found message detail)
      ≡ ok (some latest_legacy)
unfolding instead_of_discovering rpc_error insert lookup str_eq str_lt is_modern_error
instead_of_unknown from_str version message detail = refl

module _ {S : Type 0} (T : Transport S) (to_string : Value → Str) (from_str : Str → Option Value)
    (s t u : Session S) (message : Str) (detail : Option Value) (info : Value) (v : KnownVersion)
    (c : S) (r : Option Value) where
  -- The session once the handshake is done.
  abbrev pub shaken : Session S
  shaken = record u { version = v; server_info = info; carrier = c }

  module _ (unpinned : s.pinned ≡ false) (newest : s.version ≡ latest)
      (unknown : ask T s (codes "server/discover") none
        ≡ (t, err (rpc method_not_found message detail)))
      (greeted : ask T
          (record t { version = latest_legacy })
          (codes "initialize")
          (some (hello T to_string (record t { version = latest_legacy }) latest_legacy))
        ≡ (u, ok info))
      (agreed : negotiate to_string latest_legacy (index info (codes "protocolVersion")) ≡ ok v)
      (told : T.send_one
          (T.negotiated u.carrier v)
          (notify (codes "notifications/initialized") none)
        ≡ (c, ok r)) where
    discover_refused : discover T s ≡ (t, err (rpc method_not_found message detail))
    unfolding discover
    discover_refused = rw unknown refl

    initialize_done :
        initialize T to_string (record t { version = latest_legacy }) ≡ (shaken, ok tt)
    unfolding initialize tell version_ge
    initialize_done = rw (greeted, agreed, told) refl

    still_unpinned : t.pinned ≡ false
    still_unpinned =
        ap (λ (o : Session S × Result Value). o.0.pinned) (sym unknown)
        ∙ (request_watching-IsSettled T s (codes "server/discover") none false).used.same_pinned
        ∙ unpinned

    fallen_back :
        after_discovery T to_string from_str (t, err (rpc method_not_found message detail))
        ≡ (shaken, ok tt)
    fallen_back =
        ap
          (λ (b : Bool).
            fall_back T to_string from_str t (rpc method_not_found message detail)
              (instead_of_discovering from_str b t.version (rpc method_not_found message detail)))
          still_unpinned
        ∙ ap (fall_back T to_string from_str t (rpc method_not_found message detail))
            (instead_of_unknown from_str t.version message detail)
        ∙ initialize_done

    modern : is_modern s.version ≡ true
    unfolding is_modern
    modern = ap is_modern newest

    brought_up : bring_up T to_string from_str s ≡ (shaken, ok tt)
    unfolding bring_up
    brought_up = rw (modern, discover_refused) fallen_back

    -- An unpinned session whose server answers discovery with "method not found" and a handshake with a
    -- version the client speaks is opened at that version, with what the server said of itself, once it
    -- has sent the notification that ends the handshake.
    pub open_session-shaken : open_session T to_string from_str s ≡ (shaken, ok tt)
    unfolding open_session
    open_session-shaken = ap (after_expectation T to_string from_str) brought_up
