-- ===== src/Session/Opening/Pinned.antt =====
-- A pinned revision is the one spoken: nothing falls back behind it.
use mcpdial.Base.{
  Bool, true, false, ◌&&◌, Option, none, some, Str, codes, if◌then◌else◌, ◌≡◌, ◌≢◌, refl, ◌∙◌, inl,
  inr, Bool-cases, int_eq,
}
use mcpdial.Json.{Value, obj, null, bool, num, str, arr}
use mcpdial.Protocol.Errors.{Error, Result, ok, err, unsupported_protocol_version}
use mcpdial.Protocol.Version.{
  KnownVersion, v2026_07_28, v2025_11_25, v2025_06_18, v2025_03_26, is_modern, latest,
}
use mcpdial.Session.{Transport, Session, on_ok, ask}
use mcpdial.Session.Rounds.{IsUsed, request_watching-IsSettled}
use mcpdial.Session.Opening.{
  keep_discovery, discover, instead_of_discovering, code_is, code_of, fall_back, after_discovery,
  bring_up, is_handshake, moved_past_the_handshake, after_expectation, open_session,
}

version_of_modern : (v : KnownVersion) → is_modern v ≡ true → v ≡ latest
unfolding is_modern
version_of_modern v2026_07_28 h = refl
version_of_modern v2025_11_25 h = cc
version_of_modern v2025_06_18 h = cc
version_of_modern v2025_03_26 h = cc

newest_modern : (v : KnownVersion) → v ≡ latest → is_modern v ≡ true
unfolding is_modern
newest_modern v e = rw e refl

-- With a pinned revision, no other one is tried in place of discovery.
instead-ne-some :
    (from_str : Str → Option Value) (version v : KnownVersion) (refused : Error)
    → instead_of_discovering from_str true version refused ≢ ok (some v)
unfolding instead_of_discovering
instead-ne-some from_str version v refused =
    elim (Bool-cases
      (code_is (λ c. int_eq c unsupported_protocol_version) (code_of from_str refused))) [
        | inl e ↦ rw e (λ h. cc)
        | inr e ↦ rw e (λ h. cc)
      ]

module _ {S : Type 0} where
  -- A session that is pinned still and, if it is open, speaks the newest revision.
  abbrev pub IsHeld : Session S × Result {0} Unit → Type 0
  IsHeld (t, ok u) = (t.pinned ≡ true) × (t.version ≡ latest)
  IsHeld (t, err e) = t.pinned ≡ true

  module _ (T : Transport S) where
    keep-IsHeld :
        (s : Session S) (result : Value)
        → s.pinned ≡ true
        → s.version ≡ latest
        → IsHeld (keep_discovery T s result)
    keep-IsHeld s (obj fs) p v = (p, v)
    keep-IsHeld s null p v = p
    keep-IsHeld s (bool b) p v = p
    keep-IsHeld s (num b) p v = p
    keep-IsHeld s (str b) p v = p
    keep-IsHeld s (arr b) p v = p

    on_ok-IsHeld :
        (s : Session S) (out : Session S × Result Value)
        → IsUsed 5 s out.0
        → s.pinned ≡ true
        → s.version ≡ latest
        → IsHeld (on_ok out (keep_discovery T))
    on_ok-IsHeld s (t, err e) used p v = used.same_pinned ∙ p
    on_ok-IsHeld s (t, ok r) used p v =
        keep-IsHeld t r (used.same_pinned ∙ p) (used.same_version ∙ v)

    discover-IsHeld : (s : Session S) → s.pinned ≡ true → s.version ≡ latest → IsHeld (discover T s)
    unfolding discover
    discover-IsHeld s p v =
        on_ok-IsHeld s (ask T s (codes "server/discover") none)
          (request_watching-IsSettled T s (codes "server/discover") none false).used p v

    module _ (to_string : Value → Str) (from_str : Str → Option Value) where
      fall_back-IsHeld :
          (t : Session S) (refused : Error) (o : Result (Option KnownVersion))
          → t.pinned ≡ true
          → ((v : KnownVersion) → o ≢ ok (some v))
          → IsHeld (fall_back T to_string from_str t refused o)
      fall_back-IsHeld t refused (err e) p none_else = p
      fall_back-IsHeld t refused (ok none) p none_else = p
      fall_back-IsHeld t refused (ok (some v)) p none_else = absurd (none_else v refl)

      after_discovery-IsHeld :
          (out : Session S × Result {0} Unit)
          → IsHeld out
          → IsHeld (after_discovery T to_string from_str out)
      after_discovery-IsHeld (t, ok u) h = h
      after_discovery-IsHeld (t, err refused) p =
          fall_back-IsHeld t refused (instead_of_discovering from_str t.pinned t.version refused) p
            (rw p (λ v. instead-ne-some from_str t.version v refused))

      bring_up-IsHeld :
          (s : Session S)
          → s.pinned ≡ true
          → s.version ≡ latest
          → IsHeld (bring_up T to_string from_str s)
      unfolding bring_up
      bring_up-IsHeld s p v =
          rw (newest_modern s.version v)
            (after_discovery-IsHeld (discover T s) (discover-IsHeld s p v))

      if-IsHeld :
          (b : Bool) (x y : Session S × Result {0} Unit)
          → IsHeld x
          → IsHeld y
          → IsHeld (if b then x else y)
      if-IsHeld true x y hx hy = hx
      if-IsHeld false x y hx hy = hy

      after_expectation-IsHeld :
          (out : Session S × Result {0} Unit)
          → IsHeld out
          → IsHeld (after_expectation T to_string from_str out)
      after_expectation-IsHeld (t, ok u) h = h
      after_expectation-IsHeld (t, err refused) p =
          if-IsHeld
            (is_handshake T to_string from_str t.expected
              && moved_past_the_handshake from_str refused)
            _ _ (bring_up-IsHeld _ p refl) p

      -- A session pinned to the newest revision that opens, opens at that revision, whatever the server
      -- answers and whatever era was expected: it never falls back to the handshake.
      pub open_session-IsHeld :
          (s : Session S)
          → s.pinned ≡ true
          → is_modern s.version ≡ true
          → IsHeld (open_session T to_string from_str s)
      unfolding open_session
      open_session-IsHeld s p modern =
          after_expectation-IsHeld (bring_up T to_string from_str s)
            (bring_up-IsHeld s p (version_of_modern s.version modern))
