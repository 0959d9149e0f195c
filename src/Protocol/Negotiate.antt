-- ===== src/Protocol/Negotiate.antt =====
-- src/protocol.rs, `negotiate`: the version a session runs on. The JSON text of a value is a
-- parameter.
use mcpdial.Base.{◌≡◌, ◌≢◌, ◌↔◌, ◌⊎◌, Str, arith}
use mcpdial.Json.{Value, null, bool, num, str, arr, obj}
use mcpdial.Protocol.Errors.{transport, unknown_version, Result, ok, ok_or}
use mcpdial.Protocol.Version
use mcpdial.Protocol.Version.{KnownVersion, as_str}
use mcpdial.Protocol.Version.Order.{parse-eq-some_iff}

abbrev known : KnownVersion → Str → Result KnownVersion
known offered answered =
    ok_or (Version.parse answered) (transport (unknown_version answered offered))

module _ (to_string : Value → Str) where
  unfoldable pub negotiate : KnownVersion → Value → Result KnownVersion
  negotiate offered null = ok offered
  negotiate offered (str s) = known offered s
  negotiate offered other = known offered (to_string other)

known_iff : (offered v : KnownVersion) (s : Str) → (known offered s ≡ ok v) ↔ (s ≡ as_str v)
known_iff offered v s = ground (arith, parse-eq-some_iff s v)

module _ (to_string : Value → Str)
    (apart : (j : Value) (k : KnownVersion) → to_string j ≢ as_str k) where
  known-apart : (offered v : KnownVersion) (j : Value) → known offered (to_string j) ≢ ok v
  known-apart offered v j h = apart j v ((known_iff offered v (to_string j)).0 h)

  -- A session runs on version `v` exactly when the server named none and `v` was offered, or when
  -- it answered with the text of `v`: it never runs on a version that the client does not speak.
  -- The JSON text of a value is taken never to be a bare date.
  pub negotiate-eq-ok_iff :
      (offered : KnownVersion) (answered : Value) (v : KnownVersion)
      → (negotiate to_string offered answered ≡ ok v)
        ↔ (((answered ≡ null) × (v ≡ offered)) ⊎ (answered ≡ str (as_str v)))
  unfolding negotiate
  negotiate-eq-ok_iff offered null v = ground arith
  negotiate-eq-ok_iff offered (str s) v = ground (arith, known_iff offered v s)
  negotiate-eq-ok_iff offered (bool b) v =
      (λ h. absurd (known-apart offered v (bool b) h), λ h. absurd (ground arith))
  negotiate-eq-ok_iff offered (num b) v =
      (λ h. absurd (known-apart offered v (num b) h), λ h. absurd (ground arith))
  negotiate-eq-ok_iff offered (arr b) v =
      (λ h. absurd (known-apart offered v (arr b) h), λ h. absurd (ground arith))
  negotiate-eq-ok_iff offered (obj b) v =
      (λ h. absurd (known-apart offered v (obj b) h), λ h. absurd (ground arith))
