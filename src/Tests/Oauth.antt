-- ===== src/Tests/Oauth.antt =====
-- The theorems about src/oauth.rs at concrete inputs.
use mcpdial.Base.{
  true, Option, none, some, List, [], ◌∷◌, Str, codes, ◌≡◌, arith, All, ◌↔◌, map, ℕ, refl,
}
use mcpdial.Protocol.Errors.{ok}
use mcpdial.Config.Credentials.{Credential}
use mcpdial.Oauth.Encoding.{query_params}
use mcpdial.Oauth.Encoding.RoundTrip.{IsPair, utf8_pair, write_query, query_params-write_query}
use mcpdial.Oauth.Callback.{ExpectedIssuer, callback_result, IsFrom, param, callback_result-ok_iff}
use mcpdial.Tests.Config.{bearer}

-- Texts as their characters: `state` is é, a blank, € and an emoji.
abbrev spoken : List (List ℕ × List ℕ)
spoken = (codes "code", codes "a&b=c") ∷ (codes "state", 233 ∷ 32 ∷ 8364 ∷ 128_512 ∷ []) ∷ []

spoken-chars : All IsPair spoken
spoken-chars = ground arith

query_params-write_query_example :
    query_params (write_query (map utf8_pair spoken)) ≡ some (map utf8_pair spoken)
query_params-write_query_example = query_params-write_query spoken spoken-chars

-- A byte that no character has is read as U+FFFD.
broken_decoded :
    query_params (codes "a=%FF%C3b%E2%82")
    ≡ some ((codes "a", 239 ∷ 191 ∷ 189 ∷ 239 ∷ 191 ∷ 189 ∷ 98 ∷ 239 ∷ 191 ∷ 189 ∷ []) ∷ [])
unfolding query_params
broken_decoded = refl

abbrev from_as : ExpectedIssuer
from_as = record { issuer = codes "https://as"; always_sent = true }

abbrev response : List (Str × Str)
response =
    (codes "iss", codes "https://as")
    ∷ (codes "state", codes "s1")
    ∷ (codes "code", codes "c1")
    ∷ []

callback_result-ok_iff_example :
    (callback_result response (codes "s1") from_as ≡ ok (codes "c1")) ↔ (
      IsFrom from_as (param (codes "iss") response)
      × (param (codes "error") response ≡ none)
      × (param (codes "state") response ≡ some (codes "s1"))
      × (param (codes "code") response ≡ some (codes "c1")))
callback_result-ok_iff_example = callback_result-ok_iff response (codes "s1") from_as (codes "c1")

abbrev not_given : Option Str
not_given = none

abbrev earlier : Credential
earlier = record bearer { client_id = some (codes "id1"); registration = some (codes "dynamic") }
