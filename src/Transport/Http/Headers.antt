-- ===== src/Transport/Http/Headers.antt =====
-- src/transport/http.rs: the headers that mirror the body of a 2026-07-28 request. The base64 of
-- the bytes of a text is a parameter.
pub mod Value
use mcpdial.Base.{
  ℕ, Bool, true, false, not, ◌||◌, ◌&&◌, Option, none, some, List, [], ◌∷◌, ◌++◌, Str, codes,
  str_eq, if◌then◌else◌, all, trim, starts_with, leb, ◌==◌, map_opt,
}
use mcpdial.Json
use mcpdial.Json.{index, as_str}
use mcpdial.Protocol.Meta.{meta_protocol_version}

abbrev pub encoded_open : Str
encoded_open = codes "=?base64?"

abbrev pub encoded_close : Str
encoded_close = codes "?="

-- `s.ends_with(t)`, the end first.
unfoldable pub ends_with : Str → Str → Bool
unfolding starts_with str_eq
ends_with t [] = str_eq t []
ends_with t (c ∷ s) = str_eq t (c ∷ s) || ends_with t s

abbrev pub printable : ℕ → Bool
printable c = leb b' ' c && leb c b'~' || c == 9

unfoldable pub goes_as_it_is : Str → Bool
goes_as_it_is value =
    all printable value
    && str_eq (trim value) value
    && not (starts_with encoded_open value && ends_with encoded_close value)

-- What `Mcp-Name` names.
unfoldable pub subject_of : Str → Json.Value → Option Str
subject_of method params =
    if str_eq method (codes "tools/call") || str_eq method (codes "prompts/get")
    then as_str (index params (codes "name"))
    else if str_eq method (codes "resources/read")
    then as_str (index params (codes "uri"))
    else none

module _ (encode : Str → Str) where
  unfoldable pub header_value : Str → Str
  header_value value =
      if goes_as_it_is value then value else encoded_open ++ encode value ++ encoded_close

  abbrev name_header : Option Str → List (Str × Str)
  name_header none = []
  name_header (some subject) = (codes "Mcp-Name", header_value subject) ∷ []

  abbrev headers_for : Option Str → Option Str → Json.Value → List (Str × Str)
  headers_for (some version) (some method) params =
      (codes "MCP-Protocol-Version", version)
      ∷ (codes "Mcp-Method", method)
      ∷ name_header (subject_of method params)
  headers_for _ _ params = []

  unfoldable pub mirrored_headers : Json.Value → List (Str × Str)
  mirrored_headers payload =
      let params = index payload (codes "params") in
      headers_for (as_str (index (index params (codes "_meta")) meta_protocol_version))
        (as_str (index payload (codes "method"))) params
