-- ===== src/Config/Servers.antt =====
-- src/config.rs: `ServerConfig`, `Source` and `Credential`, what a configuration allows, where a
-- server is, and the configuration with its `${..}` expanded. The file formats are serde's.
pub mod Allowed
use mcpdial.Base.{
  Str, Bool, true, false, Option, none, some, List, [], ◌∷◌, ℕ, any, is_empty, not, ◌&&◌, ◌||◌,
  if◌then◌else◌, or_else, unwrap_or, is_some, str_eq, codes, leb, ◌+◌, Map, put_key, ◌++◌,
}
use mcpdial.Json.{Number}
use mcpdial.Protocol.Errors.{
  Message, Error, Result, ok, err, ◌>>=◌, config, denied, refers_to_unset,
}
use mcpdial.Config.Glob.{matches_glob}
use mcpdial.Config.Expand.{filled, unset, substitute}

pub record Source : Type 0 where
  pub catalog : Option Str
  pub registry : Option Str
  pub version : Option Str

-- `Source::label`.
unfoldable pub label : Source → Str
label s = unwrap_or [] (or_else s.catalog s.registry)

pub record ServerConfig : Type 0 where
  pub http : Option Str
  pub stdio : Option Str
  pub headers : Map Str
  pub token_env : Option Str
  pub env : Map Str
  pub cwd : Option Str
  pub protocol_version : Option Str
  pub timeout : Option Number
  pub source : Option Source
  pub allow : List Str
  pub deny : List Str

-- `ServerConfig::default`, `ServerConfig::http` and `ServerConfig::stdio`.
abbrev pub default_config : ServerConfig
default_config = record {
  http = none;
  stdio = none;
  headers = [];
  token_env = none;
  env = [];
  cwd = none;
  protocol_version = none;
  timeout = none;
  source = none;
  allow = [];
  deny = [];
}

abbrev pub http_config : Str → ServerConfig
http_config url = record default_config { http = some url }

abbrev pub stdio_config : Str → ServerConfig
stdio_config cmd = record default_config { stdio = some cmd }

unfoldable pub kind : ServerConfig → Str
kind c = if is_some c.http then codes "http" else codes "stdio"

unfoldable pub location : ServerConfig → Str
location c = unwrap_or [] (or_else c.http c.stdio)

abbrev says_from : Str → ServerConfig → Bool
says_from id c = elim c.source [
  | none ↦ false
  | some s ↦ elim s.catalog [ none ↦ false | some k ↦ str_eq k id ]
]

unfoldable pub saved_from_catalog : Map ServerConfig → Str → Option Str
saved_from_catalog [] id = none
saved_from_catalog ((name, c) ∷ servers) id =
    if says_from id c then some name else saved_from_catalog servers id

pub data Denial : Type 0 where
  by_deny_list : Denial
  not_allowed : Denial

-- `Denial::list`.
abbrev pub list_of : Denial → Str
list_of by_deny_list = codes "deny list"
list_of not_allowed = codes "allow list"

abbrev pub hits : List Str → Str → Bool
hits patterns tool = any (λ p. matches_glob p tool) patterns

-- `ServerConfig::denial`.
unfoldable pub denial : ServerConfig → Str → Option Denial
denial c tool =
    if hits c.deny tool
    then some by_deny_list
    else if not (is_empty c.allow) && not (hits c.allow tool)
    then some not_allowed
    else none

abbrev pub refusal : Str → Str → Option Denial → Result (Unit {0})
refusal name tool none = ok tt
refusal name tool (some why) = err (config (denied tool name (list_of why)))

unfoldable pub refuse_denied : ServerConfig → Str → Str → Result (Unit {0})
unfolding denial
refuse_denied c name tool = refusal name tool (denial c tool)

module _ (lookup : Str → Option Str) where
  -- The closure `fill` of `expanded`.
  unfoldable pub fill_in : Str → Str → Result Str
  unfolding substitute
  fill_in what text = elim (substitute lookup text) [
    | filled out ↦ ok out
    | unset variable ↦ err (config (refers_to_unset what variable))
  ]

  -- `.map(|u| fill(..)).transpose()`.
  unfoldable pub fill_option : Str → Option Str → Result (Option Str)
  unfolding fill_in
  fill_option what none = ok none
  fill_option what (some text) = fill_in what text >>= λ out. ok (some out)

  -- The two loops over `headers` and `env`, which fill a new map.
  unfoldable pub fill_map : Str → Map Str → Map Str → Result (Map Str)
  unfolding fill_in
  fill_map what [] done = ok done
  fill_map what ((name, value) ∷ m) done =
      fill_in (what ++ name) value >>= λ out. fill_map what m (put_key name out done)

  unfoldable pub expanded : ServerConfig → Result ServerConfig
  unfolding fill_option fill_map
  expanded c = fill_map (codes "header ") c.headers [] >>= λ headers.
      fill_map (codes "env ") c.env [] >>= λ env. fill_option (codes "http URL") c.http >>= λ http.
      fill_option (codes "stdio command") c.stdio >>= λ stdio.
      fill_option (codes "cwd") c.cwd >>= λ cwd.
      ok (record c { headers = headers; env = env; http = http; stdio = stdio; cwd = cwd })
