-- ===== src/Transport/Retry.antt =====
-- src/transport/retry.rs: one more attempt, and only where it is safe. A `Duration` is a number of
-- milliseconds; the set of tool names is a list without repetition.
pub mod Delay
pub mod Tools
use Prim.Native.Nat.{min}
use mcpdial.Base.{
  ℕ, ◌*◌, Bool, true, false, not, ◌||◌, ◌&&◌, Option, none, some, List, [], ◌∷◌, Str, codes, str_eq,
  if◌then◌else◌, any, and_then, map_opt, trim, parse_uint, u64_max, ◌==◌, leb, unwrap_or,
}
use mcpdial.Json.{Value, bool, index, as_str, as_array, value_eq}

-- RETRY_DELAY.
abbrev pub retry_delay : ℕ
retry_delay = 500

abbrev pub idempotent_methods : List Str
idempotent_methods =
    codes "server/discover"
    ∷ codes "initialize"
    ∷ codes "tools/list"
    ∷ codes "resources/list"
    ∷ codes "resources/templates/list"
    ∷ codes "prompts/list"
    ∷ codes "ping"
    ∷ []

pub data Failure : Type 0 where
  unreached : (reason : Str) → Failure
  status : (code : ℕ) (retry_after : Option ℕ) → Failure
  interrupted : Failure
  final : Failure

pub record Retry : Type 0 where
  pub enabled : Bool
  pub timeout : ℕ

unfoldable pub worth_retrying : Bool → Bool → Failure → Bool
worth_retrying idempotent session_started (unreached reason) = true
worth_retrying idempotent session_started (status code wait) =
    if code == 429
    then true
    else if leb 502 code && leb code 504
    then idempotent || not session_started
    else false
worth_retrying idempotent session_started final = false
worth_retrying idempotent session_started interrupted = idempotent

abbrev pub wait_for : Retry → Failure → ℕ
wait_for r (status code (some wait)) = min wait r.timeout
wait_for r _ = retry_delay

-- `Retry::delay`.
unfoldable pub delay : Retry → Bool → Bool → Failure → Option ℕ
delay r idempotent session_started failure =
    if not r.enabled || not (worth_retrying idempotent session_started failure)
    then none
    else some (wait_for r failure)

-- The errors of the HTTP client, as far as the source tells them apart.
pub data ErrorKind : Type 0 where
  connection_refused connection_reset connection_aborted broken_pipe unexpected_eof : ErrorKind
  other : ErrorKind

pub data UreqError : Type 0 where
  host_not_found connection_failed timeout otherwise : UreqError
  io : ErrorKind → UreqError

abbrev io_reason : ErrorKind → Str
io_reason connection_refused = codes "connection refused"
io_reason connection_reset = codes "connection reset"
io_reason connection_aborted = codes "connection reset"
io_reason broken_pipe = codes "connection closed"
io_reason unexpected_eof = codes "connection closed"
io_reason other = codes "connection error"

abbrev pub before_any_reply : UreqError → Failure
before_any_reply host_not_found = unreached (codes "DNS failure")
before_any_reply connection_failed = unreached (codes "connection failure")
before_any_reply (io kind) = unreached (io_reason kind)
before_any_reply timeout = final
before_any_reply otherwise = final

-- The `Retry-After` header in seconds, as milliseconds.
unfoldable pub retry_after : Option Str → Option ℕ
retry_after header = map_opt (λ s. s * 1000) (and_then header λ h. parse_uint u64_max (trim h))

abbrev pub contains_name : List Str → Str → Bool
contains_name names name = any (λ n. str_eq n name) names

unfoldable pub is_idempotent : Value → List Str → Bool
is_idempotent payload tools = elim (as_str (index payload (codes "method"))) [
  | none ↦ false
  | some method ↦
      if contains_name idempotent_methods method
      then true
      else if str_eq method (codes "tools/call")
      then unwrap_or false (
          map_opt (contains_name tools)
            (as_str (index (index payload (codes "params")) (codes "name"))))
      else false
]

-- `HashSet::insert` and `HashSet::remove`.
unfoldable pub insert_name : Str → List Str → List Str
insert_name name names = if contains_name names name then names else name ∷ names

unfoldable pub remove_name : Str → List Str → List Str
remove_name name [] = []
remove_name name (n ∷ names) =
    let rest = remove_name name names in if str_eq n name then rest else n ∷ rest

abbrev pub has_hint : Value → Bool
has_hint tool =
    value_eq (index (index tool (codes "annotations")) (codes "idempotentHint")) (bool true)

unfoldable pub note_tool : List Str → Value → List Str
note_tool names tool = elim (as_str (index tool (codes "name"))) [
  | none ↦ names
  | some name ↦ if has_hint tool then insert_name name names else remove_name name names
]

unfoldable pub note_each : List Str → List Value → List Str
note_each names [] = names
note_each names (tool ∷ tools) = note_each (note_tool names tool) tools

unfoldable pub note_tools : List Str → Value → List Str
unfolding note_each
note_tools names reply = elim (as_array (index (index reply (codes "result")) (codes "tools"))) [
  | none ↦ names
  | some tools ↦ note_each names tools
]
