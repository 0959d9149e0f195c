-- ===== src/Notify.antt =====
-- src/notify.rs: what a server's notification says. Printing JSON is a parameter. A number of
-- progress is kept as the JSON number that the code turns into an `f64`; the rendering of such a
-- number (`summary`) is left out.
pub mod Plain
use mcpdial.Base.{
  ℕ, ◌+◌, ◌/◌, ◌%◌, Bool, true, false, not, ◌&&◌, ◌||◌, Option, none, some, List, [], ◌∷◌, ◌++◌,
  Str, codes, str_eq, trim, to_ascii_lowercase, if◌then◌else◌, find, ltb, leb, ◌==◌, and_then,
  map_opt, unwrap_or,
}
use mcpdial.Json.{Value, null, str, num, Number, get, index, as_str, value_eq}

abbrev pub progress_method : Str
progress_method = codes "notifications/progress"

abbrev pub message_method : Str
message_method = codes "notifications/message"

abbrev pub resource_updated_method : Str
resource_updated_method = codes "notifications/resources/updated"

abbrev pub acknowledged_method : Str
acknowledged_method = codes "notifications/subscriptions/acknowledged"

pub data Listing : Type 0 where
  tools resources prompts : Listing

abbrev pub all_listings : List Listing
all_listings = tools ∷ resources ∷ prompts ∷ []

abbrev pub changed_method : Listing → Str
changed_method tools = codes "notifications/tools/list_changed"
changed_method resources = codes "notifications/resources/list_changed"
changed_method prompts = codes "notifications/prompts/list_changed"

abbrev pub listen_key : Listing → Str
listen_key tools = codes "toolsListChanged"
listen_key resources = codes "resourcesListChanged"
listen_key prompts = codes "promptsListChanged"

unfoldable pub of_method : Str → Option Listing
of_method method = find (λ l. str_eq (changed_method l) method) all_listings

pub data Level : Type 0 where
  debug info notice warning error critical alert emergency : Level

abbrev pub all_levels : List Level
all_levels = debug ∷ info ∷ notice ∷ warning ∷ error ∷ critical ∷ alert ∷ emergency ∷ []

abbrev pub level_name : Level → Str
level_name debug = codes "debug"
level_name info = codes "info"
level_name notice = codes "notice"
level_name warning = codes "warning"
level_name error = codes "error"
level_name critical = codes "critical"
level_name alert = codes "alert"
level_name emergency = codes "emergency"

-- `Level::from_str`.
unfoldable pub level_from : Str → Option Level
level_from s = find (λ l. str_eq (level_name l) (to_ascii_lowercase (trim s))) all_levels

pub data Body : Type 0 where
  progress : (done : Number) (total : Option Number) (said : Option Str) → Body
  log : (level : Level) (logger : Option Str) (text : Str) → Body
  list_changed : Listing → Body
  resource_updated : (uri : Str) → Body
  acknowledged : (notifications : Value) → Body

pub record Notice : Type 0 where
  pub message : Value
  pub body : Body

-- `char::is_control`: the category Cc.
abbrev pub is_control : ℕ → Bool
is_control c = ltb c 32 || leb 127 c && leb c 159

abbrev pub hex_digit : ℕ → ℕ
hex_digit d = if ltb d 10 then 48 + d else 87 + d

-- What one character of `one_line` becomes.
unfoldable pub shown_char : ℕ → Str
shown_char c =
    if c == 10 || c == 9
    then 32 ∷ []
    else if c == 13
    then codes "\\r"
    else if c == 0
    then codes "\\0"
    else if is_control c
    then b'\\' ∷ b'x' ∷ hex_digit (c / 16) ∷ hex_digit (c % 16) ∷ []
    else c ∷ []

abbrev pub shown_chars : Str → Str
shown_chars [] = []
shown_chars (c ∷ s) = shown_char c ++ shown_chars s

unfoldable pub one_line : Str → Str
one_line text = trim (shown_chars text)

unfoldable pub level_of : Value → Level
level_of level = unwrap_or info (and_then (as_str level) level_from)

abbrev pub as_number : Value → Option Number
as_number (num n) = some n
as_number _ = none

module _ (print : Value → Str) where
  abbrev pub text_of : Value → Str
  text_of (str s) = s
  text_of null = []
  text_of v = print v

  -- The arms of `read`, one for each method.
  abbrev pub is_ours : Option Value → Value → Bool
  is_ours none params = false
  is_ours (some ours) params = value_eq (index params (codes "progressToken")) ours

  unfoldable pub read_progress : Value → Option Body
  read_progress params =
      map_opt
        (λ done.
          progress done (as_number (index params (codes "total")))
            (map_opt one_line (as_str (index params (codes "message")))))
        (as_number (index params (codes "progress")))

  unfoldable pub read_log : Value → Body
  read_log params =
      log (level_of (index params (codes "level")))
        (map_opt one_line (as_str (index params (codes "logger"))))
        (one_line (text_of (index params (codes "data"))))

  unfoldable pub read_updated : Value → Option Body
  read_updated params =
      map_opt (λ uri. resource_updated (one_line uri)) (as_str (index params (codes "uri")))

  unfoldable pub read_body : Str → Value → Option Value → Option Body
  read_body method params token =
      if str_eq method progress_method
      then if is_ours token params then read_progress params else none
      else if str_eq method message_method
      then some (read_log params)
      else if str_eq method resource_updated_method
      then read_updated params
      else if str_eq method acknowledged_method
      then some (acknowledged (index params (codes "notifications")))
      else map_opt list_changed (of_method method)

  -- `read`.
  unfoldable pub read : Value → Option Value → Option Notice
  read msg token = and_then (as_str (index msg (codes "method"))) (λ method.
      map_opt (λ body. record { message = msg; body = body })
        (read_body method (index msg (codes "params")) token))
