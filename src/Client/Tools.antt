-- ===== src/Client/Tools.antt =====
-- src/client.rs: the tools of a server that its lists let through, and how a tool is described.
use mcpdial.Base.{
  Str, Bool, true, false, Option, none, some, List, [], ◌∷◌, if◌then◌else◌, unwrap_or, codes,
  is_some, map_opt, and_then, or_else, trim, is_empty, not, ◌&&◌, str_eq,
}
use mcpdial.Json.{Value, bool, index, as_str, value_eq, set_index}
use mcpdial.Config.Servers.{ServerConfig, denial}

unfoldable pub tool_name : Value → Str
tool_name tool = unwrap_or [] (as_str (index tool (codes "name")))

unfoldable pub permitted_tools : List Value → ServerConfig → List Value
unfolding denial tool_name
permitted_tools [] cfg = []
permitted_tools (t ∷ tools) cfg =
    let rest = permitted_tools tools cfg in
    if is_some (denial cfg (tool_name t)) then rest else t ∷ rest

-- `t["denied"] = json!(true)` panics where a tool is neither an object nor null.
unfoldable pub marked_tools : List Value → ServerConfig → Option (List Value)
unfolding denial tool_name
marked_tools [] cfg = some []
marked_tools (t ∷ tools) cfg =
    let rest = marked_tools tools cfg in
    and_then
      (if is_some (denial cfg (tool_name t))
        then set_index (codes "denied") (bool true) t
        else some t)
      (λ t. map_opt (λ ts. t ∷ ts) rest)

-- `describe_annotations`.
abbrev hinted : Value → Str → Str → List Str → List Str
hinted tool hint tag tags =
    if value_eq (index (index tool (codes "annotations")) hint) (bool true)
    then tag ∷ tags
    else tags

abbrev task_tags : Option Str → List Str
task_tags none = []
task_tags (some support) =
    if str_eq support (codes "optional")
    then codes "task:optional" ∷ []
    else if str_eq support (codes "required")
    then codes "task:required" ∷ []
    else []

unfoldable pub describe_annotations : Value → List Str
describe_annotations tool = hinted tool (codes "readOnlyHint") (codes "read-only") (
    hinted tool (codes "destructiveHint") (codes "destructive") (
      hinted tool (codes "idempotentHint") (codes "idempotent") (
        hinted tool (codes "openWorldHint") (codes "open-world")
          (task_tags (as_str (index (index tool (codes "execution")) (codes "taskSupport")))))))

abbrev says_name : Str → Option Str → Bool
says_name title none = false
says_name title (some name) = str_eq title name

abbrev titled : Value → Str → Option Str
titled tool title =
    if not (is_empty title) && not (says_name title (as_str (index tool (codes "name"))))
    then some title
    else none

unfoldable pub describe_title : Value → Option Str
unfolding trim
describe_title tool =
    and_then
      (or_else (as_str (index tool (codes "title")))
        (as_str (index (index tool (codes "annotations")) (codes "title"))))
      (λ title. titled tool (trim title))

unfoldable pub hint_mark : Value → Str
hint_mark tool =
    if value_eq (index (index tool (codes "annotations")) (codes "destructiveHint")) (bool true)
    then codes "*"
    else []
