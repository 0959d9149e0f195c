-- ===== src/Serve/Filtering.antt =====
-- src/serve.rs: `ToolFilter`, which tools the proxy admits to having, and what it says of the server's
-- capabilities.
use mcpdial.Base.{
  Str, Bool, Option, none, some, List, if◌then◌else◌, codes, is_some, not, ◌&&◌, str_eq,
}
use mcpdial.Json.{Value, arr, obj, Items, nil, cons, Fields, end, field, lookup, insert}
use mcpdial.Config.Servers.{ServerConfig, default_config, denial}
use mcpdial.Client.Tools.{tool_name}

pub record ToolFilter : Type 0 where
  pub saved : ServerConfig
  pub flags : ServerConfig

-- `ToolFilter::new`.
abbrev pub filter_for : ServerConfig → List Str → List Str → ToolFilter
filter_for saved allow deny = record {
  saved = saved;
  flags = record default_config { allow = allow; deny = deny };
}

unfoldable pub permits : ToolFilter → Str → Bool
permits f tool = not (is_some (denial f.saved tool)) && not (is_some (denial f.flags tool))

abbrev pub permitted_items : ToolFilter → Items → Items
permitted_items f nil = nil
permitted_items f (cons t ts) =
    let rest = permitted_items f ts in if permits f (tool_name t) then cons t rest else rest

abbrev pub retained : ToolFilter → Fields → Option Value → Value
retained f fs (some (arr ts)) = obj (insert (codes "tools") (arr (permitted_items f ts)) fs)
retained f fs _ = obj fs

-- `ToolFilter::retain`.
unfoldable pub retain_tools : ToolFilter → Value → Value
unfolding permits tool_name
retain_tools f (obj fs) = retained f fs (lookup (codes "tools") fs)
retain_tools f result = result

-- `obj.remove(key)`.
unfoldable pub remove_field : Str → Fields → Fields
remove_field k end = end
remove_field k (field j v fs) =
    let rest = remove_field k fs in if str_eq j k then rest else field j v rest

-- What a feature may not promise over this proxy.
abbrev plain_feature : Value → Value
plain_feature (obj fs) =
    obj (remove_field (codes "subscribe") (remove_field (codes "listChanged") fs))
plain_feature v = v

abbrev without_promises : Str → Fields → Option Value → Fields
without_promises feature fs (some f) = insert feature (plain_feature f) fs
without_promises feature fs none = fs

abbrev demoted : Str → Fields → Fields
demoted feature fs = without_promises feature fs (lookup feature fs)

unfoldable pub relayable : Value → Value
unfolding remove_field
relayable (obj fs) = obj (
    demoted (codes "prompts")
      (demoted (codes "resources") (demoted (codes "tools") (remove_field (codes "logging") fs))))
relayable capabilities = obj end
