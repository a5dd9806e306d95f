-- ===== src/Target.antt =====
-- ts/synclog/src/target.ts: the names under which a projection store files its records.
pub mod Keys
pub mod Injective
pub mod Marker
use synclog.Prelude.{String, Option, none, some, truthy, if◌then◌else◌}
use synclog.Prelude.Text.{◌+++◌}
use synclog.Protocol.Gateway.{SyncTarget}

abbrev pub default_binding_key : String
default_binding_key = "default"

pub record TargetBindingKey : Type 0 where
  pub subscriber_id : String
  pub target : SyncTarget
  pub binding_key : String

-- `bindingKey && bindingKey.length > 0 ? bindingKey : defaultBindingKey`
unfoldable pub normalize_binding_key : Option String → String
normalize_binding_key none = default_binding_key
normalize_binding_key (some key) = if truthy key then key else default_binding_key

unfoldable pub target_key : SyncTarget → String
target_key t = t.namespace +++ "/" +++ t.id +++ "/" +++ t.view

unfoldable pub target_binding_key : TargetBindingKey → String
unfolding target_key
target_binding_key key =
    key.subscriber_id +++ ":" +++ target_key key.target +++ "#" +++ key.binding_key
