-- ===== src/Plugins.antt =====
-- `ServiceManager` of pkg/plugins/manager.go with the types of pkg/plugins/interface.go: the plugin
-- services that registered, their health, and the choice of a service for a path. A registration
-- is a value, since nothing writes to it after `RegisterService`. Each operation is one step, as
-- the mutex makes it. What a plugin answers over HTTP is a parameter.
pub mod Paths
pub mod Steps
pub mod Health
use Prim.Native.String.{◌++◌}
use suse_ai_up.Prelude.{
  String, ℕ, Bool, true, false, ◌==◌, ◌&&◌, List, [], ◌∷◌, Option, none, some, if◌then◌else◌, ltb,
  nat_eq, any, keep, text_len, has_prefix, has_suffix, trim_suffix, Map, lookup, insert, delete,
  values, not,
}

pub record Capability : Type 0 where
  pub path : String
  pub methods : List String
  pub description : String

pub record Registration : Type 0 where
  pub service_id : String
  pub service_type : String
  pub service_url : String
  pub capabilities : List Capability
  pub version : String
  pub registered_at : ℕ
  pub last_heartbeat : ℕ

-- A time of 0 is Go's zero time.
pub record ServiceHealth : Type 0 where
  pub status : String
  pub message : String
  pub last_checked : ℕ
  pub response_time : ℕ

-- `config` holds the `Enabled` flag of each configured service type; none for a nil configuration.
pub record ServiceManager : Type 0 where
  pub services : Map Registration
  pub service_health : Map ServiceHealth
  pub config : Option (Map Bool)

pub data PluginError : Type 0 where
  not_enabled not_found : String → PluginError

unfoldable pub new_service_manager : Option (Map Bool) → ServiceManager
new_service_manager config = record { services = []; service_health = []; config = config }

unfoldable pub is_service_enabled : String → ServiceManager → Bool
is_service_enabled service_type sm = elim sm.config [
  | none ↦ true
  | some types ↦ elim (lookup service_type types) [ some enabled ↦ enabled | none ↦ true ]
]

-- The three readings of the clock; the discovery that a VirtualMCP service starts runs on its own.
unfoldable pub register_service :
    (registered beat checked : ℕ)
    → Registration
    → ServiceManager
    → ServiceManager × Option PluginError
register_service registered beat checked r sm =
    if not (is_service_enabled r.service_type sm)
    then (sm, some (not_enabled r.service_type))
    else (
      record sm {
        services =
            insert r.service_id (record r { registered_at = registered; last_heartbeat = beat })
              sm.services;
        service_health =
            insert r.service_id
              (record {
                status = "unknown";
                message = "";
                last_checked = checked;
                response_time = 0;
              })
              sm.service_health;
      },
      none,
    )

unfoldable pub unregister_service : String → ServiceManager → ServiceManager × Option PluginError
unregister_service id sm = elim (lookup id sm.services) [
  | none ↦ (sm, some (not_found id))
  | some _ ↦ (
    record sm { services = delete id sm.services; service_health = delete id sm.service_health },
    none,
  )
]

unfoldable pub get_service : String → ServiceManager → Option Registration
get_service id sm = lookup id sm.services

unfoldable pub get_services_by_type : String → ServiceManager → List Registration
get_services_by_type service_type sm =
    keep (λ s. s.service_type == service_type) (values sm.services)

unfoldable pub get_all_services : ServiceManager → List Registration
get_all_services sm = values sm.services

unfoldable pub update_service_health : String → ServiceHealth → ServiceManager → ServiceManager
update_service_health id health sm = record sm {
  service_health = insert id health sm.service_health;
}

unfoldable pub get_service_health : String → ServiceManager → Option ServiceHealth
get_service_health id sm = lookup id sm.service_health

-- The last character is tested and cut off with `has_suffix` and `trim_suffix`.
unfoldable pub path_matches_capability : (path pattern : String) → Bool
path_matches_capability path pattern =
    if pattern == ""
    then false
    else if ltb 1 (text_len pattern) && has_suffix pattern "*"
    then has_prefix path (trim_suffix pattern "*")
    else path == pattern

-- The loop of `GetServiceForPath`, in the order in which the map is met.
unfoldable pub first_service : String → List Registration → Option Registration
first_service path [] = none
first_service path (s ∷ rest) =
    let later = first_service path rest in
    if any (λ c. path_matches_capability path c.path) s.capabilities then some s else later

unfoldable pub get_service_for_path : String → ServiceManager → Option Registration
get_service_for_path path sm = first_service path (values sm.services)
