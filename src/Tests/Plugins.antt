-- ===== src/Tests/Plugins.antt =====
-- The plugin services of pkg/plugins/manager.go: one service with two capabilities.
use suse_ai_up.Prelude.{
  String, ℕ, true, [], ◌∷◌, none, some, ◌≡◌, ◌≢◌, ◌↔◌, refl, lookup, values, IsMap, has_prefix,
  has_suffix, trim_suffix,
}
use suse_ai_up.Plugins.{
  Capability, Registration, ServiceManager, new_service_manager, register_service,
  path_matches_capability, first_service, get_service_for_path, get_service,
}
use suse_ai_up.Plugins.Paths.{Covers, beginning, path_matches_capability-Covers}
use suse_ai_up.Plugins.Steps.{here, next, register, IsConsistent, Reach-IsConsistent}
use suse_ai_up.Plugins.Health.{Answer, answered}

abbrev agents : Capability
agents = record { path = "/agents/*"; methods = "GET" ∷ []; description = "" }

abbrev service : Registration
service = record {
  service_id = "one";
  service_type = "virtualmcp";
  service_url = "http://one";
  capabilities = agents ∷ [];
  version = "1";
  registered_at = 0;
  last_heartbeat = 0;
}

abbrev running : ServiceManager
running = record { services = ("one", service) ∷ []; service_health = []; config = none }

path_matches_capability-Covers_example :
    (path_matches_capability "/agents/7" "/agents/*" ≡ true) ↔ Covers "/agents/*" "/agents/7"
path_matches_capability-Covers_example = path_matches_capability-Covers "/agents/7" "/agents/*"

chosen : get_service_for_path "/agents/7" running ≡ some service
unfolding get_service_for_path first_service path_matches_capability values has_prefix has_suffix
    trim_suffix
chosen = refl

running-IsMap : IsMap running.services
unfolding lookup
running-IsMap = (refl, tt)

registered : get_service "one" running ≡ some service
unfolding get_service lookup
registered = refl

front_named : ◌≢◌ {A = String} "/agents/" ""
front_named = cc

covered : Covers "/agents/*" "/agents/7"
covered = beginning "/agents/" "7" front_named refl refl

Reach-IsConsistent_example :
    IsConsistent (register_service 1 2 3 service (new_service_manager none)).0
Reach-IsConsistent_example =
    Reach-IsConsistent none (register_service 1 2 3 service (new_service_manager none)).0
      (next here (register 1 2 3 service refl))

abbrev digits : ℕ → String
digits _ = "200"

-- Both requests are answered with 200, there are 2 implementations, and it took 5 nanoseconds.
abbrev network : Registration → Answer × Answer × ℕ × ℕ
network _ = (answered 200, answered 200, 2, 5)
