-- ===== src/Tests/Routes.antt =====
-- Plugin routes (internal/service/dynamic_router.go), tool calls (pkg/mcp/security.go) and errors
-- (pkg/mcp/error_handler.go).
use suse_ai_up.Prelude.{
  contains_text, ◌⊎◌, true, false, negsuc, [], ◌∷◌, ◌++◌, none, some, ◌≡◌, refl, lookup, IsMap,
  values, has_prefix, has_suffix, trim_suffix,
}
use suse_ai_up.Plugins.{
  Registration, ServiceManager, get_service_for_path, first_service, get_service_health,
  path_matches_capability,
}
use suse_ai_up.Routes.{
  PluginRequest, route, proxied, is_plugin_management_endpoint, is_method_supported, path_matches,
  status_of,
}
use suse_ai_up.Routes.Served.{Served, route-Served}
use suse_ai_up.Errors.{Occasion, to_http_response}
use suse_ai_up.Errors.Status.{by_auth, handle, to_http_response-handle}
use suse_ai_up.Security.{Readings, tool_execution_denied, validate_tool_execution}
use suse_ai_up.Security.Risk.{Risky, entry, validate_tool_execution-Risky}

abbrev agents : Registration
agents = record {
  service_id = "smart";
  service_type = "smartagents";
  service_url = "http://smart";
  capabilities =
      record { path = "/agents/*"; methods = "GET" ∷ "POST" ∷ []; description = "" } ∷ [];
  version = "1";
  registered_at = 0;
  last_heartbeat = 0;
}

abbrev manager : ServiceManager
manager = record {
  services = ("smart", agents) ∷ [];
  service_health =
      ("smart", record { status = "healthy"; message = ""; last_checked = 0; response_time = 1 })
      ∷ [];
  config = none;
}

abbrev get_agent : PluginRequest
get_agent = record {
  method = "GET";
  path = "/agents/7";
  raw_query = "";
  host = "h";
  proto = "HTTP/1.1";
  headers = [];
  body = "";
}

manager-IsMap : IsMap manager.services
unfolding lookup
manager-IsMap = (refl, tt)

routed : route get_agent manager ≡ proxied agents
unfolding route is_plugin_management_endpoint get_service_for_path first_service values
    path_matches_capability get_service_health status_of lookup is_method_supported path_matches
    has_prefix has_suffix trim_suffix
routed = refl

route-Served_example : Served get_agent manager agents
route-Served_example = route-Served get_agent manager agents manager-IsMap routed

-- The consent is recorded at 6 and the outcome at 7.
abbrev clocks : Readings
clocks = record { granted = 5; asked = 6; decided = 7 }

validate_tool_execution-Risky_example :
    (Risky "Run_Command" []
      × (validate_tool_execution clocks "s1" "maps" "Run_Command" "" [] [] ≡ (
        []
            ++ entry "s1" "maps" 6 "consent_denied" "" false "" "high" "auto-decision"
              ∷ entry "s1" "maps" 7 "tool_execution_denied" "Run_Command" false "consent denied"
                  "high" ""
              ∷ [],
        some tool_execution_denied,
      )))
    ⊎ ((¬ Risky "Run_Command" [])
        × (validate_tool_execution clocks "s1" "maps" "Run_Command" "" [] [] ≡ (
          [] ++ entry "s1" "maps" 7 "tool_execution_allowed" "Run_Command" true "" "medium" "" ∷ [],
          none,
        )))
validate_tool_execution-Risky_example =
    validate_tool_execution-Risky clocks "s1" "maps" "Run_Command" "" [] []

abbrev occasion : Occasion
occasion = record { now = 0; session_id = ""; adapter_name = "maps" }

to_http_response-handle_example :
    ((handle (λ s. s) by_auth occasion "forbidden").code ≡ negsuc 32001)
    × (to_http_response (handle (λ s. s) by_auth occasion "forbidden") ≡ 404)
unfolding contains_text has_prefix
to_http_response-handle_example = to_http_response-handle (λ s. s) by_auth occasion "forbidden"
