-- ===== src/Routes.antt =====
-- `DynamicRouter` of internal/service/dynamic_router.go: which requests go to a plugin service, and
-- what is sent and passed back. The HTTP client is a parameter; a header is a name with values.
pub mod Served
pub mod Headers
use Prim.Native.String.{◌++◌}
use suse_ai_up.Prelude.{
  String, ℕ, Bool, true, false, not, ◌==◌, ◌&&◌, ◌||◌, List, [], ◌∷◌, ◌++◌ as join, Option, none,
  some, if◌then◌else◌, ltb, text_len, any, contains, has_prefix, has_suffix, trim_suffix,
  contains_text, cut_at, Map, lookup, insert, delete,
}
use suse_ai_up.Plugins.{
  Capability, Registration, ServiceHealth, ServiceManager, get_service_for_path, get_service_health,
}

abbrev pub plugin_paths : List String
plugin_paths = "/plugins/register" ∷ "/plugins/services" ∷ []

unfoldable pub is_plugin_management_endpoint : String → Bool
is_plugin_management_endpoint path = any (λ p. has_prefix path p) plugin_paths

-- What stands before the first "{", for a pattern with a "{" that is not at its start and a "}".
unfoldable pub before_parameter : String → Option String
before_parameter pattern =
    if contains_text pattern "}"
    then elim (cut_at "{" pattern) [
      | none ↦ none
      | some (before, _) ↦ if before == "" then none else some before
    ]
    else none

-- `pathMatchesCapability` of the router.
unfoldable pub path_matches : (path pattern : String) → Bool
path_matches path pattern =
    if pattern == ""
    then false
    else if ltb 1 (text_len pattern) && has_suffix pattern "*"
    then has_prefix path (trim_suffix pattern "*")
    else elim (before_parameter pattern) [
      | some before ↦ has_prefix path before
      | none ↦ path == pattern
    ]

unfoldable pub is_method_supported : Registration → (path method : String) → Bool
is_method_supported service path method =
    any (λ c. path_matches path c.path && contains method c.methods) service.capabilities

pub record PluginRequest : Type 0 where
  pub method : String
  pub path : String
  pub raw_query : String
  pub host : String
  pub proto : String
  pub headers : Map (List String)
  pub body : String

pub record Sent : Type 0 where
  pub method : String
  pub url : String
  pub headers : Map (List String)
  pub body : String

pub record Response : Type 0 where
  pub status : ℕ
  pub headers : Map (List String)
  pub body : String

-- `Header.Add`
unfoldable pub add_header : (key value : String) → Map (List String) → Map (List String)
add_header key value m = elim (lookup key m) [
  | none ↦ insert key (value ∷ []) m
  | some values ↦ insert key (join values (value ∷ [])) m
]

unfoldable pub add_values : (key : String) → List String → Map (List String) → Map (List String)
add_values key [] m = m
add_values key (v ∷ vs) m = add_values key vs (add_header key v m)

-- The two loops over the headers of the request.
unfoldable pub copy_request_headers : Map (List String) → Map (List String) → Map (List String)
copy_request_headers [] m = m
copy_request_headers ((key, vs) ∷ rest) m = copy_request_headers rest (add_values key vs m)

-- `c.Header(key, value)` of Gin: an empty value removes the header.
unfoldable pub put_header : (key value : String) → Map (List String) → Map (List String)
put_header key value m = if value == "" then delete key m else insert key (value ∷ []) m

unfoldable pub put_values : (key : String) → List String → Map (List String) → Map (List String)
put_values key [] m = m
put_values key (v ∷ vs) m = put_values key vs (put_header key v m)

-- The two loops over the headers of the response.
unfoldable pub copy_response_headers : Map (List String) → Map (List String) → Map (List String)
copy_response_headers [] m = m
copy_response_headers ((key, vs) ∷ rest) m = copy_response_headers rest (put_values key vs m)

unfoldable pub target_url : Registration → PluginRequest → String
target_url service r =
    service.service_url ++ (r.path ++ (if r.raw_query == "" then "" else "?" ++ r.raw_query))

unfoldable pub plugin_request : Registration → PluginRequest → Sent
plugin_request service r = record {
  method = r.method;
  url = target_url service r;
  headers = insert "X-Plugin-Type" (service.service_type ∷ []) (
      insert "X-Plugin-Service" (service.service_id ∷ []) (
        insert "X-Forwarded-Proto" (r.proto ∷ [])
          (insert "X-Forwarded-Host" (r.host ∷ []) (copy_request_headers r.headers []))));
  body = r.body;
}

-- What the middleware does with a request.
pub data Decision : Type 0 where
  -- the next handler
  next : Decision
  -- 503 with the service and the status of its health, and 405
  unavailable : (service_id status : String) → Decision
  not_allowed : (service_id : String) → Decision
  proxied : Registration → Decision

-- `health, _ :=`: the zero value where there is none
unfoldable pub status_of : Option ServiceHealth → String
status_of none = ""
status_of (some health) = health.status

unfoldable pub route : PluginRequest → ServiceManager → Decision
route r sm =
    if is_plugin_management_endpoint r.path then next else elim (get_service_for_path r.path sm) [
      | none ↦ next
      | some service ↦
          if not (status_of (get_service_health service.service_id sm) == "healthy")
          then unavailable service.service_id (status_of (get_service_health service.service_id sm))
          else if not (is_method_supported service r.path r.method)
          then not_allowed service.service_id
          else proxied service
    ]

-- `proxyToService`: the status, the headers and the body that the client gets; `headers` are those
-- already set. A request that cannot be made is 500, one that fails 502.
unfoldable pub proxy_to_service :
    (accepts : String → Bool)
    → (send : Sent → Option Response) → Registration
    → PluginRequest
    → Map (List String)
    → Response
proxy_to_service accepts send service r headers =
    if not (accepts (target_url service r))
    then record { status = 500; headers = headers; body = "Failed to create proxy request" }
    else elim (send (plugin_request service r)) [
      | none ↦ record {
        status = 502;
        headers = headers;
        body = "Failed to proxy request to plugin service";
      }
      | some response ↦ record {
        status = response.status;
        headers = copy_response_headers response.headers headers;
        body = response.body;
      }
    ]
