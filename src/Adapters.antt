-- ===== src/Adapters.antt =====
-- Adapters: the data of pkg/models/adapter.go and, in the child, the stores of
-- pkg/clients/adapter_store.go. `J` is the type of JSON values, which the code passes through.
pub mod Store
use suse_ai_up.Prelude.{
  String, ℕ, Bool, false, List, [], ◌∷◌, Option, none, Map, insert, if◌then◌else◌,
}

pub record SidecarConfig : Type 0 where
  pub command_type : String
  pub command : String
  pub args : List String
  pub env : List (Map String)
  pub port : ℕ
  pub source : String
  pub last_updated : String
  pub project_url : String
  pub release_url : String

pub record BearerTokenConfig : Type 0 where
  pub token : String
  pub dynamic : Bool
  pub expires_at : ℕ

pub record OauthConfig : Type 0 where
  pub client_id : String
  pub client_secret : String
  pub auth_url : String
  pub token_url : String
  pub scopes : List String
  pub redirect_uri : String

pub record BasicAuthConfig : Type 0 where
  pub username : String
  pub password : String

pub record ApiKeyConfig : Type 0 where
  pub key : String
  pub location : String
  pub name : String

pub record AdapterAuthConfig : Type 0 where
  pub required : Bool
  pub auth_type : String
  pub bearer_token : Option BearerTokenConfig
  pub oauth : Option OauthConfig
  pub basic : Option BasicAuthConfig
  pub api_key : Option ApiKeyConfig

pub record McpServerInfo (J : Type 0) : Type 0 where
  pub name : String
  pub version : String
  pub protocol : String
  pub capabilities : Map J

pub record McpFunctionality (J : Type 0) : Type 0 where
  pub server_info : McpServerInfo J
  pub tools : List J
  pub prompts : List J
  pub resources : List J
  pub last_refreshed : ℕ

pub record McpServerConfig : Type 0 where
  pub command : String
  pub args : List String
  pub env : Map String
  pub url : String
  pub headers : Map String

pub record AdapterData (J : Type 0) : Type 0 where
  pub name : String
  pub image_name : String
  pub image_version : String
  pub protocol : String
  pub connection_type : String
  pub status : String
  pub environment_variables : Map String
  pub replica_count : ℕ
  pub description : String
  pub use_workload_identity : Bool
  pub url : String
  pub remote_url : String
  pub api_base_url : String
  pub tools : List J
  pub command : String
  pub args : List String
  pub mcp_servers : Map McpServerConfig
  pub authentication : Option AdapterAuthConfig
  pub mcp_functionality : Option (McpFunctionality J)
  pub sidecar_config : Option SidecarConfig

-- The embedded `AdapterData` is a field of its own.
pub record AdapterResource (J : Type 0) : Type 0 where
  pub info : AdapterData J
  pub id : String
  pub created_by : String
  pub created_at : ℕ
  pub last_updated_at : ℕ

-- `for k, v := range serverConfig.Env { ar.EnvironmentVariables[k] = v }`
unfoldable pub merge_env : Map String → Map String → Map String
merge_env [] m = m
merge_env ((k, v) ∷ env) m = merge_env env (insert k v m)

module _ {J : Type 0} where
  unfoldable pub new_adapter_data : (name image_name image_version : String) → AdapterData J
  new_adapter_data name image_name image_version = record {
    name = name;
    image_name = image_name;
    image_version = image_version;
    protocol = "MCP";
    connection_type = "StreamableHttp";
    status = "not ready";
    environment_variables = [];
    replica_count = 1;
    description = "";
    use_workload_identity = false;
    url = "";
    remote_url = "";
    api_base_url = "";
    tools = [];
    command = "";
    args = [];
    mcp_servers = [];
    authentication = none;
    mcp_functionality = none;
    sidecar_config = none;
  }

  -- The variables with those of the first server configuration.
  unfoldable pub merged_env : AdapterData J → Map String
  merged_env d = elim d.mcp_servers [
    | [] ↦ d.environment_variables
    | (_, server) ∷ _ ↦ merge_env server.env d.environment_variables
  ]

  -- `AdapterResource.Create`
  unfoldable pub make_resource :
      (now : ℕ) → AdapterData J → (created_by : String) (created_at : ℕ) → AdapterResource J
  make_resource now d created_by created_at = record {
    info = record d { environment_variables = merged_env d };
    id = d.name;
    created_by = created_by;
    created_at = created_at;
    last_updated_at = now;
  }
