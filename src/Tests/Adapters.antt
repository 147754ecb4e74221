-- ===== src/Tests/Adapters.antt =====
-- An adapter for the runs.
use suse_ai_up.Prelude.{[], Option, none, false}
use suse_ai_up.Adapters.{AdapterResource, AdapterAuthConfig}

abbrev pub sample_adapter : {J : Type 0} → Option AdapterAuthConfig → AdapterResource J
sample_adapter auth = record {
  info = record {
    name = "maps";
    image_name = "";
    image_version = "";
    protocol = "MCP";
    connection_type = "StreamableHttp";
    status = "ready";
    environment_variables = [];
    replica_count = 1;
    description = "";
    use_workload_identity = false;
    url = "";
    remote_url = "http://maps";
    api_base_url = "";
    tools = [];
    command = "";
    args = [];
    mcp_servers = [];
    authentication = auth;
    mcp_functionality = none;
    sidecar_config = none;
  };
  id = "maps";
  created_by = "ann";
  created_at = 0;
  last_updated_at = 0;
}
