-- ===== src/Router/Messages.antt =====
-- The messages of pkg/mcp/protocol_handler.go that the router passes on and builds.
use suse_ai_up.Prelude.{String, ℤ, Option, none}

pub record JsonRpcError (J : Type 0) : Type 0 where
  pub code : ℤ
  pub message : String
  pub content : Option J

-- `J` is the type of JSON values; none is nil.
pub record Message (J : Type 0) : Type 0 where
  pub jsonrpc : String
  pub id : Option J
  pub method : String
  pub params : Option J
  pub result : Option J
  pub error : Option (JsonRpcError J)

module _ {J : Type 0} where
  unfoldable pub create_success_response : (id result : Option J) → Message J
  create_success_response id result = record {
    jsonrpc = "2.0";
    id = id;
    method = "";
    params = none;
    result = result;
    error = none;
  }
