-- ===== src/Servers.antt =====
-- The stores of MCP servers: pkg/clients/mcp_server_store.go, which has the store of scans too,
-- mcp_server_store_file.go beside it, and internal/service/mcp_store.go. `J` is the type of the
-- parts of a server that the stores only pass on, none for their zero value.
pub mod Keys
use suse_ai_up.Prelude.{
  ◌⊎◌, inl, inr, String, ℕ, List, [], ◌∷◌, Option, none, some, ◌==◌, if◌then◌else◌, Map, lookup,
  insert, delete, values,
}
use suse_ai_up.Files.{FileStore, then_save, new_file_store, Disk, Calls, Codec}

pub record McpServer (J : Type 0) : Type 0 where
  pub id : String
  pub name : String
  pub image : String
  pub description : String
  pub version : String
  pub repository : Option J
  pub packages : List J
  pub tools : List J
  pub validation_status : String
  pub discovered_at : Option ℕ
  pub url : String
  pub meta : Option J
  pub github_config : Option J
  pub route_assignments : List J
  pub auto_spawn : Option J

pub data ServerError : Type 0 where
  not_found server_exists save_failed : ServerError

pub record ScanResult (C R : Type 0) : Type 0 where
  pub config : C
  pub results : List R

module _ {J : Type 0} where
  -- `if server.ID == "" { server.ID = generateID() }`; `generated` are the digits of 8 random bytes.
  unfoldable pub named : (generated : String) → McpServer J → McpServer J
  named generated server = if server.id == "" then record server { id = generated } else server

  unfoldable pub create_mcp_server :
      (generated : String)
      → McpServer J
      → Map (McpServer J)
      → Map (McpServer J) × Option ServerError
  create_mcp_server generated server s =
      (insert (named generated server).id (named generated server) s, none)

  unfoldable pub get_mcp_server : String → Map (McpServer J) → McpServer J ⊎ ServerError
  get_mcp_server id s = elim (lookup id s) [ none ↦ inr not_found | some server ↦ inl server ]

  unfoldable pub update_mcp_server :
      String → McpServer J → Map (McpServer J) → Map (McpServer J) × Option ServerError
  update_mcp_server id updated s = elim (lookup id s) [
    | none ↦ (s, some not_found)
    | some _ ↦ (insert id (record updated { id = id }) s, none)
  ]

  unfoldable pub delete_mcp_server :
      String → Map (McpServer J) → Map (McpServer J) × Option ServerError
  delete_mcp_server id s = elim (lookup id s) [
    | none ↦ (s, some not_found)
    | some _ ↦ (delete id s, none)
  ]

  unfoldable pub list_mcp_servers : Map (McpServer J) → List (McpServer J)
  list_mcp_servers s = values s

  -- `CreateMCPServer` of internal/service, which refuses an ID that is taken; its other methods are
  -- those above.
  unfoldable pub create_unless_taken :
      McpServer J → Map (McpServer J) → Map (McpServer J) × Option ServerError
  create_unless_taken server s = elim (lookup server.id s) [
    | some _ ↦ (s, some server_exists)
    | none ↦ (insert server.id server s, none)
  ]

  module _ {D : Type 0} (codec : Codec (McpServer J) D) where
    unfoldable pub new_file_server_store : Calls D → Disk D → FileStore (McpServer J) D
    new_file_server_store calls disk = new_file_store (λ server. server.id) codec calls disk

    unfoldable pub create_on_file :
        Calls D
        → (generated : String) → McpServer J
        → FileStore (McpServer J) D
        → FileStore (McpServer J) D × Option ServerError
    create_on_file calls generated server s =
        then_save save_failed codec calls (create_mcp_server generated server s.entries) s

    unfoldable pub update_on_file :
        Calls D
        → String
        → McpServer J
        → FileStore (McpServer J) D
        → FileStore (McpServer J) D × Option ServerError
    update_on_file calls id updated s =
        then_save save_failed codec calls (update_mcp_server id updated s.entries) s

    unfoldable pub delete_on_file :
        Calls D
        → String
        → FileStore (McpServer J) D
        → FileStore (McpServer J) D × Option ServerError
    delete_on_file calls id s = then_save save_failed codec calls (delete_mcp_server id s.entries) s

module _ {C R : Type 0} where
  unfoldable pub save_scan : String → C → List R → Map (ScanResult C R) → Map (ScanResult C R)
  save_scan scan_id config results s =
      insert scan_id (record { config = config; results = results }) s

  unfoldable pub get_scan : String → Map (ScanResult C R) → ScanResult C R ⊎ ServerError
  get_scan scan_id s = elim (lookup scan_id s) [ none ↦ inr not_found | some result ↦ inl result ]

  unfoldable pub delete_scan :
      String → Map (ScanResult C R) → Map (ScanResult C R) × Option ServerError
  delete_scan scan_id s = elim (lookup scan_id s) [
    | none ↦ (s, some not_found)
    | some _ ↦ (delete scan_id s, none)
  ]

  unfoldable pub list_scans : Map (ScanResult C R) → List String
  list_scans [] = []
  list_scans ((scan_id, result) ∷ s) = scan_id ∷ list_scans s
