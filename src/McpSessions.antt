-- ===== src/McpSessions.antt =====
-- `MCPSessionManager` of pkg/mcp/session_manager.go. The sessions are values: a caller's writes
-- through the pointer that `GetSession` returns are left out. `C` is the type of the capabilities.
pub mod Names
use Prim.Native.Nat.{◌%◌}
use Prim.Native.String.{◌++◌}
use suse_ai_up.Prelude.{
  String, ℕ, Bool, true, false, ◌+◌, ◌-◌, List, [], Option, none, some, ltb, length, if◌then◌else◌,
  Map, lookup, insert, delete, delete_where, values,
}

pub record McpClientInfo : Type 0 where
  pub name : String
  pub version : String

-- `C` in place of the capabilities; none for their zero value.
pub record McpSession (C : Type 0) : Type 0 where
  pub id : String
  pub adapter_name : String
  pub initialized : Bool
  pub capabilities : Option C
  pub server_info : Option McpClientInfo
  pub client_info : McpClientInfo
  pub created_at : ℕ
  pub last_activity : ℕ

-- The four readings of the clock in `CreateSession`, in nanoseconds.
pub record Clocks : Type 0 where
  pub formatted : ℕ
  pub counted : ℕ
  pub created : ℕ
  pub active : ℕ

pub data SessionError : Type 0 where
  session_not_found : SessionError

-- `format` is `Format("20060102150405")` of a reading and `print` is `%d`.
unfoldable pub generate_session_id : (format print : ℕ → String) → Clocks → String
generate_session_id format print c =
    "session-" ++ (format c.formatted ++ ("-" ++ print (c.counted % 1000)))

module _ {C : Type 0} where
  unfoldable pub create_session :
      (format print : ℕ → String)
      → Clocks
      → (adapter_name : String) → McpClientInfo
      → Map (McpSession C)
      → Map (McpSession C) × McpSession C
  create_session format print c adapter_name client_info s =
      let session : McpSession C = record {
        id = generate_session_id format print c;
        adapter_name = adapter_name;
        initialized = false;
        capabilities = none;
        server_info = none;
        client_info = client_info;
        created_at = c.created;
        last_activity = c.active;
      } in
      (insert (generate_session_id format print c) session s, session)

  unfoldable pub get_session : String → Map (McpSession C) → Option (McpSession C)
  get_session session_id s = lookup session_id s

  unfoldable pub update_session_capabilities :
      (now : ℕ) (session_id : String)
      → C
      → Option McpClientInfo
      → Map (McpSession C)
      → Map (McpSession C) × Option SessionError
  update_session_capabilities now session_id capabilities server_info s =
      elim (lookup session_id s) [
        | none ↦ (s, some session_not_found)
        | some session ↦ (
          insert session_id
              (record session {
                capabilities = some capabilities;
                server_info = server_info;
                initialized = true;
                last_activity = now;
              })
              s,
          none,
        )
      ]

  unfoldable pub update_session_activity :
      (now : ℕ) (session_id : String) → Map (McpSession C) → Map (McpSession C)
  update_session_activity now session_id s = elim (lookup session_id s) [
    | none ↦ s
    | some session ↦ insert session_id (record session { last_activity = now }) s
  ]

  unfoldable pub close_session : String → Map (McpSession C) → Map (McpSession C)
  close_session session_id s = delete session_id s

  unfoldable pub list_sessions : Map (McpSession C) → List (McpSession C)
  list_sessions s = values s

  -- `session.LastActivity.Before(time.Now().Add(-maxAge))`, for an age that is not negative
  unfoldable pub is_stale : (now max_age : ℕ) → McpSession C → Bool
  is_stale now max_age session = ltb (session.last_activity + max_age) now

  -- The sessions that are left, and how many were removed.
  unfoldable pub cleanup_expired_sessions :
      (now max_age : ℕ) → Map (McpSession C) → Map (McpSession C) × ℕ
  cleanup_expired_sessions now max_age s =
      let left = delete_where (λ _ session. is_stale now max_age session) s in
      (left, length s - length left)
