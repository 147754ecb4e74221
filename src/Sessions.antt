-- ===== src/Sessions.antt =====
-- `InMemorySessionStore` of pkg/session/store.go. A token is reached through a pointer, since
-- `RefreshToken` writes to the token that `SetTokenInfo` was given; so the state holds the tokens
-- that exist beside the sessions. A time is a number of nanoseconds, given for each `time.Now()`.
pub mod Tokens
pub mod Refresh
pub mod Reads
pub mod Steps
pub mod Invariant
use suse_ai_up.Prelude.{
  String, ℕ, Bool, true, false, not, ◌+◌, ◌==◌, ◌&&◌, List, [], ◌∷◌, Option, none, some,
  if◌then◌else◌, ltb, keep, nat_eq, Map, lookup, insert, delete, delete_where, values,
}

pub record TokenInfo : Type 0 where
  pub access_token : String
  pub refresh_token : String
  pub expires_at : ℕ
  pub token_type : String
  pub scope : String
  pub issued_at : ℕ

pub record AuthorizationInfo : Type 0 where
  pub status : String
  pub authorization_url : String
  pub error_message : String
  pub authorized_at : ℕ
  pub expires_at : ℕ
  pub access_token : String
  pub refresh_token : String
  pub token_type : String
  pub scope : String

pub record McpClientInfo : Type 0 where
  pub name : String
  pub version : String

pub record McpServerInfo : Type 0 where
  pub name : String
  pub version : String
  pub protocol : String

-- `C` is the type of a capability map, which the store passes through.
pub record SessionDetails (C : Type 0) : Type 0 where
  pub session_id : String
  pub adapter_name : String
  pub target_address : String
  pub connection_type : String
  pub created_at : ℕ
  pub last_activity : ℕ
  pub status : String
  -- the address of the token, none for a nil pointer
  pub token_info : Option ℕ
  pub authorization_info : Option AuthorizationInfo
  pub mcp_session_id : String
  pub mcp_capabilities : Option C
  pub mcp_client_info : Option McpClientInfo
  pub mcp_server_info : Option McpServerInfo

pub record Store (C : Type 0) : Type 0 where
  pub sessions : Map (SessionDetails C)
  -- the tokens in memory, and the first address that is free
  pub tokens : ℕ → TokenInfo
  pub next : ℕ

pub data Error : Type 0 where
  session_not_found no_token_info no_authorization_info no_mcp_session : String → Error

pub data Result (A : Type 0) : Type 0 where
  ok : A → Result A
  err : Error → Result A

module _ {C : Type 0} where
  unfoldable pub set_with_details :
      (now : ℕ) (session_id adapter_name target_address connection_type : String)
      → Store C
      → Store C
  set_with_details now session_id adapter_name target_address connection_type s = record s {
    sessions =
        insert session_id
          (record {
            session_id = session_id;
            adapter_name = adapter_name;
            target_address = target_address;
            connection_type = connection_type;
            created_at = now;
            last_activity = now;
            status = "active";
            token_info = none;
            authorization_info = none;
            mcp_session_id = "";
            mcp_capabilities = none;
            mcp_client_info = none;
            mcp_server_info = none;
          })
          s.sessions;
  }

  unfoldable pub set : (now : ℕ) (session_id target_address : String) → Store C → Store C
  unfolding set_with_details
  set now session_id target_address s = set_with_details now session_id "" target_address "" s

  unfoldable pub get : String → Store C → String × Bool
  get session_id s = elim (lookup session_id s.sessions) [
    | none ↦ ("", false)
    | some details ↦ (details.target_address, true)
  ]

  unfoldable pub list_by_adapter : String → Store C → List (SessionDetails C)
  list_by_adapter adapter_name s = keep (λ d. d.adapter_name == adapter_name) (values s.sessions)

  unfoldable pub get_details : String → Store C → Result (SessionDetails C)
  get_details session_id s = elim (lookup session_id s.sessions) [
    | none ↦ err (session_not_found session_id)
    | some details ↦ ok details
  ]

  unfoldable pub delete_session : String → Store C → Store C × Option Error
  delete_session session_id s = elim (lookup session_id s.sessions) [
    | none ↦ (s, some (session_not_found session_id))
    | some _ ↦ (record s { sessions = delete session_id s.sessions }, none)
  ]

  unfoldable pub delete_by_adapter : String → Store C → Store C
  delete_by_adapter adapter_name s = record s {
    sessions = delete_where (λ _ d. d.adapter_name == adapter_name) s.sessions;
  }

  -- `LastActivity.Before(now.Add(-maxAge))`, for a `maxAge` that is not negative
  unfoldable pub cleanup_expired : (now max_age : ℕ) → Store C → Store C
  cleanup_expired now max_age s = record s {
    sessions = delete_where (λ _ d. ltb (d.last_activity + max_age) now) s.sessions;
  }

  -- The shape of the setters: look the session up, change it, and store it.
  unfoldable pub change :
      String → (SessionDetails C → SessionDetails C) → Store C → Store C × Option Error
  change session_id f s = elim (lookup session_id s.sessions) [
    | none ↦ (s, some (session_not_found session_id))
    | some d ↦ (record s { sessions = insert session_id (f d) s.sessions }, none)
  ]

  unfoldable pub update_activity : (now : ℕ) → String → Store C → Store C × Option Error
  unfolding change
  update_activity now session_id = change session_id (λ d. record d { last_activity = now })

  unfoldable pub set_authorization_info :
      String → Option AuthorizationInfo → Store C → Store C × Option Error
  unfolding change
  set_authorization_info session_id info =
      change session_id (λ d. record d { authorization_info = info })

  unfoldable pub set_mcp_session_id : String → String → Store C → Store C × Option Error
  unfolding change
  set_mcp_session_id session_id mcp = change session_id (λ d. record d { mcp_session_id = mcp })

  unfoldable pub set_mcp_capabilities : String → Option C → Store C → Store C × Option Error
  unfolding change
  set_mcp_capabilities session_id caps =
      change session_id (λ d. record d { mcp_capabilities = caps })

  unfoldable pub set_mcp_client_info :
      String → Option McpClientInfo → Store C → Store C × Option Error
  unfolding change
  set_mcp_client_info session_id info = change session_id (λ d. record d { mcp_client_info = info })

  unfoldable pub set_mcp_server_info :
      String → Option McpServerInfo → Store C → Store C × Option Error
  unfolding change
  set_mcp_server_info session_id info = change session_id (λ d. record d { mcp_server_info = info })
