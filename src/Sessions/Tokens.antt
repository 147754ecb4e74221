-- ===== src/Sessions/Tokens.antt =====
-- The token methods and the getters of `InMemorySessionStore` of pkg/session/store.go.
use suse_ai_up.Prelude.{
  String, ℕ, Bool, false, not, ◌+◌, ◌==◌, ◌&&◌, List, [], ◌∷◌, Option, none, some, if◌then◌else◌,
  ltb, nat_eq, keep, lookup, insert, values,
}
use suse_ai_up.Sessions.{
  TokenInfo, AuthorizationInfo, McpClientInfo, McpServerInfo, SessionDetails, Store, Error,
  session_not_found, no_token_info, no_authorization_info, no_mcp_session, Result, ok, err, change,
}

-- 5 minutes in nanoseconds
abbrev pub buffer : ℕ
buffer = 300_000_000_000

-- `&TokenInfo{}`
abbrev pub zero_token : TokenInfo
zero_token = record {
  access_token = "";
  refresh_token = "";
  expires_at = 0;
  token_type = "";
  scope = "";
  issued_at = 0;
}

-- A write through a pointer.
abbrev pub write : ℕ → TokenInfo → (ℕ → TokenInfo) → ℕ → TokenInfo
write p t tokens q = if nat_eq p q then t else tokens q

abbrev pub or_missing : {A : Type 0} → Error → Option A → Result A
or_missing e none = err e
or_missing e (some a) = ok a

-- The three assignments to `*session.TokenInfo`.
abbrev pub refreshed : (now : ℕ) (access_token : String) (expires_at : ℕ) → TokenInfo → TokenInfo
refreshed now access_token expires_at t = record t {
  access_token = access_token;
  expires_at = expires_at;
  issued_at = now;
}

module _ {C : Type 0} where
  -- The caller's pointer is stored, not a copy.
  unfoldable pub set_token_info : String → Option ℕ → Store C → Store C × Option Error
  unfolding change
  set_token_info session_id info = change session_id (λ d. record d { token_info = info })

  -- The shape of the getters.
  unfoldable pub read : {A : Type 0} → String → (SessionDetails C → Result A) → Store C → Result A
  read session_id f s = elim (lookup session_id s.sessions) [
    | none ↦ err (session_not_found session_id)
    | some d ↦ f d
  ]

  -- The pointer to the token.
  unfoldable pub get_token_info : String → Store C → Result ℕ
  unfolding read
  get_token_info session_id =
      read session_id (λ d. or_missing (no_token_info session_id) d.token_info)

  unfoldable pub get_authorization_info : String → Store C → Result AuthorizationInfo
  unfolding read
  get_authorization_info session_id =
      read session_id (λ d. or_missing (no_authorization_info session_id) d.authorization_info)

  unfoldable pub is_token_valid : (now : ℕ) → String → Store C → Bool
  is_token_valid now session_id s = elim (lookup session_id s.sessions) [
    | none ↦ false
    | some d ↦ elim d.token_info [
      | none ↦ false
      | some p ↦ ltb (now + buffer) (s.tokens p).expires_at
    ]
  ]

  unfoldable pub refresh_token :
      (now : ℕ) (session_id new_access_token : String) (expires_at : ℕ)
      → Store C
      → Store C × Option Error
  refresh_token now session_id new_access_token expires_at s = elim (lookup session_id s.sessions) [
    | none ↦ (s, some (session_not_found session_id))
    | some d ↦ elim d.token_info [
      | some p ↦ (
        record s {
          tokens = write p (refreshed now new_access_token expires_at (s.tokens p)) s.tokens;
          sessions = insert session_id d s.sessions;
        },
        none,
      )
      | none ↦ (
        record s {
          tokens = write s.next (refreshed now new_access_token expires_at zero_token) s.tokens;
          next = s.next + 1;
          sessions = insert session_id (record d { token_info = some s.next }) s.sessions;
        },
        none,
      )
    ]
  ]

  unfoldable pub get_mcp_session_id : String → Store C → Result String
  unfolding read
  get_mcp_session_id session_id = read session_id (λ d. ok d.mcp_session_id)

  unfoldable pub get_mcp_capabilities : String → Store C → Result (Option C)
  unfolding read
  get_mcp_capabilities session_id = read session_id (λ d. ok d.mcp_capabilities)

  unfoldable pub get_mcp_client_info : String → Store C → Result (Option McpClientInfo)
  unfolding read
  get_mcp_client_info session_id = read session_id (λ d. ok d.mcp_client_info)

  unfoldable pub get_mcp_server_info : String → Store C → Result (Option McpServerInfo)
  unfolding read
  get_mcp_server_info session_id = read session_id (λ d. ok d.mcp_server_info)

  -- The loop of `FindByMCPSessionID`: the first session that the map's order meets.
  unfoldable pub first_session : String → List (SessionDetails C) → Result (SessionDetails C)
  first_session mcp [] = err (no_mcp_session mcp)
  first_session mcp (d ∷ ds) = if d.mcp_session_id == mcp then ok d else first_session mcp ds

  unfoldable pub find_by_mcp_session_id : String → Store C → Result (SessionDetails C)
  unfolding first_session
  find_by_mcp_session_id mcp s = first_session mcp (values s.sessions)

  unfoldable pub get_active_mcp_sessions : Store C → List (SessionDetails C)
  get_active_mcp_sessions s =
      keep (λ d. not (d.mcp_session_id == "") && d.status == "active") (values s.sessions)
