-- ===== src/Sessions/Steps.antt =====
-- Every call of `InMemorySessionStore` (pkg/session/store.go) that writes, as a step; the lock makes
-- calls of concurrent requests follow one another in some order, so a history is a list of steps.
use suse_ai_up.Prelude.{String, ℕ, ◌+◌, ◌<◌, ◌≡◌, [], Option, some, lookup, arith, refl}
use suse_ai_up.Sessions.{
  TokenInfo, AuthorizationInfo, McpClientInfo, McpServerInfo, SessionDetails, Store,
  set_with_details, set, delete_session, delete_by_adapter, cleanup_expired, update_activity,
  set_authorization_info, set_mcp_session_id, set_mcp_capabilities, set_mcp_client_info,
  set_mcp_server_info,
}
use suse_ai_up.Sessions.Tokens.{zero_token, write, set_token_info, refresh_token}
use suse_ai_up.Sessions.Invariant.{
  IsFiled, IsValid, change-IsValid, set_with_details-IsValid, delete_session-IsValid,
  delete_where-IsValid, refresh_token-IsValid, weaken,
}

module _ {C : Type 0} where
  -- A caller makes a token, `&TokenInfo{…}`.
  unfoldable pub new_token : TokenInfo → Store C → Store C
  new_token t s = record s { tokens = write s.next t s.tokens; next = s.next + 1 }

  -- `NewInMemorySessionStore`
  abbrev pub empty : Store C
  empty = record { sessions = []; tokens = λ _. zero_token; next = 0 }

  pub data Step (s t : Store C) : Type 0 where
    made : (info : TokenInfo) → t ≡ new_token info s → Step s t
    was_set : (now : ℕ) (id target : String) → t ≡ set now id target s → Step s t
    was_set_with_details :
        (now : ℕ) (id adapter target kind : String)
        → t ≡ set_with_details now id adapter target kind s
        → Step s t
    deleted : (id : String) → t ≡ (delete_session id s).0 → Step s t
    deleted_by_adapter : (adapter : String) → t ≡ delete_by_adapter adapter s → Step s t
    cleaned : (now max_age : ℕ) → t ≡ cleanup_expired now max_age s → Step s t
    active : (now : ℕ) (id : String) → t ≡ (update_activity now id s).0 → Step s t
    -- the pointer is one that the caller was given
    token_set :
        (id : String) (info : Option ℕ)
        → ((p : ℕ) → info ≡ some p → p < s.next)
        → t ≡ (set_token_info id info s).0
        → Step s t
    authorization_set :
        (id : String) (info : Option AuthorizationInfo)
        → t ≡ (set_authorization_info id info s).0
        → Step s t
    refreshed_token :
        (now : ℕ) (id access : String) (expires : ℕ)
        → t ≡ (refresh_token now id access expires s).0
        → Step s t
    mcp_session_set : (id mcp : String) → t ≡ (set_mcp_session_id id mcp s).0 → Step s t
    capabilities_set :
        (id : String) (caps : Option C) → t ≡ (set_mcp_capabilities id caps s).0 → Step s t
    client_set :
        (id : String) (info : Option McpClientInfo)
        → t ≡ (set_mcp_client_info id info s).0
        → Step s t
    server_set :
        (id : String) (info : Option McpServerInfo)
        → t ≡ (set_mcp_server_info id info s).0
        → Step s t

  pub data Reach (s : Store C) : Store C → Type 0 where
    here : Reach s s
    next : {t u : Store C} → Reach s t → Step t u → Reach s u

  new_token-IsValid : (info : TokenInfo) (s : Store C) → IsValid s → IsValid (new_token info s)
  unfolding new_token
  new_token-IsValid info s v = record {
    map = v.map;
    filed = λ k d found. weaken s.next k d (v.filed k d found);
  }

  -- Each setter stores the session under the same ID, and but for `SetTokenInfo` with its token.
  same :
      (next : ℕ) (k : String) (d e : SessionDetails C)
      → e.session_id ≡ d.session_id
      → e.token_info ≡ d.token_info
      → IsFiled next k d
      → IsFiled next k e
  same n k d e i t h = record {
    own_id = ground arith;
    allocated = λ p q. h.allocated p (ground arith);
  }

  Step-IsValid : {s t : Store C} → Step s t → IsValid s → IsValid t
  unfolding set delete_by_adapter cleanup_expired update_activity set_token_info
      set_authorization_info set_mcp_session_id set_mcp_capabilities set_mcp_client_info
      set_mcp_server_info
  Step-IsValid {s} (made info e) v = rw e (new_token-IsValid info s v)
  Step-IsValid {s} (was_set now id target e) v =
      rw e (set_with_details-IsValid now id "" target "" s v)
  Step-IsValid {s} (was_set_with_details now id a t k e) v =
      rw e (set_with_details-IsValid now id a t k s v)
  Step-IsValid {s} (deleted id e) v = rw e (delete_session-IsValid id s v)
  Step-IsValid {s} (deleted_by_adapter a e) v = rw e (delete_where-IsValid _ s v)
  Step-IsValid {s} (cleaned now m e) v = rw e (delete_where-IsValid _ s v)
  Step-IsValid {s} (active now id e) v =
      rw e (change-IsValid id _ s (λ d h. same s.next id d _ refl refl h) v)
  Step-IsValid {s} (token_set id info ok e) v =
      rw e (change-IsValid id _ s (λ d h. record { own_id = h.own_id; allocated = ok }) v)
  Step-IsValid {s} (authorization_set id info e) v =
      rw e (change-IsValid id _ s (λ d h. same s.next id d _ refl refl h) v)
  Step-IsValid {s} (refreshed_token now id a x e) v = rw e (refresh_token-IsValid now id a x s v)
  Step-IsValid {s} (mcp_session_set id mcp e) v =
      rw e (change-IsValid id _ s (λ d h. same s.next id d _ refl refl h) v)
  Step-IsValid {s} (capabilities_set id caps e) v =
      rw e (change-IsValid id _ s (λ d h. same s.next id d _ refl refl h) v)
  Step-IsValid {s} (client_set id info e) v =
      rw e (change-IsValid id _ s (λ d h. same s.next id d _ refl refl h) v)
  Step-IsValid {s} (server_set id info e) v =
      rw e (change-IsValid id _ s (λ d h. same s.next id d _ refl refl h) v)

  empty-IsValid : IsValid empty
  unfolding lookup
  empty-IsValid = record { map = tt; filed = λ k d e. absurd (ground arith) }

  -- After any sequence of calls on a new store, no session ID is listed twice, every session
  -- stands under its own ID, and every token pointer leads to a token that exists.
  pub Reach-IsValid : {t : Store C} → Reach empty t → IsValid t
  Reach-IsValid here = empty-IsValid
  Reach-IsValid (next r st) = Step-IsValid st (Reach-IsValid r)
