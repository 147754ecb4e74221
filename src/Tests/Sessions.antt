-- ===== src/Tests/Sessions.antt =====
-- The sessions of pkg/session/store.go: two sessions of adapter "maps", one token.
use suse_ai_up.Prelude.{
  ℕ, none, some, ◌≡◌, refl, lookup, insert, ◌==◌, ◌||◌, ◌+◌, ltb, if◌then◌else◌, arith, ◌<◌,
}
use suse_ai_up.Sessions.{SessionDetails, Store, set_with_details}
use suse_ai_up.Sessions.Tokens.{buffer, zero_token, set_token_info, is_token_valid, refresh_token}
use suse_ai_up.Sessions.Invariant.{IsValid}
use suse_ai_up.Sessions.Steps.{
  Reach, here, next, was_set_with_details, token_set, made, new_token, empty, Reach-IsValid,
}
use suse_ai_up.Sessions.Refresh.{same_pointer, pointer, is_token_valid-refresh_token}

-- `Unit` stands for the capabilities, which nothing reads.
abbrev opened : Store Unit
opened = set_with_details 10 "s1" "maps" "http://a" "http" (new_token zero_token empty)

abbrev with_token : Store Unit
with_token = (set_token_info "s1" (some 0) opened).0

allocated : (p : ℕ) → some 0 ≡ some p → p < opened.next
unfolding set_with_details new_token
allocated p e = ground arith

reached : Reach empty with_token
reached =
    next
      (next (next here (made zero_token refl))
        (was_set_with_details 10 "s1" "maps" "http://a" "http" refl))
      (token_set "s1" (some 0) allocated refl)

Reach-IsValid_example : IsValid with_token
Reach-IsValid_example = Reach-IsValid reached

valid : IsValid with_token
valid = Reach-IsValid reached

abbrev session : SessionDetails Unit
session = record {
  session_id = "s1";
  adapter_name = "maps";
  target_address = "http://a";
  connection_type = "http";
  created_at = 10;
  last_activity = 10;
  status = "active";
  token_info = some 0;
  authorization_info = none;
  mcp_session_id = "";
  mcp_capabilities = none;
  mcp_client_info = none;
  mcp_server_info = none;
}

stored : lookup "s1" with_token.sessions ≡ some session
unfolding set_with_details new_token set_token_info lookup insert
stored = refl

is_token_valid-refresh_token_example :
    is_token_valid 60 "s1" (refresh_token 50 "s1" "new" 900_000_000_000 with_token).0 ≡ (
      if ("s1" == "s1") || same_pointer (pointer "s1" with_token) (pointer "s1" with_token)
      then ltb (60 + buffer) 900_000_000_000
      else is_token_valid 60 "s1" with_token)
is_token_valid-refresh_token_example =
    is_token_valid-refresh_token 50 "s1" "new" 900_000_000_000 with_token session stored 60 "s1"
      valid
