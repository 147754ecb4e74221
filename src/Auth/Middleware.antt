-- ===== src/Auth/Middleware.antt =====
-- The decisions of the Gin middleware of pkg/auth: adapter_middleware.go, middleware.go and
-- `UserAuthMiddleware` of user_middleware.go. A header that is absent is "".
use suse_ai_up.Prelude.{
  ◌⊎◌, inl, inr, String, ℕ, Bool, true, false, not, ◌==◌, ◌&&◌, ◌||◌, [], Option, none, some,
  if◌then◌else◌, has_prefix, drop_prefix, contains_text,
}
use suse_ai_up.Users.{User, ok, err}
use suse_ai_up.Users.Api.{UserStore}
use suse_ai_up.Adapters.{AdapterResource, AdapterAuthConfig}
use suse_ai_up.Adapters.Store.{StoreError}
use suse_ai_up.Auth.{HeaderError, extract_token_from_header}
use suse_ai_up.Auth.Jwt.{Jwt}
use suse_ai_up.Auth.Manager.{TokenInfo, TokenManager, validate_token}
use suse_ai_up.Auth.Users.{UserAuthConfig, validate_jwt}

-- `name` is the path's parameter.
pub record HttpRequest : Type 0 where
  pub name : String
  pub authorization : String
  pub user_id : String
  pub origin : String
  pub url : String

-- The reasons of a 401.
pub data Refusal : Type 0 where
  authorization_required missing_auth_header invalid_token unsupported_auth_type : Refusal
  invalid_header : HeaderError → Refusal

-- `C` is what the handlers that follow find in the context.
pub data Verdict (C : Type 0) : Type 0 where
  pass : C → Verdict C
  refuse : Refusal → Verdict C

-- `validateToken`, the placeholder
unfoldable pub validate_oauth_token : String → Option String
validate_oauth_token token = if token == "" then none else some "authenticated-user"

-- `OAuthMiddleware.Middleware`: the user in the context.
unfoldable pub oauth_middleware : (required : Bool) → HttpRequest → Verdict String
oauth_middleware required r =
    if r.authorization == ""
    then if required then refuse authorization_required else pass "anonymous"
    else elim (if has_prefix r.authorization "Bearer "
        then validate_oauth_token (drop_prefix r.authorization "Bearer ")
        else none) [
          | some user_id ↦ pass user_id
          | none ↦ if required then refuse invalid_token else pass "anonymous"
        ]

-- The keys that the adapter middleware sets.
pub record AdapterContext : Type 0 where
  pub user : Option String
  pub auth_type : Option String
  pub adapter_name : Option String
  pub token_info : Option TokenInfo

abbrev pub empty_context : AdapterContext
empty_context = record { user = none; auth_type = none; adapter_name = none; token_info = none }

abbrev pub no_authentication : AdapterContext
no_authentication = record {
  user = some "anonymous";
  auth_type = some "none";
  adapter_name = none;
  token_info = none;
}

-- `adapter.Authentication.BearerToken == nil || token != …`, negated
unfoldable pub is_legacy : AdapterAuthConfig → String → Bool
is_legacy auth token = elim auth.bearer_token [ none ↦ false | some b ↦ token == b.token ]

unfoldable pub delegate : Verdict String → Verdict AdapterContext
delegate (pass user) =
    pass (record { user = some user; auth_type = none; adapter_name = none; token_info = none })
delegate (refuse reason) = refuse reason

module _ (jwt : Jwt) where
  -- The case "bearer": first as a signed token, then as the configured text.
  unfoldable pub check_bearer :
      Option (TokenManager jwt)
      → (now : ℕ × ℕ) → HttpRequest
      → AdapterAuthConfig
      → (token : String) → Verdict AdapterContext
  check_bearer manager now r auth token =
      let legacy =
        if is_legacy auth token
        then pass (record {
          user = some "authenticated-user";
          auth_type = some "bearer_legacy";
          adapter_name = some r.name;
          token_info = none;
        })
        else refuse invalid_token in
      elim manager [
        | none ↦ legacy
        | some tm ↦ elim (validate_token jwt tm now token r.url) [
          | inr _ ↦ legacy
          | inl info ↦ pass (record {
            user = some info.subject;
            auth_type = some "bearer_jwt";
            adapter_name = some r.name;
            token_info = some info;
          })
        ]
      ]

  -- The switch on the type of the authentication.
  unfoldable pub check_type :
      Option (TokenManager jwt)
      → (now : ℕ × ℕ) → HttpRequest
      → AdapterAuthConfig
      → Verdict AdapterContext
  check_type manager now r auth =
      if auth.auth_type == "bearer"
      then elim (extract_token_from_header r.authorization) [
        | inr e ↦ refuse (invalid_header e)
        | inl token ↦ check_bearer manager now r auth token
      ]
      else if auth.auth_type == "oauth"
      then delegate (oauth_middleware true r)
      else refuse unsupported_auth_type

  -- `AdapterAuthMiddleware.Middleware`, on what the store answers for the adapter.
  unfoldable pub adapter_middleware :
      {J : Type 0}
      → Option (TokenManager jwt)
      → (now : ℕ × ℕ) → HttpRequest
      → AdapterResource J ⊎ StoreError
      → Verdict AdapterContext
  adapter_middleware manager now r (inr _) = pass empty_context
  adapter_middleware manager now r (inl adapter) = elim adapter.info.authentication [
    | none ↦ pass no_authentication
    | some auth ↦
        if not auth.required
        then pass no_authentication
        else if r.authorization == ""
        then refuse missing_auth_header
        else check_type manager now r auth
  ]

abbrev pub dev_admin : User
dev_admin = record {
  id = "dev-admin";
  name = "Dev Admin";
  email = "";
  groups = [];
  auth_provider = "dev";
  external_id = "";
  provider_groups = [];
  password_hash = "";
  password_changed_at = none;
  last_login_at = none;
  created_at = 0;
  updated_at = 0;
}

-- The user and the request that the next handler gets.
abbrev pub as_dev_admin : HttpRequest → Verdict (User × HttpRequest)
as_dev_admin r = pass (dev_admin, record r { user_id = "dev-admin" })

unfoldable pub is_dev_origin : String → Bool
is_dev_origin origin =
    not (origin == "")
    && (contains_text origin "localhost"
        || contains_text origin "127.0.0.1"
        || contains_text origin "192.168."
        || contains_text origin "10.")

module _ (us : UserStore) (jwt : Jwt) where
  -- The branch of the development mode where no stored user was named.
  unfoldable pub anonymous_dev : HttpRequest → Verdict (User × HttpRequest)
  anonymous_dev r = if is_dev_origin r.origin then as_dev_admin r else as_dev_admin r

  unfoldable pub dev_mode_user : HttpRequest → us.State → Verdict (User × HttpRequest)
  dev_mode_user r s =
      if r.user_id == ""
      then anonymous_dev r
      else elim (us.get r.user_id s) [ ok user ↦ pass (user, r) | err _ ↦ anonymous_dev r ]

  unfoldable pub user_auth_middleware :
      UserAuthConfig
      → jwt.PrivateKey
      → (now : ℕ) → HttpRequest
      → us.State
      → Verdict (User × HttpRequest)
  user_auth_middleware config key now r s =
      if config.dev_mode
      then dev_mode_user r s
      else if r.authorization == ""
      then refuse authorization_required
      else elim (extract_token_from_header r.authorization) [
        | inr e ↦ refuse (invalid_header e)
        | inl token ↦ elim (validate_jwt us jwt key now token s) [
          | inr _ ↦ refuse invalid_token
          | inl user ↦ pass (user, r)
        ]
      ]
