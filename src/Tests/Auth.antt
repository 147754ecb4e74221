-- ===== src/Tests/Auth.antt =====
-- Authentication (pkg/auth) with a JWT library that signs one set of claims with one key.
use Prim.Native.String.{◌∷◌}
use suse_ai_up.Prelude.{
  ◌*◌, ◌<◌, ◌≤◌, ◌≢◌, ◌⊎◌, inl, inr, ℕ, pos, true, false, [], ◌∷◌, none, some, ◌≡◌, refl, Map,
  lookup, arith, lower_is, trim_space, trim_left, trim_right, cut_at,
}
use suse_ai_up.Users.{User, Error, ok, err}
use suse_ai_up.Auth.Times.{unix, add_hours}
use suse_ai_up.Users.Memory
use suse_ai_up.Users.Instances.{memory_users}
use suse_ai_up.Users.GroupInstances.{memory_groups}
use suse_ai_up.Access.{can_manage_users}
use suse_ai_up.Adapters.{AdapterResource}
use suse_ai_up.Adapters.Store.{get}
use suse_ai_up.Auth.{extract_token_from_header}
use suse_ai_up.Auth.Jwt.{Claims}
use suse_ai_up.Auth.Manager.{
  TokenInfo, invalid_audience, TokenManager, access_claims, generate_bearer_token, adapter_audience,
  server_hours, create_token_for_adapter, validate_token, hours_of,
}
use suse_ai_up.Auth.Expiry.{
  validate_token-generate_bearer_token, validate_token-create_token_for_adapter,
}
use suse_ai_up.Auth.Users.{
  UserAuthConfig, AuthToken, user_claims, generate_jwt, user_keyfunc, validate_jwt,
}
use suse_ai_up.Auth.Middleware.{HttpRequest, pass, dev_admin, user_auth_middleware}
use suse_ai_up.Auth.Passing.{SignedIn, user_auth_middleware-SignedIn}
use suse_ai_up.Auth.Login.{user_auth_middleware-generate_jwt, user_auth_middleware_dev}
use suse_ai_up.Tests.Adapters.{sample_adapter}
use suse_ai_up.Tests.Keys.{one_jwt, one_jwt-JwtLaws}

abbrev ann : User
ann = record {
  id = "ann";
  name = "Ann";
  email = "ann@example.com";
  groups = [];
  auth_provider = "local";
  external_id = "";
  provider_groups = [];
  password_hash = "";
  password_changed_at = none;
  last_login_at = none;
  created_at = 0;
  updated_at = 0;
}

abbrev people : Map User
people = ("ann", ann) ∷ []

abbrev production : UserAuthConfig
production = record { dev_mode = false; github_admin_teams = none; rancher_admin_groups = none }

abbrev development : UserAuthConfig
development = record { dev_mode = true; github_admin_teams = none; rancher_admin_groups = none }

abbrev ann_claims : Claims
ann_claims = record {
  jti = none;
  sub = some "ann";
  aud = none;
  iss = none;
  scope = none;
  token_use = none;
  email = some "ann@example.com";
  name = some "Ann";
  provider = some "local";
  groups = [];
  iat = some 100;
  exp = some 86500;
}

abbrev request : HttpRequest
request = record {
  name = "maps";
  authorization = "Bearer jwt";
  user_id = "";
  origin = "";
  url = "/api/v1/adapters/maps/mcp";
}

abbrev ann_token : AuthToken
ann_token = record {
  token = "jwt";
  token_type = "Bearer";
  expires_at = 86500000000007;
  user_id = "ann";
  provider = "local";
}

made :
    generate_jwt
      (memory_users (λ h p. false))
      (one_jwt ann_claims)
      "key"
      100000000000
      100000000005
      100000000007
      ann
    ≡ some ann_token
unfolding generate_jwt user_claims unix add_hours
made = refl

stored : (memory_users (λ h p. false)).get "ann" people ≡ ok ann
unfolding Memory.get lookup
stored = refl

user_auth_middleware-generate_jwt_example :
    user_auth_middleware
      (memory_users (λ h p. false))
      (one_jwt ann_claims)
      production
      "key"
      200000000000
      request
      people
    ≡ pass (ann, request)
user_auth_middleware-generate_jwt_example =
    user_auth_middleware-generate_jwt (memory_users (λ h p. false)) (one_jwt ann_claims)
      (one_jwt-JwtLaws ann_claims) production "key" 100000000000 100000000005 100000000007
      200000000000 request people ann ann ann_token refl made (omega arith) stored refl

passed :
    user_auth_middleware
      (memory_users (λ h p. false))
      (one_jwt ann_claims)
      production
      "key"
      200000000000
      request
      people
    ≡ pass (ann, request)
unfolding user_auth_middleware extract_token_from_header validate_jwt user_keyfunc Memory.get lookup
    cut_at lower_is trim_space trim_left trim_right
passed = refl

user_auth_middleware-SignedIn_example :
    SignedIn
      (memory_users (λ h p. false))
      (one_jwt ann_claims)
      (one_jwt-JwtLaws ann_claims)
      "key"
      200000000000
      request
      people
      ann
    × (request ≡ request)
user_auth_middleware-SignedIn_example =
    user_auth_middleware-SignedIn (memory_users (λ h p. false)) (one_jwt ann_claims)
      (one_jwt-JwtLaws ann_claims) production "key" 200000000000 request request people ann refl
      passed

-- Without X-User-ID
user_auth_middleware_dev_example :
    ((request.user_id ≢ "")
      × (user : User) × ((memory_users (λ h p. false)).get "" people ≡ ok user)
      × (user_auth_middleware
            (memory_users (λ h p. false))
            (one_jwt ann_claims)
            development
            "key"
            5
            request
            people
          ≡ pass (user, request)))
    ⊎ (((request.user_id ≡ "")
          ⊎ ((e : Error) × ((memory_users (λ h p. false)).get "" people ≡ err e)))
        × (user_auth_middleware
              (memory_users (λ h p. false))
              (one_jwt ann_claims)
              development
              "key"
              5
              request
              people
            ≡ pass (dev_admin, record request { user_id = "dev-admin" }))
        × (can_manage_users (memory_users (λ h p. false)) memory_groups people [] "dev-admin"
            ≡ ok true))
user_auth_middleware_dev_example =
    user_auth_middleware_dev (memory_users (λ h p. false)) (one_jwt ann_claims) memory_groups []
      development "key" 5 request people refl

abbrev tokens_of : (c : Claims) → TokenManager (one_jwt c)
tokens_of c = record { private_key = "key"; issuer = "suse-ai-up" }

abbrev maps_claims : Claims
maps_claims = record {
  jti = some "tok";
  sub = some "maps";
  aud = some "http://localhost:8911/api/v1/adapters/maps";
  iss = some "suse-ai-up";
  scope = some "mcp:read mcp:write";
  token_use = some "access";
  email = none;
  name = none;
  provider = none;
  groups = [];
  iat = some 100;
  exp = some 43300;
}

abbrev maps_info : TokenInfo
maps_info = record {
  token_id = "tok";
  access_token = "jwt";
  token_type = "Bearer";
  expires_at = 43300000000003;
  issued_at = 100000000003;
  refresh_token = "";
  scope = "mcp:read mcp:write";
  audience = "http://localhost:8911/api/v1/adapters/maps";
  issuer = "suse-ai-up";
  subject = "maps";
}

abbrev maps_manager : TokenManager (one_jwt maps_claims)
maps_manager = record { private_key = "key"; issuer = "suse-ai-up" }

generated :
    generate_bearer_token
      (one_jwt maps_claims)
      maps_manager
      100000000003
      "tok"
      "maps"
      "http://localhost:8911/api/v1/adapters/maps"
      (pos 12)
    ≡ inl maps_info
unfolding generate_bearer_token access_claims hours_of unix add_hours
generated = refl

in_time :
    (200000000000 < unix 43300000000003 * 1000000000) × (unix 200000000001 ≤ unix 43300000000003)
unfolding unix
in_time = (omega arith, omega arith)

validate_token-generate_bearer_token_example :
    validate_token
      (one_jwt maps_claims)
      maps_manager
      (200000000000, 200000000001)
      "jwt"
      "http://other"
    ≡ inr (invalid_audience "http://other" "http://localhost:8911/api/v1/adapters/maps")
validate_token-generate_bearer_token_example =
    validate_token-generate_bearer_token (one_jwt maps_claims) (one_jwt-JwtLaws maps_claims)
      maps_manager 100000000003 (200000000000, 200000000001) "tok" "maps"
      "http://localhost:8911/api/v1/adapters/maps" "http://other" (pos 12) maps_info generated
      in_time

abbrev described : TokenInfo
described = record maps_info { scope = "mcp:read mcp:write server:s1 risk:high" }

created :
    create_token_for_adapter
      (one_jwt maps_claims)
      maps_manager
      100000000003
      "tok"
      "maps"
      "s1"
      "high"
    ≡ inl described
unfolding create_token_for_adapter generate_bearer_token access_claims hours_of unix add_hours
    server_hours adapter_audience
created = refl

validate_token-create_token_for_adapter_example :
    validate_token
      (one_jwt maps_claims)
      maps_manager
      (200000000000, 200000000001)
      "jwt"
      (◌∷◌ "/" "api")
    ≡ inr (invalid_audience (◌∷◌ "/" "api") (adapter_audience (one_jwt maps_claims) "maps"))
validate_token-create_token_for_adapter_example =
    validate_token-create_token_for_adapter (one_jwt maps_claims) (one_jwt-JwtLaws maps_claims)
      maps_manager 100000000003 (200000000000, 200000000001) "tok" "maps" "s1" "high" "api"
      described created in_time

abbrev guarded : AdapterResource ℕ
guarded = sample_adapter (
    some (record {
      required = true;
      auth_type = "oauth";
      bearer_token = none;
      oauth = none;
      basic = none;
      api_key = none;
    }))
