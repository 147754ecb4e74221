-- ===== src/Auth/Users.antt =====
-- `UserAuthService` of pkg/auth/user_middleware.go, over the interface of the user store. bcrypt
-- and the JWT library are parameters.
use Prim.Native.String.{◌++◌}
use suse_ai_up.Prelude.{
  ◌⊎◌, inl, inr, String, ℕ, Bool, ◌==◌, ◌&&◌, not, List, [], ◌∷◌, Option, none, some, if◌then◌else◌,
  any, contains_text, replace_char,
}
use suse_ai_up.Users.{User, Error, hash_failed, wrapped, Result, ok, err}
use suse_ai_up.Users.Api.{UserStore}
use suse_ai_up.Auth.Times.{unix, add_hours}
use suse_ai_up.Auth.Jwt.{Claims, Method, rsa, other, Jwt}

-- The configuration the service reads: `AdminTeams` and `AdminGroups`, none where the part is nil.
pub record UserAuthConfig : Type 0 where
  pub dev_mode : Bool
  pub github_admin_teams : Option (List String)
  pub rancher_admin_groups : Option (List String)

pub record AuthToken : Type 0 where
  pub token : String
  pub token_type : String
  pub expires_at : ℕ
  pub user_id : String
  pub provider : String

pub data JwtError : Type 0 where
  parse_failed missing_subject : JwtError
  user_not_found : Error → JwtError

-- `fmt.Sprintf("%s_%s", provider, strings.ReplaceAll(externalID, "-", "_"))`
unfoldable pub generate_user_id : (provider external_id : String) → String
generate_user_id provider external_id = provider ++ ("_" ++ replace_char "-" "_" external_id)

-- One round for each team or group of the administrators, with a `break` after the first match.
unfoldable pub admin_rounds :
    (team_matches : (ext_group team : String) → Bool) → List String → List String → List String
admin_rounds team_matches [] external_groups = []
admin_rounds team_matches (team ∷ teams) external_groups =
    let rest = admin_rounds team_matches teams external_groups in
    if any (λ g. team_matches g team) external_groups then "mcp-admins" ∷ rest else rest

unfoldable pub map_external_groups_to_local :
    UserAuthConfig → (provider : String) → List String → List String
map_external_groups_to_local config provider external_groups =
    "mcp-users"
    ∷ (if provider == "github"
        then elim config.github_admin_teams [
          | none ↦ []
          | some teams ↦ admin_rounds (λ g team. contains_text g team) teams external_groups
        ]
        else if provider == "rancher"
        then elim config.rancher_admin_groups [
          | none ↦ []
          | some groups ↦ admin_rounds (λ g group. g == group) groups external_groups
        ]
        else [])

module _ (us : UserStore) where
  -- `hash` is `bcrypt.GenerateFromPassword`; an error of it is none.
  unfoldable pub create_user :
      (hash : String → Option String)
      → us.Call
      → (now : ℕ) → User
      → (password : String) → us.State
      → us.State × Option Error
  create_user hash c now user password s =
      if user.auth_provider == "local" && not (password == "")
      then elim (hash password) [
        | none ↦ (s, some hash_failed)
        | some h ↦ us.create c (record user { password_hash = h; password_changed_at = some now }) s
      ]
      else us.create c user s

  -- The error of the update of the last login is only printed.
  unfoldable pub authenticate_user :
      us.Call → (now : ℕ) (user_id password : String) → us.State → us.State × Result User
  authenticate_user c now user_id password s = elim (us.authenticate user_id password s) [
    | err e ↦ (s, err e)
    | ok user ↦
        let seen = record user { last_login_at = some now } in ((us.update c seen s).0, ok seen)
  ]

  abbrev pub refreshed : (now : ℕ) (email name : String) → List String → User → User
  refreshed now email name groups user = record user {
    name = name;
    email = email;
    provider_groups = groups;
    last_login_at = some now;
  }

  abbrev pub external_user :
      UserAuthConfig → (provider external_id email name : String) → List String → User
  external_user config provider external_id email name groups = record {
    id = generate_user_id provider external_id;
    name = name;
    email = email;
    groups = map_external_groups_to_local config provider groups;
    auth_provider = provider;
    external_id = external_id;
    provider_groups = groups;
    password_hash = "";
    password_changed_at = none;
    last_login_at = none;
    created_at = 0;
    updated_at = 0;
  }

  unfoldable pub authenticate_external_user :
      UserAuthConfig
      → us.Call
      → (now : ℕ) (provider external_id email name : String) → List String
      → us.State
      → us.State × Result User
  authenticate_external_user config c now provider external_id email name groups s =
      elim (us.get_by_external_id provider external_id s) [
        | ok user ↦
            let seen = refreshed now email name groups user in
            let (after, e) = us.update c seen s in
            (after, elim e [ none ↦ ok seen | some f ↦ err (wrapped "failed to update user" f) ])
        | err _ ↦
            let user = external_user config provider external_id email name groups in
            let (after, e) = us.create c user s in
            (after, elim e [ none ↦ ok user | some f ↦ err (wrapped "failed to create user" f) ])
      ]

  module _ (jwt : Jwt) where
    -- The claims of `GenerateJWT`, which reads the clock for each of the two times: 24 hours.
    unfoldable pub user_claims : (issued expiring : ℕ) → User → Claims
    user_claims issued expiring user = record {
      jti = none;
      sub = some user.id;
      aud = none;
      iss = none;
      scope = none;
      token_use = none;
      email = some user.email;
      name = some user.name;
      provider = some user.auth_provider;
      groups = user.groups;
      iat = some (unix issued);
      exp = some (unix (add_hours expiring 24));
    }

    abbrev pub auth_token : (returned : ℕ) → User → (signed : String) → AuthToken
    auth_token returned user signed = record {
      token = signed;
      token_type = "Bearer";
      expires_at = add_hours returned 24;
      user_id = user.id;
      provider = user.auth_provider;
    }

    -- With its three readings of the clock; none where the signature fails.
    unfoldable pub generate_jwt :
        jwt.PrivateKey → (issued expiring returned : ℕ) → User → Option AuthToken
    generate_jwt key issued expiring returned user =
        elim (jwt.sign (user_claims issued expiring user) key) [
          | none ↦ none
          | some signed ↦ some (auth_token returned user signed)
        ]

    unfoldable pub user_keyfunc : jwt.PrivateKey → Method → Option jwt.PublicKey
    user_keyfunc key rsa = some (jwt.public_key key)
    user_keyfunc key other = none

    unfoldable pub validate_jwt : jwt.PrivateKey → (now : ℕ) → String → us.State → User ⊎ JwtError
    validate_jwt key now token s = elim (jwt.parse now (user_keyfunc key) token) [
      | none ↦ inr parse_failed
      | some claims ↦ elim claims.sub [
        | none ↦ inr missing_subject
        | some user_id ↦ elim (us.get user_id s) [
          | err e ↦ inr (user_not_found e)
          | ok user ↦ inl user
        ]
      ]
    ]
