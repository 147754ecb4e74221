-- ===== src/Auth/Manager.antt =====
-- `TokenManager` of pkg/auth/token_manager.go: the access tokens of adapters.
use Prim.Native.String.{◌++◌}
use suse_ai_up.Prelude.{
  ◌⊎◌, inl, inr, String, ℕ, ℤ, pos, negsuc, zero, suc, ◌==◌, [], Option, none, some, if◌then◌else◌,
  ltb,
}
use suse_ai_up.Auth.Times.{unix, from_unix, add_hours}
use suse_ai_up.Auth.Jwt.{Claims, Method, rsa, other, Jwt}

pub record TokenInfo : Type 0 where
  pub token_id : String
  pub access_token : String
  pub token_type : String
  pub expires_at : ℕ
  pub issued_at : ℕ
  pub refresh_token : String
  pub scope : String
  pub audience : String
  pub issuer : String
  pub subject : String

pub data TokenError : Type 0 where
  sign_failed parse_failed missing_expiration token_expired missing_audience : TokenError
  invalid_audience : (expected found : String) → TokenError

-- `if expiresInHours <= 0 { expiresInHours = 24 }`
unfoldable pub hours_of : ℤ → ℕ
hours_of (pos zero) = 24
hours_of (pos (suc n)) = suc n
hours_of (negsuc n) = 24

unfoldable pub or_empty : Option String → String
or_empty none = ""
or_empty (some s) = s

module _ (jwt : Jwt) where
  pub record TokenManager : Type 0 where
    pub private_key : jwt.PrivateKey
    pub issuer : String

  -- The claims of `GenerateBearerToken`; `token_id` is what `generateTokenID` answers.
  unfoldable pub access_claims :
      TokenManager → (now : ℕ) (token_id adapter_name audience : String) → ℤ → Claims
  access_claims tm now token_id adapter_name audience expires_in_hours = record {
    jti = some token_id;
    sub = some adapter_name;
    aud = some audience;
    iss = some tm.issuer;
    scope = some "mcp:read mcp:write";
    token_use = some "access";
    email = none;
    name = none;
    provider = none;
    groups = [];
    iat = some (unix now);
    exp = some (unix (add_hours now (hours_of expires_in_hours)));
  }

  -- What it returns beside the signed text.
  abbrev pub issued :
      TokenManager
      → (now : ℕ) (token_id adapter_name audience : String) → ℤ
      → (signed : String) → TokenInfo
  issued tm now token_id adapter_name audience expires_in_hours signed = record {
    token_id = token_id;
    access_token = signed;
    token_type = "Bearer";
    expires_at = add_hours now (hours_of expires_in_hours);
    issued_at = now;
    refresh_token = "";
    scope = "mcp:read mcp:write";
    audience = audience;
    issuer = tm.issuer;
    subject = adapter_name;
  }

  unfoldable pub generate_bearer_token :
      TokenManager
      → (now : ℕ) (token_id adapter_name audience : String) → ℤ
      → TokenInfo ⊎ TokenError
  generate_bearer_token tm now token_id adapter_name audience expires_in_hours =
      elim (jwt.sign (access_claims tm now token_id adapter_name audience expires_in_hours)
        tm.private_key) [
          | none ↦ inr sign_failed
          | some signed ↦ inl (issued tm now token_id adapter_name audience expires_in_hours signed)
        ]

  -- `http://localhost:8911/api/v1/adapters/` and the name
  unfoldable pub adapter_audience : String → String
  adapter_audience adapter_name = "http://localhost:8911/api/v1/adapters/" ++ adapter_name

  unfoldable pub server_hours : (vulnerability_score : String) → ℤ
  server_hours score = if score == "high" then pos 12 else pos 24

  unfoldable pub create_token_for_adapter :
      TokenManager
      → (now : ℕ) (token_id adapter_name server_id vulnerability_score : String)
      → TokenInfo ⊎ TokenError
  create_token_for_adapter tm now token_id adapter_name server_id score =
      elim (generate_bearer_token tm now token_id adapter_name (adapter_audience adapter_name)
        (server_hours score)) [
          | inr e ↦ inr e
          | inl info ↦ inl (record info {
            scope = "mcp:read mcp:write server:" ++ (server_id ++ (" risk:" ++ score));
          })
        ]

  -- The function that gives `jwt.Parse` the key.
  unfoldable pub keyfunc : TokenManager → Method → Option jwt.PublicKey
  keyfunc tm rsa = some (jwt.public_key tm.private_key)
  keyfunc tm other = none

  -- `now` has two readings of the clock: that of `jwt.Parse` and that of the code after it.
  unfoldable pub validate_token :
      TokenManager → (now : ℕ × ℕ) → (token expected_audience : String) → TokenInfo ⊎ TokenError
  validate_token tm now token expected_audience = elim (jwt.parse now.0 (keyfunc tm) token) [
    | none ↦ inr parse_failed
    | some claims ↦ elim claims.exp [
      | none ↦ inr missing_expiration
      | some exp ↦ if ltb exp (unix now.1) then inr token_expired else elim claims.aud [
        | none ↦ inr missing_audience
        | some aud ↦
            if aud == expected_audience
            then inl (record {
              token_id = or_empty claims.jti;
              access_token = token;
              token_type = "Bearer";
              expires_at = from_unix (some exp);
              issued_at = from_unix claims.iat;
              refresh_token = "";
              scope = or_empty claims.scope;
              audience = aud;
              issuer = or_empty claims.iss;
              subject = or_empty claims.sub;
            })
            else inr (invalid_audience expected_audience aud)
      ]
    ]
  ]
