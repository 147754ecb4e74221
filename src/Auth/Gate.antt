-- ===== src/Auth/Gate.antt =====
-- Who gets past `AdapterAuthMiddleware` (pkg/auth/adapter_middleware.go).
use suse_ai_up.Prelude.{
  ◌⊎◌, inl, String, ℕ, ◌==◌, true, false, Option, none, some, ◌≡◌, has_prefix, drop_prefix,
}
use suse_ai_up.Adapters.{AdapterAuthConfig, BearerTokenConfig}
use suse_ai_up.Auth.Headers.{IsBearer}
use suse_ai_up.Auth.Jwt.{Jwt}
use suse_ai_up.Auth.Manager.{TokenInfo, TokenManager, validate_token}
use suse_ai_up.Auth.Middleware.{HttpRequest, Verdict, pass, refuse}

-- A request passes.
abbrev pub Passes : {C : Type 0} → Verdict C → Type 0
Passes (pass c) = Unit
Passes (refuse e) = ⊥

module _ (jwt : Jwt) where
  -- A bearer token that is valid for the address of the request, or that is the configured text.
  abbrev pub GoodToken :
      Option (TokenManager jwt) → (now : ℕ × ℕ) → HttpRequest → AdapterAuthConfig → String → Type 0
  GoodToken manager now r auth token =
      ((tm : TokenManager jwt) × (info : TokenInfo) × (manager ≡ some tm)
        × (validate_token jwt tm now token r.url ≡ inl info))
      ⊎ ((b : BearerTokenConfig) × (auth.bearer_token ≡ some b) × (token ≡ b.token))

  -- For "oauth": anything after "Bearer ".
  abbrev pub AnyToken : HttpRequest → Type 0
  AnyToken r =
      (has_prefix r.authorization "Bearer " ≡ true)
      × ((drop_prefix r.authorization "Bearer " == "") ≡ false)

  -- What the configured authentication asks for.
  abbrev pub Meets :
      Option (TokenManager jwt) → (now : ℕ × ℕ) → HttpRequest → AdapterAuthConfig → Type 0
  Meets manager now r auth =
      ((auth.auth_type ≡ "bearer")
        × (token : String) × IsBearer r.authorization token
        × GoodToken manager now r auth token)
      ⊎ ((auth.auth_type ≡ "oauth") × AnyToken r)

  -- What an adapter's configuration asks of a request.
  abbrev pub Allowed :
      Option (TokenManager jwt) → (now : ℕ × ℕ) → HttpRequest → Option AdapterAuthConfig → Type 0
  Allowed manager now r none = Unit
  Allowed manager now r (some auth) =
      (auth.required ≡ false) ⊎ (((r.authorization == "") ≡ false) × Meets manager now r auth)
