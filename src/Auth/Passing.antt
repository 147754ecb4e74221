-- ===== src/Auth/Passing.antt =====
-- Who gets past the middleware of pkg/auth.
use suse_ai_up.Prelude.{
  inl, inr, String, ℕ, ◌==◌, false, some, ◌≡◌, refl, ap, ◌∙◌, subst, Bool-cases, Option-cases,
  Sum-cases,
}
use suse_ai_up.Users.{User, ok, Result-cases}
use suse_ai_up.Users.Api.{UserStore}
use suse_ai_up.Auth.{extract_token_from_header}
use suse_ai_up.Auth.Headers.{IsBearer, extract_token_from_header-IsBearer}
use suse_ai_up.Auth.Jwt.{Claims, Method, rsa, other, Jwt, JwtLaws, Live}
use suse_ai_up.Auth.Users.{UserAuthConfig, user_keyfunc, validate_jwt}
use suse_ai_up.Auth.Middleware.{HttpRequest, pass, user_auth_middleware}

module _ (us : UserStore) (jwt : Jwt) where
  -- The request carries a live token, signed by RSA with the service's key, whose subject is stored.
  pub record SignedIn (laws : JwtLaws jwt) (key : jwt.PrivateKey) (now : ℕ) (r : HttpRequest)
      (s : us.State) (user : User) : Type 0 where
    pub token : String
    pub bearer : IsBearer r.authorization token
    pub claims : Claims
    pub signed : laws.IsSigned rsa (jwt.public_key key) claims token
    pub live : Live now claims
    pub user_id : String
    pub subject : claims.sub ≡ some user_id
    pub stored : us.get user_id s ≡ ok user

  only_own_key :
      (key : jwt.PrivateKey) (m : Method) (k : jwt.PublicKey)
      → user_keyfunc us jwt key m ≡ some k
      → (m ≡ rsa) × (k ≡ jwt.public_key key)
  unfolding user_keyfunc
  only_own_key key rsa k h = (refl, cc)
  only_own_key key other k h = cc

  validate_jwt_sound :
      (key : jwt.PrivateKey) (now : ℕ) (token : String) (s : us.State) (user : User)
      → validate_jwt us jwt key now token s ≡ inl user
      → (claims : Claims) × (user_id : String) × (jwt.parse now (user_keyfunc us jwt key) token
          ≡ some claims)
        × (claims.sub ≡ some user_id)
        × (us.get user_id s ≡ ok user)
  unfolding validate_jwt
  validate_jwt_sound key now token s user h =
      elim (Option-cases (jwt.parse now (user_keyfunc us jwt key) token)) [
        | inl n ↦ absurd (cc (rw (validate_jwt, n) at h))
        | inr (claims, n) ↦ elim (Option-cases claims.sub) [
          | inl m ↦ absurd (cc (rw (validate_jwt, n, m) at h))
          | inr (id, m) ↦ elim (Result-cases (us.get id s)) [
            | inr (e, g) ↦ absurd (cc (rw (validate_jwt, n, m, g) at h))
            | inl (u, g) ↦
                let same : u ≡ user = cc (rw (validate_jwt, n, m, g) at h) in
                (claims, id, n, m, g ∙ ap ok same)
          ]
        ]
      ]

  -- Outside the development mode, `UserAuthMiddleware` lets a request pass, unchanged, only when its
  -- Authorization header carries a token that is signed by RSA with the service's key and has
  -- not expired, and as the stored user that the token's subject names.
  pub user_auth_middleware-SignedIn :
      (laws : JwtLaws jwt) (config : UserAuthConfig) (key : jwt.PrivateKey) (now : ℕ)
      (r after : HttpRequest) (s : us.State) (user : User)
      → config.dev_mode ≡ false
      → user_auth_middleware us jwt config key now r s ≡ pass (user, after)
      → SignedIn laws key now r s user × (after ≡ r)
  unfolding user_auth_middleware
  user_auth_middleware-SignedIn laws config key now r after s user prod h =
      elim (Bool-cases (r.authorization == "")) [
        | inl z ↦ absurd (cc (rw (user_auth_middleware, prod, z) at h))
        | inr z ↦ elim (Sum-cases (extract_token_from_header r.authorization)) [
          | inr (e, n) ↦ absurd (cc (rw (user_auth_middleware, prod, z, n) at h))
          | inl (token, n) ↦ elim (Sum-cases (validate_jwt us jwt key now token s)) [
            | inr (e, v) ↦ absurd (cc (rw (user_auth_middleware, prod, z, n, v) at h))
            | inl (u, v) ↦
                let end : pass (u, r) ≡ pass (user, after) =
                  rw (user_auth_middleware, prod, z, n, v) at h in
                let (claims, id, parsed, subject, stored) =
                  validate_jwt_sound key now token s u v in
                let ((m, k, own, signed), live) =
                  laws.parse_sound now (user_keyfunc us jwt key) token claims parsed in
                let same : u ≡ user = cc in
                (
                  record {
                    token = token;
                    bearer = (extract_token_from_header-IsBearer r.authorization token).0 n;
                    claims = claims;
                    signed =
                        let (method, pair) = only_own_key key m k own in
                        subst (λ p. laws.IsSigned rsa p claims token) pair
                          (subst (λ n. laws.IsSigned n k claims token) method signed);
                    live = live;
                    user_id = id;
                    subject = subject;
                    stored = stored ∙ ap ok same;
                  },
                  cc,
                )
          ]
        ]
      ]
