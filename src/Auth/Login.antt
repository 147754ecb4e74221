-- ===== src/Auth/Login.antt =====
-- A login and the requests after it, and the development mode
-- (pkg/auth/user_middleware.go).
use Prim.Native.Nat.{◌/◌}
use Prim.Native.String.{◌++◌, ◌∷◌}
use text.Mathlib.TextLemmas.{nil-append, cons-append, append_assoc}
use suse_ai_up.Prelude.{
  ◌⊎◌, inl, inr, String, ℕ, ◌+◌, ◌*◌, ◌<◌, arith, ◌==◌, true, false, some, ◌≡◌, refl, ap, ◌∙◌,
  Bool-cases, Option-cases, lower_is, eq_iff, ne_of_beq, ◌≢◌,
}
use suse_ai_up.Users.{User, Error, ok, err, Result-cases}
use suse_ai_up.Users.Api.{UserStore, GroupStore}
use suse_ai_up.Access.{can_manage_users}
use suse_ai_up.Auth.{extract_token_from_header}
use suse_ai_up.Auth.Headers.{extract_token_from_header-IsBearer, header_nonempty}
use suse_ai_up.Auth.Times.{unix, add_hours}
use suse_ai_up.Auth.Jwt.{Jwt, JwtLaws}
use suse_ai_up.Auth.Users.{
  UserAuthConfig, AuthToken, user_claims, auth_token, generate_jwt, user_keyfunc, validate_jwt,
}
use suse_ai_up.Auth.Middleware.{
  HttpRequest, pass, dev_admin, as_dev_admin, is_dev_origin, anonymous_dev, dev_mode_user,
  user_auth_middleware,
}

bearer_header : (token : String) → ("Bearer " ++ token) ≡ "Bearer" ++ ◌∷◌ " " token
bearer_header token =
    append_assoc "Bearer" " " token
    ∙ ap (λ x. "Bearer" ++ x) (cons-append " " "" token ∙ ap (◌∷◌ " ") (nil-append token))

module _ (us : UserStore) (jwt : Jwt) where
  signed_by :
      (key : jwt.PrivateKey) (issued expiring returned : ℕ) (user : User) (t : AuthToken)
      → generate_jwt us jwt key issued expiring returned user ≡ some t
      → jwt.sign (user_claims us jwt issued expiring user) key ≡ some t.token
  unfolding generate_jwt
  signed_by key issued expiring returned user t h =
      elim (Option-cases (jwt.sign (user_claims us jwt issued expiring user) key)) [
        | inl n ↦ absurd (cc (rw (generate_jwt, n) at h))
        | inr (signed, n) ↦
            let same : auth_token us jwt returned user signed ≡ t =
              cc (rw (generate_jwt, n) at h) in
            n ∙ ap (λ (made : AuthToken). some made.token) same
      ]

  -- With the header "Bearer " and a token that `GenerateJWT` made for a user, a request passes
  -- `UserAuthMiddleware` outside the development mode, as the user that the store then has under
  -- that user's ID, until the second begins that is 24 hours after the second in which
  -- `GenerateJWT` read the clock for the claim `exp`.
  pub user_auth_middleware-generate_jwt :
      (laws : JwtLaws jwt) (config : UserAuthConfig) (key : jwt.PrivateKey)
      (issued expiring returned now : ℕ) (r : HttpRequest) (s : us.State) (user stored : User)
      (t : AuthToken)
      → config.dev_mode ≡ false
      → generate_jwt us jwt key issued expiring returned user ≡ some t
      → now < (expiring / 1000000000 + 86400) * 1000000000
      → us.get user.id s ≡ ok stored
      → r.authorization ≡ "Bearer " ++ t.token
      → user_auth_middleware us jwt config key now r s ≡ pass (stored, r)
  unfolding user_auth_middleware validate_jwt user_claims user_keyfunc lower_is unix add_hours
  user_auth_middleware-generate_jwt laws config key issued expiring returned now r s user stored t
        prod h live found header =
      let claims = user_claims us jwt issued expiring user in
      let signed = signed_by key issued expiring returned user t h in
      let (trimmed, full) = laws.sign_text claims key t.token signed in
      let token : extract_token_from_header r.authorization ≡ inl t.token =
        (extract_token_from_header-IsBearer r.authorization t.token).1 (record {
          scheme = "Bearer";
          rest = t.token;
          cut = header ∙ bearer_header t.token;
          plain = (refl, (refl, (refl, (refl, (refl, (refl, tt))))));
          bearer = refl;
          trimmed = trimmed;
          full = full;
        }) in
      let alive : now < (expiring + 86400000000000) / 1000000000 * 1000000000 = omega arith in
      let parsed =
        laws.parse_sign now (user_keyfunc us jwt key) claims key t.token signed refl alive in
      let nonempty : (r.authorization == "") ≡ false =
        header_nonempty r.authorization t.token token in
      rw (user_auth_middleware, prod, nonempty, token, validate_jwt, parsed, found) refl

  -- In the development mode every request passes. One whose X-User-ID is not empty and names a
  -- stored user passes unchanged, as that user. One without it, or whose X-User-ID the store
  -- answers with an error, passes as "dev-admin", with that ID written to X-User-ID, which may
  -- manage users.
  pub user_auth_middleware_dev :
      (gs : GroupStore) (g : gs.State) (config : UserAuthConfig) (key : jwt.PrivateKey) (now : ℕ)
      (r : HttpRequest) (s : us.State)
      → config.dev_mode ≡ true
      → ((r.user_id ≢ "")
          × (user : User) × (us.get r.user_id s ≡ ok user)
          × (user_auth_middleware us jwt config key now r s ≡ pass (user, r)))
        ⊎ (((r.user_id ≡ "") ⊎ ((e : Error) × (us.get r.user_id s ≡ err e)))
            × (user_auth_middleware us jwt config key now r s
                ≡ pass (dev_admin, record r { user_id = "dev-admin" }))
            × (can_manage_users us gs s g "dev-admin" ≡ ok true))
  unfolding user_auth_middleware dev_mode_user anonymous_dev can_manage_users
  user_auth_middleware_dev gs g config key now r s dev =
      let admin : anonymous_dev us jwt r ≡ as_dev_admin r =
        elim (Bool-cases (is_dev_origin r.origin)) [
          | inl o ↦ rw (anonymous_dev, o) refl
          | inr o ↦ rw (anonymous_dev, o) refl
        ] in
      elim (Bool-cases (r.user_id == "")) [
        | inl z ↦ inr (
          inl ((eq_iff r.user_id "").0 z),
          rw (user_auth_middleware, dev, dev_mode_user, z) admin,
          refl,
        )
        | inr z ↦ elim (Result-cases (us.get r.user_id s)) [
          | inl (user, e) ↦ inl (
            ne_of_beq r.user_id "" z,
            user,
            e,
            rw (user_auth_middleware, dev, dev_mode_user, z, e) refl,
          )
          | inr (f, e) ↦
              inr (inr (f, e), rw (user_auth_middleware, dev, dev_mode_user, z, e) admin, refl)
        ]
      ]
