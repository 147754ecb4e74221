-- ===== src/Auth/Expiry.antt =====
-- The access tokens of pkg/auth/token_manager.go from their signature to their check.
use Prim.Native.String.{◌++◌, ◌∷◌}
use suse_ai_up.Prelude.{
  inl, inr, String, ℕ, ℤ, ◌*◌, ◌<◌, ◌≤◌, ◌==◌, true, false, some, if◌then◌else◌, ltb, ◌≡◌, refl,
  subst, ◌∙◌, Sum-cases, beq_of_ne, Bool-cases, Option-cases, arith, has_prefix,
  has_prefix_complete,
}
use suse_ai_up.Auth.Times.{unix, from_unix, add_hours}
use suse_ai_up.Auth.Jwt.{Jwt, JwtLaws}
use suse_ai_up.Auth.Manager.{
  TokenInfo, invalid_audience, hours_of, TokenManager, access_claims, issued, generate_bearer_token,
  adapter_audience, server_hours, create_token_for_adapter, keyfunc, validate_token, or_empty,
}

module _ (jwt : Jwt) where
  -- The signed text behind what `GenerateBearerToken` returned.
  made_by :
      (tm : TokenManager jwt) (now : ℕ) (token_id name audience : String) (h : ℤ) (info : TokenInfo)
      → generate_bearer_token jwt tm now token_id name audience h ≡ inl info
      → (signed : String) × (jwt.sign
            (access_claims jwt tm now token_id name audience h)
            tm.private_key
          ≡ some signed)
        × (issued jwt tm now token_id name audience h signed ≡ info)
  unfolding generate_bearer_token
  made_by tm now token_id name audience h info made =
      elim (Option-cases
        (jwt.sign (access_claims jwt tm now token_id name audience h) tm.private_key)) [
          | inl n ↦ absurd (cc (rw (generate_bearer_token, n) at made))
          | inr (signed, n) ↦ (signed, n, cc (rw (generate_bearer_token, n) at made))
        ]

  module _ (laws : JwtLaws jwt) where
    -- The two readings come before the last second of a token ends.
    abbrev pub InTime : (later : ℕ × ℕ) → TokenInfo → Type 0
    InTime later info =
        (later.0 < unix info.expires_at * 1000000000) × (unix later.1 ≤ unix info.expires_at)

    -- The information with its times cut to whole seconds, as the claims have them.
    abbrev pub in_seconds : TokenInfo → TokenInfo
    in_seconds info = record info {
      expires_at = unix info.expires_at * 1000000000;
      issued_at = unix info.issued_at * 1000000000;
    }

    -- What a signed text answers until it expires.
    validate_token-issued :
        (tm : TokenManager jwt) (now : ℕ) (later : ℕ × ℕ)
        (token_id name audience expected signed : String) (h : ℤ)
        → jwt.sign (access_claims jwt tm now token_id name audience h) tm.private_key ≡ some signed
        → InTime later (issued jwt tm now token_id name audience h signed)
        → validate_token jwt tm later signed expected ≡ (
            if audience == expected
            then inl (in_seconds (issued jwt tm now token_id name audience h signed))
            else inr (invalid_audience expected audience))
    unfolding validate_token keyfunc or_empty access_claims from_unix
    validate_token-issued tm now later token_id name audience expected signed h n (live, soon) =
        let claims = access_claims jwt tm now token_id name audience h in
        let parsed : jwt.parse later.0 (keyfunc jwt tm) signed ≡ some claims =
          laws.parse_sign later.0 (keyfunc jwt tm) claims tm.private_key signed n refl live in
        let fresh : ltb (unix (add_hours now (hours_of h))) (unix later.1) ≡ false = ground arith in
        elim (Bool-cases (audience == expected)) [
          | inl a ↦ rw (validate_token, parsed, fresh, a) refl
          | inr a ↦ rw (validate_token, parsed, fresh, a) refl
        ]

    -- A token that `GenerateBearerToken` made is valid for the audience it was made for and for no
    -- other, with the information it was returned with, its two times cut to whole seconds. This
    -- holds while `jwt.Parse` reads a time before the second of the expiry and the code after it a
    -- time of that second at most.
    pub validate_token-generate_bearer_token :
        (tm : TokenManager jwt) (now : ℕ) (later : ℕ × ℕ) (token_id name audience expected : String)
        (h : ℤ) (info : TokenInfo)
        → generate_bearer_token jwt tm now token_id name audience h ≡ inl info
        → InTime later info
        → validate_token jwt tm later info.access_token expected ≡ (
            if audience == expected
            then inl (in_seconds info)
            else inr (invalid_audience expected audience))
    validate_token-generate_bearer_token tm now later token_id name audience expected h info made =
        let (signed, n, same) = made_by tm now token_id name audience h info made in
        subst
          (λ i.
            InTime later i
            → validate_token jwt tm later i.access_token expected ≡ (
                if audience == expected
                then inl (in_seconds i)
                else inr (invalid_audience expected audience)))
          same (validate_token-issued tm now later token_id name audience expected signed h n)

    -- The information that `CreateTokenForAdapter` returns is that of a token for the adapter's
    -- address, but for the scope.
    abbrev described : (server score : String) → TokenInfo → TokenInfo
    described server score made = record made {
      scope = "mcp:read mcp:write server:" ++ (server ++ (" risk:" ++ score));
    }

    created_by :
        (tm : TokenManager jwt) (now : ℕ) (token_id name server score : String) (info : TokenInfo)
        → create_token_for_adapter jwt tm now token_id name server score ≡ inl info
        → (made : TokenInfo) × (generate_bearer_token jwt tm now token_id name
              (adapter_audience jwt name)
              (server_hours jwt score)
            ≡ inl made)
          × (described server score made ≡ info)
    unfolding create_token_for_adapter
    created_by tm now token_id name server score info created =
        elim (Sum-cases (
          generate_bearer_token jwt tm now token_id name (adapter_audience jwt name)
            (server_hours jwt score))) [
              | inl (made, e) ↦ (made, e, cc (rw (create_token_for_adapter, e) at created))
              | inr (f, e) ↦ absurd (cc (rw (create_token_for_adapter, e) at created))
            ]

    -- The address of a request that begins with "/", as that of a request to a server does, is no
    -- audience of `CreateTokenForAdapter`.
    path_is_no_audience : (name path : String) → (adapter_audience jwt name == ◌∷◌ "/" path) ≡ false
    unfolding adapter_audience has_prefix
    path_is_no_audience name path = beq_of_ne (adapter_audience jwt name) (◌∷◌ "/" path) (λ p.
        let wrong : has_prefix (◌∷◌ "/" path) "http://localhost:8911/api/v1/adapters/" ≡ true =
          subst (λ u. has_prefix u "http://localhost:8911/api/v1/adapters/" ≡ true) p
            (has_prefix_complete "http://localhost:8911/api/v1/adapters/" name) in
        ground arith)

    -- `ValidateToken` refuses a token of `CreateTokenForAdapter` for every address that begins with
    -- "/", although the token has not expired, by both readings of the clock.
    pub validate_token-create_token_for_adapter :
        (tm : TokenManager jwt) (now : ℕ) (later : ℕ × ℕ) (token_id name server score path : String)
        (info : TokenInfo)
        → create_token_for_adapter jwt tm now token_id name server score ≡ inl info
        → InTime later info
        → validate_token jwt tm later info.access_token (◌∷◌ "/" path)
          ≡ inr (invalid_audience (◌∷◌ "/" path) (adapter_audience jwt name))
    validate_token-create_token_for_adapter tm now later token_id name server score path info
          created =
        let (made, e, same) = created_by tm now token_id name server score info created in
        subst
          (λ i.
            InTime later i
            → validate_token jwt tm later i.access_token (◌∷◌ "/" path)
              ≡ inr (invalid_audience (◌∷◌ "/" path) (adapter_audience jwt name)))
          same
          (λ live.
            validate_token-generate_bearer_token tm now later token_id name
              (adapter_audience jwt name) (◌∷◌ "/" path) (server_hours jwt score) made e live
            ∙ rw (path_is_no_audience name path) refl)
