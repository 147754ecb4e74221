-- ===== src/Router/Secured.antt =====
-- The credentials of a request that the router sends (pkg/mcp/message_router.go).
use Prim.Native.String.{◌++◌}
use suse_ai_up.Prelude.{
  inl, inr, String, ◌==◌, ◌≢◌, true, some, ◌≡◌, refl, ap, sym, ◌∙◌, lookup, lookup-insert, insert,
  if◌then◌else◌, Option-cases, Bool-cases, Sum-cases, eq_iff, ne_of_beq, beq_of_ne, subst,
}
use suse_ai_up.Adapters.{
  AdapterResource, AdapterAuthConfig, BearerTokenConfig, BasicAuthConfig, ApiKeyConfig,
}
use suse_ai_up.Router.Messages.{Message}
use suse_ai_up.Router.Requests.{
  Outgoing, Http, set_header, apply_bearer_auth, apply_basic_auth, apply_api_key_auth, apply_type,
  apply_authentication, build_target_url, plain_request, prepare,
}

module _ {J : Type 0} (http : Http J) where
  -- One header is set, under its canonical name, and nothing else changes.
  pub record Sets (key value : String) (before after : Outgoing) : Type 0 where
    pub sent : lookup key after.headers ≡ some value
    pub others : (k : String) → k ≢ key → lookup k after.headers ≡ lookup k before.headers
    pub url : after.url ≡ before.url
    pub body : after.body ≡ before.body

  -- The request carries the credentials of the configuration, where the configuration says.
  pub data Carries (auth : AdapterAuthConfig) (before after : Outgoing) : Type 0 where
    bearer_sent :
        (bearer : BearerTokenConfig)
        → auth.auth_type ≡ "bearer"
        → auth.bearer_token ≡ some bearer
        → bearer.token ≢ ""
        → Sets (http.canonical "Authorization") ("Bearer " ++ bearer.token) before after
        → Carries auth before after
    basic_sent :
        (basic : BasicAuthConfig)
        → auth.auth_type ≡ "basic"
        → auth.basic ≡ some basic
        → Sets
            (http.canonical "Authorization")
            (http.basic basic.username basic.password)
            before
            after
        → Carries auth before after
    key_in_header :
        (api : ApiKeyConfig)
        → auth.auth_type ≡ "apikey"
        → auth.api_key ≡ some api
        → api.location ≡ "header"
        → Sets (http.canonical api.name) api.key before after
        → Carries auth before after
    key_in_query :
        (api : ApiKeyConfig)
        → auth.auth_type ≡ "apikey"
        → auth.api_key ≡ some api
        → api.location ≡ "query"
        → after.url ≡ http.with_query before.url api.name api.key
        → (after.headers ≡ before.headers) × (after.body ≡ before.body)
        → Carries auth before after
    key_in_cookie :
        (api : ApiKeyConfig)
        → auth.auth_type ≡ "apikey"
        → auth.api_key ≡ some api
        → api.location ≡ "cookie"
        → Sets "Cookie" (http.with_cookie api.name api.key before.headers) before after
        → Carries auth before after

  insert-Sets :
      (key value : String) (r : Outgoing)
      → Sets key value r (record r { headers = insert key value r.headers })
  insert-Sets key value r = record {
    sent = lookup-insert key key value r.headers ∙ rw ((eq_iff key key).1 refl) refl;
    others =
        λ k n. lookup-insert key k value r.headers ∙ rw (beq_of_ne key k (λ p. n (sym p))) refl;
    url = refl;
    body = refl;
  }

  bearer_sound :
      (auth : AdapterAuthConfig) (r after : Outgoing)
      → auth.auth_type ≡ "bearer"
      → apply_bearer_auth http auth r ≡ inl after
      → Carries auth r after
  unfolding apply_bearer_auth
  bearer_sound auth r after kind h = elim (Option-cases auth.bearer_token) [
    | inl n ↦ absurd (cc (rw (apply_bearer_auth, n) at h))
    | inr (bearer, n) ↦ elim (Bool-cases (bearer.token == "")) [
      | inl e ↦ absurd (cc (rw (apply_bearer_auth, n, e) at h))
      | inr e ↦
          let same : set_header http "Authorization" ("Bearer " ++ bearer.token) r ≡ after =
            cc (rw (apply_bearer_auth, n, e) at h) in
          bearer_sent bearer kind n (ne_of_beq bearer.token "" e) (
            subst (Sets (http.canonical "Authorization") ("Bearer " ++ bearer.token) r) same
              (insert-Sets _ _ r))
    ]
  ]

  basic_sound :
      (auth : AdapterAuthConfig) (r after : Outgoing)
      → auth.auth_type ≡ "basic"
      → apply_basic_auth http auth r ≡ inl after
      → Carries auth r after
  unfolding apply_basic_auth
  basic_sound auth r after kind h = elim (Option-cases auth.basic) [
    | inl n ↦ absurd (cc (rw (apply_basic_auth, n) at h))
    | inr (basic, n) ↦
        let same : set_header http "Authorization" (http.basic basic.username basic.password) r
            ≡ after =
          cc (rw (apply_basic_auth, n) at h) in
        basic_sent basic kind n (
          subst (Sets (http.canonical "Authorization") (http.basic basic.username basic.password) r)
            same (insert-Sets _ _ r))
  ]

  api_key_sound :
      (auth : AdapterAuthConfig) (r after : Outgoing)
      → auth.auth_type ≡ "apikey"
      → apply_api_key_auth http auth r ≡ inl after
      → Carries auth r after
  unfolding apply_api_key_auth
  api_key_sound auth r after kind h = elim (Option-cases auth.api_key) [
    | inl n ↦ absurd (cc (rw (apply_api_key_auth, n) at h))
    | inr (api, n) ↦ elim (Bool-cases (api.location == "header")) [
      | inl e ↦
          let same : set_header http api.name api.key r ≡ after =
            cc (rw (apply_api_key_auth, n, e) at h) in
          key_in_header api kind n ((eq_iff _ _).0 e)
            (subst (Sets (http.canonical api.name) api.key r) same (insert-Sets _ _ r))
      | inr e ↦ elim (Bool-cases (api.location == "query")) [
        | inl q ↦
            let same : record r { url = http.with_query r.url api.name api.key } ≡ after =
              cc (rw (apply_api_key_auth, n, e, q) at h) in
            key_in_query api kind n ((eq_iff _ _).0 q) (ap (λ (o : Outgoing). o.url) (sym same)) (
              ap (λ (o : Outgoing). o.headers) (sym same),
              ap (λ (o : Outgoing). o.body) (sym same),
            )
        | inr q ↦ elim (Bool-cases (api.location == "cookie")) [
          | inr k ↦ absurd (cc (rw (apply_api_key_auth, n, e, q, k) at h))
          | inl k ↦
              let cookie = http.with_cookie api.name api.key r.headers in
              let same : record r { headers = insert "Cookie" cookie r.headers } ≡ after =
                cc (rw (apply_api_key_auth, n, e, q, k) at h) in
              key_in_cookie api kind n ((eq_iff _ _).0 k)
                (subst (Sets "Cookie" cookie r) same (insert-Sets _ _ r))
        ]
      ]
    ]
  ]

  apply_type_sound :
      (auth : AdapterAuthConfig) (r after : Outgoing)
      → apply_type http auth r ≡ inl after
      → Carries auth r after
  unfolding apply_type
  apply_type_sound auth r after h = elim (Bool-cases (auth.auth_type == "bearer")) [
    | inl b ↦ bearer_sound auth r after ((eq_iff _ _).0 b) (rw (apply_type, b) at h)
    | inr b ↦ elim (Bool-cases (auth.auth_type == "oauth")) [
      | inl o ↦ absurd (cc (rw (apply_type, b, o) at h))
      | inr o ↦ elim (Bool-cases (auth.auth_type == "basic")) [
        | inl s ↦ basic_sound auth r after ((eq_iff _ _).0 s) (rw (apply_type, b, o, s) at h)
        | inr s ↦ elim (Bool-cases (auth.auth_type == "apikey")) [
          | inl k ↦ api_key_sound auth r after ((eq_iff _ _).0 k) (rw (apply_type, b, o, s, k) at h)
          | inr k ↦ absurd (cc (rw (apply_type, b, o, s, k) at h))
        ]
      ]
    ]
  ]

  apply_authentication_sound :
      (adapter : AdapterResource J) (auth : AdapterAuthConfig) (r after : Outgoing)
      → adapter.info.authentication ≡ some auth
      → auth.required ≡ true
      → apply_authentication http adapter r ≡ inl after
      → Carries auth r after
  unfolding apply_authentication
  apply_authentication_sound adapter auth r after configured required h =
      let switch : (if auth.required then apply_type http auth r else inl r) ≡ inl after =
        rw configured at h in
      apply_type_sound auth r after
        (sym (ap (λ b. if b then apply_type http auth r else inl r) required) ∙ switch)

  -- A request that `proxyToTarget` sends for an adapter that requires authentication is the request
  -- with the address, the body and the fixed headers, changed only by the credentials of the
  -- adapter's configuration: for "bearer" the Authorization header has the configured token,
  -- which is not empty; for "basic" it has the configured name and password; for "apikey" the
  -- configured key is, by the configured location, in the header of the configured name, in the
  -- query of the address, or in the Cookie header. For any other type, "oauth" included, and any
  -- other location there is no such request.
  pub prepare-Carries :
      (message : Message J) (adapter : AdapterResource J) (session_id : String)
      (auth : AdapterAuthConfig) (request : Outgoing)
      → adapter.info.authentication ≡ some auth
      → auth.required ≡ true
      → prepare http message adapter session_id ≡ inl request
      → (url : String) × (body : String) × (build_target_url http adapter ≡ inl url)
        × (http.marshal message ≡ some body)
        × Carries auth (plain_request http url body session_id) request
  unfolding prepare
  prepare-Carries message adapter session_id auth request configured required h =
      elim (Sum-cases (build_target_url http adapter)) [
        | inr (e, u) ↦ absurd (cc (rw (prepare, u) at h))
        | inl (url, u) ↦ elim (Option-cases (http.marshal message)) [
          | inl n ↦ absurd (cc (rw (prepare, u, n) at h))
          | inr (body, n) ↦ elim (Bool-cases (http.accepts url)) [
            | inr a ↦ absurd (cc (rw (prepare, u, n, a) at h))
            | inl a ↦ (
              url,
              body,
              u,
              n,
              apply_authentication_sound adapter auth (plain_request http url body session_id)
                  request configured required (rw (prepare, u, n, a) at h),
            )
          ]
        ]
      ]
