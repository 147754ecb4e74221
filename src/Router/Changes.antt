-- ===== src/Router/Changes.antt =====
-- What a list that changed does to later answers (pkg/mcp/message_router.go).
use suse_ai_up.Prelude.{
  ◌⊎◌, inl, inr, String, ℕ, ◌==◌, ◌≢◌, List, Option, none, some, ◌≡◌, refl, ap, sym, ◌∙◌, lookup,
  if◌then◌else◌, Option-cases, Bool-cases, eq_iff, beq_of_ne, text_len, IsMap, false,
}
use suse_ai_up.Adapters.{AdapterResource}
use suse_ai_up.Cache.{CacheEntry, McpCache, get_at, is_valid}
use suse_ai_up.Cache.Keys.{generate_cache_key, get, invalidate}
use suse_ai_up.Cache.Invalidation.{lookup-invalidate, key_len}
use suse_ai_up.Capabilities.{discover_capabilities}
use suse_ai_up.Capabilities.Reads.{get_capabilities-invalidate_cache}
use suse_ai_up.Sessions.{set_mcp_capabilities}
use suse_ai_up.Router.{Router, Times, handle_list_changed, handle_notification, route_message}
use suse_ai_up.Router.Lists.{
  Kind, tools, resources, prompts, method_of, uncached, cached, handle_list-cached,
  route_message-list,
}
use suse_ai_up.Router.Messages.{Message, create_success_response}
use suse_ai_up.Router.Requests.{Http, RouteError}

-- The notification that a list has changed.
abbrev pub notification_of : Kind → String
notification_of tools = "notifications/tools/list_changed"
notification_of resources = "notifications/resources/list_changed"
notification_of prompts = "notifications/prompts/list_changed"

module _ {D : Type 0} where
  -- `Get` answers from what stands under its key alone.
  get_at_same :
      (now duration : ℕ) (key : String) (c d : McpCache D)
      → lookup key c.cache ≡ lookup key d.cache
      → (get_at now duration key c).1 ≡ (get_at now duration key d).1
  unfolding get_at
  get_at_same now duration key c d e = elim (Option-cases (lookup key d.cache)) [
    | inl n ↦ rw (get_at, e, n) refl
    | inr (v, n) ↦ elim (Bool-cases (is_valid now v)) [
      | inl ok ↦ rw (get_at, e, n, ok) refl
      | inr ok ↦ rw (get_at, e, n, ok) refl
    ]
  ]

  get_at_missing :
      (now duration : ℕ) (key : String) (c : McpCache D)
      → lookup key c.cache ≡ none
      → (get_at now duration key c).1 ≡ none
  unfolding get_at
  get_at_missing now duration key c n = rw (get_at, n) refl

module _ (hash : String → String) {J : Type 0} (marshal : J → String) (size : CacheEntry J → ℕ)
    (listing : String → List J → J) (http : Http J) where
  -- A cache that has no key twice; so is no cache.
  abbrev pub IsMapped : Option (McpCache J) → Type 0
  IsMapped none = Unit
  IsMapped (some c) = IsMap c.cache

  -- What the notification does to the cache.
  abbrev dropped : (method : String) → AdapterResource J → Option (McpCache J) → Option (McpCache J)
  dropped method adapter none = none
  dropped method adapter (some c) = some (invalidate hash marshal size adapter.info.name method c)

  cache-handle_list_changed :
      (method : String) (t : Times) (adapter : AdapterResource J) (session_id : String)
      (s : Router J)
      → (handle_list_changed hash marshal size listing http method t adapter session_id s).cache
        ≡ dropped method adapter s.cache
  unfolding handle_list_changed
  cache-handle_list_changed method t adapter session_id s = elim (Option-cases s.cache) [
    | inl n ↦ elim (Bool-cases (session_id == "")) [
      | inl e ↦ rw (handle_list_changed, n, e) refl
      | inr e ↦ rw (handle_list_changed, n, e) refl
    ]
    | inr (c, n) ↦ elim (Bool-cases (session_id == "")) [
      | inl e ↦ rw (handle_list_changed, n, e) refl
      | inr e ↦ rw (handle_list_changed, n, e) refl
    ]
  ]

  handle_notification-list_changed :
      (k : Kind) (t : Times) (notification : Message J) (adapter : AdapterResource J)
      (session_id : String) (s : Router J)
      → notification.method ≡ notification_of k
      → handle_notification hash marshal size listing http t notification adapter session_id s
        ≡ handle_list_changed hash marshal size listing http (method_of k) t adapter session_id s
  unfolding handle_notification
  handle_notification-list_changed tools t notification adapter session_id s h =
      rw (handle_notification, h) refl
  handle_notification-list_changed resources t notification adapter session_id s h =
      rw (handle_notification, h) refl
  handle_notification-list_changed prompts t notification adapter session_id s h =
      rw (handle_notification, h) refl

  cache-handle_notification :
      (k : Kind) (t : Times) (notification : Message J) (adapter : AdapterResource J)
      (session_id : String) (s : Router J)
      → notification.method ≡ notification_of k
      → (handle_notification hash marshal size listing http t notification adapter session_id
          s).cache
        ≡ dropped (method_of k) adapter s.cache
  cache-handle_notification k t notification adapter session_id s h =
      ap (λ (r : Router J). r.cache)
        (handle_notification-list_changed k t notification adapter session_id s h)
      ∙ cache-handle_list_changed (method_of k) t adapter session_id s

  -- A list is answered as the cache and the rest decide.
  answer-route_message :
      (k : Kind) (t : Times) (message : Message J) (adapter : AdapterResource J)
      (session_id : String) (s : Router J) (found : Option J)
      → message.method ≡ method_of k
      → cached hash marshal size listing http k t message adapter s.cache ≡ found
      → (route_message hash marshal size listing http t message adapter session_id s).1
        ≡ (elim found [
          | some result ↦ inl (create_success_response message.id (some result))
          | none ↦ uncached hash marshal size listing http k message adapter session_id
        ])
  answer-route_message k t message adapter session_id s found h e =
      ap (λ (a : Router J × _). a.1)
        (route_message-list hash marshal size listing http k t message adapter session_id s h)
      ∙ handle_list-cached hash marshal size listing http k t message adapter session_id s
      ∙ ap
          (λ (o : Option J). elim o as (λ _. Message J ⊎ RouteError) [
            | some result ↦ inl (create_success_response message.id (some result))
            | none ↦ uncached hash marshal size listing http k message adapter session_id
          ])
          e

  module _ (digits : (t : String) → text_len (hash t) ≡ 64) where
    method-nonempty : (k : Kind) → (method_of k == "") ≡ false
    method-nonempty tools = refl
    method-nonempty resources = refl
    method-nonempty prompts = refl

    -- What stands under a key after the notification.
    lookup-dropped :
        (k : Kind) (adapter : AdapterResource J) (params : Option J) (c : McpCache J)
        → (adapter.info.name == "") ≡ false
        → IsMap c.cache
        → lookup
            (generate_cache_key hash marshal adapter.info.name (method_of k) params)
            (invalidate hash marshal size adapter.info.name (method_of k) c).cache
          ≡ (if generate_cache_key hash marshal adapter.info.name (method_of k) params
                == generate_cache_key hash marshal adapter.info.name (method_of k) none
              then none
              else lookup
                  (generate_cache_key hash marshal adapter.info.name (method_of k) params)
                  c.cache)
    lookup-dropped k adapter params c named m =
        lookup-invalidate hash marshal size digits adapter.info.name (method_of k)
          (generate_cache_key hash marshal adapter.info.name (method_of k) params) c
          (key_len hash marshal size digits adapter.info.name (method_of k) params) m
        ∙ rw (named, method-nonempty k) refl

    cached-dropped :
        (k : Kind) (t : Times) (message : Message J) (adapter : AdapterResource J)
        (c : Option (McpCache J))
        → (adapter.info.name == "") ≡ false
        → message.params ≡ none
        → IsMapped c
        → cached hash marshal size listing http k t message adapter
            (dropped (method_of k) adapter c)
          ≡ none
    unfolding get
    cached-dropped k t message adapter none named p m = refl
    cached-dropped k t message adapter (some c) named p m =
        let key = generate_cache_key hash marshal adapter.info.name (method_of k) none in
        rw p (
          get_at_missing t.looked t.took key _
            (lookup-dropped k adapter none c named m ∙ rw ((eq_iff key key).1 refl) refl))

    -- After a notification that a list of an adapter has changed, a request for that list without
    -- parameters is not answered from the cache, but with the discovered list, or else by the
    -- adapter's server; for an adapter with a name, digests of 64 characters, and a cache with no
    -- key twice.
    pub route_message-handle_notification :
        (k : Kind) (t later : Times) (notification message : Message J)
        (adapter : AdapterResource J) (session_id asking : String) (s : Router J)
        → notification.method ≡ notification_of k
        → message.method ≡ method_of k
        → message.params ≡ none
        → (adapter.info.name == "") ≡ false
        → IsMapped s.cache
        → (route_message hash marshal size listing http later message adapter asking (
            handle_notification hash marshal size listing http t notification adapter session_id
              s)).1
          ≡ uncached hash marshal size listing http k message adapter asking
    route_message-handle_notification k t later notification message adapter session_id asking s h i
          p named m =
        answer-route_message k later message adapter asking
          (handle_notification hash marshal size listing http t notification adapter session_id s)
          none i
          (ap (cached hash marshal size listing http k later message adapter)
              (cache-handle_notification k t notification adapter session_id s h)
            ∙ cached-dropped k later message adapter s.cache named p m)

    cached-kept :
        (k : Kind) (t : Times) (message : Message J) (adapter : AdapterResource J)
        (c : Option (McpCache J)) (params : J)
        → (adapter.info.name == "") ≡ false
        → message.params ≡ some params
        → generate_cache_key hash marshal adapter.info.name (method_of k) (some params)
          ≢ generate_cache_key hash marshal adapter.info.name (method_of k) none
        → IsMapped c
        → cached hash marshal size listing http k t message adapter
            (dropped (method_of k) adapter c)
          ≡ cached hash marshal size listing http k t message adapter c
    unfolding get
    cached-kept k t message adapter none params named p apart m = refl
    cached-kept k t message adapter (some c) params named p apart m =
        let key = generate_cache_key hash marshal adapter.info.name (method_of k) (some params) in
        rw p (
          get_at_same t.looked t.took key _ c
            (lookup-dropped k adapter (some params) c named m ∙ rw (beq_of_ne _ _ apart) refl))

    -- A request for a list with parameters, such as a cursor, is answered after the notification
    -- as it would have been answered before it, also from the cache, when the digests of its key
    -- and of the key without parameters differ.
    pub route_message-handle_notification_params :
        (k : Kind) (t later : Times) (notification message : Message J)
        (adapter : AdapterResource J) (session_id asking : String) (s : Router J) (params : J)
        → notification.method ≡ notification_of k
        → message.method ≡ method_of k
        → message.params ≡ some params
        → (adapter.info.name == "") ≡ false
        → generate_cache_key hash marshal adapter.info.name (method_of k) (some params)
          ≢ generate_cache_key hash marshal adapter.info.name (method_of k) none
        → IsMapped s.cache
        → (route_message hash marshal size listing http later message adapter asking (
            handle_notification hash marshal size listing http t notification adapter session_id
              s)).1
          ≡ (route_message hash marshal size listing http later message adapter asking s).1
    route_message-handle_notification_params k t later notification message adapter session_id
          asking s params h i p named apart m =
        answer-route_message k later message adapter asking
          (handle_notification hash marshal size listing http t notification adapter session_id s)
          (cached hash marshal size listing http k later message adapter s.cache) i
          (ap (cached hash marshal size listing http k later message adapter)
              (cache-handle_notification k t notification adapter session_id s h)
            ∙ cached-kept k later message adapter s.cache params named p apart m)
        ∙ sym (answer-route_message k later message adapter asking s _ i refl)

  -- A session that is named in the notification gets the capabilities that are discovered now.
  pub session-handle_notification :
      (k : Kind) (t : Times) (notification : Message J) (adapter : AdapterResource J)
      (session_id : String) (s : Router J)
      → notification.method ≡ notification_of k
      → (session_id == "") ≡ false
      → (handle_notification hash marshal size listing http t notification adapter session_id
          s).session_store
        ≡ (set_mcp_capabilities session_id (some (discover_capabilities adapter)) s.session_store).0
  unfolding handle_list_changed
  session-handle_notification k t notification adapter session_id s h named =
      ap (λ (r : Router J). r.session_store)
        (handle_notification-list_changed k t notification adapter session_id s h)
      ∙ rw
          (
            handle_list_changed,
            named,
            get_capabilities-invalidate_cache t.looked t.stored adapter s.capability_cache,
          )
          refl
