-- ===== src/Router/Lists.antt =====
-- Which answers of `RouteMessage` (pkg/mcp/message_router.go) come from the cache, and which calls
-- write to it.
use suse_ai_up.Prelude.{
  ◌⊎◌, inl, inr, String, ℕ, ◌≢◌, List, [], ◌∷◌, Option, none, some, ◌≡◌, refl, Option-cases,
  Sum-cases, List-cases, beq_of_ne, arith,
}
use suse_ai_up.Adapters.{AdapterResource, McpFunctionality}
use suse_ai_up.Cache.{CacheEntry, McpCache}
use suse_ai_up.Cache.Keys.{get}
use suse_ai_up.Router.{
  Router, Times, discovered, fresh_list, handle_list, handle_tools_list, handle_resources_list,
  handle_prompts_list, handle_by_proxy, handle_tools_call, handle_resources_read,
  handle_resources_subscribe, handle_prompts_get, handle_completion_complete, route_message,
}
use suse_ai_up.Router.Messages.{Message, create_success_response}
use suse_ai_up.Router.Requests.{Http, RouteError, proxy_to_target}

-- The three lists.
pub data Kind : Type 0 where
  tools resources prompts : Kind

abbrev pub name_of : Kind → String
name_of tools = "tools"
name_of resources = "resources"
name_of prompts = "prompts"

abbrev pub method_of : Kind → String
method_of tools = "tools/list"
method_of resources = "resources/list"
method_of prompts = "prompts/list"

abbrev pub items_of : {J : Type 0} → Kind → McpFunctionality J → List J
items_of tools f = f.tools
items_of resources f = f.resources
items_of prompts f = f.prompts

-- A result that is kept or not leaves the answer.
either_way :
    {A B C : Type 0} (r : Option A) (kept : B) (keep_it : A → B) (x : C)
    → (elim r as (λ _. B × C) [ none ↦ (kept, x) | some v ↦ (keep_it v, x) ]).1 ≡ x
either_way none kept keep_it x = refl
either_way (some v) kept keep_it x = refl

module _ (hash : String → String) {J : Type 0} (marshal : J → String) (size : CacheEntry J → ℕ)
    (listing : String → List J → J) (http : Http J) where
  -- A list that does not come from the cache.
  abbrev pub uncached :
      Kind → Message J → AdapterResource J → (session_id : String) → Message J ⊎ RouteError
  uncached k message adapter session_id = elim (discovered (items_of k) adapter) [
    | x ∷ xs ↦ inl (create_success_response message.id (some (listing (name_of k) (x ∷ xs))))
    | [] ↦ proxy_to_target http message adapter session_id
  ]

  -- What the cache has for a request; nothing where there is no cache.
  abbrev pub cached : Kind → Times → Message J → AdapterResource J → Option (McpCache J) → Option J
  cached k t message adapter none = none
  cached k t message adapter (some c) =
      (get hash marshal size t.looked t.took adapter.info.name (method_of k) message.params c).1

  fresh_list-uncached :
      (k : Kind) (t : Times) (message : Message J) (adapter : AdapterResource J)
      (session_id : String) (s : Router J)
      → (fresh_list hash marshal size listing http
          (name_of k)
          (method_of k)
          (items_of k)
          t
          message
          adapter
          session_id
          s).1
        ≡ uncached k message adapter session_id
  unfolding fresh_list
  fresh_list-uncached k t message adapter session_id s =
      elim (List-cases (discovered (items_of k) adapter)) [
        | inr (x, xs, e) ↦ rw (fresh_list, uncached, e) refl
        | inl e ↦ elim (Sum-cases (proxy_to_target http message adapter session_id)) [
          | inr (f, p) ↦ rw (fresh_list, uncached, e, p) refl
          | inl (response, p) ↦ rw (fresh_list, uncached, e, p) (either_way response.result _ _ _)
        ]
      ]

  pub handle_list-cached :
      (k : Kind) (t : Times) (message : Message J) (adapter : AdapterResource J)
      (session_id : String) (s : Router J)
      → (handle_list hash marshal size listing http
          (name_of k)
          (method_of k)
          (items_of k)
          t
          message
          adapter
          session_id
          s).1
        ≡ (elim (cached k t message adapter s.cache) [
          | some result ↦ inl (create_success_response message.id (some result))
          | none ↦ uncached k message adapter session_id
        ])
  unfolding handle_list
  handle_list-cached k t message adapter session_id s = elim (Option-cases s.cache) [
    | inl n ↦ rw (handle_list, n) (fresh_list-uncached k t message adapter session_id s)
    | inr (c, n) ↦ elim (Option-cases (cached k t message adapter (some c))) [
      | inr (result, m) ↦ rw (handle_list, n, m) refl
      | inl m ↦ rw (handle_list, n, m) (fresh_list-uncached k t message adapter session_id _)
    ]
  ]

  pub route_message-list :
      (k : Kind) (t : Times) (message : Message J) (adapter : AdapterResource J)
      (session_id : String) (s : Router J)
      → message.method ≡ method_of k
      → route_message hash marshal size listing http t message adapter session_id s
        ≡ handle_list hash marshal size listing http
            (name_of k)
            (method_of k)
            (items_of k)
            t
            message
            adapter
            session_id
            s
  unfolding route_message handle_tools_list handle_resources_list handle_prompts_list
  route_message-list tools t message adapter session_id s h = rw (route_message, h) refl
  route_message-list resources t message adapter session_id s h = rw (route_message, h) refl
  route_message-list prompts t message adapter session_id s h = rw (route_message, h) refl

  -- A message whose method is none of the three lists is sent to the adapter's server, and the
  -- router's caches and sessions stay as they are.
  pub route_message-proxy_to_target :
      (t : Times) (message : Message J) (adapter : AdapterResource J) (session_id : String)
      (s : Router J)
      → ((k : Kind) → message.method ≢ method_of k)
      → route_message hash marshal size listing http t message adapter session_id s
        ≡ (s, proxy_to_target http message adapter session_id)
  unfolding route_message handle_by_proxy handle_tools_call handle_resources_read
      handle_resources_subscribe handle_prompts_get handle_completion_complete
  route_message-proxy_to_target t message adapter session_id s other = ground (
    arith,
    beq_of_ne message.method "tools/list" (other tools),
    beq_of_ne message.method "resources/list" (other resources),
    beq_of_ne message.method "prompts/list" (other prompts),
  )
