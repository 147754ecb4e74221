-- ===== src/Router.antt =====
-- `MessageRouter` of pkg/mcp/message_router.go, on the response cache, the capability cache and the
-- session store. The HTTP client, the JSON encoding and the header functions of net/http are
-- parameters; what the monitor counts and logs is left out.
pub mod Messages
pub mod Requests
pub mod Changes
pub mod Lists
pub mod Secured
use suse_ai_up.Prelude.{
  ◌⊎◌, inl, inr, String, ℕ, ◌==◌, List, [], ◌∷◌, Option, none, some, if◌then◌else◌, Map,
}
use suse_ai_up.Adapters.{AdapterResource, McpFunctionality}
use suse_ai_up.Cache.{CacheEntry, McpCache}
use suse_ai_up.Cache.Keys.{get, set, invalidate}
use suse_ai_up.Capabilities.{Features, CachedCapabilities, get_capabilities, invalidate_cache}
use suse_ai_up.Sessions.{Store, set_mcp_capabilities}
use suse_ai_up.Router.Messages.{Message, create_success_response}
use suse_ai_up.Router.Requests.{Http, RouteError, proxy_to_target}

-- What the router's pointers lead to; `cache` is none where it is nil.
pub record Router (J : Type 0) : Type 0 where
  pub cache : Option (McpCache J)
  pub capability_cache : Map (CachedCapabilities J)
  pub session_store : Store Features

-- The clock when the cache is read, how long that took, and the clock when the cache is written.
pub record Times : Type 0 where
  pub looked : ℕ
  pub took : ℕ
  pub stored : ℕ

abbrev pub Answer : Type 0 → Type 0
Answer J = Router J × (Message J ⊎ RouteError)

-- What `MCPFunctionality` has for a list; nothing where it is nil.
unfoldable pub discovered :
    {J : Type 0} → (McpFunctionality J → List J) → AdapterResource J → List J
discovered items adapter = elim adapter.info.mcp_functionality [ none ↦ [] | some f ↦ items f ]

-- The digest and the JSON of the cache, the size of an entry, and the JSON object with one list.
module _ (hash : String → String) {J : Type 0} (marshal : J → String) (size : CacheEntry J → ℕ)
    (listing : String → List J → J) (http : Http J) where
  -- `if mr.cache != nil { mr.cache.Set(adapter.Name, method, message.Params, result) }`
  unfoldable pub remember :
      (now : ℕ) (adapter_name method : String) → Option J → J → Router J → Router J
  remember now adapter_name method params result s = elim s.cache [
    | none ↦ s
    | some c ↦ record s {
      cache = some (set hash marshal size now adapter_name method "" params (some result) c);
    }
  ]

  -- The part of a list handler after the cache.
  unfoldable pub fresh_list :
      (name method : String)
      → (McpFunctionality J → List J)
      → Times
      → Message J
      → AdapterResource J
      → (session_id : String) → Router J
      → Answer J
  fresh_list name method items t message adapter session_id s = elim (discovered items adapter) [
    | x ∷ xs ↦
        let result = listing name (x ∷ xs) in
        (
          remember t.stored adapter.info.name method message.params result s,
          inl (create_success_response message.id (some result)),
        )
    | [] ↦ elim (proxy_to_target http message adapter session_id) [
      | inr e ↦ (s, inr e)
      | inl response ↦ elim response.result [
        | none ↦ (s, inl response)
        | some result ↦
            (remember t.stored adapter.info.name method message.params result s, inl response)
      ]
    ]
  ]

  -- A list handler: the cache first, where there is one.
  unfoldable pub handle_list :
      (name method : String)
      → (McpFunctionality J → List J)
      → Times
      → Message J
      → AdapterResource J
      → (session_id : String) → Router J
      → Answer J
  handle_list name method items t message adapter session_id s = elim s.cache [
    | none ↦ fresh_list name method items t message adapter session_id s
    | some c ↦
        let (after, cached) =
          get hash marshal size t.looked t.took adapter.info.name method message.params c in
        let s' = record s { cache = some after } in
        elim cached [
          | some result ↦ (s', inl (create_success_response message.id (some result)))
          | none ↦ fresh_list name method items t message adapter session_id s'
        ]
  ]

  unfoldable pub handle_tools_list :
      Times → Message J → AdapterResource J → (session_id : String) → Router J → Answer J
  handle_tools_list t = handle_list "tools" "tools/list" (λ f. f.tools) t

  unfoldable pub handle_resources_list :
      Times → Message J → AdapterResource J → (session_id : String) → Router J → Answer J
  handle_resources_list t = handle_list "resources" "resources/list" (λ f. f.resources) t

  unfoldable pub handle_prompts_list :
      Times → Message J → AdapterResource J → (session_id : String) → Router J → Answer J
  handle_prompts_list t = handle_list "prompts" "prompts/list" (λ f. f.prompts) t

  -- What the default of the switch does, and the handlers below.
  unfoldable pub handle_by_proxy :
      Message J → AdapterResource J → (session_id : String) → Router J → Answer J
  handle_by_proxy message adapter session_id s =
      (s, proxy_to_target http message adapter session_id)

  unfoldable pub handle_tools_call :
      Message J → AdapterResource J → (session_id : String) → Router J → Answer J
  handle_tools_call = handle_by_proxy

  unfoldable pub handle_resources_read :
      Message J → AdapterResource J → (session_id : String) → Router J → Answer J
  handle_resources_read = handle_by_proxy

  unfoldable pub handle_resources_subscribe :
      Message J → AdapterResource J → (session_id : String) → Router J → Answer J
  handle_resources_subscribe = handle_by_proxy

  unfoldable pub handle_prompts_get :
      Message J → AdapterResource J → (session_id : String) → Router J → Answer J
  handle_prompts_get = handle_by_proxy

  unfoldable pub handle_completion_complete :
      Message J → AdapterResource J → (session_id : String) → Router J → Answer J
  handle_completion_complete = handle_by_proxy

  unfoldable pub route_message :
      Times → Message J → AdapterResource J → (session_id : String) → Router J → Answer J
  route_message t message adapter session_id s =
      if message.method == "tools/list"
      then handle_tools_list t message adapter session_id s
      else if message.method == "tools/call"
      then handle_tools_call message adapter session_id s
      else if message.method == "resources/list"
      then handle_resources_list t message adapter session_id s
      else if message.method == "resources/read"
      then handle_resources_read message adapter session_id s
      else if message.method == "resources/subscribe"
      then handle_resources_subscribe message adapter session_id s
      else if message.method == "prompts/list"
      then handle_prompts_list t message adapter session_id s
      else if message.method == "prompts/get"
      then handle_prompts_get message adapter session_id s
      else if message.method == "completion/complete"
      then handle_completion_complete message adapter session_id s
      else handle_by_proxy message adapter session_id s

  -- The three `list_changed` handlers, up to the method whose answers they drop.
  unfoldable pub handle_list_changed :
      (method : String) → Times → AdapterResource J → (session_id : String) → Router J → Router J
  handle_list_changed method t adapter session_id s =
      let dropped = invalidate_cache adapter s.capability_cache in
      let cache : Option (McpCache J) = elim s.cache [
        | none ↦ none
        | some c ↦ some (invalidate hash marshal size adapter.info.name method c)
      ] in
      if session_id == ""
      then record s { cache = cache; capability_cache = dropped }
      else let (filled, fresh) = get_capabilities t.looked t.stored adapter dropped in
        record {
          cache = cache;
          capability_cache = filled;
          session_store = (set_mcp_capabilities session_id (some fresh) s.session_store).0;
        }

  -- `HandleNotification`; the handlers that only log change nothing, and the error is always nil.
  unfoldable pub handle_notification :
      Times → Message J → AdapterResource J → (session_id : String) → Router J → Router J
  handle_notification t notification adapter session_id s =
      if notification.method == "notifications/tools/list_changed"
      then handle_list_changed "tools/list" t adapter session_id s
      else if notification.method == "notifications/resources/list_changed"
      then handle_list_changed "resources/list" t adapter session_id s
      else if notification.method == "notifications/prompts/list_changed"
      then handle_list_changed "prompts/list" t adapter session_id s
      else s

-- A cursor among the parameters: a text, a number that `FormatFloat` or `Itoa` prints, or another
-- JSON value.
pub data Cursor : Type 0 where
  text printed : String → Cursor
  other : Cursor

-- `ParseCursor`, on the value of "cursor" where there is one; none is the error.
unfoldable pub parse_cursor : Option Cursor → Option String
parse_cursor none = some ""
parse_cursor (some (text s)) = some s
parse_cursor (some (printed s)) = some s
parse_cursor (some other) = none
