-- ===== src/Router/Requests.antt =====
-- The request that `proxyToTarget` of pkg/mcp/message_router.go sends: its address, its headers
-- and its credentials.
use Prim.Native.String.{◌++◌}
use suse_ai_up.Prelude.{
  ◌⊎◌, inl, inr, String, ℕ, Bool, not, ◌==◌, ◌||◌, [], Option, none, some, if◌then◌else◌, nat_eq,
  Map, insert,
}
use suse_ai_up.Adapters.{AdapterResource, AdapterAuthConfig}
use suse_ai_up.Router.Messages.{Message}

-- A request before it is sent.
pub record Outgoing : Type 0 where
  pub url : String
  pub headers : Map String
  pub body : String

-- What the code uses of net/http, net/url, encoding/json and fmt.
pub record Http (J : Type 0) : Type 0 where
  -- `json.Marshal(message)`, and `Decode` of a body
  pub marshal : Message J → Option String
  pub decode : String → Option (Message J)
  -- whether `http.NewRequestWithContext` accepts the address
  pub accepts : String → Bool
  -- the name under which `Header.Set` stores
  pub canonical : String → String
  -- the value that `SetBasicAuth` writes
  pub basic : (username password : String) → String
  -- the address after `query.Set(name, key)` and `query.Encode()`
  pub with_query : (url name key : String) → String
  -- the Cookie header after `AddCookie`
  pub with_cookie : (name key : String) → Map String → String
  -- `httpClient.Do`: the status and the body, none for an error
  pub send : Outgoing → Option (ℕ × String)
  -- `%d`
  pub print : ℕ → String

pub data RouteError : Type 0 where
  no_remote_url local_stdio : RouteError
  unsupported_connection : String → RouteError
  no_marshal no_request : RouteError
  no_bearer_token no_oauth no_basic no_api_key : RouteError
  unsupported_auth unsupported_location : String → RouteError
  not_sent not_decoded : RouteError
  bad_status : ℕ → RouteError

module _ {J : Type 0} (http : Http J) where
  unfoldable pub sidecar_port : ℕ → ℕ
  sidecar_port port = if nat_eq port 0 then 8000 else port

  -- The address of an adapter that runs in the cluster.
  unfoldable pub cluster_url : AdapterResource J → String
  cluster_url adapter =
      if not (adapter.info.remote_url == "")
      then adapter.info.remote_url
      else elim adapter.info.sidecar_config [
        | some sidecar ↦
            "http://mcp-sidecar-"
            ++ (adapter.id
                ++ (".suse-ai-up-mcp.svc.cluster.local:"
                    ++ (http.print (sidecar_port sidecar.port) ++ "/mcp")))
        | none ↦ "http://" ++ (adapter.info.name ++ "-service.adapter.svc.cluster.local:8000/mcp")
      ]

  unfoldable pub build_target_url : AdapterResource J → String ⊎ RouteError
  build_target_url adapter =
      let kind = adapter.info.connection_type in
      if kind == "RemoteHttp"
      then if adapter.info.remote_url == "" then inr no_remote_url else inl adapter.info.remote_url
      else if (kind == "StreamableHttp") || (kind == "SSE")
      then inl (cluster_url adapter)
      else if kind == "LocalStdio"
      then inr local_stdio
      else inr (unsupported_connection kind)

  abbrev pub set_header : (name value : String) → Outgoing → Outgoing
  set_header name value r = record r { headers = insert (http.canonical name) value r.headers }

  unfoldable pub apply_bearer_auth : AdapterAuthConfig → Outgoing → Outgoing ⊎ RouteError
  apply_bearer_auth auth r = elim auth.bearer_token [
    | none ↦ inr no_bearer_token
    | some bearer ↦
        if bearer.token == ""
        then inr no_bearer_token
        else inl (set_header "Authorization" ("Bearer " ++ bearer.token) r)
  ]

  unfoldable pub apply_basic_auth : AdapterAuthConfig → Outgoing → Outgoing ⊎ RouteError
  apply_basic_auth auth r = elim auth.basic [
    | none ↦ inr no_basic
    | some basic ↦ inl (set_header "Authorization" (http.basic basic.username basic.password) r)
  ]

  unfoldable pub apply_api_key_auth : AdapterAuthConfig → Outgoing → Outgoing ⊎ RouteError
  apply_api_key_auth auth r = elim auth.api_key [
    | none ↦ inr no_api_key
    | some api ↦
        if api.location == "header"
        then inl (set_header api.name api.key r)
        else if api.location == "query"
        then inl (record r { url = http.with_query r.url api.name api.key })
        else if api.location == "cookie"
        then inl (record r {
          headers = insert "Cookie" (http.with_cookie api.name api.key r.headers) r.headers;
        })
        else inr (unsupported_location api.location)
  ]

  -- The switch of `applyAuthentication`.
  unfoldable pub apply_type : AdapterAuthConfig → Outgoing → Outgoing ⊎ RouteError
  apply_type auth r =
      if auth.auth_type == "bearer"
      then apply_bearer_auth auth r
      else if auth.auth_type == "oauth"
      then inr no_oauth
      else if auth.auth_type == "basic"
      then apply_basic_auth auth r
      else if auth.auth_type == "apikey"
      then apply_api_key_auth auth r
      else inr (unsupported_auth auth.auth_type)

  unfoldable pub apply_authentication : AdapterResource J → Outgoing → Outgoing ⊎ RouteError
  apply_authentication adapter r = elim adapter.info.authentication [
    | none ↦ inl r
    | some auth ↦ if auth.required then apply_type auth r else inl r
  ]

  -- The request with the headers that are always set.
  unfoldable pub plain_request : (url body session_id : String) → Outgoing
  plain_request url body session_id =
      let r = set_header "MCP-Protocol-Version" "2025-06-18" (
        set_header "Accept" "application/json, text/event-stream" (
          set_header "Content-Type" "application/json"
            (record { url = url; headers = []; body = body }))) in
      if session_id == "" then r else set_header "Mcp-Session-Id" session_id r

  -- The request for a message, or the error before anything is sent.
  unfoldable pub prepare :
      Message J → AdapterResource J → (session_id : String) → Outgoing ⊎ RouteError
  prepare message adapter session_id = elim (build_target_url adapter) [
    | inr e ↦ inr e
    | inl url ↦ elim (http.marshal message) [
      | none ↦ inr no_marshal
      | some body ↦
          if http.accepts url
          then apply_authentication adapter (plain_request url body session_id)
          else inr no_request
    ]
  ]

  unfoldable pub receive : Option (ℕ × String) → Message J ⊎ RouteError
  receive none = inr not_sent
  receive (some (status, body)) =
      if nat_eq status 200
      then elim (http.decode body) [ none ↦ inr not_decoded | some response ↦ inl response ]
      else inr (bad_status status)

  unfoldable pub proxy_to_target :
      Message J → AdapterResource J → (session_id : String) → Message J ⊎ RouteError
  proxy_to_target message adapter session_id = elim (prepare message adapter session_id) [
    | inr e ↦ inr e
    | inl request ↦ receive (http.send request)
  ]
