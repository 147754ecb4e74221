-- ===== src/Tests/Router.antt =====
-- The message router (pkg/mcp/message_router.go) with a server that always answers "fresh".
use Prim.Native.String.{◌++◌}
use suse_ai_up.Prelude.{
  inl, inr, String, ℕ, true, false, ◌≢◌, ltb, List, [], ◌∷◌, Option, none, some, ◌≡◌, refl,
  if◌then◌else◌, text_len, IsMap, Bool-cases, ne_of_beq, lookup, insert,
}
use suse_ai_up.Adapters.{AdapterResource, AdapterAuthConfig}
use suse_ai_up.Cache.{CacheConfig, CacheEntry, McpCache}
use suse_ai_up.Cache.Keys.{generate_cache_key}
use suse_ai_up.Cache.Steps.{new_cache}
use suse_ai_up.Sessions.Steps.{empty}
use suse_ai_up.Router.{Router, Times, handle_notification, route_message}
use suse_ai_up.Router.Changes.{route_message-handle_notification}
use suse_ai_up.Router.Lists.{tools, uncached}
use suse_ai_up.Router.Messages.{Message}
use suse_ai_up.Router.Requests.{
  Outgoing, Http, build_target_url, plain_request, prepare, apply_authentication, apply_type,
  apply_bearer_auth, cluster_url,
}
use suse_ai_up.Router.Secured.{Carries, prepare-Carries}
use suse_ai_up.Tests.Adapters.{sample_adapter}

abbrev short_digits : String
short_digits = "0000000000000000000000000000000000000000000000000000000000000000"

abbrev long_digits : String
long_digits = "1111111111111111111111111111111111111111111111111111111111111111"

-- Two digests, by the length of the text.
abbrev hash : String → String
hash t = if ltb (text_len t) 16 then short_digits else long_digits

hash-long : (t : String) → text_len (hash t) ≡ 64
hash-long t = elim (Bool-cases (ltb (text_len t) 16)) [ inl e ↦ rw e refl | inr e ↦ rw e refl ]

abbrev marshal : String → String
marshal t = t

abbrev size : CacheEntry String → ℕ
size _ = 1

abbrev listing : String → List String → String
listing name items = name

abbrev answer : Message String
answer = record {
  jsonrpc = "2.0";
  id = some "1";
  method = "";
  params = none;
  result = some "fresh";
  error = none;
}

abbrev server : Http String
server = record {
  marshal = λ m. some m.method;
  decode = λ body. some answer;
  accepts = λ url. true;
  canonical = λ name. name;
  basic = λ user password. user ++ password;
  with_query = λ url name key. url;
  with_cookie = λ name key headers. key;
  send = λ request. some (200, "body");
  print = λ n. "8000";
}

abbrev asking : Option String → Message String
asking params = record answer { method = "tools/list"; params = params; result = none }

abbrev changed : Message String
changed = record answer {
  method = "notifications/tools/list_changed";
  params = none;
  result = none;
}

abbrev times : Times
times = record { looked = 5; took = 1; stored = 6 }

abbrev config : CacheConfig
config = record {
  capabilities_ttl = 60;
  tools_list_ttl = 30;
  prompts_list_ttl = 30;
  resources_list_ttl = 30;
  response_ttl = 10;
  max_entries = 2;
  enable_metrics = false;
}

abbrev maps : AdapterResource String
maps = sample_adapter none

-- A cache with an old answer for the list without parameters and one for a page of it.
abbrev entry : String → CacheEntry String
entry content = record { content = some content; timestamp = 0; ttl = 30; hit_count = 0; etag = "" }

abbrev filled : McpCache String
filled = record (new_cache config) {
  cache = (short_digits, entry "old") ∷ (long_digits, entry "old page") ∷ [];
}

filled-IsMap : IsMap filled.cache
unfolding lookup
filled-IsMap = (refl, (refl, tt))

abbrev state : Router String
state = record { cache = some filled; capability_cache = []; session_store = empty }

route_message-handle_notification_example :
    (route_message hash marshal size listing server times
      (asking none)
      maps
      "s1"
      (handle_notification hash marshal size listing server times changed maps "s1" state)).1
    ≡ uncached hash marshal size listing server tools (asking none) maps "s1"
route_message-handle_notification_example =
    route_message-handle_notification hash marshal size listing server hash-long tools times times
      changed (asking none) maps "s1" "s1" state refl refl refl refl filled-IsMap

two_keys :
    generate_cache_key hash marshal "maps" "tools/list" (some "page2")
    ≢ generate_cache_key hash marshal "maps" "tools/list" none
unfolding generate_cache_key
two_keys = ne_of_beq _ _ refl

abbrev bearer_auth : AdapterAuthConfig
bearer_auth = record {
  required = true;
  auth_type = "bearer";
  bearer_token = some (record { token = "secret"; dynamic = false; expires_at = 0 });
  oauth = none;
  basic = none;
  api_key = none;
}

abbrev closed : AdapterResource String
closed = sample_adapter (some bearer_auth)

abbrev sent : Outgoing
sent = record {
  url = "http://maps";
  headers =
      ("Content-Type", "application/json")
      ∷ ("Accept", "application/json, text/event-stream")
      ∷ ("MCP-Protocol-Version", "2025-06-18")
      ∷ ("Authorization", "Bearer secret")
      ∷ [];
  body = "tools/list";
}

prepared : prepare server (asking none) closed "" ≡ inl sent
unfolding prepare build_target_url cluster_url plain_request apply_authentication apply_type
    apply_bearer_auth insert
prepared = refl

prepare-Carries_example :
    (url : String) × (body : String) × (build_target_url server closed ≡ inl url)
    × (server.marshal (asking none) ≡ some body)
    × Carries server bearer_auth (plain_request server url body "") sent
prepare-Carries_example =
    prepare-Carries server (asking none) closed "" bearer_auth sent refl refl prepared
