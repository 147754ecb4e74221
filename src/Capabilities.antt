-- ===== src/Capabilities.antt =====
-- `CapabilityCache` of pkg/mcp/capability_cache.go. A capability map is read as the features and
-- their flags; a time is a number of nanoseconds. Each method is one step: what another call does
-- between the read lock and the write lock of `GetCapabilities` is left out.
pub mod Reads
use Prim.Native.String.{◌++◌}
use suse_ai_up.Prelude.{
  String, ℕ, Bool, true, not, ◌+◌, ◌++◌ as join, List, [], ◌∷◌, Option, none, some, if◌then◌else◌,
  ltb, Map, lookup, insert, delete, delete_where,
}
use suse_ai_up.Adapters.{AdapterResource, McpServerInfo, McpFunctionality}

abbrev pub Features : Type 0
Features = Map (Map Bool)

pub record CachedCapabilities (J : Type 0) : Type 0 where
  pub capabilities : Features
  pub expires_at : ℕ
  pub server_info : McpServerInfo J

abbrev pub list_changed : Map Bool
list_changed = ("listChanged", true) ∷ []

abbrev pub subscribe_and_list_changed : Map Bool
subscribe_and_list_changed = ("subscribe", true) ∷ ("listChanged", true) ∷ []

-- A feature where the list is not empty.
abbrev pub feature_of : {A : Type 0} → String → Map Bool → List A → Features
feature_of name flags [] = []
feature_of name flags (x ∷ xs) = (name, flags) ∷ []

abbrev pub with_completion : Features → Features
with_completion [] = []
with_completion (f ∷ fs) = join (f ∷ fs) (("completion", []) ∷ [])

-- `5 * time.Minute`
abbrev pub five_minutes : ℕ
five_minutes = 300000000000

abbrev pub default_capabilities : Features
default_capabilities =
    ("tools", list_changed)
    ∷ ("resources", subscribe_and_list_changed)
    ∷ ("prompts", list_changed)
    ∷ ("completion", [])
    ∷ []

module _ {J : Type 0} where
  unfoldable pub get_cache_key : AdapterResource J → String
  get_cache_key adapter =
      adapter.info.name
      ++ ("-" ++ (adapter.info.connection_type ++ ("-" ++ adapter.info.remote_url)))

  unfoldable pub build_capabilities_from_functionality : McpFunctionality J → Features
  build_capabilities_from_functionality f = with_completion (
      join (feature_of "tools" list_changed f.tools) (
        join (feature_of "resources" subscribe_and_list_changed f.resources)
          (feature_of "prompts" list_changed f.prompts)))

  -- The error is always nil.
  unfoldable pub discover_capabilities : AdapterResource J → Features
  discover_capabilities adapter = elim adapter.info.mcp_functionality [
    | none ↦ default_capabilities
    | some f ↦ build_capabilities_from_functionality f
  ]

  -- The entry, where there is one that has not expired.
  unfoldable pub get_cached_capabilities :
      (now : ℕ) → AdapterResource J → Map (CachedCapabilities J) → Option (CachedCapabilities J)
  get_cached_capabilities now adapter cc = elim (lookup (get_cache_key adapter) cc) [
    | none ↦ none
    | some cached ↦ if ltb now cached.expires_at then some cached else none
  ]

  -- `GetCapabilities`; `stored` is the clock when the result is stored.
  unfoldable pub get_capabilities :
      (now stored : ℕ)
      → AdapterResource J
      → Map (CachedCapabilities J)
      → Map (CachedCapabilities J) × Features
  get_capabilities now stored adapter cc = elim (get_cached_capabilities now adapter cc) [
    | some cached ↦ (cc, cached.capabilities)
    | none ↦
        let capabilities = discover_capabilities adapter in
        (
          insert (get_cache_key adapter)
              (record {
                capabilities = capabilities;
                expires_at = stored + five_minutes;
                server_info = record {
                  name = adapter.info.name;
                  version = "1.0.0";
                  protocol = "MCP";
                  capabilities = [];
                };
              })
              cc,
          capabilities,
        )
  ]

  unfoldable pub invalidate_cache :
      AdapterResource J → Map (CachedCapabilities J) → Map (CachedCapabilities J)
  invalidate_cache adapter cc = delete (get_cache_key adapter) cc

  -- `now.After(cached.ExpiresAt)`
  unfoldable pub cleanup : (now : ℕ) → Map (CachedCapabilities J) → Map (CachedCapabilities J)
  cleanup now cc = delete_where (λ _ cached. ltb cached.expires_at now) cc

  unfoldable pub set_capabilities :
      (now : ℕ)
      → AdapterResource J
      → Features
      → McpServerInfo J
      → Map (CachedCapabilities J)
      → Map (CachedCapabilities J)
  set_capabilities now adapter capabilities server_info cc =
      insert (get_cache_key adapter)
        (record {
          capabilities = capabilities;
          expires_at = now + five_minutes;
          server_info = server_info;
        })
        cc
