-- ===== src/Discovery.antt =====
-- `InMemoryDiscoveryStore` of pkg/scanner/discovery_store.go and `DiscoveredServer` of
-- pkg/models/adapter.go: what each method does while it holds the lock. `J` is the type of what a
-- deep scan finds; pointers, slices and maps that are nil are none.
pub mod Locks
use Prim.Native.String.{◌++◌}
use suse_ai_up.Prelude.{
  String, ℕ, Bool, ◌+◌, ◌==◌, ◌||◌, List, [], ◌∷◌, ◌++◌ as join, Option, none, some, ltb, length,
  if◌then◌else◌, replace_char, Map, lookup, insert, delete, delete_where, values,
}

pub record DiscoveredServer (J : Type 0) : Type 0 where
  pub id : String
  pub name : String
  pub address : String
  pub protocol : String
  pub connection : String
  pub status : String
  pub last_seen : ℕ
  pub metadata : Option J
  pub vulnerability_score : String
  pub capabilities : Option J
  pub tools : Option J
  pub resources : Option J
  pub prompts : Option J
  pub resource_templates : Option J
  pub auth_info : Option J
  pub last_deep_scan : Option ℕ
  pub server_version : String
  pub protocol_version : String

-- `strings.Join(parts, "|")`
unfoldable pub joined : List String → String
joined [] = ""
joined (part ∷ []) = part
joined (part ∷ other ∷ parts) = part ++ ("|" ++ joined (other ∷ parts))

-- `if part != "" { parts = append(parts, part) }`
unfoldable pub unless_empty : String → List String
unless_empty part = if part == "" then [] else part ∷ []

unfoldable pub newer_text : String → String → String
newer_text found old = if found == "" then old else found

module _ {J : Type 0} where
  -- `digest` is the first 8 digits of the MD5 sum of the printed capabilities.
  unfoldable pub generate_fingerprint : (digest : J → String) → DiscoveredServer J → String
  generate_fingerprint digest server =
      let named : List String =
        if server.name == "" || server.name == "Unknown MCP Server" then [] else server.name ∷ [] in
      let hashed : List String = elim server.capabilities [ none ↦ [] | some c ↦ digest c ∷ [] ] in
      let parts : List String = join named (
        join (unless_empty server.server_version)
          (join (unless_empty server.protocol_version) hashed)) in
      elim parts [
        | [] ↦ "address-" ++ replace_char "/" "-" server.address
        | part ∷ rest ↦ joined (part ∷ rest)
      ]

  -- The loop of `FindByFingerprint`.
  unfoldable pub first_with_fingerprint :
      (digest : J → String) → String → List (DiscoveredServer J) → Option (DiscoveredServer J)
  first_with_fingerprint digest fingerprint [] = none
  first_with_fingerprint digest fingerprint (server ∷ servers) =
      let rest = first_with_fingerprint digest fingerprint servers in
      if generate_fingerprint digest server == fingerprint then some server else rest

  unfoldable pub find_by_fingerprint :
      (digest : J → String) → String → Map (DiscoveredServer J) → Option (DiscoveredServer J)
  find_by_fingerprint digest fingerprint s = first_with_fingerprint digest fingerprint (values s)

  -- `if new != nil { old = new }`
  unfoldable pub newer : Option J → Option J → Option J
  newer found old = elim found [ none ↦ old | some f ↦ some f ]

  -- The part of `Save` for a server whose fingerprint is known.
  unfoldable pub merged : DiscoveredServer J → DiscoveredServer J → DiscoveredServer J
  merged server existing = record existing {
    capabilities = newer server.capabilities existing.capabilities;
    tools = newer server.tools existing.tools;
    resources = newer server.resources existing.resources;
    prompts = newer server.prompts existing.prompts;
    auth_info = newer server.auth_info existing.auth_info;
    server_version = newer_text server.server_version existing.server_version;
    protocol_version = newer_text server.protocol_version existing.protocol_version;
    metadata = newer server.metadata existing.metadata;
    vulnerability_score = newer_text server.vulnerability_score existing.vulnerability_score;
    last_seen = server.last_seen;
  }

  unfoldable pub get_all : Map (DiscoveredServer J) → List (DiscoveredServer J)
  get_all s = values s

  unfoldable pub get_by_id : String → Map (DiscoveredServer J) → Option (DiscoveredServer J)
  get_by_id id s = lookup id s

  unfoldable pub get_server_count : Map (DiscoveredServer J) → ℕ
  get_server_count s = length s

  -- The error, none found, leaves the store as it is.
  unfoldable pub update_last_seen :
      String → (last_seen : ℕ) → Map (DiscoveredServer J) → Map (DiscoveredServer J)
  update_last_seen id last_seen s = elim (lookup id s) [
    | none ↦ s
    | some server ↦ insert id (record server { last_seen = last_seen }) s
  ]

  -- For a threshold that is not negative.
  unfoldable pub remove_stale :
      (now threshold : ℕ) → Map (DiscoveredServer J) → Map (DiscoveredServer J)
  remove_stale now threshold s = delete_where (λ _ server. ltb (server.last_seen + threshold) now) s

  -- `Delete`, whose error leaves the store as it is.
  unfoldable pub delete_server : String → Map (DiscoveredServer J) → Map (DiscoveredServer J)
  delete_server id s = elim (lookup id s) [ none ↦ s | some _ ↦ delete id s ]

  unfoldable pub clear : Map (DiscoveredServer J) → Map (DiscoveredServer J)
  clear s = []
