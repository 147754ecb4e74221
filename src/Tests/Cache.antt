-- ===== src/Tests/Cache.antt =====
-- The cache of pkg/mcp/cache.go, with a digest that is 64 digits long on every text.
use suse_ai_up.Prelude.{
  String, ℕ, true, [], ◌∷◌, none, some, ◌≡◌, ◌≢◌, refl, lookup, IsMap, ◌==◌, if◌then◌else◌, arith,
  text_len,
}
use suse_ai_up.Cache.{CacheConfig, CacheEntry, McpCache, is_valid, is_expired, get_at, evict_lru}
use suse_ai_up.Cache.Keys.{generate_cache_key, get, set, invalidate}
use suse_ai_up.Cache.Entries.{Evicted, evict_lru-Evicted}
use suse_ai_up.Cache.Bounds.{IsBounded}
use suse_ai_up.Cache.Steps.{no_metrics, new_cache, here, next, set_step, Reach-IsBounded}
use suse_ai_up.Cache.Invalidation.{lookup-invalidate}

abbrev digits : String
digits = "0123456789abcdef0123456789abcdef0123456789abcdef0123456789abcdef"

abbrev hash : String → String
hash _ = digits

hash-long : (t : String) → text_len (hash t) ≡ 64
hash-long t = refl

hash-named : (t : String) → hash t ≢ ""
hash-named t = cc

-- The parameters are a text; every entry has size 1.
abbrev marshal : String → String
marshal t = t

abbrev size : CacheEntry ℕ → ℕ
size _ = 1

abbrev small : CacheConfig
small = record {
  capabilities_ttl = 60;
  tools_list_ttl = 30;
  prompts_list_ttl = 30;
  resources_list_ttl = 30;
  response_ttl = 10;
  max_entries = 2;
  enable_metrics = true;
}

abbrev fresh : McpCache ℕ
fresh = new_cache small

abbrev after_set : McpCache ℕ
after_set = set hash marshal size 5 "maps" "tools/list" "" none (some 7) fresh

Reach-IsBounded_example : IsBounded small.max_entries after_set.cache
Reach-IsBounded_example =
    Reach-IsBounded hash marshal size hash-named small (omega arith) after_set
      (next here (set_step 5 "maps" "tools/list" "" none (some 7) refl))

abbrev entry : (hits : ℕ) → CacheEntry ℕ
entry hits = record { content = some 7; timestamp = 5; ttl = 30; hit_count = hits; etag = "" }

abbrev filled : McpCache ℕ
filled = record {
  config = small;
  cache = (digits, entry 3) ∷ ("k", entry 1) ∷ [];
  metrics = no_metrics;
}

found : (get hash marshal size 20 1 "maps" "tools/list" none filled).1 ≡ some 7
unfolding get get_at generate_cache_key is_valid is_expired lookup
found = refl

filled-IsMap : IsMap filled.cache
unfolding lookup
filled-IsMap = (refl, (refl, tt))

no_empty_key : lookup "" filled.cache ≡ none
unfolding lookup
no_empty_key = refl

k_found : lookup "k" filled.cache ≡ some (entry 1)
unfolding lookup
k_found = refl

evict_lru-Evicted_example : Evicted filled.cache (evict_lru filled).cache
evict_lru-Evicted_example = evict_lru-Evicted filled "k" (entry 1) filled-IsMap no_empty_key k_found

lookup-invalidate_example :
    lookup digits (invalidate hash marshal size "" "tools/list" filled).cache ≡ (
      if "" == ""
      then (if "tools/list" == "" then lookup digits filled.cache else none)
      else if digits
          == generate_cache_key hash marshal ""
              (if "tools/list" == "" then "test" else "tools/list")
              none
      then none
      else lookup digits filled.cache)
lookup-invalidate_example =
    lookup-invalidate hash marshal size hash-long "" "tools/list" digits filled refl filled-IsMap
