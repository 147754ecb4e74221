-- ===== src/Cache.antt =====
-- `MCPCache` of pkg/mcp/cache.go. The SHA-256 digest in hexadecimal digits, `json.Marshal` of the
-- parameters and the size of a marshalled entry are parameters. Counters are natural numbers: the
-- wrap-around of an int64 is left out.
pub mod Keys
pub mod Answers
pub mod Invalidation
pub mod Steps
pub mod Bounds
pub mod Entries
use suse_ai_up.Prelude.{
  String, ℕ, Bool, true, false, not, ◌+◌, ◌==◌, ◌&&◌, List, [], ◌∷◌, Option, none, some,
  if◌then◌else◌, ltb, leb, length, Map, lookup, insert, delete, delete_where,
}

pub record CacheConfig : Type 0 where
  pub capabilities_ttl : ℕ
  pub tools_list_ttl : ℕ
  pub prompts_list_ttl : ℕ
  pub resources_list_ttl : ℕ
  pub response_ttl : ℕ
  pub max_entries : ℕ
  pub enable_metrics : Bool

-- `D` is the type of the cached data; `none` is a nil interface.
pub record CacheEntry (D : Type 0) : Type 0 where
  pub content : Option D
  pub timestamp : ℕ
  pub ttl : ℕ
  pub hit_count : ℕ
  pub etag : String

pub record CacheMetrics : Type 0 where
  pub hits : ℕ
  pub misses : ℕ
  pub evictions : ℕ
  pub entries : ℕ
  pub memory_usage : ℕ
  pub total_hit_time : ℕ

pub record McpCache (D : Type 0) : Type 0 where
  pub config : CacheConfig
  pub cache : Map (CacheEntry D)
  pub metrics : CacheMetrics

unfoldable pub get_ttl_for_method : CacheConfig → String → ℕ
get_ttl_for_method config method =
    if method == "initialize"
    then config.capabilities_ttl
    else if method == "capabilities"
    then config.capabilities_ttl
    else if method == "tools/list"
    then config.tools_list_ttl
    else if method == "prompts/list"
    then config.prompts_list_ttl
    else if method == "resources/list"
    then config.resources_list_ttl
    else config.response_ttl

-- `IsCacheable`
unfoldable pub is_cacheable : (method : String) (status_code : ℕ) → Bool
is_cacheable method status_code =
    if leb 200 status_code && ltb status_code 300
    then if method == "tools/list"
      then true
      else if method == "prompts/list"
      then true
      else if method == "resources/list"
      then true
      else method == "capabilities"
    else false

module _ {D : Type 0} where
  -- `time.Since(e.Timestamp) > e.TTL`
  unfoldable pub is_expired : (now : ℕ) → CacheEntry D → Bool
  is_expired now e = ltb (e.timestamp + e.ttl) now

  abbrev pub is_present : Option D → Bool
  is_present none = false
  is_present (some _) = true

  unfoldable pub is_valid : (now : ℕ) → CacheEntry D → Bool
  unfolding is_expired
  is_valid now e = not (is_expired now e) && is_present e.content

  unfoldable pub increment_hit : (duration : ℕ) → McpCache D → McpCache D
  increment_hit duration c =
      if c.config.enable_metrics
      then record c {
        metrics = record c.metrics {
          hits = c.metrics.hits + 1;
          total_hit_time = c.metrics.total_hit_time + duration;
        };
      }
      else c

  unfoldable pub increment_miss : McpCache D → McpCache D
  increment_miss c =
      if c.config.enable_metrics
      then record c { metrics = record c.metrics { misses = c.metrics.misses + 1 } }
      else c

  unfoldable pub increment_evictions : McpCache D → McpCache D
  increment_evictions c =
      if c.config.enable_metrics
      then record c { metrics = record c.metrics { evictions = c.metrics.evictions + 1 } }
      else c

  -- The sum of the sizes of the marshalled entries.
  unfoldable pub memory_of : (CacheEntry D → ℕ) → Map (CacheEntry D) → ℕ
  memory_of size [] = 0
  memory_of size ((_, e) ∷ m) = size e + memory_of size m

  unfoldable pub update_metrics : (CacheEntry D → ℕ) → McpCache D → McpCache D
  update_metrics size c =
      if c.config.enable_metrics
      then record c {
        metrics = record c.metrics {
          entries = length c.cache;
          memory_usage = memory_of size c.cache;
        };
      }
      else c

  -- One round of the loop of `evictLRU`: the key and the hit count so far, `none` for the
  -- starting -1.
  unfoldable pub better : Option (String × ℕ) → String → CacheEntry D → Option (String × ℕ)
  better none k e = some (k, e.hit_count)
  better (some (j, n)) k e = if ltb e.hit_count n then some (k, e.hit_count) else some (j, n)

  unfoldable pub least_used : Option (String × ℕ) → Map (CacheEntry D) → Option (String × ℕ)
  least_used best [] = best
  least_used best ((k, e) ∷ m) = least_used (better best k e) m

  unfoldable pub evict_lru : McpCache D → McpCache D
  evict_lru c = elim (least_used none c.cache) [
    | none ↦ c
    | some (k, _) ↦
        if k == "" then c else increment_evictions (record c { cache = delete k c.cache })
  ]

  -- `Set`, at the key that is computed from its arguments; `etag` is "" where none is given.
  unfoldable pub set_at :
      (CacheEntry D → ℕ) → (now : ℕ) (key method etag : String) → Option D → McpCache D → McpCache D
  set_at size now key method etag content c =
      let entry : CacheEntry D = record {
        content = content;
        timestamp = now;
        ttl = get_ttl_for_method c.config method;
        hit_count = 0;
        etag = etag;
      } in
      let c' = if leb c.config.max_entries (length c.cache) then evict_lru c else c in
      update_metrics size (record c' { cache = insert key entry c'.cache })

  abbrev pub counted : CacheEntry D → CacheEntry D
  counted e = record e { hit_count = e.hit_count + 1 }

  -- `Get`, at the key; the deferred `IncrementHit` runs on every path. `now` is the clock at the
  -- test of expiry, and `duration` what the whole call took.
  unfoldable pub get_at : (now duration : ℕ) (key : String) → McpCache D → McpCache D × Option D
  get_at now duration key c = elim (lookup key c.cache) [
    | none ↦ (increment_hit duration (increment_miss c), none)
    | some e ↦
        if is_valid now e
        then (
          increment_hit duration (record c { cache = insert key (counted e) c.cache }),
          e.content,
        )
        else (increment_hit duration (increment_miss c), none)
  ]

  -- `cleanup`
  unfoldable pub cleanup : (CacheEntry D → ℕ) → (now : ℕ) → McpCache D → McpCache D
  cleanup size now c =
      update_metrics size (record c { cache = delete_where (λ _ e. is_expired now e) c.cache })

  -- `InvalidateAll`
  unfoldable pub invalidate_all : (CacheEntry D → ℕ) → McpCache D → McpCache D
  invalidate_all size c = update_metrics size (record c { cache = [] })
