-- ===== src/Cache/Steps.antt =====
-- Histories of `MCPCache` (pkg/mcp/cache.go): each public call, and each round of the cleanup
-- goroutine, is a step; the lock puts them in some order.
use suse_ai_up.Prelude.{String, ℕ, ◌<◌, ◌≡◌, ◌≢◌, [], Option, lookup, arith, refl, ◌∙◌, ap}
use suse_ai_up.Cache.{
  CacheEntry, CacheConfig, CacheMetrics, McpCache, update_metrics, evict_lru, increment_evictions,
  increment_hit, increment_miss, set_at, get_at, cleanup, invalidate_all,
}
use suse_ai_up.Cache.Keys.{generate_cache_key, get, set, invalidate}
use suse_ai_up.Cache.Bounds.{
  IsBounded, set_at-IsBounded, get_at-IsBounded, delete_where-IsBounded, update_metrics-cache,
}

abbrev pub no_metrics : CacheMetrics
no_metrics = record {
  hits = 0;
  misses = 0;
  evictions = 0;
  entries = 0;
  memory_usage = 0;
  total_hit_time = 0;
}

-- `NewMCPCache`, for a configuration that is not nil
unfoldable pub new_cache : {D : Type 0} → CacheConfig → McpCache D
new_cache config = record { config = config; cache = []; metrics = no_metrics }

module _ {D : Type 0} where
  update_metrics-config :
      (size : CacheEntry D → ℕ) (c : McpCache D) → (update_metrics size c).config ≡ c.config
  unfolding update_metrics
  update_metrics-config size c = ground arith

  empty-IsBounded : (max : ℕ) → IsBounded {D = D} max []
  unfolding lookup
  empty-IsBounded max = record { map = tt; named = refl; bounded = omega arith }

  evict_lru-config : (c : McpCache D) → (evict_lru c).config ≡ c.config
  unfolding evict_lru increment_evictions
  evict_lru-config c = ground arith

  set_at-config :
      (size : CacheEntry D → ℕ) (now : ℕ) (key method etag : String) (content : Option D)
      (c : McpCache D)
      → (set_at size now key method etag content c).config ≡ c.config
  unfolding set_at update_metrics
  set_at-config size now key method etag content c = ground (arith, evict_lru-config c)

  get_at-config :
      (now duration : ℕ) (key : String) (c : McpCache D)
      → (get_at now duration key c).0.config ≡ c.config
  unfolding get_at increment_hit increment_miss
  get_at-config now duration key c = ground arith

module _ (hash : String → String) {P D : Type 0} (marshal : P → String) (size : CacheEntry D → ℕ)
    (digest : (t : String) → hash t ≢ "") where
  pub data Step (c d : McpCache D) : Type 0 where
    get_step :
        (now duration : ℕ) (adapter method : String) (params : Option P)
        → d ≡ (get hash marshal size now duration adapter method params c).0
        → Step c d
    set_step :
        (now : ℕ) (adapter method etag : String) (params : Option P) (content : Option D)
        → d ≡ set hash marshal size now adapter method etag params content c
        → Step c d
    invalidate_step :
        (adapter method : String) → d ≡ invalidate hash marshal size adapter method c → Step c d
    invalidate_all_step : d ≡ invalidate_all size c → Step c d
    cleanup_step : (now : ℕ) → d ≡ cleanup size now c → Step c d

  pub data Reach (c : McpCache D) : McpCache D → Type 0 where
    here : Reach c c
    next : {d e : McpCache D} → Reach c d → Step d e → Reach c e

  -- The configuration stays, and the entries are within its bound.
  pub record IsKept (config : CacheConfig) (c : McpCache D) : Type 0 where
    pub same : c.config ≡ config
    pub entries : IsBounded config.max_entries c.cache

  module _ (config : CacheConfig) (pos : 0 < config.max_entries) where
    Step-IsKept : {c d : McpCache D} → Step c d → IsKept config c → IsKept config d
    unfolding get set invalidate invalidate_all cleanup generate_cache_key
    Step-IsKept {c} (get_step now t a m p e) k = rw e (record {
      same = get_at-config now t _ c ∙ k.same;
      entries = get_at-IsBounded now t _ config.max_entries c k.entries;
    })
    Step-IsKept {c} (set_step now a m tag p x e) k = rw e (record {
      same = set_at-config size now _ m tag x c ∙ k.same;
      entries =
          set_at-IsBounded size now _ m tag x c config.max_entries (digest _) pos
            (ap (λ (g : CacheConfig). g.max_entries) k.same) k.entries;
    })
    Step-IsKept {c} (invalidate_step a m e) k = rw e (record {
      same = update_metrics-config size _ ∙ k.same;
      entries = delete_where-IsBounded size _ config.max_entries c k.entries;
    })
    Step-IsKept {c} (invalidate_all_step e) k = rw e (record {
      same = update_metrics-config size _ ∙ k.same;
      entries = rw update_metrics-cache (empty-IsBounded config.max_entries);
    })
    Step-IsKept {c} (cleanup_step now e) k = rw e (record {
      same = update_metrics-config size _ ∙ k.same;
      entries = delete_where-IsBounded size _ config.max_entries c k.entries;
    })

    Reach-IsKept : {c d : McpCache D} → Reach c d → IsKept config c → IsKept config d
    Reach-IsKept here k = k
    Reach-IsKept (next r st) k = Step-IsKept st (Reach-IsKept r k)

    -- Whatever is called on a new cache, with a positive `MaxEntries` and digests that are not
    -- empty, it never holds more than `MaxEntries` entries, nor two under one key.
    pub Reach-IsBounded :
        (d : McpCache D) → Reach (new_cache config) d → IsBounded config.max_entries d.cache
    unfolding new_cache
    Reach-IsBounded d r =
        (Reach-IsKept r
          (record { same = refl; entries = empty-IsBounded config.max_entries })).entries
