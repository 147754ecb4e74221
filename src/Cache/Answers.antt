-- ===== src/Cache/Answers.antt =====
-- What `Get` of `MCPCache` (pkg/mcp/cache.go) answers.
use suse_ai_up.Prelude.{
  String, ℕ, true, ◌+◌, ◌≤◌, ◌≡◌, Option, some, lookup, Option-cases, inl, inr, arith,
}
use suse_ai_up.Cache.{CacheEntry, McpCache, is_valid, increment_hit, increment_miss, get_at}
use suse_ai_up.Cache.Keys.{generate_cache_key, get}

module _ {D : Type 0} where
  get_at_answer :
      (now duration : ℕ) (key : String) (c : McpCache D) (x : D)
      → (get_at now duration key c).1 ≡ some x
      → (e : CacheEntry D) × (lookup key c.cache ≡ some e)
        × (e.content ≡ some x)
        × (now ≤ e.timestamp + e.ttl)
  unfolding get_at is_valid
  get_at_answer now duration key c x h = elim (Option-cases (lookup key c.cache)) [
    | inl p ↦ absurd (ground arith)
    | inr (e, p) ↦ (e, p, ground arith, ground arith)
  ]

  get_at_hits :
      (now duration : ℕ) (key : String) (c : McpCache D)
      → c.config.enable_metrics ≡ true
      → (get_at now duration key c).0.metrics.hits ≡ c.metrics.hits + 1
  unfolding get_at increment_hit increment_miss
  get_at_hits now duration key c h = ground arith

module _ (hash : String → String) {P D : Type 0} (marshal : P → String)
    (size : CacheEntry D → ℕ) where
  -- What `Get` answers is the data of a stored entry that has not expired.
  pub get_sound :
      (now duration : ℕ) (adapter method : String) (params : Option P) (c : McpCache D) (x : D)
      → (get hash marshal size now duration adapter method params c).1 ≡ some x
      → (e : CacheEntry D) × (lookup (generate_cache_key hash marshal adapter method params) c.cache
          ≡ some e)
        × (e.content ≡ some x)
        × (now ≤ e.timestamp + e.ttl)
  unfolding get
  get_sound now duration adapter method params c x h =
      get_at_answer now duration (generate_cache_key hash marshal adapter method params) c x h

  -- With metrics on, every `Get` counts as a hit, also one that finds nothing.
  pub get_hits :
      (now duration : ℕ) (adapter method : String) (params : Option P) (c : McpCache D)
      → c.config.enable_metrics ≡ true
      → (get hash marshal size now duration adapter method params c).0.metrics.hits
        ≡ c.metrics.hits + 1
  unfolding get
  get_hits now duration adapter method params c h = get_at_hits now duration _ c h
