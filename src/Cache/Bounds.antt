-- ===== src/Cache/Bounds.antt =====
-- The number of entries of `MCPCache` (pkg/mcp/cache.go), operation by operation.
use suse_ai_up.Prelude.{
  String, ℕ, Bool, ◌≤◌, ◌<◌, ◌≡◌, ◌≢◌, [], ◌∷◌, Option, none, some, leb, length, Map, lookup,
  insert, delete_where, lookup-insert, lookup-delete, lookup-delete_where-none, length-insert-le,
  length-insert_old, length-delete-lt, length-delete_where-le, IsMap, insert-IsMap, delete-IsMap,
  delete_where-IsMap, Bool-cases, Option-cases, inl, inr, arith, eq_iff, beq_of_ne, ◌⊎◌,
}
use suse_ai_up.Cache.{
  CacheEntry, McpCache, is_valid, increment_hit, increment_miss, update_metrics, evict_lru, set_at,
  get_at, counted,
}
use suse_ai_up.Cache.Entries.{evict_lru-Evicted}

module _ {D : Type 0} where
  -- The entries are those of a map, no key is empty, and there are `MaxEntries` at most.
  pub record IsBounded (max : ℕ) (m : Map (CacheEntry D)) : Type 0 where
    pub map : IsMap m
    pub named : lookup "" m ≡ none
    pub bounded : length m ≤ max

  -- The counters and the configuration are no entries.
  pub update_metrics-cache :
      (size : CacheEntry D → ℕ) (c : McpCache D) → (update_metrics size c).cache ≡ c.cache
  unfolding update_metrics
  update_metrics-cache size c = ground arith

  insert-IsBounded :
      (max : ℕ) (key : String) (e : CacheEntry D) (m : Map (CacheEntry D))
      → key ≢ ""
      → IsMap m
      → lookup "" m ≡ none
      → length (insert key e m) ≤ max
      → IsBounded max (insert key e m)
  insert-IsBounded max key e m n v named b = record {
    map = insert-IsMap key e m v;
    named = ground (arith, lookup-insert key "" e m, beq_of_ne key "" n);
    bounded = b;
  }

  first_found :
      (m : Map (CacheEntry D))
      → 0 < length m
      → (k : String) × (e : CacheEntry D) × (lookup k m ≡ some e)
  unfolding lookup
  first_found [] h = absurd (omega arith)
  first_found ((k, e) ∷ m) h = (k, e, ground (arith, eq_iff k k))

  evict_lru_room :
      (c : McpCache D) (max : ℕ)
      → 0 < max
      → IsBounded max c.cache
      → max ≤ length c.cache
      → IsMap (evict_lru c).cache
        × (lookup "" (evict_lru c).cache ≡ none)
        × (length (evict_lru c).cache < max)
  evict_lru_room c max pos h full =
      let (k, e, found) = first_found c.cache (omega arith) in
      let ev = evict_lru-Evicted c k e h.map h.named found in
      rw ev.rest (
        delete-IsMap ev.key c.cache h.map,
        ground (arith, lookup-delete ev.key "" c.cache, h.named),
        omega (arith, length-delete-lt ev.key ev.entry c.cache ev.found, h.bounded),
      )

  -- `Set` keeps the bound of the configuration, if that is positive.
  pub set_at-IsBounded :
      (size : CacheEntry D → ℕ) (now : ℕ) (key method etag : String) (content : Option D)
      (c : McpCache D) (max : ℕ)
      → key ≢ ""
      → 0 < max
      → c.config.max_entries ≡ max
      → IsBounded max c.cache
      → IsBounded max (set_at size now key method etag content c).cache
  unfolding set_at
  set_at-IsBounded size now key method etag content c max n pos same h =
      rw update_metrics-cache (elim (Bool-cases (leb c.config.max_entries (length c.cache))) [
        | inl full ↦
            let (v, named, room) = evict_lru_room c max pos h (ground arith) in
            rw full (
              insert-IsBounded max key _ (evict_lru c).cache n v named
                (omega (arith, length-insert-le key _ (evict_lru c).cache)))
        | inr room ↦ rw room (
            insert-IsBounded max key _ c.cache n h.map h.named (
              let fits : length c.cache < max = ground arith in
              omega (arith, length-insert-le key _ c.cache)))
      ])

  abbrev Touched : String → Map (CacheEntry D) → Map (CacheEntry D) → Type 0
  Touched key m m' =
      (m' ≡ m) ⊎ ((e : CacheEntry D) × (lookup key m ≡ some e) × (m' ≡ insert key (counted e) m))

  get_at_cache :
      (now duration : ℕ) (key : String) (c : McpCache D)
      → Touched key c.cache (get_at now duration key c).0.cache
  unfolding get_at increment_hit increment_miss
  get_at_cache now duration key c = elim (Option-cases (lookup key c.cache)) [
    | inl p ↦ inl (ground arith)
    | inr (e, p) ↦ elim (Bool-cases (is_valid now e)) [
      | inl q ↦ inr (e, p, ground arith)
      | inr q ↦ inl (ground arith)
    ]
  ]

  pub get_at-IsBounded :
      (now duration : ℕ) (key : String) (max : ℕ) (c : McpCache D)
      → IsBounded max c.cache
      → IsBounded max (get_at now duration key c).0.cache
  get_at-IsBounded now duration key max c h = elim (get_at_cache now duration key c) [
    | inl p ↦ rw p h
    | inr (e, found, p) ↦ rw p (
        insert-IsBounded max key (counted e) c.cache (λ q. ground (arith, rw q at found, h.named))
          h.map h.named
          (omega (arith, length-insert_old key (counted e) e c.cache found, h.bounded)))
  ]

  pub delete_where-IsBounded :
      (size : CacheEntry D → ℕ) (p : String → CacheEntry D → Bool) (max : ℕ) (c : McpCache D)
      → IsBounded max c.cache
      → IsBounded max (update_metrics size (record c { cache = delete_where p c.cache })).cache
  delete_where-IsBounded size p max c h = rw update_metrics-cache (record {
    map = delete_where-IsMap p c.cache h.map;
    named = lookup-delete_where-none p "" c.cache h.named;
    bounded = omega (arith, length-delete_where-le p c.cache, h.bounded);
  })
