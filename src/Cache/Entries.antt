-- ===== src/Cache/Entries.antt =====
-- The search of `evictLRU` of `MCPCache` (pkg/mcp/cache.go).
use suse_ai_up.Prelude.{
  String, ℕ, false, ◌≤◌, ◌==◌, ◌≡◌, [], ◌∷◌, Option, none, some, ltb, Map, lookup, delete, IsMap,
  Bool-cases, Option-cases, inl, inr, arith, eq_iff, ◌⊎◌,
}
use suse_ai_up.Cache.{CacheEntry, McpCache, increment_evictions, better, least_used, evict_lru}

-- The best of the loop, once there is one, and no worse than a count.
abbrev AtMost : Option (String × ℕ) → ℕ → Type 0
AtMost none n = ⊥
AtMost (some (k, m)) n = m ≤ n

module _ {D : Type 0} where
  better_self :
      (best : Option (String × ℕ)) (k : String) (e : CacheEntry D)
      → AtMost (better best k e) e.hit_count
  unfolding better
  better_self none k e = omega arith
  better_self (some (j, n)) k e = elim (Bool-cases (ltb e.hit_count n)) [
    | inl p ↦ rw p (omega arith)
    | inr p ↦ rw p (ground arith)
  ]

  better_keeps :
      (best : Option (String × ℕ)) (k : String) (e : CacheEntry D) (n : ℕ)
      → AtMost best n
      → AtMost (better best k e) n
  unfolding better
  better_keeps none k e n h = absurd h
  better_keeps (some (j, b)) k e n h = elim (Bool-cases (ltb e.hit_count b)) [
    | inl p ↦ rw p (ground arith)
    | inr p ↦ rw p h
  ]

  least_used_keeps :
      (m : Map (CacheEntry D)) (best : Option (String × ℕ)) (n : ℕ)
      → AtMost best n
      → AtMost (least_used best m) n
  unfolding least_used
  least_used_keeps [] best n h = h
  least_used_keeps ((k, e) ∷ m) best n h =
      least_used_keeps m (better best k e) n (better_keeps best k e n h)

  least_used_least :
      (m : Map (CacheEntry D)) (best : Option (String × ℕ)) (k : String) (e : CacheEntry D)
      → lookup k m ≡ some e
      → AtMost (least_used best m) e.hit_count
  unfolding least_used lookup
  least_used_least [] best k e h = cc
  least_used_least ((j, w) ∷ m) best k e h = elim (Bool-cases (j == k)) [
    | inl p ↦
        let same : w ≡ e = ground arith in
        rw (← same) (least_used_keeps m (better best j w) w.hit_count (better_self best j w))
    | inr p ↦ least_used_least m (better best j w) k e (ground arith)
  ]

  -- Where the best of the loop comes from.
  abbrev pub Source : Option (String × ℕ) → Map (CacheEntry D) → String → ℕ → Type 0
  Source best m k n =
      (best ≡ some (k, n)) ⊎ ((e : CacheEntry D) × (lookup k m ≡ some e) × (e.hit_count ≡ n))

  better_source :
      (best : Option (String × ℕ)) (j k : String) (e : CacheEntry D) (n : ℕ)
      → better best j e ≡ some (k, n)
      → (best ≡ some (k, n)) ⊎ ((j ≡ k) × (e.hit_count ≡ n))
  unfolding better
  better_source none j k e n h = ground arith
  better_source (some (i, b)) j k e n h = ground arith

  least_used-origin :
      (m : Map (CacheEntry D)) (best : Option (String × ℕ)) (k : String) (n : ℕ)
      → IsMap m
      → least_used best m ≡ some (k, n)
      → Source best m k n
  unfolding least_used lookup
  least_used-origin [] best k n v h = inl h
  least_used-origin ((j, w) ∷ m) best k n (fresh, v) h =
      elim (least_used-origin m (better best j w) k n v h) [
        | inr (e, found, count) ↦ elim (Bool-cases (j == k)) [
          | inl p ↦ absurd (ground (arith, eq_iff j k))
          | inr p ↦ inr (e, rw p found, count)
        ]
        | inl q ↦ elim (better_source best j k w n q) [
          | inl old ↦ inl old
          | inr (same, count) ↦ inr (w, ground (arith, eq_iff j k), count)
        ]
      ]

  -- What `evictLRU` drops: a stored entry, whose hit count no stored entry is below.
  pub record Evicted (m : Map (CacheEntry D)) (m' : Map (CacheEntry D)) : Type 0 where
    pub key : String
    pub entry : CacheEntry D
    pub found : lookup key m ≡ some entry
    pub least :
        (k : String) (e : CacheEntry D) → lookup k m ≡ some e → entry.hit_count ≤ e.hit_count
    pub rest : m' ≡ delete key m

  -- `evictLRU` on a cache that is not empty, with no key twice and no empty key, drops one stored
  -- entry with the lowest hit count, and nothing else.
  pub evict_lru-Evicted :
      (c : McpCache D) (k : String) (e : CacheEntry D)
      → IsMap c.cache
      → lookup "" c.cache ≡ none
      → lookup k c.cache ≡ some e
      → Evicted c.cache (evict_lru c).cache
  unfolding evict_lru increment_evictions
  evict_lru-Evicted c k e v named found = elim (Option-cases (least_used none c.cache)) [
    | inl p ↦ absurd (rw p at (least_used_least c.cache none k e found))
    | inr ((j, n), p) ↦ elim (least_used-origin c.cache none j n v p) [
      | inl q ↦ absurd (ground arith)
      | inr (w, there, count) ↦
          let other : (j == "") ≡ false = ground (arith, eq_iff j "") in
          record {
            key = j;
            entry = w;
            found = there;
            least = λ i x at_i. rw count (rw p at (least_used_least c.cache none i x at_i));
            rest = ground arith;
          }
    ]
  ]
