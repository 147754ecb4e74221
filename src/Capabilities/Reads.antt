-- ===== src/Capabilities/Reads.antt =====
-- When the answers of `CapabilityCache` (pkg/mcp/capability_cache.go) are fresh.
use suse_ai_up.Prelude.{
  ℕ, ◌+◌, none, some, ◌≡◌, refl, ap, ◌∙◌, Map, lookup, lookup-insert, lookup-delete, ltb,
  if◌then◌else◌, Bool-cases, inl, inr, eq_iff,
}
use suse_ai_up.Adapters.{AdapterResource}
use suse_ai_up.Capabilities.{
  CachedCapabilities, five_minutes, get_cache_key, discover_capabilities, get_cached_capabilities,
  get_capabilities, invalidate_cache,
}

module _ {J : Type 0} where
  -- Right after `InvalidateCache`, `GetCapabilities` answers what is discovered now.
  pub get_capabilities-invalidate_cache :
      (now stored : ℕ) (adapter : AdapterResource J) (cc : Map (CachedCapabilities J))
      → (get_capabilities now stored adapter (invalidate_cache adapter cc)).1
        ≡ discover_capabilities adapter
  unfolding get_capabilities get_cached_capabilities invalidate_cache
  get_capabilities-invalidate_cache now stored adapter cc =
      let key = get_cache_key adapter in
      let gone : lookup key (invalidate_cache adapter cc) ≡ none =
        rw lookup-delete (rw ((eq_iff key key).1 refl) refl) in
      rw (get_capabilities, get_cached_capabilities, gone) refl

  -- When `GetCapabilities` had to discover, then for five minutes after that every answer for an
  -- adapter with the same name, connection type and address is the same, whatever functionality
  -- the adapter has by then; after that it is discovered again.
  pub get_capabilities_twice :
      (now stored later again : ℕ) (adapter other : AdapterResource J)
      (cc : Map (CachedCapabilities J))
      → get_cached_capabilities now adapter cc ≡ none
      → get_cache_key other ≡ get_cache_key adapter
      → (get_capabilities later again other (get_capabilities now stored adapter cc).0).1 ≡ (
          if ltb later (stored + five_minutes)
          then discover_capabilities adapter
          else discover_capabilities other)
  unfolding get_capabilities get_cached_capabilities
  get_capabilities_twice now stored later again adapter other cc miss same =
      let key = get_cache_key adapter in
      let found = λ (v : CachedCapabilities J).
        lookup-insert key key v cc
        ∙ ap (λ b. if b then some v else lookup key cc) ((eq_iff key key).1 refl) in
      elim (Bool-cases (ltb later (stored + five_minutes))) [
        | inl e ↦ rw (get_capabilities, miss, get_cached_capabilities, same, found _, e) refl
        | inr e ↦ rw (get_capabilities, miss, get_cached_capabilities, same, found _, e) refl
      ]
