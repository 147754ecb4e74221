-- ===== src/Cache/Invalidation.antt =====
-- What `Invalidate` of `MCPCache` (pkg/mcp/cache.go) drops, for digests of 64 digits.
use suse_ai_up.Prelude.{
  String, ℕ, true, not, ◌==◌, ◌≡◌, Option, none, some, if◌then◌else◌, text_len, take_text_all,
  drop_text_all, lookup, lookup-delete_where, IsMap, Option-cases, Bool-cases, inl, inr, arith,
  refl, ap, ◌∙◌,
}
use suse_ai_up.Cache.{CacheEntry, McpCache}
use suse_ai_up.Cache.Keys.{
  generate_cache_key, key_matches, key_matches_adapter, key_matches_method, is_invalidated,
  invalidate,
}
use suse_ai_up.Cache.Bounds.{update_metrics-cache}

module _ (hash : String → String) {P D : Type 0} (marshal : P → String) (size : CacheEntry D → ℕ)
    (digits : (t : String) → text_len (hash t) ≡ 64) where
  pub key_len :
      (adapter method : String) (params : Option P)
      → text_len (generate_cache_key hash marshal adapter method params) ≡ 64
  unfolding generate_cache_key
  key_len adapter method params = digits _

  key_matches_adapter-eq :
      (key adapter : String)
      → text_len key ≡ 64
      → key_matches_adapter hash marshal key adapter
        ≡ (key == generate_cache_key hash marshal adapter "test" none)
  unfolding key_matches_adapter
  key_matches_adapter-eq key adapter h =
      rw (key_len adapter "test" none, h, take_text_all 64 key h) refl

  key_matches_method-true :
      (key method : String) → text_len key ≡ 64 → key_matches_method hash marshal key method ≡ true
  unfolding key_matches_method
  key_matches_method-true key method h =
      rw
        (
          key_len "adapter1" method none,
          key_len "adapter1" "" none,
          h,
          drop_text_all 64 key h,
          drop_text_all 64 (generate_cache_key hash marshal "adapter1" method none)
              (key_len "adapter1" method none),
        )
        refl

  is_invalidated-eq :
      (adapter method key : String)
      → text_len key ≡ 64
      → is_invalidated hash marshal adapter method key ≡ (
          if adapter == ""
          then not (method == "")
          else key
            == generate_cache_key hash marshal adapter
                (if method == "" then "test" else method)
                none)
  unfolding is_invalidated key_matches
  is_invalidated-eq adapter method key h = elim (Bool-cases (adapter == "")) [
    | inl a ↦ elim (Bool-cases (method == "")) [
      | inl m ↦ rw (a, m) refl
      | inr m ↦ rw (a, m) (key_matches_method-true key method h)
    ]
    | inr a ↦ elim (Bool-cases (method == "")) [
      | inl m ↦ rw (a, m) (key_matches_adapter-eq key adapter h)
      | inr m ↦ rw (a, m) refl
    ]
  ]

  -- With digests of 64 characters and no key twice, after `Invalidate` an entry under a key of 64
  -- characters is as it was, except: with an empty adapter name and a method, none is left; with
  -- an adapter and a method, the one stored for them without parameters is gone; with an adapter
  -- alone, only the one stored for that adapter and the method "test" without parameters is gone.
  pub lookup-invalidate :
      (adapter method key : String) (c : McpCache D)
      → text_len key ≡ 64
      → IsMap c.cache
      → lookup key (invalidate hash marshal size adapter method c).cache ≡ (
          if adapter == ""
          then (if method == "" then lookup key c.cache else none)
          else if key
              == generate_cache_key hash marshal adapter
                  (if method == "" then "test" else method)
                  none
          then none
          else lookup key c.cache)
  unfolding invalidate
  lookup-invalidate adapter method key c h m =
      let drop = is_invalidated-eq adapter method key h in
      rw
        (
          update_metrics-cache,
          lookup-delete_where (λ k _. is_invalidated hash marshal adapter method k) key c.cache m,
        )
        (elim (Option-cases (lookup key c.cache)) [
          | inl e ↦ rw e (ground arith)
          | inr (v, e) ↦ rw e (ap (λ b. if b then none else some v) drop ∙ ground arith)
        ])
