-- ===== src/Cache/Keys.antt =====
-- The keys of `MCPCache` (pkg/mcp/cache.go): a digest of the adapter, the method and the
-- parameters, and the tests that `Invalidate` makes on a key.
use Prim.Native.String.{◌++◌}
use suse_ai_up.Prelude.{
  String, ℕ, Bool, false, not, ◌==◌, ◌&&◌, Option, none, some, if◌then◌else◌, leb, text_len,
  take_text, drop_text, delete_where,
}
use suse_ai_up.Cache.{CacheEntry, McpCache, set_at, get_at, update_metrics}

-- The digest in hexadecimal digits, and `json.Marshal` of the parameters.
module _ (hash : String → String) {P : Type 0} (marshal : P → String) where
  abbrev pub key_text : (adapter method : String) → Option P → String
  key_text adapter method none = adapter ++ (":" ++ method)
  key_text adapter method (some params) = adapter ++ (":" ++ (method ++ (":" ++ marshal params)))

  unfoldable pub generate_cache_key : (adapter method : String) → Option P → String
  generate_cache_key adapter method params = hash (key_text adapter method params)

  unfoldable pub key_matches : (key adapter method : String) → Bool
  unfolding generate_cache_key
  key_matches key adapter method = key == generate_cache_key adapter method none

  unfoldable pub key_matches_adapter : (key adapter : String) → Bool
  unfolding generate_cache_key
  key_matches_adapter key adapter =
      let test_key = generate_cache_key adapter "test" none in
      leb (text_len test_key) (text_len key) && take_text (text_len test_key) key == test_key

  unfoldable pub key_matches_method : (key method : String) → Bool
  unfolding generate_cache_key
  key_matches_method key method =
      let test_key = generate_cache_key "adapter1" method none in
      let cut = text_len (generate_cache_key "adapter1" "" none) in
      let suffix1 = drop_text cut test_key in
      let suffix2 = drop_text cut key in
      leb (text_len test_key) (text_len key)
      && leb (text_len suffix1) (text_len suffix2)
      && take_text (text_len suffix1) suffix2 == suffix1

  -- The test of the loop in `Invalidate`.
  unfoldable pub is_invalidated : (adapter method key : String) → Bool
  is_invalidated adapter method key =
      if not (adapter == "") && not (method == "")
      then key_matches key adapter method
      else if not (adapter == "")
      then key_matches_adapter key adapter
      else if not (method == "")
      then key_matches_method key method
      else false

  module _ {D : Type 0} (size : CacheEntry D → ℕ) where
    unfoldable pub get :
        (now duration : ℕ) (adapter method : String) → Option P → McpCache D → McpCache D × Option D
    get now duration adapter method params c =
        get_at now duration (generate_cache_key adapter method params) c

    unfoldable pub set :
        (now : ℕ) (adapter method etag : String) → Option P → Option D → McpCache D → McpCache D
    set now adapter method etag params content c =
        set_at size now (generate_cache_key adapter method params) method etag content c

    unfoldable pub invalidate : (adapter method : String) → McpCache D → McpCache D
    invalidate adapter method c =
        update_metrics size
          (record c { cache = delete_where (λ k _. is_invalidated adapter method k) c.cache })
