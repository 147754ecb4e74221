-- ===== src/Tokens/Pairs.antt =====
-- The promise of the interface `UserAdapterTokenStore` of pkg/clients/user_adapter_token_store.go:
-- at most one token for each pair of a user and an adapter, as a function of the pair.
use suse_ai_up.Prelude.{
  String, ℕ, ◌==◌, ◌&&◌, List, [], ◌∷◌, Option, none, some, if◌then◌else◌, Map, inl, inr,
}
use suse_ai_up.Tokens.{
  UserAdapterToken, TokenError, already_exists, not_found, expired, is_expired, create_token,
  get_token, update_token, delete_token,
}

-- The calls of the interface that name a pair.
pub data Request : Type 0 where
  create update : UserAdapterToken → Request
  get remove : (user_id adapter_id : String) → Request

pub data Reply : Type 0 where
  done : Reply
  failed : TokenError → Reply
  found : UserAdapterToken → Reply

abbrev pub reply_of : Option TokenError → Reply
reply_of none = done
reply_of (some e) = failed e

-- A call of the store, at a time.
unfoldable pub serve : ℕ → Request → Map UserAdapterToken → Map UserAdapterToken × Reply
serve now (create t) s = let (after, e) = create_token now t s in (after, reply_of e)
serve now (update t) s = let (after, e) = update_token t s in (after, reply_of e)
serve now (remove u a) s = let (after, e) = delete_token u a s in (after, reply_of e)
serve now (get u a) s = (s, elim (get_token now u a s) [ inl t ↦ found t | inr e ↦ failed e ])

unfoldable pub replies : List (ℕ × Request) → Map UserAdapterToken → List Reply
replies [] s = []
replies ((now, r) ∷ rs) s = let (after, reply) = serve now r s in reply ∷ replies rs after

-- The abstract store.
abbrev pub Pairs : Type 0
Pairs = (user_id adapter_id : String) → Option UserAdapterToken

abbrev pub nothing : Pairs
nothing u a = none

-- The value at one pair is set.
abbrev pub put : (user_id adapter_id : String) → Option UserAdapterToken → Pairs → Pairs
put u a new p v b = if u == v && a == b then new else p v b

unfoldable pub promise : ℕ → Request → Pairs → Pairs × Reply
promise now (create t) p = elim (p t.user_id t.adapter_id) [
  | some _ ↦ (p, failed (already_exists t.user_id t.adapter_id))
  | none ↦ (put t.user_id t.adapter_id (some (record t { created_at = now })) p, done)
]
promise now (update t) p = elim (p t.user_id t.adapter_id) [
  | none ↦ (p, failed (not_found t.user_id t.adapter_id))
  | some _ ↦ (put t.user_id t.adapter_id (some t) p, done)
]
promise now (remove u a) p = elim (p u a) [
  | none ↦ (p, failed (not_found u a))
  | some _ ↦ (put u a none p, done)
]
promise now (get u a) p = elim (p u a) [
  | none ↦ (p, failed (not_found u a))
  | some t ↦ (p, if is_expired now t then failed (expired u a) else found t)
]

unfoldable pub promised : List (ℕ × Request) → Pairs → List Reply
promised [] p = []
promised ((now, r) ∷ rs) p = let (after, reply) = promise now r p in reply ∷ promised rs after
