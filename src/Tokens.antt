-- ===== src/Tokens.antt =====
-- The tokens that users hold for adapters: `UserAdapterToken` of pkg/models/user_adapter_token.go
-- and the two stores of pkg/clients/user_adapter_token_store.go. The clock is a parameter of an
-- operation that reads it, in seconds.
pub mod Files
pub mod Pairs
pub mod Refines
pub mod Values
use Prim.Native.String.{◌++◌}
use suse_ai_up.Prelude.{
  ◌⊎◌, inl, inr, String, ℕ, Bool, false, ◌==◌, List, [], ◌∷◌, Option, none, some, Map, lookup,
  insert, delete, values, keep, ltb, if◌then◌else◌,
}

pub record UserAdapterToken : Type 0 where
  pub user_id : String
  pub adapter_id : String
  pub token : String
  pub created_at : ℕ
  pub expires_at : Option ℕ
  pub last_used_at : Option ℕ

pub data TokenError : Type 0 where
  already_exists not_found expired : (user_id adapter_id : String) → TokenError
  value_expired value_not_found : TokenError
  -- `saveToFile` failed at one of its steps
  save_failed : TokenError

unfoldable pub is_expired : ℕ → UserAdapterToken → Bool
is_expired now t = elim t.expires_at [ none ↦ false | some expires ↦ ltb expires now ]

unfoldable pub update_last_used : ℕ → UserAdapterToken → UserAdapterToken
update_last_used now t = record t { last_used_at = some now }

unfoldable pub make_key : (user_id adapter_id : String) → String
make_key user_id adapter_id = user_id ++ (":" ++ adapter_id)

unfoldable pub create_token :
    ℕ → UserAdapterToken → Map UserAdapterToken → Map UserAdapterToken × Option TokenError
create_token now t s = elim (lookup (make_key t.user_id t.adapter_id) s) [
  | some _ ↦ (s, some (already_exists t.user_id t.adapter_id))
  | none ↦ (insert (make_key t.user_id t.adapter_id) (record t { created_at = now }) s, none)
]

unfoldable pub get_token :
    ℕ → (user_id adapter_id : String) → Map UserAdapterToken → UserAdapterToken ⊎ TokenError
get_token now user_id adapter_id s = elim (lookup (make_key user_id adapter_id) s) [
  | none ↦ inr (not_found user_id adapter_id)
  | some t ↦ if is_expired now t then inr (expired user_id adapter_id) else inl t
]

-- The loop of `GetTokenByValue`, which ends at the first token with the value.
unfoldable pub first_value : ℕ → String → List UserAdapterToken → UserAdapterToken ⊎ TokenError
first_value now value [] = inr value_not_found
first_value now value (t ∷ ts) =
    let rest = first_value now value ts in
    if t.token == value then (if is_expired now t then inr value_expired else inl t) else rest

unfoldable pub get_token_by_value :
    ℕ → String → Map UserAdapterToken → UserAdapterToken ⊎ TokenError
get_token_by_value now value s = first_value now value (values s)

unfoldable pub delete_token :
    (user_id adapter_id : String) → Map UserAdapterToken → Map UserAdapterToken × Option TokenError
delete_token user_id adapter_id s = elim (lookup (make_key user_id adapter_id) s) [
  | none ↦ (s, some (not_found user_id adapter_id))
  | some _ ↦ (delete (make_key user_id adapter_id) s, none)
]

unfoldable pub list_user_tokens : String → Map UserAdapterToken → List UserAdapterToken
list_user_tokens user_id s = keep (λ t. t.user_id == user_id) (values s)

unfoldable pub list_adapter_tokens : String → Map UserAdapterToken → List UserAdapterToken
list_adapter_tokens adapter_id s = keep (λ t. t.adapter_id == adapter_id) (values s)

unfoldable pub update_token :
    UserAdapterToken → Map UserAdapterToken → Map UserAdapterToken × Option TokenError
update_token t s = elim (lookup (make_key t.user_id t.adapter_id) s) [
  | none ↦ (s, some (not_found t.user_id t.adapter_id))
  | some _ ↦ (insert (make_key t.user_id t.adapter_id) t s, none)
]
