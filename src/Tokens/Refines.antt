-- ===== src/Tokens/Refines.antt =====
-- The store in memory of pkg/clients/user_adapter_token_store.go keeps the promise of its
-- interface, for identifiers without the separator of its keys.
use suse_ai_up.Prelude.{
  String, ℕ, ◌==◌, ◌&&◌, List, [], ◌∷◌, none, some, if◌then◌else◌, Map, lookup, insert, delete,
  lookup-insert, lookup-delete, ◌≡◌, refl, ◌∙◌, ap₂, inl, inr, Bool-cases, Option-cases, All,
}
use suse_ai_up.Assignments.{generate_assignment_id}
use suse_ai_up.Assignments.Grants.{Plain, ids-eq}
use suse_ai_up.Tokens.{
  UserAdapterToken, make_key, create_token, get_token, update_token, delete_token, is_expired,
}
use suse_ai_up.Tokens.Pairs.{
  Request, create, update, get, remove, serve, replies, Pairs, nothing, put, promise, promised,
}

-- The identifiers of the call have no ":".
abbrev pub PlainRequest : Request → Type 0
PlainRequest (create t) = Plain t.user_id × Plain t.adapter_id
PlainRequest (update t) = Plain t.user_id × Plain t.adapter_id
PlainRequest (get u a) = Plain u × Plain a
PlainRequest (remove u a) = Plain u × Plain a

-- The map and the function hold the same tokens.
abbrev pub Represents : Map UserAdapterToken → Pairs → Type 0
Represents s p = (u a : String) → Plain u → Plain a → lookup (make_key u a) s ≡ p u a

keys-eq :
    (u a v b : String)
    → Plain u
    → Plain a
    → Plain v
    → Plain b
    → (make_key u a == make_key v b) ≡ (u == v && a == b)
unfolding make_key generate_assignment_id
keys-eq u a v b = ids-eq u a v b

insert-Represents :
    (u a : String) (t : UserAdapterToken) (s : Map UserAdapterToken) (p : Pairs)
    → Plain u
    → Plain a
    → Represents s p
    → Represents (insert (make_key u a) t s) (put u a (some t) p)
insert-Represents u a t s p pu pa h v b pv pb =
    lookup-insert (make_key u a) (make_key v b) t s
    ∙ ap₂ (λ c rest. if c then some t else rest) (keys-eq u a v b pu pa pv pb) (h v b pv pb)

delete-Represents :
    (u a : String) (s : Map UserAdapterToken) (p : Pairs)
    → Plain u
    → Plain a
    → Represents s p
    → Represents (delete (make_key u a) s) (put u a none p)
delete-Represents u a s p pu pa h v b pv pb =
    lookup-delete (make_key u a) (make_key v b) s
    ∙ ap₂ (λ c rest. if c then none else rest) (keys-eq u a v b pu pa pv pb) (h v b pv pb)

-- One call: the same reply, and stores that agree again.
serve-promise :
    (now : ℕ) (r : Request) (s : Map UserAdapterToken) (p : Pairs)
    → PlainRequest r
    → Represents s p
    → ((serve now r s).1 ≡ (promise now r p).1) × Represents (serve now r s).0 (promise now r p).0
unfolding serve promise create_token update_token delete_token get_token
serve-promise now (create t) s p (pu, pa) h = elim (Option-cases (p t.user_id t.adapter_id)) [
  | inl n ↦
      rw (serve, create_token, promise, h t.user_id t.adapter_id pu pa, n)
        (refl, insert-Represents t.user_id t.adapter_id (record t { created_at = now }) s p pu pa h)
  | inr (w, n) ↦ rw (serve, create_token, promise, h t.user_id t.adapter_id pu pa, n) (refl, h)
]
serve-promise now (update t) s p (pu, pa) h = elim (Option-cases (p t.user_id t.adapter_id)) [
  | inl n ↦ rw (serve, update_token, promise, h t.user_id t.adapter_id pu pa, n) (refl, h)
  | inr (w, n) ↦
      rw (serve, update_token, promise, h t.user_id t.adapter_id pu pa, n)
        (refl, insert-Represents t.user_id t.adapter_id t s p pu pa h)
]
serve-promise now (remove u a) s p (pu, pa) h = elim (Option-cases (p u a)) [
  | inl n ↦ rw (serve, delete_token, promise, h u a pu pa, n) (refl, h)
  | inr (w, n) ↦
      rw (serve, delete_token, promise, h u a pu pa, n) (refl, delete-Represents u a s p pu pa h)
]
serve-promise now (get u a) s p (pu, pa) h = elim (Option-cases (p u a)) [
  | inl n ↦ rw (serve, get_token, promise, h u a pu pa, n) (refl, h)
  | inr (t, n) ↦ elim (Bool-cases (is_expired now t)) [
    | inl e ↦ rw (serve, get_token, promise, h u a pu pa, n, e) (refl, h)
    | inr e ↦ rw (serve, get_token, promise, h u a pu pa, n, e) (refl, h)
  ]
]

replies-promised :
    (rs : List (ℕ × Request)) (s : Map UserAdapterToken) (p : Pairs)
    → All (λ r. PlainRequest r.1) rs
    → Represents s p
    → replies rs s ≡ promised rs p
unfolding replies promised
replies-promised [] s p plain h = refl
replies-promised ((now, r) ∷ rs) s p (plain, others) h =
    let (same, after) = serve-promise now r s p plain h in
    ap₂ (λ x xs. x ∷ xs) same
      (replies-promised rs (serve now r s).0 (promise now r p).0 others after)

-- From an empty store, the replies to any sequence of `CreateToken`, `UpdateToken`, `DeleteToken`
-- and `GetToken`, at any times, are those of a store that holds one token for each pair of a user
-- and an adapter, when no identifier has a ":".
pub replies-refine :
    (rs : List (ℕ × Request)) → All (λ r. PlainRequest r.1) rs → replies rs [] ≡ promised rs nothing
unfolding lookup
replies-refine rs plain = replies-promised rs [] nothing plain (λ u a pu pa. refl)
