-- ===== src/Users/Instances.antt =====
-- `InMemoryUserStore` of pkg/clients/user_group_store.go as an instance of `UserStore`.
use suse_ai_up.Prelude.{
  String, ℕ, Bool, none, some, ◌≡◌, ◌==◌, if◌then◌else◌, Map, lookup, insert, lookup-insert, arith,
  Option-cases, inl, inr, eq_iff, String-cases,
}
use suse_ai_up.Users.{User, Error, ok}
use suse_ai_up.Users.Api.{UserStore}
use suse_ai_up.Users.Laws.{UserLaws}
use suse_ai_up.Users.Memory

-- Two readings of the clock; an operation that reads it once takes the first.
pub record Clock : Type 0 where
  pub first : ℕ
  pub second : ℕ

abbrev pub memory_users : (compare_hash : String → String → Bool) → UserStore
memory_users compare_hash = record {
  State = Map User;
  Call = Clock;
  create = λ c. Memory.create c.first c.second;
  get = Memory.get;
  list = Memory.list;
  update = λ c. Memory.update c.first;
  delete_user = λ _. Memory.delete_user;
  get_by_email = Memory.get_by_email;
  get_by_external_id = Memory.get_by_external_id;
  authenticate = Memory.authenticate compare_hash;
}

-- Every value stands under its own key.
abbrev pub AllFiled : (V : Type 0) → (V → String) → Map V → Type 0
AllFiled V key m = (k : String) (v : V) → lookup k m ≡ some v → key v ≡ k

pub insert-AllFiled :
    (V : Type 0) (key : V → String) (m : Map V) (v : V)
    → AllFiled V key m
    → AllFiled V key (insert (key v) v m)
insert-AllFiled V key m v h k w found = elim (String-cases (key v) k) [
  | inl same ↦ ground (arith, lookup-insert (key v) k v m, eq_iff (key v) k)
  | inr (ne, e) ↦ h k w (ground (arith, lookup-insert (key v) k v m))
]

pub memory_get_update :
    (now : ℕ) (u : User) (s : Map User) (j : String)
    → (Memory.update now u s).1 ≡ none
    → Memory.get j (Memory.update now u s).0
      ≡ (if u.id == j then ok (record u { updated_at = now }) else Memory.get j s)
unfolding Memory.update Memory.get
memory_get_update now u s j h =
    ground (arith, lookup-insert u.id j (record u { updated_at = now }) s)

get-ok : (s : Map User) (id : String) (u : User) → Memory.get id s ≡ ok u → lookup id s ≡ some u
unfolding Memory.get
get-ok s id u h = ground arith

update-AllFiled :
    (now : ℕ) (u : User) (s : Map User)
    → AllFiled User (λ u'. u'.id) s
    → AllFiled User (λ u'. u'.id) (Memory.update now u s).0
unfolding Memory.update
update-AllFiled now u s h = elim (Option-cases (lookup u.id s)) [
  | inl e ↦ rw (e, Memory.update) h
  | inr (v, e) ↦
      rw (e, Memory.update) (insert-AllFiled User (λ u'. u'.id) s (record u { updated_at = now }) h)
]

update_fails :
    (now : ℕ) (u : User) (s : Map User) (e : Error)
    → (Memory.update now u s).1 ≡ some e
    → (Memory.update now u s).0 ≡ s
unfolding Memory.update
update_fails now u s e h = ground arith

pub memory_user_laws :
    (compare_hash : String → String → Bool) → UserLaws (memory_users compare_hash)
memory_user_laws compare_hash = record {
  IsFiled = AllFiled User (λ u. u.id);
  get_filed = λ s id u h e. h id u (get-ok s id u e);
  update_filed = λ c u s h. update-AllFiled c.first u s h;
  update_fails = λ c u s e h. update_fails c.first u s e h;
  get_update = λ c u s h. (c.first, λ j. memory_get_update c.first u s j h);
}

pub AllFiled-memory_user_laws :
    (compare_hash : String → String → Bool) (s : Map User)
    → AllFiled User (λ u. u.id) s
    → (memory_user_laws compare_hash).IsFiled s
unfolding memory_user_laws
AllFiled-memory_user_laws compare_hash s h = h
