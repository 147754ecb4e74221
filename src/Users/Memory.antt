-- ===== src/Users/Memory.antt =====
-- `InMemoryUserStore` of pkg/clients/user_group_store.go. An operation that writes returns the new
-- map beside its `error`, `none` for nil.
use suse_ai_up.Prelude.{
  String, ℕ, Bool, not, ◌==◌, ◌&&◌, List, [], ◌∷◌, Option, none, some, if◌then◌else◌, Map, lookup,
  insert, delete, values,
}
use suse_ai_up.Users.{
  User, Error, already_exists, not_found, external_authentication, password_not_set,
  invalid_password, Result, ok, err,
}

unfoldable pub create : (created updated : ℕ) → User → Map User → Map User × Option Error
create created updated user s = elim (lookup user.id s) [
  | some _ ↦ (s, some (already_exists user.id))
  | none ↦ (insert user.id (record user { created_at = created; updated_at = updated }) s, none)
]

unfoldable pub get : String → Map User → Result User
get id s = elim (lookup id s) [ some user ↦ ok user | none ↦ err (not_found id) ]

unfoldable pub list : Map User → List User
list s = values s

unfoldable pub update : (now : ℕ) → User → Map User → Map User × Option Error
update now user s = elim (lookup user.id s) [
  | none ↦ (s, some (not_found user.id))
  | some _ ↦ (insert user.id (record user { updated_at = now }) s, none)
]

unfoldable pub delete_user : User → Map User → Map User × Option Error
delete_user user s = elim (lookup user.id s) [
  | none ↦ (s, some (not_found user.id))
  | some _ ↦ (delete user.id s, none)
]

-- The loop of `GetByEmail` and of `GetByExternalID`: the first user that the map's order meets.
unfoldable pub first_user : (User → Bool) → String → List User → Result User
first_user p key [] = err (not_found key)
first_user p key (u ∷ us) = if p u then ok u else first_user p key us

unfoldable pub get_by_email : String → Map User → Result User
get_by_email email s = first_user (λ u. u.email == email) email (values s)

unfoldable pub get_by_external_id : (provider external_id : String) → Map User → Result User
get_by_external_id provider external_id s =
    first_user (λ u. u.auth_provider == provider && u.external_id == external_id) external_id
      (values s)

-- `bcrypt.CompareHashAndPassword` is a parameter.
unfoldable pub authenticate :
    (compare_hash : String → String → Bool) (id password : String) → Map User → Result User
authenticate compare_hash id password s = elim (lookup id s) [
  | none ↦ err (not_found id)
  | some user ↦
      if not (user.auth_provider == "local")
      then err external_authentication
      else if user.password_hash == ""
      then err password_not_set
      else if compare_hash user.password_hash password
      then ok user
      else err invalid_password
]
