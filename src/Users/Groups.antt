-- ===== src/Users/Groups.antt =====
-- `InMemoryGroupStore` of pkg/clients/user_group_store.go.
use suse_ai_up.Prelude.{
  String, ℕ, List, [], ◌∷◌, ◌++◌, Option, none, some, if◌then◌else◌, Map, lookup, insert, delete,
  values, contains, remove_first,
}
use suse_ai_up.Users.{
  Group, Error, already_exists, not_found, already_member, not_member, Result, ok, err,
}

unfoldable pub create : (created updated : ℕ) → Group → Map Group → Map Group × Option Error
create created updated group s = elim (lookup group.id s) [
  | some _ ↦ (s, some (already_exists group.id))
  | none ↦ (insert group.id (record group { created_at = created; updated_at = updated }) s, none)
]

unfoldable pub get : String → Map Group → Result Group
get id s = elim (lookup id s) [ some group ↦ ok group | none ↦ err (not_found id) ]

unfoldable pub list : Map Group → List Group
list s = values s

unfoldable pub update : (now : ℕ) → Group → Map Group → Map Group × Option Error
update now group s = elim (lookup group.id s) [
  | none ↦ (s, some (not_found group.id))
  | some _ ↦ (insert group.id (record group { updated_at = now }) s, none)
]

unfoldable pub delete_group : String → Map Group → Map Group × Option Error
delete_group id s = elim (lookup id s) [
  | none ↦ (s, some (not_found id))
  | some _ ↦ (delete id s, none)
]

unfoldable pub add_member :
    (now : ℕ) (group_id user_id : String) → Map Group → Map Group × Option Error
add_member now group_id user_id s = elim (lookup group_id s) [
  | none ↦ (s, some (not_found group_id))
  | some group ↦
      if contains user_id group.members then (s, some (already_member user_id group_id)) else (
        insert group_id (record group { members = group.members ++ user_id ∷ []; updated_at = now })
            s,
        none,
      )
]

unfoldable pub remove_member :
    (now : ℕ) (group_id user_id : String) → Map Group → Map Group × Option Error
remove_member now group_id user_id s = elim (lookup group_id s) [
  | none ↦ (s, some (not_found group_id))
  | some group ↦
      if contains user_id group.members
      then (
        insert group_id
            (record group { members = remove_first user_id group.members; updated_at = now }) s,
        none,
      )
      else (s, some (not_member user_id group_id))
]
