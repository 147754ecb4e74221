-- ===== src/Tests/Access.antt =====
-- Membership in pkg/services/user_group.go over the stores in memory.
use suse_ai_up.Prelude.{
  String, List, [], ◌∷◌, none, some, ◌≡◌, inl, inr, refl, Map, lookup, String-cases, arith, eq_iff,
  insert,
}
use suse_ai_up.Users.{User, Group, not_found, wrapped}
use suse_ai_up.Users.Instances.{memory_user_laws, AllFiled, AllFiled-memory_user_laws}
use suse_ai_up.Users.GroupInstances.{memory_groups, memory_group_laws}
use suse_ai_up.Users.Memory
use suse_ai_up.Users.Groups
use suse_ai_up.Access.Members.{
  add_user_to_group, remove_user_from_group, add_group_to_user, remove_group_from_user, roll_back,
}
use suse_ai_up.Access.Linked.{groups_of, members_of}
use suse_ai_up.Access.Atomic.{Unchanged, add_user_to_group-Unchanged}
use suse_ai_up.Access.Preserves.{
  IsLinked, Added, add_user_to_group-Added, add_user_to_group-IsLinked,
}
use suse_ai_up.Access.Removal.{remove_user_from_group-IsLinked}
use suse_ai_up.Tests.People.{no_login, people, person, team, noon, ann_only, devs_only}

-- One user without groups and one group without members are linked.
get_ann : (j : String) (gs : List String) → groups_of (Memory.get j ann_only) ≡ some gs → [] ≡ gs
unfolding Memory.get lookup
get_ann j gs e = elim (String-cases "ann" j) [
  | inl s ↦ ground (arith, eq_iff "ann" j)
  | inr (n, s) ↦ ground arith
]

get_devs : (j : String) (us : List String) → members_of (Groups.get j devs_only) ≡ some us → [] ≡ us
unfolding Groups.get lookup
get_devs j us e = elim (String-cases "devs" j) [
  | inl s ↦ ground (arith, eq_iff "devs" j)
  | inr (n, s) ↦ ground arith
]

start-IsLinked :
    IsLinked people memory_groups (memory_user_laws no_login) memory_group_laws ann_only devs_only
start-IsLinked = record {
  linked = λ uid gid gs us e f.
      rw (← get_ann uid gs e, ← get_devs gid us f) ((λ i. absurd i), (λ i. absurd i));
  distinct_groups = λ uid gs e. rw (← get_ann uid gs e) tt;
  distinct_members = λ gid us e. rw (← get_devs gid us e) tt;
}

ann_only-AllFiled : AllFiled User (λ u. u.id) ann_only
unfolding lookup
ann_only-AllFiled k v e = elim (String-cases "ann" k) [
  | inl s ↦ ground (arith, eq_iff "ann" k)
  | inr (n, s) ↦ ground arith
]

ann_only-filed : (memory_user_laws no_login).IsFiled ann_only
ann_only-filed = AllFiled-memory_user_laws no_login ann_only ann_only-AllFiled

-- Adding a user who does not exist fails, and changes nothing.
add_nobody :
    (add_user_to_group people memory_groups noon noon noon "devs" "zoe" ann_only devs_only).2
    ≡ some (wrapped "failed to get user for group update" (not_found "zoe"))
unfolding add_user_to_group add_group_to_user roll_back Groups.add_member Groups.remove_member
    Memory.get lookup insert
add_nobody = refl

add_user_to_group-Unchanged_example :
    Unchanged people memory_groups
      (memory_user_laws no_login)
      memory_group_laws
      ann_only
      devs_only
      (add_user_to_group people memory_groups noon noon noon "devs" "zoe" ann_only devs_only).0
      (add_user_to_group people memory_groups noon noon noon "devs" "zoe" ann_only devs_only).1
add_user_to_group-Unchanged_example =
    add_user_to_group-Unchanged people memory_groups (memory_user_laws no_login) memory_group_laws
      noon noon noon "devs" "zoe" ann_only devs_only
      (wrapped "failed to get user for group update" (not_found "zoe")) add_nobody

-- Adding Ann to the developers succeeds.
add_ann :
    (add_user_to_group people memory_groups noon noon noon "devs" "ann" ann_only devs_only).2 ≡ none
unfolding add_user_to_group add_group_to_user Groups.add_member Memory.get Memory.update lookup
    insert
add_ann = refl

add_user_to_group-Added_example :
    Added people memory_groups
      (memory_user_laws no_login)
      memory_group_laws
      "devs"
      "ann"
      ann_only
      devs_only
      ann_only-filed
      start-IsLinked
      (add_user_to_group people memory_groups noon noon noon "devs" "ann" ann_only devs_only).0
      (add_user_to_group people memory_groups noon noon noon "devs" "ann" ann_only devs_only).1
add_user_to_group-Added_example =
    add_user_to_group-Added people memory_groups (memory_user_laws no_login) memory_group_laws
      "devs" "ann" ann_only devs_only ann_only-filed start-IsLinked noon noon noon add_ann

add_user_to_group-IsLinked_example :
    IsLinked people memory_groups
      (memory_user_laws no_login)
      memory_group_laws
      (add_user_to_group people memory_groups noon noon noon "devs" "ann" ann_only devs_only).0
      (add_user_to_group people memory_groups noon noon noon "devs" "ann" ann_only devs_only).1
add_user_to_group-IsLinked_example =
    add_user_to_group-IsLinked people memory_groups (memory_user_laws no_login) memory_group_laws
      "devs" "ann" ann_only devs_only ann_only-filed start-IsLinked noon noon noon

-- The stores with Ann among the developers, as `add_user_to_group` leaves them.
abbrev ann_in : Map User
ann_in = ("ann", record (person "ann" ("devs" ∷ [])) { updated_at = 12 }) ∷ []

abbrev devs_with : Map Group
devs_with = ("devs", record (team "devs" ("ann" ∷ []) ("server:*" ∷ [])) { updated_at = 12 }) ∷ []

joined-IsLinked :
    IsLinked people memory_groups (memory_user_laws no_login) memory_group_laws ann_in devs_with
unfolding add_user_to_group add_group_to_user Groups.add_member Memory.get Memory.update lookup
    insert
joined-IsLinked =
    add_user_to_group-IsLinked people memory_groups (memory_user_laws no_login) memory_group_laws
      "devs" "ann" ann_only devs_only ann_only-filed start-IsLinked noon noon noon

ann_in-AllFiled : AllFiled User (λ u. u.id) ann_in
unfolding lookup
ann_in-AllFiled k v e = elim (String-cases "ann" k) [
  | inl s ↦ ground (arith, eq_iff "ann" k)
  | inr (n, s) ↦ ground arith
]

ann_in-filed : (memory_user_laws no_login).IsFiled ann_in
ann_in-filed = AllFiled-memory_user_laws no_login ann_in ann_in-AllFiled

remove_ann :
    (remove_user_from_group people memory_groups noon noon "devs" "ann" ann_in devs_with).2 ≡ none
unfolding remove_user_from_group remove_group_from_user Groups.remove_member Memory.get
    Memory.update lookup insert
remove_ann = refl

remove_user_from_group-IsLinked_example :
    IsLinked people memory_groups
      (memory_user_laws no_login)
      memory_group_laws
      (remove_user_from_group people memory_groups noon noon "devs" "ann" ann_in devs_with).0
      (remove_user_from_group people memory_groups noon noon "devs" "ann" ann_in devs_with).1
remove_user_from_group-IsLinked_example =
    remove_user_from_group-IsLinked people memory_groups (memory_user_laws no_login)
      memory_group_laws "devs" "ann" ann_in devs_with ann_in-filed joined-IsLinked noon noon
      remove_ann
