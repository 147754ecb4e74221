-- ===== src/Access/Members.antt =====
-- Membership in `UserGroupService` of pkg/services/user_group.go: the user's side and the group's
-- side are written one after the other.
use suse_ai_up.Prelude.{
  String, List, [], ◌∷◌, ◌++◌, Option, none, some, if◌then◌else◌, contains, remove_first,
}
use suse_ai_up.Users.{User, Group, Error, wrapped, Result, ok, err}
use suse_ai_up.Users.Api.{UserStore, GroupStore}

module _ (us : UserStore) (gs : GroupStore) where
  -- Both stores, and the `error` of a method.
  abbrev pub Outcome : Type 0
  Outcome = us.State × gs.State × Option Error

  -- The rollback: the error of `RemoveMember` is dropped.
  unfoldable pub roll_back :
      gs.Call → (group_id user_id : String) → us.State → gs.State → Error → Outcome
  roll_back undo group_id user_id u g e = (u, (gs.remove_member undo group_id user_id g).0, some e)

  -- The part of `AddUserToGroup` after `AddMember` succeeded.
  unfoldable pub add_group_to_user :
      us.Call → gs.Call → (group_id user_id : String) → us.State → gs.State → Outcome
  add_group_to_user save undo group_id user_id u g = elim (us.get user_id u) [
    | err e ↦ roll_back undo group_id user_id u g (wrapped "failed to get user for group update" e)
    | ok user ↦
        if contains group_id user.groups
        then (u, g, none)
        else let (u', failed) =
            us.update save (record user { groups = user.groups ++ group_id ∷ [] }) u in
          elim failed [
            | some e ↦
                roll_back undo group_id user_id u' g (wrapped "failed to update user groups" e)
            | none ↦ (u', g, none)
          ]
  ]

  unfoldable pub add_user_to_group :
      gs.Call → us.Call → gs.Call → (group_id user_id : String) → us.State → gs.State → Outcome
  add_user_to_group add save undo group_id user_id u g =
      let (g', failed) = gs.add_member add group_id user_id g in
      elim failed [
        | some e ↦ (u, g', some e)
        | none ↦ add_group_to_user save undo group_id user_id u g'
      ]

  -- The part of `RemoveUserFromGroup` after `RemoveMember` succeeded.
  unfoldable pub remove_group_from_user :
      us.Call → (group_id user_id : String) → us.State → gs.State → Outcome
  remove_group_from_user save group_id user_id u g = elim (us.get user_id u) [
    | err _ ↦ (u, g, none)
    | ok user ↦
        if contains group_id user.groups
        then (let (u', failed) =
              us.update save (record user { groups = remove_first group_id user.groups }) u in
            elim failed [
              | some e ↦ (u', g, some (wrapped "failed to update user groups" e))
              | none ↦ (u', g, none)
            ])
        else (u, g, none)
  ]

  unfoldable pub remove_user_from_group :
      gs.Call → us.Call → (group_id user_id : String) → us.State → gs.State → Outcome
  remove_user_from_group remove save group_id user_id u g =
      let (g', failed) = gs.remove_member remove group_id user_id g in
      elim failed [
        | some e ↦ (u, g', some e)
        | none ↦ remove_group_from_user save group_id user_id u g'
      ]

  unfoldable pub delete_user : us.Call → String → us.State → us.State × Option Error
  delete_user call id u = elim (us.get id u) [
    | err e ↦ (u, some e)
    | ok user ↦ us.delete_user call user u
  ]

  -- The groups that are found, in the user's order.
  unfoldable pub found_groups : gs.State → List String → List Group
  found_groups g [] = []
  found_groups g (id ∷ ids) =
      let rest = found_groups g ids in elim (gs.get id g) [ ok group ↦ group ∷ rest | err _ ↦ rest ]

  unfoldable pub get_user_groups : String → us.State → gs.State → Result (List Group)
  get_user_groups user_id u g = elim (us.get user_id u) [
    | err e ↦ err (wrapped "failed to get user" e)
    | ok user ↦ ok (found_groups g user.groups)
  ]

  unfoldable pub found_users : us.State → List String → List User
  found_users u [] = []
  found_users u (id ∷ ids) =
      let rest = found_users u ids in elim (us.get id u) [ ok user ↦ user ∷ rest | err _ ↦ rest ]

  unfoldable pub get_group_members : String → us.State → gs.State → Result (List User)
  get_group_members group_id u g = elim (gs.get group_id g) [
    | err e ↦ err (wrapped "failed to get group" e)
    | ok group ↦ ok (found_users u group.members)
  ]
