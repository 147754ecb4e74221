-- ===== src/Access/Removal.antt =====
-- `RemoveUserFromGroup` of pkg/services/user_group.go and the two sides of membership.
use mathlib.Core.Path.{fun_ext}
use suse_ai_up.Prelude.{
  String, true, List, Option, none, ◌≡◌, contains, remove_first, Option-cases, inl, inr, arith, ap,
}
use suse_ai_up.Users.{Group, ok, Result-cases}
use suse_ai_up.Users.Api.{UserStore, GroupStore}
use suse_ai_up.Users.Laws.{UserLaws, GroupLaws}
use suse_ai_up.Access.Members.{remove_group_from_user, remove_user_from_group}
use suse_ai_up.Access.Linked.{
  groups_of, members_of, put, relink-AreLinked, unlink-Relinks, unlink_missing,
}
use suse_ai_up.Access.Preserves
use suse_ai_up.Access.Preserves.{remove_member-members_in, update-groups_in, listed}

module _ (us : UserStore) (gs : GroupStore) (ul : UserLaws us) (gl : GroupLaws gs) where
  abbrev groups_in : us.State → String → Option (List String)
  groups_in = Preserves.groups_in us gs ul gl

  abbrev members_in : gs.State → String → Option (List String)
  members_in = Preserves.members_in us gs ul gl

  abbrev IsLinked : us.State → gs.State → Type 0
  IsLinked = Preserves.IsLinked us gs ul gl

  module _ (gid uid : String) (u : us.State) (g : gs.State) (filed : ul.IsFiled u)
      (h : IsLinked u g) where
    remove_group_from_user-IsLinked :
        (save : us.Call) (g' : gs.State) (group : Group)
        → gs.get gid g ≡ ok group
        → contains uid group.members ≡ true
        → ((j : String)
            → members_in g' j ≡ put gid (remove_first uid group.members) (members_in g) j)
        → (remove_group_from_user us gs save gid uid u g').2 ≡ none
        → IsLinked
            (remove_group_from_user us gs save gid uid u g').0
            (remove_group_from_user us gs save gid uid u g').1
    unfolding remove_group_from_user
    remove_group_from_user-IsLinked save g' group fg member after done =
        elim (Result-cases (us.get uid u)) [
          | inr (missing, p) ↦
              rw (p, remove_group_from_user, fun_ext after)
                (unlink_missing (groups_in u) (members_in g) uid gid group.members h
                  (ap groups_of p) (ap members_of fg))
          | inl (user, p) ↦
              let c = listed us gs ul gl gid uid u g filed h user group p fg member in
              elim (Option-cases
                (us.update save (record user { groups = remove_first gid user.groups }) u).1) [
                  | inr (failed, q) ↦ absurd (ground arith)
                  | inl q ↦
                      let hu = ap groups_of p in
                      let hg = ap members_of fg in
                      let dg = h.distinct_groups uid user.groups hu in
                      let du = h.distinct_members gid group.members hg in
                      let now =
                        update-groups_in us gs ul gl save uid u user (remove_first gid user.groups)
                          (ul.get_filed u uid user filed p) q in
                      rw (p, remove_group_from_user, c, q, fun_ext now, fun_ext after)
                        (relink-AreLinked (groups_in u) (members_in g) h uid gid user.groups
                          group.members (remove_first gid user.groups)
                          (remove_first uid group.members) hu hg
                          (unlink-Relinks uid gid user.groups group.members dg du))
                ]
        ]

    -- In stores with the laws of Users.Laws, with users stored under their own IDs: when
    -- `RemoveUserFromGroup` reports no error, on lists in which every user lists a group exactly
    -- if that group lists the user, without repetitions, then so it is afterwards.
    pub remove_user_from_group-IsLinked :
        (remove : gs.Call) (save : us.Call)
        → (remove_user_from_group us gs remove save gid uid u g).2 ≡ none
        → IsLinked
            (remove_user_from_group us gs remove save gid uid u g).0
            (remove_user_from_group us gs remove save gid uid u g).1
    unfolding remove_user_from_group
    remove_user_from_group-IsLinked remove save done =
        elim (Option-cases (gs.remove_member remove gid uid g).1) [
          | inr (failed, q) ↦ absurd (ground arith)
          | inl q ↦
              let (group, fg, member) = gl.remove_member_was remove gid uid g q in
              let after = remove_member-members_in us gs ul gl remove gid uid g group fg member in
              rw (q, remove_user_from_group)
                (remove_group_from_user-IsLinked save (gs.remove_member remove gid uid g).0 group fg
                  member after (rw (q, remove_user_from_group) at done))
        ]
