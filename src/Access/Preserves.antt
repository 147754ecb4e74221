-- ===== src/Access/Preserves.antt =====
-- `AddUserToGroup` of pkg/services/user_group.go and the two sides of membership.
use mathlib.Core.Path.{fun_ext}
use suse_ai_up.Prelude.{
  String, true, false, List, [], ◌∷◌, ◌++◌, Option, none, ◌≡◌, contains, contains-In, In-contains,
  remove_first, Bool-cases, Option-cases, inl, inr, arith, refl, ap,
}
use suse_ai_up.Users.{User, Group, Result, ok, err, Result-cases}
use suse_ai_up.Users.Api.{UserStore, GroupStore}
use suse_ai_up.Users.Laws.{UserLaws, GroupLaws}
use suse_ai_up.Access.Members.{roll_back, add_group_to_user, add_user_to_group}
use suse_ai_up.Access.Atomic.{untimed, Unchanged, add_user_to_group-Unchanged}
use suse_ai_up.Access.Linked.{groups_of, members_of, AreLinked, put, relink-AreLinked, link-Relinks}

members_of-untimed : (r q : Result Group) → untimed r ≡ untimed q → members_of r ≡ members_of q
members_of-untimed (ok g) (ok h) e = ground arith
members_of-untimed (err g) (err h) e = refl
members_of-untimed (ok g) (err h) e = cc
members_of-untimed (err g) (ok h) e = cc

module _ (us : UserStore) (gs : GroupStore) (ul : UserLaws us) (gl : GroupLaws gs) where
  abbrev pub groups_in : us.State → String → Option (List String)
  groups_in u j = groups_of (us.get j u)

  abbrev pub members_in : gs.State → String → Option (List String)
  members_in g j = members_of (gs.get j g)

  -- The stored lists agree.
  abbrev pub IsLinked : us.State → gs.State → Type 0
  IsLinked u g = AreLinked (groups_in u) (members_in g)

  Unchanged-IsLinked :
      (u u' : us.State) (g g' : gs.State)
      → Unchanged us gs ul gl u g u' g'
      → IsLinked u g
      → IsLinked u' g'
  Unchanged-IsLinked u u' g g' (same_u, same_g) h =
      let eu : groups_in u' ≡ groups_in u = fun_ext (λ j. ap groups_of (same_u j)) in
      let eg : members_in g' ≡ members_in g =
        fun_ext (λ j. members_of-untimed (gs.get j g') (gs.get j g) (same_g j)) in
      rw (eu, eg) h

  add_member-members_in :
      (c : gs.Call) (gid uid : String) (g : gs.State) (group : Group)
      → gs.get gid g ≡ ok group
      → contains uid group.members ≡ false
      → (j : String)
      → members_in (gs.add_member c gid uid g).0 j
        ≡ put gid (group.members ++ uid ∷ []) (members_in g) j
  add_member-members_in c gid uid g group found fresh j =
      let (t, after) = gl.get-add_member c gid uid g group found fresh in ground (arith, after j)

  pub remove_member-members_in :
      (c : gs.Call) (gid uid : String) (g : gs.State) (group : Group)
      → gs.get gid g ≡ ok group
      → contains uid group.members ≡ true
      → (j : String)
      → members_in (gs.remove_member c gid uid g).0 j
        ≡ put gid (remove_first uid group.members) (members_in g) j
  remove_member-members_in c gid uid g group found listed j =
      let (t, after) = gl.get-remove_member c gid uid g group found listed in
      ground (arith, after j)

  pub update-groups_in :
      (c : us.Call) (uid : String) (u : us.State) (user : User) (list : List String)
      → user.id ≡ uid
      → (us.update c (record user { groups = list }) u).1 ≡ none
      → (j : String)
      → groups_in (us.update c (record user { groups = list }) u).0 j ≡ put uid list (groups_in u) j
  update-groups_in c uid u user list same done j =
      let (t, after) = ul.get_update c (record user { groups = list }) u done in
      ground (arith, after j)

  module _ (gid uid : String) (u : us.State) (g : gs.State) (filed : ul.IsFiled u)
      (h : IsLinked u g) where
    -- On linked lists, a user that is no member yet does not list the group.
    not_listed :
        (user : User) (group : Group)
        → us.get uid u ≡ ok user
        → gs.get gid g ≡ ok group
        → contains uid group.members ≡ false
        → contains gid user.groups ≡ false
    not_listed user group fu fg fresh = elim (Bool-cases (contains gid user.groups)) [
      | inr no_group ↦ no_group
      | inl listed ↦
          let member =
            (h.linked uid gid user.groups group.members (ap groups_of fu) (ap members_of fg)).0
              (contains-In gid user.groups listed) in
          let found = In-contains uid group.members member in absurd (ground arith)
    ]

    pub listed :
        (user : User) (group : Group)
        → us.get uid u ≡ ok user
        → gs.get gid g ≡ ok group
        → contains uid group.members ≡ true
        → contains gid user.groups ≡ true
    listed user group fu fg member = In-contains gid user.groups (
        (h.linked uid gid user.groups group.members (ap groups_of fu) (ap members_of fg)).1
          (contains-In uid group.members member))

    -- What `AddUserToGroup` did when it reports no error.
    pub record Added (u' : us.State) (g' : gs.State) : Type 0 where
      pub user : User
      pub group : Group
      pub found_user : us.get uid u ≡ ok user
      pub found_group : gs.get gid g ≡ ok group
      pub new_member : contains uid group.members ≡ false
      pub new_group : contains gid user.groups ≡ false
      pub groups_after :
          (j : String) → groups_in u' j ≡ put uid (user.groups ++ gid ∷ []) (groups_in u) j
      pub members_after :
          (j : String) → members_in g' j ≡ put gid (group.members ++ uid ∷ []) (members_in g) j

    add_group_to_user-Added :
        (save : us.Call) (undo : gs.Call) (g' : gs.State) (group : Group)
        → gs.get gid g ≡ ok group
        → contains uid group.members ≡ false
        → ((j : String) → members_in g' j ≡ put gid (group.members ++ uid ∷ []) (members_in g) j)
        → (add_group_to_user us gs save undo gid uid u g').2 ≡ none
        → Added
            (add_group_to_user us gs save undo gid uid u g').0
            (add_group_to_user us gs save undo gid uid u g').1
    unfolding add_group_to_user roll_back
    add_group_to_user-Added save undo g' group fg fresh after done =
        elim (Result-cases (us.get uid u)) [
          | inr (missing, p) ↦ absurd (ground arith)
          | inl (user, p) ↦
              let c = not_listed user group p fg fresh in
              elim (Option-cases
                (us.update save (record user { groups = user.groups ++ gid ∷ [] }) u).1) [
                  | inr (failed, q) ↦ absurd (ground arith)
                  | inl q ↦
                      rw (p, add_group_to_user, c, q)
                        (record {
                          user = user;
                          group = group;
                          found_user = p;
                          found_group = fg;
                          new_member = fresh;
                          new_group = c;
                          groups_after =
                              update-groups_in save uid u user (user.groups ++ gid ∷ [])
                                (ul.get_filed u uid user filed p) q;
                          members_after = after;
                        })
                ]
        ]

    -- In stores with the laws of Users.Laws, with users stored under their own IDs: when
    -- `AddUserToGroup` reports no error, on linked lists, the user and the group were found,
    -- neither listed the other, and now each lists the other at the end; every other list of
    -- groups and of members is as before.
    pub add_user_to_group-Added :
        (add : gs.Call) (save : us.Call) (undo : gs.Call)
        → (add_user_to_group us gs add save undo gid uid u g).2 ≡ none
        → Added
            (add_user_to_group us gs add save undo gid uid u g).0
            (add_user_to_group us gs add save undo gid uid u g).1
    unfolding add_user_to_group
    add_user_to_group-Added add save undo done =
        elim (Option-cases (gs.add_member add gid uid g).1) [
          | inr (failed, q) ↦ absurd (ground arith)
          | inl q ↦
              let (group, fg, fresh) = gl.add_member_was add gid uid g q in
              let after = add_member-members_in add gid uid g group fg fresh in
              rw (q, add_user_to_group)
                (add_group_to_user-Added save undo (gs.add_member add gid uid g).0 group fg fresh
                  after (rw (q, add_user_to_group) at done))
        ]

    Added-IsLinked : (u' : us.State) (g' : gs.State) → Added u' g' → IsLinked u' g'
    Added-IsLinked u' g' a =
        let hu = ap groups_of a.found_user in
        let hg = ap members_of a.found_group in
        let dg = h.distinct_groups uid a.user.groups hu in
        let du = h.distinct_members gid a.group.members hg in
        rw (fun_ext a.groups_after, fun_ext a.members_after)
          (relink-AreLinked (groups_in u) (members_in g) h uid gid a.user.groups a.group.members
            (a.user.groups ++ gid ∷ []) (a.group.members ++ uid ∷ []) hu hg
            (link-Relinks uid gid a.user.groups a.group.members dg du a.new_group a.new_member))

    -- In stores with the laws of Users.Laws, with users stored under their own IDs: when every
    -- user lists a group exactly if that group lists the user, without repetitions, then so it is
    -- after `AddUserToGroup`, whether it succeeds or fails and takes back.
    pub add_user_to_group-IsLinked :
        (add : gs.Call) (save : us.Call) (undo : gs.Call)
        → IsLinked
            (add_user_to_group us gs add save undo gid uid u g).0
            (add_user_to_group us gs add save undo gid uid u g).1
    add_user_to_group-IsLinked add save undo =
        elim (Option-cases (add_user_to_group us gs add save undo gid uid u g).2) [
          | inl done ↦ Added-IsLinked _ _ (add_user_to_group-Added add save undo done)
          | inr (e, failed) ↦
              Unchanged-IsLinked u _ g _
                (add_user_to_group-Unchanged us gs ul gl add save undo gid uid u g e failed) h
        ]
