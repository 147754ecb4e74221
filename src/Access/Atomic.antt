-- ===== src/Access/Atomic.antt =====
-- The error paths of `AddUserToGroup` (pkg/services/user_group.go) and their rollback.
use suse_ai_up.Prelude.{
  String, true, [], ◌∷◌, ◌++◌, none, some, ◌≡◌, contains, remove_first-append_last, In-contains,
  In-append_last, Bool-cases, Option-cases, inl, inr, eq_iff, eq_refl, arith, refl, ap,
}
use suse_ai_up.Users.{Group, Error, Result, ok, err, Result-cases}
use suse_ai_up.Users.Api.{UserStore, GroupStore}
use suse_ai_up.Users.Laws.{UserLaws, GroupLaws}
use suse_ai_up.Access.Members.{roll_back, add_group_to_user, add_user_to_group}

-- A stored group without the time of its last change.
abbrev pub untimed : Result Group → Result Group
untimed (ok g) = ok (record g { updated_at = 0 })
untimed (err e) = err e

module _ (us : UserStore) (gs : GroupStore) (ul : UserLaws us) (gl : GroupLaws gs) where
  undo_restores :
      (add undo : gs.Call) (gid uid : String) (g : gs.State)
      → (gs.add_member add gid uid g).1 ≡ none
      → (j : String)
      → untimed (gs.get j (gs.remove_member undo gid uid (gs.add_member add gid uid g).0).0)
        ≡ untimed (gs.get j g)
  undo_restores add undo gid uid g added j =
      let (group, found, fresh) = gl.add_member_was add gid uid g added in
      let (t, after) = gl.get-add_member add gid uid g group found fresh in
      let g' = (gs.add_member add gid uid g).0 in
      let group' = record group { members = group.members ++ uid ∷ []; updated_at = t } in
      let here : gs.get gid g' ≡ ok group' = ground (arith, after gid, eq_refl gid) in
      let listed : contains uid group'.members ≡ true =
        In-contains uid group'.members (In-append_last uid group.members) in
      let (t', undone) = gl.get-remove_member undo gid uid g' group' here listed in
      ground
        (arith, undone j, after j, remove_first-append_last uid group.members fresh, eq_iff gid j)

  -- Nothing that a `Get` shows differs, but for the time of a group's last change.
  abbrev pub Unchanged : us.State → gs.State → us.State → gs.State → Type 0
  Unchanged u g u' g' =
      ((j : String) → us.get j u' ≡ us.get j u)
      × ((j : String) → untimed (gs.get j g') ≡ untimed (gs.get j g))

  roll_back-Unchanged :
      (add undo : gs.Call) (gid uid : String) (u : us.State) (g : gs.State) (e : Error)
      → (gs.add_member add gid uid g).1 ≡ none
      → Unchanged u g
          (roll_back us gs undo gid uid u (gs.add_member add gid uid g).0 e).0
          (roll_back us gs undo gid uid u (gs.add_member add gid uid g).0 e).1
  unfolding roll_back
  roll_back-Unchanged add undo gid uid u g e added =
      (λ j. refl, undo_restores add undo gid uid g added)

  add_group_to_user-Unchanged :
      (add : gs.Call) (save : us.Call) (undo : gs.Call) (gid uid : String) (u : us.State)
      (g : gs.State) (e : Error)
      → (gs.add_member add gid uid g).1 ≡ none
      → (add_group_to_user us gs save undo gid uid u (gs.add_member add gid uid g).0).2 ≡ some e
      → Unchanged u g
          (add_group_to_user us gs save undo gid uid u (gs.add_member add gid uid g).0).0
          (add_group_to_user us gs save undo gid uid u (gs.add_member add gid uid g).0).1
  unfolding add_group_to_user roll_back
  add_group_to_user-Unchanged add save undo gid uid u g e added h =
      elim (Result-cases (us.get uid u)) [
        | inr (missing, p) ↦
            rw (p, add_group_to_user) (roll_back-Unchanged add undo gid uid u g e added)
        | inl (user, p) ↦ elim (Bool-cases (contains gid user.groups)) [
          | inl c ↦ absurd (ground arith)
          | inr c ↦
              elim (Option-cases
                (us.update save (record user { groups = user.groups ++ gid ∷ [] }) u).1) [
                  | inl q ↦ absurd (ground arith)
                  | inr (failed, q) ↦
                      rw (p, add_group_to_user, c, q)
                        (
                          λ j. ap (us.get j) (ul.update_fails save _ u failed q),
                          undo_restores add undo gid uid g added,
                        )
                ]
        ]
      ]

  -- When `AddUserToGroup` reports an error, in stores with the laws of Users.Laws, by which a call
  -- that reports an error has changed nothing, then every user and every group is as before: the
  -- members are taken back, and only the time of the group's last change may differ.
  pub add_user_to_group-Unchanged :
      (add : gs.Call) (save : us.Call) (undo : gs.Call) (gid uid : String) (u : us.State)
      (g : gs.State) (e : Error)
      → (add_user_to_group us gs add save undo gid uid u g).2 ≡ some e
      → Unchanged u g
          (add_user_to_group us gs add save undo gid uid u g).0
          (add_user_to_group us gs add save undo gid uid u g).1
  unfolding add_user_to_group
  add_user_to_group-Unchanged add save undo gid uid u g e h =
      elim (Option-cases (gs.add_member add gid uid g).1) [
        | inl added ↦
            rw (added, add_user_to_group)
              (add_group_to_user-Unchanged add save undo gid uid u g e added
                (rw (added, add_user_to_group) at h))
        | inr (failed, q) ↦
            rw (q, add_user_to_group)
              (
                λ j. refl,
                λ j. ap (λ s. untimed (gs.get j s)) (gl.add_member_fails add gid uid g failed q),
              )
      ]
