-- ===== src/Users/Laws.antt =====
-- What the service of pkg/services/user_group.go assumes of the stores behind the two interfaces of
-- pkg/clients/user_group_store.go.
use suse_ai_up.Prelude.{
  String, ℕ, true, false, [], ◌∷◌, ◌++◌, none, some, ◌≡◌, ◌==◌, if◌then◌else◌, contains,
  remove_first,
}
use suse_ai_up.Users.{User, Group, Error, ok}
use suse_ai_up.Users.Api.{UserStore, GroupStore}

-- A store in which a call that reports an error has changed nothing.
pub record UserLaws (us : UserStore) : Type 1 where
  -- every user is stored under its own ID
  pub IsFiled : us.State → Type 0
  pub get_filed :
      (s : us.State) (id : String) (u : User) → IsFiled s → us.get id s ≡ ok u → u.id ≡ id
  pub update_filed :
      (c : us.Call) (u : User) (s : us.State) → IsFiled s → IsFiled (us.update c u s).0
  pub update_fails :
      (c : us.Call) (u : User) (s : us.State) (e : Error)
      → (us.update c u s).1 ≡ some e
      → (us.update c u s).0 ≡ s
  pub get_update :
      (c : us.Call) (u : User) (s : us.State)
      → (us.update c u s).1 ≡ none
      → (t : ℕ) × ((j : String)
          → us.get j (us.update c u s).0
            ≡ (if u.id == j then ok (record u { updated_at = t }) else us.get j s))

pub record GroupLaws (gs : GroupStore) : Type 1 where
  pub IsFiled : gs.State → Type 0
  pub get_filed :
      (s : gs.State) (id : String) (g : Group) → IsFiled s → gs.get id s ≡ ok g → g.id ≡ id
  pub add_member_filed :
      (c : gs.Call) (id user : String) (s : gs.State)
      → IsFiled s
      → IsFiled (gs.add_member c id user s).0
  pub remove_member_filed :
      (c : gs.Call) (id user : String) (s : gs.State)
      → IsFiled s
      → IsFiled (gs.remove_member c id user s).0
  pub add_member_fails :
      (c : gs.Call) (id user : String) (s : gs.State) (e : Error)
      → (gs.add_member c id user s).1 ≡ some e
      → (gs.add_member c id user s).0 ≡ s
  pub add_member_was :
      (c : gs.Call) (id user : String) (s : gs.State)
      → (gs.add_member c id user s).1 ≡ none
      → (g : Group) × (gs.get id s ≡ ok g) × (contains user g.members ≡ false)
  pub get-add_member :
      (c : gs.Call) (id user : String) (s : gs.State) (g : Group)
      → gs.get id s ≡ ok g
      → contains user g.members ≡ false
      → (t : ℕ) × ((j : String)
          → gs.get j (gs.add_member c id user s).0 ≡ (
              if id == j
              then ok (record g { members = g.members ++ user ∷ []; updated_at = t })
              else gs.get j s))
  pub remove_member_fails :
      (c : gs.Call) (id user : String) (s : gs.State) (e : Error)
      → (gs.remove_member c id user s).1 ≡ some e
      → (gs.remove_member c id user s).0 ≡ s
  pub remove_member_was :
      (c : gs.Call) (id user : String) (s : gs.State)
      → (gs.remove_member c id user s).1 ≡ none
      → (g : Group) × (gs.get id s ≡ ok g) × (contains user g.members ≡ true)
  pub get-remove_member :
      (c : gs.Call) (id user : String) (s : gs.State) (g : Group)
      → gs.get id s ≡ ok g
      → contains user g.members ≡ true
      → (t : ℕ) × ((j : String)
          → gs.get j (gs.remove_member c id user s).0 ≡ (
              if id == j
              then ok (record g { members = remove_first user g.members; updated_at = t })
              else gs.get j s))
