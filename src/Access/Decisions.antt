-- ===== src/Access/Decisions.antt =====
-- What the access decisions of pkg/services/user_group.go amount to.
use suse_ai_up.Prelude.{
  String, true, List, [], ◌∷◌, ◌≡◌, ◌↔◌, ◌⊎◌, In, Bool-cases, inl, inr, arith, refl,
}
use suse_ai_up.Permissions.{permission_matches, any_matches, server_all, server_read}
use suse_ai_up.Permissions.Grants.{Grants, permission_matches-Grants}
use suse_ai_up.Users.{User, Group, ok, Result-cases}
use suse_ai_up.Users.Api.{UserStore, GroupStore}
use suse_ai_up.Access.{permissions_of, has_permission, can_access_server}

-- One of the patterns grants the permission.
abbrev pub SomeGrants : List String → String → Type 0
SomeGrants patterns required = (p : String) × In p patterns × Grants p required

any_matches_sound : (ps : List String) (r : String) → any_matches ps r ≡ true → SomeGrants ps r
unfolding any_matches
any_matches_sound [] r h = cc
any_matches_sound (p ∷ ps) r h = elim (Bool-cases (permission_matches p r)) [
  | inl e ↦ (p, inl refl, (permission_matches-Grants p r).0 e)
  | inr e ↦ let (q, i, g) = any_matches_sound ps r (ground arith) in (q, inr i, g)
]

any_matches_complete :
    (ps : List String) (r p : String) → In p ps → Grants p r → any_matches ps r ≡ true
unfolding any_matches
any_matches_complete [] r p i g = absurd i
any_matches_complete (q ∷ ps) r p (inl e) g = rw (e, (permission_matches-Grants p r).1 g)
any_matches_complete (q ∷ ps) r p (inr i) g = ground (arith, any_matches_complete ps r p i g)

module _ (gs : GroupStore) where
  -- A group in the list is found in the store and one of its patterns grants the permission.
  pub record Holds (s : gs.State) (groups : List String) (permission : String) : Type 0 where
    pub group_id : String
    pub listed : In group_id groups
    pub group : Group
    pub found : gs.get group_id s ≡ ok group
    pub granted : SomeGrants group.permissions permission

  has_permission_sound :
      (s : gs.State) (groups : List String) (p : String)
      → has_permission gs s groups p ≡ true
      → Holds s groups p
  unfolding has_permission permissions_of
  has_permission_sound s [] p h = cc
  has_permission_sound s (id ∷ ids) p h =
      elim (Bool-cases (any_matches (permissions_of gs s id) p)) [
        | inr e ↦
            let later = has_permission_sound s ids p (ground arith) in
            record {
              group_id = later.group_id;
              listed = inr later.listed;
              group = later.group;
              found = later.found;
              granted = later.granted;
            }
        | inl e ↦ elim (Result-cases (gs.get id s)) [
          | inl (group, found) ↦ record {
            group_id = id;
            listed = inl refl;
            group = group;
            found = found;
            granted = any_matches_sound group.permissions p (rw (found, permissions_of) at e);
          }
          | inr (missing, found) ↦
              let none_match : any_matches [] p ≡ true = rw (found, permissions_of) at e in
              let (q, i, _) = any_matches_sound [] p none_match in absurd i
        ]
      ]

  has_permission_complete :
      (s : gs.State) (groups : List String) (p id : String) (group : Group)
      → In id groups
      → gs.get id s ≡ ok group
      → SomeGrants group.permissions p
      → has_permission gs s groups p ≡ true
  unfolding has_permission permissions_of
  has_permission_complete s [] p id group i found g = absurd i
  has_permission_complete s (j ∷ ids) p id group (inl e) found (q, k, g) =
      rw (e, found, permissions_of, any_matches_complete group.permissions p q k g)
  has_permission_complete s (j ∷ ids) p id group (inr i) found g =
      ground (arith, has_permission_complete s ids p id group i found g)

  -- `HasPermission` answers true exactly when a listed group that the store has carries a pattern
  -- that grants the permission.
  pub has_permission-Holds :
      (s : gs.State) (groups : List String) (p : String)
      → (has_permission gs s groups p ≡ true) ↔ Holds s groups p
  has_permission-Holds s groups p = (
    has_permission_sound s groups p,
    λ h. has_permission_complete s groups p h.group_id h.group h.listed h.found h.granted,
  )

module _ (us : UserStore) (gs : GroupStore) where
  -- Why a user may reach a server.
  abbrev pub MayReach : gs.State → User → String → Type 0
  MayReach g user server_id =
      Holds gs g user.groups "server:*"
      ⊎ (Holds gs g user.groups (server_all server_id)
          ⊎ Holds gs g user.groups (server_read server_id))

  module _ (u : us.State) (g : gs.State) (user_id server_id : String) where
    can_access_server_sound :
        can_access_server us gs u g user_id server_id ≡ ok true
        → (user : User) × (us.get user_id u ≡ ok user) × MayReach g user server_id
    unfolding can_access_server
    can_access_server_sound h = elim (Result-cases (us.get user_id u)) [
      | inr (e, missing) ↦ ground arith
      | inl (user, found) ↦ (
        user,
        found,
        elim (Bool-cases (has_permission gs g user.groups "server:*")) [
          | inl a ↦ inl ((has_permission-Holds gs g user.groups "server:*").0 a)
          | inr a ↦ elim (Bool-cases (has_permission gs g user.groups (server_all server_id))) [
            | inl b ↦ inr (inl ((has_permission-Holds gs g user.groups (server_all server_id)).0 b))
            | inr b ↦ inr (
                inr (
                  (has_permission-Holds gs g user.groups (server_read server_id)).0 (ground arith)))
          ]
        ],
      )
    ]

    can_access_server_complete :
        (user : User)
        → us.get user_id u ≡ ok user
        → MayReach g user server_id
        → can_access_server us gs u g user_id server_id ≡ ok true
    unfolding can_access_server
    can_access_server_complete user found (inl a) =
        ground (arith, (has_permission-Holds gs g user.groups "server:*").1 a)
    can_access_server_complete user found (inr (inl b)) =
        ground (arith, (has_permission-Holds gs g user.groups (server_all server_id)).1 b)
    can_access_server_complete user found (inr (inr c)) =
        ground (arith, (has_permission-Holds gs g user.groups (server_read server_id)).1 c)

    -- `CanAccessServer` answers true exactly when the user is stored and one of the user's groups
    -- that the store has grants "server:*", "server:ID:*" or "server:ID:read".
    pub can_access_server-MayReach :
        (can_access_server us gs u g user_id server_id ≡ ok true)
        ↔ ((user : User) × (us.get user_id u ≡ ok user) × MayReach g user server_id)
    can_access_server-MayReach =
        (can_access_server_sound, λ t. can_access_server_complete t.0 t.1 t.2)
