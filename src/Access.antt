-- ===== src/Access.antt =====
-- `UserGroupService` of pkg/services/user_group.go, over the two store interfaces. A method that
-- writes returns both stores' states beside its `error`.
pub mod Members
pub mod Defaults
pub mod Decisions
pub mod Preserves
pub mod Removal
pub mod Linked
pub mod Atomic
use suse_ai_up.Prelude.{
  String, Bool, true, false, List, [], ◌∷◌, Option, none, some, ◌==◌, if◌then◌else◌,
}
use suse_ai_up.Permissions.{any_matches, server_all, server_read}
use suse_ai_up.Users.{Group, Error, wrapped, Result, ok, err}
use suse_ai_up.Users.Api.{UserStore, GroupStore}

-- The groups that `InitializeDefaultGroups` creates where they are missing.
abbrev pub default_group : (id name description : String) → List String → Group
default_group id name description permissions = record {
  id = id;
  name = name;
  description = description;
  members = [];
  permissions = permissions;
  created_at = 0;
  updated_at = 0;
}

abbrev pub mcp_users : Group
mcp_users =
    default_group "mcp-users" "MCP Users" "Users with access to MCP servers"
      ("server:read" ∷ "adapter:create" ∷ [])

abbrev pub mcp_admins : Group
mcp_admins =
    default_group "mcp-admins" "MCP Admins" "Administrators with full MCP access"
      ("server:*" ∷ "user:manage" ∷ "group:manage" ∷ "adapter:*" ∷ [])

abbrev pub weather_users : Group
weather_users =
    default_group "weather-users" "Weather API Users" "Users with access to weather MCP servers"
      ("server:weather-*" ∷ [])

abbrev pub default_groups : List Group
default_groups = mcp_users ∷ mcp_admins ∷ weather_users ∷ []

module _ (gs : GroupStore) where
  -- The permissions of a group; none for a group that is not found (`continue`).
  unfoldable pub permissions_of : gs.State → String → List String
  permissions_of s group_id = elim (gs.get group_id s) [ ok group ↦ group.permissions | err _ ↦ [] ]

  unfoldable pub has_permission : gs.State → List String → String → Bool
  has_permission s [] permission = false
  has_permission s (group_id ∷ rest) permission =
      if any_matches (permissions_of s group_id) permission
      then true
      else has_permission s rest permission

  unfoldable pub check_group_permission : gs.State → (group_id permission : String) → Result Bool
  check_group_permission s group_id permission = elim (gs.get group_id s) [
    | err e ↦ err e
    | ok group ↦ ok (any_matches group.permissions permission)
  ]

  -- `InitializeDefaultGroups`, with the outside's part of each round.
  unfoldable pub create_missing :
      (Group → gs.Call) → List Group → gs.State → gs.State × Option Error
  create_missing call [] s = (s, none)
  create_missing call (group ∷ rest) s = elim (gs.get group.id s) [
    | ok _ ↦ create_missing call rest s
    | err _ ↦
        let (s', failed) = gs.create (call group) group s in
        elim failed [
          | some e ↦ (s', some (wrapped "failed to create default group" e))
          | none ↦ create_missing call rest s'
        ]
  ]

  unfoldable pub initialize_default_groups : (Group → gs.Call) → gs.State → gs.State × Option Error
  initialize_default_groups call s = create_missing call default_groups s

module _ (us : UserStore) (gs : GroupStore) where
  unfoldable pub can_access_server :
      us.State → gs.State → (user_id server_id : String) → Result Bool
  can_access_server u g user_id server_id = elim (us.get user_id u) [
    | err e ↦ err (wrapped "failed to get user" e)
    | ok user ↦ ok (
        if has_permission gs g user.groups "server:*"
        then true
        else if has_permission gs g user.groups (server_all server_id)
        then true
        else if has_permission gs g user.groups (server_read server_id)
        then true
        else false)
  ]

  -- The body that `CanManageUsers`, `CanManageGroups` and `CanCreateAdapters` share.
  unfoldable pub user_may : us.State → gs.State → (user_id permission : String) → Result Bool
  user_may u g user_id permission = elim (us.get user_id u) [
    | err e ↦ err (wrapped "failed to get user" e)
    | ok user ↦ ok (has_permission gs g user.groups permission)
  ]

  unfoldable pub can_manage_users : us.State → gs.State → String → Result Bool
  can_manage_users u g user_id =
      if user_id == "dev-admin" then ok true else user_may u g user_id "user:manage"

  unfoldable pub can_manage_groups : us.State → gs.State → String → Result Bool
  can_manage_groups u g user_id =
      if user_id == "dev-admin" then ok true else user_may u g user_id "group:manage"

  unfoldable pub can_create_adapters : us.State → gs.State → String → Result Bool
  can_create_adapters u g user_id = user_may u g user_id "adapter:create"
