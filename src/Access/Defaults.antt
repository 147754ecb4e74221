-- ===== src/Access/Defaults.antt =====
-- What the default group "mcp-users" of `InitializeDefaultGroups` gives its members.
use Prim.Native.String.{◌++◌}
use text.Mathlib.TextLemmas.{append_cancel_left}
use suse_ai_up.Prelude.{
  String, true, false, List, [], ◌∷◌, ◌≡◌, ◌≢◌, has_prefix, has_suffix, has_prefix_complete,
  has_suffix_complete, contains_text, beq_of_ne, arith, refl, ap, ◌∙◌,
}
use suse_ai_up.Permissions.{permission_matches, any_matches, server_all, server_read}
use suse_ai_up.Users.{User, Group, ok}
use suse_ai_up.Users.Api.{UserStore, GroupStore}
use suse_ai_up.Access.{permissions_of, has_permission, can_access_server, mcp_users}

-- A pattern with no star matches nothing but itself.
matches_plain :
    (pattern required : String)
    → has_suffix pattern ":*" ≡ false
    → contains_text pattern "*" ≡ false
    → pattern ≢ required
    → permission_matches pattern required ≡ false
unfolding permission_matches
matches_plain pattern required unscoped plain other =
    rw (beq_of_ne pattern required other, unscoped, plain)

server_read-ne-below :
    (suffix id : String)
    → has_suffix "read" suffix ≡ false
    → "server:read" ≢ "server:" ++ (id ++ suffix)
server_read-ne-below suffix id h e =
    let rest : "read" ≡ id ++ suffix = append_cancel_left "server:" "read" (id ++ suffix) e in
    let ends : has_suffix "read" suffix ≡ true =
      ap (λ t. has_suffix t suffix) rest ∙ has_suffix_complete id suffix in
    cc

adapter_create-ne-server : (rest : String) → "adapter:create" ≢ "server:" ++ rest
unfolding has_prefix
adapter_create-ne-server rest e =
    let starts : has_prefix "adapter:create" "server:" ≡ true =
      ap (λ t. has_prefix t "server:") e ∙ has_prefix_complete "server:" rest in
    cc

-- The two patterns of "mcp-users" match no permission of the form "server:" ID suffix.
mcp_users-any_matches :
    (suffix id : String)
    → has_suffix "read" suffix ≡ false
    → any_matches mcp_users.permissions ("server:" ++ (id ++ suffix)) ≡ false
unfolding any_matches has_suffix contains_text
mcp_users-any_matches suffix id h = ground (
  arith,
  matches_plain "server:read" ("server:" ++ (id ++ suffix)) refl refl
      (server_read-ne-below suffix id h),
  matches_plain "adapter:create" ("server:" ++ (id ++ suffix)) refl refl
      (adapter_create-ne-server (id ++ suffix)),
)

only_mcp_users :
    (gs : GroupStore) (g : gs.State) (groups : List String) (group : Group) (suffix id : String)
    → groups ≡ "mcp-users" ∷ []
    → gs.get "mcp-users" g ≡ ok group
    → group.permissions ≡ mcp_users.permissions
    → has_suffix "read" suffix ≡ false
    → has_permission gs g groups ("server:" ++ (id ++ suffix)) ≡ false
unfolding has_permission permissions_of
only_mcp_users gs g groups group suffix id eg fg ep h =
    rw (eg, has_permission, fg, permissions_of, ep, mcp_users-any_matches suffix id h)

module _ (us : UserStore) (gs : GroupStore) where
  -- A user whose one group is "mcp-users", with the permissions that `InitializeDefaultGroups`
  -- writes, is denied every server.
  pub mcp_users-can_access_server :
      (u : us.State) (g : gs.State) (user_id server_id : String) (user : User) (group : Group)
      → us.get user_id u ≡ ok user
      → user.groups ≡ "mcp-users" ∷ []
      → gs.get "mcp-users" g ≡ ok group
      → group.permissions ≡ mcp_users.permissions
      → can_access_server us gs u g user_id server_id ≡ ok false
  unfolding can_access_server server_all server_read has_suffix
  mcp_users-can_access_server u g user_id server_id user group fu eg fg ep =
      let no_all = only_mcp_users gs g user.groups group "*" "" eg fg ep refl in
      let no_scope = only_mcp_users gs g user.groups group ":*" server_id eg fg ep refl in
      let no_read = only_mcp_users gs g user.groups group ":read" server_id eg fg ep refl in
      rw (fu, can_access_server, no_all, no_scope, no_read)
