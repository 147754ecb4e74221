-- ===== src/Tests/Decisions.antt =====
-- The access decisions of pkg/services/user_group.go over the stores in memory.
use suse_ai_up.Prelude.{true, false, [], ◌∷◌, ◌≡◌, ◌↔◌, refl, Map, lookup}
use suse_ai_up.Permissions.{permission_matches}
use suse_ai_up.Permissions.Grants.{Grants, permission_matches-Grants}
use suse_ai_up.Users.{User, Group, ok}
use suse_ai_up.Users.GroupInstances.{memory_groups}
use suse_ai_up.Users.Memory
use suse_ai_up.Users.Groups
use suse_ai_up.Access.{mcp_users, can_access_server}
use suse_ai_up.Access.Decisions.{MayReach, can_access_server-MayReach}
use suse_ai_up.Access.Defaults.{mcp_users-can_access_server}
use suse_ai_up.Tests.People.{people, person, ann_only, devs_only}

permission_matches-Grants_example :
    (permission_matches "server:*" "server:a:read" ≡ true) ↔ Grants "server:*" "server:a:read"
permission_matches-Grants_example = permission_matches-Grants "server:*" "server:a:read"

can_access_server-MayReach_example :
    (can_access_server people memory_groups ann_only devs_only "ann" "a" ≡ ok true) ↔ (
      (user : User) × (Memory.get "ann" ann_only ≡ ok user)
      × MayReach people memory_groups devs_only user "a")
can_access_server-MayReach_example =
    can_access_server-MayReach people memory_groups ann_only devs_only "ann" "a"

abbrev users_team : Map Group
users_team = ("mcp-users", mcp_users) ∷ []

abbrev member_only : Map User
member_only = ("ann", person "ann" ("mcp-users" ∷ [])) ∷ []

find_ann : Memory.get "ann" member_only ≡ ok (person "ann" ("mcp-users" ∷ []))
unfolding Memory.get lookup
find_ann = refl

find_users_team : Groups.get "mcp-users" users_team ≡ ok mcp_users
unfolding Groups.get lookup
find_users_team = refl

mcp_users-can_access_server_example :
    can_access_server people memory_groups member_only users_team "ann" "weather" ≡ ok false
mcp_users-can_access_server_example =
    mcp_users-can_access_server people memory_groups member_only users_team "ann" "weather"
      (person "ann" ("mcp-users" ∷ [])) mcp_users find_ann refl find_users_team refl
