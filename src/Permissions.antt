-- ===== src/Permissions.antt =====
-- Permission patterns of groups: pkg/services/user_group.go, `permissionMatches` and the
-- strings that the service asks for.
pub mod Grants
use suse_ai_up.Prelude.{
  String, Bool, true, false, List, [], ◌∷◌, ◌==◌, ◌&&◌, if◌then◌else◌, has_prefix, has_suffix,
  trim_suffix, contains_text, split_on,
}
use Prim.Native.String.{◌++◌}

-- The branch on `len(patternParts) == 2`.
two_parts : List String → String → Bool
two_parts (a ∷ b ∷ []) required = has_prefix required a && has_suffix required b
two_parts _ required = false

unfoldable pub permission_matches : String → String → Bool
unfolding two_parts
permission_matches pattern required =
    if pattern == required
    then true
    else if has_suffix pattern ":*"
    then has_prefix required (trim_suffix pattern ":*" ++ ":")
    else if contains_text pattern "*"
    then two_parts (split_on "*" pattern) required
    else false

-- `for _, groupPerm := range group.Permissions { if permissionMatches(…) { return true } }`
unfoldable pub any_matches : List String → String → Bool
any_matches [] required = false
any_matches (p ∷ ps) required =
    if permission_matches p required then true else any_matches ps required

-- `fmt.Sprintf("server:%s:*", serverID)` and `fmt.Sprintf("server:%s:read", serverID)`
unfoldable pub server_all : String → String
server_all id = "server:" ++ (id ++ ":*")

unfoldable pub server_read : String → String
server_read id = "server:" ++ (id ++ ":read")
