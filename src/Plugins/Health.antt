-- ===== src/Plugins/Health.antt =====
-- `performHealthChecks` of pkg/plugins/manager.go and the checks it makes. What the two requests to
-- a VirtualMCP service come to is a parameter, and so are the decimal digits of a number.
pub mod Rounds
use Prim.Native.String.{◌++◌}
use suse_ai_up.Prelude.{
  String, ℕ, Bool, true, false, not, nat_eq, ◌==◌, List, [], ◌∷◌, Option, none, some, ◌≡◌, refl,
  sym, ap, ◌∙◌, inl, inr, if◌then◌else◌, arith, eq_iff, Map, lookup, insert, lookup-insert,
  Bool-cases, Option-cases, String-cases, In, eq_refl,
}
use suse_ai_up.Plugins.{
  Registration, ServiceHealth, ServiceManager, get_service, get_service_health,
  update_service_health,
}

-- The request could not be built, or not be sent, or a status came back.
pub data Answer : Type 0 where
  no_request failed : String → Answer
  answered : ℕ → Answer

abbrev pub health_of : (status message : String) → ServiceHealth
health_of status message = record {
  status = status;
  message = message;
  last_checked = 0;
  response_time = 0;
}

unfoldable pub check_basic_service_health : ServiceHealth
check_basic_service_health = health_of "healthy" "Service is registered"

-- `serviceIDs`: the keys of the map.
unfoldable pub service_ids : Map Registration → List String
service_ids [] = []
service_ids ((id, _) ∷ m) = id ∷ service_ids m

module _ (show : ℕ → String) where
  -- After the first request was answered with 200; `count` is read from the second's body, 0 where
  -- it cannot be.
  unfoldable pub check_discovery : (mcps : Answer) (count : ℕ) → ServiceHealth
  check_discovery (no_request e) count =
      health_of "degraded" "Basic health OK but MCP discovery check failed"
  check_discovery (failed e) count =
      health_of "degraded" ("Basic health OK but MCP discovery failed: " ++ e)
  check_discovery (answered status) count =
      if not (nat_eq status 200)
      then health_of "degraded"
          ("Basic health OK but MCP discovery returned status " ++ show status)
      else health_of "healthy"
          ("VirtualMCP service healthy with " ++ (show count ++ " MCP implementations"))

  unfoldable pub check_virtual_mcp_health : (basic mcps : Answer) (count : ℕ) → ServiceHealth
  check_virtual_mcp_health (no_request e) mcps count =
      health_of "unhealthy" ("Failed to create health check request: " ++ e)
  check_virtual_mcp_health (failed e) mcps count =
      health_of "unhealthy" ("Health check failed: " ++ e)
  check_virtual_mcp_health (answered status) mcps count =
      if not (nat_eq status 200)
      then health_of "unhealthy" ("Health check returned status " ++ show status)
      else check_discovery mcps count

  -- What the network does for a service: both answers, the count, and how long it took. The time
  -- that is written to `health.LastChecked` first is lost with the assignment to `health`.
  unfoldable pub check_service_health :
      (network : Registration → Answer × Answer × ℕ × ℕ) → Registration → ServiceHealth
  check_service_health network s =
      let (basic, mcps, count, took) = network s in
      record (if s.service_type == "virtualmcp"
        then check_virtual_mcp_health basic mcps count
        else check_basic_service_health) { response_time = took }

  -- The second loop, over the IDs that were read at the start.
  unfoldable pub check_listed :
      (network : Registration → Answer × Answer × ℕ × ℕ)
      → List String
      → ServiceManager
      → ServiceManager
  check_listed network [] sm = sm
  check_listed network (id ∷ ids) sm = elim (get_service id sm) [
    | none ↦ check_listed network ids sm
    | some s ↦
        check_listed network ids (update_service_health id (check_service_health network s) sm)
  ]

  -- No other call comes in between.
  unfoldable pub perform_health_checks :
      (network : Registration → Answer × Answer × ℕ × ℕ) → ServiceManager → ServiceManager
  perform_health_checks network sm = check_listed network (service_ids sm.services) sm
