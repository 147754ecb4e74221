-- ===== src/Tests/Monitor.antt =====
-- The monitor at concrete calls. A rate is the pair of the numbers that are divided.
use suse_ai_up.Prelude.{
  String, ℕ, true, false, ◌+◌, none, some, ◌≡◌, refl, subst, pos, if◌then◌else◌, length,
}
use suse_ai_up.Security.{drop}
use suse_ai_up.Monitor.{
  McpMonitor, new_mcp_monitor, new_metrics, update_metrics, record_operation, log_operation,
  should_log, rank, appended,
}
use suse_ai_up.Monitor.Reports.{get_recent_logs, effective_limit}
use suse_ai_up.Monitor.Steps.{Reach, made, recorded, logged, IsCounted, Reach-IsCounted}

abbrev pair : ℕ → ℕ → ℕ × ℕ
pair failed total = (failed, total)

abbrev fresh : McpMonitor String (ℕ × ℕ)
fresh = new_mcp_monitor (0, 0) pair none

-- A failed call of a tool, which took 7.
abbrev after_call : McpMonitor String (ℕ × ℕ)
after_call = record_operation (0, 0) pair 1 2 3 "tools/call" "s1" "maps" false 7 fresh

abbrev after_log : McpMonitor String (ℕ × ℕ)
after_log =
    log_operation 4 "error" "MessageRouter" "failed" "s1" "maps" "tools/call" 7 (some "timeout") ""
      after_call

enabled : fresh.config.enable_metrics ≡ true
unfolding new_mcp_monitor
enabled = refl

to_after_log : Reach (0, 0) pair 1 after_log
to_after_log =
    logged 1 after_call after_log 4 "error" "MessageRouter" "failed" "s1" "maps" "tools/call" 7
      (some "timeout") ""
      (subst (λ b. Reach (0, 0) pair (if b then 0 + 1 else 0) after_call) enabled
        (recorded 0 fresh after_call 1 2 3 "tools/call" "s1" "maps" false 7 (made none) refl))
      refl

Reach-IsCounted_example : IsCounted (0, 0) pair 1 after_log
Reach-IsCounted_example = Reach-IsCounted (0, 0) pair 1 after_log to_after_log

one_entry : length (get_recent_logs (pos 5) after_log) ≡ 1
unfolding get_recent_logs effective_limit drop log_operation record_operation new_mcp_monitor
    should_log rank appended
one_entry = refl

-- A latency of 0 is taken for none: the least latency of 0 and 5 is then 5.
least_of_zero :
    (update_metrics
      (0, 0)
      pair
      2
      true
      5
      (update_metrics (0, 0) pair 1 true 0 (new_metrics (0, 0) pair))).min_latency
    ≡ 5
unfolding update_metrics new_metrics
least_of_zero = refl
