-- ===== src/Monitor/Reports.antt =====
-- What is read from the monitor of pkg/mcp/monitoring.go, the operation timer, and the calls that
-- write one kind of log entry.
use Prim.Native.String.{◌++◌}
use suse_ai_up.Prelude.{
  String, ℕ, Bool, ◌-◌, ◌==◌, ◌&&◌, ◌||◌, not, List, [], ◌∷◌, Option, none, ltb, length,
  if◌then◌else◌, Map, ℤ, pos, negsuc,
}
use suse_ai_up.Security.{drop}
use suse_ai_up.Monitor.{LogEntry, OperationMetrics, McpMonitor, log_operation, record_operation}

-- The texts of `GetStats`.
pub record Stats : Type 0 where
  pub total_requests : ℕ
  pub successful_requests : ℕ
  pub failed_requests : ℕ
  pub average_latency : String
  pub min_latency : String
  pub max_latency : String
  pub error_rate : String
  pub last_request_time : String

pub record Metrics : Type 0 where
  pub monitoring_enabled : Bool
  pub logging_enabled : Bool
  pub log_level : String
  pub total_log_entries : ℕ
  pub operations : Map Stats
  pub sessions : Map Stats
  pub adapters : Map Stats

-- `duration`, `percent` and `time` are `Duration.String`, `fmt.Sprintf("%.2f%%", …)` and
-- `Format(time.RFC3339)`.
module _ {F : Type 0} (duration : ℕ → String) (percent : F → String)
    (time : Option ℕ → String) where
  unfoldable pub get_stats : OperationMetrics F → Stats
  get_stats om = record {
    total_requests = om.total_requests;
    successful_requests = om.successful_reqs;
    failed_requests = om.failed_reqs;
    average_latency = duration om.average_latency;
    min_latency = duration om.min_latency;
    max_latency = duration om.max_latency;
    error_rate = percent om.error_rate;
    last_request_time = time om.last_request_time;
  }

  unfoldable pub all_stats : Map (OperationMetrics F) → Map Stats
  all_stats [] = []
  all_stats ((key, om) ∷ metrics) = (key, get_stats om) ∷ all_stats metrics

  -- Only those with a request.
  unfoldable pub active_stats : Map (OperationMetrics F) → Map Stats
  active_stats [] = []
  active_stats ((key, om) ∷ metrics) =
      let rest = active_stats metrics in
      if ltb 0 om.total_requests then (key, get_stats om) ∷ rest else rest

  unfoldable pub get_metrics : {M : Type 0} → McpMonitor M F → Metrics
  get_metrics m = record {
    monitoring_enabled = m.config.enable_metrics;
    logging_enabled = m.config.enable_logging;
    log_level = m.config.log_level;
    total_log_entries = length m.log_entries;
    operations = all_stats m.operation_metrics;
    sessions = active_stats m.session_metrics;
    adapters = active_stats m.adapter_metrics;
  }

-- The number of entries to return: all for a limit that is not positive or too large.
unfoldable pub effective_limit : ℤ → ℕ → ℕ
effective_limit (negsuc n) count = count
effective_limit (pos limit) count = if ltb 0 limit && not (ltb count limit) then limit else count

-- No filter, or the entry's own value.
unfoldable pub admits : String → String → Bool
admits filter own = filter == "" || own == filter

module _ {M : Type 0} where
  unfoldable pub get_recent_logs : {F : Type 0} → ℤ → McpMonitor M F → List (LogEntry M)
  get_recent_logs limit m =
      drop (length m.log_entries - effective_limit limit (length m.log_entries)) m.log_entries

  unfoldable pub matching :
      (level component session_id adapter_name method : String)
      → List (LogEntry M)
      → List (LogEntry M)
  matching level component session_id adapter_name method [] = []
  matching level component session_id adapter_name method (entry ∷ entries) =
      let rest = matching level component session_id adapter_name method entries in
      if admits level entry.level
        && admits component entry.component
        && admits session_id entry.session_id
        && admits adapter_name entry.adapter_name
        && admits method entry.method
      then entry ∷ rest
      else rest

  unfoldable pub get_logs_by_filter :
      {F : Type 0}
      → (level component session_id adapter_name method : String) → ℤ
      → McpMonitor M F
      → List (LogEntry M)
  get_logs_by_filter level component session_id adapter_name method limit m =
      let filtered = matching level component session_id adapter_name method m.log_entries in
      drop (length filtered - effective_limit limit (length filtered)) filtered

pub record OperationTimer : Type 0 where
  pub start_time : ℕ
  pub method : String
  pub session_id : String
  pub adapter_name : String

abbrev pub new_operation_timer :
    (now : ℕ) (method session_id adapter_name : String) → OperationTimer
new_operation_timer now method session_id adapter_name = record {
  start_time = now;
  method = method;
  session_id = session_id;
  adapter_name = adapter_name;
}

module _ {M F : Type 0} where
  -- The monitor of the timer is not nil.
  unfoldable pub finish :
      (zero_rate : F) (rate : (failed total : ℕ) → F) (now at_operation at_session at_adapter : ℕ)
      → OperationTimer
      → Bool
      → McpMonitor M F
      → McpMonitor M F
  finish zero_rate rate now at_operation at_session at_adapter timer success m =
      record_operation zero_rate rate at_operation at_session at_adapter timer.method
        timer.session_id timer.adapter_name success (now - timer.start_time) m

  -- What the function that `LogOperationWithTimer` returns does: first the log, then the counters.
  unfoldable pub log_operation_with_timer :
      (zero_rate : F) (rate : (failed total : ℕ) → F)
      (measured logged finished at_operation at_session at_adapter : ℕ)
      (level component message : String)
      → OperationTimer
      → Option String
      → M
      → (success : Bool) → McpMonitor M F
      → McpMonitor M F
  log_operation_with_timer zero_rate rate measured logged finished at_operation at_session
        at_adapter level component message timer err metadata success m =
      finish zero_rate rate finished at_operation at_session at_adapter timer success (
        log_operation logged level component message timer.session_id timer.adapter_name
          timer.method (measured - timer.start_time) err metadata m)

  unfoldable pub log_request :
      (now : ℕ) (session_id adapter_name method : String) → M → McpMonitor M F → McpMonitor M F
  log_request now session_id adapter_name method metadata m =
      log_operation now "info" "MessageRouter" ("Processing " ++ (method ++ " request")) session_id
        adapter_name method 0 none metadata m

  unfoldable pub log_response :
      (now : ℕ) (session_id adapter_name method : String) (success : Bool) (duration : ℕ)
      → M
      → McpMonitor M F
      → McpMonitor M F
  log_response now session_id adapter_name method success duration metadata m =
      log_operation now (if success then "info" else "error") "MessageRouter"
        ("Completed "
          ++ (method ++ (" request" ++ (if success then " successfully" else " with errors"))))
        session_id adapter_name method duration none metadata m

  unfoldable pub log_cache_operation :
      (now : ℕ) (operation adapter_name method : String) (hit : Bool) (duration : ℕ)
      → M
      → McpMonitor M F
      → McpMonitor M F
  log_cache_operation now operation adapter_name method hit duration metadata m =
      log_operation now (if hit then "debug" else "info") "Cache"
        ("Cache "
          ++ (operation
              ++ (" for "
                  ++ (method
                      ++ (" on " ++ (adapter_name ++ (if hit then " (hit)" else " (miss)")))))))
        "" adapter_name method duration none metadata m

  unfoldable pub log_session_activity :
      (now : ℕ) (session_id activity adapter_name : String) → M → McpMonitor M F → McpMonitor M F
  log_session_activity now session_id activity adapter_name metadata m =
      log_operation now "info" "SessionManager" activity session_id adapter_name "" 0 none metadata
        m

  unfoldable pub log_adapter_activity :
      (now : ℕ) (adapter_name activity : String) → M → McpMonitor M F → McpMonitor M F
  log_adapter_activity now adapter_name activity metadata m =
      log_operation now "info" "AdapterManager" activity "" adapter_name "" 0 none metadata m

  unfoldable pub log_error :
      (now : ℕ) (component message session_id adapter_name method : String)
      → Option String
      → M
      → McpMonitor M F
      → McpMonitor M F
  log_error now component message session_id adapter_name method err metadata m =
      log_operation now "error" component message session_id adapter_name method 0 err metadata m
