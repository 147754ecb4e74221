-- ===== src/Monitor.antt =====
-- `MCPMonitor` of pkg/mcp/monitoring.go: its log and its counters. `M` is the type of the metadata
-- and `F` that of a `float64`. Durations and counters are natural numbers; what goes to the
-- standard logger is left out.
pub mod Reports
pub mod Totals
pub mod Steps
use Prim.Native.Nat.{◌/◌}
use suse_ai_up.Prelude.{
  String, ℕ, Bool, true, false, not, ◌+◌, ◌-◌, ◌==◌, ◌&&◌, ◌++◌, List, [], ◌∷◌, Option, none, some,
  ltb, leb, length, if◌then◌else◌, nat_eq, Map, lookup, insert,
}
use suse_ai_up.Security.{drop}

pub record LogEntry (M : Type 0) : Type 0 where
  pub timestamp : ℕ
  pub level : String
  pub message : String
  pub component : String
  pub session_id : String
  pub adapter_name : String
  pub method : String
  pub duration : ℕ
  pub error : String
  pub metadata : M

pub record OperationMetrics (F : Type 0) : Type 0 where
  pub total_requests : ℕ
  pub successful_reqs : ℕ
  pub failed_reqs : ℕ
  pub average_latency : ℕ
  pub total_latency : ℕ
  pub min_latency : ℕ
  pub max_latency : ℕ
  pub last_request_time : Option ℕ
  pub error_rate : F

pub record MonitoringConfig : Type 0 where
  pub enable_metrics : Bool
  pub enable_logging : Bool
  pub log_level : String
  pub metrics_interval : ℕ
  pub max_log_entries : ℕ
  pub enable_performance : Bool

abbrev pub default_monitoring_config : MonitoringConfig
default_monitoring_config = record {
  enable_metrics = true;
  enable_logging = true;
  log_level = "info";
  metrics_interval = 30000000000;
  max_log_entries = 10000;
  enable_performance = true;
}

pub record McpMonitor (M F : Type 0) : Type 0 where
  pub config : MonitoringConfig
  pub log_entries : List (LogEntry M)
  pub operation_metrics : Map (OperationMetrics F)
  pub session_metrics : Map (OperationMetrics F)
  pub adapter_metrics : Map (OperationMetrics F)

-- `levels[level]`, where a missing level has 0
unfoldable pub rank : String → ℕ
rank level =
    if level == "debug"
    then 0
    else if level == "info"
    then 1
    else if level == "warn"
    then 2
    else if level == "error"
    then 3
    else if level == "fatal"
    then 4
    else 0

unfoldable pub should_log : MonitoringConfig → String → Bool
should_log config level = leb (rank config.log_level) (rank level)

abbrev pub common_operations : List String
common_operations =
    "tools/list" ∷ "tools/call" ∷ "resources/list" ∷ "resources/read" ∷ "resources/subscribe"
    ∷ "prompts/list" ∷ "prompts/get" ∷ "completion/complete" ∷ "initialize" ∷ "capabilities" ∷ []

-- `rate failed total` is `float64(failed) / float64(total) * 100` and `zero_rate` is 0.
module _ {F : Type 0} (zero_rate : F) (rate : (failed total : ℕ) → F) where
  -- `OperationMetrics{}`
  unfoldable pub new_metrics : OperationMetrics F
  new_metrics = record {
    total_requests = 0;
    successful_reqs = 0;
    failed_reqs = 0;
    average_latency = 0;
    total_latency = 0;
    min_latency = 0;
    max_latency = 0;
    last_request_time = none;
    error_rate = zero_rate;
  }

  unfoldable pub update_metrics :
      (now : ℕ) → Bool → (latency : ℕ) → OperationMetrics F → OperationMetrics F
  update_metrics now success latency om =
      let total = om.total_requests + 1 in
      let failed = if success then om.failed_reqs else om.failed_reqs + 1 in
      record {
        total_requests = total;
        successful_reqs = if success then om.successful_reqs + 1 else om.successful_reqs;
        failed_reqs = failed;
        average_latency = (om.total_latency + latency) / total;
        total_latency = om.total_latency + latency;
        min_latency =
            if nat_eq om.min_latency 0
            then latency
            else if ltb latency om.min_latency
            then latency
            else om.min_latency;
        max_latency = if ltb om.max_latency latency then latency else om.max_latency;
        last_request_time = some now;
        error_rate = rate failed total;
      }

  -- The metrics of a key, which are made where there are none, after one more request.
  unfoldable pub count_at :
      (now : ℕ)
      → Bool
      → (latency : ℕ) → String
      → Map (OperationMetrics F)
      → Map (OperationMetrics F)
  count_at now success latency key metrics = elim (lookup key metrics) [
    | none ↦ insert key (update_metrics now success latency new_metrics) metrics
    | some om ↦ insert key (update_metrics now success latency om) metrics
  ]

  unfoldable pub initial_metrics : List String → Map (OperationMetrics F) → Map (OperationMetrics F)
  initial_metrics [] metrics = metrics
  initial_metrics (operation ∷ operations) metrics =
      initial_metrics operations (insert operation new_metrics metrics)

  -- `*metrics = OperationMetrics{}` for each operation
  unfoldable pub cleared : Map (OperationMetrics F) → Map (OperationMetrics F)
  cleared [] = []
  cleared ((operation, om) ∷ metrics) = (operation, new_metrics) ∷ cleared metrics

  module _ {M : Type 0} where
    unfoldable pub new_mcp_monitor : Option MonitoringConfig → McpMonitor M F
    new_mcp_monitor config = record {
      config = elim config [ none ↦ default_monitoring_config | some own ↦ own ];
      log_entries = [];
      operation_metrics = initial_metrics common_operations [];
      session_metrics = [];
      adapter_metrics = [];
    }

    -- `latest` are the readings of the clock for the three counters.
    unfoldable pub record_operation :
        (at_operation at_session at_adapter : ℕ) (method session_id adapter_name : String)
        (success : Bool) (latency : ℕ)
        → McpMonitor M F
        → McpMonitor M F
    record_operation at_operation at_session at_adapter method session_id adapter_name success
          latency m =
        if not m.config.enable_metrics then m else record m {
          operation_metrics = count_at at_operation success latency method m.operation_metrics;
          session_metrics =
              if session_id == ""
              then m.session_metrics
              else count_at at_session success latency session_id m.session_metrics;
          adapter_metrics =
              if adapter_name == ""
              then m.adapter_metrics
              else count_at at_adapter success latency adapter_name m.adapter_metrics;
        }

    unfoldable pub reset_metrics : McpMonitor M F → McpMonitor M F
    reset_metrics m = record m {
      operation_metrics = cleared m.operation_metrics;
      session_metrics = [];
      adapter_metrics = [];
    }

-- `append`, and the oldest entry is dropped when there are too many.
unfoldable pub appended :
    {M : Type 0} → (max_entries : ℕ) → LogEntry M → List (LogEntry M) → List (LogEntry M)
appended max_entries entry entries =
    let all = entries ++ entry ∷ [] in if ltb max_entries (length all) then drop 1 all else all

module _ {M F : Type 0} where
  -- `err` is the text of the error, none for nil.
  unfoldable pub log_operation :
      (now : ℕ) (level component message session_id adapter_name method : String) (duration : ℕ)
      → Option String
      → M
      → McpMonitor M F
      → McpMonitor M F
  log_operation now level component message session_id adapter_name method duration err metadata m =
      if not m.config.enable_logging
      then m
      else if not (should_log m.config level)
      then m
      else record m {
        log_entries =
            appended m.config.max_log_entries
              (record {
                timestamp = now;
                level = level;
                message = message;
                component = component;
                session_id = session_id;
                adapter_name = adapter_name;
                method = method;
                duration = duration;
                error = elim err [ none ↦ "" | some text ↦ text ];
                metadata = metadata;
              })
              m.log_entries;
      }

  unfoldable pub clear_logs : McpMonitor M F → McpMonitor M F
  clear_logs m = record m { log_entries = [] }
