-- ===== src/Monitor/Steps.antt =====
-- The calls of `MCPMonitor` (pkg/mcp/monitoring.go) as steps, and what holds of its counters and
-- of its log after any sequence of them.
use suse_ai_up.Prelude.{
  String, ℕ, Bool, true, false, ◌+◌, ◌-◌, ◌≤◌, ◌≡◌, ◌==◌, refl, sym, ap, ◌∙◌, subst, [], ◌∷◌, ◌++◌,
  Option, arith, length, length-append, List, Bool-cases, inl, inr, if◌then◌else◌, ltb, not, insert,
}
use suse_ai_up.Security.{drop}
use suse_ai_up.Monitor.{
  LogEntry, new_metrics, MonitoringConfig, McpMonitor, new_mcp_monitor, record_operation,
  reset_metrics, log_operation, clear_logs, appended, common_operations, initial_metrics,
  should_log,
}
use suse_ai_up.Monitor.Totals.{
  total_of, AllBalanced, count_at-AllBalanced, total_of-count_at, initial_metrics-AllBalanced,
  cleared-AllBalanced, total_of-cleared, count_at-AllBalanced_if, total_of-count_at_if,
}

module _ {M F : Type 0} (zero_rate : F) (rate : (failed total : ℕ) → F) where
  -- `Reach n m`: the monitor has recorded n operations since it was made or its metrics were reset.
  pub data Reach : ℕ → McpMonitor M F → Type 0 where
    made : (config : Option MonitoringConfig) → Reach 0 (new_mcp_monitor zero_rate rate config)
    recorded :
        (n : ℕ) (m d : McpMonitor M F) (at_operation at_session at_adapter : ℕ)
        (method session_id adapter_name : String) (success : Bool) (latency : ℕ)
        → Reach n m
        → d
          ≡ record_operation zero_rate rate at_operation at_session at_adapter method session_id
              adapter_name success latency m
        → Reach (if m.config.enable_metrics then n + 1 else n) d
    logged :
        (n : ℕ) (m d : McpMonitor M F) (now : ℕ)
        (level component message session_id adapter_name method : String) (duration : ℕ)
        (err : Option String) (metadata : M)
        → Reach n m
        → d
          ≡ log_operation now level component message session_id adapter_name method duration err
              metadata m
        → Reach n d
    unlogged : (n : ℕ) (m d : McpMonitor M F) → Reach n m → d ≡ clear_logs m → Reach n d
    reset :
        (n : ℕ) (m d : McpMonitor M F) → Reach n m → d ≡ reset_metrics zero_rate rate m → Reach 0 d

  -- The metrics of a monitor that has recorded n operations.
  pub record IsCounted (n : ℕ) (m : McpMonitor M F) : Type 0 where
    pub operations : total_of m.operation_metrics ≡ n
    pub sessions : total_of m.session_metrics ≤ n
    pub adapters : total_of m.adapter_metrics ≤ n
    pub by_operation : AllBalanced zero_rate rate m.operation_metrics
    pub by_session : AllBalanced zero_rate rate m.session_metrics
    pub by_adapter : AllBalanced zero_rate rate m.adapter_metrics
    pub bounded : length m.log_entries ≤ m.config.max_log_entries

  made-IsCounted :
      (config : Option MonitoringConfig) → IsCounted 0 (new_mcp_monitor zero_rate rate config)
  unfolding new_mcp_monitor AllBalanced total_of initial_metrics insert new_metrics
  made-IsCounted config = record {
    operations = refl;
    sessions = omega arith;
    adapters = omega arith;
    by_operation = initial_metrics-AllBalanced zero_rate rate common_operations [] tt;
    by_session = tt;
    by_adapter = tt;
    bounded = omega arith;
  }

  if_on-IsCounted :
      (on : Bool) (n : ℕ) (m d : McpMonitor M F)
      → IsCounted n m
      → IsCounted (n + 1) d
      → IsCounted (if on then n + 1 else n) (if not on then m else d)
  if_on-IsCounted true n m d h k = k
  if_on-IsCounted false n m d h k = h

  if_both-IsCounted :
      (on wanted : Bool) (n : ℕ) (m d : McpMonitor M F)
      → IsCounted n m
      → IsCounted n d
      → IsCounted n (if not on then m else if not wanted then m else d)
  if_both-IsCounted true true n m d h k = k
  if_both-IsCounted true false n m d h k = h
  if_both-IsCounted false wanted n m d h k = h

  recorded-IsCounted :
      (n : ℕ) (m : McpMonitor M F) (at_operation at_session at_adapter : ℕ)
      (method session_id adapter_name : String) (success : Bool) (latency : ℕ)
      → IsCounted n m
      → IsCounted (if m.config.enable_metrics then n + 1 else n) (
          record_operation zero_rate rate at_operation at_session at_adapter method session_id
            adapter_name success latency m)
  unfolding record_operation
  recorded-IsCounted n m at_operation at_session at_adapter method session_id adapter_name success
        latency h =
      if_on-IsCounted m.config.enable_metrics n m _ h (record {
        operations =
            total_of-count_at zero_rate rate at_operation success latency method m.operation_metrics
            ∙ ap (λ k. k + 1) h.operations;
        sessions =
            total_of-count_at_if zero_rate rate (session_id == "") at_session success latency
              session_id n m.session_metrics h.sessions;
        adapters =
            total_of-count_at_if zero_rate rate (adapter_name == "") at_adapter success latency
              adapter_name n m.adapter_metrics h.adapters;
        by_operation =
            count_at-AllBalanced zero_rate rate at_operation success latency method
              m.operation_metrics h.by_operation;
        by_session =
            count_at-AllBalanced_if zero_rate rate (session_id == "") at_session success latency
              session_id m.session_metrics h.by_session;
        by_adapter =
            count_at-AllBalanced_if zero_rate rate (adapter_name == "") at_adapter success latency
              adapter_name m.adapter_metrics h.by_adapter;
        bounded = h.bounded;
      })

  length-drop_one : (xs : List (LogEntry M)) → length (drop 1 xs) ≡ length xs - 1
  unfolding drop
  length-drop_one [] = omega arith
  length-drop_one (x ∷ xs) = omega arith

  length-appended :
      (max_entries : ℕ) (entry : LogEntry M) (entries : List (LogEntry M))
      → length entries ≤ max_entries
      → length (appended max_entries entry entries) ≤ max_entries
  unfolding appended
  length-appended max_entries entry entries h =
      elim (Bool-cases (ltb max_entries (length (entries ++ entry ∷ [])))) [
        | inl e ↦
            rw (appended, e)
              (omega (
                arith,
                h,
                length-append entries (entry ∷ []),
                length-drop_one (entries ++ entry ∷ []),
              ))
        | inr e ↦ rw (appended, e) (ground (arith, e))
      ]

  logged-IsCounted :
      (n : ℕ) (m : McpMonitor M F) (now : ℕ)
      (level component message session_id adapter_name method : String) (duration : ℕ)
      (err : Option String) (metadata : M)
      → IsCounted n m
      → IsCounted n (
          log_operation now level component message session_id adapter_name method duration err
            metadata m)
  unfolding log_operation
  logged-IsCounted n m now level component message session_id adapter_name method duration err
        metadata h =
      if_both-IsCounted m.config.enable_logging (should_log m.config level) n m _ h (record {
        operations = h.operations;
        sessions = h.sessions;
        adapters = h.adapters;
        by_operation = h.by_operation;
        by_session = h.by_session;
        by_adapter = h.by_adapter;
        bounded = length-appended m.config.max_log_entries _ m.log_entries h.bounded;
      })

  -- A monitor that has recorded n operations since it was made or reset: the requests of its
  -- operations add up to n, those of its sessions and of its adapters to at most n, the counters
  -- and latencies of each fit each other, and the log is no longer than its bound.
  pub Reach-IsCounted : (n : ℕ) (m : McpMonitor M F) → Reach n m → IsCounted n m
  unfolding reset_metrics clear_logs total_of AllBalanced
  Reach-IsCounted n m (made config) = made-IsCounted config
  Reach-IsCounted n d
        (recorded k m _ at_operation at_session at_adapter method session_id adapter_name success
          latency r e) =
      subst (IsCounted n) (sym e) (
        recorded-IsCounted k m at_operation at_session at_adapter method session_id adapter_name
          success latency (Reach-IsCounted k m r))
  Reach-IsCounted n d
        (logged _ m _ now level component message session_id adapter_name method duration err
          metadata r e) =
      subst (IsCounted n) (sym e) (
        logged-IsCounted n m now level component message session_id adapter_name method duration err
          metadata (Reach-IsCounted n m r))
  Reach-IsCounted n d (unlogged _ m _ r e) =
      let h = Reach-IsCounted n m r in
      subst (IsCounted n) (sym e) (record {
        operations = h.operations;
        sessions = h.sessions;
        adapters = h.adapters;
        by_operation = h.by_operation;
        by_session = h.by_session;
        by_adapter = h.by_adapter;
        bounded = omega arith;
      })
  Reach-IsCounted n d (reset k m _ r e) =
      let h = Reach-IsCounted k m r in
      subst (IsCounted 0) (sym e) (record {
        operations = total_of-cleared zero_rate rate m.operation_metrics;
        sessions = omega arith;
        adapters = omega arith;
        by_operation = cleared-AllBalanced zero_rate rate m.operation_metrics;
        by_session = tt;
        by_adapter = tt;
        bounded = h.bounded;
      })
