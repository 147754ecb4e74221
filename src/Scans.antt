-- ===== src/Scans.antt =====
-- `ScanManager` of pkg/scanner/scan_manager.go: its jobs and the goroutine that runs each of them.
-- `C`, `R` and `E` are the types of a configuration, of a result and of an error of a scan. What
-- `runScan` writes to the discovery store afterwards is left out.
pub mod Followed
pub mod Jobs
pub mod Steps
use Prim.Native.String.{◌++◌}
use suse_ai_up.Prelude.{
  String, ℕ, Bool, true, false, ◌+◌, ◌&&◌, ◌||◌, List, [], ◌∷◌, Option, none, some, ◌≡◌, ltb,
  length, nat_eq, if◌then◌else◌, Map, lookup, insert, delete, delete_where, values,
}

pub data ScanStatus : Type 0 where
  pending running completed failed cancelled : ScanStatus

-- `progress` is 0 or 1.
pub record ScanJob (C R E : Type 0) : Type 0 where
  pub id : String
  pub status : ScanStatus
  pub config : C
  pub results : List R
  pub errors : List E
  pub start_time : ℕ
  pub end_time : Option ℕ
  pub progress : ℕ
  pub message : String

-- Where the goroutine of a job is: before its first `Lock`, and in the scan.
pub data Phase : Type 0 where
  queued scanning : Phase

-- `phases` has the goroutines that have not written their results yet.
pub record ScanManager (C R E : Type 0) : Type 0 where
  pub jobs : Map (ScanJob C R E)
  pub next_job_id : ℕ
  pub phases : Map Phase

-- `job.Status == ScanStatusCompleted || job.Status == ScanStatusFailed`
unfoldable pub has_ended : ScanStatus → Bool
has_ended completed = true
has_ended failed = true
has_ended pending = false
has_ended running = false
has_ended cancelled = false

unfoldable pub is_running : ScanStatus → Bool
is_running running = true
is_running pending = false
is_running completed = false
is_running failed = false
is_running cancelled = false

module _ {C R E : Type 0} where
  abbrev pub new_scan_manager : ScanManager C R E
  new_scan_manager = record { jobs = []; next_job_id = 1; phases = [] }

  abbrev pub queued_job : (id : String) → C → (now : ℕ) → ScanJob C R E
  queued_job id config now = record {
    id = id;
    status = pending;
    config = config;
    results = [];
    errors = [];
    start_time = now;
    end_time = none;
    progress = 0;
    message = "Scan queued";
  }

  -- `print` is `%d`.
  unfoldable pub start_scan :
      (print : ℕ → String) (now : ℕ) → C → ScanManager C R E → ScanManager C R E
  start_scan print now config sm =
      let id = "scan-" ++ print sm.next_job_id in
      record {
        jobs = insert id (queued_job id config now) sm.jobs;
        next_job_id = sm.next_job_id + 1;
        phases = insert id queued sm.phases;
      }

  unfoldable pub get_job : String → ScanManager C R E → Option (ScanJob C R E)
  get_job job_id sm = lookup job_id sm.jobs

  unfoldable pub list_jobs : ScanManager C R E → List (ScanJob C R E)
  list_jobs sm = values sm.jobs

  -- A write through the pointer to a job.
  unfoldable pub write_job :
      (ScanJob C R E → ScanJob C R E) → (id : String) → Map (ScanJob C R E) → Map (ScanJob C R E)
  write_job f id jobs = elim (lookup id jobs) [ none ↦ jobs | some job ↦ insert id (f job) jobs ]

  unfoldable pub cancelled_job : (now : ℕ) → ScanJob C R E → ScanJob C R E
  cancelled_job now job =
      if is_running job.status
      then record job {
        status = cancelled;
        message = "Scan cancelled by user";
        end_time = some now;
      }
      else job

  -- The error, no such job, leaves the manager as it is.
  unfoldable pub cancel_job : (now : ℕ) → String → ScanManager C R E → ScanManager C R E
  cancel_job now job_id sm = record sm { jobs = write_job (cancelled_job now) job_id sm.jobs }

  unfoldable pub begun_job : ScanJob C R E → ScanJob C R E
  begun_job job = record job { status = running; message = "Scan in progress" }

  -- The first critical section of `runScan`.
  unfoldable pub begin_scan : String → ScanManager C R E → ScanManager C R E
  begin_scan id sm = record sm {
    jobs = write_job begun_job id sm.jobs;
    phases = insert id scanning sm.phases;
  }

  unfoldable pub finished_job :
      (print : ℕ → String) (now : ℕ) → List R → List E → ScanJob C R E → ScanJob C R E
  finished_job print now results errors job =
      let has_failed = ltb 0 (length errors) && nat_eq (length results) 0 in
      record job {
        end_time = some now;
        results = results;
        errors = errors;
        progress = 1;
        status = if has_failed then failed else completed;
        message =
            if has_failed
            then "Scan failed with " ++ (print (length errors) ++ " errors")
            else "Scan completed: found " ++ (print (length results) ++ " servers");
      }

  -- The second one, with what `Scan` has returned.
  unfoldable pub finish_scan :
      (print : ℕ → String) (now : ℕ)
      → List R
      → List E
      → String
      → ScanManager C R E
      → ScanManager C R E
  finish_scan print now results errors id sm = record sm {
    jobs = write_job (finished_job print now results errors) id sm.jobs;
    phases = delete id sm.phases;
  }

  -- The test of `CleanupOldJobs`, for an age that is not negative.
  unfoldable pub is_old : (now max_age : ℕ) → ScanJob C R E → Bool
  is_old now max_age job =
      has_ended job.status
      && (elim job.end_time [ none ↦ false | some ended ↦ ltb (ended + max_age) now ])

  unfoldable pub cleanup_old_jobs : (now max_age : ℕ) → ScanManager C R E → ScanManager C R E
  cleanup_old_jobs now max_age sm = record sm {
    jobs = delete_where (λ _ job. is_old now max_age job) sm.jobs;
  }
