-- ===== src/Tests/Scans.antt =====
-- The scan manager at one job, which is cancelled while its scan runs.
use suse_ai_up.Prelude.{String, ℕ, [], ◌∷◌, Option, none, some, ◌≡◌, refl, lookup, insert}
use suse_ai_up.Scans.{
  ScanStatus, cancelled, pending, ScanJob, queued, ScanManager, new_scan_manager, start_scan,
  begin_scan, begun_job, cancel_job, cancelled_job, finish_scan, get_job, is_running, write_job,
}
use suse_ai_up.Scans.Jobs.{finish_scan-cancel_job}
use suse_ai_up.Scans.Followed.{IsFollowed}
use suse_ai_up.Scans.Steps.{
  start_step, begin_step, cancel_step, Reach, made, next, Reach-IsFollowed,
}

abbrev one_digit : ℕ → String
one_digit n = "1"

abbrev Manager : Type 0
Manager = ScanManager String String String

abbrev started : Manager
started = start_scan one_digit 5 "10.0.0.0/24" new_scan_manager

abbrev scanned : Manager
scanned = begin_scan "scan-1" started

abbrev stopped : Manager
stopped = cancel_job 7 "scan-1" scanned

is_queued : lookup "scan-1" started.phases ≡ some queued
unfolding start_scan lookup insert
is_queued = refl

to_stopped : Reach one_digit stopped
to_stopped =
    next scanned stopped
      (next started scanned (next new_scan_manager started made (start_step 5 "10.0.0.0/24" refl))
        (begin_step "scan-1" is_queued refl))
      (cancel_step 7 "scan-1" refl)

Reach-IsFollowed_example : IsFollowed stopped
Reach-IsFollowed_example = Reach-IsFollowed one_digit stopped to_stopped

finish_scan-cancel_job_example :
    finish_scan one_digit 9 ("server" ∷ []) [] "scan-1" stopped
    ≡ finish_scan one_digit 9 ("server" ∷ []) [] "scan-1" scanned
finish_scan-cancel_job_example =
    finish_scan-cancel_job one_digit 9 7 ("server" ∷ []) [] "scan-1" scanned

-- The scan is cancelled at 7; at 9 it counts as completed.
status_of_job : Option (ScanJob String String String) → ScanStatus
status_of_job none = pending
status_of_job (some job) = job.status

stopped_status : status_of_job (get_job "scan-1" stopped) ≡ cancelled
unfolding status_of_job get_job cancel_job cancelled_job begin_scan begun_job start_scan write_job
    lookup insert is_running
stopped_status = refl
