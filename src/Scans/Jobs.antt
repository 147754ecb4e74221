-- ===== src/Scans/Jobs.antt =====
-- The life of a job of pkg/scanner/scan_manager.go.
use suse_ai_up.Prelude.{
  String, ℕ, Bool, true, false, List, [], ◌∷◌, none, some, ◌≡◌, refl, sym, ap, fun_ext, ◌∙◌, inl,
  inr, Map, lookup, insert, delete, lookup-insert, Option-cases, eq_iff, arith, if◌then◌else◌, ◌==◌,
}
use suse_ai_up.Scans.{
  ScanJob, ScanManager, cancel_job, cancelled_job, finish_scan, finished_job, write_job, is_running,
}

pub lookup-insert_same :
    {V : Type 0} (k : String) (v : V) (m : Map V) → lookup k (insert k v m) ≡ some v
lookup-insert_same k v m = ground (arith, lookup-insert k k v m, eq_iff k k)

module _ {C R E : Type 0} where
  pub write_job-none :
      (f : ScanJob C R E → ScanJob C R E) (id : String) (m : Map (ScanJob C R E))
      → lookup id m ≡ none
      → write_job f id m ≡ m
  unfolding write_job
  write_job-none f id m n = rw (write_job, n) refl

  pub write_job-some :
      (f : ScanJob C R E → ScanJob C R E) (id : String) (m : Map (ScanJob C R E))
      (job : ScanJob C R E)
      → lookup id m ≡ some job
      → write_job f id m ≡ insert id (f job) m
  unfolding write_job
  write_job-some f id m job n = rw (write_job, n) refl

  insert-insert :
      (k : String) (v w : ScanJob C R E) (m : Map (ScanJob C R E))
      → insert k w (insert k v m) ≡ insert k w m
  unfolding insert
  insert-insert k v w [] = ground (arith, eq_iff k k)
  insert-insert k v w ((j, x) ∷ m) = ground (arith, insert-insert k v w m, eq_iff k k, eq_iff j k)

  -- Two writes to a job are one write of both.
  write_job-write_job :
      (f g : ScanJob C R E → ScanJob C R E) (id : String) (m : Map (ScanJob C R E))
      → write_job f id (write_job g id m) ≡ write_job (λ job. f (g job)) id m
  write_job-write_job f g id m = elim (Option-cases (lookup id m)) [
    | inl n ↦
        ap (write_job f id) (write_job-none g id m n)
        ∙ write_job-none f id m n
        ∙ sym (write_job-none (λ job. f (g job)) id m n)
    | inr (job, n) ↦
        ap (write_job f id) (write_job-some g id m job n)
        ∙ write_job-some f id (insert id (g job) m) (g job) (lookup-insert_same id (g job) m)
        ∙ insert-insert id (g job) (f (g job)) m
        ∙ sym (write_job-some (λ j. f (g j)) id m job n)
  ]

  finished_if :
      (print : ℕ → String) (now : ℕ) (results : List R) (errors : List E) (on : Bool)
      (a job : ScanJob C R E)
      → finished_job print now results errors a ≡ finished_job print now results errors job
      → finished_job print now results errors (if on then a else job)
        ≡ finished_job print now results errors job
  finished_if print now results errors true a job h = h
  finished_if print now results errors false a job h = refl

  finished_job-cancelled_job :
      (print : ℕ → String) (now at : ℕ) (results : List R) (errors : List E) (job : ScanJob C R E)
      → finished_job print now results errors (cancelled_job at job)
        ≡ finished_job print now results errors job
  unfolding finished_job cancelled_job
  finished_job-cancelled_job print now at results errors job =
      finished_if print now results errors (is_running job.status) _ job refl

  -- A scan that ends overwrites a cancellation: the manager is the one that there would be without it.
  pub finish_scan-cancel_job :
      (print : ℕ → String) (now at : ℕ) (results : List R) (errors : List E) (id : String)
      (sm : ScanManager C R E)
      → finish_scan print now results errors id (cancel_job at id sm)
        ≡ finish_scan print now results errors id sm
  unfolding finish_scan cancel_job write_job
  finish_scan-cancel_job print now at results errors id sm =
      let with_jobs : Map (ScanJob C R E) → ScanManager C R E = λ jobs. record {
        jobs = jobs;
        next_job_id = sm.next_job_id;
        phases = delete id sm.phases;
      } in
      ap with_jobs (
        write_job-write_job (finished_job print now results errors) (cancelled_job at) id sm.jobs
        ∙ ap (λ f. write_job f id sm.jobs)
            (fun_ext (finished_job-cancelled_job print now at results errors)))

  pub write_job-lookup :
      (f : ScanJob C R E → ScanJob C R E) (id asked : String) (m : Map (ScanJob C R E))
      → lookup asked (write_job f id m) ≡ (
          if id == asked
          then elim (lookup asked m) [ none ↦ none | some job ↦ some (f job) ]
          else lookup asked m)
  unfolding write_job
  write_job-lookup f id asked m = elim (Option-cases (lookup id m)) [
    | inl n ↦ rw (write_job, n) (ground (arith, eq_iff id asked))
    | inr (job, n) ↦
        rw (write_job, n) (ground (arith, eq_iff id asked, lookup-insert id asked (f job) m))
  ]
