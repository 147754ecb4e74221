-- ===== src/Scans/Steps.antt =====
-- The calls and the goroutines of pkg/scanner/scan_manager.go as steps, and the status of a job in each of
-- their states.
use Prim.Native.String.{◌++◌}
use suse_ai_up.Prelude.{
  String, ℕ, Bool, List, none, some, ◌≡◌, refl, sym, subst₂, subst, inl, inr, lookup, insert,
  delete, lookup-delete_where, insert-IsMap, delete_where-IsMap, Option-cases, String-cases,
  if◌then◌else◌,
}
use suse_ai_up.Scans.{
  ScanJob, queued, scanning, ScanManager, new_scan_manager, queued_job, start_scan, cancel_job,
  cancelled_job, begin_scan, begun_job, finish_scan, finished_job, cleanup_old_jobs, write_job,
  is_old, is_running,
}
use suse_ai_up.Scans.Jobs.{lookup-insert_same, write_job-none}
use suse_ai_up.Scans.Followed.{
  insert_other, delete_other, delete_same, ended_if, write_other, write_same, write_job-IsMap,
  cancel_if, old_if, owned, is_old-has_ended, Fits, IsFollowed,
}

module _ {C R E : Type 0} where
  pub data Step (print : ℕ → String) (c d : ScanManager C R E) : Type 0 where
    start_step : (now : ℕ) (config : C) → d ≡ start_scan print now config c → Step print c d
    begin_step :
        (id : String) → lookup id c.phases ≡ some queued → d ≡ begin_scan id c → Step print c d
    finish_step :
        (now : ℕ) (results : List R) (errors : List E) (id : String)
        → lookup id c.phases ≡ some scanning
        → d ≡ finish_scan print now results errors id c
        → Step print c d
    cancel_step : (now : ℕ) (id : String) → d ≡ cancel_job now id c → Step print c d
    cleanup_step : (now max_age : ℕ) → d ≡ cleanup_old_jobs now max_age c → Step print c d

  module _ (print : ℕ → String) where
    Step-IsFollowed : (c d : ScanManager C R E) → IsFollowed c → Step print c d → IsFollowed d
    unfolding start_scan begin_scan finish_scan cancel_job cleanup_old_jobs cancelled_job
        finished_job begun_job Fits
    Step-IsFollowed c d h (start_step now config e) =
        let id = "scan-" ++ print c.next_job_id in
        let job = queued_job id config now in
        subst IsFollowed (sym e) (record {
          map = insert-IsMap id job c.jobs h.map;
          fits = λ asked. elim (String-cases id asked) [
            | inl s ↦
                subst
                  (λ x.
                    Fits (lookup x (insert id queued c.phases)) (lookup x (insert id job c.jobs)))
                  s
                  (subst₂ Fits (sym (lookup-insert_same id queued c.phases))
                    (sym (lookup-insert_same id job c.jobs)) refl)
            | inr (n, o) ↦
                subst₂ Fits (sym (insert_other id asked queued c.phases o))
                  (sym (insert_other id asked job c.jobs o)) (h.fits asked)
          ];
        })
    Step-IsFollowed c d h (begin_step id at e) = subst IsFollowed (sym e) (record {
      map = write_job-IsMap begun_job id c.jobs h.map;
      fits = λ asked. elim (String-cases id asked) [
        | inl s ↦
            subst
              (λ x.
                Fits (lookup x (insert id scanning c.phases))
                  (lookup x (write_job begun_job id c.jobs)))
              s
              (let (job, l, own) = owned c id queued h at in
                subst₂ Fits (sym (lookup-insert_same id scanning c.phases))
                  (sym (write_same begun_job id c.jobs job l)) (inl refl))
        | inr (n, o) ↦
            subst₂ Fits (sym (insert_other id asked scanning c.phases o))
              (sym (write_other begun_job id asked c.jobs o)) (h.fits asked)
      ];
    })
    Step-IsFollowed c d h (finish_step now results errors id at e) =
        let f : ScanJob C R E → ScanJob C R E = finished_job print now results errors in
        subst IsFollowed (sym e) (record {
          map = write_job-IsMap f id c.jobs h.map;
          fits = λ asked. elim (String-cases id asked) [
            | inl s ↦
                subst (λ x. Fits (lookup x (delete id c.phases)) (lookup x (write_job f id c.jobs)))
                  s
                  (let (job, l, own) = owned c id scanning h at in
                    subst₂ Fits (sym (delete_same id c.phases)) (sym (write_same f id c.jobs job l))
                      (ended_if _))
            | inr (n, o) ↦
                subst₂ Fits (sym (delete_other id asked c.phases o))
                  (sym (write_other f id asked c.jobs o)) (h.fits asked)
          ];
        })
    Step-IsFollowed c d h (cancel_step now id e) = subst IsFollowed (sym e) (record {
      map = write_job-IsMap (cancelled_job now) id c.jobs h.map;
      fits = λ asked. elim (String-cases id asked) [
        | inl s ↦
            subst
              (λ x. Fits (lookup x c.phases) (lookup x (write_job (cancelled_job now) id c.jobs))) s
              (elim (Option-cases (lookup id c.jobs)) [
                | inl l ↦
                    subst (λ m. Fits (lookup id c.phases) (lookup id m))
                      (sym (write_job-none (cancelled_job now) id c.jobs l)) (h.fits id)
                | inr (job, l) ↦
                    subst (Fits (lookup id c.phases))
                      (sym (write_same (cancelled_job now) id c.jobs job l))
                      (cancel_if (is_running job.status) (lookup id c.phases) job _ refl refl
                        (subst (Fits (lookup id c.phases)) l (h.fits id)))
              ])
        | inr (n, o) ↦
            subst (Fits (lookup asked c.phases))
              (sym (write_other (cancelled_job now) id asked c.jobs o)) (h.fits asked)
      ];
    })
    Step-IsFollowed c d h (cleanup_step now max_age e) =
        let old : String → ScanJob C R E → Bool = λ _ job. is_old now max_age job in
        subst IsFollowed (sym e) (record {
          map = delete_where-IsMap old c.jobs h.map;
          fits = λ asked.
              subst (Fits (lookup asked c.phases))
                (sym (lookup-delete_where old asked c.jobs h.map))
                (elim (Option-cases (lookup asked c.jobs)) [
                  | inl l ↦
                      subst
                        (λ o.
                          Fits (lookup asked c.phases) (elim o [
                            | none ↦ none
                            | some v ↦ if old asked v then none else some v
                          ]))
                        (sym l) (subst (Fits (lookup asked c.phases)) l (h.fits asked))
                  | inr (job, l) ↦
                      subst
                        (λ o.
                          Fits (lookup asked c.phases) (elim o [
                            | none ↦ none
                            | some v ↦ if old asked v then none else some v
                          ]))
                        (sym l)
                        (old_if (is_old now max_age job) (lookup asked c.phases) job
                          (is_old-has_ended now max_age job)
                          (subst (Fits (lookup asked c.phases)) l (h.fits asked)))
                ]);
        })

    pub data Reach : ScanManager C R E → Type 0 where
      made : Reach new_scan_manager
      next : (c d : ScanManager C R E) → Reach c → Step print c d → Reach d

    -- In every state that calls and goroutines of a new manager can reach: the job of a goroutine
    -- that waits to begin is stored and pending, that of one which scans is stored and running or
    -- cancelled, and a stored job without a goroutine is completed or failed. So no job is removed
    -- before its scan has ended.
    pub Reach-IsFollowed : (c : ScanManager C R E) → Reach c → IsFollowed c
    unfolding Fits lookup
    Reach-IsFollowed c made = record { map = tt; fits = λ _. tt }
    Reach-IsFollowed c (next b d r s) = Step-IsFollowed b c (Reach-IsFollowed b r) s
