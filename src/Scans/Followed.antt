-- ===== src/Scans/Followed.antt =====
-- What holds between the jobs and the goroutines of pkg/scanner/scan_manager.go, and what one write
-- does to it.
use suse_ai_up.Prelude.{
  String, ℕ, Bool, true, false, Option, none, some, ◌≡◌, ◌⊎◌, refl, sym, ap, subst₂, subst, ◌∙◌,
  inl, inr, Map, lookup, insert, delete, lookup-insert, lookup-delete, IsMap, insert-IsMap,
  Option-cases, Bool-cases, eq_iff, arith, if◌then◌else◌, ◌==◌,
}
use suse_ai_up.Scans.{
  ScanStatus, pending, running, completed, failed, cancelled, ScanJob, Phase, queued, scanning,
  ScanManager, write_job, is_old, has_ended, is_running,
}
use suse_ai_up.Scans.Jobs.{lookup-insert_same, write_job-lookup, write_job-none, write_job-some}

module _ {V : Type 0} where
  pub insert_other :
      (k asked : String) (v : V) (m : Map V)
      → (k == asked) ≡ false
      → lookup asked (insert k v m) ≡ lookup asked m
  insert_other k asked v m n = ground (arith, lookup-insert k asked v m)

  pub delete_other :
      (k asked : String) (m : Map V)
      → (k == asked) ≡ false
      → lookup asked (delete k m) ≡ lookup asked m
  delete_other k asked m n = ground (arith, lookup-delete k asked m)

  pub delete_same : (k : String) (m : Map V) → lookup k (delete k m) ≡ none
  delete_same k m = ground (arith, lookup-delete k k m, eq_iff k k)

pub ended_if : (b : Bool) → has_ended (if b then failed else completed) ≡ true
unfolding has_ended
ended_if true = refl
ended_if false = refl

running-has_ended : (s : ScanStatus) → is_running s ≡ true → has_ended s ≡ false
unfolding is_running has_ended
running-has_ended pending h = refl
running-has_ended running h = refl
running-has_ended cancelled h = refl
running-has_ended completed h = cc
running-has_ended failed h = cc

module _ {C R E : Type 0} where
  -- What goes together: without a goroutine a job has ended.
  unfoldable pub Fits : Option Phase → Option (ScanJob C R E) → Type 0
  Fits none none = Unit
  Fits none (some job) = has_ended job.status ≡ true
  Fits (some phase) none = ⊥
  Fits (some queued) (some job) = job.status ≡ pending
  Fits (some scanning) (some job) = (job.status ≡ running) ⊎ (job.status ≡ cancelled)

  pub record IsFollowed (sm : ScanManager C R E) : Type 0 where
    pub map : IsMap sm.jobs
    pub fits : (id : String) → Fits (lookup id sm.phases) (lookup id sm.jobs)

  pub write_other :
      (f : ScanJob C R E → ScanJob C R E) (id asked : String) (m : Map (ScanJob C R E))
      → (id == asked) ≡ false
      → lookup asked (write_job f id m) ≡ lookup asked m
  write_other f id asked m n = ground (arith, write_job-lookup f id asked m)

  pub write_same :
      (f : ScanJob C R E → ScanJob C R E) (id : String) (m : Map (ScanJob C R E))
      (job : ScanJob C R E)
      → lookup id m ≡ some job
      → lookup id (write_job f id m) ≡ some (f job)
  write_same f id m job n =
      ap (lookup id) (write_job-some f id m job n) ∙ lookup-insert_same id (f job) m

  pub write_job-IsMap :
      (f : ScanJob C R E → ScanJob C R E) (id : String) (m : Map (ScanJob C R E))
      → IsMap m
      → IsMap (write_job f id m)
  write_job-IsMap f id m h = elim (Option-cases (lookup id m)) [
    | inl n ↦ subst (λ s. IsMap s) (sym (write_job-none f id m n)) h
    | inr (job, n) ↦
        subst (λ s. IsMap s) (sym (write_job-some f id m job n)) (insert-IsMap id (f job) m h)
  ]

  pub cancel_if :
      (b : Bool) (p : Option Phase) (job other : ScanJob C R E)
      → is_running job.status ≡ b
      → other.status ≡ cancelled
      → Fits p (some job)
      → Fits p (some (if b then other else job))
  unfolding Fits is_running
  cancel_if false p job other e c h = h
  cancel_if true none job other e c h =
      let n : has_ended job.status ≡ false = running-has_ended job.status e in absurd cc
  cancel_if true (some queued) job other e c h =
      let n : is_running job.status ≡ false = ap is_running h in absurd cc
  cancel_if true (some scanning) job other e c h = inr c

  pub old_if :
      (b : Bool) (p : Option Phase) (job : ScanJob C R E)
      → (b ≡ true → has_ended job.status ≡ true)
      → Fits p (some job)
      → Fits p (if b then none else some job)
  unfolding Fits has_ended
  old_if false p job e h = h
  old_if true none job e h = tt
  old_if true (some queued) job e h =
      let n : has_ended job.status ≡ false = ap has_ended h in let y = e refl in absurd cc
  old_if true (some scanning) job e h =
      let y = e refl in
      elim h [
        | inl r ↦ (let n : has_ended job.status ≡ false = ap has_ended r in absurd cc)
        | inr r ↦ (let n : has_ended job.status ≡ false = ap has_ended r in absurd cc)
      ]

  pub owned :
      (c : ScanManager C R E) (id : String) (phase : Phase)
      → IsFollowed c
      → lookup id c.phases ≡ some phase
      → (job : ScanJob C R E) × (lookup id c.jobs ≡ some job) × Fits (some phase) (some job)
  unfolding Fits
  owned c id phase h at = elim (Option-cases (lookup id c.jobs)) [
    | inl n ↦ absurd (subst₂ Fits at n (h.fits id))
    | inr (job, n) ↦ (job, n, subst₂ Fits at n (h.fits id))
  ]

  pub is_old-has_ended :
      (now max_age : ℕ) (job : ScanJob C R E)
      → is_old now max_age job ≡ true
      → has_ended job.status ≡ true
  unfolding is_old
  is_old-has_ended now max_age job h = elim (Bool-cases (has_ended job.status)) [
    | inl e ↦ e
    | inr e ↦ absurd (cc (rw (is_old, e) at h))
  ]
