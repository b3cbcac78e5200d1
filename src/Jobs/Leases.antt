-- ===== src/Jobs/Leases.antt =====
-- The leases of jobs: no call of a task in app/tasks/sla_tasks.py names a worker, which the reclaiming
-- in app/services/job_cleanup.py asks for.
use noc_iq_be.Prelude.{
  ℕ, zero, suc, ◌+◌, String, ◌≡◌, refl, ap, inl, inr, Bool, false, none, List, [], ◌∷◌, leb,
  Bool-cases, update_first, All,
}
use noc_iq_be.Prelude.Dict.{is_some}
use noc_iq_be.Jobs.Rows.{started, same_status, Job, Jobs, has_task}
use noc_iq_be.Jobs.Lifecycle.{
  JobSettings, start_job, mark_started, extend_lease, heartbeat, fail_job, mark_failure,
  succeed_job, mark_success, before, is_stale, reclaim_stale_leases,
}

-- A call that a task makes of its job.
pub data TaskOp : Type 0 where
  start_op heartbeat_op success_op : String → ℕ → TaskOp
  failure_op : String → ℕ → String → TaskOp

unfoldable pub step : JobSettings → TaskOp → Jobs → Jobs
step settings (start_op task now) = mark_started settings task now
step settings (heartbeat_op task now) = heartbeat settings task now
step settings (success_op task now) = mark_success task now
step settings (failure_op task now error) = mark_failure settings task now error

unfoldable pub run : JobSettings → List TaskOp → Jobs → Jobs
run settings [] jobs = jobs
run settings (op ∷ ops) jobs = run settings ops (step settings op jobs)

All-update_first :
    (P : Job → Type 0) (p : Job → Bool) (f : Job → Job) (jobs : Jobs)
    → ((job : Job) → P job → P (f job))
    → All P jobs
    → All P (update_first p f jobs)
All-update_first P p f [] h all = tt
All-update_first P p f (job ∷ jobs) h all = elim (Bool-cases (p job)) [
  | inl e ↦ rw e (h job all.0, all.1)
  | inr e ↦ rw e (all.0, All-update_first P p f jobs h all.1)
]

abbrev Unowned : Job → Type 0
Unowned job = job.worker_id ≡ none

extend_lease-Unowned :
    (settings : JobSettings) (now : ℕ) (job : Job)
    → Unowned job
    → Unowned (extend_lease settings now job)
unfolding extend_lease
extend_lease-Unowned settings now job h = elim (Bool-cases (same_status job.status started)) [
  | inl e ↦ rw e h
  | inr e ↦ rw e h
]

fail_job-Unowned :
    (settings : JobSettings) (now : ℕ) (error : String) (job : Job)
    → Unowned job
    → Unowned (fail_job settings now error job)
unfolding fail_job
fail_job-Unowned settings now error job h =
    elim (Bool-cases (leb job.max_retries (job.retry_count + 1))) [
      | inl e ↦ rw e h
      | inr e ↦ rw e h
    ]

step-Unowned :
    (settings : JobSettings) (op : TaskOp) (jobs : Jobs)
    → All Unowned jobs
    → All Unowned (step settings op jobs)
unfolding step mark_started heartbeat mark_success mark_failure
step-Unowned settings (start_op task now) jobs all =
    All-update_first Unowned (has_task task) (start_job settings now) jobs
      (λ job h. unfold start_job in h) all
step-Unowned settings (heartbeat_op task now) jobs all =
    All-update_first Unowned (has_task task) (extend_lease settings now) jobs
      (extend_lease-Unowned settings now) all
step-Unowned settings (success_op task now) jobs all =
    All-update_first Unowned (has_task task) (succeed_job now) jobs
      (λ job h. unfold succeed_job in h) all
step-Unowned settings (failure_op task now error) jobs all =
    All-update_first Unowned (has_task task) (fail_job settings now error) jobs
      (fail_job-Unowned settings now error) all

run-Unowned :
    (settings : JobSettings) (ops : List TaskOp) (jobs : Jobs)
    → All Unowned jobs
    → All Unowned (run settings ops jobs)
unfolding run
run-Unowned settings [] jobs all = all
run-Unowned settings (op ∷ ops) jobs all =
    run-Unowned settings ops (step settings op jobs) (step-Unowned settings op jobs all)

is_stale-Unowned : (now : ℕ) (job : Job) → Unowned job → is_stale now job ≡ false
unfolding is_stale
is_stale-Unowned now job h = elim (Bool-cases (before job.lease_expires_at now)) [
  | inl e ↦ rw (e, ap is_some h) refl
  | inr e ↦ rw e refl
]

none_reclaimed :
    (now batch : ℕ) (dry_run : Bool) (jobs : Jobs)
    → All Unowned jobs
    → reclaim_stale_leases now batch dry_run jobs ≡ (0, jobs)
unfolding reclaim_stale_leases
none_reclaimed now batch dry_run [] all = refl
none_reclaimed now zero dry_run (job ∷ jobs) all = refl
none_reclaimed now (suc batch) dry_run (job ∷ jobs) all =
    rw (is_stale-Unowned now job all.0, none_reclaimed now (suc batch) dry_run jobs all.1) refl

-- The lease of a job that a task has taken is never reclaimed, however long ago it has expired: no
-- call of a task names a worker, and a job without one is not stale.
pub reclaim_stale_leases-run :
    (settings : JobSettings) (ops : List TaskOp) (jobs : Jobs) (now batch : ℕ) (dry_run : Bool)
    → All (λ job. job.worker_id ≡ none) jobs
    → reclaim_stale_leases now batch dry_run (run settings ops jobs) ≡ (0, run settings ops jobs)
reclaim_stale_leases-run settings ops jobs now batch dry_run all =
    none_reclaimed now batch dry_run (run settings ops jobs) (run-Unowned settings ops jobs all)
