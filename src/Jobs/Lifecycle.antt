-- ===== src/Jobs/Lifecycle.antt =====
-- What a task makes of its job, in app/tasks/sla_tasks.py: `_mark_started`, `_heartbeat`,
-- `_mark_success` and `_mark_failure`; the heartbeat of a worker and the reclaiming of stale leases in
-- app/services/job_cleanup.py. The texts of errors, codes and audit events are not kept.
use noc_iq_be.Prelude.{
  ℕ, zero, suc, ◌+◌, String, Bool, false, ◌&&◌, Option, none, some, [], ◌∷◌, ltb, leb,
  if◌then◌else◌, first, update_first,
}
use noc_iq_be.Prelude.Dict.{is_some}
use noc_iq_be.Jobs.Rows.{
  JobStatus, pending, started, success, failure, quarantined, dead_letter, same_status, Job, Jobs,
  has_task,
}

pub record JobSettings : Type 0 where
  pub lease_timeout : ℕ
  pub dead_letter_enabled : Bool

module _ (settings : JobSettings) where
  unfoldable pub start_job : ℕ → Job → Job
  start_job now job = record job {
    status = started;
    started_at = some now;
    heartbeat_at = some now;
    lease_expires_at = some (now + settings.lease_timeout);
  }

  unfoldable pub mark_started : String → ℕ → Jobs → Jobs
  mark_started task now = update_first (has_task task) (start_job now)

  unfoldable pub extend_lease : ℕ → Job → Job
  extend_lease now job =
      if same_status job.status started
      then record job {
        heartbeat_at = some now;
        lease_expires_at = some (now + settings.lease_timeout);
      }
      else job

  unfoldable pub heartbeat : String → ℕ → Jobs → Jobs
  heartbeat task now = update_first (has_task task) (extend_lease now)

  -- The status of a job whose retries are exhausted.
  abbrev pub exhausted_status : JobStatus
  exhausted_status = if settings.dead_letter_enabled then dead_letter else quarantined

  -- The quarantine keeps the old error and writes the new one to its reason.
  unfoldable pub fail_job : ℕ → String → Job → Job
  fail_job now error job =
      let attempts = job.retry_count + 1 in
      if leb job.max_retries attempts
      then record job {
        status = exhausted_status;
        retry_count = attempts;
        error = if settings.dead_letter_enabled then some error else job.error;
        finished_at = some now;
      }
      else record job {
        status = failure;
        retry_count = attempts;
        error = some error;
        finished_at = some now;
      }

  unfoldable pub mark_failure : String → ℕ → String → Jobs → Jobs
  mark_failure task now error = update_first (has_task task) (fail_job now error)

unfoldable pub succeed_job : ℕ → Job → Job
succeed_job now job = record job {
  status = success;
  finished_at = some now;
  lease_expires_at = none;
  heartbeat_at = none;
}

unfoldable pub mark_success : String → ℕ → Jobs → Jobs
mark_success task now = update_first (has_task task) (succeed_job now)

unfoldable pub beat : String → ℕ → ℕ → Job → Job
beat worker timeout now job = record job {
  heartbeat_at = some now;
  lease_expires_at = some (now + timeout);
  worker_id = some worker;
}

unfoldable pub heartbeat_job : (task worker : String) → ℕ → ℕ → Jobs → Option Job × Jobs
heartbeat_job task worker timeout now jobs =
    let jobs' = update_first (has_task task) (beat worker timeout now) jobs in
    (first (has_task task) jobs', jobs')

abbrev pub before : Option ℕ → ℕ → Bool
before none now = false
before (some t) now = ltb t now

unfoldable pub is_stale : ℕ → Job → Bool
is_stale now job =
    before job.lease_expires_at now && (is_some job.worker_id && same_status job.status started)

unfoldable pub reclaim : Job → Job
reclaim job = record job {
  worker_id = none;
  heartbeat_at = none;
  lease_expires_at = none;
  status = pending;
  started_at = none;
  error = some "Lease expired";
}

-- The first stale jobs, up to the size of the batch; the number found with them, which the caller never
-- gets: the closing call of the logger, after the commit, raises TypeError on its positional arguments.
unfoldable pub reclaim_stale_leases : ℕ → ℕ → Bool → Jobs → ℕ × Jobs
reclaim_stale_leases now batch dry_run [] = (0, [])
reclaim_stale_leases now zero dry_run (job ∷ jobs) = (0, job ∷ jobs)
reclaim_stale_leases now (suc batch) dry_run (job ∷ jobs) =
    let (n, rest) = reclaim_stale_leases now batch dry_run jobs in
    let (m, same) = reclaim_stale_leases now (suc batch) dry_run jobs in
    if is_stale now job
    then (n + 1, (if dry_run then job else reclaim job) ∷ rest)
    else (m, job ∷ same)
