-- ===== src/Jobs/Flags.antt =====
-- `update_job_protection_flags` and `record_job_heartbeat` of app/api/v1/endpoints/jobs.py.
use noc_iq_be.Prelude.{
  ℕ, String, Bool, ◌||◌, Option, none, some, if◌then◌else◌, first, http_exception, Result, ok, err,
}
use noc_iq_be.Jobs.Rows.{pending, started, same_status, Job, Jobs, has_id}
use noc_iq_be.Jobs.Lifecycle.{heartbeat_job}
use noc_iq_be.Jobs.Endpoints.{JobsDb, not_found, write, log_event, or_404}

abbrev or_kept : Option Bool → Bool → Bool
or_kept none old = old
or_kept (some new) old = new

abbrev pub flag : (investigation dispute : Option Bool) → Job → Job
flag investigation dispute j = record j {
  under_investigation = or_kept investigation j.under_investigation;
  under_dispute = or_kept dispute j.under_dispute;
}

abbrev pub log_if : Option Bool → String → String → JobsDb → JobsDb
log_if none event id db = db
log_if (some b) event id db = log_event event id db

-- Each entry of the log commits what stands before it, and the last commit the rest.
unfoldable pub update_job_protection_flags :
    String → (under_investigation under_dispute : Option Bool) → JobsDb → Result Job × JobsDb
update_job_protection_flags id investigation dispute db =
    or_404
      (λ job. (
        flag investigation dispute job,
        write id (flag investigation dispute) (
            log_if dispute "job_dispute_flag_changed" id
              (log_if investigation "job_investigation_flag_changed" id db)),
      ))
      db (first (has_id id) db.jobs)

abbrev pub or_500 : JobsDb → Option Job × Jobs → Result Job × JobsDb
or_500 db (none, jobs) =
    (err (http_exception 500 "Failed to update heartbeat."), record db { jobs = jobs })
or_500 db (some job, jobs) = (ok job, record db { jobs = jobs })

abbrev pub beat_found : ℕ → (worker : String) → ℕ → JobsDb → Option Job → Result Job × JobsDb
beat_found timeout worker now db none = (err not_found, db)
beat_found timeout worker now db (some job) =
    if same_status job.status started || same_status job.status pending
    then or_500 db (heartbeat_job job.celery_task_id worker timeout now db.jobs)
    else (err (http_exception 400 "Cannot heartbeat a job with this status."), db)

unfoldable pub record_job_heartbeat : ℕ → (id worker : String) → ℕ → JobsDb → Result Job × JobsDb
record_job_heartbeat timeout id worker now db =
    beat_found timeout worker now db (first (has_id id) db.jobs)
