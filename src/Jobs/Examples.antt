-- ===== src/Jobs/Examples.antt =====
-- Tests and examples of the jobs.
use noc_iq_be.Prelude.{
  ℕ, String, ◌≡◌, refl, Bool, true, false, Option, none, some, List, [], ◌∷◌, arith, filter, err,
}
use noc_iq_be.Jobs.Rows.{JobStatus, success, failure, sla_computation, Job, Jobs}
use noc_iq_be.Jobs.Cleanup.{is_eligible, delete_loop, cleanup_old_jobs}
use noc_iq_be.Jobs.Lifecycle.{JobSettings}
use noc_iq_be.Jobs.Endpoints.{JobsDb, Enqueued, log_event}
use noc_iq_be.Jobs.Retries.{Payload, again, failed_500, retry_job}
use noc_iq_be.Jobs.Restarts.{with_twin, retry_job-twin}
use noc_iq_be.Jobs.Successes.{Succeeded}
use noc_iq_be.Jobs.Requests.{
  Request, get_request, cancel_request, retry_request, handle_all, handle_all-Succeeded,
}
use noc_iq_be.Jobs.Sweeps.{is_protected, delete_loop_lem, cleanup_old_jobs-protects}

abbrev job : String → JobStatus → Bool → Job
job id status disputed = record {
  id = id;
  celery_task_id = id;
  job_type = sla_computation;
  payload = none;
  retry_class = none;
  status = status;
  retry_count = 0;
  max_retries = 3;
  error = none;
  started_at = none;
  finished_at = some 5;
  heartbeat_at = none;
  lease_expires_at = none;
  worker_id = none;
  under_investigation = false;
  under_dispute = disputed;
  audit_critical = false;
}

abbrev table : Jobs
table = job "j1" success false ∷ job "j2" success true ∷ job "j3" failure false ∷ []

abbrev old : Job → Bool
old = is_eligible success 10 100

delete_loop_lem_example :
    delete_loop 4 old 1 table ≡ some (1, job "j2" success true ∷ job "j3" failure false ∷ [])
unfolding is_eligible
delete_loop_lem_example = delete_loop_lem 4 old 1 table (omega arith) (omega arith)

abbrev windows : List (JobStatus × ℕ)
windows = (success, 10) ∷ (failure, 20) ∷ []

cleanup_old_jobs-protects_example :
    (counts : List ℕ) × (left : Jobs) × (cleanup_old_jobs 4 100 windows 2 false table
      ≡ some (counts, left))
    × (filter is_protected left ≡ job "j2" success true ∷ [])
cleanup_old_jobs-protects_example =
    cleanup_old_jobs-protects 4 100 windows 2 false table (omega arith) (omega arith)

abbrev settings : JobSettings
settings = record { lease_timeout = 120; dead_letter_enabled = true }

abbrev db : JobsDb
db = record { jobs = table; audit = [] }

abbrev enqueued : Enqueued
enqueued = record { task = some "t9"; new_id = "j9"; arguments = "{}" }

abbrev no_payload : String → Option Payload
no_payload text = none

retry_job-twin_example : retry_job no_payload settings "j3" enqueued 50 db ≡ (
  err failed_500,
  with_twin again enqueued "t9" (job "j3" failure false) (log_event "job_retry_initiated" "j3" db),
)
retry_job-twin_example =
    retry_job-twin no_payload settings "j3" enqueued 50 db (job "j3" failure false)
      (record { delivery_id = none; idempotency_key = none }) "t9" refl refl refl refl refl refl
      refl refl

abbrev requests : List Request
requests = cancel_request "j1" ∷ get_request "STARTED" "j1" ∷ retry_request "j3" enqueued 50 ∷ []

handle_all-Succeeded_example : Succeeded "j1" (handle_all no_payload settings requests db).jobs
handle_all-Succeeded_example =
    handle_all-Succeeded no_payload settings "j1" requests db (job "j1" success false, refl, refl)
