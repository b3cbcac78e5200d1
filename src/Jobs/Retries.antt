-- ===== src/Jobs/Retries.antt =====
-- `retry_job` and `release_job_from_quarantine` of app/api/v1/endpoints/jobs.py. The columns of the
-- error, the dead letter and the quarantine that they clear are not kept.
use noc_iq_be.Prelude.{
  ℕ, ◌+◌, String, Bool, true, false, ◌&&◌, ◌||◌, not, Option, none, some, str_eq, leb,
  if◌then◌else◌, first, Error, type_error, http_exception, ◌==◌, Result, ok, err,
}
use noc_iq_be.Prelude.Dict.{is_some}
use noc_iq_be.Jobs.Rows.{
  JobStatus, pending, started, success, failure, revoked, quarantined, dead_letter, same_status,
  JobType, sla_computation, webhook_dispatch, bulk_sla_computation, webhook_dr_replay, Job,
  has_task, has_id,
}
use noc_iq_be.Jobs.Lifecycle.{JobSettings}
use noc_iq_be.Jobs.Endpoints.{JobsDb, not_found, write, log_event, Enqueued, enqueue_computation}

-- The keys of a dispatch's payload; `parse` is `json.loads`, and none is its exception.
pub record Payload : Type 0 where
  pub delivery_id : Option String
  pub idempotency_key : Option String

abbrev empty_payload : Payload
empty_payload = record { delivery_id = none; idempotency_key = none }

-- `json.loads(job.payload) if job.payload else {}`
abbrev pub payload_of : (String → Option Payload) → Option String → Option Payload
payload_of parse none = some empty_payload
payload_of parse (some text) = if str_eq text "" then some empty_payload else parse text

abbrev truthy : Option String → Bool
truthy none = false
truthy (some text) = not (str_eq text "")

abbrev pub is_retryable : JobStatus → Bool
is_retryable status = elim status [
  | pending ↦ false
  | started ↦ false
  | success ↦ false
  | failure ↦ true
  | revoked ↦ true
  | quarantined ↦ false
  | dead_letter ↦ true
]

-- `job.retry_class == RetryClass.AT_MOST_ONCE.value`
abbrev pub at_most_once : Option String → Bool
at_most_once none = false
at_most_once (some class) = str_eq class "at_most_once"

abbrev pub bury : ℕ → Job → Job
bury now job = record job { status = dead_letter; finished_at = some now }

abbrev pub again : Job → Job
again job = record job {
  retry_count = job.retry_count + 1;
  error = none;
  status = pending;
  started_at = none;
  finished_at = none;
}

abbrev pub released : Job → Job
released job = record job {
  retry_count = 0;
  error = none;
  finished_at = none;
  started_at = none;
  status = pending;
}

abbrev pub retask : String → Job → Job
retask task job = record job { celery_task_id = task }

abbrev pub failed_500 : Error
failed_500 = http_exception 500 "Failed to retry job"

abbrev pub unsupported : Error
unsupported = http_exception 400 "Unsupported job type"

-- The commit that writes a task's id to a job: the ids of tasks are unique. The handler rolls it back.
abbrev pub commit_task : String → Job → JobsDb → Result Job × JobsDb
commit_task task job db =
    if is_some (first (has_task task) db.jobs)
    then (err failed_500, db)
    else (ok (retask task job), write job.id (retask task) db)

-- What follows the enqueueing of a computation, which has committed the edits of the job with its own
-- row; if it raises, the edits are rolled back to `before`.
abbrev pub after_enqueue : JobsDb → Job → Result Job × JobsDb → Result Job × JobsDb
after_enqueue before job (err e, db) = (err failed_500, before)
after_enqueue before job (ok new, db) = commit_task new.celery_task_id job db

-- The task of a dispatch is enqueued with no row of its own.
abbrev pub after_delay : JobsDb → Job → (Job → Job) → Option String → Result Job × JobsDb
after_delay before job f none = (err failed_500, before)
after_delay before job f (some task) =
    if is_some (first (has_task task) before.jobs)
    then (err failed_500, before)
    else (ok (retask task (f job)), write job.id (λ j. retask task (f j)) before)

-- The part of the two endpoints that starts the task anew: `f` edits the job, and `deliver` says
-- whether a dispatch has what it needs.
abbrev pub start_anew : (Job → Job) → Enqueued → Job → JobsDb → Bool → JobType → Result Job × JobsDb
start_anew f e job before deliver sla_computation =
    after_enqueue before (f job) (enqueue_computation sla_computation e (write job.id f before))
start_anew f e job before deliver bulk_sla_computation =
    after_enqueue before (f job)
      (enqueue_computation bulk_sla_computation e (write job.id f before))
start_anew f e job before deliver webhook_dispatch =
    if deliver
    then after_delay before job f e.task
    else (err (http_exception 400 "webhook dispatch job payload missing delivery_id."), before)
start_anew f e job before deliver webhook_dr_replay = (err unsupported, before)

abbrev pub with_payload :
    (Job → Job) → Enqueued → Job → JobsDb → (Payload → Bool) → Option Payload → Result Job × JobsDb
with_payload f e job before deliver none = (err failed_500, before)
with_payload f e job before deliver (some p) = start_anew f e job before (deliver p) job.job_type

-- `payload.get("delivery_id") or payload.get("idempotency_key")`
abbrev pub names_delivery : Payload → Bool
names_delivery p = truthy p.delivery_id || truthy p.idempotency_key

-- The handler of a failed release logs with positional arguments, which the structured logger does not
-- take: TypeError is raised in place of the answer 500.
abbrev raised_in_handler : Error → Error
raised_in_handler (http_exception n text) = if n == 500 then type_error else http_exception n text
raised_in_handler e = e

abbrev pub or_raised : Result Job × JobsDb → Result Job × JobsDb
or_raised (ok job, db) = (ok job, db)
or_raised (err e, db) = (err (raised_in_handler e), db)

module _ (parse : String → Option Payload) where
  abbrev pub retry_found : JobSettings → Enqueued → ℕ → JobsDb → Option Job → Result Job × JobsDb
  retry_found settings e now db none = (err not_found, db)
  retry_found settings e now db (some job) =
      if not (is_retryable job.status)
      then (err (http_exception 400 "Cannot retry job with this status."), db)
      else if leb job.max_retries job.retry_count
      then (
        err (http_exception 400 "Job has exceeded maximum retry limit."),
        if settings.dead_letter_enabled && not (same_status job.status dead_letter)
            then write job.id (bury now) db
            else db,
      )
      else if at_most_once job.retry_class
      then (
        err (http_exception 400 "Job has retry class 'at_most_once' and cannot be retried."),
        db,
      )
      else with_payload again e job (log_event "job_retry_initiated" job.id db) (λ p. true)
          (payload_of parse job.payload)

  unfoldable pub retry_job : JobSettings → String → Enqueued → ℕ → JobsDb → Result Job × JobsDb
  retry_job settings id e now db = retry_found settings e now db (first (has_id id) db.jobs)

  abbrev pub release_found : Enqueued → JobsDb → Option Job → Result Job × JobsDb
  release_found e db none = (err not_found, db)
  release_found e db (some job) =
      if same_status job.status quarantined
      then or_raised (
          with_payload released e job (log_event "job_released_from_quarantine" job.id db)
            names_delivery (payload_of parse job.payload))
      else (err (http_exception 400 "Job is not quarantined."), db)

  unfoldable pub release_job_from_quarantine : String → Enqueued → JobsDb → Result Job × JobsDb
  release_job_from_quarantine id e db = release_found e db (first (has_id id) db.jobs)
