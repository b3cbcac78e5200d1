-- ===== src/Jobs/Endpoints.antt =====
-- The endpoints of app/api/v1/endpoints/jobs.py that change jobs, `enqueue_sla_computation` and
-- `enqueue_bulk_sla_computation` of app/tasks/sla_tasks.py, and the retry policies of
-- app/services/job_cleanup.py. Celery is outside: the id that it gives a task is a parameter, none
-- where the broker raises. Of an audit entry its type and the job are kept.
use noc_iq_be.Prelude.{
  ℕ, String, Bool, true, false, Option, none, some, List, [], ◌∷◌, ◌++◌, str_eq, if◌then◌else◌,
  first, update_first, Error, runtime_error, integrity_error, http_exception, Result, ok, err,
}
use noc_iq_be.Prelude.Dict.{Dict, is_some, lookup}
use noc_iq_be.Jobs.Rows.{
  JobStatus, pending, started, success, failure, revoked, quarantined, dead_letter, JobType,
  sla_computation, webhook_dispatch, bulk_sla_computation, webhook_dr_replay, Job, Jobs, has_task,
  has_id,
}

pub record JobsDb : Type 0 where
  pub jobs : Jobs
  pub audit : List (String × String)

abbrev pub job_type_value : JobType → String
job_type_value sla_computation = "sla_computation"
job_type_value webhook_dispatch = "webhook_dispatch"
job_type_value bulk_sla_computation = "bulk_sla_computation"
job_type_value webhook_dr_replay = "webhook_dr_replay"

pub record RetryPolicy : Type 0 where
  pub retry_class : String
  pub max_retries : ℕ
  pub base_delay_seconds : ℕ

abbrev policy : String → ℕ → ℕ → RetryPolicy
policy class max delay = record {
  retry_class = class;
  max_retries = max;
  base_delay_seconds = delay;
}

abbrev pub retry_class_defaults : Dict RetryPolicy
retry_class_defaults =
    ("sla_computation", policy "exponential_backoff" 3 30)
    ∷ ("bulk_sla_computation", policy "exponential_backoff" 2 60)
    ∷ ("webhook_dispatch", policy "at_least_once" 5 30)
    ∷ ("webhook_dr_replay", policy "at_most_once" 1 60)
    ∷ []

unfoldable pub get_retry_policy : String → RetryPolicy
get_retry_policy job_type = elim (lookup job_type retry_class_defaults) [
  | none ↦ policy "at_least_once" 3 30
  | some p ↦ p
]

abbrev pub not_found : Error
not_found = http_exception 404 "Job not found."

abbrev pub write : String → (Job → Job) → JobsDb → JobsDb
write id f db = record db { jobs = update_first (has_id id) f db.jobs }

-- `audit_log.log_event` adds the entry and commits.
abbrev pub log_event : String → String → JobsDb → JobsDb
log_event event id db = record db { audit = db.audit ++ (event, id) ∷ [] }

-- What the result backend of Celery says of a task; a state that the table does not name is none.
abbrev pub celery_status : String → Option JobStatus
celery_status state =
    if str_eq state "PENDING"
    then some pending
    else if str_eq state "STARTED"
    then some started
    else if str_eq state "SUCCESS"
    then some success
    else if str_eq state "FAILURE"
    then some failure
    else if str_eq state "REVOKED"
    then some revoked
    else none

abbrev pub is_terminal : JobStatus → Bool
is_terminal status = elim status [
  | pending ↦ false
  | started ↦ false
  | success ↦ true
  | failure ↦ true
  | revoked ↦ true
  | quarantined ↦ true
  | dead_letter ↦ true
]

abbrev pub or_status : JobStatus → Option JobStatus → JobStatus
or_status old none = old
or_status old (some new) = new

unfoldable pub sync_job_status_from_celery : String → Job → JobsDb → Job × JobsDb
sync_job_status_from_celery state job db =
    let set : Job → Job = λ j. record j { status = or_status j.status (celery_status state) } in
    if is_terminal job.status then (job, db) else (set job, write job.id set db)

abbrev pub or_404 : {A : Type 0} → (Job → A × JobsDb) → JobsDb → Option Job → Result A × JobsDb
or_404 f db none = (err not_found, db)
or_404 f db (some job) = (ok (f job).0, (f job).1)

-- `get_job`, `get_job_envelope` and `get_job_progress` differ in what they show of the job.
unfoldable pub get_job : String → String → JobsDb → Result Job × JobsDb
get_job state id db =
    or_404 (λ job. sync_job_status_from_celery state job db) db (first (has_id id) db.jobs)

abbrev pub is_over : JobStatus → Bool
is_over status = elim status [
  | pending ↦ false
  | started ↦ false
  | success ↦ true
  | failure ↦ true
  | revoked ↦ true
  | quarantined ↦ false
  | dead_letter ↦ true
]

abbrev pub revoke : Job → Job
revoke job = record job { status = revoked }

abbrev pub cancel_found : JobsDb → Option Job → Result (Unit {0}) × JobsDb
cancel_found db none = (err not_found, db)
cancel_found db (some job) =
    if is_over job.status
    then (err (http_exception 400 "Cannot cancel a job with this status."), db)
    else (ok tt, write job.id revoke (log_event "job_revoked" job.id db))

-- The broker takes the call.
unfoldable pub cancel_job : String → JobsDb → Result (Unit {0}) × JobsDb
cancel_job id db = cancel_found db (first (has_id id) db.jobs)

-- The columns that the constructor of a job leaves to their defaults.
abbrev pub new_job : (id task : String) → JobType → String → Job
new_job id task job_type payload = record {
  id = id;
  celery_task_id = task;
  job_type = job_type;
  payload = some payload;
  retry_class = none;
  status = pending;
  retry_count = 0;
  max_retries = 3;
  error = none;
  started_at = none;
  finished_at = none;
  heartbeat_at = none;
  lease_expires_at = none;
  worker_id = none;
  under_investigation = false;
  under_dispute = false;
  audit_critical = false;
}

-- What Celery and the database give an enqueueing: the id of the task, the key of the new row, and
-- the JSON text of the task's arguments.
pub record Enqueued : Type 0 where
  pub task : Option String
  pub new_id : String
  pub arguments : String

abbrev pub insert_job : Job → JobsDb → Result Job × JobsDb
insert_job job db =
    if is_some (first (has_task job.celery_task_id) db.jobs)
    then (err integrity_error, db)
    else (ok job, record db { jobs = db.jobs ++ job ∷ [] })

abbrev pub enqueue_task : JobType → Enqueued → JobsDb → Option String → Result Job × JobsDb
enqueue_task job_type e db none = (err (runtime_error "OperationalError"), db)
enqueue_task job_type e db (some task) = insert_job (new_job e.new_id task job_type e.arguments) db

-- `enqueue_sla_computation` and `enqueue_bulk_sla_computation`, by the type.
unfoldable pub enqueue_computation : JobType → Enqueued → JobsDb → Result Job × JobsDb
enqueue_computation job_type e db = enqueue_task job_type e db e.task

abbrev pub classify : JobType → Job → Job
classify job_type job = record job {
  retry_class = some (get_retry_policy (job_type_value job_type)).retry_class;
}

abbrev pub classified : JobType → Result Job × JobsDb → Result Job × JobsDb
classified job_type (err e, db) = (err e, db)
classified job_type (ok job, db) = (ok (classify job_type job), write job.id (classify job_type) db)

unfoldable pub submit_sla_computation : Enqueued → JobsDb → Result Job × JobsDb
submit_sla_computation e db = classified sla_computation (enqueue_computation sla_computation e db)

unfoldable pub submit_bulk_sla_computation : List String → Enqueued → JobsDb → Result Job × JobsDb
submit_bulk_sla_computation [] e db = (err (http_exception 400 "device_ids must not be empty."), db)
submit_bulk_sla_computation (device ∷ devices) e db =
    classified bulk_sla_computation (enqueue_computation bulk_sla_computation e db)
