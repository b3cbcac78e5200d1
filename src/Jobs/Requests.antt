-- ===== src/Jobs/Requests.antt =====
-- Jobs that have succeeded, under the requests of app/api/v1/endpoints/jobs.py.
use noc_iq_be.Prelude.{
  ℕ, String, ◌≡◌, refl, ◌∙◌, inl, inr, Bool, ◌||◌, Option, none, some, List, [], ◌∷◌, Bool-cases,
  first,
}
use noc_iq_be.Jobs.Rows.{
  pending, started, same_status, sla_computation, bulk_sla_computation, Job, Jobs, has_task, has_id,
}
use noc_iq_be.Jobs.Lifecycle.{JobSettings, beat, heartbeat_job}
use noc_iq_be.Jobs.Endpoints.{
  JobsDb, write, or_404, get_job, cancel_job, Enqueued, submit_sla_computation,
  submit_bulk_sla_computation,
}
use noc_iq_be.Jobs.Flags.{
  flag, log_if, update_job_protection_flags, or_500, beat_found, record_job_heartbeat,
}
use noc_iq_be.Jobs.Retries.{Payload, retry_job, release_job_from_quarantine}
use noc_iq_be.Jobs.Successes.{
  Succeeded, keep_status, get_job-Succeeded, cancel_job-Succeeded, enqueue_computation-Succeeded,
  classified-Succeeded,
}
use noc_iq_be.Jobs.RetrySteps.{retry_found-Succeeded, release_found-Succeeded}

pub data Request : Type 0 where
  get_request : (state id : String) → Request
  cancel_request : String → Request
  submit_request : Enqueued → Request
  submit_bulk_request : List String → Enqueued → Request
  retry_request : String → Enqueued → ℕ → Request
  release_request : String → Enqueued → Request
  flag_request : String → (under_investigation under_dispute : Option Bool) → Request
  heartbeat_request : (id worker : String) → ℕ → Request

flags-Succeeded :
    (id other : String) (investigation dispute : Option Bool) (db : JobsDb)
    → Succeeded id db.jobs
    → Succeeded id (update_job_protection_flags other investigation dispute db).1.jobs
unfolding update_job_protection_flags
flags-Succeeded id other investigation dispute db h = go (first (has_id other) db.jobs)
  where
    logged :
        (o : Option Bool) (event : String) (t : JobsDb) → (log_if o event other t).jobs ≡ t.jobs
    logged none event t = refl
    logged (some b) event t = refl

    both :
        (log_if dispute "job_dispute_flag_changed" other
          (log_if investigation "job_investigation_flag_changed" other db)).jobs
        ≡ db.jobs
    both =
        logged dispute "job_dispute_flag_changed" _
        ∙ logged investigation "job_investigation_flag_changed" db

    go :
        (o : Option Job)
        → Succeeded id
            (or_404
              (λ job. (
                flag investigation dispute job,
                write other (flag investigation dispute) (
                    log_if dispute "job_dispute_flag_changed" other
                      (log_if investigation "job_investigation_flag_changed" other db)),
              ))
              db
              o).1.jobs
    go none = h
    go (some job) =
        keep_status id (has_id other) (flag investigation dispute) _ (λ j. refl) (λ j. refl)
          (rw both h)

heartbeat-Succeeded :
    (id : String) (timeout : ℕ) (other worker : String) (now : ℕ) (db : JobsDb)
    → Succeeded id db.jobs
    → Succeeded id (record_job_heartbeat timeout other worker now db).1.jobs
unfolding record_job_heartbeat heartbeat_job
heartbeat-Succeeded id timeout other worker now db h = go (first (has_id other) db.jobs)
  where
    or_500-jobs :
        (o : Option Job) (jobs : Jobs)
        → Succeeded id jobs
        → Succeeded id (or_500 db (o, jobs)).1.jobs
    or_500-jobs none jobs k = k
    or_500-jobs (some job) jobs k = k

    go : (o : Option Job) → Succeeded id (beat_found timeout worker now db o).1.jobs
    go none = h
    go (some job) =
        elim (Bool-cases (same_status job.status started || same_status job.status pending)) [
          | inl e ↦ rw e (
              or_500-jobs _ _ (
                keep_status id (has_task job.celery_task_id) (beat worker timeout now) db.jobs
                  (λ j. unfold beat in refl) (λ j. unfold beat in refl) h))
          | inr e ↦ rw e h
        ]

module _ (parse : String → Option Payload) (settings : JobSettings) where
  abbrev pub handle : Request → JobsDb → JobsDb
  handle (get_request state id) db = (get_job state id db).1
  handle (cancel_request id) db = (cancel_job id db).1
  handle (submit_request e) db = (submit_sla_computation e db).1
  handle (submit_bulk_request devices e) db = (submit_bulk_sla_computation devices e db).1
  handle (retry_request id e now) db = (retry_job parse settings id e now db).1
  handle (release_request id e) db = (release_job_from_quarantine parse id e db).1
  handle (flag_request id investigation dispute) db =
      (update_job_protection_flags id investigation dispute db).1
  handle (heartbeat_request id worker now) db =
      (record_job_heartbeat settings.lease_timeout id worker now db).1

  unfoldable pub handle_all : List Request → JobsDb → JobsDb
  handle_all [] db = db
  handle_all (r ∷ rs) db = handle_all rs (handle r db)

  handle-Succeeded :
      (id : String) (r : Request) (db : JobsDb)
      → Succeeded id db.jobs
      → Succeeded id (handle r db).jobs
  unfolding submit_sla_computation submit_bulk_sla_computation retry_job release_job_from_quarantine
  handle-Succeeded id (get_request state other) db h = get_job-Succeeded id state other db h
  handle-Succeeded id (cancel_request other) db h = cancel_job-Succeeded id other db h
  handle-Succeeded id (submit_request e) db h =
      classified-Succeeded id sla_computation _
        (enqueue_computation-Succeeded id sla_computation e db h)
  handle-Succeeded id (submit_bulk_request [] e) db h = h
  handle-Succeeded id (submit_bulk_request (d ∷ ds) e) db h =
      classified-Succeeded id bulk_sla_computation _
        (enqueue_computation-Succeeded id bulk_sla_computation e db h)
  handle-Succeeded id (retry_request other e now) db h =
      retry_found-Succeeded parse settings id other e now db (first (has_id other) db.jobs) refl h
  handle-Succeeded id (release_request other e) db h =
      release_found-Succeeded parse settings id other e db (first (has_id other) db.jobs) refl h
  handle-Succeeded id (flag_request other investigation dispute) db h =
      flags-Succeeded id other investigation dispute db h
  handle-Succeeded id (heartbeat_request other worker now) db h =
      heartbeat-Succeeded id settings.lease_timeout other worker now db h

  -- A job that has succeeded stays so, whatever requests follow: no look-up, cancellation, submission,
  -- retry, release, flag or heartbeat of any job changes its status.
  pub handle_all-Succeeded :
      (id : String) (rs : List Request) (db : JobsDb)
      → Succeeded id db.jobs
      → Succeeded id (handle_all rs db).jobs
  unfolding handle_all
  handle_all-Succeeded id [] db h = h
  handle_all-Succeeded id (r ∷ rs) db h =
      handle_all-Succeeded id rs (handle r db) (handle-Succeeded id r db h)
