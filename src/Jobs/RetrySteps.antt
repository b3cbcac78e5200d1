-- ===== src/Jobs/RetrySteps.antt =====
-- What a retry and a release in app/api/v1/endpoints/jobs.py make of another job that has succeeded.
use noc_iq_be.Prelude.{
  ℕ, String, ◌≡◌, refl, inl, inr, Bool, true, false, ◌&&◌, not, Option, none, some, leb, Bool-cases,
  first, Result, ok, err,
}
use noc_iq_be.Prelude.Dict.{is_some}
use noc_iq_be.Jobs.Rows.{
  quarantined, dead_letter, same_status, JobType, sla_computation, webhook_dispatch,
  bulk_sla_computation, webhook_dr_replay, Job, has_task, has_id,
}
use noc_iq_be.Jobs.Lifecycle.{JobSettings}
use noc_iq_be.Jobs.Endpoints.{JobsDb, write, log_event, Enqueued}
use noc_iq_be.Jobs.Retries.{
  Payload, payload_of, is_retryable, at_most_once, bury, again, released, retask, after_delay,
  start_anew, with_payload, names_delivery, or_raised, retry_found, release_found,
}
use noc_iq_be.Jobs.Successes.{
  is_success, Succeeded, keep_guarded, retryable_not, quarantined_not,
  enqueue_computation-Succeeded, after_enqueue-Succeeded,
}

or_raised-Succeeded :
    (id : String) (x : Result Job × JobsDb)
    → Succeeded id x.1.jobs
    → Succeeded id (or_raised x).1.jobs
or_raised-Succeeded id (ok job, db) h = h
or_raised-Succeeded id (err e, db) h = h

module _ (id other : String) (job : Job) (f : Job → Job) (e : Enqueued) (before : JobsDb)
    (keep : (j : Job) → has_id id (f j) ≡ has_id id j)
    (found : first (has_id other) before.jobs ≡ some job)
    (open_still : is_success job.status ≡ false) (h : Succeeded id before.jobs) where
  edited : Succeeded id (write job.id f before).jobs
  edited = keep_guarded id other f job before.jobs keep found open_still h

  after_delay-Succeeded : (o : Option String) → Succeeded id (after_delay before job f o).1.jobs
  after_delay-Succeeded none = h
  after_delay-Succeeded (some task) =
      elim (Bool-cases (is_some (first (has_task task) before.jobs))) [
        | inl c ↦ rw c h
        | inr c ↦
            rw c (
              keep_guarded id other (λ j. retask task (f j)) job before.jobs keep found open_still
                h)
      ]

  start_anew-Succeeded :
      (deliver : Bool) (job_type : JobType)
      → Succeeded id (start_anew f e job before deliver job_type).1.jobs
  start_anew-Succeeded deliver sla_computation =
      after_enqueue-Succeeded id before (f job) _ h
        (enqueue_computation-Succeeded id sla_computation e (write job.id f before) edited)
  start_anew-Succeeded deliver bulk_sla_computation =
      after_enqueue-Succeeded id before (f job) _ h
        (enqueue_computation-Succeeded id bulk_sla_computation e (write job.id f before) edited)
  start_anew-Succeeded true webhook_dispatch = after_delay-Succeeded e.task
  start_anew-Succeeded false webhook_dispatch = h
  start_anew-Succeeded deliver webhook_dr_replay = h

  with_payload-Succeeded :
      (deliver : Payload → Bool) (o : Option Payload)
      → Succeeded id (with_payload f e job before deliver o).1.jobs
  with_payload-Succeeded deliver none = h
  with_payload-Succeeded deliver (some p) = start_anew-Succeeded (deliver p) job.job_type

module _ (parse : String → Option Payload) (settings : JobSettings) (id : String) where
  pub retry_found-Succeeded :
      (other : String) (e : Enqueued) (now : ℕ) (db : JobsDb) (o : Option Job)
      → first (has_id other) db.jobs ≡ o
      → Succeeded id db.jobs
      → Succeeded id (retry_found parse settings e now db o).1.jobs
  retry_found-Succeeded other e now db none found h = h
  retry_found-Succeeded other e now db (some job) found h =
      elim (Bool-cases (is_retryable job.status)) [
        | inr a ↦ rw a h
        | inl a ↦
            let open_still = retryable_not job.status a in
            elim (Bool-cases (leb job.max_retries job.retry_count)) [
              | inl b ↦
                  elim (Bool-cases
                    (settings.dead_letter_enabled && not (same_status job.status dead_letter))) [
                      | inl c ↦
                          rw (a, b, c)
                            (keep_guarded id other (bury now) job db.jobs (λ j. refl) found
                              open_still h)
                      | inr c ↦ rw (a, b, c) h
                    ]
              | inr b ↦ elim (Bool-cases (at_most_once job.retry_class)) [
                | inl c ↦ rw (a, b, c) h
                | inr c ↦
                    rw (a, b, c)
                      (with_payload-Succeeded id other job again e
                        (log_event "job_retry_initiated" job.id db) (λ j. refl) found open_still h
                        (λ p. true) (payload_of parse job.payload))
              ]
            ]
      ]

  pub release_found-Succeeded :
      (other : String) (e : Enqueued) (db : JobsDb) (o : Option Job)
      → first (has_id other) db.jobs ≡ o
      → Succeeded id db.jobs
      → Succeeded id (release_found parse e db o).1.jobs
  release_found-Succeeded other e db none found h = h
  release_found-Succeeded other e db (some job) found h =
      elim (Bool-cases (same_status job.status quarantined)) [
        | inr a ↦ rw a h
        | inl a ↦
            let logged = log_event "job_released_from_quarantine" job.id db in
            let payload = payload_of parse job.payload in
            rw a (
              or_raised-Succeeded id (with_payload released e job logged names_delivery payload) (
                with_payload-Succeeded id other job released e logged (λ j. refl) found
                  (quarantined_not job.status a) h names_delivery payload))
      ]
