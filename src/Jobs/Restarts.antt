-- ===== src/Jobs/Restarts.antt =====
-- What a retry of a computation does, in app/api/v1/endpoints/jobs.py.
use noc_iq_be.Prelude.{
  ℕ, String, ◌≡◌, refl, ap, ◌∙◌, inl, inr, Bool, true, false, Option, none, some, List, [], ◌∷◌,
  ◌++◌, str_eq, eq_refl, leb, if◌then◌else◌, Bool-cases, first, update_first, first-append_none,
  err,
}
use noc_iq_be.Jobs.Rows.{
  JobType, sla_computation, webhook_dispatch, bulk_sla_computation, webhook_dr_replay, Job,
  has_task, has_id,
}
use noc_iq_be.Jobs.Lifecycle.{JobSettings}
use noc_iq_be.Jobs.Endpoints.{JobsDb, write, log_event, new_job, Enqueued, enqueue_computation}
use noc_iq_be.Jobs.Retries.{
  Payload, payload_of, is_retryable, at_most_once, again, failed_500, after_enqueue, start_anew,
  retry_job,
}

first-update_first_same :
    {A : Type 0} (p q : A → Bool) (f : A → A) (xs : List A)
    → ((x : A) → q (f x) ≡ q x)
    → first q xs ≡ none
    → first q (update_first p f xs) ≡ none
first-update_first_same p q f [] keep h = refl
first-update_first_same p q f (x ∷ xs) keep h = elim (Bool-cases (q x)) [
  | inl e ↦ absurd (let bad = rw e at h in cc)
  | inr e ↦ elim (Bool-cases (p x)) [
    | inl g ↦ rw (g, keep x, e) (rw e at h)
    | inr g ↦ rw (g, e) (first-update_first_same p q f xs keep (rw e at h))
  ]
]

abbrev pub is_computation : JobType → Bool
is_computation sla_computation = true
is_computation bulk_sla_computation = true
is_computation webhook_dispatch = false
is_computation webhook_dr_replay = false

-- The table after the attempt: the edited job, and a second job for the new task.
abbrev pub with_twin : (Job → Job) → Enqueued → String → Job → JobsDb → JobsDb
with_twin f e task job db = record db {
  jobs =
      update_first (has_id job.id) f db.jobs ++ new_job e.new_id task job.job_type e.arguments ∷ [];
}

module _ (f : Job → Job) (e : Enqueued) (task : String) (job : Job) (db : JobsDb) where
  enqueued-twin :
      (job_type : JobType)
      → ((j : Job) → (f j).celery_task_id ≡ j.celery_task_id)
      → e.task ≡ some task
      → first (has_task task) db.jobs ≡ none
      → after_enqueue db (f job) (enqueue_computation job_type e (write job.id f db)) ≡ (
        err failed_500,
        record db {
          jobs =
              update_first (has_id job.id) f db.jobs
              ++ new_job e.new_id task job_type e.arguments ∷ [];
        },
      )
  unfolding enqueue_computation
  enqueued-twin job_type keep asked fresh =
      let edited = update_first (has_id job.id) f db.jobs in
      let new = new_job e.new_id task job_type e.arguments in
      let unknown : first (has_task task) edited ≡ none =
        first-update_first_same (has_id job.id) (has_task task) f db.jobs
          (λ j. ap (λ t. str_eq t task) (keep j)) fresh in
      let hit : first (has_task task) (new ∷ []) ≡ some new =
        ap (λ b. if b then some new else none) (eq_refl task) in
      let clash = first-append_none (has_task task) edited (new ∷ []) unknown ∙ hit in
      rw (asked, unknown, clash) refl

  start_anew-twin :
      (deliver : Bool) (job_type : JobType)
      → is_computation job_type ≡ true
      → ((j : Job) → (f j).celery_task_id ≡ j.celery_task_id)
      → e.task ≡ some task
      → first (has_task task) db.jobs ≡ none
      → start_anew f e job db deliver job_type ≡ (
        err failed_500,
        record db {
          jobs =
              update_first (has_id job.id) f db.jobs
              ++ new_job e.new_id task job_type e.arguments ∷ [];
        },
      )
  start_anew-twin deliver sla_computation c keep asked fresh =
      enqueued-twin sla_computation keep asked fresh
  start_anew-twin deliver bulk_sla_computation c keep asked fresh =
      enqueued-twin bulk_sla_computation keep asked fresh
  start_anew-twin deliver webhook_dispatch c keep asked fresh = absurd cc
  start_anew-twin deliver webhook_dr_replay c keep asked fresh = absurd cc

module _ (parse : String → Option Payload) (settings : JobSettings) (id : String) (e : Enqueued)
    (now : ℕ) (db : JobsDb) (job : Job) (p : Payload) (task : String)
    (found : first (has_id id) db.jobs ≡ some job) (retryable : is_retryable job.status ≡ true)
    (left : leb job.max_retries job.retry_count ≡ false)
    (allowed : at_most_once job.retry_class ≡ false)
    (parsed : payload_of parse job.payload ≡ some p) (computes : is_computation job.job_type ≡ true)
    (asked : e.task ≡ some task) (fresh : first (has_task task) db.jobs ≡ none) where
  -- A retry of a computation that Celery accepts always answers 500: the job takes the id of the new
  -- task, which the row that the enqueueing has made has already. The table keeps both: the job, which
  -- is pending again under its old task and one retry further, and the row of the new task.
  pub retry_job-twin :
      retry_job parse settings id e now db
      ≡ (err failed_500, with_twin again e task job (log_event "job_retry_initiated" job.id db))
  unfolding retry_job
  retry_job-twin =
      rw (found, retryable, left, allowed, parsed)
        (start_anew-twin again e task job (log_event "job_retry_initiated" job.id db) true
          job.job_type computes (λ j. refl) asked fresh)
