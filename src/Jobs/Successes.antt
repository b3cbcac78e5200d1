-- ===== src/Jobs/Successes.antt =====
-- A job that has succeeded, under the endpoints of app/api/v1/endpoints/jobs.py.
use noc_iq_be.Prelude.{
  String, ◌≡◌, refl, sym, ap, ◌∙◌, inl, inr, Bool, true, false, Option, none, some, [], ◌∷◌, ◌++◌,
  eq_iff, Bool-cases, Option-cases, first, update_first, first-holds, first-append, Result, ok, err,
}
use noc_iq_be.Prelude.Dict.{is_some}
use noc_iq_be.Jobs.Rows.{
  JobStatus, success, quarantined, same_status, JobType, Job, Jobs, has_task, has_id,
}
use noc_iq_be.Jobs.Endpoints.{
  JobsDb, is_terminal, sync_job_status_from_celery, get_job, is_over, revoke, cancel_job, new_job,
  Enqueued, insert_job, enqueue_task, enqueue_computation, classify, classified,
}
use noc_iq_be.Jobs.Retries.{is_retryable, retask, commit_task, after_enqueue}

abbrev pub is_success : JobStatus → Bool
is_success status = same_status status success

abbrev pub Succeeded : String → Jobs → Type 0
Succeeded id jobs =
    (job : Job) × (first (has_id id) jobs ≡ some job) × (is_success job.status ≡ true)

-- An assignment to rows that the search `p` may choose, which keeps ids and turns no success into
-- something else.
keep_update :
    (id : String) (p : Job → Bool) (f : Job → Job) (jobs : Jobs)
    → ((j : Job) → has_id id (f j) ≡ has_id id j)
    → ((j : Job)
        → first p jobs ≡ some j
        → is_success j.status ≡ true
        → is_success (f j).status ≡ true)
    → Succeeded id jobs
    → Succeeded id (update_first p f jobs)
keep_update id p f [] keep ok_f h = h
keep_update id p f (j ∷ jobs) keep ok_f (job, found, s) = elim (Bool-cases (p j)) [
  | inl e ↦ elim (Bool-cases (has_id id j)) [
    | inl g ↦
        let here : some j ≡ some job = rw g at found in
        let same : j ≡ job = cc in
        let win : is_success j.status ≡ true = ap (λ x. is_success x.status) same ∙ s in
        rw e (f j, rw (keep j, g) refl, ok_f j (rw e refl) win)
    | inr g ↦ rw e (job, rw (keep j, g) (rw g at found), s)
  ]
  | inr e ↦ elim (Bool-cases (has_id id j)) [
    | inl g ↦ rw e (job, rw g (rw g at found), s)
    | inr g ↦
        let (job', found', s') =
          keep_update id p f jobs keep (λ x h k. ok_f x (rw e h) k) (job, rw g at found, s) in
        rw e (job', rw g found', s')
  ]
]

keep_append : (id : String) (jobs more : Jobs) → Succeeded id jobs → Succeeded id (jobs ++ more)
keep_append id jobs more (job, found, s) = (job, first-append (has_id id) jobs more job found, s)

pub keep_status :
    (id : String) (p : Job → Bool) (f : Job → Job) (jobs : Jobs)
    → ((j : Job) → has_id id (f j) ≡ has_id id j)
    → ((j : Job) → (f j).status ≡ j.status)
    → Succeeded id jobs
    → Succeeded id (update_first p f jobs)
keep_status id p f jobs keep same =
    keep_update id p f jobs keep (λ j h s. ap is_success (same j) ∙ s)

-- The change of a job that is found and has not succeeded.
pub keep_guarded :
    (id other : String) (f : Job → Job) (job : Job) (jobs : Jobs)
    → ((j : Job) → has_id id (f j) ≡ has_id id j)
    → first (has_id other) jobs ≡ some job
    → is_success job.status ≡ false
    → Succeeded id jobs
    → Succeeded id (update_first (has_id job.id) f jobs)
keep_guarded id other f job jobs keep found open_still =
    let named : job.id ≡ other =
      (eq_iff job.id other).0 (first-holds (has_id other) jobs job found) in
    let here : first (has_id job.id) jobs ≡ some job =
      ap (λ k. first (has_id k) jobs) named ∙ found in
    keep_update id (has_id job.id) f jobs keep (λ j h s.
      let one : some j ≡ some job = sym h ∙ here in
      let same : j ≡ job = cc in
      absurd (let bad = sym s ∙ ap (λ x. is_success x.status) same ∙ open_still in cc))

not_terminal : (s : JobStatus) → is_terminal s ≡ false → is_success s ≡ false
not_terminal success h = absurd cc
not_terminal _ h = refl

not_over : (s : JobStatus) → is_over s ≡ false → is_success s ≡ false
not_over success h = absurd cc
not_over _ h = refl

pub retryable_not : (s : JobStatus) → is_retryable s ≡ true → is_success s ≡ false
retryable_not success h = absurd cc
retryable_not _ h = refl

pub quarantined_not : (s : JobStatus) → same_status s quarantined ≡ true → is_success s ≡ false
quarantined_not success h = absurd cc
quarantined_not _ h = refl

module _ (id : String) where
  pub get_job-Succeeded :
      (state other : String) (db : JobsDb)
      → Succeeded id db.jobs
      → Succeeded id (get_job state other db).1.jobs
  unfolding get_job sync_job_status_from_celery
  get_job-Succeeded state other db h = elim (Option-cases (first (has_id other) db.jobs)) [
    | inl e ↦ rw e h
    | inr (job, e) ↦ elim (Bool-cases (is_terminal job.status)) [
      | inl f ↦ rw (e, f) h
      | inr f ↦
          rw (e, f)
            (keep_guarded id other _ job db.jobs (λ j. refl) e (not_terminal job.status f) h)
    ]
  ]

  pub cancel_job-Succeeded :
      (other : String) (db : JobsDb)
      → Succeeded id db.jobs
      → Succeeded id (cancel_job other db).1.jobs
  unfolding cancel_job
  cancel_job-Succeeded other db h = elim (Option-cases (first (has_id other) db.jobs)) [
    | inl e ↦ rw e h
    | inr (job, e) ↦ elim (Bool-cases (is_over job.status)) [
      | inl f ↦ rw (e, f) h
      | inr f ↦
          rw (e, f)
            (keep_guarded id other revoke job db.jobs (λ j. refl) e (not_over job.status f) h)
    ]
  ]

  insert_job-Succeeded :
      (job : Job) (db : JobsDb) → Succeeded id db.jobs → Succeeded id (insert_job job db).1.jobs
  insert_job-Succeeded job db h =
      elim (Bool-cases (is_some (first (has_task job.celery_task_id) db.jobs))) [
        | inl e ↦ rw e h
        | inr e ↦ rw e (keep_append id db.jobs (job ∷ []) h)
      ]

  pub enqueue_computation-Succeeded :
      (job_type : JobType) (e : Enqueued) (db : JobsDb)
      → Succeeded id db.jobs
      → Succeeded id (enqueue_computation job_type e db).1.jobs
  unfolding enqueue_computation
  enqueue_computation-Succeeded job_type e db h = go e.task
    where
      go : (o : Option String) → Succeeded id (enqueue_task job_type e db o).1.jobs
      go none = h
      go (some task) = insert_job-Succeeded (new_job e.new_id task job_type e.arguments) db h

  pub classified-Succeeded :
      (job_type : JobType) (r : Result Job × JobsDb)
      → Succeeded id r.1.jobs
      → Succeeded id (classified job_type r).1.jobs
  classified-Succeeded job_type (err e, db) h = h
  classified-Succeeded job_type (ok job, db) h =
      keep_status id (has_id job.id) (classify job_type) db.jobs (λ j. refl) (λ j. refl) h

  commit_task-Succeeded :
      (task : String) (job : Job) (db : JobsDb)
      → Succeeded id db.jobs
      → Succeeded id (commit_task task job db).1.jobs
  commit_task-Succeeded task job db h =
      elim (Bool-cases (is_some (first (has_task task) db.jobs))) [
        | inl e ↦ rw e h
        | inr e ↦
            rw e (keep_status id (has_id job.id) (retask task) db.jobs (λ j. refl) (λ j. refl) h)
      ]

  pub after_enqueue-Succeeded :
      (before : JobsDb) (job : Job) (r : Result Job × JobsDb)
      → Succeeded id before.jobs
      → Succeeded id r.1.jobs
      → Succeeded id (after_enqueue before job r).1.jobs
  after_enqueue-Succeeded before job (err e, db) h k = h
  after_enqueue-Succeeded before job (ok new, db) h k =
      commit_task-Succeeded new.celery_task_id job db k
