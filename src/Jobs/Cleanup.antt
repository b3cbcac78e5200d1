-- ===== src/Jobs/Cleanup.antt =====
-- The clean-up of app/services/job_cleanup.py. An id is the primary key of a job: to delete the rows
-- with the ids of a batch is to delete the rows that the batch selected.
use noc_iq_be.Prelude.{
  ℕ, zero, suc, ◌+◌, String, Bool, false, ◌&&◌, ◌||◌, not, Option, none, some, List, [], ◌∷◌, ltb,
  ◌==◌, if◌then◌else◌, first, update_first, count,
}
use noc_iq_be.Jobs.Rows.{JobStatus, same_status, Job, Jobs, has_id}

-- `finished_at < now - days`, a day having `day` ticks; NULL is before nothing.
abbrev pub finished_before : ℕ → ℕ → Job → Bool
finished_before window now job = elim job.finished_at [
  | none ↦ false
  | some t ↦ ltb (t + window) now
]

unfoldable pub is_eligible : JobStatus → ℕ → ℕ → Job → Bool
is_eligible status window now job =
    same_status job.status status
    && (finished_before window now job
        && (not job.under_investigation && (not job.under_dispute && not job.audit_critical)))

unfoldable pub is_eligible_critical : ℕ → ℕ → Job → Bool
is_eligible_critical window now job =
    job.audit_critical
    && (finished_before window now job && (not job.under_investigation && not job.under_dispute))

-- The ids of one batch and their deletion: how many there are, and what is left.
unfoldable pub delete_batch : (Job → Bool) → ℕ → Jobs → ℕ × Jobs
delete_batch p n [] = (0, [])
delete_batch p zero (job ∷ jobs) = (0, job ∷ jobs)
delete_batch p (suc n) (job ∷ jobs) =
    let (k, rest) = delete_batch p n jobs in
    let (m, same) = delete_batch p (suc n) jobs in if p job then (k + 1, rest) else (m, job ∷ same)

-- `while True`, on fuel: a batch that is empty or not full is the last. None is that the fuel has run
-- out.
unfoldable pub delete_loop : ℕ → (Job → Bool) → ℕ → Jobs → Option (ℕ × Jobs)
delete_loop zero p size jobs = none
delete_loop (suc fuel) p size jobs =
    let (k, rest) = delete_batch p size jobs in
    let later = delete_loop fuel p size rest in
    if k == 0
    then some (0, rest)
    else if ltb k size
    then some (k, rest)
    else elim later [ none ↦ none | some (total, left) ↦ some (k + total, left) ]

unfoldable pub set_investigation_flag : String → Bool → Jobs → Option Job × Jobs
set_investigation_flag id flag jobs =
    let jobs' = update_first (has_id id) (λ job. record job { under_investigation = flag }) jobs in
    (first (has_id id) jobs', jobs')

unfoldable pub set_dispute_flag : String → Bool → Jobs → Option Job × Jobs
set_dispute_flag id flag jobs =
    let jobs' = update_first (has_id id) (λ job. record job { under_dispute = flag }) jobs in
    (first (has_id id) jobs', jobs')

-- The sweep over the windows, each a status with its window in ticks: what each deletes, and what is
-- left. A status that has no eligible job is skipped. The names of the windows are known statuses: for
-- another name the warning is logged with positional arguments and raises TypeError.
unfoldable pub cleanup_old_jobs :
    ℕ → ℕ → List (JobStatus × ℕ) → ℕ → Bool → Jobs → Option (List ℕ × Jobs)
cleanup_old_jobs fuel now [] size dry_run jobs = some ([], jobs)
cleanup_old_jobs fuel now ((status, window) ∷ windows) size dry_run jobs =
    let eligible = count (is_eligible status window now) jobs in
    if dry_run || (eligible == 0)
    then elim (cleanup_old_jobs fuel now windows size dry_run jobs) [
      | none ↦ none
      | some (counts, left) ↦ some (eligible ∷ counts, left)
    ]
    else elim (delete_loop fuel (is_eligible status window now) size jobs) [
      | none ↦ none
      | some (deleted, left) ↦ elim (cleanup_old_jobs fuel now windows size dry_run left) [
        | none ↦ none
        | some (counts, left') ↦ some (deleted ∷ counts, left')
      ]
    ]

unfoldable pub cleanup_audit_critical : ℕ → ℕ → ℕ → Bool → ℕ → Jobs → Option (ℕ × Jobs)
cleanup_audit_critical fuel now window dry_run size jobs =
    let eligible = count (is_eligible_critical window now) jobs in
    if dry_run || (eligible == 0)
    then some (if dry_run then eligible else 0, jobs)
    else delete_loop fuel (is_eligible_critical window now) size jobs
