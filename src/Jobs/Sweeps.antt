-- ===== src/Jobs/Sweeps.antt =====
-- The loop of batches in app/services/job_cleanup.py: it ends, and it deletes the eligible jobs.
use noc_iq_be.Prelude.{
  ℕ, zero, suc, ◌+◌, ◌≤◌, ◌<◌, ◌≡◌, refl, sym, ap, ◌∙◌, ◌≢◌, inl, inr, Bool, true, false, ◌&&◌,
  ◌||◌, not, Option, none, some, List, [], ◌∷◌, arith, ltb, ◌==◌, if◌then◌else◌, Bool-cases, length,
  filter, count, length-filter,
}
use noc_iq_be.Jobs.Rows.{JobStatus, same_status, Job, Jobs}
use noc_iq_be.Jobs.Cleanup.{
  delete_batch, delete_loop, is_eligible, finished_before, cleanup_old_jobs,
}

abbrev kept : (Job → Bool) → Job → Bool
kept p job = not (p job)

delete_batch-count :
    (p : Job → Bool) (n : ℕ) (jobs : Jobs)
    → ((delete_batch p n jobs).0 + count p (delete_batch p n jobs).1 ≡ count p jobs)
      × ((delete_batch p n jobs).0 ≤ n)
      × (ltb (delete_batch p n jobs).0 n ≡ true → count p (delete_batch p n jobs).1 ≡ 0)
unfolding delete_batch
delete_batch-count p n [] = (refl, omega arith, λ _. refl)
delete_batch-count p zero (job ∷ jobs) = (omega arith, omega arith, λ h. absurd cc)
delete_batch-count p (suc n) (job ∷ jobs) = elim (Bool-cases (p job)) [
  | inl e ↦
      let (total, small, rest) = delete_batch-count p n jobs in
      rw e (omega (arith, total), omega (arith, small), λ l. rest (ground arith))
  | inr e ↦
      let (total, small, rest) = delete_batch-count p (suc n) jobs in
      rw (e, e) (total, small, λ l. rest l)
]

delete_batch-kept :
    (p : Job → Bool) (n : ℕ) (jobs : Jobs)
    → filter (kept p) (delete_batch p n jobs).1 ≡ filter (kept p) jobs
unfolding delete_batch
delete_batch-kept p n [] = refl
delete_batch-kept p zero (job ∷ jobs) = refl
delete_batch-kept p (suc n) (job ∷ jobs) = elim (Bool-cases (p job)) [
  | inl e ↦ rw (e, delete_batch-kept p n jobs) refl
  | inr e ↦ rw (e, e, delete_batch-kept p (suc n) jobs) refl
]

filter-uncounted : (p : Job → Bool) (jobs : Jobs) → count p jobs ≡ 0 → filter (kept p) jobs ≡ jobs
filter-uncounted p [] h = refl
filter-uncounted p (job ∷ jobs) h = elim (Bool-cases (p job)) [
  | inl e ↦ absurd (let h' = rw e at h in omega (arith, h'))
  | inr e ↦ (let h' = rw e at h in rw (e, filter-uncounted p jobs h') refl)
]

delete_loop_from :
    (k total : ℕ) (size : ℕ) (rest : Jobs) (later : Option (ℕ × Jobs)) (left : Jobs) (n : ℕ)
    → (k ≡ 0 → (n ≡ 0) × (rest ≡ left))
    → (ltb k size ≡ true → (n ≡ k) × (rest ≡ left))
    → (k ≢ 0 → later ≡ some (total, left))
    → k + total ≡ n
    → if◌then◌else◌ {A = Option (ℕ × Jobs)} (k == 0) (some (0, rest)) (
        if◌then◌else◌ {A = Option (ℕ × Jobs)}
          (ltb k size)
          (some (k, rest))
          (elim later [ none ↦ none | some (t, l) ↦ some (k + t, l) ]))
      ≡ some (n, left)
delete_loop_from k total size rest later left n empty short again sum = elim (Bool-cases (k == 0)) [
  | inl e ↦ (let (z, same) = empty (ground (arith, e)) in rw (e, z, same) refl)
  | inr e ↦ elim (Bool-cases (ltb k size)) [
    | inl l ↦ (let (z, same) = short l in rw (e, l, z, same) refl)
    | inr l ↦
        (let more : later ≡ some (total, left) = again (λ z. ground (arith, e, z)) in
          rw (e, l, more, sum) refl)
  ]
]

-- A sweep ends, and deletes exactly the jobs that are eligible, whatever the size of its batches but
-- 0: with more fuel than there are eligible jobs it returns their number and the other jobs.
pub delete_loop_lem :
    (fuel : ℕ) (p : Job → Bool) (size : ℕ) (jobs : Jobs)
    → count p jobs < fuel
    → 1 ≤ size
    → delete_loop fuel p size jobs ≡ some (count p jobs, filter (λ job. not (p job)) jobs)
unfolding delete_loop
delete_loop_lem zero p size jobs h one = absurd (omega (arith, h))
delete_loop_lem (suc fuel) p size jobs h one =
    let k = (delete_batch p size jobs).0 in
    let rest = (delete_batch p size jobs).1 in
    let (total, small, done) = delete_batch-count p size jobs in
    let same = delete_batch-kept p size jobs in
    let finished : ltb k size ≡ true → rest ≡ filter (kept p) jobs =
      λ l. sym (filter-uncounted p rest (done l)) ∙ same in
    delete_loop_from k (count p rest) size rest (delete_loop fuel p size rest)
      (filter (kept p) jobs) (count p jobs)
      (λ e.
        let l : ltb k size ≡ true = ground arith in
        let z = done l in (omega (arith, total, z, e), finished l))
      (λ l. let z = done l in (omega (arith, total, z), finished l))
      (λ ne.
        let less : count p rest < fuel = omega (arith, h, total, ne) in
        delete_loop_lem fuel p size rest less one ∙ ap (λ js. some (count p rest, js)) same)
      total

filter-filter_weaker :
    (q r : Job → Bool) (jobs : Jobs)
    → ((job : Job) → q job ≡ true → r job ≡ true)
    → filter q (filter r jobs) ≡ filter q jobs
filter-filter_weaker q r [] h = refl
filter-filter_weaker q r (job ∷ jobs) h = elim (Bool-cases (r job)) [
  | inl e ↦ rw (e, filter-filter_weaker q r jobs h) refl
  | inr e ↦ elim (Bool-cases (q job)) [
    | inl k ↦ (let no = h job k in absurd cc)
    | inr k ↦ rw (e, k) (filter-filter_weaker q r jobs h)
  ]
]

-- A job that is investigated, disputed or critical for audits.
abbrev pub is_protected : Job → Bool
is_protected job = job.under_investigation || (job.under_dispute || job.audit_critical)

unprotected :
    (a b i d c : Bool)
    → (i || (d || c)) ≡ true
    → not (a && (b && (not i && (not d && not c)))) ≡ true
unprotected true true true d c h = refl
unprotected true true false true c h = refl
unprotected true true false false true h = refl
unprotected true true false false false h = cc
unprotected true false i d c h = refl
unprotected false b i d c h = refl

is_protected-kept :
    (status : JobStatus) (window now : ℕ) (job : Job)
    → is_protected job ≡ true
    → kept (is_eligible status window now) job ≡ true
unfolding is_eligible
is_protected-kept status window now job h =
    unprotected (same_status job.status status) (finished_before window now job)
      job.under_investigation job.under_dispute job.audit_critical h

count_le : (p : Job → Bool) (jobs : Jobs) → count p jobs ≤ length jobs
count_le p [] = omega arith
count_le p (job ∷ jobs) = ground (arith, count_le p jobs)

-- The clean-up ends, with more fuel than there are jobs, and leaves every job that is under
-- investigation, under dispute or critical for audits.
pub cleanup_old_jobs-protects :
    (fuel now : ℕ) (windows : List (JobStatus × ℕ)) (size : ℕ) (dry_run : Bool) (jobs : Jobs)
    → length jobs < fuel
    → 1 ≤ size
    → (counts : List ℕ) × (left : Jobs) × (cleanup_old_jobs fuel now windows size dry_run jobs
        ≡ some (counts, left))
      × (filter is_protected left ≡ filter is_protected jobs)
unfolding cleanup_old_jobs
cleanup_old_jobs-protects fuel now [] size dry_run jobs h one = ([], jobs, refl, refl)
cleanup_old_jobs-protects fuel now ((status, window) ∷ windows) size dry_run jobs h one =
    let p = is_eligible status window now in
    elim (Bool-cases (dry_run || (count p jobs == 0))) [
      | inl e ↦
          let (counts, left, done, same) =
            cleanup_old_jobs-protects fuel now windows size dry_run jobs h one in
          (count p jobs ∷ counts, left, rw (e, done) refl, same)
      | inr e ↦
          let rest = filter (kept p) jobs in
          let enough : length rest < fuel =
            omega (arith, h, length-filter (kept p) jobs, count_le (kept p) jobs) in
          let swept = delete_loop_lem fuel p size jobs (omega (arith, h, count_le p jobs)) one in
          let (counts, left, done, same) =
            cleanup_old_jobs-protects fuel now windows size dry_run rest enough one in
          (
            count p jobs ∷ counts,
            left,
            rw (e, swept, done) refl,
            same
                ∙ filter-filter_weaker is_protected (kept p) jobs
                    (is_protected-kept status window now),
          )
    ]
