-- ===== src/Sla/Snapshots.antt =====
-- The snapshots of `SLARepository` and their checksums.
use noc_iq_be.Prelude.{
  ℕ, ◌<◌, String, ◌≡◌, refl, ap, ◌∙◌, inl, inr, Bool, true, false, some, List, [], ◌∷◌, ◌++◌, arith,
  str_eq, eq_refl, Bool-cases, filter, insert_desc, All, sort_desc,
}
use noc_iq_be.Sla.Repository.{
  SlaDb, SnapshotEnv, compute_checksum, create_snapshot, head_snapshot, get_latest_snapshot,
  verify_snapshot_integrity, verify_found,
}

-- A last element that is above all others in its key is sorted to the front.
insert_desc-below :
    {A : Type 0} (key : A → ℕ) (x y : A) (ys : List A)
    → key x < key y
    → insert_desc key x (y ∷ ys) ≡ y ∷ insert_desc key x ys
insert_desc-below key x y ys h = ground arith

sort_desc-last :
    {A : Type 0} (key : A → ℕ) (xs : List A) (a : A)
    → All (λ x. key x < key a) xs
    → (rest : List A) × (sort_desc key (xs ++ a ∷ []) ≡ a ∷ rest)
sort_desc-last key [] a h = ([], refl)
sort_desc-last key (x ∷ xs) a h =
    let (rest, e) = sort_desc-last key xs a h.1 in
    (insert_desc key x rest, ap (insert_desc key x) e ∙ insert_desc-below key x a rest h.0)

filter-append_kept :
    {A : Type 0} (p : A → Bool) (xs : List A) (a : A)
    → p a ≡ true
    → filter p (xs ++ a ∷ []) ≡ filter p xs ++ a ∷ []
filter-append_kept p [] a h = rw h refl
filter-append_kept p (x ∷ xs) a h = elim (Bool-cases (p x)) [
  | inl e ↦ rw (e, filter-append_kept p xs a h) refl
  | inr e ↦ rw (e, filter-append_kept p xs a h) refl
]

filter-All :
    {A : Type 0} (p : A → Bool) (P : A → Type 0) (xs : List A) → All P xs → All P (filter p xs)
filter-All p P [] h = tt
filter-All p P (x ∷ xs) h = elim (Bool-cases (p x)) [
  | inl e ↦ rw e (h.0, filter-All p P xs h.1)
  | inr e ↦ rw e (filter-All p P xs h.1)
]

get_latest_snapshot-create :
    (env : SnapshotEnv) (key : String) (now : ℕ) (db : SlaDb)
    → All (λ s. s.created_at < now) db.snapshots
    → get_latest_snapshot env key (create_snapshot env key now db).1
      ≡ some (create_snapshot env key now db).0
unfolding get_latest_snapshot create_snapshot
get_latest_snapshot-create env key now db older =
    let s = (create_snapshot env key now db).0 in
    let kept = filter-append_kept (λ x. str_eq x.snapshot_key key) db.snapshots s (eq_refl key) in
    let (rest, e) =
      sort_desc-last (λ x. x.created_at) (filter (λ x. str_eq x.snapshot_key key) db.snapshots) s
        (filter-All (λ x. str_eq x.snapshot_key key) (λ x. x.created_at < now) db.snapshots
          older) in
    ap (λ xs. head_snapshot env (sort_desc (λ x. x.created_at) xs)) kept ∙ ap (head_snapshot env) e

-- A snapshot checks as intact right after it is made, where it is the newest, exactly if its digest
-- is the same for the naive creation time that was written and for the time as the database gives it
-- back.
pub create_snapshot-verify :
    (env : SnapshotEnv) (key : String) (now : ℕ) (db : SlaDb)
    → All (λ s. s.created_at < now) db.snapshots
    → verify_snapshot_integrity env key (create_snapshot env key now db).1
      ≡ some (
          str_eq
            (compute_checksum env env.keeps_timezone (create_snapshot env key now db).0)
            (compute_checksum env false (create_snapshot env key now db).0))
unfolding verify_snapshot_integrity
create_snapshot-verify env key now db older =
    ap (verify_found env) (get_latest_snapshot-create env key now db older)
    ∙ unfold create_snapshot compute_checksum in refl
