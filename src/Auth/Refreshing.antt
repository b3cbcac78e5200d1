-- ===== src/Auth/Refreshing.antt =====
-- `refresh`: where the sessions are chained to their families it rotates the session or leaves the
-- tables alone, and keeps the chains.
use noc_iq_be.Prelude.{
  ℕ, ◌+◌, String, ◌≡◌, refl, ap, ◌≢◌, ◌⊎◌, inl, inr, Bool, true, false, some, arith, str_eq,
  eq_refl, ltb, Option-cases, first, update_first, delete_first, count, count-delete_first,
  count-pos_of_first, first_of_unique, value_error, Result, ok, err,
}
use noc_iq_be.Auth.Db.{SessionRow, FamilyRow, Db, Env}
use noc_iq_be.Auth.Tables.{
  log_event, get_by_email, is_account_locked, has_access, has_refresh, in_family, has_family,
  create_session, get_session_by_refresh_token, delete_session, get_family, increment_sequence,
}
use noc_iq_be.Auth.Store.{Fresh, new_session}
use noc_iq_be.Auth.Renewal.{rotate, refresh, reuse_error}
use noc_iq_be.Auth.Chains.{has_no_family, behind, delete_first-IsChained}
use noc_iq_be.Auth.ChainSteps.{next_sequence, bump-IsChained}
use noc_iq_be.Auth.Rotation.{IsSound, SameTables, same-IsSound, create_session-IsSound}

abbrev is_reuse : {A : Type 0} → Result A → Bool
is_reuse (err (value_error m)) =
    str_eq m "Refresh token reuse detected. Session family invalidated."
is_reuse _ = false

ne_reuse : {A : Type 0} (env : Env) (r : Result A) → is_reuse r ≡ false → r ≢ err (reuse_error env)
ne_reuse env r h e = ground (arith, ap is_reuse e)

-- What a session of a sound database says of its family.
module _ (db : Db) (inv : IsSound db) (token : String) (old : SessionRow)
    (found : first (has_refresh token) db.sessions ≡ some old) where
  has_family_id : (f : String) × (old.family_id ≡ some f)
  has_family_id = elim (Option-cases old.family_id) [
    | inl missing ↦ absurd (
        ground (
          arith,
          inv.placed,
          count-pos_of_first (has_refresh token) has_no_family old db.sessions found,
        ))
    | inr e ↦ e
  ]

  is_ahead :
      (f : String) (row : FamilyRow)
      → old.family_id ≡ some f
      → first (has_family f) db.families ≡ some row
      → ltb old.sequence row.current_sequence ≡ false
  is_ahead f row member h = ground (
    arith,
    inv.current f row h,
    count-pos_of_first (has_refresh token) (behind f row.current_sequence) old db.sessions found,
    eq_refl f,
  )

  -- The session is the only one with its key, and the only one of its family.
  alone_after :
      (f : String)
      → old.family_id ≡ some f
      → count (in_family f) (delete_first (has_access old.access_token) db.sessions) ≡ 0
  alone_after f member = ground (
    arith,
    inv.single f,
    count-delete_first (has_access old.access_token) (in_family f) old db.sessions (
        first_of_unique (has_refresh token) (has_access old.access_token) old db.sessions found
          (eq_refl old.access_token) (inv.keyed old.access_token)),
    eq_refl f,
  )

module _ (env : Env) (token : String) (now : ℕ) (fresh : Fresh) (db : Db) (inv : IsSound db) where
  -- The call refuses without a word of reuse and leaves the tables alone.
  abbrev Refuses : Type 0
  Refuses =
      SameTables (refresh env token now fresh db).1 db
      × ((refresh env token now fresh db).0 ≢ err (reuse_error env))

  -- The call rotates the session with the token, in its family.
  abbrev Rotates : Type 0
  Rotates =
      (old : SessionRow) × (f : String) × (row : FamilyRow) × (first
          (has_refresh (env.hash_token token)) db.sessions
        ≡ some old)
      × (old.family_id ≡ some f)
      × (first (has_family f) db.families ≡ some row)
      × (refresh env token now fresh db ≡ rotate env old.email f now fresh old db)

  module _ (old : SessionRow)
      (found : first (has_refresh (env.hash_token token)) db.sessions ≡ some old) (f : String)
      (member : old.family_id ≡ some f) where
    unlocked_cases : (is_account_locked env old.email now db).0 ≡ ok false → Refuses ⊎ Rotates
    unfolding refresh get_session_by_refresh_token is_account_locked log_event get_family
    unlocked_cases p = elim (Option-cases (first (has_family f) db.families)) [
      | inl absent ↦ inl (
        (ground arith, ground arith),
        ne_reuse env (refresh env token now fresh db).0 (ground arith),
      )
      | inr (row, e) ↦ inr (
        old,
        f,
        row,
        found,
        member,
        e,
        ground (
          arith,
          inv.trusted f row e,
          is_ahead db inv (env.hash_token token) old found f row member e,
        ),
      )
    ]

    locked_cases :
        (r : Result Bool) → (is_account_locked env old.email now db).0 ≡ r → Refuses ⊎ Rotates
    unfolding refresh get_session_by_refresh_token is_account_locked log_event
    locked_cases (err e) p = inl (
      (ground arith, ground arith),
      ne_reuse env (refresh env token now fresh db).0 (ground arith),
    )
    locked_cases (ok true) p = inl (
      (ground arith, ground arith),
      ne_reuse env (refresh env token now fresh db).0 (ground arith),
    )
    locked_cases (ok false) p = unlocked_cases p

  refresh_cases : Refuses ⊎ Rotates
  unfolding refresh get_session_by_refresh_token
  refresh_cases = elim (Option-cases (first (has_refresh (env.hash_token token)) db.sessions)) [
    | inl missing ↦ inl (
      (ground arith, ground arith),
      ne_reuse env (refresh env token now fresh db).0 (ground arith),
    )
    | inr (old, found) ↦
        let (f, member) = has_family_id db inv (env.hash_token token) old found in
        locked_cases old found f member (is_account_locked env old.email now db).0 refl
  ]

module _ (env : Env) (email family : String) (now : ℕ) (fresh : Fresh) (old : SessionRow)
    (db : Db) where
  -- The tables after the family has moved on and the old session is gone.
  abbrev rotated : Db
  rotated = record db {
    sessions = delete_first (has_access old.access_token) db.sessions;
    families = update_first (has_family family) next_sequence db.families;
  }

  rotate_cases :
      SameTables (rotate env email family now fresh old db).1 rotated
      ⊎ ((row : FamilyRow) × (first (has_family family) rotated.families ≡ some row)
          × SameTables
              (rotate env email family now fresh old db).1
              (create_session
                (new_session env email family (row.current_sequence + 1) now fresh)
                rotated).1)
  unfolding rotate increment_sequence delete_session get_by_email get_family create_session
      log_event
  rotate_cases = elim (Option-cases (get_by_email email rotated)) [
    | inl missing ↦ inl (ground arith, ground arith)
    | inr (u, e) ↦ elim (Option-cases (first (has_family family) rotated.families)) [
      | inl missing ↦ inl (ground arith, ground arith)
      | inr (row, h) ↦ inr (row, h, (ground arith, ground arith))
    ]
  ]

  rotate-ne_reuse : (rotate env email family now fresh old db).0 ≢ err (reuse_error env)
  unfolding rotate increment_sequence delete_session get_by_email get_family create_session
      log_event
  rotate-ne_reuse = ne_reuse env (rotate env email family now fresh old db).0 (ground arith)

  rotate-IsSound :
      (token : String)
      → IsSound db
      → first (has_refresh token) db.sessions ≡ some old
      → old.family_id ≡ some family
      → IsSound (rotate env email family now fresh old db).1
  rotate-IsSound token inv found member =
      let alone = alone_after db inv token old found family member in
      let moved =
        bump-IsChained rotated.sessions db.families
          (delete_first-IsChained db.sessions db.families inv (has_access old.access_token)) family
          alone in
      elim rotate_cases [
        | inl same ↦ same-IsSound (rotate env email family now fresh old db).1 rotated same moved
        | inr (row, h, same) ↦
            same-IsSound (rotate env email family now fresh old db).1
              (create_session (new_session env email family (row.current_sequence + 1) now fresh)
                rotated).1
              same
              (create_session-IsSound
                (new_session env email family (row.current_sequence + 1) now fresh) family rotated
                moved refl alone (λ row' h'. ground arith))
      ]

module _ (env : Env) (token : String) (now : ℕ) (fresh : Fresh) (db : Db) (inv : IsSound db) where
  pub refresh-IsSound : IsSound (refresh env token now fresh db).1
  refresh-IsSound = elim (refresh_cases env token now fresh db inv) [
    | inl (same, _) ↦ same-IsSound (refresh env token now fresh db).1 db same inv
    | inr (old, f, row, found, member, h, e) ↦
        rw e
          (rotate-IsSound env old.email f now fresh old db (env.hash_token token) inv found member)
  ]

  -- In a database whose sessions are chained to their families, no refresh reports a reused token,
  -- whatever the token.
  pub refresh-ne_reuse : (refresh env token now fresh db).0 ≢ err (reuse_error env)
  refresh-ne_reuse = elim (refresh_cases env token now fresh db inv) [
    | inl (_, other) ↦ other
    | inr (old, f, row, found, member, h, e) ↦
        rw e (rotate-ne_reuse env old.email f now fresh old db)
  ]
