-- ===== src/Auth/Rotation.antt =====
-- Logins: what one leaves in the tables of sessions and families.
use noc_iq_be.Prelude.{
  ℕ, ◌≤◌, String, ◌≡◌, refl, ◌⊎◌, inl, inr, Bool, true, false, ◌||◌, none, some, List, [], ◌∷◌,
  ◌++◌, arith, eq_refl, Bool-cases, Option-cases, first, count, count-zero, first-append_none,
  Result, ok, err,
}
use noc_iq_be.Auth.Db.{UserRow, SessionRow, FamilyRow, Db, Env}
use noc_iq_be.Auth.Tables.{
  log_event, get_by_email, increment_failed_attempts, reset_failed_attempts, lock_account,
  is_account_locked, has_access, has_refresh, in_family, has_family, create_session, new_family,
  create_family,
}
use noc_iq_be.Auth.Store.{Fresh, new_session, failed_login, open_session, login}
use noc_iq_be.Auth.Chains.{IsChained, add_family-IsChained}
use noc_iq_be.Auth.ChainSteps.{add_session-IsChained}

abbrev pub IsSound : Db → Type 0
IsSound db = IsChained db.sessions db.families

-- The two tables of a database are those of another.
abbrev pub SameTables : Db → Db → Type 0
SameTables a b = (a.sessions ≡ b.sessions) × (a.families ≡ b.families)

pub IsSound-at :
    (db : Db) (ss : List SessionRow) (fs : List FamilyRow)
    → db.sessions ≡ ss
    → db.families ≡ fs
    → IsChained ss fs
    → IsSound db
IsSound-at db ss fs p q h = rw (p, q) h

pub same-IsSound : (a b : Db) → SameTables a b → IsSound b → IsSound a
same-IsSound a b (p, q) h = IsSound-at a b.sessions b.families p q h

abbrev pub IsUnused : String → Db → Type 0
IsUnused family db = count (in_family family) db.sessions ≡ 0

clash-has_access :
    (a r : String) (x : SessionRow)
    → has_access a x ≡ true
    → (has_access a x || has_refresh r x) ≡ true
clash-has_access a r x h = ground arith

pub new_key :
    (s : SessionRow) (ss : List SessionRow)
    → first (λ x. has_access s.access_token x || has_refresh s.refresh_token x) ss ≡ none
    → count (has_access s.access_token) ss ≡ 0
new_key s ss h =
    count-zero (λ x. has_access s.access_token x || has_refresh s.refresh_token x)
      (has_access s.access_token) ss (clash-has_access s.access_token s.refresh_token) h

module _ (s : SessionRow) (f : String) (db : Db) (inv : IsSound db) where
  -- A created session keeps the chains if its family is empty and not ahead of it.
  pub create_session-IsSound :
      s.family_id ≡ some f
      → IsUnused f db
      → ((row : FamilyRow)
          → first (has_family f) db.families ≡ some row
          → row.current_sequence ≤ s.sequence)
      → IsSound (create_session s db).1
  unfolding create_session
  create_session-IsSound member alone ahead =
      elim (Option-cases
        (first (λ x. has_access s.access_token x || has_refresh s.refresh_token x) db.sessions)) [
          | inl absent ↦
              IsSound-at (create_session s db).1 (db.sessions ++ s ∷ []) db.families (ground arith)
                (ground arith)
                (add_session-IsChained db.sessions db.families inv s f member alone
                  (new_key s db.sessions absent) ahead)
          | inr (x, e) ↦ same-IsSound (create_session s db).1 db (ground arith) inv
        ]

module _ (family email : String) (db : Db) (inv : IsSound db) (unused : IsUnused family db) where
  create_family-IsSound : IsSound (create_family family email db).1
  unfolding create_family
  create_family-IsSound = elim (Option-cases (first (has_family family) db.families)) [
    | inl absent ↦
        IsSound-at (create_family family email db).1 db.sessions
          (db.families ++ new_family family email ∷ []) (ground arith) (ground arith)
          (add_family-IsChained db.sessions db.families inv (new_family family email) absent unused
            refl)
    | inr (x, e) ↦ same-IsSound (create_family family email db).1 db (ground arith) inv
  ]

reset-SameTables : (email : String) (db : Db) → SameTables (reset_failed_attempts email db) db
unfolding reset_failed_attempts
reset-SameTables email db = (refl, refl)

module _ (env : Env) (email : String) (now : ℕ) (fresh : Fresh) (user : UserRow) (db : Db) where
  -- The tables with the session's new family.
  abbrev with_family : Db
  with_family = record db { families = db.families ++ new_family fresh.family email ∷ [] }

  open_session_old :
      (x : FamilyRow)
      → first (has_family fresh.family) db.families ≡ some x
      → SameTables (open_session env email now fresh user db).1 db
  unfolding open_session create_family reset_failed_attempts
  open_session_old x e = (ground arith, ground arith)

  open_session_new :
      first (has_family fresh.family) db.families ≡ none
      → SameTables
          (open_session env email now fresh user db).1
          (create_session (new_session env email fresh.family 0 now fresh) with_family).1
  unfolding open_session create_family reset_failed_attempts log_event create_session
  open_session_new e = (ground arith, ground arith)

  first-with_family :
      (row : FamilyRow)
      → first (has_family fresh.family) db.families ≡ none
      → first (has_family fresh.family) with_family.families ≡ some row
      → row.current_sequence ≤ 0
  first-with_family row absent h = ground (
    arith,
    first-append_none (has_family fresh.family) db.families (new_family fresh.family email ∷ [])
        absent,
    eq_refl fresh.family,
  )

  open_session-IsSound :
      IsSound db → IsUnused fresh.family db → IsSound (open_session env email now fresh user db).1
  open_session-IsSound inv unused =
      elim (Option-cases (first (has_family fresh.family) db.families)) [
        | inl absent ↦
            same-IsSound (open_session env email now fresh user db).1
              (create_session (new_session env email fresh.family 0 now fresh) with_family).1
              (open_session_new absent)
              (create_session-IsSound (new_session env email fresh.family 0 now fresh) fresh.family
                with_family
                (add_family-IsChained db.sessions db.families inv (new_family fresh.family email)
                  absent unused refl)
                refl unused (λ row h. first-with_family row absent h))
        | inr (x, e) ↦
            same-IsSound (open_session env email now fresh user db).1 db (open_session_old x e) inv
      ]

failed_login-SameTables :
    (env : Env) (email : String) (now : ℕ) (db : Db)
    → SameTables (failed_login env email now db).1 db
unfolding failed_login increment_failed_attempts get_by_email lock_account log_event
failed_login-SameTables env email now db = (ground arith, ground arith)

module _ (env : Env) (email password : String) (now : ℕ) (fresh : Fresh) (db : Db) where
  -- A login opens a session, or leaves both tables as they are.
  login_cases :
      SameTables (login env email password now fresh db).1 db
      ⊎ ((user : UserRow) × ((login env email password now fresh db).1
            ≡ (open_session env email now fresh user db).1))
  unfolding login is_account_locked log_event
  login_cases = go (is_account_locked env email now db).0 refl
    where
      go :
          (r : Result Bool)
          → (is_account_locked env email now db).0 ≡ r
          → SameTables (login env email password now fresh db).1 db
            ⊎ ((user : UserRow) × ((login env email password now fresh db).1
                  ≡ (open_session env email now fresh user db).1))
      go (err e) p = inl (ground arith, ground arith)
      go (ok true) p = inl (ground arith, ground arith)
      go (ok false) p = elim (Option-cases (get_by_email email db)) [
        | inl missing ↦ inl (
          ground (arith, failed_login-SameTables env email now db),
          ground (arith, failed_login-SameTables env email now db),
        )
        | inr (u, found) ↦ elim (Bool-cases (env.verify_password password u.hashed_password)) [
          | inl good ↦ inr (u, ground arith)
          | inr bad ↦ inl (
            ground (arith, failed_login-SameTables env email now db),
            ground (arith, failed_login-SameTables env email now db),
          )
        ]
      ]

  pub login-IsSound :
      IsSound db → IsUnused fresh.family db → IsSound (login env email password now fresh db).1
  login-IsSound inv unused = elim login_cases [
    | inl same ↦ same-IsSound (login env email password now fresh db).1 db same inv
    | inr (user, e) ↦ rw e (open_session-IsSound env email now fresh user db inv unused)
  ]
