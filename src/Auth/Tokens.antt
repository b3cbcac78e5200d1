-- ===== src/Auth/Tokens.antt =====
-- What a token is worth after a login, a logout and a logout of all sessions.
use noc_iq_be.Prelude.{
  ℕ, ◌+◌, ◌≤◌, String, ◌≡◌, ap, ◌∙◌, ◌≢◌, inl, inr, true, false, ◌||◌, not, none, some, [], ◌∷◌,
  ◌++◌, arith, str_eq, eq_iff, eq_refl, Option-cases, filter, first, update_first, delete_first,
  count, length-filter, length-sort_desc, count-delete_first, first_of_count, first-holds,
  first-append_none, first-update_first, first-filter-none, first-filter_holds, ok, err,
  attribute_error,
}
use noc_iq_be.Auth.Db.{UserRow, SessionRow, FamilyRow, Db, Env}
use noc_iq_be.Auth.Tables.{
  has_access, has_refresh, has_family, has_email, of_email, log_event, get_by_email,
  reset_failed_attempts, is_account_locked, create_session, create_family, get_session,
  delete_session, delete_sessions_by_email, list_sessions_by_email, delete_families_by_email,
}
use noc_iq_be.Auth.Store.{
  AuthUser, Fresh, user_orm_to_pydantic, no_user_id, new_session, login, open_session,
  get_user_for_token, logout_all_sessions,
}
use noc_iq_be.Auth.Renewal.{logout}
use noc_iq_be.Auth.Rotation.{IsSound, new_key}
use noc_iq_be.Auth.Sessions.{Reachable, Reachable-IsSound}

module _ (env : Env) (token : String) (now : ℕ) (db : Db) where
  no_session :
      first (has_access (env.hash_token token)) db.sessions ≡ none
      → (get_user_for_token env token now db).0 ≡ ok none
  unfolding get_user_for_token get_session
  no_session missing = ground arith

  -- The user of a token is the one of its stored session's address.
  user_of_token :
      (a : AuthUser)
      → (get_user_for_token env token now db).0 ≡ ok (some a)
      → (s : SessionRow) × (first (has_access (env.hash_token token)) db.sessions ≡ some s)
        × (a.email ≡ s.email)
  unfolding get_user_for_token get_session get_by_email
  user_of_token a h = elim (Option-cases (first (has_access (env.hash_token token)) db.sessions)) [
    | inl missing ↦ absurd (ground arith)
    | inr (s, e) ↦ elim (Option-cases (first (has_email s.email) db.users)) [
      | inl missing ↦ absurd (ground arith)
      | inr (u, found) ↦ (
        s,
        e,
        ground (arith, first-holds (has_email s.email) db.users u found, eq_iff u.email s.email),
      )
    ]
  ]

gone :
    (db : Db)
    → IsSound db
    → (key : String) (s : SessionRow) → first (has_access key) db.sessions ≡ some s
    → first (has_access key) (delete_first (has_access key) db.sessions) ≡ none
gone db inv key s e = first_of_count (has_access key) (delete_first (has_access key) db.sessions) (
    ground (
      arith,
      inv.keyed key,
      count-delete_first (has_access key) (has_access key) s db.sessions e,
      first-holds (has_access key) db.sessions s e,
    ))

-- In every database that calls reach, a token with which a logout was called has no user after it,
-- at any time.
pub logout-revokes :
    (env : Env) (db : Db) (token : String) (now : ℕ)
    → Reachable env db
    → (get_user_for_token env token now (logout env token db).1).0 ≡ ok none
unfolding logout get_session delete_session log_event
logout-revokes env db token now reached =
    no_session env token now (logout env token db).1
      (elim (Option-cases (first (has_access (env.hash_token token)) db.sessions)) [
        | inl missing ↦ ground arith
        | inr (s, e) ↦
            ground (arith, gone db (Reachable-IsSound env db reached) (env.hash_token token) s e)
      ])

-- Logging out all sessions of an address returns how many the table had of it, and leaves none of it
-- and no family of it.
pub logout_all_clears :
    (email : String) (db : Db)
    → let (r, db') = logout_all_sessions email db in
      (r ≡ ok (count (of_email email) db.sessions))
      × (first (of_email email) db'.sessions ≡ none)
      × (first (λ f. str_eq f.email email) db'.families ≡ none)
unfolding logout_all_sessions delete_sessions_by_email list_sessions_by_email
    delete_families_by_email log_event
logout_all_clears email db = (
  ap ok (
      length-sort_desc (λ (s : SessionRow). s.created_at) (filter (of_email email) db.sessions)
      ∙ length-filter (of_email email) db.sessions),
  first-filter-none (λ (s : SessionRow). not (of_email email s)) (of_email email) db.sessions
      (λ s h. ground arith),
  first-filter-none (λ (f : FamilyRow). not (str_eq f.email email)) (λ f. str_eq f.email email)
      db.families (λ f h. ground arith),
)

-- After all sessions of an address are logged out, the user of any token, at any time, is of another
-- address.
pub logout_all-revokes :
    (env : Env) (db : Db) (email token : String) (now : ℕ) (a : AuthUser)
    → (get_user_for_token env token now (logout_all_sessions email db).1).0 ≡ ok (some a)
    → a.email ≢ email
unfolding logout_all_sessions delete_sessions_by_email list_sessions_by_email
    delete_families_by_email log_event
logout_all-revokes env db email token now a h same =
    let (s, found, e) = user_of_token env token now (logout_all_sessions email db).1 a h in
    ground (
      arith,
      first-filter_holds (λ (x : SessionRow). not (of_email email x))
          (has_access (env.hash_token token)) s db.sessions found,
      eq_iff s.email email,
    )

abbrev cleared : UserRow → UserRow
cleared u = record u { failed_login_attempts = some 0; locked_until = none }

-- The conditions of a login that opens a session: the account is the user's and not locked, the
-- password is right, and the tokens and the family that are drawn are not in the tables.
module _ (env : Env) (email password : String) (now : ℕ) (fresh : Fresh) (db : Db) (u : UserRow)
    (found : get_by_email email db ≡ some u) where
  login_opens :
      (is_account_locked env email now db).0 ≡ ok false
      → env.verify_password password u.hashed_password ≡ true
      → login env email password now fresh db ≡ open_session env email now fresh u db
  unfolding login is_account_locked
  login_opens unlocked right = ground arith

  module _ (no_family : first (has_family fresh.family) db.families ≡ none)
      (no_clash : first
          (λ x.
            has_access (env.hash_token fresh.access) x
            || has_refresh (env.hash_token fresh.refresh) x)
          db.sessions
        ≡ none) where
    opened :
        ((open_session env email now fresh u db).1.sessions
          ≡ db.sessions ++ new_session env email fresh.family 0 now fresh ∷ [])
        × ((open_session env email now fresh u db).1.users
            ≡ update_first (has_email email) cleared db.users)
        × ((open_session env email now fresh u db).0 ≡ err (no_user_id env))
    unfolding open_session reset_failed_attempts create_family create_session
    opened = (
      ground (arith, no_family, no_clash),
      ground (arith, no_family, no_clash),
      ground (arith, no_family, no_clash),
    )

    found_session :
        first
          (has_access (env.hash_token fresh.access))
          (open_session env email now fresh u db).1.sessions
        ≡ some (new_session env email fresh.family 0 now fresh)
    found_session =
        let s = new_session env email fresh.family 0 now fresh in
        rw opened.0 (
          ground (
            arith,
            first-append_none (has_access (env.hash_token fresh.access)) db.sessions (s ∷ []) (
                first_of_count (has_access (env.hash_token fresh.access)) db.sessions
                  (new_key s db.sessions no_clash)),
            eq_refl (env.hash_token fresh.access),
          ))

    found_user :
        first (has_email email) (open_session env email now fresh u db).1.users ≡ some (cleared u)
    unfolding get_by_email
    found_user = rw opened.1 (
        first-update_first (has_email email) cleared db.users u found
          (first-holds (has_email email) db.users u found))

    opened_user :
        (time : ℕ)
        → env.keeps_timezone ≡ true
        → time ≤ now + env.token_ttl
        → (get_user_for_token env fresh.access time (open_session env email now fresh u db).1).0
          ≡ ok (some (user_orm_to_pydantic u))
    unfolding get_user_for_token get_session get_by_email
    opened_user time aware early = ground (arith, found_session, found_user)

-- A login with the right password, of an account that is not locked, with tokens and a family that
-- are not in the tables, raises AttributeError (the user's row has no `user_id`), and yet its session
-- stays: where the database gives back aware datetimes, the access token that was drawn has the user
-- of the address until the token's lifetime is over.
pub login-get_user :
    (env : Env) (email password : String) (now time : ℕ) (fresh : Fresh) (db : Db) (u : UserRow)
    → env.keeps_timezone ≡ true
    → get_by_email email db ≡ some u
    → (is_account_locked env email now db).0 ≡ ok false
    → env.verify_password password u.hashed_password ≡ true
    → first (has_family fresh.family) db.families ≡ none
    → first
        (λ x.
          has_access (env.hash_token fresh.access) x
          || has_refresh (env.hash_token fresh.refresh) x)
        db.sessions
      ≡ none
    → time ≤ now + env.token_ttl
    → ((login env email password now fresh db).0 ≡ err attribute_error)
      × ((get_user_for_token env fresh.access time (login env email password now fresh db).1).0
          ≡ ok (some (user_orm_to_pydantic u)))
login-get_user env email password now time fresh db u aware found unlocked right no_family no_clash
      early =
    rw (login_opens env email password now fresh db u found unlocked right) (
      (opened env email password now fresh db u found no_family no_clash).2,
      opened_user env email password now fresh db u found no_family no_clash time aware early,
    )
