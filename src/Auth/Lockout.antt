-- ===== src/Auth/Lockout.antt =====
-- The lockout of an account after failed logins.
use noc_iq_be.Prelude.{
  ℕ, ◌+◌, ◌≤◌, ◌<◌, String, ◌≡◌, refl, false, some, arith, leb, if◌then◌else◌, first, update_first,
  first-holds, first-update_first, attribute_error, ok, err,
}
use noc_iq_be.Auth.Db.{UserRow, Db, Env}
use noc_iq_be.Auth.Tables.{
  or_zero, has_email, log_event, get_by_email, increment_failed_attempts, lock_account,
  is_account_locked,
}
use noc_iq_be.Auth.Store.{Fresh, failed_login, login, no_user_id, locked_error}

abbrev add_attempt : UserRow → UserRow
add_attempt u = record u { failed_login_attempts = some (or_zero u.failed_login_attempts + 1) }

abbrev with_lock : ℕ → UserRow → UserRow
with_lock until u = record u { locked_until = some until }

module _ (env : Env) (email : String) (now : ℕ) (db : Db) where
  abbrev pub locked_db : Db
  locked_db = record db {
    users =
        update_first (has_email email) (with_lock (now + env.lockout_duration))
          (update_first (has_email email) add_attempt db.users);
  }

  abbrev pub failed_db : Db
  failed_db = record db { users = update_first (has_email email) add_attempt db.users }

module _ (env : Env) (email : String) (now : ℕ) (db : Db) (u : UserRow)
    (found : get_by_email email db ≡ some u) where
  found_after :
      first (has_email email) (update_first (has_email email) add_attempt db.users)
      ≡ some (add_attempt u)
  unfolding get_by_email
  found_after =
      first-update_first (has_email email) add_attempt db.users u found
        (first-holds (has_email email) db.users u found)

  -- A failed login of a user adds one failed attempt, and at the maximum locks the account from now
  -- for the lockout's duration; either way the call then raises AttributeError, before any event.
  pub failed_login_lem : failed_login env email now db ≡ (
      if leb env.max_failed_attempts (or_zero u.failed_login_attempts + 1)
      then (err (no_user_id env), locked_db env email now db)
      else (err (no_user_id env), failed_db env email now db))
  unfolding failed_login increment_failed_attempts get_by_email lock_account
  failed_login_lem = ground (arith, found_after)

  failed_login_last :
      env.max_failed_attempts ≤ or_zero u.failed_login_attempts + 1
      → failed_login env email now db ≡ (err (no_user_id env), locked_db env email now db)
  failed_login_last reached = ground (arith, failed_login_lem)

  found_locked :
      first (has_email email) (
        update_first
          (has_email email)
          (with_lock (now + env.lockout_duration))
          (update_first (has_email email) add_attempt db.users))
      ≡ some (with_lock (now + env.lockout_duration) (add_attempt u))
  found_locked =
      first-update_first (has_email email) (with_lock (now + env.lockout_duration))
        (update_first (has_email email) add_attempt db.users) (add_attempt u) found_after
        (first-holds (has_email email) (update_first (has_email email) add_attempt db.users)
          (add_attempt u) found_after)

module _ (env : Env) (email password : String) (now : ℕ) (fresh : Fresh) (db : Db) (u : UserRow)
    (found : get_by_email email db ≡ some u) where
  login_wrong :
      (is_account_locked env email now db).0 ≡ ok false
      → env.verify_password password u.hashed_password ≡ false
      → login env email password now fresh db ≡ failed_login env email now db
  unfolding login is_account_locked
  login_wrong unlocked bad = ground arith

  login_locked :
      (until : ℕ)
      → env.keeps_timezone ≡ false
      → u.locked_until ≡ some until
      → now < until
      → (login env email password now fresh db).0 ≡ err (locked_error env)
  unfolding login is_account_locked log_event
  login_locked until naive locked early = ground arith

-- A login with a wrong password that reaches the maximum of failed attempts, of an account that is
-- not locked, raises AttributeError in place of the report of the lock, and yet the account is locked:
-- any login of it before the lock ends is refused as locked, whatever its password. The database
-- gives back naive datetimes.
pub wrong_password_locks :
    (env : Env) (email wrong password : String) (now time : ℕ) (fresh fresh' : Fresh) (db : Db)
    (u : UserRow)
    → env.keeps_timezone ≡ false
    → get_by_email email db ≡ some u
    → (is_account_locked env email now db).0 ≡ ok false
    → env.verify_password wrong u.hashed_password ≡ false
    → env.max_failed_attempts ≤ or_zero u.failed_login_attempts + 1
    → time < now + env.lockout_duration
    → ((login env email wrong now fresh db).0 ≡ err attribute_error)
      × ((login env email password time fresh' (login env email wrong now fresh db).1).0
          ≡ err (locked_error env))
unfolding get_by_email
wrong_password_locks env email wrong password now time fresh fresh' db u naive found unlocked bad
      reached early =
    rw
      (
        login_wrong env email wrong now fresh db u found unlocked bad,
        failed_login_last env email now db u found reached,
      )
      (
        refl,
        login_locked env email password time fresh' (locked_db env email now db)
            (with_lock (now + env.lockout_duration) (add_attempt u))
            (found_locked env email now db u found) (now + env.lockout_duration) naive refl early,
      )
