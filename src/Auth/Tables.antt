-- ===== src/Auth/Tables.antt =====
-- `UserRepository`, `SessionRepository` and `TokenFamilyRepository` of app/repositories/.
use noc_iq_be.Prelude.{
  ℕ, ◌+◌, String, Bool, true, false, ◌||◌, not, Option, none, some, List, [], ◌∷◌, ◌++◌, str_eq,
  if◌then◌else◌, length, filter, first, update_first, delete_first, sort_desc, integrity_error,
  Result, ok, err,
}
use noc_iq_be.Prelude.Dict.{is_some}
use noc_iq_be.Auth.Db.{UserRow, SessionRow, FamilyRow, Db, Env, Action, later, modify}

abbrev pub has_email : String → UserRow → Bool
has_email email u = str_eq u.email email

abbrev pub has_access : String → SessionRow → Bool
has_access token s = str_eq s.access_token token

abbrev pub has_refresh : String → SessionRow → Bool
has_refresh token s = str_eq s.refresh_token token

abbrev pub in_family : String → SessionRow → Bool
in_family family s = elim s.family_id [ none ↦ false | some f ↦ str_eq f family ]

abbrev pub of_email : String → SessionRow → Bool
of_email email s = str_eq s.email email

abbrev pub has_family : String → FamilyRow → Bool
has_family family f = str_eq f.family_id family

unfoldable pub log_event : String → String → Action (Unit {0})
log_event event email =
    modify
      (λ db. record db { audit = db.audit ++ record { event_type = event; email = email } ∷ [] })

-- UserRepository

unfoldable pub get_by_email : String → Db → Option UserRow
get_by_email email db = first (has_email email) db.users

-- `id` is the primary key and `email` is unique.
unfoldable pub create_user : UserRow → Action UserRow
create_user user db =
    if is_some (first (λ u. str_eq u.id user.id || str_eq u.email user.email) db.users)
    then (err integrity_error, db)
    else (ok user, record db { users = db.users ++ user ∷ [] })

abbrev pub or_zero : Option ℕ → ℕ
or_zero none = 0
or_zero (some n) = n

abbrev change_user : String → (UserRow → UserRow) → Db → Db
change_user email f db = record db { users = update_first (has_email email) f db.users }

unfoldable pub increment_failed_attempts : String → Db → Db
increment_failed_attempts email =
    change_user email
      (λ u. record u { failed_login_attempts = some (or_zero u.failed_login_attempts + 1) })

unfoldable pub reset_failed_attempts : String → Db → Db
reset_failed_attempts email =
    change_user email (λ u. record u { failed_login_attempts = some 0; locked_until = none })

unfoldable pub lock_account : String → ℕ → Db → Db
lock_account email until = change_user email (λ u. record u { locked_until = some until })

-- `user.locked_until > datetime.utcnow()`: `utcnow()` is naive.
abbrev locked_row : Bool → ℕ → Option UserRow → Result Bool
locked_row keeps now none = ok false
locked_row keeps now (some u) = elim u.locked_until [
  | none ↦ ok false
  | some until ↦ later keeps until false now
]

unfoldable pub is_account_locked : Env → String → ℕ → Action Bool
unfolding get_by_email
is_account_locked env email now db = (locked_row env.keeps_timezone now (get_by_email email db), db)

-- SessionRepository

-- `access_token` is the primary key and `refresh_token` is unique.
unfoldable pub create_session : SessionRow → Action (Unit {0})
create_session s db =
    if is_some
      (first (λ x. has_access s.access_token x || has_refresh s.refresh_token x) db.sessions)
    then (err integrity_error, db)
    else (ok tt, record db { sessions = db.sessions ++ s ∷ [] })

unfoldable pub get_session : String → Db → Option SessionRow
get_session token db = first (has_access token) db.sessions

unfoldable pub get_session_by_refresh_token : String → Db → Option SessionRow
get_session_by_refresh_token token db = first (has_refresh token) db.sessions

unfoldable pub delete_session : String → Db → Db
delete_session token db = record db { sessions = delete_first (has_access token) db.sessions }

unfoldable pub delete_sessions_by_family : String → Db → Db
delete_sessions_by_family family db = record db {
  sessions = filter (λ s. not (in_family family s)) db.sessions;
}

unfoldable pub list_sessions_by_email : String → Db → List SessionRow
list_sessions_by_email email db =
    sort_desc (λ s. s.created_at) (filter (of_email email) db.sessions)

unfoldable pub delete_sessions_by_email : String → Db → ℕ × Db
unfolding list_sessions_by_email
delete_sessions_by_email email db = (
  length (list_sessions_by_email email db),
  record db { sessions = filter (λ s. not (of_email email s)) db.sessions },
)

-- TokenFamilyRepository

unfoldable pub get_family : String → Db → Option FamilyRow
get_family family db = first (has_family family) db.families

abbrev pub new_family : String → String → FamilyRow
new_family family email = record {
  family_id = family;
  email = email;
  current_sequence = 0;
  compromised = false;
}

unfoldable pub create_family : String → String → Action (Unit {0})
create_family family email db =
    if is_some (first (has_family family) db.families)
    then (err integrity_error, db)
    else (ok tt, record db { families = db.families ++ new_family family email ∷ [] })

abbrev change_family : String → (FamilyRow → FamilyRow) → Db → Db
change_family family f db = record db { families = update_first (has_family family) f db.families }

unfoldable pub increment_sequence : String → Db → Db
increment_sequence family =
    change_family family (λ f. record f { current_sequence = f.current_sequence + 1 })

unfoldable pub compromise_family : String → Db → Db
compromise_family family = change_family family (λ f. record f { compromised = true })

unfoldable pub delete_families_by_email : String → Db → Db
delete_families_by_email email db = record db {
  families = filter (λ f. not (str_eq f.email email)) db.families;
}
