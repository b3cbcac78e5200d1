-- ===== src/Auth/Store.antt =====
-- `AuthStore` of app/services/auth_store.py: the methods `..._with_db`. A method takes the readings of
-- the clock and the random texts that it makes. The objects that a query returns are live: a field
-- that a repository has changed is read changed.
use noc_iq_be.Prelude.{
  ℕ, ◌+◌, String, Bool, true, false, not, Option, none, some, List, [], ◌∷◌, concat, leb,
  if◌then◌else◌, Error, value_error, attribute_error, Result, ok, err,
}
use noc_iq_be.Auth.Db.{
  UserRow, SessionRow, Env, Action, ◌>>=◌, ◌>>◌, pure, raise, lift, later, gets, modify, when,
}
use noc_iq_be.Auth.Tables.{
  or_zero, log_event, get_by_email, create_user, increment_failed_attempts, reset_failed_attempts,
  lock_account, is_account_locked, create_session, get_session, delete_session,
  list_sessions_by_email, delete_sessions_by_email, create_family, delete_families_by_email,
}

-- `AuthUser`, of `user_orm_to_pydantic`.
pub record AuthUser : Type 0 where
  pub id : String
  pub email : String
  pub full_name : String
  pub role : String
  pub stellar_wallet : Option String

abbrev pub user_orm_to_pydantic : UserRow → AuthUser
user_orm_to_pydantic u = record {
  id = u.id;
  email = u.email;
  full_name = u.full_name;
  role = u.role;
  stellar_wallet = u.stellar_wallet;
}

pub record AuthSessionResponse : Type 0 where
  pub access_token : String
  pub refresh_token : String
  pub expires_in : ℕ
  pub user : AuthUser

-- The tokens and the family identifier that a call draws.
pub record Fresh : Type 0 where
  pub access : String
  pub refresh : String
  pub family : String

-- What is listed of a session; the previews of its digests are not kept.
pub record SessionInfo : Type 0 where
  pub email : String
  pub expires_at : ℕ
  pub created_at : ℕ
  pub is_active : Bool

-- `now` is aware, and `expires_at` is made naive.
unfoldable pub session_infos : ℕ → List SessionRow → Result (List SessionInfo)
session_infos now [] = ok []
session_infos now (s ∷ sessions) =
    let rest = session_infos now sessions in
    elim (later true now false s.expires_at) [
      | err e ↦ err e
      | ok is_expired ↦ elim rest [
        | err e ↦ err e
        | ok infos ↦ ok (
            record {
              email = s.email;
              expires_at = s.expires_at;
              created_at = s.created_at;
              is_active = not is_expired;
            }
            ∷ infos)
      ]
    ]

unfoldable pub get_user_sessions : String → ℕ → Action (List SessionInfo)
unfolding session_infos
get_user_sessions email now = do
  sessions ← gets (list_sessions_by_email email)
  lift (session_infos now sessions)

unfoldable pub logout_all_sessions : String → Action ℕ
logout_all_sessions email = do
  count' ← (λ db. let (n, db') = delete_sessions_by_email email db in (ok n, db'))
  modify (delete_families_by_email email)
  log_event "logout_all_sessions" email
  pure count'

module _ (env : Env) where
  -- `uuid` is `uuid4().hex[:8]`.
  unfoldable pub register : (email password full_name role uuid : String) → Action AuthUser
  unfolding get_by_email create_user log_event
  register email password full_name role uuid = do
    existing ← gets (get_by_email email)
    when (elim existing [ none ↦ false | some _ ↦ true ])
        (raise (value_error "User already exists"))
    when (not (env.validate_password_policy password))
        (raise (value_error "Password does not meet policy requirements"))
    user ← create_user (record {
      id = concat "user_" uuid;
      email = email;
      hashed_password = env.get_password_hash password;
      full_name = full_name;
      role = role;
      stellar_wallet = none;
      failed_login_attempts = some 0;
      locked_until = none;
    })
    log_event "registration" email
    pure (user_orm_to_pydantic user)

  abbrev pub locked_error : Error
  locked_error = value_error "Account is temporarily locked due to too many failed login attempts"

  -- The arguments of `log_event` read `stored_user.user_id`; a `UserORM` has no such attribute, and
  -- neither the event nor what follows it is reached.
  abbrev pub no_user_id : Error
  no_user_id = attribute_error

  abbrev pub credentials_error : Error
  credentials_error = value_error "Invalid credentials"

  -- `stored_user and (stored_user.failed_login_attempts or 0) >= AUTH_MAX_FAILED_ATTEMPTS`
  abbrev pub exhausted : Option UserRow → Bool
  exhausted none = false
  exhausted (some u) = leb env.max_failed_attempts (or_zero u.failed_login_attempts)

  abbrev pub log_failure : String → Option UserRow → Action AuthSessionResponse
  log_failure email none = do log_event "login_failed" email; raise credentials_error
  log_failure email (some u) = raise no_user_id

  unfoldable pub failed_login : String → ℕ → Action AuthSessionResponse
  failed_login email now = do
    modify (increment_failed_attempts email)
    stored_user ← gets (get_by_email email)
    if exhausted stored_user
        then (do modify (lock_account email (now + env.lockout_duration)); raise no_user_id)
        else log_failure email stored_user

  abbrev pub new_session : String → String → ℕ → ℕ → Fresh → SessionRow
  new_session email family sequence now fresh = record {
    access_token = env.hash_token fresh.access;
    refresh_token = env.hash_token fresh.refresh;
    email = email;
    family_id = some family;
    sequence = sequence;
    expires_at = now + env.token_ttl;
    created_at = env.loaded_at;
  }

  unfoldable pub open_session : String → ℕ → Fresh → UserRow → Action AuthSessionResponse
  open_session email now fresh user = do
    modify (reset_failed_attempts email)
    create_family fresh.family email
    create_session (new_session email fresh.family 0 now fresh)
    raise no_user_id

  abbrev pub login_found : String → ℕ → Fresh → String → Option UserRow → Action AuthSessionResponse
  login_found email now fresh password none = failed_login email now
  login_found email now fresh password (some u) =
      if env.verify_password password u.hashed_password
      then open_session email now fresh u
      else failed_login email now

  abbrev login_unless : String → String → ℕ → Fresh → Bool → Action AuthSessionResponse
  login_unless email password now fresh true = do
    log_event "login_failed_locked" email
    raise locked_error
  login_unless email password now fresh false = do
    stored_user ← gets (get_by_email email)
    login_found email now fresh password stored_user

  unfoldable pub login : (email password : String) → ℕ → Fresh → Action AuthSessionResponse
  login email password now fresh = do
    locked ← is_account_locked env email now
    login_unless email password now fresh locked

  -- `datetime.now(timezone.utc)` is aware, and is made naive where `expires_at` is aware; `expires_at`
  -- is naive in the comparison either way.
  abbrev user_of_live : String → Bool → Action (Option AuthUser)
  user_of_live email true = pure none
  user_of_live email false =
      gets (λ db. elim (get_by_email email db) [
        | none ↦ none
        | some u ↦ some (user_orm_to_pydantic u)
      ])

  abbrev user_of_session : String → ℕ → Option SessionRow → Action (Option AuthUser)
  user_of_session digest now none = pure none
  user_of_session digest now (some s) = do
    expired ← lift (later (not env.keeps_timezone) now false s.expires_at)
    when expired (modify (delete_session digest))
    user_of_live s.email expired

  unfoldable pub get_user_for_token : String → ℕ → Action (Option AuthUser)
  get_user_for_token token now = do
    session ← gets (get_session (env.hash_token token))
    user_of_session (env.hash_token token) now session
