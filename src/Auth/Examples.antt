-- ===== src/Auth/Examples.antt =====
-- Tests and examples of the authentication.
use noc_iq_be.Prelude.{
  ℕ, String, ◌≡◌, refl, ◌≢◌, Bool, true, false, Option, none, some, [], ◌∷◌, arith, str_eq, concat,
  attribute_error, ok, err,
}
use noc_iq_be.Auth.Db.{UserRow, SessionRow, Db, Env}
use noc_iq_be.Auth.Tables.{
  log_event, get_by_email, create_user, is_account_locked, get_session, delete_families_by_email,
  delete_sessions_by_email,
}
use noc_iq_be.Auth.Store.{
  AuthUser, Fresh, user_orm_to_pydantic, register, login, get_user_for_token, logout_all_sessions,
  locked_error,
}
use noc_iq_be.Auth.Renewal.{refresh, reuse_error}
use noc_iq_be.Auth.Rotation.{IsSound}
use noc_iq_be.Auth.Sessions.{
  registers, logs_in, refreshes, Reachable, start, next, empty, Reachable-IsSound, reuse_undetected,
}
use noc_iq_be.Auth.Tokens.{logout_all-revokes, login-get_user}
use noc_iq_be.Auth.Lockout.{wrong_password_locks}

abbrev env_of : Bool → Env
env_of keeps = record {
  hash_token = concat "h:";
  get_password_hash = concat "p:";
  verify_password = λ password hashed. str_eq (concat "p:" password) hashed;
  validate_password_policy = λ password. true;
  keeps_timezone = keeps;
  max_failed_attempts = 3;
  lockout_duration = 900;
  token_ttl = 3600;
  loaded_at = 1;
}

abbrev fresh_of : String → Fresh
fresh_of n = record {
  access = concat "atk_" n;
  refresh = concat "rtk_" n;
  family = concat "fam_" n;
}

abbrev user : Option ℕ → Option ℕ → UserRow
user attempts until = record {
  id = "user_1";
  email = "ann@x";
  hashed_password = "p:secret";
  full_name = "Ann";
  role = "engineer";
  stellar_wallet = none;
  failed_login_attempts = attempts;
  locked_until = until;
}

abbrev with_user : UserRow → Db
with_user u = record empty { users = u ∷ [] }

-- A registration, a login and a refresh.
abbrev registered : Db
registered = (register (env_of true) "ann@x" "secret" "Ann" "engineer" "1" empty).1

abbrev logged_in : Db
logged_in = (login (env_of true) "ann@x" "secret" 100 (fresh_of "1") registered).1

abbrev refreshed : Db
refreshed = (refresh (env_of true) "rtk_1" 200 (fresh_of "2") logged_in).1

refreshed_is_reached : Reachable (env_of true) refreshed
unfolding register get_by_email create_user log_event
refreshed_is_reached =
    next
      (next (next start (registers "ann@x" "secret" "Ann" "engineer" "1"))
        (logs_in "ann@x" "secret" 100 (fresh_of "1") refl))
      (refreshes "rtk_1" 200 (fresh_of "2"))

Reachable-IsSound_example : IsSound refreshed
Reachable-IsSound_example = Reachable-IsSound (env_of true) refreshed refreshed_is_reached

reuse_undetected_example :
    (refresh (env_of true) "rtk_1" 300 (fresh_of "3") refreshed).0 ≢ err (reuse_error (env_of true))
reuse_undetected_example =
    reuse_undetected (env_of true) refreshed "rtk_1" 300 (fresh_of "3") refreshed_is_reached

abbrev session : String → SessionRow
session n = record {
  access_token = concat "h:atk_" n;
  refresh_token = concat "h:rtk_" n;
  email = "ann@x";
  family_id = some (concat "fam_" n);
  sequence = 0;
  expires_at = 3700;
  created_at = 100;
}

abbrev with_session : Db
with_session = record (with_user (user none none)) {
  sessions = session "1" ∷ record (session "2") { email = "bob@x" } ∷ [];
}

abbrev bob : UserRow
bob = record (user none none) { id = "user_2"; email = "bob@x"; full_name = "Bob" }

abbrev two_users : Db
two_users = record with_session { users = user none none ∷ bob ∷ [] }

abbrev bob_public : AuthUser
bob_public = record {
  id = "user_2";
  email = "bob@x";
  full_name = "Bob";
  role = "engineer";
  stellar_wallet = none;
}

logout_all-revokes_example : bob_public.email ≢ "ann@x"
unfolding logout_all_sessions get_user_for_token get_session get_by_email log_event
    delete_families_by_email delete_sessions_by_email
logout_all-revokes_example =
    logout_all-revokes (env_of true) two_users "ann@x" "atk_2" 200 bob_public refl

login-get_user_example :
    let (r, db') =
      login (env_of true) "ann@x" "secret" 100 (fresh_of "1") (with_user (user none none)) in
    (r ≡ err attribute_error)
    × ((get_user_for_token (env_of true) "atk_1" 3700 db').0
        ≡ ok (some (user_orm_to_pydantic (user none none))))
unfolding is_account_locked get_by_email
login-get_user_example =
    login-get_user (env_of true) "ann@x" "secret" 100 3700 (fresh_of "1")
      (with_user (user none none)) (user none none) refl refl refl refl refl refl (omega arith)

wrong_password_locks_example :
    let db' =
      (login
        (env_of false)
        "ann@x"
        "guess"
        100
        (fresh_of "1")
        (with_user (user (some 2) none))).1 in
    ((login (env_of false) "ann@x" "guess" 100 (fresh_of "1") (with_user (user (some 2) none))).0
      ≡ err attribute_error)
    × ((login (env_of false) "ann@x" "secret" 999 (fresh_of "2") db').0
        ≡ err (locked_error (env_of false)))
unfolding get_by_email is_account_locked
wrong_password_locks_example =
    wrong_password_locks (env_of false) "ann@x" "guess" "secret" 100 999 (fresh_of "1")
      (fresh_of "2") (with_user (user (some 2) none)) (user (some 2) none) refl refl refl refl
      (omega arith) (omega arith)
