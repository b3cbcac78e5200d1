-- ===== src/Auth/Sessions.antt =====
-- The life of a database under the calls of `AuthStore`: which states are reached from an empty
-- database, and what holds in them.
use noc_iq_be.Prelude.{
  ℕ, String, refl, ◌≢◌, ◌⊎◌, inl, inr, not, [], arith, str_eq, ltb, Bool-cases, Option-cases,
  filter, err,
}
use noc_iq_be.Auth.Db.{Db, Env}
use noc_iq_be.Auth.Tables.{
  log_event, get_by_email, create_user, has_access, of_email, get_session, delete_session,
  delete_sessions_by_email, delete_families_by_email,
}
use noc_iq_be.Auth.Store.{
  Fresh, register, login, get_user_for_token, logout_all_sessions, get_user_sessions,
}
use noc_iq_be.Auth.Renewal.{refresh, logout, reuse_error}
use noc_iq_be.Auth.Chains.{
  IsChained-nil, filter-IsChained, delete_first-IsChained, filter_families-IsChained,
}
use noc_iq_be.Auth.Rotation.{IsSound, SameTables, same-IsSound, IsUnused, login-IsSound}
use noc_iq_be.Auth.Refreshing.{refresh-IsSound, refresh-ne_reuse}

-- One call, at a database, to the database it leaves. A login draws a family that no session has.
pub data Step (env : Env) : Db → Db → Type 0 where
  registers :
      {db : Db} (email password full_name role uuid : String)
      → Step env db (register env email password full_name role uuid db).1
  logs_in :
      {db : Db} (email password : String) (now : ℕ) (fresh : Fresh)
      → IsUnused fresh.family db
      → Step env db (login env email password now fresh db).1
  refreshes :
      {db : Db} (token : String) (now : ℕ) (fresh : Fresh)
      → Step env db (refresh env token now fresh db).1
  reads_user :
      {db : Db} (token : String) (now : ℕ) → Step env db (get_user_for_token env token now db).1
  reads_sessions :
      {db : Db} (email : String) (now : ℕ) → Step env db (get_user_sessions email now db).1
  logs_out : {db : Db} (token : String) → Step env db (logout env token db).1
  logs_out_all : {db : Db} (email : String) → Step env db (logout_all_sessions email db).1

abbrev pub empty : Db
empty = record { users = []; sessions = []; families = []; audit = [] }

pub data Reachable (env : Env) : Db → Type 0 where
  start : Reachable env empty
  next : {a b : Db} → Reachable env a → Step env a b → Reachable env b

-- A call that leaves both tables, or drops the session of one key.
drops_one :
    (db : Db) (a : Db) (token : String)
    → IsSound db
    → SameTables a db ⊎ SameTables a (delete_session token db)
    → IsSound a
unfolding delete_session
drops_one db a token inv (inl same) = same-IsSound a db same inv
drops_one db a token inv (inr same) =
    same-IsSound a (delete_session token db) same
      (delete_first-IsChained db.sessions db.families inv (has_access token))

module _ (env : Env) (db : Db) where
  register-SameTables :
      (email password full_name role uuid : String)
      → SameTables (register env email password full_name role uuid db).1 db
  unfolding register get_by_email create_user log_event
  register-SameTables email password full_name role uuid = (ground arith, ground arith)

  logout_cases :
      (token : String)
      → SameTables (logout env token db).1 db
        ⊎ SameTables (logout env token db).1 (delete_session (env.hash_token token) db)
  unfolding logout log_event get_session delete_session
  logout_cases token = elim (Option-cases (get_session (env.hash_token token) db)) [
    | inl missing ↦ inl (ground arith, ground arith)
    | inr (s, e) ↦ inr (ground arith, ground arith)
  ]

  get_user_cases :
      (token : String) (now : ℕ)
      → SameTables (get_user_for_token env token now db).1 db
        ⊎ SameTables
            (get_user_for_token env token now db).1
            (delete_session (env.hash_token token) db)
  unfolding get_user_for_token get_session delete_session get_by_email
  get_user_cases token now = elim (Option-cases (get_session (env.hash_token token) db)) [
    | inl missing ↦ inl (ground arith, ground arith)
    | inr (s, e) ↦ elim (Bool-cases env.keeps_timezone) [
      | inl aware ↦ elim (Bool-cases (ltb s.expires_at now)) [
        | inl expired ↦ inr (ground arith, ground arith)
        | inr live ↦ inl (ground arith, ground arith)
      ]
      | inr naive ↦ inl (ground arith, ground arith)
    ]
  ]

  get_user_sessions-SameTables :
      (email : String) (now : ℕ) → SameTables (get_user_sessions email now db).1 db
  unfolding get_user_sessions
  get_user_sessions-SameTables email now = (refl, refl)

  logout_all-IsSound : (email : String) → IsSound db → IsSound (logout_all_sessions email db).1
  unfolding logout_all_sessions delete_sessions_by_email delete_families_by_email log_event
  logout_all-IsSound email inv =
      let ss = filter (λ s. not (of_email email s)) db.sessions in
      filter_families-IsChained ss db.families
        (filter-IsChained db.sessions db.families inv (λ s. not (of_email email s)))
        (λ f. not (str_eq f.email email))

Step-IsSound : (env : Env) (a b : Db) → Step env a b → IsSound a → IsSound b
Step-IsSound env a b (registers email password full_name role uuid) inv =
    same-IsSound b a (register-SameTables env a email password full_name role uuid) inv
Step-IsSound env a b (logs_in email password now fresh unused) inv =
    login-IsSound env email password now fresh a inv unused
Step-IsSound env a b (refreshes token now fresh) inv = refresh-IsSound env token now fresh a inv
Step-IsSound env a b (reads_user token now) inv =
    drops_one a b (env.hash_token token) inv (get_user_cases env a token now)
Step-IsSound env a b (reads_sessions email now) inv =
    same-IsSound b a (get_user_sessions-SameTables env a email now) inv
Step-IsSound env a b (logs_out token) inv =
    drops_one a b (env.hash_token token) inv (logout_cases env a token)
Step-IsSound env a b (logs_out_all email) inv = logout_all-IsSound env a email inv

-- In every database that registrations, logins, refreshes, look-ups of a user or of sessions, and
-- logouts reach one after the other from an empty one, whether they return or raise (a login or a
-- refresh that has stored a session raises AttributeError after it, and the session stays): each session
-- has a family, a family has one session at most, no two sessions have the same access token, no two
-- families the same identifier, no session's sequence is behind its family's, and no family is
-- compromised. A login draws a family identifier that no session has.
pub Reachable-IsSound : (env : Env) (db : Db) → Reachable env db → IsSound db
Reachable-IsSound env db start = IsChained-nil
Reachable-IsSound env db (next before step) =
    Step-IsSound env _ db step (Reachable-IsSound env _ before)

-- In every database that the same calls, one after the other, reach from an empty one, a refresh with
-- any token, at any time, does not raise the error of a reused token: not even with a token that a
-- refresh has replaced.
pub reuse_undetected :
    (env : Env) (db : Db) (token : String) (now : ℕ) (fresh : Fresh)
    → Reachable env db
    → (refresh env token now fresh db).0 ≢ err (reuse_error env)
reuse_undetected env db token now fresh reached =
    refresh-ne_reuse env token now fresh db (Reachable-IsSound env db reached)
