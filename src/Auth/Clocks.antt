-- ===== src/Auth/Clocks.antt =====
-- The comparisons of datetimes in the user and session look-ups: one of an aware and a naive one
-- raises `TypeError`.
use noc_iq_be.Prelude.{
  ℕ, ◌≤◌, String, ◌≡◌, refl, true, false, some, List, [], ◌∷◌, arith, length, filter, first,
  length-filter, length-sort_desc, count-pos_of_first, first-holds, type_error, err,
}
use noc_iq_be.Auth.Db.{UserRow, SessionRow, Db, Env}
use noc_iq_be.Auth.Tables.{
  get_by_email, is_account_locked, of_email, get_session, list_sessions_by_email,
}
use noc_iq_be.Auth.Store.{Fresh, login, get_user_for_token, session_infos, get_user_sessions}

session_infos_raises :
    (now : ℕ) (sessions : List SessionRow)
    → 1 ≤ length sessions
    → session_infos now sessions ≡ err type_error
unfolding session_infos
session_infos_raises now [] h = absurd (omega (arith, h))
session_infos_raises now (s ∷ sessions) h = refl

-- Listing the sessions of a user who has one raises TypeError, at any time.
pub get_user_sessions_raises :
    (email : String) (now : ℕ) (db : Db) (s : SessionRow)
    → first (of_email email) db.sessions ≡ some s
    → (get_user_sessions email now db).0 ≡ err type_error
unfolding get_user_sessions list_sessions_by_email
get_user_sessions_raises email now db s found =
    session_infos_raises now (list_sessions_by_email email db) (
      omega (
        arith,
        length-sort_desc (λ (x : SessionRow). x.created_at) (filter (of_email email) db.sessions),
        length-filter (of_email email) db.sessions,
        count-pos_of_first (of_email email) (of_email email) s db.sessions found
            (first-holds (of_email email) db.sessions s found),
      ))

-- If the database gives back naive datetimes, the look-up of the user of any token with a stored
-- session raises TypeError, at any time, and changes nothing.
pub get_user_raises :
    (env : Env) (token : String) (now : ℕ) (db : Db) (s : SessionRow)
    → env.keeps_timezone ≡ false
    → get_session (env.hash_token token) db ≡ some s
    → get_user_for_token env token now db ≡ (err type_error, db)
unfolding get_user_for_token
get_user_raises env token now db s naive found = ground arith

-- If the database gives back aware datetimes, the login of any user with a recorded lock raises
-- TypeError, at any time, with any password, and changes nothing.
pub login_raises :
    (env : Env) (email password : String) (now : ℕ) (fresh : Fresh) (db : Db) (u : UserRow)
    (until : ℕ)
    → env.keeps_timezone ≡ true
    → get_by_email email db ≡ some u
    → u.locked_until ≡ some until
    → login env email password now fresh db ≡ (err type_error, db)
unfolding login is_account_locked
login_raises env email password now fresh db u until aware found locked = ground arith
