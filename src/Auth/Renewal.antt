-- ===== src/Auth/Renewal.antt =====
-- `_refresh_with_db` and `_logout_with_db` of app/services/auth_store.py.
use noc_iq_be.Prelude.{
  ℕ, ◌+◌, String, Bool, true, false, Option, none, some, ltb, if◌then◌else◌, update_first, Error,
  value_error,
}
use noc_iq_be.Auth.Db.{
  UserRow, SessionRow, FamilyRow, Env, Action, ◌>>=◌, ◌>>◌, pure, raise, gets, modify,
}
use noc_iq_be.Auth.Tables.{
  log_event, get_by_email, is_account_locked, has_access, create_session, get_session,
  get_session_by_refresh_token, delete_session, delete_sessions_by_family, get_family,
  create_family, increment_sequence, compromise_family,
}
use noc_iq_be.Auth.Store.{AuthSessionResponse, Fresh, new_session, no_user_id}

module _ (env : Env) where
  abbrev pub invalid_refresh : Error
  invalid_refresh = value_error "Invalid or expired refresh token"

  abbrev pub reuse_error : Error
  reuse_error = value_error "Refresh token reuse detected. Session family invalidated."

  -- A session from before families gets one; its row is changed in place.
  abbrev family_of : String → String → SessionRow → Action (SessionRow × String)
  family_of email family old = elim old.family_id [
    | some f ↦ pure (old, f)
    | none ↦ (do
      create_family family email
      let old' = record old { family_id = some family; sequence = 0 }
      modify (λ db. record db {
        sessions = update_first (has_access old.access_token) (λ _. old') db.sessions;
      })
      pure (old', family))
  ]

  abbrev pub issue :
      String → String → ℕ → Fresh → Option UserRow → Option FamilyRow → Action AuthSessionResponse
  issue email family now fresh none row = raise (value_error "User not found")
  issue email family now fresh (some user) none = raise (value_error "Invalid token family")
  issue email family now fresh (some user) (some row) = do
    create_session (new_session env email family (row.current_sequence + 1) now fresh)
    raise (no_user_id env)

  -- `family` is the object that `increment_sequence` changes: its sequence is read after that.
  unfoldable pub rotate : String → String → ℕ → Fresh → SessionRow → Action AuthSessionResponse
  rotate email family now fresh old = do
    modify (increment_sequence family)
    modify (delete_session old.access_token)
    stored_user ← gets (get_by_email email)
    row ← gets (get_family family)
    issue email family now fresh stored_user row

  unfoldable pub detect_reuse : String → String → Action AuthSessionResponse
  detect_reuse email family = do
    modify (compromise_family family)
    modify (delete_sessions_by_family family)
    log_event "refresh_token_reuse" email
    raise reuse_error

  abbrev refresh_in :
      String → ℕ → Fresh → SessionRow → String → Option FamilyRow → Action AuthSessionResponse
  refresh_in email now fresh old family none = raise (value_error "Invalid token family")
  refresh_in email now fresh old family (some row) =
      if row.compromised
      then (do
        log_event "refresh_failed_compromised" email
        raise (value_error "Session family has been compromised"))
      else if ltb old.sequence row.current_sequence
      then detect_reuse email family
      else rotate email family now fresh old

  abbrev refresh_unless : ℕ → Fresh → SessionRow → Bool → Action AuthSessionResponse
  refresh_unless now fresh old true = do
    log_event "refresh_failed_locked" old.email
    raise (value_error "Account is temporarily locked")
  refresh_unless now fresh old false = do
    (old', family) ← family_of old.email fresh.family old
    row ← gets (get_family family)
    refresh_in old.email now fresh old' family row

  abbrev refresh_found : ℕ → Fresh → Option SessionRow → Action AuthSessionResponse
  refresh_found now fresh none = raise invalid_refresh
  refresh_found now fresh (some old) = do
    locked ← is_account_locked env old.email now
    refresh_unless now fresh old locked

  unfoldable pub refresh : String → ℕ → Fresh → Action AuthSessionResponse
  refresh refresh_token now fresh = do
    old_session ← gets (get_session_by_refresh_token (env.hash_token refresh_token))
    refresh_found now fresh old_session

  abbrev logout_found : String → Option SessionRow → Action (Unit {0})
  logout_found digest none = pure tt
  logout_found digest (some s) = do modify (delete_session digest); log_event "logout" s.email

  unfoldable pub logout : String → Action (Unit {0})
  logout token = do
    session ← gets (get_session (env.hash_token token))
    logout_found (env.hash_token token) session
