-- ===== src/Auth/Db.antt =====
-- The rows of app/models/orm/user.py, session.py and token_family.py, the database as their tables
-- with the audit trail, and the calls that work on it: what one wrote before it raised stays.
use noc_iq_be.Prelude.{ℕ, String, Bool, true, false, Option, List, ltb, type_error, Result, ok, err}
use noc_iq_be.Prelude.Call.{Call}
pub use noc_iq_be.Prelude.Call.{◌>>=◌, ◌>>◌, pure, raise, lift, gets, modify, when}

pub record UserRow : Type 0 where
  pub id : String
  pub email : String
  pub hashed_password : String
  pub full_name : String
  pub role : String
  pub stellar_wallet : Option String
  pub failed_login_attempts : Option ℕ
  pub locked_until : Option ℕ

-- The tokens are stored as their digests.
pub record SessionRow : Type 0 where
  pub access_token : String
  pub refresh_token : String
  pub email : String
  pub family_id : Option String
  pub sequence : ℕ
  pub expires_at : ℕ
  pub created_at : ℕ

pub record FamilyRow : Type 0 where
  pub family_id : String
  pub email : String
  pub current_sequence : ℕ
  pub compromised : Bool

-- `audit_log.log_event(db, event_type, email=email)`; the details are not kept.
pub record AuditEvent : Type 0 where
  pub event_type : String
  pub email : String

pub record Db : Type 0 where
  pub users : List UserRow
  pub sessions : List SessionRow
  pub families : List FamilyRow
  pub audit : List AuditEvent

-- What the code takes from outside: the digest and the password check of hashlib and passlib, the
-- settings, and whether the database gives back the time zone that a `DateTime(timezone=True)` was
-- stored with (PostgreSQL does, SQLite does not).
pub record Env : Type 0 where
  pub hash_token : String → String
  pub get_password_hash : String → String
  pub verify_password : String → String → Bool
  pub validate_password_policy : String → Bool
  pub keeps_timezone : Bool
  pub max_failed_attempts : ℕ
  pub lockout_duration : ℕ
  pub token_ttl : ℕ
  -- when the class of the sessions was loaded: the default of `created_at` is evaluated then
  pub loaded_at : ℕ

abbrev pub Action : Type 0 → Type 0
Action = Call Db

-- `a > b` of datetimes, each with whether it is aware of its zone: an aware and a naive one do not
-- compare.
abbrev pub later : Bool → ℕ → Bool → ℕ → Result Bool
later true a true b = ok (ltb b a)
later false a false b = ok (ltb b a)
later _ a _ b = err type_error
