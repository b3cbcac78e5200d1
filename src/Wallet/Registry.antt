-- ===== src/Wallet/Registry.antt =====
-- `WalletRegistry` of app/services/wallet_registry.py: creation, linking and look-up of wallets over
-- the database and the two dicts of copies. A method is one step, but a creation may meet rows that
-- another request commits between its look-up and its insert.
use noc_iq_be.Prelude.{
  ℕ, ◌+◌, String, Bool, true, false, ◌||◌, Option, none, some, ◌++◌, concat, ltb, if◌then◌else◌,
  Error, value_error, integrity_error, Result, ok, err,
}
use noc_iq_be.Prelude.Dict.{Dict, lookup, insert, erase}
use noc_iq_be.Wallet.Repository.{
  WalletRow, Wallet, Wallets, wallet_orm_to_pydantic, get_by_user_id, create_and_link_wallet,
  link_existing_wallet,
}

pub record Registry : Type 0 where
  pub wallets : Wallets
  pub by_user : Dict Wallet
  pub by_address : Dict Wallet
  pub link_locks : Dict Bool

-- The two assignments that follow every look-up and every write.
unfoldable pub keep : String → Wallet → Registry → Registry
keep user w s = record s {
  by_user = insert user w s.by_user;
  by_address = insert w.public_key w s.by_address;
}

-- WALLET_CACHE_TTL_SECONDS is `ttl`; a reading before `cached_at` gives no age above it. The database
-- gives `cached_at` back aware; of a naive one (SQLite) the subtraction raises TypeError.
unfoldable pub is_stale : ℕ → ℕ → Wallet → Bool
is_stale ttl now w = elim w.cached_at [ none ↦ true | some t ↦ ltb (t + ttl) now ]

abbrev pub refreshed : ℕ → Wallet → Wallet
refreshed now w = record w { cached_at = some now; last_updated = now; cache_status = "live" }

unfoldable pub refresh_wallet : ℕ → Wallet → Registry → Wallet × Registry
refresh_wallet now w s = (refreshed now w, keep w.user_id (refreshed now w) s)

abbrev pub is_integrity_error : Error → Bool
is_integrity_error integrity_error = true
is_integrity_error _ = false

abbrev pub exists_message : String
exists_message = "Wallet already exists for this user."

abbrev pub created_message : String
created_message = "Wallet created. Please fund with at least 1 XLM to activate."

abbrev pub give : String → String → WalletRow → Registry → Result (Wallet × String) × Registry
give user message row s =
    (ok (wallet_orm_to_pydantic row, message), keep user (wallet_orm_to_pydantic row) s)

-- What the handler of IntegrityError does after the rollback.
abbrev pub recover : String → Option WalletRow → Registry → Result (Wallet × String) × Registry
recover user none s = (err (value_error "Failed to create wallet"), s)
recover user (some row) s = give user exists_message row s

abbrev pub after_insert :
    String → Result WalletRow × Wallets → Registry → Result (Wallet × String) × Registry
after_insert user (ok row, t) s = give user created_message row (record s { wallets = t })
after_insert user (err e, t) s =
    if is_integrity_error e then recover user (get_by_user_id user s.wallets) s else (err e, s)

abbrev pub link_key : String → String → String
link_key user key = concat user (concat ":" key)

abbrev pub is_locked : Option Bool → Bool
is_locked none = false
is_locked (some held) = held

abbrev pub after_link : String → Result WalletRow × Wallets → Registry → Result Wallet × Registry
after_link user (ok row, t) s = (
  ok (wallet_orm_to_pydantic row),
  keep user (wallet_orm_to_pydantic row) (record s { wallets = t }),
)
after_link user (err e, t) s =
    (err (if is_integrity_error e then value_error "Failed to link wallet" else e), s)

-- The finally clause.
abbrev pub unlock {ℓ} : {A : Type ℓ} → String → A × Registry → A × Registry
unlock k (r, s) = (r, record s { link_locks = erase k s.link_locks })

module _ (no_key : Error) where
  abbrev pub or_insert :
      String
      → String
      → Wallets
      → ℕ
      → Option WalletRow
      → Registry
      → Result (Wallet × String) × Registry
  or_insert user key others now (some row) s = give user exists_message row s
  or_insert user key others now none s =
      let s' = record s { wallets = s.wallets ++ others } in
      after_insert user (create_and_link_wallet no_key user key false false now s'.wallets) s'

  abbrev pub unless_kept :
      String → String → Wallets → ℕ → Option Wallet → Registry → Result (Wallet × String) × Registry
  unless_kept user key others now (some w) s = (ok (w, exists_message), s)
  unless_kept user key others now none s =
      or_insert user key others now (get_by_user_id user s.wallets) s

  -- `key` is the public key that `_build_public_key` makes, and `others` are the rows that other
  -- requests commit before the insert.
  unfoldable pub create_wallet :
      String → String → Wallets → ℕ → Registry → Result (Wallet × String) × Registry
  create_wallet user key others now s = unless_kept user key others now (lookup user s.by_user) s

  unfoldable pub link_wallet :
      String → String → Bool → Bool → ℕ → Registry → Result Wallet × Registry
  link_wallet user key funded ready now s =
      if is_locked (lookup (link_key user key) s.link_locks)
      then (err (value_error "Link operation is already in progress."), s)
      else unlock (link_key user key) (
          after_link user (link_existing_wallet no_key user key funded ready now s.wallets)
            (record s { link_locks = insert (link_key user key) true s.link_locks }))

abbrev pub served : ℕ → Bool → ℕ → Wallet → Registry → Option Wallet × Registry
served ttl refresh now w s =
    if refresh || is_stale ttl now w
    then (some (refresh_wallet now w s).0, (refresh_wallet now w s).1)
    else (some (record w { cache_status = "fresh" }), s)

abbrev pub from_row : ℕ → String → Bool → ℕ → Option WalletRow → Registry → Option Wallet × Registry
from_row ttl user refresh now none s = (none, s)
from_row ttl user refresh now (some row) s =
    served ttl refresh now (wallet_orm_to_pydantic row) (keep user (wallet_orm_to_pydantic row) s)

abbrev pub from_copy : ℕ → String → Bool → ℕ → Option Wallet → Registry → Option Wallet × Registry
from_copy ttl user refresh now (some w) s = served ttl refresh now w s
from_copy ttl user refresh now none s =
    from_row ttl user refresh now (get_by_user_id user s.wallets) s

unfoldable pub get_wallet : ℕ → String → Bool → ℕ → Registry → Option Wallet × Registry
get_wallet ttl user refresh now s = from_copy ttl user refresh now (lookup user s.by_user) s
