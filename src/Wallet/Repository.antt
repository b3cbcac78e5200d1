-- ===== src/Wallet/Repository.antt =====
-- `WalletRepository` of app/repositories/wallet_repository.py over the table of
-- app/models/orm/wallet.py, and the wallets of app/models/wallet.py. A time is in whole seconds.
use noc_iq_be.Prelude.{
  ℕ, String, Bool, true, false, ◌||◌, not, Option, none, some, List, [], ◌∷◌, ◌++◌, str_eq,
  if◌then◌else◌, first, update_first, Error, value_error, integrity_error, Result, ok, err,
}
use noc_iq_be.Prelude.Dict.{is_some}

-- The key of a row that is not stored yet is none.
pub record WalletRow : Type 0 where
  pub id : Option String
  pub user_id : String
  pub public_key : String
  pub funded : Bool
  pub active : Bool
  pub trustline_ready : Bool
  pub created_at : ℕ
  pub last_updated : ℕ
  pub cached_at : Option ℕ

pub record Wallet : Type 0 where
  pub user_id : String
  pub public_key : String
  pub created_at : ℕ
  pub last_updated : ℕ
  pub funded : Bool
  pub active : Bool
  pub trustline_ready : Bool
  pub cached_at : Option ℕ
  pub cache_status : String

abbrev pub Wallets : Type 0
Wallets = List WalletRow

unfoldable pub wallet_orm_to_pydantic : WalletRow → Wallet
wallet_orm_to_pydantic orm = record {
  user_id = orm.user_id;
  public_key = orm.public_key;
  created_at = orm.created_at;
  last_updated = orm.last_updated;
  funded = orm.funded;
  active = orm.active;
  trustline_ready = orm.trustline_ready;
  cached_at = orm.cached_at;
  cache_status = "fresh";
}

abbrev pub of_user : String → WalletRow → Bool
of_user user r = str_eq r.user_id user

abbrev pub of_key : String → WalletRow → Bool
of_key key r = str_eq r.public_key key

unfoldable pub get_by_user_id : String → Wallets → Option WalletRow
get_by_user_id user t = first (of_user user) t

unfoldable pub get_by_public_key : String → Wallets → Option WalletRow
get_by_public_key key t = first (of_key key) t

abbrev same_id : Option String → Option String → Bool
same_id (some a) (some b) = str_eq a b
same_id _ _ = false

-- The rows clash on the primary key or on a unique column.
abbrev pub clashes : WalletRow → WalletRow → Bool
clashes a b = same_id b.id a.id || str_eq b.user_id a.user_id || str_eq b.public_key a.public_key

-- The assignments of an idempotent link.
abbrev pub relink : Bool → Bool → ℕ → WalletRow → WalletRow
relink funded ready now r = record r {
  funded = funded;
  trustline_ready = ready;
  active = true;
  last_updated = now;
  cached_at = some now;
}

abbrev or_old {ℓ} : {A : Type ℓ} → Option A → A → A
or_old none old = old
or_old (some new) old = new

abbrev pub differs : String → Option WalletRow → Bool
differs key none = false
differs key (some u) = not (str_eq u.public_key key)

abbrev pub is_anothers : String → Option WalletRow → Bool
is_anothers user none = false
is_anothers user (some a) = not (str_eq a.user_id user)

-- `no_key` is what the flush of a row without its primary key raises: IntegrityError on a table of
-- the class, whose column is a text that may not be NULL; FlushError on the table of the migration,
-- which numbers its rows, since the class does not ask for the number.
module _ (no_key : Error) where
  unfoldable pub add_row : WalletRow → Wallets → Result WalletRow × Wallets
  add_row orm t =
      if is_some (first (clashes orm) t)
      then (err integrity_error, t)
      else elim orm.id [ none ↦ (err no_key, t) | some _ ↦ (ok orm, t ++ orm ∷ []) ]

  -- The class has no default for its key, and the call gives none.
  unfoldable pub create_and_link_wallet :
      String → String → Bool → Bool → ℕ → Wallets → Result WalletRow × Wallets
  unfolding add_row
  create_and_link_wallet user key funded ready now = add_row (record {
    id = none;
    user_id = user;
    public_key = key;
    funded = funded;
    active = true;
    trustline_ready = ready;
    created_at = now;
    last_updated = now;
    cached_at = some now;
  })

  abbrev pub relink_or_create :
      String → String → Bool → Bool → ℕ → Wallets → Option WalletRow → Result WalletRow × Wallets
  relink_or_create user key funded ready now t none =
      create_and_link_wallet user key funded ready now t
  relink_or_create user key funded ready now t (some u) =
      if str_eq u.public_key key
      then (ok (relink funded ready now u), update_first (of_user user) (relink funded ready now) t)
      else create_and_link_wallet user key funded ready now t

  unfoldable pub link_existing_wallet :
      String → String → Bool → Bool → ℕ → Wallets → Result WalletRow × Wallets
  unfolding get_by_user_id get_by_public_key
  link_existing_wallet user key funded ready now t =
      if differs key (get_by_user_id user t)
      then (err (value_error "User is already linked to another wallet."), t)
      else if is_anothers user (get_by_public_key key t)
      then (err (value_error "Wallet address is already linked to another user."), t)
      else relink_or_create user key funded ready now t (get_by_user_id user t)

abbrev pub edit : Option Bool → Option Bool → Option Bool → ℕ → WalletRow → WalletRow
edit funded ready active now r = record r {
  funded = or_old funded r.funded;
  trustline_ready = or_old ready r.trustline_ready;
  active = or_old active r.active;
  last_updated = now;
}

unfoldable pub update_wallet :
    String → Option Bool → Option Bool → Option Bool → ℕ → Wallets → Option WalletRow × Wallets
unfolding get_by_user_id
update_wallet user funded ready active now t = elim (get_by_user_id user t) [
  | none ↦ (none, t)
  | some r ↦ (
    some (edit funded ready active now r),
    update_first (of_user user) (edit funded ready active now) t,
  )
]
