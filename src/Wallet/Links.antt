-- ===== src/Wallet/Links.antt =====
-- When `WalletRegistry` of app/services/wallet_registry.py creates and links a wallet.
use noc_iq_be.Prelude.{
  ℕ, ◌≤◌, String, ◌≡◌, refl, ◌↔◌, ◌⊎◌, inl, inr, Bool, true, false, Option, none, some,
  if◌then◌else◌, Bool-cases, Option-cases, first, update_first, count, first_of_unique, first-holds,
  Error, value_error, integrity_error, Result, ok, err,
}
use noc_iq_be.Prelude.Dict.{is_some, lookup, insert}
use noc_iq_be.Wallet.Repository.{
  WalletRow, Wallets, of_user, of_key, get_by_user_id, get_by_public_key, clashes, relink, add_row,
  create_and_link_wallet, differs, is_anothers, relink_or_create, link_existing_wallet,
}
use noc_iq_be.Wallet.Registry.{Registry, link_key, is_locked, after_link, unlock, link_wallet}

-- The insert never takes place, whichever error stands in its way.
pub create_and_link_wallet-fails :
    (no_key : Error) (user key : String) (funded ready : Bool) (now : ℕ) (t : Wallets)
    → (e : Error) × (create_and_link_wallet no_key user key funded ready now t ≡ (err e, t))
unfolding create_and_link_wallet add_row
create_and_link_wallet-fails no_key user key funded ready now t =
    let row : WalletRow = record {
      id = none;
      user_id = user;
      public_key = key;
      funded = funded;
      active = true;
      trustline_ready = ready;
      created_at = now;
      last_updated = now;
      cached_at = some now;
    } in
    elim (Bool-cases (is_some (first (clashes row) t))) [
      | inl e ↦ (integrity_error, rw e refl)
      | inr e ↦ (no_key, rw e refl)
    ]

abbrev pub IsOk {ℓ} : {A : Type ℓ} → Result A → Type 0
IsOk (ok a) = Unit
IsOk (err e) = ⊥

abbrev IsSome {ℓ} : {A : Type ℓ} → Option A → Type 0
IsSome (some a) = Unit
IsSome none = ⊥

-- The user's row has the address.
abbrev pub has_address : String → Option WalletRow → Bool
has_address key none = false
has_address key (some r) = of_key key r

module _ (no_key : Error) (user key : String) (funded ready : Bool) (now : ℕ) where
  pub linked :
      (t : Wallets) (u : WalletRow)
      → count (of_key key) t ≤ 1
      → first (of_user user) t ≡ some u
      → of_key key u ≡ true
      → link_existing_wallet no_key user key funded ready now t
        ≡ (ok (relink funded ready now u), update_first (of_user user) (relink funded ready now) t)
  unfolding link_existing_wallet get_by_user_id get_by_public_key
  linked t u unique found same =
      let holder = first_of_unique (of_user user) (of_key key) u t found same unique in
      let own = first-holds (of_user user) t u found in rw (found, holder, same, own) refl

  pub unlinked :
      (t : Wallets)
      → has_address key (first (of_user user) t) ≡ false
      → (e : Error) × (link_existing_wallet no_key user key funded ready now t ≡ (err e, t))
  unfolding link_existing_wallet get_by_user_id get_by_public_key
  unlinked t h = go (first (of_user user) t) (first (of_key key) t) h
    where
      go :
          (o a : Option WalletRow)
          → has_address key o ≡ false
          → (e : Error) × ((if differs key o
                then (err (value_error "User is already linked to another wallet."), t)
                else if is_anothers user a
                then (err (value_error "Wallet address is already linked to another user."), t)
                else relink_or_create no_key user key funded ready now t o)
              ≡ (err e, t))
      go (some u) a miss = (value_error "User is already linked to another wallet.", rw miss refl)
      go none a miss = elim (Bool-cases (is_anothers user a)) [
        | inl e ↦ (value_error "Wallet address is already linked to another user.", rw e refl)
        | inr e ↦ rw e (create_and_link_wallet-fails no_key user key funded ready now t)
      ]

  -- A link raises and leaves the table, or it writes the user's row.
  pub link_either :
      (t : Wallets)
      → ((e : Error) × (link_existing_wallet no_key user key funded ready now t ≡ (err e, t)))
        ⊎ ((u : WalletRow) × (first (of_user user) t ≡ some u)
            × (link_existing_wallet no_key user key funded ready now t ≡ (
              ok (relink funded ready now u),
              update_first (of_user user) (relink funded ready now) t,
            )))
  unfolding link_existing_wallet get_by_user_id get_by_public_key
  link_either t = elim (Option-cases (first (of_user user) t)) [
    | inl e ↦ inl (unlinked t (rw e refl))
    | inr (u, e) ↦ elim (Bool-cases (of_key key u)) [
      | inr f ↦ inl (unlinked t (rw e f))
      | inl f ↦ elim (Bool-cases (is_anothers user (first (of_key key) t))) [
        | inl g ↦
            inl (value_error "Wallet address is already linked to another user.", rw (e, f, g) refl)
        | inr g ↦ inr (u, e, rw (e, f, g) refl)
      ]
    ]
  ]

  link_wallet_cases :
      (s : Registry)
      → is_locked (lookup (link_key user key) s.link_locks) ≡ false
      → link_wallet no_key user key funded ready now s
        ≡ unlock (link_key user key) (
            after_link user
              (link_existing_wallet no_key user key funded ready now s.wallets)
              (record s { link_locks = insert (link_key user key) true s.link_locks }))
  unfolding link_wallet
  link_wallet_cases s h = rw h refl

  -- Where no link of the user and the address is under way and one row at most has the address, a
  -- link returns a wallet exactly when the user's row has the address already.
  pub link_wallet_iff :
      (s : Registry)
      → is_locked (lookup (link_key user key) s.link_locks) ≡ false
      → count (of_key key) s.wallets ≤ 1
      → IsOk (link_wallet no_key user key funded ready now s).0
        ↔ (has_address key (first (of_user user) s.wallets) ≡ true)
  link_wallet_iff s free unique = rw (link_wallet_cases s free) (to, from)
    where
      to :
          IsOk
            (after_link user
              (link_existing_wallet no_key user key funded ready now s.wallets)
              (record s { link_locks = insert (link_key user key) true s.link_locks })).0
          → has_address key (first (of_user user) s.wallets) ≡ true
      to i = elim (Bool-cases (has_address key (first (of_user user) s.wallets))) [
        | inl e ↦ e
        | inr e ↦ absurd (rw (unlinked s.wallets e).1 at i)
      ]

      from :
          has_address key (first (of_user user) s.wallets) ≡ true
          → IsOk
              (after_link user
                (link_existing_wallet no_key user key funded ready now s.wallets)
                (record s { link_locks = insert (link_key user key) true s.link_locks })).0
      from h = elim (Option-cases (first (of_user user) s.wallets)) [
        | inl e ↦ absurd (let k = rw e at h in cc)
        | inr (u, e) ↦ rw (linked s.wallets u unique e (rw e at h)) tt
      ]
