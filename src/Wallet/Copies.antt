-- ===== src/Wallet/Copies.antt =====
-- The copies that `WalletRegistry` of app/services/wallet_registry.py keeps, against the rows.
use noc_iq_be.Prelude.{
  ℕ, String, ◌≡◌, refl, inl, inr, Bool, true, false, ◌||◌, some, ◌++◌, eq_iff, Bool-cases,
  Option-cases, first, update_first, first-holds, Error, err,
}
use noc_iq_be.Prelude.Dict.{Dict, lookup, insert}
use noc_iq_be.Wallet.Repository.{
  WalletRow, Wallet, Wallets, wallet_orm_to_pydantic, of_user, get_by_user_id, relink,
  link_existing_wallet,
}
use noc_iq_be.Wallet.Registry.{
  Registry, keep, is_stale, refreshed, refresh_wallet, is_integrity_error, recover, after_insert,
  create_wallet, link_key, is_locked, after_link, link_wallet, served, get_wallet,
}
use noc_iq_be.Wallet.Links.{create_and_link_wallet-fails, link_either}
use noc_iq_be.Wallet.Coherence.{
  is_known, IsCoherent, keep-IsCoherent, grow-IsCoherent, append-Grows, relink-Grows,
  found-is_known,
}

-- A look-up of the user's row gives a copy that may be kept.
row-IsCoherent :
    (user : String) (r : WalletRow) (s : Registry)
    → first (of_user user) s.wallets ≡ some r
    → IsCoherent s
    → IsCoherent (keep user (wallet_orm_to_pydantic r) s)
row-IsCoherent user r s h c =
    keep-IsCoherent user (wallet_orm_to_pydantic r) s
      (unfold wallet_orm_to_pydantic in
        (eq_iff r.user_id user).0 (first-holds (of_user user) s.wallets r h))
      (found-is_known (of_user user) s.wallets r h) c

recover-IsCoherent :
    (user : String) (s : Registry)
    → IsCoherent s
    → IsCoherent (recover user (first (of_user user) s.wallets) s).1
recover-IsCoherent user s c = elim (Option-cases (first (of_user user) s.wallets)) [
  | inl e ↦ rw e c
  | inr (r, e) ↦ rw e (row-IsCoherent user r s e c)
]

after_insert-IsCoherent :
    (user : String) (e : Error) (s : Registry)
    → IsCoherent s
    → IsCoherent (after_insert user (err e, s.wallets) s).1
unfolding get_by_user_id
after_insert-IsCoherent user e s c = elim (Bool-cases (is_integrity_error e)) [
  | inl f ↦ rw f (recover-IsCoherent user s c)
  | inr f ↦ rw f c
]

pub create_wallet-IsCoherent :
    (no_key : Error) (user key : String) (others : Wallets) (now : ℕ) (s : Registry)
    → IsCoherent s
    → IsCoherent (create_wallet no_key user key others now s).1
unfolding create_wallet get_by_user_id
create_wallet-IsCoherent no_key user key others now s c =
    elim (Option-cases (lookup user s.by_user)) [
      | inr (w, e) ↦ rw e c
      | inl e ↦ elim (Option-cases (first (of_user user) s.wallets)) [
        | inr (r, f) ↦ rw (e, f) (row-IsCoherent user r s f c)
        | inl f ↦
            let s' = record s { wallets = s.wallets ++ others } in
            let grown = grow-IsCoherent s s'.wallets (append-Grows s.wallets others) c in
            let (raised, stands) =
              create_and_link_wallet-fails no_key user key false false now s'.wallets in
            rw (e, f, stands) (after_insert-IsCoherent user raised s' grown)
      ]
    ]

relock-IsCoherent :
    (s : Registry) (locks : Dict Bool) → IsCoherent s → IsCoherent (record s { link_locks = locks })
relock-IsCoherent s locks c = record { users = c.users; addresses = c.addresses }

after_link-IsCoherent :
    (no_key : Error) (user key : String) (funded ready : Bool) (now : ℕ) (s : Registry)
    → IsCoherent s
    → IsCoherent
        (after_link user (link_existing_wallet no_key user key funded ready now s.wallets) s).1
after_link-IsCoherent no_key user key funded ready now s c =
    elim (link_either no_key user key funded ready now s.wallets) [
      | inl (e, stands) ↦ rw stands c
      | inr (u, found, made) ↦
          let grown = relink-Grows (of_user user) funded ready now s.wallets in
          rw made (
            keep-IsCoherent user (wallet_orm_to_pydantic (relink funded ready now u))
              (record s {
                wallets = update_first (of_user user) (relink funded ready now) s.wallets;
              })
              (unfold wallet_orm_to_pydantic in
                (eq_iff u.user_id user).0 (first-holds (of_user user) s.wallets u found))
              (unfold wallet_orm_to_pydantic in
                grown (wallet_orm_to_pydantic u) (found-is_known (of_user user) s.wallets u found))
              (grow-IsCoherent s _ grown c))
    ]

pub link_wallet-IsCoherent :
    (no_key : Error) (user key : String) (funded ready : Bool) (now : ℕ) (s : Registry)
    → IsCoherent s
    → IsCoherent (link_wallet no_key user key funded ready now s).1
unfolding link_wallet
link_wallet-IsCoherent no_key user key funded ready now s c =
    elim (Bool-cases (is_locked (lookup (link_key user key) s.link_locks))) [
      | inl e ↦ rw e c
      | inr e ↦
          let locked = insert (link_key user key) true s.link_locks in
          rw e (
            relock-IsCoherent _ _ (
              after_link-IsCoherent no_key user key funded ready now
                (record s { link_locks = locked }) (relock-IsCoherent s locked c)))
    ]

served-IsCoherent :
    (ttl : ℕ) (user : String) (refresh : Bool) (now : ℕ) (w : Wallet) (s : Registry)
    → w.user_id ≡ user
    → is_known w s.wallets ≡ true
    → IsCoherent s
    → IsCoherent (served ttl refresh now w s).1
unfolding refresh_wallet
served-IsCoherent ttl user refresh now w s own known c =
    elim (Bool-cases (refresh || is_stale ttl now w)) [
      | inl e ↦ rw e (keep-IsCoherent w.user_id (refreshed now w) s refl known c)
      | inr e ↦ rw e c
    ]

pub get_wallet-IsCoherent :
    (ttl : ℕ) (user : String) (refresh : Bool) (now : ℕ) (s : Registry)
    → IsCoherent s
    → IsCoherent (get_wallet ttl user refresh now s).1
unfolding get_wallet get_by_user_id
get_wallet-IsCoherent ttl user refresh now s c = elim (Option-cases (lookup user s.by_user)) [
  | inr (w, e) ↦
      rw e (served-IsCoherent ttl user refresh now w s (c.users user w e).0 (c.users user w e).1 c)
  | inl e ↦ elim (Option-cases (first (of_user user) s.wallets)) [
    | inl f ↦ rw (e, f) c
    | inr (r, f) ↦
        let w = wallet_orm_to_pydantic r in
        rw (e, f)
          (served-IsCoherent ttl user refresh now w (keep user w s)
            (unfold wallet_orm_to_pydantic in
              (eq_iff r.user_id user).0 (first-holds (of_user user) s.wallets r f))
            (unfold keep in found-is_known (of_user user) s.wallets r f)
            (row-IsCoherent user r s f c))
  ]
]
