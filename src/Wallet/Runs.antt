-- ===== src/Wallet/Runs.antt =====
-- Runs of the operations of `WalletRegistry` of app/services/wallet_registry.py.
use noc_iq_be.Prelude.{
  ℕ, String, ◌≡◌, inl, inr, Bool, true, some, List, [], ◌∷◌, ◌++◌, arith, eq_iff, Option-cases,
  first, first-holds, Error,
}
use noc_iq_be.Prelude.Dict.{lookup}
use noc_iq_be.Wallet.Repository.{Wallet, Wallets, wallet_orm_to_pydantic, of_user, get_by_user_id}
use noc_iq_be.Wallet.Registry.{
  Registry, keep, refresh_wallet, create_wallet, link_wallet, served, get_wallet,
}
use noc_iq_be.Wallet.Copies.{
  create_wallet-IsCoherent, link_wallet-IsCoherent, get_wallet-IsCoherent,
}
use noc_iq_be.Wallet.Coherence.{is_known, IsCoherent, append-Grows, grow-IsCoherent, found-is_known}

pub data Op : Type 0 where
  create_op : (user key : String) → Wallets → ℕ → Op
  link_op : (user key : String) → (funded ready : Bool) → ℕ → Op
  get_op : String → Bool → ℕ → Op
  -- another process stores rows
  commit_op : Wallets → Op

module _ (no_key : Error) (ttl : ℕ) where
  abbrev pub step : Op → Registry → Registry
  step (create_op user key others now) s = (create_wallet no_key user key others now s).1
  step (link_op user key funded ready now) s = (link_wallet no_key user key funded ready now s).1
  step (get_op user refresh now) s = (get_wallet ttl user refresh now s).1
  step (commit_op rows) s = record s { wallets = s.wallets ++ rows }

  unfoldable pub run : List Op → Registry → Registry
  run [] s = s
  run (op ∷ ops) s = run ops (step op s)

  step-IsCoherent : (op : Op) (s : Registry) → IsCoherent s → IsCoherent (step op s)
  step-IsCoherent (create_op user key others now) s c =
      create_wallet-IsCoherent no_key user key others now s c
  step-IsCoherent (link_op user key funded ready now) s c =
      link_wallet-IsCoherent no_key user key funded ready now s c
  step-IsCoherent (get_op user refresh now) s c = get_wallet-IsCoherent ttl user refresh now s c
  step-IsCoherent (commit_op rows) s c =
      grow-IsCoherent s (s.wallets ++ rows) (append-Grows s.wallets rows) c

  pub run-IsCoherent : (ops : List Op) (s : Registry) → IsCoherent s → IsCoherent (run ops s)
  unfolding run
  run-IsCoherent [] s c = c
  run-IsCoherent (op ∷ ops) s c = run-IsCoherent ops (step op s) (step-IsCoherent op s c)

  served_same :
      (refresh : Bool) (now : ℕ) (w v : Wallet) (s : Registry)
      → (served ttl refresh now w s).0 ≡ some v
      → (v.user_id ≡ w.user_id) × (v.public_key ≡ w.public_key)
  unfolding refresh_wallet
  served_same refresh now w v s h = ground arith

  -- After creations, links and look-ups, and rows that other processes store, a look-up of a user's
  -- wallet gives a wallet of that user, under an address that a row of the database links to the
  -- user, whether it answers from a copy or from the database. The state before had no copies that
  -- say otherwise.
  pub get_wallet-own :
      (ops : List Op) (s : Registry) (user : String) (refresh : Bool) (now : ℕ) (v : Wallet)
      → IsCoherent s
      → (get_wallet ttl user refresh now (run ops s)).0 ≡ some v
      → (v.user_id ≡ user) × (is_known v (run ops s).wallets ≡ true)
  unfolding get_wallet get_by_user_id
  get_wallet-own ops s user refresh now v c h =
      let s' = run ops s in
      let c' = run-IsCoherent ops s c in
      elim (Option-cases (lookup user s'.by_user)) [
        | inr (w, e) ↦
            let (u, k) = served_same refresh now w v s' (rw e at h) in rw (u, k) (c'.users user w e)
        | inl e ↦ elim (Option-cases (first (of_user user) s'.wallets)) [
          | inl f ↦ absurd (let none_given = rw (e, f) at h in cc)
          | inr (r, f) ↦
              let w = wallet_orm_to_pydantic r in
              let (u, k) = served_same refresh now w v (keep user w s') (rw (e, f) at h) in
              rw (u, k)
                (
                  unfold wallet_orm_to_pydantic in
                      (eq_iff r.user_id user).0 (first-holds (of_user user) s'.wallets r f),
                  found-is_known (of_user user) s'.wallets r f,
                )
        ]
      ]
