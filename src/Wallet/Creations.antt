-- ===== src/Wallet/Creations.antt =====
-- When `create_wallet` of app/services/wallet_registry.py makes a row.
use noc_iq_be.Prelude.Updates.{first_mono}
use noc_iq_be.Prelude.{
  ℕ, String, ◌≡◌, refl, ◌↔◌, inl, inr, true, false, ◌||◌, none, some, ◌++◌, arith, Bool-cases,
  Option-cases, first, first-append, Error, integrity_error, err,
}
use noc_iq_be.Prelude.Dict.{is_some, lookup}
use noc_iq_be.Wallet.Repository.{
  WalletRow, Wallets, of_user, get_by_user_id, clashes, add_row, create_and_link_wallet,
}
use noc_iq_be.Wallet.Registry.{Registry, is_integrity_error, after_insert, create_wallet}
use noc_iq_be.Wallet.Links.{create_and_link_wallet-fails, IsOk}

module _ (no_key : Error) (user key : String) (now : ℕ) where
  create-clash :
      (t : Wallets)
      → is_some (first (of_user user) t) ≡ true
      → create_and_link_wallet no_key user key false false now t ≡ (err integrity_error, t)
  unfolding create_and_link_wallet add_row
  create-clash t h =
      let row : WalletRow = record {
        id = none;
        user_id = user;
        public_key = key;
        funded = false;
        active = true;
        trustline_ready = false;
        created_at = now;
        last_updated = now;
        cached_at = some now;
      } in
      let hit : is_some (first (clashes row) t) ≡ true =
        first_mono (of_user user) (clashes row) t (λ x e. ground arith) h in
      rw hit refl

  -- What the insert leaves of the state, and when it gives a wallet.
  inserted :
      (s : Registry)
      → IsOk
          (after_insert user (create_and_link_wallet no_key user key false false now s.wallets) s).0
        ↔ (is_some (first (of_user user) s.wallets) ≡ true)
  unfolding get_by_user_id
  inserted s = elim (Option-cases (first (of_user user) s.wallets)) [
    | inl e ↦
        let (raised, stands) =
          create_and_link_wallet-fails no_key user key false false now s.wallets in
        rw stands (go raised e)
    | inr (r, e) ↦ rw (create-clash s.wallets (rw e refl)) (rw e ((λ _. refl), (λ _. tt)))
  ]
    where
      go :
          (e : Error)
          → first (of_user user) s.wallets ≡ none
          → IsOk (after_insert user (err e, s.wallets) s).0
            ↔ (is_some (first (of_user user) s.wallets) ≡ true)
      go e h = elim (Bool-cases (is_integrity_error e)) [
        | inl y ↦ rw (y, h) ((λ i. absurd i), (λ k. absurd cc))
        | inr y ↦ rw (y, h) ((λ i. absurd i), (λ k. absurd cc))
      ]

  -- A creation returns a wallet exactly when the user has a copy of one, or has a row, or gets one
  -- from another request before the insert: it never makes a row itself.
  pub create_wallet_iff :
      (others : Wallets) (s : Registry)
      → IsOk (create_wallet no_key user key others now s).0 ↔ (
          is_some (lookup user s.by_user) || is_some (first (of_user user) (s.wallets ++ others))
          ≡ true)
  unfolding create_wallet get_by_user_id
  create_wallet_iff others s = elim (Option-cases (lookup user s.by_user)) [
    | inr (w, e) ↦ rw e ((λ _. refl), (λ _. tt))
    | inl e ↦ elim (Option-cases (first (of_user user) s.wallets)) [
      | inl f ↦ rw (e, f) (inserted (record s { wallets = s.wallets ++ others }))
      | inr (r, f) ↦
          rw (e, f, first-append (of_user user) s.wallets others r f) ((λ _. refl), (λ _. tt))
    ]
  ]
