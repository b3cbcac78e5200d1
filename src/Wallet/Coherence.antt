-- ===== src/Wallet/Coherence.antt =====
-- When the copies of the registry of app/services/wallet_registry.py agree with the rows of the database.
use noc_iq_be.Prelude.Updates.{found_by}
use noc_iq_be.Prelude.{
  ℕ, String, ◌≡◌, refl, inl, inr, Bool, true, ◌&&◌, some, [], ◌∷◌, ◌++◌, str_eq, eq_iff, eq_refl,
  Bool-cases, Option-cases, first, update_first, first-append,
}
use mathlib.Core.Path.{subst}
use noc_iq_be.Prelude.Dict.{Dict, is_some, lookup, insert, lookup-insert}
use noc_iq_be.Wallet.Repository.{
  WalletRow, Wallet, Wallets, wallet_orm_to_pydantic, of_user, of_key, relink,
}
use noc_iq_be.Wallet.Registry.{Registry, keep}

-- The row links the wallet's user to the wallet's address.
abbrev pub is_row : Wallet → WalletRow → Bool
is_row w r = of_user w.user_id r && of_key w.public_key r

abbrev pub is_known : Wallet → Wallets → Bool
is_known w t = is_some (first (is_row w) t)

pub record IsCoherent (s : Registry) : Type 0 where
  pub users :
      (u : String) (w : Wallet)
      → lookup u s.by_user ≡ some w
      → (w.user_id ≡ u) × (is_known w s.wallets ≡ true)
  pub addresses :
      (k : String) (w : Wallet)
      → lookup k s.by_address ≡ some w
      → (w.public_key ≡ k) × (is_known w s.wallets ≡ true)

insert_keeps :
    (P : String → Wallet → Type 0) (k : String) (v : Wallet) (d : Dict Wallet)
    → P k v
    → ((j : String) (w : Wallet) → lookup j d ≡ some w → P j w)
    → (j : String) (w : Wallet) → lookup j (insert k v d) ≡ some w
    → P j w
insert_keeps P k v d p all j w h = elim (Bool-cases (str_eq k j)) [
  | inl e ↦
      let hit : some v ≡ some w = rw (lookup-insert k j v d, e) at h in
      let same : v ≡ w = cc in subst (λ x. P j x) same (subst (λ i. P i v) ((eq_iff k j).0 e) p)
  | inr e ↦ all j w (rw (lookup-insert k j v d, e) at h)
]

pub keep-IsCoherent :
    (user : String) (w : Wallet) (s : Registry)
    → w.user_id ≡ user
    → is_known w s.wallets ≡ true
    → IsCoherent s
    → IsCoherent (keep user w s)
unfolding keep
keep-IsCoherent user w s own known c = record {
  users =
      insert_keeps (λ u v. (v.user_id ≡ u) × (is_known v s.wallets ≡ true)) user w s.by_user
        (own, known) c.users;
  addresses =
      insert_keeps (λ k v. (v.public_key ≡ k) × (is_known v s.wallets ≡ true)) w.public_key w
        s.by_address (refl, known) c.addresses;
}

-- No link between a user and an address is lost.
abbrev pub Grows : Wallets → Wallets → Type 0
Grows t t' = (w : Wallet) → is_known w t ≡ true → is_known w t' ≡ true

pub grow-IsCoherent :
    (s : Registry) (t' : Wallets)
    → Grows s.wallets t'
    → IsCoherent s
    → IsCoherent (record s { wallets = t' })
grow-IsCoherent s t' g c = record {
  users = λ u w h. ((c.users u w h).0, g w (c.users u w h).1);
  addresses = λ k w h. ((c.addresses k w h).0, g w (c.addresses k w h).1);
}

pub append-Grows : (t others : Wallets) → Grows t (t ++ others)
append-Grows t others w h = elim (Option-cases (first (is_row w) t)) [
  | inl e ↦ absurd (let k = rw e at h in cc)
  | inr (r, e) ↦ rw (first-append (is_row w) t others r e) refl
]

pub relink-Grows :
    (p : WalletRow → Bool) (funded ready : Bool) (now : ℕ) (t : Wallets)
    → Grows t (update_first p (relink funded ready now) t)
relink-Grows p funded ready now [] w h = h
relink-Grows p funded ready now (r ∷ t) w h = elim (Bool-cases (p r)) [
  | inl e ↦ rw e (elim (Bool-cases (is_row w r)) [ inl f ↦ rw f refl | inr f ↦ rw f (rw f at h) ])
  | inr e ↦ rw e (elim (Bool-cases (is_row w r)) [
    | inl f ↦ rw f refl
    | inr f ↦ rw f (relink-Grows p funded ready now t w (rw f at h))
  ])
]

pub found-is_known :
    (p : WalletRow → Bool) (t : Wallets) (r : WalletRow)
    → first p t ≡ some r
    → is_known (wallet_orm_to_pydantic r) t ≡ true
unfolding wallet_orm_to_pydantic
found-is_known p t r h =
    found_by p (is_row (wallet_orm_to_pydantic r)) t r h
      (rw (eq_refl r.user_id, eq_refl r.public_key) refl)
