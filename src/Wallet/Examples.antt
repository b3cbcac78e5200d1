-- ===== src/Wallet/Examples.antt =====
-- Examples of the wallets.
use noc_iq_be.Prelude.{
  ◌≡◌, refl, ◌↔◌, true, false, none, some, List, [], ◌∷◌, arith, first, integrity_error,
}
use noc_iq_be.Prelude.Dict.{lookup, insert}
use noc_iq_be.Cache
use noc_iq_be.Bridge.Balance.{live, fetch_failed}
use noc_iq_be.Wallet.Repository.{
  WalletRow, Wallet, of_user, wallet_orm_to_pydantic, get_by_user_id, link_existing_wallet,
}
use noc_iq_be.Wallet.Registry.{Registry, keep, is_stale, refresh_wallet, link_wallet, get_wallet}
use noc_iq_be.Wallet.Responses.{get_balance}
use noc_iq_be.Wallet.Links.{IsOk, has_address, link_wallet_iff}
use noc_iq_be.Wallet.Coherence.{is_known, IsCoherent}
use noc_iq_be.Wallet.Runs.{Op, commit_op, get_op, link_op, run, get_wallet-own}
use noc_iq_be.Wallet.Balances.{ask_all, get_balance-never_live}

abbrev row : WalletRow
row = record {
  id = some "1";
  user_id = "ann";
  public_key = "GA";
  funded = false;
  active = true;
  trustline_ready = false;
  created_at = 3;
  last_updated = 3;
  cached_at = none;
}

abbrev fresh_registry : Registry
fresh_registry = record { wallets = []; by_user = []; by_address = []; link_locks = [] }

abbrev one_row : Registry
one_row = record fresh_registry { wallets = row ∷ [] }

fresh-IsCoherent : IsCoherent fresh_registry
unfolding lookup
fresh-IsCoherent = record { users = λ u w h. absurd cc; addresses = λ k w h. absurd cc }

link_wallet_iff_example :
    IsOk (link_wallet integrity_error "ann" "GA" true true 9 one_row).0
    ↔ (has_address "GA" (first (of_user "ann") one_row.wallets) ≡ true)
unfolding lookup
link_wallet_iff_example =
    link_wallet_iff integrity_error "ann" "GA" true true 9 one_row refl (omega arith)

abbrev ann : Wallet
ann = record {
  user_id = "ann";
  public_key = "GA";
  created_at = 3;
  last_updated = 8;
  funded = true;
  active = true;
  trustline_ready = true;
  cached_at = some 8;
  cache_status = "fresh";
}

abbrev calls : List Op
calls = commit_op (row ∷ []) ∷ get_op "ann" false 5 ∷ link_op "ann" "GA" true true 8 ∷ []

get_wallet-own_example :
    (ann.user_id ≡ "ann")
    × (is_known ann (run integrity_error 60 calls fresh_registry).wallets ≡ true)
unfolding lookup insert run link_wallet get_wallet keep is_stale refresh_wallet
    wallet_orm_to_pydantic get_by_user_id link_existing_wallet
get_wallet-own_example =
    get_wallet-own integrity_error 60 calls fresh_registry "ann" false 10 ann fresh-IsCoherent refl

abbrev with_copy : Registry
with_copy = record one_row { by_address = ("GA", ann) ∷ [] }

get_balance-never_live_example :
    (get_balance 10 "GA" true 9 90 with_copy
      (ask_all 10 with_copy (("GA", false, 4, 40) ∷ []) (Cache.empty 300))).0
    ≡ some (record {
      address = "GA";
      balances = [];
      last_updated = 9;
      cache_status = "live";
      cache_ttl_seconds = none;
      cached_at = none;
      source = live;
      error_code = some fetch_failed;
    })
unfolding lookup
get_balance-never_live_example =
    get_balance-never_live 10 with_copy 300 (("GA", false, 4, 40) ∷ []) "GA" true 9 90 ann refl
