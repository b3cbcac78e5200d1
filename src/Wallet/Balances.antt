-- ===== src/Wallet/Balances.antt =====
-- What `WalletRegistry.get_balance` of app/services/wallet_registry.py answers.
use noc_iq_be.Prelude.{
  ℕ, String, ◌≡◌, refl, inl, inr, Bool, Option, none, some, List, [], ◌∷◌, Option-cases,
}
use noc_iq_be.Prelude.Dict.{lookup}
use noc_iq_be.Cache
use noc_iq_be.Cache.{TtlCache}
use noc_iq_be.Bridge.Balance.{live, fetch_failed, Entry, fetch}
use noc_iq_be.Wallet.Repository.{Wallet}
use noc_iq_be.Wallet.Registry.{Registry}
use noc_iq_be.Wallet.Responses.{Balances, WalletBalanceResponse, get_balance}

-- A call: the address, whether a refresh is forced, and the two readings.
abbrev Ask : Type 0
Ask = String × Bool × ℕ × ℕ

module _ (ticks : ℕ) (s : Registry) where
  abbrev ask :
      Ask → TtlCache (Entry Balances) → Option WalletBalanceResponse × TtlCache (Entry Balances)
  ask (address, refresh, now, tick) c = get_balance ticks address refresh now tick s c

  unfoldable pub ask_all : List Ask → TtlCache (Entry Balances) → TtlCache (Entry Balances)
  ask_all [] c = c
  ask_all (a ∷ as') c = ask_all as' (ask a c).1

  get_balance-empty : (ttl : ℕ) (a : Ask) → (ask a (Cache.empty ttl)).1 ≡ Cache.empty ttl
  unfolding get_balance fetch Cache.get_with_meta lookup
  get_balance-empty ttl (address, refresh, now, tick) =
      elim (Option-cases (lookup address s.by_address)) [
        | inl e ↦ rw e refl
        | inr (w, e) ↦ rw e refl
      ]

  ask_all-empty : (ttl : ℕ) (asks : List Ask) → ask_all asks (Cache.empty ttl) ≡ Cache.empty ttl
  unfolding ask_all
  ask_all-empty ttl [] = refl
  ask_all-empty ttl (a ∷ as') = rw (get_balance-empty ttl a) (ask_all-empty ttl as')

  -- However often balances are asked for, from a cache that starts empty, every answer for a
  -- registered address has no balances and the error of a failed fetch, though it says that it is
  -- live; nothing is ever cached.
  pub get_balance-never_live :
      (ttl : ℕ) (asks : List Ask) (address : String) (refresh : Bool) (now tick : ℕ) (w : Wallet)
      → lookup address s.by_address ≡ some w
      → (get_balance ticks address refresh now tick s (ask_all asks (Cache.empty ttl))).0
        ≡ some (record {
          address = address;
          balances = [];
          last_updated = now;
          cache_status = "live";
          cache_ttl_seconds = none;
          cached_at = none;
          source = live;
          error_code = some fetch_failed;
        })
  unfolding get_balance fetch Cache.get_with_meta lookup
  get_balance-never_live ttl asks address refresh now tick w h =
      rw (ask_all-empty ttl asks) (rw h refl)
