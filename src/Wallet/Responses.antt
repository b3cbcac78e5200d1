-- ===== src/Wallet/Responses.antt =====
-- The answers that `WalletRegistry` of app/services/wallet_registry.py makes of a wallet, and of the
-- balances that the adapter of app/services/contracts/sla_adapter.py fetches.
use noc_iq_be.Prelude.{
  ℕ, String, Bool, ◌&&◌, Option, none, some, [], if◌then◌else◌, type_error, Result, ok, err, ◌>>=◌,
}
use noc_iq_be.Prelude.Dict.{Dict, lookup}
use noc_iq_be.Cache.{TtlCache}
use noc_iq_be.Bridge.Balance.{
  Source, live, cache, stale_fallback, BalanceFetchError, BalanceFetchResult, Entry, LiveFetch,
  fetch,
}
use noc_iq_be.Wallet.Repository.{Wallet}
use noc_iq_be.Wallet.Registry.{Registry, get_wallet}

pub record WalletStatusResponse : Type 0 where
  pub user_id : String
  pub public_key : String
  pub funded : Bool
  pub trustline_ready : Bool
  pub usable : Bool
  pub active : Bool
  pub last_updated : ℕ
  pub cache_status : String
  pub cache_ttl_seconds : Option ℕ
  pub cached_at : Option ℕ

-- The two answers of a readiness, which differ in their names alone.
pub record ReadinessResponse : Type 0 where
  pub user_id : String
  pub public_key : String
  pub is_ready : Bool
  pub error : Option String
  pub cache_status : String
  pub cached_at : Option ℕ

abbrev readiness : Wallet → Bool → String → ReadinessResponse
readiness w is_ready message = record {
  user_id = w.user_id;
  public_key = w.public_key;
  is_ready = is_ready;
  error = if is_ready then none else some message;
  cache_status = w.cache_status;
  cached_at = w.cached_at;
}

abbrev trustline_message : String
trustline_message = "Trustline not established. Fund wallet and set up USDC trustline."

abbrev funding_message : String
funding_message = "Wallet is not funded. Send at least 1 XLM to activate."

abbrev mapped : {A : Type 0} → (Wallet → A) → Option Wallet × Registry → Option A × Registry
mapped f (none, s) = (none, s)
mapped f (some w, s) = (some (f w), s)

unfoldable pub get_trustline :
    ℕ → String → Bool → ℕ → Registry → Option ReadinessResponse × Registry
get_trustline ttl user refresh now s =
    mapped (λ w. readiness w w.trustline_ready trustline_message)
      (get_wallet ttl user refresh now s)

unfoldable pub get_funding_state :
    ℕ → String → Bool → ℕ → Registry → Option ReadinessResponse × Registry
get_funding_state ttl user refresh now s =
    mapped (λ w. readiness w w.funded funding_message) (get_wallet ttl user refresh now s)

-- `_get_cache_ttl_remaining` has the parameters `cls` and `wallet` and is no class method: the call
-- on the class with the wallet alone lacks an argument.
abbrev get_cache_ttl_remaining : Wallet → Result (Option ℕ)
get_cache_ttl_remaining w = err type_error

abbrev status_of : Wallet → Result WalletStatusResponse
status_of w = get_cache_ttl_remaining w >>= (λ cache_ttl. ok (record {
  user_id = w.user_id;
  public_key = w.public_key;
  funded = w.funded;
  trustline_ready = w.trustline_ready;
  usable = w.funded && w.trustline_ready && w.active;
  active = w.active;
  last_updated = w.last_updated;
  cache_status = w.cache_status;
  cache_ttl_seconds = cache_ttl;
  cached_at = w.cached_at;
}))

abbrev or_none : Option Wallet × Registry → Result (Option WalletStatusResponse) × Registry
or_none (none, s) = (ok none, s)
or_none (some w, s) = (status_of w >>= (λ r. ok (some r)), s)

unfoldable pub get_status :
    ℕ → String → Bool → ℕ → Registry → Result (Option WalletStatusResponse) × Registry
get_status ttl user refresh now s = or_none (get_wallet ttl user refresh now s)

pub record AssetBalance : Type 0 where
  pub balance : String
  pub asset_type : String
  pub asset_code : Option String
  pub asset_issuer : Option String

abbrev pub Balances : Type 0
Balances = Dict AssetBalance

pub record WalletBalanceResponse : Type 0 where
  pub address : String
  pub balances : Balances
  pub last_updated : ℕ
  pub cache_status : String
  pub cache_ttl_seconds : Option ℕ
  pub cached_at : Option ℕ
  pub source : Source
  pub error_code : Option BalanceFetchError

abbrev pub legacy_cache_status : Source → String
legacy_cache_status live = "live"
legacy_cache_status cache = "fresh"
legacy_cache_status stale_fallback = "stale"

-- `result.cached_at or cls._now()`
abbrev or_now : ℕ → Option ℕ → ℕ
or_now now none = now
or_now now (some t) = t

abbrev of_result : ℕ → BalanceFetchResult Balances → String → WalletBalanceResponse
of_result now r address = record {
  address = address;
  balances = r.balances;
  last_updated = or_now now r.cached_at;
  cache_status = legacy_cache_status r.source;
  cache_ttl_seconds = r.ttl_remaining;
  cached_at = r.cached_at;
  source = r.source;
  error_code = r.error;
}

-- `_build_live_balances` is no class method either, so the live fetcher raises TypeError before it
-- has read a thing. The clocks are read at `now` and, by the cache, at the tick `tick`.
abbrev pub build_live_balances : ℕ → LiveFetch Balances
build_live_balances now = record { outcome = none; asked_at = now; stored_at = 0 }

abbrev pub balance_of :
    ℕ
    → String
    → Bool
    → ℕ
    → ℕ
    → Option Wallet
    → TtlCache (Entry Balances)
    → Option WalletBalanceResponse × TtlCache (Entry Balances)
balance_of ticks address refresh now tick none c = (none, c)
balance_of ticks address refresh now tick (some w) c =
    let fetched = fetch [] ticks address (build_live_balances now) refresh tick c in
    (some (of_result now fetched.0 address), fetched.1)

-- A second has `ticks` ticks.
unfoldable pub get_balance :
    ℕ
    → String
    → Bool
    → ℕ
    → ℕ
    → Registry
    → TtlCache (Entry Balances)
    → Option WalletBalanceResponse × TtlCache (Entry Balances)
get_balance ticks address refresh now tick s c =
    balance_of ticks address refresh now tick (lookup address s.by_address) c
