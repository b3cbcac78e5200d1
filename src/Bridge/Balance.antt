-- ===== src/Bridge/Balance.antt =====
-- `BalanceFetchAdapter` and the guards of `SLAAdapter` of app/services/contracts/sla_adapter.py.
-- The live fetch and the answer of Horizon are outside of the code: what they give is a parameter.
use noc_iq_be.Prelude.{
  ℕ, ◌/◌, String, ◌⊎◌, inl, inr, Bool, true, false, ◌&&◌, not, Option, none, some, List, [], ◌∷◌,
  str_eq, ◌==◌, if◌then◌else◌, Result, ok, ◌>>=◌,
}
use noc_iq_be.Prelude.Text.{lower}
use noc_iq_be.Cache
use noc_iq_be.Cache.{TtlCache, CacheResult, is_expired}

pub data Source : Type 0 where
  live cache stale_fallback : Source

-- The codes of `BalanceFetchError`; its detail is not kept.
pub data BalanceFetchError : Type 0 where
  stale_served fetch_failed : BalanceFetchError

pub record BalanceFetchResult (B : Type 0) : Type 0 where
  pub address : String
  pub balances : B
  pub source : Source
  pub cached_at : Option ℕ
  pub ttl_remaining : Option ℕ
  pub is_degraded : Bool
  pub error : Option BalanceFetchError

-- What is cached for an address.
pub record Entry (B : Type 0) : Type 0 where
  pub balances : B
  pub cached_at : ℕ

-- What a call of the live fetcher gives, none where it raises, the datetime before it, and the
-- reading of the monotonic clock by the write that follows it.
pub record LiveFetch (B : Type 0) : Type 0 where
  pub outcome : Option B
  pub asked_at : ℕ
  pub stored_at : ℕ

-- `no_balances` is the empty dict, and a second has `ticks` ticks of the monotonic clock.
module _ {B : Type 0} (no_balances : B) (ticks : ℕ) where
  abbrev of_cache : String → CacheResult (Entry B) → BalanceFetchResult B
  of_cache address meta = record {
    address = address;
    balances = meta.value.balances;
    source = cache;
    cached_at = some meta.value.cached_at;
    ttl_remaining = some (meta.ttl_remaining / ticks);
    is_degraded = false;
    error = none;
  }

  abbrev of_failure : String → Option (CacheResult (Entry B)) → BalanceFetchResult B
  of_failure address (some meta) = record {
    address = address;
    balances = meta.value.balances;
    source = stale_fallback;
    cached_at = some meta.value.cached_at;
    ttl_remaining = some 0;
    is_degraded = true;
    error = some stale_served;
  }
  of_failure address none = record {
    address = address;
    balances = no_balances;
    source = live;
    cached_at = none;
    ttl_remaining = none;
    is_degraded = true;
    error = some fetch_failed;
  }

  abbrev of_live :
      String
      → LiveFetch B
      → Option (CacheResult (Entry B))
      → Option B
      → TtlCache (Entry B)
      → BalanceFetchResult B × TtlCache (Entry B)
  of_live address fetcher meta none c = (of_failure address meta, c)
  of_live address fetcher meta (some found) c = (
    record {
      address = address;
      balances = found;
      source = live;
      cached_at = some fetcher.asked_at;
      ttl_remaining = some (c.ttl / ticks);
      is_degraded = false;
      error = none;
    },
    Cache.set address (record { balances = found; cached_at = fetcher.asked_at }) fetcher.stored_at
        c,
  )

  -- not force_refresh and meta is not None and not meta.is_expired
  abbrev fetch_unless :
      String
      → LiveFetch B
      → Bool
      → TtlCache (Entry B)
      → Option (CacheResult (Entry B))
      → BalanceFetchResult B × TtlCache (Entry B)
  fetch_unless address fetcher force c none = of_live address fetcher none fetcher.outcome c
  fetch_unless address fetcher force c (some meta) =
      if not force && not (is_expired meta)
      then (of_cache address meta, c)
      else of_live address fetcher (some meta) fetcher.outcome c

  -- `now` is the reading of the look-up of the cache.
  unfoldable pub fetch :
      String
      → LiveFetch B
      → Bool
      → ℕ
      → TtlCache (Entry B)
      → BalanceFetchResult B × TtlCache (Entry B)
  fetch address fetcher force now c =
      fetch_unless address fetcher force c (Cache.get_with_meta address now c)

module _ {B : Type 0} where
  unfoldable pub invalidate : String → TtlCache (Entry B) → TtlCache (Entry B)
  invalidate address c = Cache.invalidate address c

-- `assert_network`, where false is the NetworkMismatchError.
unfoldable pub assert_network : (expected wallet_network : String) → Bool
assert_network expected wallet_network = str_eq (lower wallet_network) expected

pub data TrustlineStatus : Type 0 where
  ready missing limit_zero unknown : TrustlineStatus

-- A line of an account's balances; a key that the line lacks is none.
pub record Line : Type 0 where
  pub asset_code : Option String
  pub asset_issuer : Option String
  pub balance : Option String
  pub limit : Option String

pub record TrustlineResult : Type 0 where
  pub status : TrustlineStatus
  pub asset_code : String
  pub asset_issuer : String
  pub balance : Option String
  pub limit : Option String

-- What Horizon answers: an HTTP error status, no answer, or the balances of the account.
pub data Horizon : Type 0 where
  status_error : ℕ → Horizon
  request_error : Horizon
  account : List Line → Horizon

-- The reasons of `TrustlineError`.
pub data TrustlineReason : Type 0 where
  trustline_missing trustline_limit_zero trustline_check_failed : TrustlineReason

abbrev same : Option String → String → Bool
same none text = false
same (some t) text = str_eq t text

abbrev pub is_line : String → String → Line → Bool
is_line code issuer line = same line.asset_code code && same line.asset_issuer issuer

-- `balance.get("limit", "0")`
abbrev pub limit_of : Line → String
limit_of line = elim line.limit [ none ↦ "0" | some l ↦ l ]

-- `is_zero` is `float(limit) == 0`.
module _ (is_zero : String → Result Bool) where
  abbrev pub without_line : String → String → TrustlineStatus → TrustlineResult
  without_line code issuer status = record {
    status = status;
    asset_code = code;
    asset_issuer = issuer;
    balance = none;
    limit = none;
  }

  abbrev pub of_line : String → String → Line → Result TrustlineResult
  of_line code issuer line = is_zero (limit_of line) >>= (λ zero_limit. ok (record {
    status = if zero_limit then limit_zero else ready;
    asset_code = code;
    asset_issuer = issuer;
    balance = line.balance;
    limit = some (limit_of line);
  }))

  -- The loop over the balances.
  unfoldable pub scan_balances : String → String → List Line → Result TrustlineResult
  scan_balances code issuer [] = ok (without_line code issuer missing)
  scan_balances code issuer (line ∷ lines) =
      let rest = scan_balances code issuer lines in
      if is_line code issuer line then of_line code issuer line else rest

  unfoldable pub check_trustline : Horizon → String → String → Result TrustlineResult
  unfolding scan_balances
  check_trustline (status_error status) code issuer =
      ok (without_line code issuer (if status == 404 then missing else unknown))
  check_trustline request_error code issuer = ok (without_line code issuer unknown)
  check_trustline (account lines) code issuer = scan_balances code issuer lines

  abbrev pub or_reason : TrustlineResult → TrustlineStatus → TrustlineResult ⊎ TrustlineReason
  or_reason r ready = inl r
  or_reason r missing = inr trustline_missing
  or_reason r limit_zero = inr trustline_limit_zero
  or_reason r unknown = inr trustline_check_failed

  -- The trustline's result, or the reason of the TrustlineError that is raised.
  unfoldable pub assert_trustline_ready :
      Horizon → String → String → Result (TrustlineResult ⊎ TrustlineReason)
  unfolding check_trustline
  assert_trustline_ready horizon code issuer =
      check_trustline horizon code issuer >>= (λ r. ok (or_reason r r.status))
