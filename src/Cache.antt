-- ===== src/Cache.antt =====
-- `TTLCache` of app/utils/cache.py. The clock is `time.monotonic()` in whole ticks: each method takes
-- its reading. The lock makes a method one step.
pub mod Laws
mod Examples
use noc_iq_be.Prelude.{
  ℕ, ◌+◌, ◌-◌, String, Bool, not, Option, none, some, [], ltb, ◌==◌, if◌then◌else◌, filter,
}
use noc_iq_be.Prelude.Dict.{Dict, lookup, insert, erase}
use text.Mathlib.Text.{starts_with}

pub record TtlCache {ℓ} (V : Type ℓ) : Type ℓ where
  pub ttl : ℕ
  pub store : Dict (V × ℕ)

pub record CacheResult {ℓ} (V : Type ℓ) : Type ℓ where
  pub value : V
  pub age_seconds : ℕ
  pub ttl_remaining : ℕ

module _ {ℓ} {V : Type ℓ} where
  -- ttl_remaining <= 0.0
  unfoldable pub is_expired : CacheResult V → Bool
  is_expired r = r.ttl_remaining == 0

  abbrev pub empty : ℕ → TtlCache V
  empty ttl = record { ttl = ttl; store = [] }

  abbrev get_entry : String → ℕ → TtlCache V → Option (V × ℕ) → Option V × TtlCache V
  get_entry key now c none = (none, c)
  get_entry key now c (some (value, expires_at)) =
      if ltb expires_at now
      then (none, record { ttl = c.ttl; store = erase key c.store })
      else (some value, c)

  unfoldable pub get : String → ℕ → TtlCache V → Option V × TtlCache V
  get key now c = get_entry key now c (lookup key c.store)

  -- age = now - (expires_at - ttl); ttl_remaining = max(0, expires_at - now)
  abbrev meta_entry : ℕ → TtlCache V → Option (V × ℕ) → Option (CacheResult V)
  meta_entry now c none = none
  meta_entry now c (some (value, expires_at)) = some (record {
    value = value;
    age_seconds = now + c.ttl - expires_at;
    ttl_remaining = expires_at - now;
  })

  unfoldable pub get_with_meta : String → ℕ → TtlCache V → Option (CacheResult V)
  get_with_meta key now c = meta_entry now c (lookup key c.store)

  unfoldable pub set : String → V → ℕ → TtlCache V → TtlCache V
  set key value now c = record { ttl = c.ttl; store = insert key (value, now + c.ttl) c.store }

  unfoldable pub invalidate : String → TtlCache V → TtlCache V
  invalidate key c = record { ttl = c.ttl; store = erase key c.store }

  unfoldable pub invalidate_prefix : String → TtlCache V → TtlCache V
  invalidate_prefix prefix c = record {
    ttl = c.ttl;
    store = filter (λ e. not (starts_with e.0 prefix)) c.store;
  }
