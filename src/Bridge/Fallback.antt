-- ===== src/Bridge/Fallback.antt =====
-- `BridgeFallbackService` of app/services/contracts/bridge_fallback.py. An upstream is code of the
-- caller: what the call of it gives is a parameter, with the readings of the clock around it.
use noc_iq_be.Prelude.{
  ℕ, ◌+◌, ◌-◌, String, Bool, true, false, not, Option, none, some, List, [], ◌∷◌, concat,
  if◌then◌else◌, runtime_error, Result, ok, err,
}
use noc_iq_be.Prelude.Dict.{Dict, lookup, insert}
use noc_iq_be.Prelude.Text.{decimal}
use noc_iq_be.Cache
use noc_iq_be.Cache.{TtlCache, CacheResult}
use noc_iq_be.Bridge.Breaker.{CircuitBreaker, new, record_success, record_failure, allow_request}

-- `outcome` is none where the call raises.
pub record Upstream (V : Type 0) : Type 0 where
  pub outcome : Option V
  pub asked_at : ℕ
  pub started_at : ℕ
  pub ended_at : ℕ
  pub settled_at : ℕ  -- the reading of `record_failure`, or of the write to the cache

pub record FallbackResult (V : Type 0) : Type 0 where
  pub result : V
  pub source : String
  pub latency : ℕ
  pub stale : Bool

pub record Settings : Type 0 where
  pub fallback_enabled : Bool
  pub breaker_threshold : ℕ
  pub breaker_cooldown : ℕ

pub record Service (V : Type 0) : Type 0 where
  pub cache : TtlCache V
  pub breakers : Dict CircuitBreaker

-- f"{method}:upstream_{idx}"
abbrev pub upstream_name : String → ℕ → String
upstream_name method idx = concat method (concat ":upstream_" (decimal idx))

-- f"{method}:{params}", over the text of the parameters
abbrev pub cache_key : String → String → String
cache_key method params = concat method (concat ":" params)

module _ (settings : Settings) where
  abbrev or_new : Option CircuitBreaker → CircuitBreaker
  or_new none = new settings.breaker_threshold settings.breaker_cooldown
  or_new (some b) = b

  -- `_get_breaker` puts a missing breaker into the table; a breaker is an object, so each change of
  -- it is a change of the table's entry.
  unfoldable pub get_breaker : String → Dict CircuitBreaker → CircuitBreaker
  get_breaker name breakers = or_new (lookup name breakers)

  module _ {V : Type 0} (method params : String) where
    -- The loop over the upstreams, from index `idx`.
    unfoldable pub try_upstreams :
        List (Upstream V) → ℕ → Service V → Option (FallbackResult V) × Service V
    unfolding get_breaker
    try_upstreams [] idx s = (none, s)
    try_upstreams (u ∷ us) idx s =
        let name = upstream_name method idx in
        let (allowed, asked) = allow_request u.asked_at (get_breaker name s.breakers) in
        let skipped =
          try_upstreams us (idx + 1) (record s { breakers = insert name asked s.breakers }) in
        let raised =
          try_upstreams us (idx + 1)
            (record s { breakers = insert name (record_failure u.settled_at asked) s.breakers }) in
        if allowed
        then elim u.outcome [
          | none ↦ raised
          | some v ↦ (
            some (record {
              result = v;
              source = name;
              latency = u.ended_at - u.started_at;
              stale = false;
            }),
            record {
              cache = Cache.set (cache_key method params) v u.settled_at s.cache;
              breakers = insert name (record_success asked) s.breakers;
            },
          )
        ]
        else skipped

    abbrev pub serve_stale : Option (CacheResult V) → Result (FallbackResult V)
    serve_stale none =
        err (runtime_error "All fallback upstreams exhausted and no cached data available")
    serve_stale (some cached) =
        ok (record { result = cached.value; source = "stale_cache"; latency = 0; stale = true })

    abbrev pub or_stale :
        ℕ → Option (FallbackResult V) × Service V → Result (FallbackResult V) × Service V
    or_stale now (some r, s) = (ok r, s)
    or_stale now (none, s) =
        (serve_stale (Cache.get_with_meta (cache_key method params) now s.cache), s)

    -- `now` is the reading of the stale lookup.
    unfoldable pub execute_with_fallback :
        List (Upstream V) → ℕ → Service V → Result (FallbackResult V) × Service V
    execute_with_fallback upstreams now s =
        if not settings.fallback_enabled
        then (err (runtime_error "Bridge fallback is disabled"), s)
        else or_stale now (try_upstreams upstreams 0 s)
