-- ===== src/Bridge/FallbackResults.antt =====
-- Where the answer of the fallback chain comes from.
use noc_iq_be.Prelude.{
  ℕ, ◌+◌, String, ◌≡◌, refl, sym, ap, ◌∙◌, ◌⊎◌, inl, inr, Bool, true, false, Option, none, some,
  List, [], ◌∷◌, arith, eq_refl, if◌then◌else◌, runtime_error, Result, ok, err,
}
use mathlib.Core.Path.{subst}
use noc_iq_be.Prelude.Dict.{lookup, lookup-insert}
use noc_iq_be.Cache.{TtlCache, set, get_with_meta}
use noc_iq_be.Bridge.Fallback.{
  Upstream, FallbackResult, Settings, Service, cache_key, try_upstreams, or_stale,
  execute_with_fallback,
}

module _ {V : Type 0} where
  abbrev pub Offers : V → List (Upstream V) → Type 0
  Offers v [] = ⊥
  Offers v (u ∷ us) = (u.outcome ≡ some v) ⊎ Offers v us

  abbrev pub AllFail : List (Upstream V) → Type 0
  AllFail [] = Unit
  AllFail (u ∷ us) = (u.outcome ≡ none) × AllFail us

  -- The value that the cache holds under a key, expired or not.
  abbrev pub entry_value : String → TtlCache V → Option V
  entry_value key c = elim (lookup key c.store) [ none ↦ none | some e ↦ some (e.0) ]

  entry_value-set :
      (key : String) (v : V) (now : ℕ) (c : TtlCache V) → entry_value key (set key v now c) ≡ some v
  unfolding set
  entry_value-set key v now c =
      ground (arith, lookup-insert key key (v, now + c.ttl) c.store, eq_refl key)

-- A case split on the breaker's answer and on the upstream's outcome.
attempt_cases {ℓ} :
    {V X : Type 0} (P : X → Type ℓ) (b : Bool) (o : Option V) (raised skipped : X) (served : V → X)
    → P raised
    → P skipped
    → ((v : V) → o ≡ some v → P (served v))
    → P (if b then elim o [ none ↦ raised | some v ↦ served v ] else skipped)
attempt_cases P false o raised skipped served pr ps pv = ps
attempt_cases P true none raised skipped served pr ps pv = pr
attempt_cases P true (some v) raised skipped served pr ps pv = pv v refl

module _ (settings : Settings) {V : Type 0} (method params : String) where
  -- What the loop gives: a fresh answer that an upstream offers and that is now cached, or none and
  -- the cache as it was.
  abbrev Served : List (Upstream V) → TtlCache V → Option (FallbackResult V) × Service V → Type 0
  Served us c (none, s') = s'.cache ≡ c
  Served us c (some r, s') =
      Offers r.result us
      × (r.stale ≡ false)
      × (entry_value (cache_key method params) s'.cache ≡ some r.result)

  Served-weaken :
      (u : Upstream V) (us : List (Upstream V)) (c : TtlCache V)
      (o : Option (FallbackResult V) × Service V)
      → Served us c o
      → Served (u ∷ us) c o
  Served-weaken u us c (none, s') h = h
  Served-weaken u us c (some r, s') h = (inr h.0, h.1, h.2)

  try_upstreams-Served :
      (us : List (Upstream V)) (idx : ℕ) (s : Service V)
      → Served us s.cache (try_upstreams settings method params us idx s)
  unfolding try_upstreams
  try_upstreams-Served [] idx s = refl
  try_upstreams-Served (u ∷ us) idx s =
      attempt_cases (Served (u ∷ us) s.cache) _ u.outcome _ _ _
        (Served-weaken u us s.cache _ (try_upstreams-Served us (idx + 1) _))
        (Served-weaken u us s.cache _ (try_upstreams-Served us (idx + 1) _))
        (λ v offered.
          (inl offered, refl, entry_value-set (cache_key method params) v u.settled_at s.cache))

  no_offer : (us : List (Upstream V)) (v : V) → AllFail us → Offers v us → ⊥
  no_offer [] v h o = o
  no_offer (u ∷ us) v h (inl e) = cc (h.0, e)
  no_offer (u ∷ us) v h (inr o) = no_offer us v h.1 o

  failed_loop :
      (us : List (Upstream V)) (s : Service V)
      → AllFail us
      → (o : Option (FallbackResult V) × Service V) → Served us s.cache o
      → (o.0 ≡ none) × (o.1.cache ≡ s.cache)
  failed_loop us s h (none, s') e = (refl, e)
  failed_loop us s h (some r, s') e = absurd (no_offer us r.result h e.0)

  abbrev pub stale_answer : Option V → Result (FallbackResult V)
  stale_answer none =
      err (runtime_error "All fallback upstreams exhausted and no cached data available")
  stale_answer (some v) =
      ok (record { result = v; source = "stale_cache"; latency = 0; stale = true })

  -- While every upstream fails, the answer is what the cache holds for the call, expired or not, marked
  -- stale, or the exhaustion error if it holds nothing; the cache stays as it was.
  pub AllFail-stale :
      (us : List (Upstream V)) (now : ℕ) (s : Service V)
      → settings.fallback_enabled ≡ true
      → AllFail us
      → let (r, s') = execute_with_fallback settings method params us now s in
        (r ≡ stale_answer (entry_value (cache_key method params) s.cache)) × (s'.cache ≡ s.cache)
  unfolding execute_with_fallback get_with_meta
  AllFail-stale us now s on h = ground (
    arith,
    failed_loop us s h (try_upstreams settings method params us 0 s) (try_upstreams-Served us 0 s),
  )

  executed :
      (now : ℕ) (us : List (Upstream V)) (c : TtlCache V) (r : FallbackResult V)
      → r.stale ≡ false
      → (o : Option (FallbackResult V) × Service V) → Served us c o
      → (or_stale settings method params now o).0 ≡ ok r
      → Offers r.result us
        × (entry_value (cache_key method params) (or_stale settings method params now o).1.cache
            ≡ some r.result)
  unfolding get_with_meta
  executed now us c r fresh (none, s') e h = absurd (ground arith)
  executed now us c r fresh (some r', s') e h =
      let same : r' ≡ r = cc in
      (
        subst (λ (x : FallbackResult V). Offers x.result us) same e.0,
        e.2 ∙ ap (λ (x : FallbackResult V). some x.result) same,
      )

  enabled_of_ok :
      (us : List (Upstream V)) (now : ℕ) (s : Service V) (r : FallbackResult V)
      → (execute_with_fallback settings method params us now s).0 ≡ ok r
      → settings.fallback_enabled ≡ true
  unfolding execute_with_fallback
  enabled_of_ok us now s r h = ground arith

  enabled_lem :
      (us : List (Upstream V)) (now : ℕ) (s : Service V)
      → settings.fallback_enabled ≡ true
      → execute_with_fallback settings method params us now s
        ≡ or_stale settings method params now (try_upstreams settings method params us 0 s)
  unfolding execute_with_fallback
  enabled_lem us now s on = rw on

  -- A fresh answer of a call is one that an upstream of it offers, and it is kept: if every upstream of
  -- the next call of the same method and parameters fails, that call serves the same data, marked stale.
  pub fresh_then_stale :
      (us vs : List (Upstream V)) (now later : ℕ) (s : Service V) (r : FallbackResult V)
      → (execute_with_fallback settings method params us now s).0 ≡ ok r
      → r.stale ≡ false
      → AllFail vs
      → let s' = (execute_with_fallback settings method params us now s).1 in
        Offers r.result us
        × ((execute_with_fallback settings method params vs later s').0
            ≡ ok (record { result = r.result; source = "stale_cache"; latency = 0; stale = true }))
  fresh_then_stale us vs now later s r h fresh fails =
      let on = enabled_of_ok us now s r h in
      let same = enabled_lem us now s on in
      let (offered, kept) =
        executed now us s.cache r fresh _ (try_upstreams-Served us 0 s)
          (ap (λ (x : Result (FallbackResult V) × Service V). x.0) (sym same) ∙ h) in
      (
        offered,
        (AllFail-stale vs later (execute_with_fallback settings method params us now s).1 on
              fails).0
            ∙ ap stale_answer (
                ap
                  (λ (x : Result (FallbackResult V) × Service V).
                    entry_value (cache_key method params) x.1.cache)
                  same
                ∙ kept),
      )
