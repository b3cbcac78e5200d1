-- ===== src/Bridge/BreakerRuns.antt =====
-- The life of a breaker.
use noc_iq_be.Prelude.{
  ℕ, ◌+◌, ◌≤◌, ◌<◌, ◌≡◌, refl, ap, ◌∙◌, ◌≢◌, ◌⊎◌, true, List, [], ◌∷◌, ◌++◌, map, arith, leb,
  length,
}
use noc_iq_be.Bridge.Breaker.{
  CircuitBreaker, closed, open_circuit, half_open, new, record_success, record_failure,
  allow_request,
}

pub data Event : Type 0 where
  success : Event
  failure asked : (now : ℕ) → Event

abbrev pub step : Event → CircuitBreaker → CircuitBreaker
step success b = record_success b
step (failure now) b = record_failure now b
step (asked now) b = (allow_request now b).1

abbrev pub run : List Event → CircuitBreaker → CircuitBreaker
run [] b = b
run (e ∷ es) b = run es (step e b)

-- A breaker that is not closed has counted as many failures as its threshold, and a closed one
-- fewer, unless it has counted none.
pub record IsConsistent (b : CircuitBreaker) : Type 0 where
  pub tripped : b.state ≢ closed → b.threshold ≤ b.failure_count
  pub untripped : b.state ≡ closed → (b.failure_count < b.threshold) ⊎ (b.failure_count ≡ 0)

step-IsConsistent : (e : Event) (b : CircuitBreaker) → IsConsistent b → IsConsistent (step e b)
unfolding record_success record_failure allow_request
step-IsConsistent success b h = ground arith
step-IsConsistent (failure now) b h = ground arith
step-IsConsistent (asked now) b h = ground arith

run_from-IsConsistent :
    (es : List Event) (b : CircuitBreaker) → IsConsistent b → IsConsistent (run es b)
run_from-IsConsistent [] b h = h
run_from-IsConsistent (e ∷ es) b h = run_from-IsConsistent es (step e b) (step-IsConsistent e b h)

new-IsConsistent : (threshold cooldown : ℕ) → IsConsistent (new threshold cooldown)
new-IsConsistent threshold cooldown = ground arith

-- Whatever happens to a new breaker, it has counted as many failures as its threshold if it is not
-- closed, and fewer or none if it is.
pub run-IsConsistent :
    (threshold cooldown : ℕ) (es : List Event) → IsConsistent (run es (new threshold cooldown))
run-IsConsistent threshold cooldown es =
    run_from-IsConsistent es (new threshold cooldown) (new-IsConsistent threshold cooldown)

failure_kept :
    (t : ℕ) (b : CircuitBreaker)
    → ((record_failure t b).failure_count ≡ b.failure_count + 1)
      × ((record_failure t b).threshold ≡ b.threshold)
      × ((record_failure t b).cooldown_seconds ≡ b.cooldown_seconds)
unfolding record_failure
failure_kept t b = ground arith

trips :
    (ts : List ℕ) (last : ℕ) (b : CircuitBreaker)
    → b.threshold ≤ b.failure_count + length ts + 1
    → let b' = run (map failure (ts ++ last ∷ [])) b in
      (b'.state ≡ open_circuit)
      × (b'.last_failure_time ≡ last)
      × (b'.cooldown_seconds ≡ b.cooldown_seconds)
trips [] last b h = unfold record_failure in ground arith
trips (t ∷ ts) last b h =
    let kept = failure_kept t b in
    let (o, l, c) = trips ts last (record_failure t b) (omega arith) in (o, l, c ∙ kept.2)

asked_open :
    (b : CircuitBreaker) (last now : ℕ)
    → b.state ≡ open_circuit
    → b.last_failure_time ≡ last
    → (allow_request now b).0 ≡ leb (last + b.cooldown_seconds) now
unfolding allow_request
asked_open b last now o l = ground arith

-- After as many failures in a row of a new breaker as its threshold, the last at `last`, a request is
-- admitted exactly when the cooldown has passed since.
pub denied_in_cooldown :
    (threshold cooldown : ℕ) (ts : List ℕ) (last now : ℕ)
    → threshold ≤ length ts + 1
    → (allow_request now (run (map failure (ts ++ last ∷ [])) (new threshold cooldown))).0
      ≡ leb (last + cooldown) now
denied_in_cooldown threshold cooldown ts last now h =
    let (o, l, c) = trips ts last (new threshold cooldown) (omega arith) in
    asked_open _ last now o l ∙ ap (λ n. leb (last + n) now) c

asked_half_open :
    (asks : List ℕ) (b : CircuitBreaker) → b.state ≡ half_open → run (map asked asks) b ≡ b
unfolding allow_request
asked_half_open [] b e = refl
asked_half_open (t ∷ asks) b e = ground (arith, asked_half_open asks b e)

-- A half-open breaker whose count agrees with its state reopens at the next failure, with a new
-- cooldown, and closes with a clean count at the next success; until then it admits every request,
-- not one probe alone.
pub half_open_outcomes :
    (b : CircuitBreaker) (now : ℕ) (asks : List ℕ)
    → IsConsistent b
    → b.state ≡ half_open
    → ((record_failure now b).state ≡ open_circuit)
      × ((record_failure now b).last_failure_time ≡ now)
      × ((record_success b).state ≡ closed)
      × ((record_success b).failure_count ≡ 0)
      × (run (map asked asks) b ≡ b)
      × ((allow_request now (run (map asked asks) b)).0 ≡ true)
unfolding record_failure record_success allow_request
half_open_outcomes b now asks h e = rw (asked_half_open asks b e) (ground arith)
