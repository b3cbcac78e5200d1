-- ===== src/Bridge/Breaker.antt =====
-- `CircuitBreaker` of app/services/contracts/bridge_fallback.py. Times are readings of
-- `time.monotonic()`.
use noc_iq_be.Prelude.{ℕ, ◌+◌, Bool, true, false, leb, if◌then◌else◌}

pub data CircuitState : Type 0 where
  closed open_circuit half_open : CircuitState

pub record CircuitBreaker : Type 0 where
  pub state : CircuitState
  pub failure_count : ℕ
  pub last_failure_time : ℕ
  pub threshold : ℕ
  pub cooldown_seconds : ℕ

-- `CircuitBreaker()`: the thresholds come from the settings.
abbrev pub new : ℕ → ℕ → CircuitBreaker
new threshold cooldown = record {
  state = closed;
  failure_count = 0;
  last_failure_time = 0;
  threshold = threshold;
  cooldown_seconds = cooldown;
}

unfoldable pub record_success : CircuitBreaker → CircuitBreaker
record_success b = record b { failure_count = 0; state = closed }

unfoldable pub record_failure : ℕ → CircuitBreaker → CircuitBreaker
record_failure now b =
    let failed = record b { failure_count = b.failure_count + 1; last_failure_time = now } in
    if leb failed.threshold failed.failure_count
    then record failed { state = open_circuit }
    else failed

abbrev allow_in : CircuitState → ℕ → CircuitBreaker → Bool × CircuitBreaker
allow_in closed now b = (true, b)
allow_in open_circuit now b =
    if leb (b.last_failure_time + b.cooldown_seconds) now
    then (true, record b { state = half_open })
    else (false, b)
allow_in half_open now b = (true, b)

unfoldable pub allow_request : ℕ → CircuitBreaker → Bool × CircuitBreaker
allow_request now b = allow_in b.state now b
