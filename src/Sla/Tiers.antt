-- ===== src/Sla/Tiers.antt =====
-- The rating of an outage against its threshold, with no division.
use noc_iq_be.Prelude.{ℕ, ◌*◌, ◌/◌, ◌<◌, ◌≡◌, String, arith, if◌then◌else◌, ltb}
use noc_iq_be.Prelude.Int.{pos}
use noc_iq_be.Sla.Config.{SlaSeverityConfig}
use noc_iq_be.Sla.Calculator.{Rating, exceptional, excellent, good, poor, assess}

-- The rating by comparison of multiples of the two durations.
abbrev pub fraction_rating : ℕ → ℕ → Rating
fraction_rating mttr threshold =
    if ltb threshold mttr
    then poor
    else if ltb (2 * mttr) threshold
    then exceptional
    else if ltb (4 * mttr) (3 * threshold)
    then excellent
    else good

div_lt : (a b k : ℕ) → 0 < b → (a / b < k → a < k * b) × (a < k * b → a / b < k)
div_lt a b k h = (grind arith, grind arith)

-- Under a positive threshold, the rating of an outage that took no negative time is the comparison of
-- the durations: poor above the threshold, exceptional below half of it, excellent below three quarters of
-- it, good otherwise.
pub rating-assess :
    (config : SlaSeverityConfig) (outage : String) (mttr : ℕ) (version source : String)
    → 0 < config.threshold_minutes
    → (assess config outage (pos mttr) version source).rating
      ≡ fraction_rating mttr config.threshold_minutes
unfolding assess
rating-assess config outage mttr version source h = ground (
  arith,
  div_lt (mttr * 100) config.threshold_minutes 50 h,
  div_lt (mttr * 100) config.threshold_minutes 75 h,
)
