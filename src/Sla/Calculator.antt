-- ===== src/Sla/Calculator.antt =====
-- `SLACalculator.calculate` of app/services/sla/sla_calculator.py, and `SLAResult` of app/models/sla.py.
-- Python's ints are unbounded; `mttr_minutes` may be negative. The decision trace keeps the values that
-- the text interpolates.
use noc_iq_be.Prelude.{
  ℕ, ◌-◌, ◌*◌, ◌/◌, String, Option, none, some, Result, ok, err, attribute_error, ◌>>=◌, ◌==◌,
  if◌then◌else◌,
}
use noc_iq_be.Prelude.Int.{ℤ, pos, pos_part, neg, ltb_ℤ, mul_ℕ, floor_div}
use noc_iq_be.Prelude.Dict.{lookup}
use noc_iq_be.Prelude.Text.{lower}
use noc_iq_be.Sla.Config.{SlaSeverityConfig, SlaConfig, unknown_severity, get_config_for_severity}

pub data Status : Type 0 where
  met violated : Status

pub data PaymentType : Type 0 where
  reward penalty : PaymentType

pub data Rating : Type 0 where
  exceptional excellent good poor : Rating

pub data ReasonCode : Type 0 where
  mttr_exceeded met_exceptional met_excellent met_good : ReasonCode

pub data DecisionTrace : Type 0 where
  exceeded : ℤ → ℕ → ℕ → DecisionTrace  -- mttr, threshold, overtime
  within : ℤ → ℕ → ℤ → Rating → DecisionTrace  -- mttr, threshold, performance ratio, rating

pub record SlaResult : Type 0 where
  pub id : Option ℕ
  pub outage_id : String
  pub status : Status
  pub mttr_minutes : ℤ
  pub threshold_minutes : ℕ
  pub amount : ℤ
  pub payment_type : PaymentType
  pub rating : Rating
  pub policy_version : String
  pub threshold_source : String
  pub reason_code : ReasonCode
  pub decision_trace : DecisionTrace

-- 0 if threshold == 0 else (mttr_minutes * 100) // threshold
unfoldable pub performance_ratio : ℤ → ℕ → ℤ
unfolding mul_ℕ floor_div
performance_ratio mttr threshold =
    if threshold == 0 then pos 0 else floor_div (mul_ℕ mttr 100) threshold

pub record Tier : Type 0 where
  pub multiplier : ℕ
  pub rating : Rating
  pub reason_code : ReasonCode

unfoldable pub tier : ℤ → Tier
tier ratio =
    if ltb_ℤ ratio (pos 50)
    then record { multiplier = 200; rating = exceptional; reason_code = met_exceptional }
    else if ltb_ℤ ratio (pos 75)
    then record { multiplier = 150; rating = excellent; reason_code = met_excellent }
    else record { multiplier = 100; rating = good; reason_code = met_good }

-- The two cases of `calculate`, once it has the configuration.
unfoldable pub assess :
    SlaSeverityConfig → (outage_id : String) → (mttr : ℤ) → (version source : String) → SlaResult
unfolding performance_ratio tier
assess config outage mttr version source =
    let threshold = config.threshold_minutes in
    let overtime = pos_part mttr - threshold in
    let ratio = performance_ratio mttr threshold in
    let t = tier ratio in
    if ltb_ℤ (pos threshold) mttr
    then record {
      id = none;
      outage_id = outage;
      status = violated;
      mttr_minutes = mttr;
      threshold_minutes = threshold;
      amount = neg (overtime * config.penalty_per_minute);
      payment_type = penalty;
      rating = poor;
      policy_version = version;
      threshold_source = source;
      reason_code = mttr_exceeded;
      decision_trace = exceeded mttr threshold overtime;
    }
    else record {
      id = none;
      outage_id = outage;
      status = met;
      mttr_minutes = mttr;
      threshold_minutes = threshold;
      amount = pos (config.reward_base * t.multiplier / 100);
      payment_type = reward;
      rating = t.rating;
      policy_version = version;
      threshold_source = source;
      reason_code = t.reason_code;
      decision_trace = within mttr threshold ratio t.rating;
    }

-- `except ValueError: config = SLA_CONFIG[severity]` binds a plain dict, and the attribute
-- access that follows raises.
abbrev or_fallback : Result SlaSeverityConfig → Result SlaSeverityConfig
or_fallback (ok config) = ok config
or_fallback (err e) = err attribute_error

abbrev calculate_known :
    SlaConfig → String → String → ℤ → String → String → Option SlaSeverityConfig → Result SlaResult
calculate_known table outage severity mttr version source none = err unknown_severity
calculate_known table outage severity mttr version source (some _) = do
  config ← or_fallback (get_config_for_severity table severity)
  ok (assess config outage mttr version source)

unfoldable pub calculate :
    SlaConfig
    → (outage_id severity : String) → (mttr : ℤ) → (version source : String) → Result SlaResult
calculate table outage severity mttr version source =
    let severity' = lower severity in
    calculate_known table outage severity' mttr version source (lookup severity' table)
