-- ===== src/Sla/Amounts.antt =====
-- How the amount of an SLA result depends on the repair time.
use noc_iq_be.Prelude.{ℕ, suc, ◌-◌, ◌*◌, ◌/◌, ◌≤◌, String, inl, inr, arith, ◌==◌, Bool-cases}
use noc_iq_be.Prelude.Int.{pos_part, ℤ, pos, negsuc, ◌≤ℤ◌}
use noc_iq_be.Sla.Config.{SlaSeverityConfig}
use noc_iq_be.Sla.Calculator.{performance_ratio, tier, assess}

div_mono : (a b t : ℕ) → a ≤ b → a / t ≤ b / t
div_mono a b t h = elim (Bool-cases (t == 0)) [ inl z ↦ ground arith | inr nz ↦ grind arith ]

pub performance_ratio_mono :
    (m m' : ℤ) (t : ℕ) → m ≤ℤ m' → performance_ratio m t ≤ℤ performance_ratio m' t
unfolding performance_ratio
performance_ratio_mono (pos m) (pos n) t h = ground (arith, div_mono (m * 100) (n * 100) t)
performance_ratio_mono (negsuc m) (pos n) t h = ground arith
performance_ratio_mono (negsuc m) (negsuc n) t h =
    ground (arith, div_mono (suc n * 100 - 1) (suc m * 100 - 1) t)
performance_ratio_mono (pos m) (negsuc n) t h = absurd (omega arith)

tier_antitone : (r r' : ℤ) → r ≤ℤ r' → (tier r').multiplier ≤ (tier r).multiplier
unfolding tier
tier_antitone r r' h = ground arith

reward_mono : (base a b : ℕ) → a ≤ b → base * a / 100 ≤ base * b / 100
reward_mono base a b h = grind arith

penalty_mono : (a b k : ℕ) → a ≤ b → a * k ≤ b * k
penalty_mono a b k h = grind arith

-- A longer repair never earns more: the amount of a result falls, or stays, as the repair time grows.
pub amount-assess_antitone :
    (config : SlaSeverityConfig) (outage version source : String) (m m' : ℤ)
    → m ≤ℤ m'
    → (assess config outage m' version source).amount
      ≤ℤ (assess config outage m version source).amount
unfolding assess
amount-assess_antitone config outage version source m m' h = ground (
  arith,
  performance_ratio_mono m m' config.threshold_minutes h,
  tier_antitone (performance_ratio m config.threshold_minutes)
      (performance_ratio m' config.threshold_minutes),
  reward_mono config.reward_base (tier (performance_ratio m' config.threshold_minutes)).multiplier
      (tier (performance_ratio m config.threshold_minutes)).multiplier,
  penalty_mono (pos_part m - config.threshold_minutes) (pos_part m' - config.threshold_minutes)
      config.penalty_per_minute,
)
