-- ===== src/Sla/Config.antt =====
-- app/services/sla/config.py and the models of app/models/sla.py. `SLA_CONFIG` is a module global:
-- the functions take it and return it. The `ge=0` constraints of `SLASeverityConfig` are the type ℕ.
use noc_iq_be.Prelude.{ℕ, String, Option, none, some, [], ◌∷◌, Result, ok, err, Error, value_error}
use noc_iq_be.Prelude.Dict.{Dict, lookup, insert}
use noc_iq_be.Prelude.Text.{lower}

pub record SlaSeverityConfig : Type 0 where
  pub threshold_minutes : ℕ
  pub penalty_per_minute : ℕ
  pub reward_base : ℕ

abbrev pub SlaConfig : Type 0
SlaConfig = Dict SlaSeverityConfig

abbrev pub severity_config : ℕ → ℕ → ℕ → SlaSeverityConfig
severity_config threshold penalty reward = record {
  threshold_minutes = threshold;
  penalty_per_minute = penalty;
  reward_base = reward;
}

abbrev pub sla_config : SlaConfig
sla_config =
    ("critical", severity_config 15 100 750)
    ∷ ("high", severity_config 30 50 750)
    ∷ ("medium", severity_config 60 25 750)
    ∷ ("low", severity_config 120 10 600)
    ∷ []

abbrev pub unknown_severity : Error
unknown_severity = value_error "Unknown severity level"

abbrev or_unknown : Option SlaSeverityConfig → Result SlaSeverityConfig
or_unknown none = err unknown_severity
or_unknown (some c) = ok c

-- A deep copy of values that nothing mutates is the values.
unfoldable pub get_all_config : SlaConfig → SlaConfig
get_all_config table = table

unfoldable pub get_config_for_severity : SlaConfig → String → Result SlaSeverityConfig
get_config_for_severity table severity = or_unknown (lookup (lower severity) table)

abbrev update_known :
    SlaConfig
    → String
    → SlaSeverityConfig
    → Option SlaSeverityConfig
    → Result SlaSeverityConfig × SlaConfig
update_known table normalized payload none = (err unknown_severity, table)
update_known table normalized payload (some _) =
    let table' = insert normalized payload table in (or_unknown (lookup normalized table'), table')

unfoldable pub update_config_for_severity :
    SlaConfig → String → SlaSeverityConfig → Result SlaSeverityConfig × SlaConfig
update_config_for_severity table severity payload =
    update_known table (lower severity) payload (lookup (lower severity) table)
