-- ===== src/Sla/Updates.antt =====
-- The calculator over a configuration that is read and updated.
use noc_iq_be.Prelude.{
  String, ◌≡◌, ◌≢◌, ◌⊎◌, Option, none, some, arith, str_eq, eq_refl, if◌then◌else◌, Result, ok, err,
}
use noc_iq_be.Prelude.Int.{ℤ}
use noc_iq_be.Prelude.Text.{lower, lower_idem}
use noc_iq_be.Prelude.Dict.{lookup, insert, lookup-insert}
use noc_iq_be.Sla.Config.{
  SlaSeverityConfig, SlaConfig, unknown_severity, get_config_for_severity,
  update_config_for_severity,
}
use noc_iq_be.Sla.Calculator.{SlaResult, assess, calculate}

-- What the calculator owes for the configuration that the table has for the severity.
abbrev pub verdict :
    Option SlaSeverityConfig
    → (outage : String) → (mttr : ℤ) → (version source : String) → Result SlaResult
verdict none outage mttr version source = err unknown_severity
verdict (some config) outage mttr version source = ok (assess config outage mttr version source)

-- The calculator returns the assessment under the configuration of the lower-cased severity, or
-- raises the unknown-severity error; its fallback branch is never taken.
pub calculate-eq-verdict :
    (table : SlaConfig) (outage severity : String) (mttr : ℤ) (version source : String)
    → calculate table outage severity mttr version source
      ≡ verdict (lookup (lower severity) table) outage mttr version source
unfolding calculate get_config_for_severity
calculate-eq-verdict table outage severity mttr version source = ground (arith, lower_idem severity)

module _ (table : SlaConfig) (outage severity : String) (mttr : ℤ) (version source : String) where
  -- After an update of a known severity the calculator assesses that severity, in any case of its
  -- letters, under the new values, and every other severity as before.
  pub calculate-update :
      (changed : String) (payload : SlaSeverityConfig)
      → (update_config_for_severity table changed payload).0 ≢ err unknown_severity
      → calculate
          (update_config_for_severity table changed payload).1
          outage
          severity
          mttr
          version
          source
        ≡ (if str_eq (lower changed) (lower severity)
            then ok (assess payload outage mttr version source)
            else calculate table outage severity mttr version source)
  unfolding update_config_for_severity
  calculate-update changed payload known = ground (
    arith,
    calculate-eq-verdict table outage severity mttr version source,
    calculate-eq-verdict (insert (lower changed) payload table) outage severity mttr version source,
    lookup-insert (lower changed) (lower severity) payload table,
  )

-- An update either stores and returns the new values, or raises for an unknown severity and
-- leaves the table as it was.
pub update_config_cases :
    (table : SlaConfig) (severity : String) (payload : SlaSeverityConfig)
    → (update_config_for_severity table severity payload
        ≡ (ok payload, insert (lower severity) payload table))
      ⊎ ((update_config_for_severity table severity payload ≡ (err unknown_severity, table))
          × (get_config_for_severity table severity ≡ err unknown_severity))
unfolding update_config_for_severity get_config_for_severity
update_config_cases table severity payload =
    ground (
      arith,
      lookup-insert (lower severity) (lower severity) payload table,
      eq_refl (lower severity),
    )
