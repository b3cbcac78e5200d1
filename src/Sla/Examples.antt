-- ===== src/Sla/Examples.antt =====
-- Tests and examples of the SLA calculator, on the configuration that the code ships.
use noc_iq_be.Prelude.{◌≤◌, ◌≡◌, refl, some, List, [], ◌∷◌, arith, count}
use noc_iq_be.Prelude.Int.{pos, negsuc, ◌≤ℤ◌, mul_ℕ, floor_div}
use noc_iq_be.Sla.Config.{SlaSeverityConfig, severity_config}
use noc_iq_be.Sla.Calculator.{performance_ratio, SlaResult, tier, excellent, assess}
use noc_iq_be.Sla.Tiers.{rating-assess}
use noc_iq_be.Sla.Amounts.{amount-assess_antitone}
use noc_iq_be.Sla.Repository.{SlaDb, is_latest_of, get_by_outage}
use noc_iq_be.Sla.Latest.{create_each, last_result, get_by_outage-create_each, create_each-single}

abbrev high : SlaSeverityConfig
high = severity_config 30 50 750

reward_of_20 : (assess high "o1" (pos 20) "v1" "default").amount ≡ pos 1125
unfolding assess performance_ratio tier mul_ℕ floor_div
reward_of_20 = refl

penalty_of_40 : (assess high "o1" (pos 40) "v1" "default").amount ≡ negsuc 499
unfolding assess
penalty_of_40 = refl

rating-assess_example : (assess high "o1" (pos 20) "v1" "default").rating ≡ excellent
rating-assess_example = rating-assess high "o1" 20 "v1" "default" (omega arith)

amount-assess_antitone_example :
    (assess high "o1" (pos 40) "v1" "default").amount
    ≤ℤ (assess high "o1" (pos 20) "v1" "default").amount
amount-assess_antitone_example =
    amount-assess_antitone high "o1" "v1" "default" (pos 20) (pos 40) (omega arith)

abbrev stored_results : SlaDb
stored_results = record { rows = []; next_id = 1; snapshots = []; next_snapshot = 1 }

abbrev first_result : SlaResult
first_result = assess high "o1" (pos 20) "v1" "default"

abbrev later_results : List SlaResult
later_results =
    first_result
    ∷ assess high "o2" (pos 40) "v1" "default"
    ∷ assess high "o1" (pos 25) "v2" "default"
    ∷ []

get_by_outage-create_each_example :
    get_by_outage "o1" (create_each 7 later_results stored_results)
    ≡ some (record (assess high "o1" (pos 25) "v2" "default") { id = some 3 })
unfolding last_result assess
get_by_outage-create_each_example = get_by_outage-create_each 7 later_results stored_results "o1"

create_each-single_example :
    count (is_latest_of "o1") (create_each 7 later_results stored_results).rows ≤ 1
create_each-single_example = create_each-single 7 later_results stored_results "o1" (omega arith)
