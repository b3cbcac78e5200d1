-- ===== src/Dispute/Examples.antt =====
-- Examples of the disputes.
use noc_iq_be.Prelude.{
  ℕ, ◌≤◌, String, ◌≡◌, refl, Bool, true, false, some, List, [], ◌∷◌, arith, first, count, ok,
}
use noc_iq_be.Prelude.Int.{pos}
use noc_iq_be.Sla.Config.{sla_config, severity_config}
use noc_iq_be.Sla.Calculator.{SlaResult, assess}
use noc_iq_be.Sla.Repository.{SlaRow, SlaDb, is_latest_of, get_by_outage, orm_to_pydantic}
use noc_iq_be.Dispute.Endpoints.{SlaDispute, DisputeDb, resolved, new_dispute, propose}
use noc_iq_be.Dispute.Resolution.{Resolution, close, resolve_dispute}
use noc_iq_be.Dispute.Changes.{Op, flag_op, resolve_op, run}
use noc_iq_be.Dispute.Audit.{run-IsAudited}
use noc_iq_be.Dispute.Trail.{has_id, IsAudited}
use noc_iq_be.Dispute.Finality.{closed_final}
use noc_iq_be.Dispute.Applying.{resolve_dispute-applies}

abbrev result_of : ℕ → SlaResult
result_of mttr = assess (severity_config 30 50 750) "o1" (pos mttr) "v1" "default"

abbrev sla_row : ℕ → Bool → SlaRow
sla_row id latest = record { id = id; result = result_of 40; created_at = 1; is_latest = latest }

abbrev results : SlaDb
results = record {
  rows = sla_row 1 true ∷ sla_row 2 false ∷ [];
  next_id = 3;
  snapshots = [];
  next_snapshot = 1;
}

abbrev no_disputes : DisputeDb
no_disputes = record { sla = results; disputes = []; audit_logs = []; next_dispute = 1 }

abbrev open_dispute : SlaDispute
open_dispute = propose 2 (new_dispute 1 "ann" "wrong threshold" 4 no_disputes)

abbrev disputed : DisputeDb
disputed = record no_disputes { disputes = open_dispute ∷ []; next_dispute = 2 }

abbrev resolution : Resolution
resolution = record {
  resolved_by = "bob";
  resolution_notes = "threshold corrected";
  status = resolved;
  apply_proposed = true;
}

none-IsAudited : IsAudited no_disputes
none-IsAudited = record { flaggings = λ id. refl; closings = λ id. refl; single = λ n. omega arith }

abbrev requests : List Op
requests =
    flag_op 1 "ann" "wrong threshold" 4
    ∷ resolve_op 1 (record resolution { apply_proposed = false }) 6
    ∷ flag_op 1 "cyd" "still wrong threshold" 8
    ∷ []

abbrev dump : SlaResult → String
dump r = r.outage_id

run-IsAudited_example : IsAudited (run sla_config 0 dump true requests no_disputes)
run-IsAudited_example = run-IsAudited sla_config 0 dump true requests no_disputes none-IsAudited

abbrev closed_dispute : SlaDispute
closed_dispute = close resolution 6 open_dispute

closed_final_example :
    first
      (has_id 1)
      (run sla_config 0 dump true requests
        (record disputed { disputes = closed_dispute ∷ [] })).disputes
    ≡ some closed_dispute
closed_final_example =
    closed_final sla_config 0 dump true closed_dispute requests
      (record disputed { disputes = closed_dispute ∷ [] }) refl refl

resolve_dispute-applies_example :
    ((resolve_dispute true 1 resolution 6 disputed).0 ≡ ok closed_dispute)
    × (get_by_outage "o1" (resolve_dispute true 1 resolution 6 disputed).1.sla
        ≡ some (orm_to_pydantic (sla_row 2 false)))
    × (count (is_latest_of "o1") (resolve_dispute true 1 resolution 6 disputed).1.sla.rows ≤ 1)
unfolding assess
resolve_dispute-applies_example =
    resolve_dispute-applies 1 2 resolution 6 disputed open_dispute (sla_row 2 false) refl refl refl
      refl refl refl true (omega arith) refl
