-- ===== src/Outage/Examples.antt =====
-- Examples of the outages and their state machine.
use noc_iq_be.Prelude.{◌≡◌, refl, true, false, none, some, List, [], ◌∷◌, ok}
use noc_iq_be.Prelude.Int.{pos}
use noc_iq_be.Outage.Repository.{
  OutageData, OutageRow, set_status, set_severity, get, find_duplicate, check_duplicate, new_row,
  create_or_get_existing,
}
use noc_iq_be.Outage.Resolution.{Op, update_op, resolve_op, create_op, run, resolved_final}
use noc_iq_be.Outage.Reports.{create_or_get_existing-twice}

abbrev report : OutageData
report = record {
  id = "o1";
  site_name = "north";
  site_id = some "s1";
  severity = "high";
  status = "open";
  detected_at = 3;
  description = "no power";
  affected_services = "voice" ∷ [];
  affected_subscribers = none;
  assigned_to = none;
  created_by = none;
  location = none;
}

abbrev resolved_outage : OutageRow
resolved_outage = record {
  created = record report { status = "resolved" };
  resolved_at = some 9;
  mttr_minutes = some (pos 6);
  updated_at = some 9;
}

abbrev later_calls : List Op
later_calls =
    update_op "o1" (set_status (some "open") ∷ []) 10
    ∷ update_op "o1" (set_severity (some "low") ∷ []) 11
    ∷ resolve_op "o1" (pos 8) 12
    ∷ create_op report
    ∷ []

resolved_final_example :
    (s : OutageRow) × (get "o1" (run later_calls (resolved_outage ∷ [])) ≡ some s)
    × (s.created.status ≡ "resolved")
unfolding get
resolved_final_example =
    resolved_final later_calls (resolved_outage ∷ []) "o1" resolved_outage refl refl

create_or_get_existing-twice_example :
    create_or_get_existing report (new_row report ∷ [])
    ≡ (ok (new_row report, false), new_row report ∷ [])
unfolding create_or_get_existing check_duplicate get find_duplicate
create_or_get_existing-twice_example =
    create_or_get_existing-twice report [] (new_row report ∷ []) (new_row report) true refl
