-- ===== src/Dispute/Endpoints.antt =====
-- The endpoints of app/api/v1/endpoints/sla_dispute.py on the rows of app/models/sla_dispute.py. A
-- request that raises leaves the database as it was, since the session is closed before a commit.
-- The keys, which are random UUIDs in the code, are numbers here, each used once.
use noc_iq_be.Prelude.{
  ℕ, ◌+◌, String, Bool, true, false, ◌&&◌, not, Option, none, some, List, [], ◌∷◌, ◌++◌, str_eq,
  concat, ◌==◌, if◌then◌else◌, filter, first, update_first, sort_desc, http_exception, Result, ok,
  err,
}
use noc_iq_be.Prelude.Dict.{is_some}
use noc_iq_be.Prelude.Int.{ℤ}
use noc_iq_be.Sla.Config.{SlaConfig}
use noc_iq_be.Sla.Calculator.{SlaResult, calculate}
use noc_iq_be.Sla.Repository.{SlaRow, SlaDb}

pub data DisputeStatus : Type 0 where
  pending resolved rejected : DisputeStatus

abbrev pub status_value : DisputeStatus → String
status_value pending = "pending"
status_value resolved = "resolved"
status_value rejected = "rejected"

pub record SlaDispute : Type 0 where
  pub id : ℕ
  pub sla_result_id : ℕ
  pub baseline_sla_result_id : Option ℕ
  pub proposed_sla_result_id : Option ℕ
  pub flagged_by : String
  pub dispute_reason : String
  pub flagged_at : ℕ
  pub status : DisputeStatus
  pub resolved_by : Option String
  pub resolution_notes : Option String
  pub resolved_at : Option ℕ

pub record DisputeAuditLog : Type 0 where
  pub dispute_id : ℕ
  pub action : String
  pub actor : String
  pub notes : Option String
  pub recorded_at : ℕ

pub record DisputeDb : Type 0 where
  pub sla : SlaDb
  pub disputes : List SlaDispute
  pub audit_logs : List DisputeAuditLog
  pub next_dispute : ℕ

abbrev pub is_pending : SlaDispute → Bool
is_pending d = elim d.status [ pending ↦ true | resolved ↦ false | rejected ↦ false ]

abbrev pub disputes_of : ℕ → SlaDispute → Bool
disputes_of n d = d.sla_result_id == n

abbrev pub pending_of : ℕ → SlaDispute → Bool
pending_of n d = disputes_of n d && is_pending d

abbrev pub row_id : ℕ → SlaRow → Bool
row_id n r = r.id == n

abbrev same_status : DisputeStatus → DisputeStatus → Bool
same_status a b = str_eq (status_value a) (status_value b)

unfoldable pub list_disputes : Option DisputeStatus → DisputeDb → List SlaDispute
list_disputes none s = sort_desc (λ d. d.flagged_at) s.disputes
list_disputes (some status) s =
    filter (λ d. same_status d.status status) (sort_desc (λ d. d.flagged_at) s.disputes)

abbrev pub log : ℕ → String → String → Option String → ℕ → DisputeDb → List DisputeAuditLog
log id action actor notes now s =
    s.audit_logs
    ++ record { dispute_id = id; action = action; actor = actor; notes = notes; recorded_at = now }
      ∷ []

abbrev pub new_dispute : ℕ → String → String → ℕ → DisputeDb → SlaDispute
new_dispute n flagged_by reason now s = record {
  id = s.next_dispute;
  sla_result_id = n;
  baseline_sla_result_id = some n;
  proposed_sla_result_id = none;
  flagged_by = flagged_by;
  dispute_reason = reason;
  flagged_at = now;
  status = pending;
  resolved_by = none;
  resolution_notes = none;
  resolved_at = none;
}

unfoldable pub flag_dispute :
    ℕ → (flagged_by reason : String) → ℕ → DisputeDb → Result SlaDispute × DisputeDb
flag_dispute n flagged_by reason now s =
    if not (is_some (first (row_id n) s.sla.rows))
    then (err (http_exception 404 "SLA result not found"), s)
    else if is_some (first (pending_of n) s.disputes)
    then (err (http_exception 409 "An active dispute already exists for this SLA result."), s)
    else (
      ok (new_dispute n flagged_by reason now s),
      record s {
        disputes = s.disputes ++ new_dispute n flagged_by reason now s ∷ [];
        audit_logs = log s.next_dispute "flagged" flagged_by (some reason) now s;
        next_dispute = s.next_dispute + 1;
      },
    )

-- The columns of a proposed result: it is stored, and is not the latest.
abbrev pub with_proposed : ℕ → SlaResult → SlaDb → SlaDb
with_proposed default result db = record db {
  rows =
      db.rows
      ++ record { id = db.next_id; result = result; created_at = default; is_latest = false } ∷ [];
  next_id = db.next_id + 1;
}

abbrev pub propose : ℕ → SlaDispute → SlaDispute
propose n d = record d { proposed_sla_result_id = some n }

pub record Proposal : Type 0 where
  pub created_by : String
  pub severity : String
  pub mttr_minutes : ℤ
  pub policy_version : String
  pub threshold_source : String
  pub notes : Option String

-- `if payload.notes`
abbrev with_notes : String → Option String → String
with_notes text none = text
with_notes text (some notes) =
    if str_eq notes "" then text else concat text (concat " | Notes: " notes)

-- A filter by an id that is None finds no row.
abbrev pub row_of : Option ℕ → List SlaRow → Option SlaRow
row_of none rows = none
row_of (some n) rows = first (row_id n) rows

-- `default` is the default of created_at, and `dump` makes the JSON text of a result.
module _ (table : SlaConfig) (default : ℕ) (dump : SlaResult → String) where
  abbrev pub propose_result :
      ℕ → Proposal → ℕ → DisputeDb → SlaDispute → Result SlaResult → Result SlaDispute × DisputeDb
  propose_result n p now s d (err e) = (err e, s)
  propose_result n p now s d (ok result) = (
    ok (propose s.sla.next_id d),
    record s {
      sla = with_proposed default result s.sla;
      disputes = update_first (pending_of n) (propose s.sla.next_id) s.disputes;
      audit_logs =
          log d.id "proposed_sla_created" p.created_by
            (some (with_notes (concat "Proposed SLA created: " (dump result)) p.notes)) now s;
    },
  )

  abbrev pub or_missing_baseline :
      ℕ → Proposal → ℕ → DisputeDb → SlaDispute → Option SlaRow → Result SlaDispute × DisputeDb
  or_missing_baseline n p now s d none = (err (http_exception 404 "Baseline SLA not found"), s)
  or_missing_baseline n p now s d (some row) = propose_result n p now s d (
      calculate table row.result.outage_id p.severity p.mttr_minutes p.policy_version
        p.threshold_source)

  abbrev pub or_no_dispute :
      ℕ → Proposal → ℕ → DisputeDb → Option SlaDispute → Result SlaDispute × DisputeDb
  or_no_dispute n p now s none =
      (err (http_exception 404 "No pending dispute found for this SLA result."), s)
  or_no_dispute n p now s (some d) =
      or_missing_baseline n p now s d (row_of d.baseline_sla_result_id s.sla.rows)

  unfoldable pub create_proposed_sla : ℕ → Proposal → ℕ → DisputeDb → Result SlaDispute × DisputeDb
  create_proposed_sla n p now s = or_no_dispute n p now s (first (pending_of n) s.disputes)

-- `payload.status in (DisputeStatus.RESOLVED, DisputeStatus.REJECTED)`
