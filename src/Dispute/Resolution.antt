-- ===== src/Dispute/Resolution.antt =====
-- `resolve_dispute`, `get_dispute` and `get_dispute_history` of app/api/v1/endpoints/sla_dispute.py.
use noc_iq_be.Prelude.{
  ℕ, String, Bool, true, false, ◌&&◌, Option, none, some, List, [], ◌∷◌, ltb, ◌==◌, if◌then◌else◌,
  filter, first, update_first, sort_desc, sort_asc, Error, integrity_error, http_exception, Result,
  ok, err, ◌>>=◌,
}
use noc_iq_be.Sla.Repository.{SlaRow, SlaDb, is_latest_of}
use noc_iq_be.Dispute.Endpoints.{
  DisputeStatus, status_value, SlaDispute, DisputeAuditLog, DisputeDb, disputes_of, pending_of,
  row_id, log, pending, resolved, rejected,
}

abbrev pub ends : DisputeStatus → Bool
ends status = elim status [ pending ↦ false | resolved ↦ true | rejected ↦ true ]

abbrev pub is_resolved : DisputeStatus → Bool
is_resolved status = elim status [ pending ↦ false | resolved ↦ true | rejected ↦ false ]

pub record Resolution : Type 0 where
  pub resolved_by : String
  pub resolution_notes : String
  pub status : DisputeStatus
  pub apply_proposed : Bool

abbrev pub close : Resolution → ℕ → SlaDispute → SlaDispute
close p now d = record d {
  status = p.status;
  resolved_by = some p.resolved_by;
  resolution_notes = some p.resolution_notes;
  resolved_at = some now;
}

abbrev pub mark : Bool → SlaRow → SlaRow
mark b r = record r { is_latest = b }

-- The commit of the two marks updates the rows in the order of their ids: where the index of the
-- migration 0011 is there, it allows no second latest row in between.
abbrev pub comes_before : SlaRow → Option SlaRow → Bool
comes_before row none = false
comes_before row (some latest) = ltb row.id latest.id

abbrev pub no_proposal : Error
no_proposal = http_exception 400 "No proposed SLA result to apply."

abbrev pub closed_with :
    ℕ → Resolution → ℕ → DisputeDb → SlaDispute → Result SlaDb → Result SlaDispute × DisputeDb
closed_with n p now s d (err e) = (err e, s)
closed_with n p now s d (ok sla) = (
  ok (close p now d),
  record s {
    sla = sla;
    disputes = update_first (pending_of n) (close p now) s.disputes;
    audit_logs = log d.id (status_value p.status) p.resolved_by (some p.resolution_notes) now s;
  },
)

-- `indexed` says whether that index is there.
module _ (indexed : Bool) where
  abbrev pub apply_row : SlaRow → SlaDb → Result SlaDb
  apply_row row db =
      let o = row.result.outage_id in
      if indexed && comes_before row (first (is_latest_of o) db.rows)
      then err integrity_error
      else ok (record db {
        rows =
            update_first (row_id row.id) (mark true)
              (update_first (is_latest_of o) (mark false) db.rows);
      })

  abbrev pub apply_found : Option SlaRow → SlaDb → Result SlaDb
  apply_found none db = err (http_exception 404 "Proposed SLA not found")
  apply_found (some row) db = apply_row row db

  -- The id 0 is as false as None.
  abbrev pub apply_proposed : Option ℕ → SlaDb → Result SlaDb
  apply_proposed none db = err no_proposal
  apply_proposed (some n) db =
      if n == 0 then err no_proposal else apply_found (first (row_id n) db.rows) db

  abbrev pub applied : Resolution → SlaDispute → SlaDb → Result SlaDb
  applied p d db =
      if is_resolved p.status && p.apply_proposed
      then apply_proposed d.proposed_sla_result_id db
      else ok db

  abbrev pub resolve_found :
      ℕ → Resolution → ℕ → DisputeDb → Option SlaDispute → Result SlaDispute × DisputeDb
  resolve_found n p now s none =
      (err (http_exception 404 "No pending dispute found for this SLA result."), s)
  resolve_found n p now s (some d) = closed_with n p now s d (applied p d s.sla)

  unfoldable pub resolve_dispute : ℕ → Resolution → ℕ → DisputeDb → Result SlaDispute × DisputeDb
  resolve_dispute n p now s =
      if ends p.status
      then resolve_found n p now s (first (pending_of n) s.disputes)
      else (err (http_exception 400 "Resolution status must be 'resolved' or 'rejected'."), s)

abbrev head_dispute : List SlaDispute → Result SlaDispute
head_dispute [] = err (http_exception 404 "No dispute found for this SLA result.")
head_dispute (d ∷ ds) = ok d

unfoldable pub get_dispute : ℕ → DisputeDb → Result SlaDispute
get_dispute n s = head_dispute (sort_desc (λ d. d.flagged_at) (filter (disputes_of n) s.disputes))

unfoldable pub get_dispute_history : ℕ → DisputeDb → Result (List DisputeAuditLog)
unfolding get_dispute
get_dispute_history n s =
    get_dispute n s
    >>= (λ d. ok (sort_asc (λ l. l.recorded_at) (filter (λ l. l.dispute_id == d.id) s.audit_logs)))
