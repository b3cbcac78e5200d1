-- ===== src/Dispute/Audit.antt =====
-- The disputes of app/api/v1/endpoints/sla_dispute.py against their audit log.
use noc_iq_be.Prelude.Updates.{count-update_first_by}
use noc_iq_be.Prelude.{
  ℕ, ◌+◌, String, ◌≡◌, Bool, true, Option, none, some, List, [], ◌∷◌, ◌++◌, arith, first,
  update_first, count-of_first-none,
}
use noc_iq_be.Sla.Config.{SlaConfig}
use noc_iq_be.Sla.Calculator.{SlaResult}
use noc_iq_be.Sla.Repository.{SlaDb}
use noc_iq_be.Dispute.Endpoints.{
  status_value, SlaDispute, DisputeAuditLog, DisputeDb, pending_of, log, new_dispute, propose,
}
use noc_iq_be.Dispute.Resolution.{ends, Resolution, close}
use noc_iq_be.Dispute.Changes.{Change, unchanged, flagged, proposed, closed, Op, run, run_keeps}
use noc_iq_be.Dispute.Trail.{
  has_id, is_closed, flags, closes, IsAudited, count-log, closing_action, ends_not_pending,
  pending_not_ends, first_pending, uncounted,
}

module _ (s : DisputeDb) (a : IsAudited s) where
  flagged-IsAudited :
      (n : ℕ) (by reason : String) (now : ℕ)
      → first (pending_of n) s.disputes ≡ none
      → IsAudited (record s {
        disputes = s.disputes ++ new_dispute n by reason now s ∷ [];
        audit_logs = log s.next_dispute "flagged" by (some reason) now s;
        next_dispute = s.next_dispute + 1;
      })
  flagged-IsAudited n by reason now h =
      let new = new_dispute n by reason now s in
      let entry : DisputeAuditLog = record {
        dispute_id = s.next_dispute;
        action = "flagged";
        actor = by;
        notes = some reason;
        recorded_at = now;
      } in
      record {
        flaggings = λ id. ground (
          arith,
          a.flaggings id,
          count-log (flags id) s.audit_logs entry,
          count-log (has_id id) s.disputes new,
        );
        closings = λ id. ground (
          arith,
          a.closings id,
          count-log (closes id) s.audit_logs entry,
          count-log (is_closed id) s.disputes new,
        );
        single = λ m. ground (
          arith,
          a.single m,
          count-log (pending_of m) s.disputes new,
          count-of_first-none (pending_of n) s.disputes h,
        );
      }

  module _ (n : ℕ) (d : SlaDispute) (h : first (pending_of n) s.disputes ≡ some d) where
    proposed-IsAudited :
        (m : ℕ) (sla : SlaDb) (actor : String) (notes : Option String) (now : ℕ)
        → IsAudited (record s {
          sla = sla;
          disputes = update_first (pending_of n) (propose m) s.disputes;
          audit_logs = log d.id "proposed_sla_created" actor notes now s;
        })
    proposed-IsAudited m sla actor notes now =
        let entry : DisputeAuditLog = record {
          dispute_id = d.id;
          action = "proposed_sla_created";
          actor = actor;
          notes = notes;
          recorded_at = now;
        } in
        let kept = λ (q : SlaDispute → Bool).
          count-update_first_by (pending_of n) q (propose m) d s.disputes h in
        record {
          flaggings = λ id.
              ground
                (arith, a.flaggings id, count-log (flags id) s.audit_logs entry, kept (has_id id));
          closings = λ id.
              ground (
                arith,
                a.closings id,
                count-log (closes id) s.audit_logs entry,
                kept (is_closed id),
              );
          single = λ k. ground (arith, a.single k, kept (pending_of k));
        }

    closed-IsAudited :
        (sla : SlaDb) (p : Resolution) (now : ℕ)
        → ends p.status ≡ true
        → IsAudited (record s {
          sla = sla;
          disputes = update_first (pending_of n) (close p now) s.disputes;
          audit_logs =
              log d.id (status_value p.status) p.resolved_by (some p.resolution_notes) now s;
        })
    closed-IsAudited sla p now e =
        let entry : DisputeAuditLog = record {
          dispute_id = d.id;
          action = status_value p.status;
          actor = p.resolved_by;
          notes = some p.resolution_notes;
          recorded_at = now;
        } in
        let kept = λ (q : SlaDispute → Bool).
          count-update_first_by (pending_of n) q (close p now) d s.disputes h in
        let open_before = pending_not_ends d (first_pending n d s.disputes h) in
        let shut = ends_not_pending p.status d e in
        let action = closing_action p.status e in
        record {
          flaggings = λ id. ground (
            arith,
            a.flaggings id,
            count-log (flags id) s.audit_logs entry,
            kept (has_id id),
            action,
          );
          closings = λ id. ground (
            arith,
            a.closings id,
            count-log (closes id) s.audit_logs entry,
            kept (is_closed id),
            action,
            open_before,
            e,
          );
          single =
              λ k. omega (arith, a.single k, kept (pending_of k), uncounted k (close p now d) shut);
        }

module _ (table : SlaConfig) (default : ℕ) (dump : SlaResult → String) (indexed : Bool) where
  -- After any requests of these endpoints, and whatever the rest of the program does to the results
  -- in between, every dispute has one log entry for its flagging and one more exactly when it is
  -- closed, and no result has two pending disputes.
  pub run-IsAudited :
      (ops : List Op) (s : DisputeDb)
      → IsAudited s
      → IsAudited (run table default dump indexed ops s)
  run-IsAudited = run_keeps table default dump indexed IsAudited keep other
    where
      other : (s : DisputeDb) (sla : SlaDb) → IsAudited s → IsAudited (record s { sla = sla })
      other s sla a = record { flaggings = a.flaggings; closings = a.closings; single = a.single }

      keep : (s t : DisputeDb) → Change s t → IsAudited s → IsAudited t
      keep s t unchanged a = a
      keep s t (flagged n by reason now h) a = flagged-IsAudited s a n by reason now h
      keep s t (proposed n m d sla actor notes now h) a =
          proposed-IsAudited s a n d h m sla actor notes now
      keep s t (closed n d sla p now h e) a = closed-IsAudited s a n d h sla p now e
