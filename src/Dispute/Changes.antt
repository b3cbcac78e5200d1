-- ===== src/Dispute/Changes.antt =====
-- What a request of app/api/v1/endpoints/sla_dispute.py can do to the disputes and their log.
use noc_iq_be.Prelude.{
  ℕ, ◌+◌, String, ◌≡◌, refl, inl, inr, Bool, true, Option, none, some, List, [], ◌∷◌, ◌++◌,
  Bool-cases, Option-cases, first, update_first, Result, ok, err,
}
use noc_iq_be.Sla.Config.{SlaConfig}
use noc_iq_be.Sla.Calculator.{SlaResult, calculate}
use noc_iq_be.Sla.Repository.{SlaRow, SlaDb}
use noc_iq_be.Dispute.Endpoints.{
  SlaDispute, DisputeDb, pending_of, row_id, log, new_dispute, flag_dispute, propose, Proposal,
  row_of, propose_result, or_missing_baseline, or_no_dispute, create_proposed_sla,
}
use noc_iq_be.Dispute.Resolution.{
  Resolution, applied, closed_with, resolve_found, resolve_dispute, ends,
}

pub data Change (s : DisputeDb) : DisputeDb → Type 0 where
  unchanged : Change s s
  flagged :
      (n : ℕ) (flagged_by reason : String) (now : ℕ)
      → first (pending_of n) s.disputes ≡ none
      → Change s (record s {
        disputes = s.disputes ++ new_dispute n flagged_by reason now s ∷ [];
        audit_logs = log s.next_dispute "flagged" flagged_by (some reason) now s;
        next_dispute = s.next_dispute + 1;
      })
  proposed :
      (n m : ℕ) (d : SlaDispute) (sla : SlaDb) (actor : String) (notes : Option String) (now : ℕ)
      → first (pending_of n) s.disputes ≡ some d
      → Change s (record s {
        sla = sla;
        disputes = update_first (pending_of n) (propose m) s.disputes;
        audit_logs = log d.id "proposed_sla_created" actor notes now s;
      })
  closed :
      (n : ℕ) (d : SlaDispute) (sla : SlaDb) (p : Resolution) (now : ℕ)
      → first (pending_of n) s.disputes ≡ some d
      → ends p.status ≡ true
      → Change s (closed_with n p now s d (ok sla)).1

pub data Op : Type 0 where
  flag_op : ℕ → (flagged_by reason : String) → ℕ → Op
  propose_op : ℕ → Proposal → ℕ → Op
  resolve_op : ℕ → Resolution → ℕ → Op
  -- what another part of the program makes of the results
  sla_op : SlaDb → Op

flag_dispute-Change :
    (n : ℕ) (flagged_by reason : String) (now : ℕ) (s : DisputeDb)
    → Change s (flag_dispute n flagged_by reason now s).1
unfolding flag_dispute
flag_dispute-Change n flagged_by reason now s = elim (Option-cases (first (row_id n) s.sla.rows)) [
  | inl e ↦ rw e unchanged
  | inr (r, e) ↦ elim (Option-cases (first (pending_of n) s.disputes)) [
    | inl f ↦ rw (e, f) (flagged n flagged_by reason now f)
    | inr (d, f) ↦ rw (e, f) unchanged
  ]
]

module _ (table : SlaConfig) (default : ℕ) (dump : SlaResult → String) (indexed : Bool) where
  propose_result-Change :
      (n : ℕ) (p : Proposal) (now : ℕ) (s : DisputeDb) (d : SlaDispute) (r : Result SlaResult)
      → first (pending_of n) s.disputes ≡ some d
      → Change s (propose_result table default dump n p now s d r).1
  propose_result-Change n p now s d (err e) h = unchanged
  propose_result-Change n p now s d (ok r) h = proposed n s.sla.next_id d _ _ _ now h

  create_proposed_sla-Change :
      (n : ℕ) (p : Proposal) (now : ℕ) (s : DisputeDb)
      → Change s (create_proposed_sla table default dump n p now s).1
  unfolding create_proposed_sla
  create_proposed_sla-Change n p now s = go (first (pending_of n) s.disputes) refl
    where
      with_baseline :
          (d : SlaDispute) (o : Option SlaRow)
          → first (pending_of n) s.disputes ≡ some d
          → Change s (or_missing_baseline table default dump n p now s d o).1
      with_baseline d none h = unchanged
      with_baseline d (some row) h =
          propose_result-Change n p now s d
            (calculate table row.result.outage_id p.severity p.mttr_minutes p.policy_version
              p.threshold_source)
            h

      go :
          (o : Option SlaDispute)
          → first (pending_of n) s.disputes ≡ o
          → Change s (or_no_dispute table default dump n p now s o).1
      go none h = unchanged
      go (some d) h = with_baseline d (row_of d.baseline_sla_result_id s.sla.rows) h

  resolve_dispute-Change :
      (n : ℕ) (p : Resolution) (now : ℕ) (s : DisputeDb)
      → Change s (resolve_dispute indexed n p now s).1
  unfolding resolve_dispute
  resolve_dispute-Change n p now s = elim (Bool-cases (ends p.status)) [
    | inl e ↦ rw e (go (first (pending_of n) s.disputes) refl e)
    | inr e ↦ rw e unchanged
  ]
    where
      with_rows :
          (d : SlaDispute) (r : Result SlaDb)
          → first (pending_of n) s.disputes ≡ some d
          → ends p.status ≡ true
          → Change s (closed_with n p now s d r).1
      with_rows d (err e) h k = unchanged
      with_rows d (ok sla) h k = closed n d sla p now h k

      go :
          (o : Option SlaDispute)
          → first (pending_of n) s.disputes ≡ o
          → ends p.status ≡ true
          → Change s (resolve_found indexed n p now s o).1
      go none h k = unchanged
      go (some d) h k = with_rows d (applied indexed p d s.sla) h k

  abbrev pub step : Op → DisputeDb → DisputeDb
  step (flag_op n flagged_by reason now) s = (flag_dispute n flagged_by reason now s).1
  step (propose_op n p now) s = (create_proposed_sla table default dump n p now s).1
  step (resolve_op n p now) s = (resolve_dispute indexed n p now s).1
  step (sla_op sla) s = record s { sla = sla }

  unfoldable pub run : List Op → DisputeDb → DisputeDb
  run [] s = s
  run (op ∷ ops) s = run ops (step op s)

  -- A property of the disputes and their log that every change keeps holds after every run.
  pub run_keeps {κ} :
      (P : DisputeDb → Type κ)
      → ((s t : DisputeDb) → Change s t → P s → P t)
      → ((s : DisputeDb) (sla : SlaDb) → P s → P (record s { sla = sla }))
      → (ops : List Op) (s : DisputeDb) → P s
      → P (run ops s)
  unfolding run
  run_keeps P keep other [] s h = h
  run_keeps P keep other (op ∷ ops) s h = run_keeps P keep other ops (step op s) (one op)
    where
      one : (o : Op) → P (step o s)
      one (flag_op n flagged_by reason now) =
          keep s _ (flag_dispute-Change n flagged_by reason now s) h
      one (propose_op n p now) = keep s _ (create_proposed_sla-Change n p now s) h
      one (resolve_op n p now) = keep s _ (resolve_dispute-Change n p now s) h
      one (sla_op sla) = other s sla h
