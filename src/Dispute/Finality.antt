-- ===== src/Dispute/Finality.antt =====
-- A dispute of app/api/v1/endpoints/sla_dispute.py that is closed stays as it is.
use noc_iq_be.Prelude.Updates.{first-update_first_kept}
use noc_iq_be.Prelude.{
  ℕ, String, ◌≡◌, refl, Bool, false, ◌&&◌, some, List, arith, first, first-append,
}
use noc_iq_be.Sla.Config.{SlaConfig}
use noc_iq_be.Sla.Calculator.{SlaResult}
use noc_iq_be.Dispute.Endpoints.{
  SlaDispute, DisputeDb, is_pending, disputes_of, pending_of, propose,
}
use noc_iq_be.Dispute.Resolution.{close}
use noc_iq_be.Dispute.Changes.{Change, unchanged, flagged, proposed, closed, Op, run, run_keeps}
use noc_iq_be.Dispute.Trail.{has_id}

closed_not_pending : (n : ℕ) (d : SlaDispute) → is_pending d ≡ false → pending_of n d ≡ false
closed_not_pending n d h = go (disputes_of n d) (is_pending d) h
  where
    go : (a b : Bool) → b ≡ false → a && b ≡ false
    go a b e = ground arith

module _ (table : SlaConfig) (default : ℕ) (dump : SlaResult → String) (indexed : Bool) where
  -- No request changes a dispute that is resolved or rejected, as it is found by its id.
  pub closed_final :
      (d : SlaDispute) (ops : List Op) (s : DisputeDb)
      → is_pending d ≡ false
      → first (has_id d.id) s.disputes ≡ some d
      → first (has_id d.id) (run table default dump indexed ops s).disputes ≡ some d
  closed_final d ops s shut found =
      run_keeps table default dump indexed (λ t. first (has_id d.id) t.disputes ≡ some d) keep
        (λ t sla h. h) ops s found
    where
      keep :
          (s t : DisputeDb)
          → Change s t
          → first (has_id d.id) s.disputes ≡ some d
          → first (has_id d.id) t.disputes ≡ some d
      keep s t unchanged h = h
      keep s t (flagged n by reason now g) h = first-append (has_id d.id) s.disputes _ d h
      keep s t (proposed n m d' sla actor notes now g) h =
          first-update_first_kept (pending_of n) (has_id d.id) (propose m) s.disputes d (λ x. refl)
            h (closed_not_pending n d shut)
      keep s t (closed n d' sla p now g e) h =
          first-update_first_kept (pending_of n) (has_id d.id) (close p now) s.disputes d
            (λ x. refl) h (closed_not_pending n d shut)
