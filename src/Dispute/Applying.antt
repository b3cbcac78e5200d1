-- ===== src/Dispute/Applying.antt =====
-- What a resolution that applies the proposed result does to the results of its outage.
use noc_iq_be.Prelude.Updates.{
  count-update_first_by, first-update_first_either, first-of_update_first,
}
use noc_iq_be.Prelude.{
  ℕ, ◌≤◌, String, ◌≡◌, refl, ap, ◌∙◌, inl, inr, Bool, true, false, ◌&&◌, Option, some, List, arith,
  eq_refl, ltb, ◌==◌, if◌then◌else◌, Option-cases, first, update_first, count, first_of_count,
  update_first-none, count-of_first-none, first-holds, integrity_error, http_exception, ok, err,
}
use noc_iq_be.Sla.Repository.{SlaRow, is_latest_of, orm_to_pydantic, get_by_outage}
use noc_iq_be.Dispute.Endpoints.{
  SlaDispute, DisputeDb, pending_of, row_id, DisputeStatus, pending, resolved, rejected,
}
use noc_iq_be.Dispute.Resolution.{
  ends, is_resolved, Resolution, close, mark, comes_before, apply_row, apply_found, no_proposal,
  apply_proposed, applied, resolve_found, closed_with, resolve_dispute,
}

marked_false : (o : String) (r : SlaRow) → is_latest_of o (mark false r) ≡ false
marked_false o r = ground arith

-- Once the latest row is demoted, where there is one at most, the outage has none.
demoted_count :
    (o : String) (rows : List SlaRow)
    → count (is_latest_of o) rows ≤ 1
    → count (is_latest_of o) (update_first (is_latest_of o) (mark false) rows) ≡ 0
demoted_count o rows single = elim (Option-cases (first (is_latest_of o) rows)) [
  | inl e ↦
      rw (update_first-none (is_latest_of o) (mark false) rows e)
        (count-of_first-none (is_latest_of o) rows e)
  | inr (l, e) ↦ ground (
    arith,
    count-update_first_by (is_latest_of o) (is_latest_of o) (mark false) l rows e,
    first-holds (is_latest_of o) rows l e,
    marked_false o l,
  )
]

abbrev remarked : SlaRow → List SlaRow → List SlaRow
remarked r rows =
    update_first (row_id r.id) (mark true)
      (update_first (is_latest_of r.result.outage_id) (mark false) rows)

remarked-first :
    (r : SlaRow) (rows : List SlaRow)
    → count (is_latest_of r.result.outage_id) rows ≤ 1
    → first (row_id r.id) rows ≡ some r
    → (first (is_latest_of r.result.outage_id) (remarked r rows) ≡ some (mark true r))
      × (count (is_latest_of r.result.outage_id) (remarked r rows) ≤ 1)
remarked-first r rows single found =
    let o = r.result.outage_id in
    let rows' = update_first (is_latest_of o) (mark false) rows in
    let gone = demoted_count o rows single in
    let none_left = first_of_count (is_latest_of o) rows' gone in
    let hit : is_latest_of o (mark true r) ≡ true = ground (arith, eq_refl o) in
    elim (first-update_first_either (is_latest_of o) (row_id r.id) (mark false) rows r (λ x. refl)
      found) [
        | inl e ↦ (
          first-of_update_first (row_id r.id) (is_latest_of o) (mark true) rows' r none_left e hit,
          ground (
            arith,
            gone,
            count-update_first_by (row_id r.id) (is_latest_of o) (mark true) r rows' e,
          ),
        )
        | inr e ↦ (
          first-of_update_first (row_id r.id) (is_latest_of o) (mark true) rows' (mark false r)
              none_left e hit,
          ground (
            arith,
            gone,
            count-update_first_by (row_id r.id) (is_latest_of o) (mark true) (mark false r) rows' e,
          ),
        )
      ]

module _ (n m : ℕ) (p : Resolution) (now : ℕ) (s : DisputeDb) (d : SlaDispute) (r : SlaRow)
    (disputed : first (pending_of n) s.disputes ≡ some d)
    (proposal : d.proposed_sla_result_id ≡ some m) (numbered : m == 0 ≡ false)
    (stored : first (row_id m) s.sla.rows ≡ some r) (resolves : is_resolved p.status ≡ true)
    (applies : p.apply_proposed ≡ true) where
  ends_of : (status : DisputeStatus) → is_resolved status ≡ true → ends status ≡ true
  ends_of pending h = absurd cc
  ends_of resolved h = refl
  ends_of rejected h = refl

  applied-eq : (indexed : Bool) → applied indexed p d s.sla ≡ apply_row indexed r s.sla
  applied-eq indexed =
      ap (λ b. if b then apply_proposed indexed d.proposed_sla_result_id s.sla else ok s.sla) both
      ∙ ap (λ o. apply_proposed indexed o s.sla) proposal
      ∙ go (m == 0) (first (row_id m) s.sla.rows) numbered stored
    where
      both : is_resolved p.status && p.apply_proposed ≡ true
      both = ground (arith, resolves, applies)

      go :
          (b : Bool) (o : Option SlaRow)
          → b ≡ false
          → o ≡ some r
          → (if b then err no_proposal else apply_found indexed o s.sla) ≡ apply_row indexed r s.sla
      go b o e f = rw (e, f) refl

  resolve_dispute-eq :
      (indexed : Bool)
      → resolve_dispute indexed n p now s ≡ closed_with n p now s d (apply_row indexed r s.sla)
  unfolding resolve_dispute
  resolve_dispute-eq indexed =
      ap
        (λ b.
          if b
          then resolve_found indexed n p now s (first (pending_of n) s.disputes)
          else (err (http_exception 400 "Resolution status must be 'resolved' or 'rejected'."), s))
        (ends_of p.status resolves)
      ∙ ap (resolve_found indexed n p now s) disputed
      ∙ ap (closed_with n p now s d) (applied-eq indexed)

  -- Resolving a dispute with its proposed result makes that result the one that the outage's look-up
  -- gives, and the only one that is marked as the latest, if one at most was marked before and no
  -- index forbids the order of the updates.
  pub resolve_dispute-applies :
      (indexed : Bool)
      → count (is_latest_of r.result.outage_id) s.sla.rows ≤ 1
      → indexed && comes_before r (first (is_latest_of r.result.outage_id) s.sla.rows) ≡ false
      → ((resolve_dispute indexed n p now s).0 ≡ ok (close p now d))
        × (get_by_outage r.result.outage_id (resolve_dispute indexed n p now s).1.sla
            ≡ some (orm_to_pydantic r))
        × (count (is_latest_of r.result.outage_id) (resolve_dispute indexed n p now s).1.sla.rows
            ≤ 1)
  unfolding get_by_outage orm_to_pydantic
  resolve_dispute-applies indexed single free =
      let own : r.id ≡ m = ground (arith, first-holds (row_id m) s.sla.rows r stored) in
      let found : first (row_id r.id) s.sla.rows ≡ some r =
        ap (λ k. first (row_id k) s.sla.rows) own ∙ stored in
      let (latest, one) = remarked-first r s.sla.rows single found in
      rw (resolve_dispute-eq indexed, free, latest) (refl, refl, one)

  -- Where the table has the index of the migration 0011 and a result that was stored after the
  -- proposal is the latest one, the resolution raises IntegrityError and changes nothing.
  pub resolve_dispute-late :
      (l : SlaRow)
      → first (is_latest_of r.result.outage_id) s.sla.rows ≡ some l
      → ltb r.id l.id ≡ true
      → resolve_dispute true n p now s ≡ (err integrity_error, s)
  resolve_dispute-late l latest late = rw (resolve_dispute-eq true, latest, late) refl
