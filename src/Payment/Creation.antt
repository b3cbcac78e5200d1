-- ===== src/Payment/Creation.antt =====
-- A payment is made once for each SLA result.
use noc_iq_be.Prelude.{
  ℕ, ◌+◌, ◌≤◌, String, ◌≡◌, refl, inl, inr, true, Option, none, some, List, [], ◌∷◌, arith,
  Bool-cases, Option-cases, first, count, count-append, count-update_first, count-zero,
  first-append_none, Result, ok, err,
}
use noc_iq_be.Sla.Calculator.{SlaResult}
use noc_iq_be.Payment.Rows.{PaymentRow, update_row, retry_row, replay_row}
use noc_iq_be.Payment.Rules.{Writes, update_row-Writes, retry_row-Writes, replay_row-Writes}
use noc_iq_be.Payment.Repository.{
  Payments, PaymentSettings, has_id, has_sla_result, clashes, add_row, create, edit, update_status,
  reconcile, retry, replay_dead_letter, create_for_sla_result,
}
use noc_iq_be.Payment.Traces.{
  Op, update_status_op, reconcile_op, retry_op, replay_op, create_op, create_for_sla_op, apply, run,
  sla_payment_cases,
}

-- If making the payment of an SLA result returns a payment, making it a second time, whatever else is
-- passed, returns the same payment and changes nothing.
pub create_for_sla_result_idem :
    (settings settings' : PaymentSettings) (uuid uuid' outage outage' : String) (now now' : ℕ)
    (sla : SlaResult) (t : Payments) (r : PaymentRow)
    → (create_for_sla_result settings uuid outage now sla t).0 ≡ ok r
    → let t' = (create_for_sla_result settings uuid outage now sla t).1 in
      create_for_sla_result settings' uuid' outage' now' sla t' ≡ (ok r, t')
unfolding create_for_sla_result add_row
create_for_sla_result_idem settings settings' uuid uuid' outage outage' now now' sla t r h =
    elim (Option-cases sla.id) [
      | inl missing ↦ ground arith
      | inr (n, e) ↦ elim (Option-cases (first (has_sla_result n) t)) [
        | inl new ↦ ground (arith, first-append_none (has_sla_result n) t (r ∷ []) new)
        | inr (old, f) ↦ ground arith
      ]
    ]

-- The SLA result has one payment at most.
abbrev pub IsSingle : ℕ → Payments → Type 0
IsSingle n t = count (has_sla_result n) t ≤ 1

edit-IsSingle :
    (n : ℕ) (id : String) (f : PaymentRow → Result (Option PaymentRow)) (t : Payments)
    → Writes f
    → IsSingle n t
    → IsSingle n (edit id f t).1
unfolding edit
edit-IsSingle n id f t writes h = elim (Option-cases (first (has_id id) t)) [
  | inl missing ↦ ground arith
  | inr (r, found) ↦ go r found (f r) refl
]
  where
    go :
        (r : PaymentRow)
        → first (has_id id) t ≡ some r
        → (o : Result (Option PaymentRow)) → f r ≡ o
        → IsSingle n (edit id f t).1
    go r found (err e) p = ground arith
    go r found (ok none) p = ground arith
    go r found (ok (some r')) p = ground (
      arith,
      (writes r r' p).frozen.sla_result_id,
      count-update_first (has_id id) (has_sla_result n) r r' t found,
    )

same_sla_result-clashes :
    (n : ℕ) (orm x : PaymentRow)
    → has_sla_result n orm ≡ true
    → has_sla_result n x ≡ true
    → clashes orm x ≡ true
same_sla_result-clashes n orm x h k = ground arith

count-add_row :
    (n : ℕ) (orm : PaymentRow) (t : Payments)
    → first (clashes orm) t ≡ none
    → IsSingle n t
    → count (has_sla_result n) t + count (has_sla_result n) (orm ∷ []) ≤ 1
count-add_row n orm t new h = elim (Bool-cases (has_sla_result n orm)) [
  | inl same ↦ ground (
    arith,
    count-zero (clashes orm) (has_sla_result n) t (λ x. same_sla_result-clashes n orm x same) new,
  )
  | inr other ↦ ground arith
]

add_row-IsSingle :
    (n : ℕ) (orm : PaymentRow) (t : Payments) → IsSingle n t → IsSingle n (add_row orm t).1
unfolding add_row
add_row-IsSingle n orm t h = elim (Option-cases (first (clashes orm) t)) [
  | inl new ↦
      ground (arith, count-append (has_sla_result n) t (orm ∷ []), count-add_row n orm t new h)
  | inr (old, e) ↦ ground arith
]

apply-IsSingle : (n : ℕ) (op : Op) (t : Payments) → IsSingle n t → IsSingle n (apply op t)
unfolding update_status reconcile retry replay_dead_letter create
apply-IsSingle n (update_status_op id status now) t h =
    edit-IsSingle n id (update_row status now) t (update_row-Writes status now) h
apply-IsSingle n (reconcile_op id status now) t h =
    edit-IsSingle n id (update_row status now) t (update_row-Writes status now) h
apply-IsSingle n (retry_op id now) t h =
    edit-IsSingle n id (retry_row now) t (retry_row-Writes now) h
apply-IsSingle n (replay_op id now) t h =
    edit-IsSingle n id (replay_row now) t (replay_row-Writes now) h
apply-IsSingle n (create_op orm) t h = add_row-IsSingle n _ t h
apply-IsSingle n (create_for_sla_op settings uuid outage now sla) t h =
    elim (sla_payment_cases settings uuid outage now sla t) [
      | inl same ↦ rw same h
      | inr (orm, made, _, _) ↦ rw made (add_row-IsSingle n _ t h)
    ]

-- If no more than one payment has an SLA result's id, no more than one has it after any run of the
-- methods.
pub run-IsSingle : (n : ℕ) (ops : List Op) (t : Payments) → IsSingle n t → IsSingle n (run ops t)
run-IsSingle n [] t h = h
run-IsSingle n (op ∷ ops) t h = run-IsSingle n ops (apply op t) (apply-IsSingle n op t h)
