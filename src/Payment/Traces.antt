-- ===== src/Payment/Traces.antt =====
-- Runs of the repository's methods: what no sequence of them can change.
use noc_iq_be.Prelude.{
  ℕ, String, ◌≡◌, refl, ◌≢◌, ◌⊎◌, inl, inr, true, false, Option, none, some, List, [], ◌∷◌, arith,
  str_eq, eq_iff, if◌then◌else◌, Bool-cases, Option-cases, first, first-holds, first-append,
  first-update_first, first-update_first_other, Result, ok, err,
}
use mathlib.Core.Path.{subst}
use noc_iq_be.Sla.Calculator.{SlaResult}
use noc_iq_be.Payment.Rows.{PaymentRow, update_row, retry_row, replay_row}
use noc_iq_be.Payment.Rules.{Moves, Writes, update_row-Writes, retry_row-Writes, replay_row-Writes}
use noc_iq_be.Payment.Repository.{
  Payments, PaymentSettings, has_id, add_row, create, get, get_by_sla_result, sla_payment, edit,
  update_status, reconcile, retry, replay_dead_letter, create_for_sla_result,
}

-- A call of a method, with the clock and the random part that it reads.
pub data Op : Type 0 where
  update_status_op reconcile_op : (id status : String) → (now : ℕ) → Op
  retry_op replay_op : (id : String) → (now : ℕ) → Op
  create_op : PaymentRow → Op
  create_for_sla_op : PaymentSettings → (uuid outage : String) → (now : ℕ) → SlaResult → Op

abbrev pub apply : Op → Payments → Payments
apply (update_status_op id status now) t = (update_status id status now t).1
apply (reconcile_op id status now) t = (reconcile id status now t).1
apply (retry_op id now) t = (retry id now t).1
apply (replay_op id now) t = (replay_dead_letter id now t).1
apply (create_op orm) t = (create orm t).1
apply (create_for_sla_op settings uuid outage now sla) t =
    (create_for_sla_result settings uuid outage now sla t).1

abbrev pub run : List Op → Payments → Payments
run [] t = t
run (op ∷ ops) t = run ops (apply op t)

-- The row after an edit of it.
abbrev edited : (PaymentRow → Result (Option PaymentRow)) → Option PaymentRow → Option PaymentRow
edited f none = none
edited f (some r) = elim (f r) [
  | err e ↦ some r
  | ok o ↦ elim o [ none ↦ some r | some r' ↦ some r' ]
]

other_id : (i j : String) → i ≢ j → (r : PaymentRow) → has_id i r ≡ true → has_id j r ≡ false
other_id i j ne r h = ground (arith, eq_iff r.id i, eq_iff r.id j)

module _ (i : String) (f : PaymentRow → Result (Option PaymentRow)) (t : Payments)
    (writes : Writes f) where
  get-edit_self : get i (edit i f t).1 ≡ edited f (get i t)
  unfolding get edit
  get-edit_self = elim (Option-cases (first (has_id i) t)) [
    | inl missing ↦ ground arith
    | inr (r, found) ↦ go r found (f r) refl
  ]
    where
      go :
          (r : PaymentRow)
          → first (has_id i) t ≡ some r
          → (o : Result (Option PaymentRow)) → f r ≡ o
          → get i (edit i f t).1 ≡ edited f (get i t)
      go r found (err e) p = ground arith
      go r found (ok none) p = ground arith
      go r found (ok (some r')) p = ground (
        arith,
        (writes r r' p).frozen.id,
        first-holds (has_id i) t r found,
        first-update_first (has_id i) (λ _. r') t r found,
      )

  get-edit_ne : (j : String) → i ≢ j → get j (edit i f t).1 ≡ get j t
  unfolding get edit
  get-edit_ne j ne = elim (Option-cases (first (has_id i) t)) [
    | inl missing ↦ ground arith
    | inr (r, found) ↦ go r found (f r) refl
  ]
    where
      go :
          (r : PaymentRow)
          → first (has_id i) t ≡ some r
          → (o : Result (Option PaymentRow)) → f r ≡ o
          → get j (edit i f t).1 ≡ get j t
      go r found (err e) p = ground arith
      go r found (ok none) p = ground arith
      go r found (ok (some r')) p = ground (
        arith,
        first-update_first_other (has_id i) (has_id j) r' t (other_id i j ne)
            (rw (writes r r' p).frozen.id (other_id i j ne r (first-holds (has_id i) t r found))),
      )

  -- An edit changes the row of its id as its row function says, and no other row.
  pub get-edit :
      (j : String) → get j (edit i f t).1 ≡ (if str_eq i j then edited f (get j t) else get j t)
  get-edit j = elim (Bool-cases (str_eq i j)) [
    | inl e ↦
        rw e
          (subst (λ k. get k (edit i f t).1 ≡ edited f (get k t)) ((eq_iff i j).0 e) get-edit_self)
    | inr e ↦ rw e (get-edit_ne j (λ p. cc ((eq_iff i j).1 p)))
  ]

-- A row and what a run makes of it: a chain of writes.
pub data Evolves : PaymentRow → PaymentRow → Type 0 where
  stay : {r : PaymentRow} → Evolves r r
  move : {r s u : PaymentRow} → Moves r s → Evolves s u → Evolves r u

abbrev Continues : PaymentRow → Option PaymentRow → Type 0
Continues r o = (r' : PaymentRow) × (o ≡ some r') × Evolves r r'

edited-Continues :
    (f : PaymentRow → Result (Option PaymentRow)) (r : PaymentRow)
    → Writes f
    → Continues r (edited f (some r))
edited-Continues f r writes = go (f r) refl
  where
    go : (o : Result (Option PaymentRow)) → f r ≡ o → Continues r (edited f (some r))
    go (err e) p = (r, rw (p, edited), stay)
    go (ok none) p = (r, rw (p, edited), stay)
    go (ok (some r')) p = (r', rw (p, edited), move (writes r r' p) stay)

edit-Continues :
    (i j : String) (f : PaymentRow → Result (Option PaymentRow)) (t : Payments) (r : PaymentRow)
    → Writes f
    → get j t ≡ some r
    → Continues r (get j (edit i f t).1)
edit-Continues i j f t r writes found =
    rw (get-edit i f t writes j, found)
      (elim (Bool-cases (str_eq i j)) [
        | inl e ↦ rw e (edited-Continues f r writes)
        | inr e ↦ rw e (r, refl, stay)
      ])

add_row-Continues :
    (orm : PaymentRow) (t : Payments) (j : String) (r : PaymentRow)
    → get j t ≡ some r
    → Continues r (get j (add_row orm t).1)
unfolding get add_row
add_row-Continues orm t j r found =
    (r, ground (arith, first-append (has_id j) t (orm ∷ []) r found), stay)

-- A payment for an SLA result is created, or the table stays as it was.
pub sla_payment_cases :
    (settings : PaymentSettings) (uuid outage : String) (now : ℕ) (sla : SlaResult) (t : Payments)
    → ((create_for_sla_result settings uuid outage now sla t).1 ≡ t)
      ⊎ ((orm : PaymentRow) × ((create_for_sla_result settings uuid outage now sla t).1
            ≡ (create orm t).1)
          × (orm.retry_count ≡ 0)
          × (orm.status ≡ "pending"))
unfolding create_for_sla_result
sla_payment_cases settings uuid outage now sla t = elim (Option-cases sla.id) [
  | inl missing ↦ inl (ground arith)
  | inr (n, e) ↦ elim (Option-cases (get_by_sla_result n t)) [
    | inl new ↦ inr (sla_payment settings uuid outage now n sla, ground arith, refl, refl)
    | inr (old, f) ↦ inl (ground arith)
  ]
]

apply-Continues :
    (op : Op) (t : Payments) (j : String) (r : PaymentRow)
    → get j t ≡ some r
    → Continues r (get j (apply op t))
unfolding update_status reconcile retry replay_dead_letter create
apply-Continues (update_status_op id status now) t j r found =
    edit-Continues id j (update_row status now) t r (update_row-Writes status now) found
apply-Continues (reconcile_op id status now) t j r found =
    edit-Continues id j (update_row status now) t r (update_row-Writes status now) found
apply-Continues (retry_op id now) t j r found =
    edit-Continues id j (retry_row now) t r (retry_row-Writes now) found
apply-Continues (replay_op id now) t j r found =
    edit-Continues id j (replay_row now) t r (replay_row-Writes now) found
apply-Continues (create_op orm) t j r found = add_row-Continues _ t j r found
apply-Continues (create_for_sla_op settings uuid outage now sla) t j r found =
    elim (sla_payment_cases settings uuid outage now sla t) [
      | inl same ↦ rw same (r, found, stay)
      | inr (orm, made, _, _) ↦ rw made (add_row-Continues _ t j r found)
    ]

Evolves-trans : {r s u : PaymentRow} → Evolves r s → Evolves s u → Evolves r u
Evolves-trans stay k = k
Evolves-trans (move m h) k = move m (Evolves-trans h k)

-- Through any run of the methods a stored payment stays stored, and reaches its last form by
-- writes that each keep its payment data and step its status by the policy.
pub run-Evolves :
    (ops : List Op) (t : Payments) (j : String) (r : PaymentRow)
    → get j t ≡ some r
    → (r' : PaymentRow) × (get j (run ops t) ≡ some r') × Evolves r r'
run-Evolves [] t j r found = (r, found, stay)
run-Evolves (op ∷ ops) t j r found =
    let (s, found', h) = apply-Continues op t j r found in
    let (r', last, k) = run-Evolves ops (apply op t) j s found' in (r', last, Evolves-trans h k)
