-- ===== src/Payment/Rules.antt =====
-- What the status policy allows, and what the methods keep of the row that they change.
use noc_iq_be.Prelude.{
  ℕ, ◌≤◌, String, ◌≡◌, refl, ◌↔◌, inl, inr, true, Option, none, some, arith, eq_iff, Bool-cases,
  payment_transition_error, Result, ok, err,
}
use noc_iq_be.Payment.Status.{
  PaymentStatus, pending, confirmed, failed, dead_letter, value, of_text, permits,
  valid_transitions, allowed, validate_transition, ◌⟶◌, confirm, fail, replay,
}
use noc_iq_be.Payment.Status
use noc_iq_be.Payment.Rows.{PaymentRow, max_retries, update_row, retry_row, replay_row}

pub value-of_text : (s : String) (p : PaymentStatus) → of_text s ≡ some p → s ≡ value p
unfolding of_text
value-of_text s p h =
    ground
      (arith, eq_iff s "pending", eq_iff s "confirmed", eq_iff s "failed", eq_iff s "dead_letter")

pub of_text-value : (p : PaymentStatus) → of_text (value p) ≡ some p
unfolding of_text
of_text-value pending = refl
of_text-value confirmed = refl
of_text-value failed = refl
of_text-value dead_letter = refl

-- The two texts name statuses that the policy joins.
abbrev pub Allowed : String → String → Type 0
Allowed current next_status =
    (c : PaymentStatus) × (n : PaymentStatus) × (current ≡ value c)
    × (next_status ≡ value n)
    × (c ⟶ n)

⟶-permits : (c n : PaymentStatus) → permits (some c) (some n) ≡ true → c ⟶ n
⟶-permits pending confirmed h = confirm
⟶-permits pending failed h = fail
⟶-permits failed pending h = Status.retry
⟶-permits dead_letter pending h = replay
⟶-permits _ _ h = cc

permits-⟶ : {c n : PaymentStatus} → c ⟶ n → permits (some c) (some n) ≡ true
permits-⟶ confirm = refl
permits-⟶ fail = refl
permits-⟶ Status.retry = refl
permits-⟶ replay = refl

permits-some :
    (c n : Option PaymentStatus)
    → permits c n ≡ true
    → (a : PaymentStatus) × (b : PaymentStatus) × (c ≡ some a) × (n ≡ some b) × (a ⟶ b)
permits-some (some a) (some b) h = (a, b, refl, refl, ⟶-permits a b h)
permits-some (some a) none h = cc
permits-some none n h = cc

permits-validate :
    (current next_status : String)
    → validate_transition current next_status ≡ ok tt
    → permits (of_text current) (of_text next_status) ≡ true
unfolding validate_transition
permits-validate current next_status h = ground arith

-- A transition between two texts is accepted exactly when they name statuses that the policy relates.
pub validate_transition_iff :
    (current next_status : String)
    → (validate_transition current next_status ≡ ok tt) ↔ Allowed current next_status
unfolding validate_transition
validate_transition_iff current next_status = (
  λ h.
      let (a, b, p, q, e) = permits-some _ _ (permits-validate current next_status h) in
      (a, b, value-of_text current a p, value-of_text next_status b q, e),
  λ (a, b, p, q, e). rw (p, q, of_text-value a, of_text-value b, permits-⟶ e),
)

-- A transition that the policy does not relate raises the transition error with the two texts and the
-- statuses that the current one allows.
pub validate_transition_error :
    (current next_status : String)
    → ¬ Allowed current next_status
    → validate_transition current next_status
      ≡ err (payment_transition_error current next_status (allowed (of_text current)))
validate_transition_error current next_status no_edge =
    elim (Bool-cases (permits (of_text current) (of_text next_status))) [
      | inl e ↦ absurd (
          no_edge
            ((validate_transition_iff current next_status).0 (unfold validate_transition in rw e)))
      | inr e ↦ unfold validate_transition in rw e
    ]

-- What no method changes of a row.
pub record Frozen (r r' : PaymentRow) : Type 0 where
  pub id : r'.id ≡ r.id
  pub transaction_hash : r'.transaction_hash ≡ r.transaction_hash
  pub type : r'.type ≡ r.type
  pub amount : r'.amount ≡ r.amount
  pub asset_code : r'.asset_code ≡ r.asset_code
  pub from_address : r'.from_address ≡ r.from_address
  pub to_address : r'.to_address ≡ r.to_address
  pub outage_id : r'.outage_id ≡ r.outage_id
  pub sla_result_id : r'.sla_result_id ≡ r.sla_result_id
  pub created_at : r'.created_at ≡ r.created_at
  pub idempotency_key : r'.idempotency_key ≡ r.idempotency_key

-- A row that is written back differs in its status by a step of the policy, and keeps its identity
-- and its payment data.
pub record Moves (r r' : PaymentRow) : Type 0 where
  pub frozen : Frozen r r'
  pub step : Allowed r.status r'.status

-- A write of a method, by its row function.
abbrev pub Writes : (PaymentRow → Result (Option PaymentRow)) → Type 0
Writes f = (r r' : PaymentRow) → f r ≡ ok (some r') → Moves r r'

module _ (now : ℕ) (r r' : PaymentRow) where
  update_row_kept :
      (status : String)
      → update_row status now r ≡ ok (some r')
      → Frozen r r' × (validate_transition r.status r'.status ≡ ok tt)
  unfolding update_row
  update_row_kept status h = ground arith

  retry_row_kept :
      retry_row now r ≡ ok (some r')
      → Frozen r r' × (validate_transition r.status r'.status ≡ ok tt)
  unfolding retry_row
  retry_row_kept h = ground arith

  replay_row_kept :
      replay_row now r ≡ ok (some r')
      → Frozen r r' × (validate_transition r.status r'.status ≡ ok tt)
  unfolding replay_row
  replay_row_kept h = ground arith

  -- The retry counter passes its bound by no method.
  pub retry_row_bounded : retry_row now r ≡ ok (some r') → r'.retry_count ≤ max_retries
  unfolding retry_row
  retry_row_bounded h = ground arith

  pub update_row_count :
      (status : String) → update_row status now r ≡ ok (some r') → r'.retry_count ≡ r.retry_count
  unfolding update_row
  update_row_count status h = ground arith

  pub replay_row_count : replay_row now r ≡ ok (some r') → r'.retry_count ≡ 0
  unfolding replay_row
  replay_row_count h = ground arith

to_Moves :
    (r r' : PaymentRow)
    → Frozen r r' × (validate_transition r.status r'.status ≡ ok tt)
    → Moves r r'
to_Moves r r' h = record { frozen = h.0; step = (validate_transition_iff r.status r'.status).0 h.1 }

pub update_row-Writes : (status : String) (now : ℕ) → Writes (update_row status now)
update_row-Writes status now r r' h = to_Moves r r' (update_row_kept now r r' status h)

pub retry_row-Writes : (now : ℕ) → Writes (retry_row now)
retry_row-Writes now r r' h = to_Moves r r' (retry_row_kept now r r' h)

pub replay_row-Writes : (now : ℕ) → Writes (replay_row now)
replay_row-Writes now r r' h = to_Moves r r' (replay_row_kept now r r' h)

pub value_injective : (a b : PaymentStatus) → value a ≡ value b → a ≡ b
value_injective a b h = cc (of_text-value a, of_text-value b, h)
