-- ===== src/Payment/Repository.antt =====
-- `PaymentRepository` of app/repositories/payment_repository.py over the table as a list of rows.
-- A failed INSERT raises `IntegrityError` and leaves the table alone; the constraints are those of
-- app/models/orm/payment.py.
use noc_iq_be.Prelude.{
  ℕ, String, Bool, false, ◌||◌, Option, none, some, List, [], ◌∷◌, ◌++◌, str_eq, concat, ◌==◌,
  if◌then◌else◌, filter, first, update_first, value_error, integrity_error, Result, ok, err,
}
use noc_iq_be.Prelude.Int.{abs}
use noc_iq_be.Prelude.Text.{decimal}
use noc_iq_be.Prelude.Dict.{is_some}
use noc_iq_be.Sla.Calculator.{SlaResult, PaymentType, reward, penalty}
use noc_iq_be.Payment.Rows.{PaymentRow, update_row, retry_row, replay_row}

abbrev pub Payments : Type 0
Payments = List PaymentRow

abbrev pub has_id : String → PaymentRow → Bool
has_id id orm = str_eq orm.id id

abbrev pub has_sla_result : ℕ → PaymentRow → Bool
has_sla_result n orm = elim orm.sla_result_id [ none ↦ false | some m ↦ m == n ]

-- NULLs of a unique column do not clash.
abbrev same_text : Option String → Option String → Bool
same_text (some a) (some b) = str_eq a b
same_text _ _ = false

abbrev same_number : Option ℕ → Option ℕ → Bool
same_number (some a) (some b) = a == b
same_number _ _ = false

-- The rows clash on the primary key or on a unique column.
abbrev pub clashes : PaymentRow → PaymentRow → Bool
clashes a b =
    str_eq b.id a.id
    || str_eq b.transaction_hash a.transaction_hash
    || same_number b.sla_result_id a.sla_result_id
    || same_text b.idempotency_key a.idempotency_key

unfoldable pub add_row : PaymentRow → Payments → Result PaymentRow × Payments
add_row orm t =
    if is_some (first (clashes orm) t) then (err integrity_error, t) else (ok orm, t ++ orm ∷ [])

-- `create` passes on all but the retry and dead-letter columns, which take their defaults.
unfoldable pub create : PaymentRow → Payments → Result PaymentRow × Payments
unfolding add_row
create orm = add_row (record orm {
  retry_count = 0;
  last_retried_at = none;
  failure_taxonomy = none;
  dead_letter_reason = none;
  dead_lettered_at = none;
})

-- `create_with_submit` drops `confirmed_at` and `idempotency_key` too, and flushes.
unfoldable pub create_with_submit : PaymentRow → Payments → Result PaymentRow × Payments
unfolding add_row
create_with_submit orm = add_row (record orm {
  confirmed_at = none;
  retry_count = 0;
  last_retried_at = none;
  failure_taxonomy = none;
  idempotency_key = none;
  dead_letter_reason = none;
  dead_lettered_at = none;
})

unfoldable pub get : String → Payments → Option PaymentRow
get id t = first (has_id id) t

unfoldable pub get_by_sla_result : ℕ → Payments → Option PaymentRow
get_by_sla_result n t = first (has_sla_result n) t

unfoldable pub list_by_outage : String → Payments → Payments
list_by_outage outage t = filter (λ orm. str_eq orm.outage_id outage) t

-- The common shape of the methods that change a row: query it by its id, return None if there is
-- none, and write what the method makes of it.
abbrev write_back :
    String → Payments → Result (Option PaymentRow) → Result (Option PaymentRow) × Payments
write_back id t (err e) = (err e, t)
write_back id t (ok none) = (ok none, t)
write_back id t (ok (some orm)) = (ok (some orm), update_first (has_id id) (λ _. orm) t)

abbrev edit_found :
    String
    → (PaymentRow → Result (Option PaymentRow))
    → Payments
    → Option PaymentRow
    → Result (Option PaymentRow) × Payments
edit_found id f t none = (ok none, t)
edit_found id f t (some orm) = write_back id t (f orm)

unfoldable pub edit :
    String
    → (PaymentRow → Result (Option PaymentRow))
    → Payments
    → Result (Option PaymentRow) × Payments
edit id f t = edit_found id f t (first (has_id id) t)

unfoldable pub update_status :
    String → String → ℕ → Payments → Result (Option PaymentRow) × Payments
unfolding edit
update_status id status now = edit id (update_row status now)

unfoldable pub reconcile : String → String → ℕ → Payments → Result (Option PaymentRow) × Payments
unfolding edit
reconcile id new_status now = edit id (update_row new_status now)

unfoldable pub retry : String → ℕ → Payments → Result (Option PaymentRow) × Payments
unfolding edit
retry id now = edit id (retry_row now)

unfoldable pub replay_dead_letter : String → ℕ → Payments → Result (Option PaymentRow) × Payments
unfolding edit
replay_dead_letter id now = edit id (replay_row now)

-- The settings that a payment of an SLA result takes.
pub record PaymentSettings : Type 0 where
  pub asset_code : String
  pub from_address : String
  pub to_address : String

abbrev pub type_text : PaymentType → String
type_text reward = "reward"
type_text penalty = "penalty"

-- `uuid` is `uuid4().hex[:12]`.
unfoldable pub sla_payment :
    PaymentSettings → (uuid outage : String) → ℕ → ℕ → SlaResult → PaymentRow
sla_payment settings uuid outage now n sla = record {
  id = concat "pay_" uuid;
  transaction_hash = concat "sla-" (concat (decimal n) (concat "-" (type_text sla.payment_type)));
  type = type_text sla.payment_type;
  amount = abs sla.amount;
  asset_code = settings.asset_code;
  from_address = settings.from_address;
  to_address = settings.to_address;
  status = "pending";
  outage_id = outage;
  sla_result_id = some n;
  created_at = now;
  confirmed_at = none;
  retry_count = 0;
  last_retried_at = none;
  failure_taxonomy = none;
  idempotency_key =
      some (concat "sla_result_" (concat (decimal n) (concat "_" (type_text sla.payment_type))));
  dead_letter_reason = none;
  dead_lettered_at = none;
}

abbrev or_create : PaymentRow → Payments → Option PaymentRow → Result PaymentRow × Payments
or_create orm t none = create orm t
or_create orm t (some existing) = (ok existing, t)

abbrev create_for_id :
    PaymentSettings
    → (uuid outage : String) → ℕ
    → SlaResult
    → Payments
    → Option ℕ
    → Result PaymentRow × Payments
create_for_id settings uuid outage now sla t none =
    (err (value_error "SLA result id is required to generate a payment record"), t)
create_for_id settings uuid outage now sla t (some n) =
    or_create (sla_payment settings uuid outage now n sla) t (get_by_sla_result n t)

unfoldable pub create_for_sla_result :
    PaymentSettings
    → (uuid outage : String) → ℕ
    → SlaResult
    → Payments
    → Result PaymentRow × Payments
unfolding create get_by_sla_result sla_payment
create_for_sla_result settings uuid outage now sla t =
    create_for_id settings uuid outage now sla t sla.id
