-- ===== src/Payment/Rows.antt =====
-- A row of `payment_transactions` (app/models/orm/payment.py), and what each method of
-- `PaymentRepository` does to a row that it has found: it raises, returns None, or writes the row
-- back. Times are ticks of the clock that the caller reads. The amounts are whole: they come from
-- `SLAResult.amount`, an int, and `float` keeps ints below 2 ^ 53 exact.
use noc_iq_be.Prelude.{
  ℕ, ◌+◌, String, not, Option, none, some, str_eq, leb, if◌then◌else◌, Result, ok, ◌>>◌,
}
use noc_iq_be.Payment.Status.{validate_transition}

pub record PaymentRow : Type 0 where
  pub id : String
  pub transaction_hash : String
  pub type : String
  pub amount : ℕ
  pub asset_code : String
  pub from_address : String
  pub to_address : String
  pub status : String
  pub outage_id : String
  pub sla_result_id : Option ℕ
  pub created_at : ℕ
  pub confirmed_at : Option ℕ
  pub retry_count : ℕ
  pub last_retried_at : Option ℕ
  pub failure_taxonomy : Option String
  pub idempotency_key : Option String
  pub dead_letter_reason : Option String
  pub dead_lettered_at : Option ℕ

abbrev pub max_retries : ℕ
max_retries = 3

-- `orm.status = status; if status == "confirmed": orm.confirmed_at = now`
unfoldable pub set_status : String → ℕ → PaymentRow → PaymentRow
set_status status now orm =
    if str_eq status "confirmed"
    then record orm { status = status; confirmed_at = some now }
    else record orm { status = status }

-- `update_status` and `reconcile` of a row have the same text.
unfoldable pub update_row : String → ℕ → PaymentRow → Result (Option PaymentRow)
unfolding set_status
update_row status now orm = do
  validate_transition orm.status status
  ok (some (set_status status now orm))

unfoldable pub retry_row : ℕ → PaymentRow → Result (Option PaymentRow)
retry_row now orm = if leb max_retries orm.retry_count then ok none else do
  validate_transition orm.status "pending"
  ok (
      some (record orm {
        retry_count = orm.retry_count + 1;
        last_retried_at = some now;
        status = "pending";
      }))

unfoldable pub replay_row : ℕ → PaymentRow → Result (Option PaymentRow)
replay_row now orm = if not (str_eq orm.status "dead_letter") then ok none else do
  validate_transition orm.status "pending"
  ok (
      some (record orm {
        status = "pending";
        retry_count = 0;
        last_retried_at = some now;
        dead_letter_reason = none;
        dead_lettered_at = none;
      }))
