-- ===== src/Payment/Examples.antt =====
-- Tests and examples of the payments.
use noc_iq_be.Prelude.{
  ok, ℕ, ◌≤◌, String, ◌≡◌, refl, none, some, List, [], ◌∷◌, arith, concat, count,
}
use noc_iq_be.Prelude.Int.{pos}
use noc_iq_be.Prelude.Text.{decimal}
use noc_iq_be.Sla.Config.{severity_config}
use noc_iq_be.Sla.Calculator.{SlaResult, assess}
use noc_iq_be.Payment.Rows.{PaymentRow}
use noc_iq_be.Payment.Repository.{
  Payments, PaymentSettings, has_sla_result, add_row, create, get, get_by_sla_result, sla_payment,
  create_for_sla_result,
}
use noc_iq_be.Payment.Traces.{
  Op, update_status_op, retry_op, reconcile_op, run, Evolves, run-Evolves,
}
use noc_iq_be.Payment.Finality.{confirmed_final}
use noc_iq_be.Payment.Creation.{create_for_sla_result_idem, run-IsSingle}
use noc_iq_be.Prelude.Sorting.{sort_by}
use noc_iq_be.Payment.Listing.{Filters}
use noc_iq_be.Payment.Cursor.{newer}
use noc_iq_be.Payment.Concrete.{lex, concrete}

abbrev row : String → String → ℕ → PaymentRow
row id status n = record {
  id = id;
  transaction_hash = concat "tx-" id;
  type = "reward";
  amount = 750;
  asset_code = "USDC";
  from_address = "GPOOL";
  to_address = "GOPERATOR";
  status = status;
  outage_id = "o1";
  sla_result_id = some n;
  created_at = 10;
  confirmed_at = none;
  retry_count = 0;
  last_retried_at = none;
  failure_taxonomy = none;
  idempotency_key = none;
  dead_letter_reason = none;
  dead_lettered_at = none;
}

abbrev table : Payments
table = row "pay_1" "confirmed" 1 ∷ row "pay_2" "failed" 2 ∷ []

abbrev calls : List Op
calls =
    retry_op "pay_2" 20
    ∷ update_status_op "pay_1" "pending" 21
    ∷ reconcile_op "pay_2" "confirmed" 22
    ∷ []

run-Evolves_example :
    (r : PaymentRow) × (get "pay_2" (run calls table) ≡ some r) × Evolves (row "pay_2" "failed" 2) r
unfolding get
run-Evolves_example = run-Evolves calls table "pay_2" (row "pay_2" "failed" 2) refl

confirmed_final_example : get "pay_1" (run calls table) ≡ some (row "pay_1" "confirmed" 1)
unfolding get
confirmed_final_example = confirmed_final calls table "pay_1" (row "pay_1" "confirmed" 1) refl refl

abbrev shop : PaymentSettings
shop = record { asset_code = "USDC"; from_address = "GPOOL"; to_address = "GOPERATOR" }

abbrev verdict_of_7 : SlaResult
verdict_of_7 = record (assess (severity_config 30 50 750) "o1" (pos 20) "v1" "default") {
  id = some 7;
}

abbrev first_payment : PaymentRow
first_payment = sla_payment shop "a" "o1" 30 7 verdict_of_7

create_for_sla_result_idem_example :
    create_for_sla_result shop "b" "o2" 31 verdict_of_7
      (create_for_sla_result shop "a" "o1" 30 verdict_of_7 table).1
    ≡ (ok first_payment, (create_for_sla_result shop "a" "o1" 30 verdict_of_7 table).1)
unfolding create_for_sla_result create add_row get_by_sla_result sla_payment decimal assess
create_for_sla_result_idem_example =
    create_for_sla_result_idem shop shop "a" "b" "o1" "o2" 30 31 verdict_of_7 table first_payment
      refl

run-IsSingle_example : count (has_sla_result 2) (run calls table) ≤ 1
run-IsSingle_example = run-IsSingle 2 calls table (omega arith)

abbrev three_payments : Payments
three_payments = row "pay_1" "confirmed" 1 ∷ row "pay_3" "failed" 3 ∷ row "pay_2" "failed" 2 ∷ []

abbrev all_payments : Filters
all_payments = record { status = none; outage_id = some "o1"; type = none }

in_order :
    sort_by (newer concrete) three_payments
    ≡ row "pay_3" "failed" 3 ∷ row "pay_2" "failed" 2 ∷ row "pay_1" "confirmed" 1 ∷ []
unfolding lex
in_order = refl
