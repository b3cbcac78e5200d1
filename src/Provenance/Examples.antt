-- ===== src/Provenance/Examples.antt =====
-- An example of the transactions' records.
use noc_iq_be.Prelude.{◌≡◌, none, some, List, [], ◌∷◌}
use noc_iq_be.Provenance.{verified, get_status}
use noc_iq_be.Provenance.Histories.{Op, submit_op, confirm_op, verify_op, run, get_status-run}

abbrev calls : List Op
calls =
    submit_op "tx1" "testnet" (some 5) 10
    ∷ submit_op "tx2" "testnet" none 11
    ∷ confirm_op "tx1" (some 6) 12
    ∷ verify_op "tx3" 13
    ∷ verify_op "tx1" 14
    ∷ []

get_status-run_example :
    get_status "tx1" (run calls [])
    ≡ some (record {
      tx_hash = "tx1";
      network = "testnet";
      submitted_at = some 10;
      confirmed_at = some 12;
      verified_at = some 14;
      status = verified;
      block_number = some 6;
    })
unfolding get_status
get_status-run_example = get_status-run "tx1" calls []
