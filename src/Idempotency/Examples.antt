-- ===== src/Idempotency/Examples.antt =====
-- Examples of the stored responses.
use noc_iq_be.Prelude.{◌≡◌, refl, [], length}
use noc_iq_be.Idempotency.{State, store}

abbrev fresh_state : State
fresh_state = record {
  rows = [];
  metrics = record { hits = 0; misses = 0; stored = 0; expired_cleaned = 0 };
}

abbrev two_keys : State
two_keys = (store 1 "b" "{}" 200 4000 (store 1 "a" "{}" 200 100 fresh_state).1).1

two_are_stored : length two_keys.rows ≡ 2
unfolding store
two_are_stored = refl
