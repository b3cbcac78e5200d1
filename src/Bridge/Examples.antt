-- ===== src/Bridge/Examples.antt =====
-- Tests and examples of the contract bridge.
use noc_iq_be.Prelude.{
  ℕ, ◌+◌, ◌≤◌, ◌<◌, String, ◌≡◌, refl, ◌↔◌, inl, Bool, true, false, Option, none, some, List, [],
  ◌∷◌, arith, str_eq, length, filter, count, Result, ok,
}
use noc_iq_be.Prelude.Dict.{lookup, insert}
use noc_iq_be.Prelude.Text.{decimal}
use noc_iq_be.Cache
use noc_iq_be.Bridge.Breaker.{new, record_failure, allow_request}
use noc_iq_be.Bridge.BreakerRuns.{failure, run, denied_in_cooldown}
use noc_iq_be.Bridge.Fallback.{
  Upstream, FallbackResult, Settings, Service, try_upstreams, get_breaker, execute_with_fallback,
}
use noc_iq_be.Bridge.FallbackResults.{Offers, fresh_then_stale}
use noc_iq_be.Prelude.Int.{ℤ, pos}
use noc_iq_be.Bridge.Guard.{Params, GuardSettings, stamps, within, pre_check}
use noc_iq_be.Bridge.GuardChecks.{IsPermitted, pre_check_iff}
use noc_iq_be.Bridge.GuardRuns.{passed_times, rate_limited}
use noc_iq_be.Bridge.Balance.{Line, TrustlineResult, account, assert_trustline_ready}
use noc_iq_be.Bridge.BalanceReads.{IsFunded, trustline_ready_iff}

denied_in_cooldown_example :
    (allow_request 79 (run (failure 10 ∷ failure 20 ∷ []) (new 2 60))).0 ≡ false
denied_in_cooldown_example = denied_in_cooldown 2 60 (10 ∷ []) 20 79 (omega arith)

abbrev two_upstreams : Settings
two_upstreams = record { fallback_enabled = true; breaker_threshold = 3; breaker_cooldown = 60 }

abbrev service : Service ℕ
service = record { cache = Cache.empty 30; breakers = [] }

abbrev answering : Option ℕ → ℕ → Upstream ℕ
answering o now = record {
  outcome = o;
  asked_at = now;
  started_at = now;
  ended_at = now + 2;
  settled_at = now + 3;
}

abbrev fresh_answer : FallbackResult ℕ
fresh_answer = record { result = 7; source = "get_sla:upstream_1"; latency = 2; stale = false }

fresh_then_stale_example :
    let s' =
      (execute_with_fallback two_upstreams "get_sla" "o1"
        (answering none 10 ∷ answering (some 7) 20 ∷ [])
        30
        service).1 in
    Offers 7 (answering none 10 ∷ answering (some 7) 20 ∷ [])
    × ((execute_with_fallback two_upstreams "get_sla" "o1" (answering none 100 ∷ []) 110 s').0
        ≡ ok (record { result = 7; source = "stale_cache"; latency = 0; stale = true }))
unfolding execute_with_fallback try_upstreams get_breaker record_failure allow_request decimal
    lookup insert
fresh_then_stale_example =
    fresh_then_stale two_upstreams "get_sla" "o1" (answering none 10 ∷ answering (some 7) 20 ∷ [])
      (answering none 100 ∷ []) 30 110 service fresh_answer refl refl (refl, tt)

abbrev guard : GuardSettings
guard = record {
  contract_execution_mode = "live";
  allowed_contract_addresses = "C1" ∷ [];
  stellar_network = "testnet";
  max_contract_execution_amount = pos 1000;
  contract_call_rate_limit = 2;
  rate_window = 60;
}

abbrev call_of : ℤ → Params
call_of amount = record {
  execution_mode = some "live";
  contract_address = some "C1";
  network = none;
  amount = some amount;
  user_id = some "ann";
}

pre_check_iff_example : ((pre_check guard (call_of (pos 500)) 100 []).0.passed ≡ true) ↔ (
    IsPermitted guard (call_of (pos 500))
    × (length (filter (within guard 100) (stamps guard "ann" [])) < 2))
pre_check_iff_example = pre_check_iff guard (call_of (pos 500)) 100 []

abbrev four_calls : List (Params × ℕ)
four_calls =
    (call_of (pos 1), 10)
    ∷ (call_of (pos 2), 20)
    ∷ (call_of (pos 3), 30)
    ∷ (call_of (pos 4), 75)
    ∷ []

rate_limited_example : count (within guard 80) (passed_times guard "ann" four_calls [] []) ≤ 2
rate_limited_example =
    rate_limited guard "ann" four_calls 80
      (omega arith, (omega arith, (omega arith, (omega arith, omega arith))))

abbrev usdc_line : Line
usdc_line = record {
  asset_code = some "USDC";
  asset_issuer = some "GI";
  balance = some "5.0";
  limit = some "100.0";
}

abbrev is_zero : String → Result Bool
is_zero text = ok (str_eq text "0")

trustline_ready_iff_example :
    ((r : TrustlineResult) × (assert_trustline_ready is_zero (account (usdc_line ∷ [])) "USDC" "GI"
        ≡ ok (inl r)))
    ↔ IsFunded is_zero "USDC" "GI" (account (usdc_line ∷ []))
trustline_ready_iff_example = trustline_ready_iff is_zero "USDC" "GI" (account (usdc_line ∷ []))
