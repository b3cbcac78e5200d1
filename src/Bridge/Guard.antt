-- ===== src/Bridge/Guard.antt =====
-- `ExecutionGuard` of app/services/contracts/execution_guard.py. A float is a whole number of the
-- smallest unit of its quantity; the clock's `60.0` seconds are the field `rate_window` in ticks. The
-- text of a refusal's detail is not kept.
use noc_iq_be.Prelude.{
  ℕ, ◌+◌, String, Bool, true, false, ◌&&◌, ◌||◌, not, Option, none, some, List, [], ◌∷◌, ◌++◌,
  str_eq, ltb, leb, if◌then◌else◌, length, filter,
}
use noc_iq_be.Prelude.Int.{ℤ, pos, ltb_ℤ}
use noc_iq_be.Prelude.Dict.{Dict, lookup, insert}

pub data Check : Type 0 where
  execution_mode contract_address network amount rate_limit all_checks post_execution : Check

pub record GuardCheckResult : Type 0 where
  pub passed : Bool
  pub check : Check

-- `params.get(...)` of each key that the guard reads.
pub record Params : Type 0 where
  pub execution_mode : Option String
  pub contract_address : Option String
  pub network : Option String
  pub amount : Option ℤ
  pub user_id : Option String

pub record GuardSettings : Type 0 where
  pub contract_execution_mode : String
  pub allowed_contract_addresses : List String
  pub stellar_network : String
  pub max_contract_execution_amount : ℤ
  pub contract_call_rate_limit : ℕ
  pub rate_window : ℕ

abbrev pub RateTracker : Type 0
RateTracker = Dict (List ℕ)

abbrev pub get_or_text : String → Option String → String
get_or_text default none = default
get_or_text default (some s) = s

abbrev pub user_of : Params → String
user_of params = get_or_text "anonymous" params.user_id

abbrev pub pass : Check → GuardCheckResult
pass c = record { passed = true; check = c }

abbrev pub refuse : Check → GuardCheckResult
refuse c = record { passed = false; check = c }

-- `value and value != configured`: an empty text is falsy.
abbrev pub differs : Option String → String → Bool
differs none configured = false
differs (some s) configured = not (str_eq s "") && not (str_eq s configured)

abbrev pub is_in : String → List String → Bool
is_in a [] = false
is_in a (x ∷ xs) = str_eq x a || is_in a xs

abbrev pub is_empty : List String → Bool
is_empty [] = true
is_empty (x ∷ xs) = false

abbrev pub exceeds : Option ℤ → ℤ → Bool
exceeds none max_amount = false
exceeds (some a) max_amount = ltb_ℤ (pos 0) max_amount && ltb_ℤ max_amount a

module _ (settings : GuardSettings) where
  unfoldable pub check_execution_mode : Params → GuardCheckResult
  check_execution_mode params =
      if differs params.execution_mode settings.contract_execution_mode
      then refuse execution_mode
      else pass execution_mode

  unfoldable pub check_contract_address : Params → GuardCheckResult
  check_contract_address params =
      let address = get_or_text "" params.contract_address in
      if not (is_empty settings.allowed_contract_addresses)
        && (not (str_eq address "") && not (is_in address settings.allowed_contract_addresses))
      then refuse contract_address
      else pass contract_address

  unfoldable pub check_network : Params → GuardCheckResult
  check_network params =
      if differs params.network settings.stellar_network then refuse network else pass network

  unfoldable pub check_amount : Params → GuardCheckResult
  check_amount params =
      if exceeds params.amount settings.max_contract_execution_amount
      then refuse amount
      else pass amount

  -- now - t < window
  abbrev pub within : ℕ → ℕ → Bool
  within now t = ltb now (t + settings.rate_window)

  -- `self._rate_tracker.get(user_id, [])`
  abbrev or_empty : Option (List ℕ) → List ℕ
  or_empty none = []
  or_empty (some ts) = ts

  unfoldable pub stamps : String → RateTracker → List ℕ
  stamps user tracker = or_empty (lookup user tracker)

  unfoldable pub check_rate_limit : Params → ℕ → RateTracker → GuardCheckResult × RateTracker
  unfolding stamps
  check_rate_limit params now tracker =
      let user = user_of params in
      let timestamps = filter (within now) (stamps user tracker) in
      let tracker' = insert user timestamps tracker in
      if leb settings.contract_call_rate_limit (length timestamps)
      then (refuse rate_limit, tracker')
      else (pass rate_limit, insert user (timestamps ++ now ∷ []) tracker')

  abbrev rate_checked : GuardCheckResult × RateTracker → GuardCheckResult × RateTracker
  rate_checked (r, tracker) = (if r.passed then pass all_checks else r, tracker)

  unfoldable pub pre_check : Params → ℕ → RateTracker → GuardCheckResult × RateTracker
  pre_check params now tracker =
      let mode = check_execution_mode params in
      let address = check_contract_address params in
      let target = check_network params in
      let amount_result = check_amount params in
      if not mode.passed
      then (mode, tracker)
      else if not address.passed
      then (address, tracker)
      else if not target.passed
      then (target, tracker)
      else if not amount_result.passed
      then (amount_result, tracker)
      else rate_checked (check_rate_limit params now tracker)

-- `post_check` of what the contract returned.
unfoldable pub post_check : {A : Type 0} → Option A → GuardCheckResult
post_check none = refuse post_execution
post_check (some result) = pass post_execution
