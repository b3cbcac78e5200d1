-- ===== src/Outage.antt =====
-- `OutageStateMachine` of app/core/outage_state_machine.py. The text of an error is kept without the
-- statuses that it interpolates.
pub mod Moves
pub mod Repository
pub mod Edits
pub mod Changes
pub mod Resolution
pub mod Reports
mod Examples
use noc_iq_be.Prelude.{
  String, List, [], ◌∷◌, ◌++◌, Bool, true, false, ◌||◌, Option, none, some, str_eq, if◌then◌else◌,
  Result, ok, err, Error, value_error,
}

-- VALID_TRANSITIONS.get(status), a set being a list.
abbrev pub next_statuses : String → Option (List String)
next_statuses status =
    if str_eq status "investigating"
    then some ("active" ∷ "resolved" ∷ [])
    else if str_eq status "active"
    then some ("resolved" ∷ [])
    else if str_eq status "resolved"
    then some []
    else none

abbrev pub is_in : String → List String → Bool
is_in s [] = false
is_in s (x ∷ xs) = str_eq x s || is_in s xs

abbrev pub or_empty : Option (List String) → List String
or_empty none = []
or_empty (some xs) = xs

unfoldable pub can_transition : (from_status to_status : String) → Bool
can_transition from_status to_status = is_in to_status (or_empty (next_statuses from_status))

abbrev pub unknown_status : Error
unknown_status = value_error "Unknown outage status"

unfoldable pub validate_transition : (from_status to_status : String) → Result (Unit {0})
unfolding can_transition
validate_transition from_status to_status = elim (next_statuses from_status) [
  | none ↦ err unknown_status
  | some _ ↦
      if can_transition from_status to_status then ok tt else err (value_error "Invalid transition")
]

unfoldable pub get_valid_next_states : String → Result (List String)
get_valid_next_states from_status = elim (next_statuses from_status) [
  | none ↦ err unknown_status
  | some statuses ↦ ok statuses
]

-- What `transition` writes to the audit log.
pub record Transition : Type 0 where
  pub outage_id : String
  pub from_status : String
  pub to_status : String

unfoldable pub transition :
    (outage_id from_status to_status : String)
    → List Transition
    → Result (Unit {0}) × List Transition
unfolding validate_transition
transition outage_id from_status to_status log = elim (validate_transition from_status to_status) [
  | err e ↦ (err e, log)
  | ok _ ↦ (
    ok tt,
    log ++ record { outage_id = outage_id; from_status = from_status; to_status = to_status } ∷ [],
  )
]
