-- ===== src/Payment/Status.antt =====
-- The status policy of app/models/payment.py: `PaymentStatus`, `VALID_TRANSITIONS` and
-- `validate_transition`. A frozenset is a list.
use noc_iq_be.Prelude.{
  String, Bool, false, Option, none, some, List, [], ◌∷◌, map, str_eq, if◌then◌else◌, first,
  payment_transition_error, Result, ok, err,
}
use noc_iq_be.Prelude.Dict.{is_some}

pub data PaymentStatus : Type 0 where
  pending confirmed failed dead_letter : PaymentStatus

-- `status.value`
abbrev pub value : PaymentStatus → String
value pending = "pending"
value confirmed = "confirmed"
value failed = "failed"
value dead_letter = "dead_letter"

-- `PaymentStatus(text)`, where `none` is the ValueError.
unfoldable pub of_text : String → Option PaymentStatus
of_text s =
    if str_eq s "pending"
    then some pending
    else if str_eq s "confirmed"
    then some confirmed
    else if str_eq s "failed"
    then some failed
    else if str_eq s "dead_letter"
    then some dead_letter
    else none

abbrev pub valid_transitions : PaymentStatus → List PaymentStatus
valid_transitions pending = confirmed ∷ failed ∷ []
valid_transitions confirmed = []
valid_transitions failed = pending ∷ []
valid_transitions dead_letter = pending ∷ []

abbrev pub same_status : PaymentStatus → PaymentStatus → Bool
same_status a b = str_eq (value a) (value b)

abbrev pub allowed : Option PaymentStatus → List String
allowed none = []
allowed (some s) = map value (valid_transitions s)

abbrev pub permits : Option PaymentStatus → Option PaymentStatus → Bool
permits (some c) (some n) = is_some (first (same_status n) (valid_transitions c))
permits _ _ = false

-- Both raising branches carry the same data: the two texts, and the texts that the current status
-- allows, none if it is no status.
unfoldable pub validate_transition : String → String → Result (Unit {0})
validate_transition current next_status =
    if permits (of_text current) (of_text next_status)
    then ok tt
    else err (payment_transition_error current next_status (allowed (of_text current)))

-- The policy as a relation.
infix 40 ◌⟶◌
pub data ◌⟶◌ : PaymentStatus → PaymentStatus → Type 0 where
  confirm : pending ⟶ confirmed
  fail : pending ⟶ failed
  retry : failed ⟶ pending
  replay : dead_letter ⟶ pending
