-- ===== src/Prelude/Raise.antt =====
-- Python's exceptions as values: a call returns, or raises one of the exceptions that the code
-- raises itself or lets through. A message is kept without the data that it interpolates.
use Prim.Native.Nat.{ℕ}
use Prim.Native.String.{String}
use mathlib.Core.List.{List}

pub data Error : Type 0 where
  value_error : String → Error
  runtime_error : String → Error
  -- PaymentTransitionError: the current status, the next one and the allowed set
  payment_transition_error : String → String → List String → Error
  -- HTTPException: the status code and the detail
  http_exception : ℕ → String → Error
  type_error attribute_error key_error integrity_error flush_error : Error

pub data Result {ℓ} (A : Type ℓ) : Type ℓ where
  err : Error → Result A  -- raised
  ok : A → Result A  -- returned

infixl 5 ◌>>=◌ ◌>>◌
-- What follows a call runs if the call returns.
abbrev pub ◌>>=◌ {ℓ κ} : {A : Type ℓ} → {B : Type κ} → Result A → (A → Result B) → Result B
r >>= next = elim r [ err e ↦ err e | ok a ↦ next a ]

abbrev pub ◌>>◌ {ℓ} : {B : Type ℓ} → Result (Unit {0}) → Result B → Result B
r >> next = elim r [ err e ↦ err e | ok _ ↦ next ]
