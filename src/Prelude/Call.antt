-- ===== src/Prelude/Call.antt =====
-- A call that works on a state: it returns or raises, and what it wrote before a raise stays.
use mathlib.Core.Bool.{Bool}
use mathlib.Core.Path.{◌≡◌, ap}
use noc_iq_be.Prelude.Tests.{if◌then◌else◌}
use noc_iq_be.Prelude.Raise.{Error, Result, err, ok}

abbrev pub Call : Type 0 → Type 0 → Type 0
Call S A = S → Result A × S

abbrev bound : {S A B : Type 0} → (A → Call S B) → Result A × S → Result B × S
bound next x = let (result, left) = x in elim result [ err e ↦ (err e, left) | ok a ↦ next a left ]

infixl 5 ◌>>=◌ ◌>>◌
-- What follows a call works on the state that the call leaves, unless it raises.
abbrev pub ◌>>=◌ : {S A B : Type 0} → Call S A → (A → Call S B) → Call S B
◌>>=◌ call next s = bound next (call s)

abbrev pub ◌>>◌ : {S A B : Type 0} → Call S A → Call S B → Call S B
call >> next = call >>= λ _. next

module _ {S A : Type 0} where
  abbrev pub pure : A → Call S A
  pure a s = (ok a, s)

  abbrev pub raise : Error → Call S A
  raise e s = (err e, s)

  abbrev pub lift : Result A → Call S A
  lift r s = (r, s)

  abbrev pub gets : (S → A) → Call S A
  gets f s = (ok (f s), s)

module _ {S : Type 0} where
  abbrev pub modify : (S → S) → Call S (Unit {0})
  modify f s = (ok tt, f s)

  abbrev pub when : Bool → Call S (Unit {0}) → Call S (Unit {0})
  when b call = if b then call else pure tt

module _ {S A B : Type 0} where
  pub bind_ok :
      (call : Call S A) (next : A → Call S B) (s t : S) (a : A)
      → call s ≡ (ok a, t)
      → (call >>= next) s ≡ next a t
  bind_ok call next s t a h = ap (bound next) h

  pub bind_err :
      (call : Call S A) (next : A → Call S B) (s t : S) (e : Error)
      → call s ≡ (err e, t)
      → (call >>= next) s ≡ (err e, t)
  bind_err call next s t e h = ap (bound next) h

  -- What a call keeps, whether it returns or raises, and what follows it keeps, both keep.
  pub bind_keeps {κ} :
      (P : S → Type κ) (call : Call S A) (next : A → Call S B) (s : S)
      → P (call s).1
      → ((a : A) (t : S) → P t → P (next a t).1)
      → P ((call >>= next) s).1
  bind_keeps P call next s p f = go (call s) p
    where
      go : (x : Result A × S) → P x.1 → P (bound next x).1
      go (err e, t) q = q
      go (ok a, t) q = f a t q
