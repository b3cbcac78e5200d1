-- ===== src/Payment/Concrete.antt =====
-- An order of texts and a writing of dates for the tests of the cursors.
use Prim.Native.Nat.{ℕ, zero, suc}
use Prim.Native.Char.{Char, char, code}
use Prim.Native.String.{String, [], ◌∷◌}
use mathlib.Core.Path.{◌≡◌, refl, ap, ap₂}
use mathlib.Core.Logic.{◌≢◌, ◌⊎◌, inl, inr}
use mathlib.Core.Bool.{Bool, true, false, ◌&&◌, ◌||◌}
use mathlib.Core.Option.{some}
use native.Mathlib.Omega.{arith}
use text.Mathlib.TextEquality.{Char-path}
use noc_iq_be.Prelude.{ltb, ◌==◌, Bool-cases}
use noc_iq_be.Prelude.Cut.{NoComma}
use noc_iq_be.Payment.Cursor.{Outside}
use noc_iq_be.Payment.CursorPages.{IsLawful}

unfoldable pub lex : String → String → Bool
lex s [] = false
lex [] (d ∷ t) = true
lex (c ∷ s) (d ∷ t) = ltb (code c) (code d) || (code c == code d && lex s t)

lex_irrefl : (s : String) → lex s s ≡ false
unfolding lex
lex_irrefl [] = refl
lex_irrefl (c ∷ s) = ground (arith, lex_irrefl s)

lex_trans : (a b c : String) → lex a b ≡ true → lex b c ≡ true → lex a c ≡ true
unfolding lex
lex_trans a b [] h k = k
lex_trans a [] (z ∷ c) h k = absurd cc
lex_trans [] (y ∷ b) (z ∷ c) h k = refl
lex_trans (x ∷ a) (y ∷ b) (z ∷ c) h k = ground (arith, h, k, lex_trans a b c)

lex_total : (a b : String) → a ≢ b → (lex a b ≡ true) ⊎ (lex b a ≡ true)
unfolding lex
lex_total [] [] ne = absurd (ne refl)
lex_total [] (d ∷ t) ne = inl refl
lex_total (c ∷ s) [] ne = inr refl
lex_total (c ∷ s) (d ∷ t) ne = elim (Bool-cases (code c == code d)) [
  | inr e ↦ ground (arith, e)
  | inl e ↦
      let same : code c ≡ code d = ground (arith, e) in
      let rest =
        lex_total s t (λ k. ne (ap₂ (λ (x : Char) (y : String). x ∷ y) (Char-path c d same) k)) in
      ground (arith, e, rest)
]

-- A date is written as that many letters.
unfoldable pub strokes : ℕ → String
strokes zero = ""
strokes (suc n) = char 73 tt ∷ strokes n

unfoldable pub stroke_count : String → ℕ
stroke_count [] = zero
stroke_count (c ∷ s) = suc (stroke_count s)

strokes-NoComma : (n : ℕ) → NoComma (strokes n)
unfolding strokes
strokes-NoComma zero = tt
strokes-NoComma (suc n) = (refl, strokes-NoComma n)

stroke_count-strokes : (n : ℕ) → stroke_count (strokes n) ≡ n
unfolding strokes stroke_count
stroke_count-strokes zero = refl
stroke_count-strokes (suc n) = ap suc (stroke_count-strokes n)

abbrev pub concrete : Outside
concrete = record { lt = lex; isoformat = strokes; fromisoformat = λ s. some (stroke_count s) }

pub concrete-IsLawful : IsLawful concrete
concrete-IsLawful = record {
  strict = record { irrefl = lex_irrefl; trans = lex_trans };
  total = lex_total;
  no_comma = strokes-NoComma;
  reads = λ n. ap some (stroke_count-strokes n);
}
