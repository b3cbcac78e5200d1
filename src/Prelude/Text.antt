-- ===== src/Prelude/Text.antt =====
-- `str.lower` on ASCII letters, and the decimal text of a number in an f-string.
use Prim.Native.Nat.{ℕ, zero, suc, ◌/◌, ◌%◌}
use Prim.Native.Char.{Char, code}
use Prim.Native.String.{String, [], ◌∷◌, ◌++◌}
use mathlib.Core.Path.{◌≡◌, refl, ap, ap₂}
use mathlib.Core.Logic.{◌⊎◌, inl, inr}
use noc_iq_be.Prelude.Tests.{◌==◌, if◌then◌else◌, Bool-cases}

-- The character of the second text at the place where the first has `c`, and `c` itself if it has none.
translate : String → String → Char → Char
translate [] bs c = c
translate (a ∷ as') [] c = c
translate (a ∷ as') (b ∷ bs) c = if code a == code c then b else translate as' bs c

abbrev upper_letters : String
upper_letters = "ABCDEFGHIJKLMNOPQRSTUVWXYZ"

abbrev lower_letters : String
lower_letters = "abcdefghijklmnopqrstuvwxyz"

lower_char : Char → Char
unfolding translate
lower_char = translate upper_letters lower_letters

unfoldable pub lower : String → String
unfolding lower_char
lower [] = []
lower (c ∷ s) = lower_char c ∷ lower s

abbrev AllChars : (Char → Type 0) → String → Type 0
AllChars P [] = Unit
AllChars P (c ∷ s) = P c × AllChars P s

translate_cases :
    (P : Char → Type 0) (as' bs : String) (c : Char)
    → AllChars P bs
    → (translate as' bs c ≡ c) ⊎ P (translate as' bs c)
unfolding translate
translate_cases P [] bs c h = inl refl
translate_cases P (a ∷ as') [] c h = inl refl
translate_cases P (a ∷ as') (b ∷ bs) c h = elim (Bool-cases (code a == code c)) [
  | inl e ↦ inr (rw e h.0)
  | inr e ↦ rw e (translate_cases P as' bs c h.1)
]

lower_letters_fixed : AllChars (λ c. lower_char c ≡ c) lower_letters
unfolding lower_char
lower_letters_fixed = assumption refl

lower_char_idem : (c : Char) → lower_char (lower_char c) ≡ lower_char c
lower_char_idem c =
    elim (translate_cases (λ x. lower_char x ≡ x) upper_letters lower_letters c
      lower_letters_fixed) [
        | inl e ↦ ap lower_char (unfold lower_char in e)
        | inr e ↦ unfold lower_char in e
      ]

pub lower_idem : (s : String) → lower (lower s) ≡ lower s
unfolding lower
lower_idem [] = refl
lower_idem (c ∷ s) = ap₂ (λ (x : Char) (y : String). x ∷ y) (lower_char_idem c) (lower_idem s)

digit : ℕ → String
digit n =
    if n == 0
    then "0"
    else if n == 1
    then "1"
    else if n == 2
    then "2"
    else if n == 3
    then "3"
    else if n == 4
    then "4"
    else if n == 5
    then "5"
    else if n == 6
    then "6"
    else if n == 7
    then "7"
    else if n == 8
    then "8"
    else "9"

-- The number's digits before a text; a number has fewer digits than its successor counts.
decimal_before : ℕ → ℕ → String → String
decimal_before zero n rest = rest
decimal_before (suc fuel) n rest =
    let higher = decimal_before fuel (n / 10) (digit (n % 10) ++ rest) in
    if n / 10 == 0 then digit (n % 10) ++ rest else higher

unfoldable pub decimal : ℕ → String
unfolding decimal_before digit
decimal n = decimal_before (suc n) n ""

decimal_test : decimal 1207 ≡ "1207"
unfolding decimal
decimal_test = refl
