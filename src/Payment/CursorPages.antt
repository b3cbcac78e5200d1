-- ===== src/Payment/CursorPages.antt =====
-- Following the cursors of app/repositories/payment_repository.py page after page.
use noc_iq_be.Prelude.{
  ℕ, suc, ◌<◌, String, ◌≡◌, ◌≢◌, ◌⊎◌, true, false, some, [], ◌∷◌, ◌++◌, str_eq, length, filter, All,
}
use noc_iq_be.Prelude.Cut.{NoComma}
use noc_iq_be.Prelude.Sorting.{IsStrict, sort_by}
use noc_iq_be.Payment.Rows.{PaymentRow}
use noc_iq_be.Payment.Repository.{Payments}
use noc_iq_be.Payment.Listing.{take, drop, Filters, fits}
use noc_iq_be.Payment.Cursor.{Outside, last, newer}

-- The ids are a primary key.
abbrev pub Distinct : Payments → Type 0
Distinct [] = Unit
Distinct (r ∷ rows) = All (λ (s : PaymentRow). r.id ≢ s.id) rows × Distinct rows

-- What the code relies on: the database orders texts strictly and any two of them, and the text of a
-- date has no comma and is read back.
pub record IsLawful (out : Outside) : Type 0 where
  pub strict : IsStrict out.lt
  pub total : (a b : String) → a ≢ b → (out.lt a b ≡ true) ⊎ (out.lt b a ≡ true)
  pub no_comma : (n : ℕ) → NoComma (out.isoformat n)
  pub reads : (n : ℕ) → out.fromisoformat (out.isoformat n) ≡ some n

-- The first rows of a longer list end in a row, and the others follow it.
record Cut (n : ℕ) (xs : Payments) : Type 0 where
  pub front : Payments
  pub row : PaymentRow
  pub ends : last (take (suc n) xs) ≡ some row
  pub joined : xs ≡ front ++ row ∷ drop (suc n) xs
  pub parts : take (suc n) xs ++ drop (suc n) xs ≡ xs
  pub shorter : length (drop (suc n) xs) < length xs

abbrev HasId : PaymentRow → Type 0
HasId r = str_eq r.id "" ≡ false

module _ (out : Outside) (laws : IsLawful out) (k : ℕ) (f : Filters) (t : Payments)
    (distinct : Distinct t) where
  abbrev found : Payments
  found = sort_by (newer out) (filter (fits f) t)
