-- ===== src/Payment/Cursor.antt =====
-- `PaymentRepository.list_cursor` of app/repositories/payment_repository.py, and the branch of
-- `list_payments` in app/api/v1/endpoints/payments.py that reads a cursor. The database's order of
-- texts and the two conversions of dates are parameters; the times of a table are all naive or all
-- aware.
use noc_iq_be.Prelude.{
  ℕ, zero, suc, ◌+◌, String, Bool, true, ◌&&◌, ◌||◌, Option, none, some, [], ◌∷◌, ◌++◌, str_eq,
  concat, ltb, ◌==◌, if◌then◌else◌, length, filter, value_error, Result, ok, err,
}
use noc_iq_be.Prelude.Sorting.{sort_by}
use noc_iq_be.Prelude.Cut.{split_comma}
use noc_iq_be.Payment.Rows.{PaymentRow}
use noc_iq_be.Payment.Repository.{Payments}
use noc_iq_be.Payment.Listing.{take, Filters, fits}

pub record CursorPage : Type 0 where
  pub items : Payments
  pub next_cursor : Option String
  pub has_more : Bool

-- What the calls take from outside: the order of texts in the database, `isoformat`, and
-- `fromisoformat`, which is none where it raises.
pub record Outside : Type 0 where
  pub lt : String → String → Bool
  pub isoformat : ℕ → String
  pub fromisoformat : String → Option ℕ

abbrev pub last : Payments → Option PaymentRow
last [] = none
last (r ∷ []) = some r
last (r ∷ s ∷ rows) = last (s ∷ rows)

module _ (out : Outside) where
  -- `created_at < date | (created_at == date & id < key)`
  abbrev pub is_past : ℕ → String → PaymentRow → Bool
  is_past date key r = ltb r.created_at date || (r.created_at == date && out.lt r.id key)

  -- `ORDER BY created_at DESC, id DESC`
  abbrev pub newer : PaymentRow → PaymentRow → Bool
  newer r s = is_past r.created_at r.id s

  -- The condition applies only if the date and the key are both given, and the key is not empty.
  abbrev pub past : Option ℕ → Option String → PaymentRow → Bool
  past none key r = true
  past (some date) none r = true
  past (some date) (some key) r = if str_eq key "" then true else is_past date key r

  -- `f"{last.created_at.isoformat()},{last.id}"`
  abbrev pub cursor_of : Option PaymentRow → Option String
  cursor_of none = none
  cursor_of (some r) = some (concat (out.isoformat r.created_at) (concat "," r.id))

  -- The page that the rows found, one more than the limit at most, make.
  abbrev pub page_of : ℕ → Payments → CursorPage
  page_of limit rows =
      let has_more = ltb limit (length rows) in
      let items = take limit rows in
      record {
        items = items;
        next_cursor = if has_more then cursor_of (last items) else none;
        has_more = has_more;
      }

  unfoldable pub list_cursor :
      (limit : ℕ) (cursor_date : Option ℕ) (cursor_id : Option String)
      → Filters
      → Payments
      → CursorPage
  list_cursor limit cursor_date cursor_id f t =
      page_of limit (
        take (limit + 1) (sort_by newer (filter (λ r. fits f r && past cursor_date cursor_id r) t)))

  abbrev pub page_at : ℕ → Option String → Filters → Payments → Option ℕ → Result CursorPage
  page_at limit cursor_id f t none = err (value_error "Invalid isoformat string")
  page_at limit cursor_id f t (some date) = ok (list_cursor limit (some date) cursor_id f t)

  -- The answer to a request with a cursor.
  unfoldable pub list_payments_at : ℕ → Filters → Payments → String → Result CursorPage
  list_payments_at limit f t cursor =
      let (date, cursor_id) = split_comma cursor in
      page_at limit cursor_id f t (out.fromisoformat date)

  abbrev pub then_rest :
      (CursorPage → Option Payments) → Payments → Result CursorPage → Option Payments
  then_rest follow items (err e) = none
  then_rest follow items (ok page) = elim (follow page) [
    | none ↦ none
    | some rest ↦ some (items ++ rest)
  ]

  -- A client that asks with each cursor for the next page, and joins the items.
  unfoldable pub follow : (fuel limit : ℕ) → Filters → Payments → CursorPage → Option Payments
  follow zero limit f t page = none
  follow (suc n) limit f t page = elim page.next_cursor [
    | none ↦ some page.items
    | some cursor ↦ then_rest (follow n limit f t) page.items (list_payments_at limit f t cursor)
  ]

  -- A client that starts with a cursor.
  unfoldable pub follow_cursor : (fuel limit : ℕ) → Filters → Payments → String → Option Payments
  follow_cursor n limit f t cursor =
      then_rest (follow n limit f t) [] (list_payments_at limit f t cursor)
