-- ===== src/Payment/Listing.antt =====
-- The pages of `PaymentRepository.list`. Rows of one `created_at` come in the order in which they stand.
use noc_iq_be.Prelude.{
  ℕ, zero, suc, ◌+◌, ◌-◌, ◌*◌, String, ◌≡◌, refl, sym, ap, ◌∙◌, Bool, true, ◌&&◌, ◌||◌, Option,
  none, some, List, [], ◌∷◌, ◌++◌, arith, str_eq, leb, length, filter, sort_desc,
}
use noc_iq_be.Payment.Rows.{PaymentRow}
use noc_iq_be.Payment.Repository.{Payments}

abbrev pub take {ℓ} : {A : Type ℓ} → ℕ → List A → List A
take zero xs = []
take (suc n) [] = []
take (suc n) (x ∷ xs) = x ∷ take n xs

abbrev pub drop {ℓ} : {A : Type ℓ} → ℕ → List A → List A
drop zero xs = xs
drop (suc n) [] = []
drop (suc n) (x ∷ xs) = drop n xs

-- The filters on texts; a falsy one, none or an empty text, does not apply.
pub record Filters : Type 0 where
  pub status : Option String
  pub outage_id : Option String
  pub type : Option String

abbrev meets : Option String → String → Bool
meets none text = true
meets (some wanted) text = str_eq wanted "" || str_eq text wanted

abbrev pub fits : Filters → PaymentRow → Bool
fits f orm = meets f.status orm.status && meets f.outage_id orm.outage_id && meets f.type orm.type

abbrev since : Option ℕ → ℕ → Bool
since none t = true
since (some from) t = leb from t

abbrev until : Option ℕ → ℕ → Bool
until none t = true
until (some to) t = leb t to

abbrev pub dated : Option ℕ → Option ℕ → PaymentRow → Bool
dated date_from date_to orm = since date_from orm.created_at && until date_to orm.created_at

module _ (f : Filters) (date_from date_to : Option ℕ) (t : Payments) where
  abbrev pub matching : Payments
  matching = filter (λ orm. fits f orm && dated date_from date_to orm) t

  -- The endpoints ask for a page of 1 at least.
  unfoldable pub list : (page page_size : ℕ) → Payments × ℕ
  list page page_size = (
    take page_size (drop ((page - 1) * page_size) (sort_desc (λ orm. orm.created_at) matching)),
    length matching,
  )

  -- The items of the first pages.
  abbrev pub first_pages : (pages page_size : ℕ) → Payments
  first_pages zero page_size = []
  first_pages (suc n) page_size = first_pages n page_size ++ (list (n + 1) page_size).0

module _ {ℓ} {A : Type ℓ} where
  take-nil : (n : ℕ) → take {A = A} n [] ≡ []
  take-nil zero = refl
  take-nil (suc n) = refl

  take-add : (m n : ℕ) (xs : List A) → take m xs ++ take n (drop m xs) ≡ take (m + n) xs
  take-add zero n xs = let e : 0 + n ≡ n = omega arith in rw e refl
  take-add (suc m) n [] = take-nil n ∙ sym (take-nil (suc m + n))
  take-add (suc m) n (x ∷ xs) =
      let e : suc m + n ≡ suc (m + n) = omega arith in rw e (ap (λ ys. x ∷ ys) (take-add m n xs))

-- The items of the first pages, in order, are the payments that match the filters, newest first, as many
-- as the pages hold.
pub first_pages_lem :
    (f : Filters) (date_from date_to : Option ℕ) (t : Payments) (pages page_size : ℕ)
    → first_pages f date_from date_to t pages page_size
      ≡ take
          (pages * page_size)
          (sort_desc (λ orm. orm.created_at) (matching f date_from date_to t))
unfolding list
first_pages_lem f date_from date_to t zero page_size =
    let e : 0 * page_size ≡ 0 = omega arith in rw e refl
first_pages_lem f date_from date_to t (suc n) page_size =
    let rows = sort_desc (λ (orm : PaymentRow). orm.created_at) (matching f date_from date_to t) in
    let before : n + 1 - 1 ≡ n = omega arith in
    let grows : suc n * page_size ≡ n * page_size + page_size = grind arith in
    rw (first_pages_lem f date_from date_to t n page_size, before, grows)
      (take-add (n * page_size) page_size rows)
