-- ===== src/Prelude/Sorting.antt =====
-- `ORDER BY` by a test of what comes before what, and the rows that a filter leaves of it.
use Prim.Native.Nat.{suc}
use mathlib.Core.Path.{◌≡◌, refl, sym, ap, ◌∙◌}
use mathlib.Core.Logic.{◌⊎◌, inl, inr}
use mathlib.Core.Bool.{Bool, true, false, ◌&&◌}
use mathlib.Core.List.{List, [], ◌∷◌, ◌++◌}
use native.Mathlib.Omega.{arith}
use noc_iq_be.Prelude.Tests.{Bool-cases, if◌then◌else◌}
use noc_iq_be.Prelude.Lists.{length, filter, All}

module _ {ℓ} {A : Type ℓ} where
  pub All-filter {κ} :
      (P : A → Type κ) (p : A → Bool) (xs : List A) → All P xs → All P (filter p xs)
  All-filter P p [] h = tt
  All-filter P p (x ∷ xs) (h, k) = elim (Bool-cases (p x)) [
    | inl e ↦ rw e (h, All-filter P p xs k)
    | inr e ↦ rw e (All-filter P p xs k)
  ]

  pub filter_kept : (p : A → Bool) (xs : List A) → All (λ x. p x ≡ true) xs → filter p xs ≡ xs
  filter_kept p [] h = refl
  filter_kept p (x ∷ xs) (h, k) = rw h (ap (λ ys. x ∷ ys) (filter_kept p xs k))

  pub filter-and :
      (p q : A → Bool) (xs : List A) → filter (λ x. p x && q x) xs ≡ filter q (filter p xs)
  filter-and p q [] = refl
  filter-and p q (x ∷ xs) = ground (arith, filter-and p q xs)

module _ {ℓ} {A : Type ℓ} (before : A → A → Bool) where
  abbrev pub insert_by : A → List A → List A
  insert_by x [] = x ∷ []
  insert_by x (y ∷ ys) = let rest = insert_by x ys in if before y x then y ∷ rest else x ∷ y ∷ ys

  abbrev pub sort_by : List A → List A
  sort_by [] = []
  sort_by (x ∷ xs) = insert_by x (sort_by xs)

  abbrev pub Sorted : List A → Type ℓ
  Sorted [] = Unit
  Sorted (x ∷ xs) = All (λ y. before x y ≡ true) xs × Sorted xs

  -- Any two rows of the list stand in the order.
  abbrev pub Compared : List A → Type ℓ
  Compared [] = Unit
  Compared (x ∷ xs) = All (λ y. (before x y ≡ true) ⊎ (before y x ≡ true)) xs × Compared xs

  insert_by-All {κ} :
      (P : A → Type κ) (x : A) (ys : List A) → P x → All P ys → All P (insert_by x ys)
  insert_by-All P x [] h k = (h, tt)
  insert_by-All P x (y ∷ ys) h (k, l) = elim (Bool-cases (before y x)) [
    | inl e ↦ rw e (k, insert_by-All P x ys h l)
    | inr e ↦ rw e (h, (k, l))
  ]

  pub sort_by-All {κ} : (P : A → Type κ) (xs : List A) → All P xs → All P (sort_by xs)
  sort_by-All P [] h = tt
  sort_by-All P (x ∷ xs) (h, k) = insert_by-All P x (sort_by xs) h (sort_by-All P xs k)

  length-insert_by : (x : A) (ys : List A) → length (insert_by x ys) ≡ suc (length ys)
  length-insert_by x [] = refl
  length-insert_by x (y ∷ ys) = elim (Bool-cases (before y x)) [
    | inl e ↦ rw e (ap suc (length-insert_by x ys))
    | inr e ↦ rw e refl
  ]

  pub length-sort_by : (xs : List A) → length (sort_by xs) ≡ length xs
  length-sort_by [] = refl
  length-sort_by (x ∷ xs) = length-insert_by x (sort_by xs) ∙ ap suc (length-sort_by xs)

-- What a test must be for the rows to have an order.
pub record IsStrict {ℓ} {A : Type ℓ} (before : A → A → Bool) : Type ℓ where
  pub irrefl : (x : A) → before x x ≡ false
  pub trans : (x y z : A) → before x y ≡ true → before y z ≡ true → before x z ≡ true

module _ {ℓ} {A : Type ℓ} (before : A → A → Bool) (order : IsStrict before) where
  asym : (x y : A) → before x y ≡ true → before y x ≡ false
  asym x y h = elim (Bool-cases (before y x)) [
    | inr e ↦ e
    | inl e ↦ absurd (let k = order.trans x y x h e in let l = order.irrefl x in cc)
  ]

  All-before :
      (x y : A) (ys : List A)
      → before x y ≡ true
      → All (λ z. before y z ≡ true) ys
      → All (λ z. before x z ≡ true) ys
  All-before x y [] h k = tt
  All-before x y (z ∷ zs) h (k, l) = (order.trans x y z h k, All-before x y zs h l)

  All-not_before :
      (x y : A) (ys : List A)
      → before y x ≡ false
      → All (λ z. before y z ≡ true) ys
      → All (λ z. before z x ≡ false) ys
  All-not_before x y [] h k = tt
  All-not_before x y (z ∷ zs) h (k, l) = (
    elim (Bool-cases (before z x)) [
      | inr e ↦ e
      | inl e ↦ absurd (let bad = order.trans y z x k e in cc)
    ],
    All-not_before x y zs h l,
  )

  -- Two rows of which neither comes before the other are one; this is asked of the row inserted.
  insert_by-Sorted :
      (x : A) (ys : List A)
      → All (λ y. (before x y ≡ true) ⊎ (before y x ≡ true)) ys
      → Sorted before ys
      → Sorted before (insert_by before x ys)
  insert_by-Sorted x [] h k = (tt, tt)
  insert_by-Sorted x (y ∷ ys) (h, l) (k, m) = elim (Bool-cases (before y x)) [
    | inl e ↦
        rw e (insert_by-All before (λ z. before y z ≡ true) x ys e k, insert_by-Sorted x ys l m)
    | inr e ↦ elim h [ inr f ↦ absurd cc | inl f ↦ rw e ((f, All-before x y ys f k), (k, m)) ]
  ]

  pub sort_by-Sorted : (xs : List A) → Compared before xs → Sorted before (sort_by before xs)
  sort_by-Sorted [] h = tt
  sort_by-Sorted (x ∷ xs) (h, k) =
      insert_by-Sorted x (sort_by before xs)
        (sort_by-All before (λ z. (before x z ≡ true) ⊎ (before z x ≡ true)) xs h)
        (sort_by-Sorted xs k)

  pub Compared-filter :
      (p : A → Bool) (xs : List A) → Compared before xs → Compared before (filter p xs)
  Compared-filter p [] h = tt
  Compared-filter p (x ∷ xs) (h, k) = elim (Bool-cases (p x)) [
    | inl e ↦
        rw e (
          All-filter (λ z. (before x z ≡ true) ⊎ (before z x ≡ true)) p xs h,
          Compared-filter p xs k,
        )
    | inr e ↦ rw e (Compared-filter p xs k)
  ]

  insert_by-first :
      (x : A) (ys : List A) → All (λ y. before y x ≡ false) ys → insert_by before x ys ≡ x ∷ ys
  insert_by-first x [] h = refl
  insert_by-first x (y ∷ ys) (h, k) = rw h refl

  filter-insert_by :
      (p : A → Bool) (x : A) (ys : List A)
      → Sorted before ys
      → filter p (insert_by before x ys)
        ≡ (if p x then insert_by before x (filter p ys) else filter p ys)
  filter-insert_by p x [] h = ground arith
  filter-insert_by p x (y ∷ ys) (h, k) = elim (Bool-cases (before y x)) [
    | inl e ↦ ground (arith, e, filter-insert_by p x ys k)
    | inr e ↦ elim (Bool-cases (p x)) [
      | inr f ↦ rw (e, f) refl
      | inl f ↦
          rw (e, f)
            (sym (
              insert_by-first x (filter p (y ∷ ys))
                (All-filter (λ z. before z x ≡ false) p (y ∷ ys) (e, All-not_before x y ys e h))))
    ]
  ]

  -- To filter and then to sort is to sort and then to filter.
  pub filter-sort_by :
      (p : A → Bool) (xs : List A)
      → Compared before xs
      → filter p (sort_by before xs) ≡ sort_by before (filter p xs)
  filter-sort_by p [] h = refl
  filter-sort_by p (x ∷ xs) (h, k) =
      let ih = filter-sort_by p xs k in
      filter-insert_by p x (sort_by before xs) (sort_by-Sorted xs k)
      ∙ elim (Bool-cases (p x)) [ inl e ↦ rw (e, ih) refl | inr e ↦ rw (e, ih) refl ]

  -- Of rows in their order, those after a given one are the rest of the list.
  pub filter-rest :
      (pre : List A) (x : A) (rest : List A)
      → Sorted before (pre ++ x ∷ rest)
      → filter (before x) (pre ++ x ∷ rest) ≡ rest
  filter-rest [] x rest (h, k) = rw (order.irrefl x) (filter_kept (before x) rest h)
  filter-rest (y ∷ pre) x rest (h, k) =
      rw (asym y x (All-at pre x rest h)) (filter-rest pre x rest k)
    where
      All-at :
          (pre' : List A) (x' : A) (rest' : List A)
          → All (λ z. before y z ≡ true) (pre' ++ x' ∷ rest')
          → before y x' ≡ true
      All-at [] x' rest' (h', k') = h'
      All-at (z ∷ pre') x' rest' (h', k') = All-at pre' x' rest' k'

  All-closed :
      (p : A → Bool) (x : A) (ys : List A)
      → ((y : A) → before x y ≡ true → p y ≡ true)
      → All (λ y. before x y ≡ true) ys
      → All (λ y. p y ≡ true) ys
  All-closed p x [] closed h = tt
  All-closed p x (y ∷ ys) closed (h, k) = (closed y h, All-closed p x ys closed k)

  -- Of rows in their order, those of a test that goes on holding are the rest of the list.
  pub filter_suffix :
      (p : A → Bool) (xs : List A)
      → ((x y : A) → p x ≡ true → before x y ≡ true → p y ≡ true)
      → Sorted before xs
      → (pre : List A) × (xs ≡ pre ++ filter p xs)
  filter_suffix p [] closed h = ([], refl)
  filter_suffix p (x ∷ xs) closed (h, k) = elim (Bool-cases (p x)) [
    | inl e ↦
        let all = All-closed p x xs (λ y. closed x y e) h in ([], rw (e, filter_kept p xs all) refl)
    | inr e ↦
        let (pre, split) = filter_suffix p xs closed k in (x ∷ pre, rw e (ap (λ ys. x ∷ ys) split))
  ]
