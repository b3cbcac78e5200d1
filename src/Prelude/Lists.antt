-- ===== src/Prelude/Lists.antt =====
-- Lists measured by native numbers, and the ways in which the code walks a list: a filter, the
-- first row that fits, a change or a removal of that row, a count.
use Prim.Native.Nat.{ℕ, suc, ◌+◌, ◌≤◌}
use mathlib.Core.Path.{◌≡◌, refl}
use mathlib.Core.Bool.{Bool, true}
use mathlib.Core.List.{List, [], ◌∷◌, ◌++◌}
use mathlib.Core.Option.{Option, none, some}
use native.Mathlib.Omega.{arith}
use noc_iq_be.Prelude.Tests.{leb, if◌then◌else◌}

module _ {ℓ} {A : Type ℓ} where
  abbrev pub length : List A → ℕ
  length [] = 0
  length (x ∷ xs) = suc (length xs)

  -- `[x for x in xs if p(x)]`
  abbrev pub filter : (A → Bool) → List A → List A
  filter p [] = []
  filter p (x ∷ xs) = let rest = filter p xs in if p x then x ∷ rest else rest

  -- `query.filter(p).first()`
  abbrev pub first : (A → Bool) → List A → Option A
  first p [] = none
  first p (x ∷ xs) = if p x then some x else first p xs

  -- An assignment to the fields of that row.
  abbrev pub update_first : (A → Bool) → (A → A) → List A → List A
  update_first p f [] = []
  update_first p f (x ∷ xs) = if p x then f x ∷ xs else x ∷ update_first p f xs

  -- `db.delete(row)` of that row.
  abbrev pub delete_first : (A → Bool) → List A → List A
  delete_first p [] = []
  delete_first p (x ∷ xs) = if p x then xs else x ∷ delete_first p xs

  abbrev pub count : (A → Bool) → List A → ℕ
  count p [] = 0
  count p (x ∷ xs) = let rest = count p xs in if p x then suc rest else rest

  abbrev pub All {κ} : (A → Type κ) → List A → Type κ
  All P [] = Unit
  All P (x ∷ xs) = P x × All P xs

module _ {ℓ} {A : Type ℓ} where
  -- `ORDER BY key DESC`, rows of one key in the order in which they stand.
  abbrev pub insert_desc : (A → ℕ) → A → List A → List A
  insert_desc key x [] = x ∷ []
  insert_desc key x (y ∷ ys) = if leb (key y) (key x) then x ∷ y ∷ ys else y ∷ insert_desc key x ys

  abbrev pub sort_desc : (A → ℕ) → List A → List A
  sort_desc key [] = []
  sort_desc key (x ∷ xs) = insert_desc key x (sort_desc key xs)

  -- `ORDER BY key ASC`.
  abbrev pub insert_asc : (A → ℕ) → A → List A → List A
  insert_asc key x [] = x ∷ []
  insert_asc key x (y ∷ ys) = if leb (key x) (key y) then x ∷ y ∷ ys else y ∷ insert_asc key x ys

  abbrev pub sort_asc : (A → ℕ) → List A → List A
  sort_asc key [] = []
  sort_asc key (x ∷ xs) = insert_asc key x (sort_asc key xs)

  pub length-insert_desc :
      (key : A → ℕ) (x : A) (ys : List A) → length (insert_desc key x ys) ≡ length ys + 1
  length-insert_desc key x [] = refl
  length-insert_desc key x (y ∷ ys) = ground (arith, length-insert_desc key x ys)

  pub length-sort_desc : (key : A → ℕ) (xs : List A) → length (sort_desc key xs) ≡ length xs
  length-sort_desc key [] = refl
  length-sort_desc key (x ∷ xs) =
      omega (arith, length-insert_desc key x (sort_desc key xs), length-sort_desc key xs)

  pub count-delete_first :
      (p q : A → Bool) (a : A) (xs : List A)
      → first p xs ≡ some a
      → count q (delete_first p xs) + (if q a then 1 else 0) ≡ count q xs
  count-delete_first p q a [] h = cc
  count-delete_first p q a (x ∷ xs) h = ground (arith, count-delete_first p q a xs)

  pub count-update_first_keep :
      (p q : A → Bool) (f : A → A) (xs : List A)
      → ((x : A) → q (f x) ≡ q x)
      → count q (update_first p f xs) ≡ count q xs
  count-update_first_keep p q f [] h = refl
  count-update_first_keep p q f (x ∷ xs) h = ground (arith, h x, count-update_first_keep p q f xs h)

  pub count-filter_le : (p q : A → Bool) (xs : List A) → count q (filter p xs) ≤ count q xs
  count-filter_le p q [] = omega arith
  count-filter_le p q (x ∷ xs) = ground (arith, count-filter_le p q xs)

  pub count-of_first-none : (p : A → Bool) (xs : List A) → first p xs ≡ none → count p xs ≡ 0
  count-of_first-none p [] h = refl
  count-of_first-none p (x ∷ xs) h = ground (arith, count-of_first-none p xs)

  pub count-delete_first_le :
      (p q : A → Bool) (xs : List A) → count q (delete_first p xs) ≤ count q xs
  count-delete_first_le p q [] = omega arith
  count-delete_first_le p q (x ∷ xs) = ground (arith, count-delete_first_le p q xs)

  pub count_mono :
      (p q : A → Bool) (xs : List A) → ((x : A) → p x ≡ true → q x ≡ true) → count p xs ≤ count q xs
  count_mono p q [] h = omega arith
  count_mono p q (x ∷ xs) h = ground (arith, h x, count_mono p q xs h)

  -- Where one row at most fits, a filter loses that row or leaves the search as it was.
  pub first-filter_unique :
      (p q : A → Bool) (a : A) (xs : List A)
      → count q xs ≤ 1
      → first q (filter p xs) ≡ some a
      → first q xs ≡ some a
  first-filter_unique p q a [] c h = h
  first-filter_unique p q a (x ∷ xs) c h =
      ground (arith, first-filter_unique p q a xs, first-filter_counted p q a xs)
    where
      first-filter_counted :
          (p' q' : A → Bool) (b : A) (ys : List A)
          → count q' ys ≡ 0
          → first q' (filter p' ys) ≡ some b
          → ⊥
      first-filter_counted p' q' b [] k e = cc
      first-filter_counted p' q' b (y ∷ ys) k e = ground (arith, first-filter_counted p' q' b ys)

  pub count-pos_of_first :
      (p q : A → Bool) (a : A) (xs : List A) → first p xs ≡ some a → q a ≡ true → 1 ≤ count q xs
  count-pos_of_first p q a [] h k = cc
  count-pos_of_first p q a (x ∷ xs) h k = ground (arith, count-pos_of_first p q a xs)

  -- A row that is found, and is the only one to fit a second test, is found by that test.
  pub first_of_unique :
      (p q : A → Bool) (a : A) (xs : List A)
      → first p xs ≡ some a
      → q a ≡ true
      → count q xs ≤ 1
      → first q xs ≡ some a
  first_of_unique p q a [] h k c = cc
  first_of_unique p q a (x ∷ xs) h k c =
      ground (arith, first_of_unique p q a xs, count-pos_of_first p q a xs)

  pub first_of_count : (p : A → Bool) (xs : List A) → count p xs ≡ 0 → first p xs ≡ none
  first_of_count p [] h = refl
  first_of_count p (x ∷ xs) h = ground (arith, first_of_count p xs)

  pub length-append : (xs ys : List A) → length (xs ++ ys) ≡ length xs + length ys
  length-append [] ys = omega arith
  length-append (x ∷ xs) ys = omega (arith, length-append xs ys)

  pub length-filter : (p : A → Bool) (xs : List A) → length (filter p xs) ≡ count p xs
  length-filter p [] = refl
  length-filter p (x ∷ xs) = ground (arith, length-filter p xs)

  pub count-append : (p : A → Bool) (xs ys : List A) → count p (xs ++ ys) ≡ count p xs + count p ys
  count-append p [] ys = omega arith
  count-append p (x ∷ xs) ys = ground (arith, count-append p xs ys)

  -- Writing the row that a search finds keeps a count that does not tell the two rows apart.
  pub count-update_first :
      (p q : A → Bool) (a b : A) (xs : List A)
      → first p xs ≡ some a
      → q b ≡ q a
      → count q (update_first p (λ _. b) xs) ≡ count q xs
  count-update_first p q a b [] h k = refl
  count-update_first p q a b (x ∷ xs) h k = ground (arith, count-update_first p q a b xs)

  -- If every row that `q` counts is one that `p` looks for, and `p` finds none, the count is 0.
  pub count-zero :
      (p q : A → Bool) (xs : List A)
      → ((x : A) → q x ≡ true → p x ≡ true)
      → first p xs ≡ none
      → count q xs ≡ 0
  count-zero p q [] h k = refl
  count-zero p q (x ∷ xs) h k = ground (arith, h x, count-zero p q xs h)
