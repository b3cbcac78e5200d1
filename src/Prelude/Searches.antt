-- ===== src/Prelude/Searches.antt =====
-- The first row that fits, after a change of the list.
use Prim.Native.Nat.{◌≤◌}
use mathlib.Core.Path.{◌≡◌, refl, ap, ◌∙◌}
use mathlib.Core.Logic.{inl, inr}
use mathlib.Core.Bool.{Bool, true, false}
use mathlib.Core.List.{List, [], ◌∷◌, ◌++◌}
use mathlib.Core.Option.{none, some}
use native.Mathlib.Omega.{arith}
use noc_iq_be.Prelude.Tests.{Bool-cases}
use noc_iq_be.Prelude.Lists.{filter, first, update_first, count, All}

module _ {ℓ} {A : Type ℓ} where
  pub first-holds : (p : A → Bool) (xs : List A) (a : A) → first p xs ≡ some a → p a ≡ true
  first-holds p [] a h = cc
  first-holds p (x ∷ xs) a h = ground (arith, first-holds p xs a)

  pub first-append :
      (p : A → Bool) (xs ys : List A) (a : A) → first p xs ≡ some a → first p (xs ++ ys) ≡ some a
  first-append p [] ys a h = cc
  first-append p (x ∷ xs) ys a h = ground (arith, first-append p xs ys a)

  pub first-append_none :
      (p : A → Bool) (xs ys : List A) → first p xs ≡ none → first p (xs ++ ys) ≡ first p ys
  first-append_none p [] ys h = refl
  first-append_none p (x ∷ xs) ys h = ground (arith, first-append_none p xs ys)

  -- The row that an assignment changes is found again, if the change keeps it fitting.
  pub first-update_first :
      (p : A → Bool) (f : A → A) (xs : List A) (a : A)
      → first p xs ≡ some a
      → p (f a) ≡ true
      → first p (update_first p f xs) ≡ some (f a)
  first-update_first p f [] a h k = cc
  first-update_first p f (x ∷ xs) a h k = ground (arith, first-update_first p f xs a)

  pub update_first-none :
      (p : A → Bool) (f : A → A) (xs : List A) → first p xs ≡ none → update_first p f xs ≡ xs
  update_first-none p f [] h = refl
  update_first-none p f (x ∷ xs) h = ground (arith, update_first-none p f xs)

  -- A search by a test that the change keeps, and that the changed row fails, sees no change.
  pub first-update_first_ne :
      (p q : A → Bool) (f : A → A) (xs : List A)
      → ((x : A) → p x ≡ true → q x ≡ false)
      → ((x : A) → q (f x) ≡ q x)
      → first q (update_first p f xs) ≡ first q xs
  first-update_first_ne p q f [] ne keep = refl
  first-update_first_ne p q f (x ∷ xs) ne keep =
      ground (arith, ne x, keep x, first-update_first_ne p q f xs ne keep)

  pub first-update_first_other :
      (p q : A → Bool) (a : A) (xs : List A)
      → ((x : A) → p x ≡ true → q x ≡ false)
      → q a ≡ false
      → first q (update_first p (λ _. a) xs) ≡ first q xs
  first-update_first_other p q a [] ne h = refl
  first-update_first_other p q a (x ∷ xs) ne h =
      ground (arith, ne x, first-update_first_other p q a xs ne h)

  pub first-filter-none :
      (p q : A → Bool) (xs : List A)
      → ((x : A) → q x ≡ true → p x ≡ false)
      → first q (filter p xs) ≡ none
  first-filter-none p q [] h = refl
  first-filter-none p q (x ∷ xs) h = ground (arith, h x, first-filter-none p q xs h)

  pub first-filter :
      (p q : A → Bool) (xs : List A)
      → ((x : A) → q x ≡ true → p x ≡ true)
      → first q (filter p xs) ≡ first q xs
  first-filter p q [] h = refl
  first-filter p q (x ∷ xs) h = ground (arith, h x, first-filter p q xs h)

  pub first-filter_holds :
      (p q : A → Bool) (a : A) (xs : List A) → first q (filter p xs) ≡ some a → p a ≡ true
  first-filter_holds p q a [] h = cc
  first-filter_holds p q a (x ∷ xs) h = ground (arith, first-filter_holds p q a xs)

  pub count-update_first_other :
      (p q : A → Bool) (a : A) (xs : List A)
      → ((x : A) → p x ≡ true → q x ≡ false)
      → q a ≡ false
      → count q (update_first p (λ _. a) xs) ≡ count q xs
  count-update_first_other p q a [] ne h = refl
  count-update_first_other p q a (x ∷ xs) ne h =
      ground (arith, ne x, count-update_first_other p q a xs ne h)

  filter_uncounted :
      (p q : A → Bool) (xs : List A) → count q xs ≡ 0 → All (λ x. q x ≡ false) (filter p xs)
  filter_uncounted p q [] c = tt
  filter_uncounted p q (x ∷ xs) c =
      let rest : count q xs ≡ 0 = ground arith in
      elim (Bool-cases (p x)) [
        | inl e ↦ rw e (ground arith, filter_uncounted p q xs rest)
        | inr e ↦ rw e (filter_uncounted p q xs rest)
      ]

  -- If one row is the only one that `q` counts, and `p` drops it, `p` leaves none.
  pub filter_unique_dropped :
      (p q : A → Bool) (a : A) (xs : List A)
      → first q xs ≡ some a
      → count q xs ≤ 1
      → p a ≡ false
      → All (λ x. q x ≡ false) (filter p xs)
  filter_unique_dropped p q a [] h c d = tt
  filter_unique_dropped p q a (x ∷ xs) h c d = elim (Bool-cases (q x)) [
    | inl e ↦
        let here : some x ≡ some a = ground arith in
        let same : x ≡ a = cc in
        let drop : p x ≡ false = ap p same ∙ d in rw drop (filter_uncounted p q xs (ground arith))
    | inr e ↦
        let rest = filter_unique_dropped p q a xs (ground arith) (ground arith) d in
        elim (Bool-cases (p x)) [ inl k ↦ rw k (e, rest) | inr k ↦ rw k rest ]
  ]
