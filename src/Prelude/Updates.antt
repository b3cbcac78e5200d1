-- ===== src/Prelude/Updates.antt =====
-- How an assignment to the first row that fits moves a count and a search.
use noc_iq_be.Prelude.{
  ℕ, ◌+◌, ◌≡◌, refl, ap, ◌∙◌, ◌⊎◌, inl, inr, Bool, true, false, none, some, List, [], ◌∷◌, arith,
  if◌then◌else◌, Bool-cases, first, update_first, count,
}
use noc_iq_be.Prelude.Dict.{is_some}

abbrev pub one_if : Bool → ℕ
one_if b = if b then 1 else 0

pub count-update_first_by {ℓ} :
    {A : Type ℓ} (p q : A → Bool) (f : A → A) (a : A) (xs : List A)
    → first p xs ≡ some a
    → count q (update_first p f xs) + one_if (q a) ≡ count q xs + one_if (q (f a))
count-update_first_by p q f a [] h = absurd cc
count-update_first_by p q f a (x ∷ xs) h = elim (Bool-cases (p x)) [
  | inl e ↦
      let here : some x ≡ some a = rw e at h in
      let same : x ≡ a = cc in rw (e, ← same) (ground arith)
  | inr e ↦ rw e (ground (arith, count-update_first_by p q f a xs (rw e at h)))
]

-- A row that an assignment does not choose is found again, if the assignment keeps the search.
pub first-update_first_kept {ℓ} :
    {A : Type ℓ} (p q : A → Bool) (f : A → A) (xs : List A) (a : A)
    → ((x : A) → q (f x) ≡ q x)
    → first q xs ≡ some a
    → p a ≡ false
    → first q (update_first p f xs) ≡ some a
first-update_first_kept p q f [] a keep h k = h
first-update_first_kept p q f (x ∷ xs) a keep h k = elim (Bool-cases (p x)) [
  | inr e ↦ elim (Bool-cases (q x)) [
    | inl g ↦ rw (e, g) (rw g at h)
    | inr g ↦ rw (e, g) (first-update_first_kept p q f xs a keep (rw g at h) k)
  ]
  | inl e ↦ elim (Bool-cases (q x)) [
    | inl g ↦
        let here : some x ≡ some a = rw g at h in
        let same : x ≡ a = cc in
        let no : p x ≡ false = ap p same ∙ k in absurd (let bad = rw e at no in cc)
    | inr g ↦ rw (e, keep x, g) (rw g at h)
  ]
]

-- A row that is found is found again, as it was or changed, if the assignment keeps the search.
pub first-update_first_either {ℓ} :
    {A : Type ℓ} (p q : A → Bool) (f : A → A) (xs : List A) (a : A)
    → ((x : A) → q (f x) ≡ q x)
    → first q xs ≡ some a
    → (first q (update_first p f xs) ≡ some a) ⊎ (first q (update_first p f xs) ≡ some (f a))
first-update_first_either p q f [] a keep h = inl h
first-update_first_either p q f (x ∷ xs) a keep h = elim (Bool-cases (q x)) [
  | inl g ↦
      let here : some x ≡ some a = rw g at h in
      let same : x ≡ a = cc in
      elim (Bool-cases (p x)) [
        | inl e ↦ inr (rw (e, keep x, g) (ap (λ y. some (f y)) same))
        | inr e ↦ inl (rw (e, g) here)
      ]
  | inr g ↦ elim (Bool-cases (p x)) [
    | inl e ↦ inl (rw (e, keep x, g) (rw g at h))
    | inr e ↦ rw (e, g) (first-update_first_either p q f xs a keep (rw g at h))
  ]
]

-- Where no row fits a search, the changed row is the first to fit it.
pub first-of_update_first {ℓ} :
    {A : Type ℓ} (p q : A → Bool) (f : A → A) (xs : List A) (a : A)
    → first q xs ≡ none
    → first p xs ≡ some a
    → q (f a) ≡ true
    → first q (update_first p f xs) ≡ some (f a)
first-of_update_first p q f [] a h k g = absurd cc
first-of_update_first p q f (x ∷ xs) a h k g = elim (Bool-cases (q x)) [
  | inl e ↦ absurd (let bad = rw e at h in cc)
  | inr e ↦ elim (Bool-cases (p x)) [
    | inl i ↦
        let here : some x ≡ some a = rw i at k in let same : x ≡ a = cc in rw (i, same, g) refl
    | inr i ↦ rw (i, e) (first-of_update_first p q f xs a (rw e at h) (rw i at k) g)
  ]
]

pub first_mono {ℓ} :
    {A : Type ℓ} (p q : A → Bool) (xs : List A)
    → ((x : A) → p x ≡ true → q x ≡ true)
    → is_some (first p xs) ≡ true
    → is_some (first q xs) ≡ true
first_mono p q [] h k = k
first_mono p q (x ∷ xs) h k = elim (Bool-cases (p x)) [
  | inl e ↦ rw (h x e) refl
  | inr e ↦ elim (Bool-cases (q x)) [
    | inl f ↦ rw f refl
    | inr f ↦ rw f (first_mono p q xs h (rw e at k))
  ]
]

pub found_by {ℓ} :
    {A : Type ℓ} (p q : A → Bool) (xs : List A) (a : A)
    → first p xs ≡ some a
    → q a ≡ true
    → is_some (first q xs) ≡ true
found_by p q [] a h k = absurd cc
found_by p q (x ∷ xs) a h k = ground (arith, found_by p q xs a)
