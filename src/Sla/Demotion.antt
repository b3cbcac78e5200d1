-- ===== src/Sla/Demotion.antt =====
-- What the demotion of an outage's latest row in `SLARepository` does to the table: nothing to the
-- rows of another outage.
use noc_iq_be.Prelude.{
  String, ◌≡◌, refl, ap, ◌∙◌, inl, inr, Bool, true, false, ◌&&◌, none, List, [], ◌∷◌, ◌++◌, map,
  arith, str_eq, eq_iff, if◌then◌else◌, Bool-cases, Option-cases, filter, first, count,
  count-of_first-none,
}
use noc_iq_be.Prelude.Dict.{is_some}
use noc_iq_be.Sla.Repository.{SlaRow, of_outage, is_latest_of, demote}

demote-of_outage : (o k : String) (r : SlaRow) → of_outage k (demote o r) ≡ of_outage k r
demote-of_outage o k r = elim (Bool-cases (is_latest_of o r)) [
  | inl e ↦ rw e refl
  | inr e ↦ rw e refl
]

and_false : (b : Bool) → b && false ≡ false
and_false true = refl
and_false false = refl

demote-is_latest : (o : String) (r : SlaRow) → is_latest_of o (demote o r) ≡ false
demote-is_latest o r = elim (Bool-cases (is_latest_of o r)) [
  | inl e ↦ rw e (and_false (of_outage o r))
  | inr e ↦ rw e e
]

demote_other :
    (o k : String) (r : SlaRow) → str_eq o k ≡ false → of_outage k r ≡ true → demote o r ≡ r
demote_other o k r ne h =
    let e : is_latest_of o r ≡ false =
      ground (arith, eq_iff r.result.outage_id o, eq_iff r.result.outage_id k, eq_iff o k) in
    rw e refl

count-map :
    {A : Type 0} (p q : A → Bool) (f : A → A) (xs : List A)
    → ((x : A) → p (f x) ≡ q x)
    → count p (map f xs) ≡ count q xs
count-map p q f [] h = refl
count-map p q f (x ∷ xs) h = ground (arith, h x, count-map p q f xs h)

first-map-none :
    {A : Type 0} (p : A → Bool) (f : A → A) (xs : List A)
    → ((x : A) → p (f x) ≡ false)
    → first p (map f xs) ≡ none
first-map-none p f [] h = refl
first-map-none p f (x ∷ xs) h = ground (arith, h x, first-map-none p f xs h)

-- The rows that a new row is put after.
abbrev pub demoted : String → List SlaRow → List SlaRow
demoted o rows = if is_some (first (is_latest_of o) rows) then map (demote o) rows else rows

pub demoted-none :
    (o : String) (rows : List SlaRow) → first (is_latest_of o) (demoted o rows) ≡ none
demoted-none o rows = elim (Option-cases (first (is_latest_of o) rows)) [
  | inl e ↦ rw e e
  | inr (r, e) ↦ rw e (first-map-none (is_latest_of o) (demote o) rows (demote-is_latest o))
]

filter-map_same :
    {A : Type 0} (p : A → Bool) (f : A → A) (xs : List A)
    → ((x : A) → p (f x) ≡ p x)
    → ((x : A) → p x ≡ true → f x ≡ x)
    → filter p (map f xs) ≡ filter p xs
filter-map_same p f [] h k = refl
filter-map_same p f (x ∷ xs) h k = elim (Bool-cases (p x)) [
  | inl e ↦ rw (k x e, filter-map_same p f xs h k) refl
  | inr e ↦ rw (h x, e, filter-map_same p f xs h k) refl
]

first-map_same :
    {A : Type 0} (p : A → Bool) (f : A → A) (xs : List A)
    → ((x : A) → p (f x) ≡ p x)
    → ((x : A) → p x ≡ true → f x ≡ x)
    → first p (map f xs) ≡ first p xs
first-map_same p f [] h k = refl
first-map_same p f (x ∷ xs) h k = elim (Bool-cases (p x)) [
  | inl e ↦ rw (k x e, e) refl
  | inr e ↦ rw (h x, e) (first-map_same p f xs h k)
]

pub count-demoted : (o : String) (rows : List SlaRow) → count (is_latest_of o) (demoted o rows) ≡ 0
count-demoted o rows = count-of_first-none (is_latest_of o) (demoted o rows) (demoted-none o rows)

demote-is_latest_other :
    (o k : String) (r : SlaRow)
    → str_eq o k ≡ false
    → is_latest_of k (demote o r) ≡ is_latest_of k r
demote-is_latest_other o k r ne = elim (Bool-cases (of_outage k r)) [
  | inl e ↦ ap (is_latest_of k) (demote_other o k r ne e)
  | inr e ↦ (let e' = demote-of_outage o k r ∙ e in rw (e, e') refl)
]

latest_other :
    (o k : String) (r : SlaRow) → str_eq o k ≡ false → is_latest_of k r ≡ true → demote o r ≡ r
latest_other o k r ne h = demote_other o k r ne (ground arith)

pub demoted-first_other :
    (o k : String) (rows : List SlaRow)
    → str_eq o k ≡ false
    → first (is_latest_of k) (demoted o rows) ≡ first (is_latest_of k) rows
demoted-first_other o k rows ne = elim (Bool-cases (is_some (first (is_latest_of o) rows))) [
  | inl e ↦ rw e (
      first-map_same (is_latest_of k) (demote o) rows (λ r. demote-is_latest_other o k r ne)
        (λ r h. latest_other o k r ne h))
  | inr e ↦ rw e refl
]

pub demoted-filter_other :
    (o k : String) (rows : List SlaRow)
    → str_eq o k ≡ false
    → filter (of_outage k) (demoted o rows) ≡ filter (of_outage k) rows
demoted-filter_other o k rows ne = elim (Bool-cases (is_some (first (is_latest_of o) rows))) [
  | inl e ↦ rw e (
      filter-map_same (of_outage k) (demote o) rows (demote-of_outage o k)
        (λ r h. demote_other o k r ne h))
  | inr e ↦ rw e refl
]

pub demoted-count_other :
    (o k : String) (rows : List SlaRow)
    → str_eq o k ≡ false
    → count (is_latest_of k) (demoted o rows) ≡ count (is_latest_of k) rows
demoted-count_other o k rows ne = elim (Bool-cases (is_some (first (is_latest_of o) rows))) [
  | inl e ↦ rw e (
      count-map (is_latest_of k) (is_latest_of k) (demote o) rows
        (λ r. demote-is_latest_other o k r ne))
  | inr e ↦ rw e refl
]

pub filter-append_dropped :
    {A : Type 0} (p : A → Bool) (xs : List A) (a : A)
    → p a ≡ false
    → filter p (xs ++ a ∷ []) ≡ filter p xs
filter-append_dropped p [] a h = rw h refl
filter-append_dropped p (x ∷ xs) a h = rw (filter-append_dropped p xs a h) refl

pub first-append_dropped :
    {A : Type 0} (p : A → Bool) (xs : List A) (a : A)
    → p a ≡ false
    → first p (xs ++ a ∷ []) ≡ first p xs
first-append_dropped p [] a h = rw h refl
first-append_dropped p (x ∷ xs) a h = rw (first-append_dropped p xs a h) refl
