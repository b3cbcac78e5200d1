-- ===== src/Outage/Reports.antt =====
-- A report of an outage that `OutageRepository` gets more than once.
use noc_iq_be.Prelude.{
  ◌≡◌, refl, ap, ◌∙◌, Bool, false, Option, none, some, [], ◌∷◌, ◌++◌, eq_refl, if◌then◌else◌, first,
  first-append_none, Result, ok, err,
}
use mathlib.Core.Path.{subst}
use noc_iq_be.Outage.Repository.{
  OutageData, OutageRow, Outages, has_id, get, is_same_outage, same_or_raise, check_by_id,
  check_duplicate, new_row, or_store, create_or_get_existing,
}

same_or_raise-some : {P : Type 0} (r : OutageRow) (d : Dec P) → same_or_raise r d ≡ ok none → ⊥
same_or_raise-some r (yes _) h = cc
same_or_raise-some r (no _) h = cc

same_or_raise-same : {P : Type 0} (r : OutageRow) (d : Dec P) → P → same_or_raise r d ≡ ok (some r)
same_or_raise-same r (yes _) p = refl
same_or_raise-same r (no n) p = absurd (n p)

pub unknown_id :
    (payload : OutageData) (t : Outages) (o : Option OutageRow)
    → check_by_id payload t o ≡ ok none
    → o ≡ none
unknown_id payload t none h = refl
unknown_id payload t (some r) h = absurd (same_or_raise-some r (is_same_outage r.created payload) h)

check_duplicate-new :
    (payload : OutageData) (t : Outages)
    → check_duplicate payload t ≡ ok none
    → check_duplicate payload (t ++ new_row payload ∷ []) ≡ ok (some (new_row payload))
unfolding check_duplicate get
check_duplicate-new payload t h =
    let new = new_row payload in
    let gone = unknown_id payload t (first (has_id payload.id) t) h in
    let hit : first (has_id payload.id) (new ∷ []) ≡ some new =
      ap (λ b. if b then some new else none) (eq_refl payload.id) in
    let found = first-append_none (has_id payload.id) t (new ∷ []) gone ∙ hit in
    ap (check_by_id payload (t ++ new ∷ [])) found
    ∙ same_or_raise-same new (is_same_outage payload payload) refl

-- Sending a report again changes nothing: it gives back the outage of the first time, and says that
-- it was not stored now.
pub create_or_get_existing-twice :
    (payload : OutageData) (t t' : Outages) (r : OutageRow) (stored : Bool)
    → create_or_get_existing payload t ≡ (ok (r, stored), t')
    → create_or_get_existing payload t' ≡ (ok (r, false), t')
unfolding create_or_get_existing
create_or_get_existing-twice payload t t' r stored h = go (check_duplicate payload t) refl h
  where
    go :
        (o : Result (Option OutageRow))
        → check_duplicate payload t ≡ o
        → or_store payload t o ≡ (ok (r, stored), t')
        → create_or_get_existing payload t' ≡ (ok (r, false), t')
    go (err e) k h' = absurd cc
    go (ok (some x)) k h' =
        let same : t ≡ t' = ap (λ y. y.1) h' in
        let one : x ≡ r = cc in
        subst (λ u. create_or_get_existing payload u ≡ (ok (r, false), u)) same
          (unfold create_or_get_existing in
            (ap (or_store payload t) k ∙ ap (λ y. (ok (y, false), t)) one))
    go (ok none) k h' =
        let same : t ++ new_row payload ∷ [] ≡ t' = ap (λ y. y.1) h' in
        let one : new_row payload ≡ r = cc in
        subst (λ u. create_or_get_existing payload u ≡ (ok (r, false), u)) same
          (unfold create_or_get_existing in
            (ap (or_store payload (t ++ new_row payload ∷ [])) (check_duplicate-new payload t k)
              ∙ ap (λ y. (ok (y, false), t ++ new_row payload ∷ [])) one))
