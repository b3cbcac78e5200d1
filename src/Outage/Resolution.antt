-- ===== src/Outage/Resolution.antt =====
-- The methods of `OutageRepository` in any order: an outage that is resolved stays so.
use noc_iq_be.Prelude.{
  ℕ, String, ◌≡◌, refl, ◌∙◌, inl, inr, Option, none, some, List, [], ◌∷◌, str_eq, eq_iff,
  Bool-cases, update_first, first-holds, first-append, first-update_first, first-update_first_other,
  Result, ok, err,
}
use noc_iq_be.Prelude.Int.{ℤ}
use mathlib.Core.Path.{subst}
use noc_iq_be.Outage.Repository.{
  OutageData, OutageRow, Outages, Change, has_id, get, check_duplicate, new_row, or_store,
  create_or_get_existing,
}
use noc_iq_be.Outage.Edits.{update_row, resolve_row, write_back, edit_found, update, resolve}
use noc_iq_be.Outage.Changes.{IsResolved, Follows, update_row-Follows, resolve_row-Follows}

-- A call of the repository; a deletion is left out.
pub data Op : Type 0 where
  update_op : String → List Change → ℕ → Op
  resolve_op : String → ℤ → ℕ → Op
  create_op : OutageData → Op

unfoldable pub step : Op → Outages → Outages
step (update_op id changes now) t = (update id changes now t).1
step (resolve_op id mttr now) t = (resolve id mttr now t).1
step (create_op payload) t = (create_or_get_existing payload t).1

unfoldable pub run : List Op → Outages → Outages
run [] t = t
run (op ∷ ops) t = run ops (step op t)

-- The outage is stored, and resolved.
abbrev Stays : String → Outages → Type 0
Stays id t = (s : OutageRow) × (get id t ≡ some s) × IsResolved s

edit_found-Stays :
    (j id : String) (f : OutageRow → Result OutageRow) (t : Outages) (o : Option OutageRow)
    → ((r s : OutageRow) → f r ≡ ok s → Follows r s)
    → get j t ≡ o
    → Stays id t
    → Stays id (edit_found j f t o).1
edit_found-Stays j id f t none follows found p = p
edit_found-Stays j id f t (some r) follows found (s, here, done) = go (f r) refl
  where
    go : (x : Result OutageRow) → f r ≡ x → Stays id (write_back j t x).1
    go (err e) k = (s, here, done)
    go (ok r') k =
        let f' = follows r r' k in
        let named : r.created.id ≡ j =
          (eq_iff r.created.id j).0 (first-holds (has_id j) t r (unfold get in found)) in
        let named' : r'.created.id ≡ j = f'.id ∙ named in
        elim (Bool-cases (str_eq j id)) [
          | inl e ↦
              let same : j ≡ id = (eq_iff j id).0 e in
              let met : get id t ≡ some r = subst (λ i. get i t ≡ some r) same found in
              let one : s ≡ r = cc in
              (
                r',
                subst (λ i. get i (update_first (has_id j) (λ _. r') t) ≡ some r') same
                    (unfold get in
                      (first-update_first (has_id j) (λ _. r') t r found
                        ((eq_iff r'.created.id j).1 named'))),
                f'.resolved (subst IsResolved one done),
              )
          | inr e ↦ (
            s,
            unfold get in
                (first-update_first_other (has_id j) (has_id id) r' t
                    (λ x h. let is_j = (eq_iff x.created.id j).0 h in rw is_j e) (rw named' e)
                  ∙ here),
            done,
          )
        ]

create-Stays :
    (payload : OutageData) (id : String) (t : Outages)
    → Stays id t
    → Stays id (create_or_get_existing payload t).1
unfolding create_or_get_existing get
create-Stays payload id t (s, here, done) = go (check_duplicate payload t)
  where
    go : (o : Result (Option OutageRow)) → Stays id (or_store payload t o).1
    go (err e) = (s, here, done)
    go (ok none) = (s, first-append (has_id id) t (new_row payload ∷ []) s here, done)
    go (ok (some r)) = (s, here, done)

step-Stays : (op : Op) (id : String) (t : Outages) → Stays id t → Stays id (step op t)
unfolding step update resolve
step-Stays (update_op j changes now) id t p =
    edit_found-Stays j id (update_row changes now) t (get j t) (update_row-Follows changes now) refl
      p
step-Stays (resolve_op j mttr now) id t p =
    edit_found-Stays j id (resolve_row mttr now) t (get j t) (resolve_row-Follows mttr now) refl p
step-Stays (create_op payload) id t p = create-Stays payload id t p

-- A resolved outage is never reopened: whatever is created, updated and resolved after, the row stays
-- and its status stays resolved.
pub resolved_final :
    (ops : List Op) (t : Outages) (id : String) (r : OutageRow)
    → get id t ≡ some r
    → r.created.status ≡ "resolved"
    → (s : OutageRow) × (get id (run ops t) ≡ some s) × (s.created.status ≡ "resolved")
unfolding run
resolved_final [] t id r found h = (r, found, h)
resolved_final (op ∷ ops) t id r found h =
    let (s, here, done) = step-Stays op id t (r, found, h) in
    resolved_final ops (step op t) id s here done
