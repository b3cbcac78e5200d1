-- ===== src/Outage/Changes.antt =====
-- What an update and a resolution by `OutageRepository` make of a row: its id stays, and a resolved
-- outage stays resolved.
use noc_iq_be.Prelude.{
  ℕ, String, ◌≡◌, refl, sym, ap, ◌∙◌, inl, inr, Bool, true, false, ◌&&◌, none, some, List, [], ◌∷◌,
  str_eq, eq_iff, if◌then◌else◌, Bool-cases, Result, ok, err,
}
use noc_iq_be.Prelude.Int.{ℤ}
use mathlib.Core.Path.{subst}
use noc_iq_be.Outage.Repository.{
  OutageRow, Change, set_status, set_site_name, set_severity, set_resolved_at, set_description,
  set_affected_services, set_affected_subscribers, set_assigned_to, set_created_by, set_location,
  validate_status_transition,
}
use noc_iq_be.Outage.Edits.{
  apply_change, apply_changes, validate_changes, update_row, resolve_row, same_mttr,
}

abbrev pub IsResolved : OutageRow → Type 0
IsResolved r = r.created.status ≡ "resolved"

-- The id stays, and a resolution with it.
pub record Follows (r s : OutageRow) : Type 0 where
  pub id : s.created.id ≡ r.created.id
  pub resolved : IsResolved r → IsResolved s

resolved_stays :
    (current next : String)
    → validate_status_transition current next ≡ ok tt
    → current ≡ "resolved"
    → next ≡ "resolved"
unfolding validate_status_transition
resolved_stays current next h e =
    let h' = subst (λ c. validate_status_transition c next ≡ ok tt) e h in
    elim (Bool-cases (str_eq "resolved" next)) [
      | inl k ↦ sym ((eq_iff "resolved" next).0 k)
      | inr k ↦ (let h'' = rw k at h' in absurd cc)
    ]

apply_change-id :
    (c : Change) (r s : OutageRow) → apply_change c r ≡ ok s → s.created.id ≡ r.created.id
unfolding apply_change
apply_change-id (set_status none) r s h = absurd cc
apply_change-id (set_status (some x)) r s h = cc
apply_change-id (set_site_name none) r s h = absurd cc
apply_change-id (set_site_name (some x)) r s h = cc
apply_change-id (set_severity none) r s h = absurd cc
apply_change-id (set_severity (some x)) r s h = cc
apply_change-id (set_resolved_at at) r s h = cc
apply_change-id (set_description none) r s h = absurd cc
apply_change-id (set_description (some x)) r s h = cc
apply_change-id (set_affected_services none) r s h = absurd cc
apply_change-id (set_affected_services (some x)) r s h = cc
apply_change-id (set_affected_subscribers n) r s h = cc
apply_change-id (set_assigned_to x) r s h = cc
apply_change-id (set_created_by x) r s h = cc
apply_change-id (set_location x) r s h = cc

validated :
    (a b : Result (Unit {0}))
    → elim a [ err e ↦ err e | ok _ ↦ b ] ≡ ok tt
    → (a ≡ ok tt) × (b ≡ ok tt)
validated (err e) b h = absurd cc
validated (ok tt) b h = (refl, h)

change-IsResolved :
    (c : Change) (cs : List Change) (current : String) (r s : OutageRow)
    → current ≡ "resolved"
    → validate_changes current (c ∷ cs) ≡ ok tt
    → IsResolved r
    → apply_change c r ≡ ok s
    → IsResolved s × (validate_changes current cs ≡ ok tt)
unfolding apply_change validate_changes
change-IsResolved (set_status (some x)) cs current r s e v h a =
    let (one, rest) =
      validated (validate_status_transition current x) (validate_changes current cs) v in
    let set = resolved_stays current x one e in (cc, rest)
change-IsResolved (set_status none) cs current r s e v h a = absurd cc
change-IsResolved (set_site_name none) cs current r s e v h a = absurd cc
change-IsResolved (set_site_name (some x)) cs current r s e v h a = (cc, v)
change-IsResolved (set_severity none) cs current r s e v h a = absurd cc
change-IsResolved (set_severity (some x)) cs current r s e v h a = (cc, v)
change-IsResolved (set_resolved_at at) cs current r s e v h a = (cc, v)
change-IsResolved (set_description none) cs current r s e v h a = absurd cc
change-IsResolved (set_description (some x)) cs current r s e v h a = (cc, v)
change-IsResolved (set_affected_services none) cs current r s e v h a = absurd cc
change-IsResolved (set_affected_services (some x)) cs current r s e v h a = (cc, v)
change-IsResolved (set_affected_subscribers n) cs current r s e v h a = (cc, v)
change-IsResolved (set_assigned_to x) cs current r s e v h a = (cc, v)
change-IsResolved (set_created_by x) cs current r s e v h a = (cc, v)
change-IsResolved (set_location x) cs current r s e v h a = (cc, v)

apply_changes-Follows :
    (cs : List Change) (current : String) (r s : OutageRow)
    → current ≡ "resolved"
    → validate_changes current cs ≡ ok tt
    → IsResolved r
    → apply_changes cs r ≡ ok s
    → IsResolved s
unfolding apply_changes
apply_changes-Follows [] current r s e v h a = cc
apply_changes-Follows (c ∷ cs) current r s e v h a =
    go (λ r'. apply_changes-Follows cs current r' s e) (apply_change c r) refl a
  where
    go :
        ((r' : OutageRow)
          → validate_changes current cs ≡ ok tt
          → IsResolved r'
          → apply_changes cs r' ≡ ok s
          → IsResolved s)
        → (o : Result OutageRow) → apply_change c r ≡ o
        → elim o [ err x ↦ err x | ok r' ↦ apply_changes cs r' ] ≡ ok s
        → IsResolved s
    go later (err x) k a' = absurd cc
    go later (ok r') k a' =
        let (h', v') = change-IsResolved c cs current r r' e v h k in later r' v' h' a'

apply_changes-id :
    (cs : List Change) (r s : OutageRow) → apply_changes cs r ≡ ok s → s.created.id ≡ r.created.id
unfolding apply_changes
apply_changes-id [] r s a = cc
apply_changes-id (c ∷ cs) r s a = go (λ r'. apply_changes-id cs r' s) (apply_change c r) refl a
  where
    go :
        ((r' : OutageRow) → apply_changes cs r' ≡ ok s → s.created.id ≡ r'.created.id)
        → (o : Result OutageRow) → apply_change c r ≡ o
        → elim o [ err x ↦ err x | ok r' ↦ apply_changes cs r' ] ≡ ok s
        → s.created.id ≡ r.created.id
    go later (err x) k a' = absurd cc
    go later (ok r') k a' = later r' a' ∙ apply_change-id c r r' k

pub update_row-Follows :
    (changes : List Change) (now : ℕ) (r s : OutageRow)
    → update_row changes now r ≡ ok s
    → Follows r s
unfolding update_row
update_row-Follows changes now r s h =
    go (validate_changes r.created.status changes) refl (apply_changes changes r) refl h
  where
    go :
        (v : Result (Unit {0}))
        → validate_changes r.created.status changes ≡ v
        → (o : Result OutageRow) → apply_changes changes r ≡ o
        → elim v [
          | err e ↦ err e
          | ok _ ↦ elim o [ err e ↦ err e | ok r' ↦ ok (record r' { updated_at = some now }) ]
        ]
          ≡ ok s
        → Follows r s
    go (err e) k o l h' = absurd cc
    go (ok tt) k (err e) l h' = absurd cc
    go (ok tt) k (ok r') l h' =
        let same : record r' { updated_at = some now } ≡ s = cc in
        let data' : r'.created ≡ s.created = ap (λ x. x.created) same in
        record {
          id = ap (λ x. x.id) (sym data') ∙ apply_changes-id changes r r' l;
          resolved = λ e.
              ap (λ x. x.status) (sym data')
              ∙ apply_changes-Follows changes r.created.status r r' e k e l;
        }

pub resolve_row-Follows :
    (mttr : ℤ) (now : ℕ) (r s : OutageRow) → resolve_row mttr now r ≡ ok s → Follows r s
unfolding resolve_row
resolve_row-Follows mttr now r s h =
    go (str_eq r.created.status "resolved" && same_mttr r.mttr_minutes mttr)
      (validate_status_transition r.created.status "resolved") h
  where
    go :
        (b : Bool) (v : Result (Unit {0}))
        → (if b then ok r else elim v [
          | err e ↦ err e
          | ok _ ↦ ok (record r {
            created = record r.created { status = "resolved" };
            mttr_minutes = some mttr;
            resolved_at = some now;
            updated_at = some now;
          })
        ])
          ≡ ok s
        → Follows r s
    go true v h' = record { id = cc; resolved = λ e. cc }
    go false (err e) h' = absurd cc
    go false (ok tt) h' =
        let same : record r {
          created = record r.created { status = "resolved" };
          mttr_minutes = some mttr;
          resolved_at = some now;
          updated_at = some now;
        }
            ≡ s =
          cc in
        let data' = ap (λ (x : OutageRow). x.created) (sym same) in
        record { id = ap (λ x. x.id) data'; resolved = λ e. ap (λ x. x.status) data' }
