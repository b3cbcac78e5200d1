-- ===== src/Outage/Edits.antt =====
-- `update`, `resolve` and `delete` of app/repositories/outage_repository.py.
use noc_iq_be.Prelude.{
  ℕ, String, Bool, true, false, ◌&&◌, Option, none, some, List, [], ◌∷◌, str_eq, if◌then◌else◌,
  update_first, delete_first, integrity_error, Result, ok, err,
}
use native.Mathlib.Decide.{ℕ_discrete}
use noc_iq_be.Prelude.Call.{Call}
use noc_iq_be.Prelude.Int.{ℤ}
use noc_iq_be.Outage.Repository.{
  OutageData, OutageRow, Outages, Change, set_status, set_site_name, set_severity, set_resolved_at,
  set_description, set_affected_services, set_affected_subscribers, set_assigned_to, set_created_by,
  set_location, has_id, validate_status_transition, get,
}

-- `setattr` of a field; a null that the column forbids.
abbrev set_data : OutageRow → OutageData → Result OutageRow
set_data r d = ok (record r { created = d })

unfoldable pub apply_change : Change → OutageRow → Result OutageRow
apply_change (set_status none) r = err integrity_error
apply_change (set_status (some s)) r = set_data r (record r.created { status = s })
apply_change (set_site_name none) r = err integrity_error
apply_change (set_site_name (some s)) r = set_data r (record r.created { site_name = s })
apply_change (set_severity none) r = err integrity_error
apply_change (set_severity (some s)) r = set_data r (record r.created { severity = s })
apply_change (set_resolved_at at) r = ok (record r { resolved_at = at })
apply_change (set_description none) r = err integrity_error
apply_change (set_description (some s)) r = set_data r (record r.created { description = s })
apply_change (set_affected_services none) r = err integrity_error
apply_change (set_affected_services (some l)) r =
    set_data r (record r.created { affected_services = l })
apply_change (set_affected_subscribers n) r =
    set_data r (record r.created { affected_subscribers = n })
apply_change (set_assigned_to s) r = set_data r (record r.created { assigned_to = s })
apply_change (set_created_by s) r = set_data r (record r.created { created_by = s })
apply_change (set_location s) r = set_data r (record r.created { location = s })

unfoldable pub apply_changes : List Change → OutageRow → Result OutageRow
apply_changes [] r = ok r
apply_changes (c ∷ cs) r = elim (apply_change c r) [ err e ↦ err e | ok r' ↦ apply_changes cs r' ]

-- The statuses that the changes set are validated against the row's.
unfoldable pub validate_changes : String → List Change → Result (Unit {0})
validate_changes current [] = ok tt
validate_changes current (set_status (some s) ∷ cs) = elim (validate_status_transition current s) [
  | err e ↦ err e
  | ok _ ↦ validate_changes current cs
]
validate_changes current (_ ∷ cs) = validate_changes current cs

unfoldable pub update_row : List Change → ℕ → OutageRow → Result OutageRow
update_row changes now r = elim (validate_changes r.created.status changes) [
  | err e ↦ err e
  | ok _ ↦ elim (apply_changes changes r) [
    | err e ↦ err e
    | ok r' ↦ ok (record r' { updated_at = some now })
  ]
]

pub ℤ-discrete : Discrete ℤ
ℤ-discrete = hlevel ℕ_discrete

abbrev is_yes : {P : Type 0} → Dec P → Bool
is_yes (yes _) = true
is_yes (no _) = false

abbrev pub same_mttr : Option ℤ → ℤ → Bool
same_mttr none m = false
same_mttr (some n) m = is_yes (ℤ-discrete n m)

unfoldable pub resolve_row : ℤ → ℕ → OutageRow → Result OutageRow
resolve_row mttr now r =
    if str_eq r.created.status "resolved" && same_mttr r.mttr_minutes mttr
    then ok r
    else elim (validate_status_transition r.created.status "resolved") [
      | err e ↦ err e
      | ok _ ↦ ok (record r {
        created = record r.created { status = "resolved" };
        mttr_minutes = some mttr;
        resolved_at = some now;
        updated_at = some now;
      })
    ]

abbrev pub write_back : String → Outages → Result OutageRow → Result (Option OutageRow) × Outages
write_back id t (err e) = (err e, t)
write_back id t (ok r) = (ok (some r), update_first (has_id id) (λ _. r) t)

abbrev pub edit_found :
    String
    → (OutageRow → Result OutageRow)
    → Outages
    → Option OutageRow
    → Result (Option OutageRow) × Outages
edit_found id f t none = (ok none, t)
edit_found id f t (some r) = write_back id t (f r)

unfoldable pub update : String → List Change → ℕ → Call Outages (Option OutageRow)
update id changes now t = edit_found id (update_row changes now) t (get id t)

unfoldable pub resolve : String → ℤ → ℕ → Call Outages (Option OutageRow)
resolve id mttr now t = edit_found id (resolve_row mttr now) t (get id t)

unfoldable pub delete : String → Outages → Outages
delete id t = delete_first (has_id id) t
