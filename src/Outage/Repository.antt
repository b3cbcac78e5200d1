-- ===== src/Outage/Repository.antt =====
-- The first class `OutageRepository` of app/repositories/outage_repository.py, which stores the
-- outages; a second class at the end of that file takes its name. The rows are those of
-- app/models/orm/outage.py, without the stored SLA status, and the location is the text of its JSON.
use noc_iq_be.Prelude.{
  ℕ, String, inl, inr, Bool, true, false, ◌&&◌, Option, none, some, List, [], ◌∷◌, ◌++◌, str_eq,
  eq_iff, ◌==◌, if◌then◌else◌, Bool-cases, first, value_error, Result, ok, err,
}
use native.Mathlib.Decide.{ℕ_discrete}
use noc_iq_be.Prelude.Call.{Call}
use noc_iq_be.Prelude.Int.{ℤ}
use noc_iq_be.Outage.{is_in, or_empty}

-- What an outage is created with, `OutageCreate`.
pub record OutageData : Type 0 where
  pub id : String
  pub site_name : String
  pub site_id : Option String
  pub severity : String
  pub status : String
  pub detected_at : ℕ
  pub description : String
  pub affected_services : List String
  pub affected_subscribers : Option ℕ
  pub assigned_to : Option String
  pub created_by : Option String
  pub location : Option String

pub record OutageRow : Type 0 where
  pub created : OutageData
  pub resolved_at : Option ℕ
  pub mttr_minutes : Option ℤ
  pub updated_at : Option ℕ

abbrev pub Outages : Type 0
Outages = List OutageRow

-- A field that an update sets; null where the column forbids it fails at the commit.
pub data Change : Type 0 where
  set_status : Option String → Change
  set_site_name : Option String → Change
  set_severity : Option String → Change
  set_resolved_at : Option ℕ → Change
  set_description : Option String → Change
  set_affected_services : Option (List String) → Change
  set_affected_subscribers : Option ℕ → Change
  set_assigned_to : Option String → Change
  set_created_by : Option String → Change
  set_location : Option String → Change

abbrev pub has_id : String → OutageRow → Bool
has_id id r = str_eq r.created.id id

-- ALLOWED_STATUS_TRANSITIONS
abbrev pub allowed_statuses : String → Option (List String)
allowed_statuses status =
    if str_eq status "open"
    then some ("open" ∷ "resolved" ∷ [])
    else if str_eq status "resolved"
    then some ("resolved" ∷ [])
    else none

unfoldable pub validate_status_transition :
    (current_status next_status : String) → Result (Unit {0})
validate_status_transition current_status next_status =
    if is_in next_status (or_empty (allowed_statuses current_status))
    then ok tt
    else err (value_error "Invalid status transition")

unfoldable pub get : String → Outages → Option OutageRow
get id t = first (has_id id) t

abbrev same_site : Option String → Option String → Bool
same_site none site = true
same_site (some s) site =
    if str_eq s "" then true else elim site [ none ↦ false | some s' ↦ str_eq s' s ]

unfoldable pub find_duplicate : OutageData → Outages → Option OutageRow
find_duplicate payload t =
    first
      (λ r.
        str_eq r.created.site_name payload.site_name
        && ((r.created.detected_at == payload.detected_at)
            && (str_eq r.created.description payload.description
                && same_site payload.site_id r.created.site_id)))
      t

String_discrete : Discrete String
String_discrete a b = elim (Bool-cases (str_eq a b)) [
  | inl e ↦ yes ((eq_iff a b).0 e)
  | inr e ↦ no (λ same. let k = (eq_iff a b).1 same in cc)
]

-- `_is_same_outage` compares every field of the payload.
pub is_same_outage : Discrete OutageData
is_same_outage = hlevel (String_discrete, ℕ_discrete)

abbrev pub same_or_raise : OutageRow → {P : Type 0} → Dec P → Result (Option OutageRow)
same_or_raise r (yes _) = ok (some r)
same_or_raise r (no _) =
    err (value_error "Outage with this id already exists with different content")

abbrev pub check_by_id : OutageData → Outages → Option OutageRow → Result (Option OutageRow)
check_by_id payload t none = ok (find_duplicate payload t)
check_by_id payload t (some r) = same_or_raise r (is_same_outage r.created payload)

unfoldable pub check_duplicate : OutageData → Outages → Result (Option OutageRow)
check_duplicate payload t = check_by_id payload t (get payload.id t)

abbrev pub new_row : OutageData → OutageRow
new_row payload = record {
  created = payload;
  resolved_at = none;
  mttr_minutes = none;
  updated_at = none;
}

-- The outage, and whether it was stored now.
abbrev pub or_store :
    OutageData → Outages → Result (Option OutageRow) → Result (OutageRow × Bool) × Outages
or_store payload t (err e) = (err e, t)
or_store payload t (ok (some existing)) = (ok (existing, false), t)
or_store payload t (ok none) = (ok (new_row payload, true), t ++ new_row payload ∷ [])

unfoldable pub create_or_get_existing : OutageData → Call Outages (OutageRow × Bool)
create_or_get_existing payload t = or_store payload t (check_duplicate payload t)
