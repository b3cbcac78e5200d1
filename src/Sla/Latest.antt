-- ===== src/Sla/Latest.antt =====
-- The authoritative result of an outage in `SLARepository`: one row at most is marked, and it is the
-- last that was created.
use noc_iq_be.Prelude.{
  ℕ, ◌+◌, ◌≤◌, String, ◌≡◌, refl, sym, ap, ◌∙◌, inl, inr, true, false, Option, none, some, List, [],
  ◌∷◌, ◌++◌, arith, str_eq, eq_iff, eq_refl, if◌then◌else◌, Bool-cases, Option-cases, first, count,
  sort_desc, count-append, first-append_none,
}
use noc_iq_be.Prelude.Dict.{is_some}
use mathlib.Core.Path.{subst}
use noc_iq_be.Sla.Calculator.{SlaResult}
use noc_iq_be.Sla.Repository.{
  SlaRow, SlaDb, of_outage, is_latest_of, orm_to_pydantic, create, or_newest, head_row, newest,
  get_by_outage, SlaResult-discrete, changed, create_if_changed,
}
use noc_iq_be.Sla.Demotion.{
  demoted, demoted-none, demoted-first_other, demoted-filter_other, demoted-count_other,
  count-demoted, filter-append_dropped, first-append_dropped,
}

-- The row that `create` adds.
abbrev added : ℕ → SlaResult → SlaDb → SlaRow
added default payload db = record {
  id = db.next_id;
  result = payload;
  created_at = default;
  is_latest = true;
}

create-get_same :
    (default : ℕ) (payload : SlaResult) (db : SlaDb)
    → get_by_outage payload.outage_id (create default payload db).1
      ≡ some (create default payload db).0
unfolding get_by_outage create orm_to_pydantic
create-get_same default payload db =
    let o = payload.outage_id in
    let new = added default payload db in
    let hit : is_latest_of o new ≡ true = ground (arith, eq_refl o) in
    let found : first (is_latest_of o) (demoted o db.rows ++ new ∷ []) ≡ some new =
      first-append_none (is_latest_of o) (demoted o db.rows) (new ∷ []) (demoted-none o db.rows)
      ∙ ap (λ b. if b then some new else none) hit in
    rw found refl

create-get_other :
    (default : ℕ) (payload : SlaResult) (db : SlaDb) (k : String)
    → str_eq payload.outage_id k ≡ false
    → get_by_outage k (create default payload db).1 ≡ get_by_outage k db
unfolding get_by_outage create
create-get_other default payload db k ne =
    let o = payload.outage_id in
    let new = added default payload db in
    let miss : is_latest_of k new ≡ false = ground (arith, ne) in
    let firsts =
      first-append_dropped (is_latest_of k) (demoted o db.rows) new miss
      ∙ demoted-first_other o k db.rows ne in
    let filters =
      filter-append_dropped (of_outage k) (demoted o db.rows) new ne
      ∙ demoted-filter_other o k db.rows ne in
    ap (λ x. or_newest x (newest k (create default payload db).1)) firsts
    ∙ ap
        (λ rs.
          or_newest (first (is_latest_of k) db.rows) (head_row (sort_desc (λ r. r.created_at) rs)))
        filters

-- Results created one after the other.
unfoldable pub create_each : ℕ → List SlaResult → SlaDb → SlaDb
create_each default [] db = db
create_each default (payload ∷ payloads) db =
    create_each default payloads (create default payload db).1

-- What an outage's result is by the results created: the last one of the outage, under the number
-- that it is created as, or else the one before them all.
unfoldable pub last_result : String → Option SlaResult → ℕ → List SlaResult → Option SlaResult
last_result k before n [] = before
last_result k before n (payload ∷ payloads) =
    last_result k
      (if str_eq payload.outage_id k then some (record payload { id = some n }) else before) (n + 1)
      payloads

get_by_outage-create :
    (default : ℕ) (payload : SlaResult) (db : SlaDb) (k : String)
    → get_by_outage k (create default payload db).1 ≡ (
        if str_eq payload.outage_id k
        then some (record payload { id = some db.next_id })
        else get_by_outage k db)
get_by_outage-create default payload db k = elim (Bool-cases (str_eq payload.outage_id k)) [
  | inl e ↦
      let same = (eq_iff payload.outage_id k).0 e in
      rw e (
        subst
          (λ x.
            get_by_outage x (create default payload db).1
            ≡ some (record payload { id = some db.next_id }))
          same (unfold create in (create-get_same default payload db)))
  | inr e ↦ rw e (create-get_other default payload db k e)
]

-- Whatever results are created, the authoritative result of an outage is the last that was created
-- for it.
pub get_by_outage-create_each :
    (default : ℕ) (payloads : List SlaResult) (db : SlaDb) (k : String)
    → get_by_outage k (create_each default payloads db)
      ≡ last_result k (get_by_outage k db) db.next_id payloads
unfolding create_each last_result create
get_by_outage-create_each default [] db k = refl
get_by_outage-create_each default (payload ∷ payloads) db k =
    get_by_outage-create_each default payloads (create default payload db).1 k
    ∙ ap (λ x. last_result k x (db.next_id + 1) payloads)
        (get_by_outage-create default payload db k)

create-count :
    (default : ℕ) (payload : SlaResult) (db : SlaDb) (k : String)
    → count (is_latest_of k) db.rows ≤ 1
    → count (is_latest_of k) (create default payload db).1.rows ≤ 1
unfolding create
create-count default payload db k h = elim (Bool-cases (str_eq payload.outage_id k)) [
  | inl e ↦
      let o = payload.outage_id in
      let new = added default payload db in
      let same = (eq_iff o k).0 e in
      let one : count (is_latest_of o) (new ∷ []) ≤ 1 = ground arith in
      subst (λ x. count (is_latest_of x) (demoted o db.rows ++ new ∷ []) ≤ 1) same
        (omega (
          arith,
          count-append (is_latest_of o) (demoted o db.rows) (new ∷ []),
          count-demoted o db.rows,
          one,
        ))
  | inr e ↦
      let o = payload.outage_id in
      let new = added default payload db in
      let miss : count (is_latest_of k) (new ∷ []) ≡ 0 = ground (arith, e) in
      omega (
        arith,
        count-append (is_latest_of k) (demoted o db.rows) (new ∷ []),
        demoted-count_other o k db.rows e,
        miss,
      )
]

-- One row of an outage at most is marked as its latest, through every run of creations.
pub create_each-single :
    (default : ℕ) (payloads : List SlaResult) (db : SlaDb) (k : String)
    → count (is_latest_of k) db.rows ≤ 1
    → count (is_latest_of k) (create_each default payloads db).rows ≤ 1
unfolding create_each
create_each-single default [] db k h = h
create_each-single default (payload ∷ payloads) db k h =
    create_each-single default payloads (create default payload db).1 k
      (create-count default payload db k h)

or_newest-has_id :
    (a b : Option SlaRow) (r : SlaResult) → or_newest a b ≡ some r → is_some r.id ≡ true
unfolding orm_to_pydantic
or_newest-has_id none none r h = absurd cc
or_newest-has_id none (some b) r h =
    let e : record b.result { id = some b.id } ≡ r = cc in ap (λ x. is_some x.id) (sym e)
or_newest-has_id (some a) b r h =
    let e : record a.result { id = some a.id } ≡ r = cc in ap (λ x. is_some x.id) (sym e)

changed-ne :
    (default : ℕ) (payload latest : SlaResult) (db : SlaDb)
    → (latest ≡ payload → ⊥)
    → changed default payload db (some latest) ≡ create default payload db
changed-ne default payload latest db ne = go (SlaResult-discrete latest payload)
  where
    go :
        (d : Dec (latest ≡ payload))
        → elim d [ yes _ ↦ (latest, db) | no _ ↦ create default payload db ]
          ≡ create default payload db
    go (yes e) = absurd (ne e)
    go (no _) = refl

found-has_id :
    (k : String) (db : SlaDb) (r : SlaResult) → get_by_outage k db ≡ some r → is_some r.id ≡ true
unfolding get_by_outage
found-has_id k db r h = or_newest-has_id (first (is_latest_of k) db.rows) (newest k db) r h

-- A result as the calculator makes it, with no id yet, never equals the stored one: it is created
-- anew even where nothing has changed.
pub create_if_changed-fresh :
    (default : ℕ) (payload : SlaResult) (db : SlaDb)
    → payload.id ≡ none
    → create_if_changed default payload db ≡ create default payload db
unfolding create_if_changed
create_if_changed-fresh default payload db h =
    elim (Option-cases (get_by_outage payload.outage_id db)) [
      | inl e ↦ ap (changed default payload db) e
      | inr (latest, e) ↦
          ap (changed default payload db) e
          ∙ changed-ne default payload latest db (λ same.
            let there = found-has_id payload.outage_id db latest e in
            let gone : is_some latest.id ≡ false = ap (λ x. is_some x.id) same ∙ ap is_some h in cc)
    ]
