-- ===== src/Sla/Repository.antt =====
-- `SLARepository` of app/repositories/sla_repository.py over the rows of app/models/orm/sla.py and
-- app/models/orm/sla_snapshot.py: the results, the figures without filters, and the snapshots. An
-- average is its sum and its count; the roundings to two places of whole amounts are none.
use noc_iq_be.Prelude.{
  ℕ, ◌+◌, String, inl, inr, Bool, true, false, ◌&&◌, ◌||◌, not, Option, none, some, List, [], ◌∷◌,
  ◌++◌, map, str_eq, eq_iff, ltb, ◌==◌, if◌then◌else◌, Bool-cases, length, filter, first, count,
  sort_desc,
}
use native.Mathlib.Decide.{ℕ_discrete}
use noc_iq_be.Prelude.Dict.{is_some}
use noc_iq_be.Prelude.Int.{ℤ, pos, abs, pos_part, neg_part, sub_ℕ}
use noc_iq_be.Sla.Calculator.{SlaResult, met, violated, reward, penalty}

-- The columns of a result but its id are those of `SLAResult`; `data` keeps no id.
pub record SlaRow : Type 0 where
  pub id : ℕ
  pub result : SlaResult
  pub created_at : ℕ
  pub is_latest : Bool

pub record Snapshot : Type 0 where
  pub id : ℕ
  pub snapshot_key : String
  pub total_outages : ℕ
  pub total_violations : ℕ
  pub total_rewards : ℤ
  pub total_penalties : ℤ
  pub avg_mttr : ℤ × ℕ
  pub checksum : String
  pub created_at : ℕ

pub record SlaDb : Type 0 where
  pub rows : List SlaRow
  pub next_id : ℕ
  pub snapshots : List Snapshot
  pub next_snapshot : ℕ

String_discrete : Discrete String
String_discrete a b = elim (Bool-cases (str_eq a b)) [
  | inl e ↦ yes ((eq_iff a b).0 e)
  | inr e ↦ no (λ same. let k = (eq_iff a b).1 same in cc)
]

-- `a.model_dump() == b.model_dump()`
pub SlaResult-discrete : Discrete SlaResult
SlaResult-discrete = hlevel (String_discrete, ℕ_discrete)

abbrev pub of_outage : String → SlaRow → Bool
of_outage outage r = str_eq r.result.outage_id outage

abbrev pub is_latest_of : String → SlaRow → Bool
is_latest_of outage r = of_outage outage r && r.is_latest

unfoldable pub orm_to_pydantic : SlaRow → SlaResult
orm_to_pydantic r = record r.result { id = some r.id }

abbrev pub demote : String → SlaRow → SlaRow
demote outage r = if is_latest_of outage r then record r { is_latest = false } else r

abbrev pub with_row : ℕ → SlaResult → SlaDb → List SlaRow → SlaDb
with_row default payload db rows = record db {
  rows =
      rows
      ++ record { id = db.next_id; result = payload; created_at = default; is_latest = true } ∷ [];
  next_id = db.next_id + 1;
}

-- `default` is the value of the column's default: the class makes it once, when it is loaded.
unfoldable pub create : ℕ → SlaResult → SlaDb → SlaResult × SlaDb
create default payload db =
    let demoted =
      if is_some (first (is_latest_of payload.outage_id) db.rows)
      then map (demote payload.outage_id) db.rows
      else db.rows in
    (record payload { id = some db.next_id }, with_row default payload db demoted)

abbrev pub head_row : List SlaRow → Option SlaRow
head_row [] = none
head_row (r ∷ rows) = some r

abbrev pub newest : String → SlaDb → Option SlaRow
newest outage db = head_row (sort_desc (λ r. r.created_at) (filter (of_outage outage) db.rows))

abbrev pub or_newest : Option SlaRow → Option SlaRow → Option SlaResult
or_newest (some r) o = some (orm_to_pydantic r)
or_newest none none = none
or_newest none (some r) = some (orm_to_pydantic r)

unfoldable pub get_by_outage : String → SlaDb → Option SlaResult
get_by_outage outage db = or_newest (first (is_latest_of outage) db.rows) (newest outage db)

unfoldable pub list_by_outage : String → SlaDb → List SlaResult
list_by_outage outage db =
    map orm_to_pydantic (sort_desc (λ r. r.created_at) (filter (of_outage outage) db.rows))

abbrev pub changed : ℕ → SlaResult → SlaDb → Option SlaResult → SlaResult × SlaDb
changed default payload db none = create default payload db
changed default payload db (some latest) = elim (SlaResult-discrete latest payload) [
  | yes _ ↦ (latest, db)
  | no _ ↦ create default payload db
]

unfoldable pub create_if_changed : ℕ → SlaResult → SlaDb → SlaResult × SlaDb
create_if_changed default payload db =
    changed default payload db (get_by_outage payload.outage_id db)

abbrev plus : ℤ → ℤ → ℤ
plus a b = sub_ℕ (pos_part a + pos_part b) (neg_part a + neg_part b)

abbrev sum : List ℤ → ℤ
sum [] = pos 0
sum (x ∷ xs) = plus x (sum xs)

abbrev is_violated : SlaRow → Bool
is_violated r = elim r.result.status [ met ↦ false | violated ↦ true ]

abbrev is_reward : SlaRow → Bool
is_reward r = elim r.result.payment_type [ reward ↦ true | penalty ↦ false ]

pub record Kpis : Type 0 where
  pub total_outages : ℕ
  pub total_violations : ℕ
  pub total_rewards : ℤ
  pub total_penalties : ℤ

-- Without a filter of severity or site; the net payout is the difference of the last two.
unfoldable pub aggregate_dashboard_kpis : SlaDb → Kpis
aggregate_dashboard_kpis db = record {
  total_outages = length db.rows;
  total_violations = count is_violated db.rows;
  total_rewards = sum (map (λ r. if is_reward r then r.result.amount else pos 0) db.rows);
  total_penalties =
      sum (map (λ r. if is_reward r then pos 0 else pos (abs r.result.amount)) db.rows);
}

-- `ORDER BY created_at DESC, id DESC` puts the second row before the first.
abbrev comes_later : SlaRow → SlaRow → Bool
comes_later r s =
    str_eq s.result.outage_id r.result.outage_id
    && (ltb r.created_at s.created_at || (r.created_at == s.created_at && ltb r.id s.id))

-- The rows with the row number 1.
unfoldable pub latest_results : List SlaRow → List SlaRow
latest_results rows = filter (λ r. not (is_some (first (comes_later r) rows))) rows

pub record Performance : Type 0 where
  pub total_outages : ℕ
  pub total_violations : ℕ
  pub mttr_sum : ℤ
  pub payout_sum : ℤ

unfoldable pub aggregate_performance : SlaDb → Performance
aggregate_performance db =
    let rows = latest_results db.rows in
    record {
      total_outages = length rows;
      total_violations = count is_violated rows;
      mttr_sum = sum (map (λ r. r.result.mttr_minutes) rows);
      payout_sum = sum (map (λ r. r.result.amount) rows);
    }

-- `digest` is SHA-256 of the JSON of the snapshot's data, with the text of `created_at`; the text
-- depends on whether the reading is aware of its zone. `keeps_timezone` says whether the database
-- gives back an aware reading; the one that is written is naive.
pub record SnapshotEnv : Type 0 where
  pub digest : Snapshot → String → String
  pub isoformat : Bool → ℕ → String
  pub keeps_timezone : Bool

module _ (env : SnapshotEnv) where
  unfoldable pub compute_checksum : Bool → Snapshot → String
  compute_checksum aware s =
      env.digest (record s { id = 0; checksum = "" }) (env.isoformat aware s.created_at)

  -- `rebuild_snapshot` has the same body.
  unfoldable pub create_snapshot : String → ℕ → SlaDb → Snapshot × SlaDb
  create_snapshot key now db =
      let kpis = aggregate_dashboard_kpis db in
      let perf = aggregate_performance db in
      let blank : Snapshot = record {
        id = db.next_snapshot;
        snapshot_key = key;
        total_outages = kpis.total_outages;
        total_violations = kpis.total_violations;
        total_rewards = kpis.total_rewards;
        total_penalties = kpis.total_penalties;
        avg_mttr = (perf.mttr_sum, perf.total_outages);
        checksum = "";
        created_at = now;
      } in
      let s = record blank { checksum = compute_checksum false blank } in
      (s, record db { snapshots = db.snapshots ++ s ∷ []; next_snapshot = db.next_snapshot + 1 })

  abbrev pub head_snapshot : List Snapshot → Option Snapshot
  head_snapshot [] = none
  head_snapshot (s ∷ ss) = some s

  unfoldable pub get_latest_snapshot : String → SlaDb → Option Snapshot
  get_latest_snapshot key db =
      head_snapshot
        (sort_desc (λ s. s.created_at) (filter (λ s. str_eq s.snapshot_key key) db.snapshots))

  -- None where there is no snapshot.
  abbrev pub verify_found : Option Snapshot → Option Bool
  verify_found none = none
  verify_found (some s) = some (str_eq (compute_checksum env.keeps_timezone s) s.checksum)

  unfoldable pub verify_snapshot_integrity : String → SlaDb → Option Bool
  verify_snapshot_integrity key db = verify_found (get_latest_snapshot key db)
