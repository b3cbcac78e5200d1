-- ===== src/Idempotency.antt =====
-- `IdempotencyService` of app/services/idempotency_service.py. The column `expires_at`
-- (app/models/orm/idempotency.py) has no time zone, so a stored datetime comes back naive. JSON is
-- outside of the code: the response's text and its parse are parameters.
mod Examples
use noc_iq_be.Prelude.{
  ℕ, ◌+◌, ◌*◌, String, ◌≡◌, refl, ap, inl, inr, Bool, true, false, not, Option, none, some, List,
  [], ◌∷◌, ◌++◌, arith, str_eq, eq_refl, ltb, Option-cases, length, filter, first, delete_first,
  first-append_none, type_error, integrity_error, Result, ok, err,
}

pub record KeyRow : Type 0 where
  pub key : String
  pub response_json : String
  pub status_code : ℕ
  pub created_at : ℕ
  pub expires_at : ℕ

pub record Metrics : Type 0 where
  pub hits : ℕ
  pub misses : ℕ
  pub stored : ℕ
  pub expired_cleaned : ℕ

pub record State : Type 0 where
  pub rows : List KeyRow
  pub metrics : Metrics

abbrev pub has_key : String → KeyRow → Bool
has_key k row = str_eq row.key k

-- The primary key `id` of a new row is not set, so `merge` inserts, and the unique key clashes.
unfoldable pub store :
    (ttl_hours : ℕ) → String → (response_json : String) → ℕ → ℕ → State → Result (Unit {0}) × State
store ttl_hours k response_json status_code now s = elim (first (has_key k) s.rows) [
  | some row ↦ (err integrity_error, s)
  | none ↦ (
    ok tt,
    record {
      rows =
          s.rows
          ++ record {
            key = k;
            response_json = response_json;
            status_code = status_code;
            created_at = now;
            expires_at = now + ttl_hours * 3600;
          }
            ∷ [];
      metrics = record s.metrics { stored = s.metrics.stored + 1 };
    },
  )
]

-- `row.expires_at < datetime.now(UTC)` compares a naive datetime with an aware one.
abbrev pub before_now : (aware : Bool) → ℕ → ℕ → Result Bool
before_now true expires_at now = ok (ltb expires_at now)
before_now false expires_at now = err type_error

unfoldable pub lookup :
    {J : Type 0} → (loads : String → J) → String → ℕ → State → Result (Option (J × ℕ)) × State
lookup loads k now s = elim (first (has_key k) s.rows) [
  | none ↦ (ok none, record s { metrics = record s.metrics { misses = s.metrics.misses + 1 } })
  | some row ↦ elim (before_now false row.expires_at now) [
    | err e ↦ (err e, s)
    | ok true ↦ (
      ok none,
      record {
        rows = delete_first (has_key k) s.rows;
        metrics = record s.metrics { misses = s.metrics.misses + 1 };
      },
    )
    | ok false ↦ (
      ok (some (loads row.response_json, row.status_code)),
      record s { metrics = record s.metrics { hits = s.metrics.hits + 1 } },
    )
  ]
]

unfoldable pub cleanup_expired : ℕ → State → ℕ × State
cleanup_expired now s =
    let n = length (filter (λ row. ltb row.expires_at now) s.rows) in
    (
      n,
      record {
        rows = filter (λ row. not (ltb row.expires_at now)) s.rows;
        metrics = record s.metrics { expired_cleaned = s.metrics.expired_cleaned + n };
      },
    )

-- A key that was stored is never replayed: until it is cleaned up, the look-up of its response raises
-- TypeError, whenever it comes, and so changes nothing.
pub lookup-store :
    {J : Type 0} (loads : String → J) (ttl_hours : ℕ) (k response_json : String)
    (status_code now later : ℕ) (s : State)
    → (let s' = (store ttl_hours k response_json status_code now s).1 in
        lookup loads k later s' ≡ (err type_error, s'))
unfolding lookup store
lookup-store loads ttl_hours k response_json status_code now later s =
    elim (Option-cases (first (has_key k) s.rows)) [
      | inl new ↦ ground (
        arith,
        first-append_none (has_key k) s.rows
            (record {
              key = k;
              response_json = response_json;
              status_code = status_code;
              created_at = now;
              expires_at = now + ttl_hours * 3600;
            }
              ∷ [])
            new,
        eq_refl k,
      )
      | inr (row, e) ↦ ground arith
    ]

split_counts :
    (now : ℕ) (rows : List KeyRow)
    → length (filter (λ row. ltb row.expires_at now) rows)
        + length (filter (λ row. not (ltb row.expires_at now)) rows)
      ≡ length rows
split_counts now [] = refl
split_counts now (row ∷ rows) = ground (arith, split_counts now rows)

none_left :
    (now : ℕ) (rows : List KeyRow)
    → filter (λ row. ltb row.expires_at now) (filter (λ row. not (ltb row.expires_at now)) rows)
      ≡ []
none_left now [] = refl
none_left now (row ∷ rows) = ground (arith, none_left now rows)

-- A clean-up returns the number of the rows that it removes and adds it to the metric; the rows that
-- have expired are gone, and a second clean-up at the same time removes none.
pub cleanup_lem :
    (now : ℕ) (s : State)
    → (let (n, s') = cleanup_expired now s in
        (n + length s'.rows ≡ length s.rows)
        × (s'.metrics.expired_cleaned ≡ s.metrics.expired_cleaned + n)
        × (filter (λ row. ltb row.expires_at now) s'.rows ≡ [])
        × ((cleanup_expired now s').0 ≡ 0))
unfolding cleanup_expired
cleanup_lem now s =
    (split_counts now s.rows, refl, none_left now s.rows, ap length (none_left now s.rows))
