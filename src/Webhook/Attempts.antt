-- ===== src/Webhook/Attempts.antt =====
-- One attempt on a delivery by app/services/webhook_service.py: what it makes of the row, and what it
-- keeps.
use noc_iq_be.Prelude.{
  ℕ, ◌+◌, ◌-◌, String, ◌≡◌, refl, sym, Bool, true, false, ◌&&◌, Option, none, some, List, arith,
  eq_iff, ltb, leb, if◌then◌else◌, first, update_first, first-holds, first-update_first, ok,
}
use mathlib.Core.Path.{subst}
use noc_iq_be.Prelude.Dict.{Dict, is_some}
use noc_iq_be.Webhook.Rows.{
  Webhook, Delivery, retrying, dead_letter, retryable, classify_http_status,
}
use noc_iq_be.Webhook.Codes.{classify_iff}
use noc_iq_be.Webhook.Headers.{build_headers_ok}
use noc_iq_be.Webhook.Dispatch.{
  HttpOutcome, answered, timed_out, request_error, crashed, Env, Attempt, Db, has_id, get_delivery,
  commit, webhook_of, take_answer, begin_attempt, ends_delivery, attempt_delivery, retry_delay,
  schedule, settle,
}

-- What no attempt changes.
abbrev pub frozen : Delivery → String × String × String × String × ℕ × ℕ
frozen d =
    (d.id, d.webhook_id, d.payload, d.idempotency_key, d.event_timestamp, d.signature_version)

abbrev pub Kept : Delivery → Delivery → Type 0
Kept r s = frozen s ≡ frozen r

pub get_delivery-id :
    (id : String) (db : Db) (r : Delivery) → get_delivery id db ≡ some r → r.id ≡ id
unfolding get_delivery
get_delivery-id id db r h = (eq_iff r.id id).0 (first-holds (has_id id) db.deliveries r h)

pub get_delivery-commit :
    (id : String) (db : Db) (r d : Delivery)
    → d.id ≡ id
    → get_delivery id db ≡ some r
    → get_delivery id (commit d db) ≡ some d
unfolding get_delivery commit
get_delivery-commit id db r d same h =
    subst (λ i. first (has_id id) (update_first (has_id i) (λ _. d) db.deliveries) ≡ some d)
      (sym same)
      (first-update_first (has_id id) (λ _. d) db.deliveries r h ((eq_iff d.id id).1 same))

-- The answers on which an attempt is to be repeated.
abbrev pub is_outage : HttpOutcome → Bool
is_outage (answered code) = leb 500 code && ltb code 600
is_outage (timed_out exc) = true
is_outage (request_error exc) = true
is_outage (crashed e) = false

-- The endpoint is down during the attempt.
abbrev pub IsDown : Attempt → Type 0
IsDown a =
    (url payload : String) (headers : Dict String) → is_outage (a.post url payload headers) ≡ true

-- The delivery, its webhook and the list of its events are such that an attempt is made.
pub record IsReady (env : Env) (id : String) (w : Webhook) (r : Delivery) (db : Db) : Type 0 where
  pub found : get_delivery id db ≡ some r
  pub version : r.signature_version ≡ 1
  pub webhook : webhook_of r db ≡ ok w
  pub parses : (events : List String) × (env.loads w.events ≡ ok events)
  pub not_ended : ends_delivery r.response_status_code ≡ false

-- What an attempt that the endpoint fails leaves of a row.
pub record Failed (d s : Delivery) : Type 0 where
  pub kept : Kept d s
  pub counted : s.attempt_count ≡ d.attempt_count
  pub not_ended : ends_delivery s.response_status_code ≡ false

retryable-not_ended :
    (code : ℕ) → classify_http_status code ≡ retryable → ends_delivery (some code) ≡ false
retryable-not_ended code e = ground (arith, e)

take_answer-fails :
    (o : HttpOutcome) (d : Delivery)
    → is_outage o ≡ true
    → ends_delivery d.response_status_code ≡ false
    → (s : Delivery) × (take_answer o d ≡ ok (false, s)) × Failed d s
unfolding take_answer
take_answer-fails (answered code) d h k =
    let e = (classify_iff code).1 (ground arith) in
    rw e (_, refl, record { kept = refl; counted = refl; not_ended = retryable-not_ended code e })
take_answer-fails (timed_out exc) d h k =
    (_, refl, record { kept = refl; counted = refl; not_ended = k })
take_answer-fails (request_error exc) d h k =
    (_, refl, record { kept = refl; counted = refl; not_ended = k })
take_answer-fails (crashed e) d h k = cc

pub attempt_delivery-fails :
    (env : Env) (w : Webhook) (a : Attempt) (d : Delivery)
    → d.signature_version ≡ 1
    → IsDown a
    → ends_delivery d.response_status_code ≡ false
    → (s : Delivery) × (attempt_delivery env w a d ≡ ok (false, s)) × Failed d s
unfolding attempt_delivery
attempt_delivery-fails env w a d v down k =
    let (headers, built) =
      build_headers_ok env.hmac w d.payload d.event d.signature_version d.idempotency_key
        (env.isoformat a.started) v in
    rw (built, attempt_delivery)
      (take_answer-fails (a.post w.url d.payload headers) d (down w.url d.payload headers) k)

-- The row after a failed attempt that is to be repeated.
pub record Rescheduled (delay : Option ℕ) (now : ℕ) (r s : Delivery) : Type 0 where
  pub kept : Kept r s
  pub counted : s.attempt_count ≡ r.attempt_count + 1
  pub not_ended : ends_delivery s.response_status_code ≡ false
  pub status : s.status ≡ (if is_some delay then retrying else dead_letter)
  pub due : s.next_retry_at ≡ elim delay [ none ↦ none | some n ↦ some (now + n) ]

schedule-Rescheduled :
    (delay : Option ℕ) (start now : ℕ) (r d : Delivery)
    → Failed (begin_attempt start r) d
    → Rescheduled delay now r (schedule now d delay)
unfolding begin_attempt
schedule-Rescheduled none start now r d f = record {
  kept = f.kept;
  counted = f.counted;
  not_ended = f.not_ended;
  status = refl;
  due = refl;
}
schedule-Rescheduled (some n) start now r d f = record {
  kept = f.kept;
  counted = f.counted;
  not_ended = f.not_ended;
  status = refl;
  due = refl;
}

pub settle-fails :
    (env : Env) (w : Webhook) (start now : ℕ) (r d : Delivery)
    → Failed (begin_attempt start r) d
    → Rescheduled (retry_delay env w r.attempt_count) now r (settle env w now false d).0
unfolding settle
settle-fails env w start now r d f =
    let counted : d.attempt_count ≡ r.attempt_count + 1 = unfold begin_attempt in f.counted in
    let index : d.attempt_count - 1 ≡ r.attempt_count = omega arith in
    rw (f.not_ended, index)
      (schedule-Rescheduled (retry_delay env w r.attempt_count) start now r d f)
