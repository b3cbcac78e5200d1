-- ===== src/Webhook/Dispatch.antt =====
-- The attempts of a delivery in app/services/webhook_service.py: `_attempt_delivery`,
-- `dispatch_delivery` and the calls that dispatch again. The HTTP client, JSON and the settings are
-- parameters. A raise leaves what was committed: the objects that a call has changed since are lost.
use noc_iq_be.Prelude.{
  ℕ, zero, suc, ◌+◌, ◌-◌, ◌*◌, String, Bool, true, false, ◌&&◌, Option, none, some, List, [], ◌∷◌,
  str_eq, concat, ltb, leb, ◌==◌, if◌then◌else◌, first, update_first, Error, attribute_error,
  Result, ok, err,
}
use noc_iq_be.Prelude.Call.{Call, ◌>>=◌, ◌>>◌, pure, lift, gets, modify}
use noc_iq_be.Prelude.Int.{ℤ, pos, ltb_ℤ}
use noc_iq_be.Prelude.Text.{decimal}
use noc_iq_be.Prelude.Dict.{Dict}
use noc_iq_be.Webhook.Rows.{
  Webhook, Delivery, pending, success, retrying, dead_letter, event_value, Classification, terminal,
  retryable, classify_http_status,
}
use noc_iq_be.Webhook.Signing.{build_headers}
use noc_iq_be.Webhook.Metrics.{
  Partitions, Observation, MetricSettings, get_partition_for_webhook, record_partition_metrics,
  record_slo_observation,
}
use Prim.Native.Nat.{◌^◌}

-- The response's status; `httpx.TimeoutException`, `httpx.RequestError`; what the code lets through.
pub data HttpOutcome : Type 0 where
  answered : ℕ → HttpOutcome
  timed_out : String → HttpOutcome
  request_error : String → HttpOutcome
  crashed : Error → HttpOutcome

pub record Env : Type 0 where
  pub hmac : String → String → String
  pub isoformat : ℕ → String
  -- json.loads of the text of `Webhook.events`
  pub loads : String → Result (List String)
  pub metrics : MetricSettings
  -- the parsed WEBHOOK_RETRY_BASE_DELAYS
  pub retry_delays : List ℕ
  pub max_delay : ℕ

-- What one attempt meets: the client's answer to a URL, a content and headers, the clock before and
-- after it.
pub record Attempt : Type 0 where
  pub post : String → String → Dict String → HttpOutcome
  pub started : ℕ
  pub finished : ℕ

pub record Db : Type 0 where
  pub webhooks : List Webhook
  pub deliveries : List Delivery
  pub partitions : Partitions
  pub slo_window : List Observation

abbrev pub has_id : String → Delivery → Bool
has_id id d = str_eq d.id id

unfoldable pub get_delivery : String → Db → Option Delivery
get_delivery id db = first (has_id id) db.deliveries

-- The commit of the object that was read by its id.
unfoldable pub commit : Delivery → Db → Db
commit d db = record db { deliveries = update_first (has_id d.id) (λ _. d) db.deliveries }

-- `delivery.webhook`; a missing one is None, and has no attribute.
unfoldable pub webhook_of : Delivery → Db → Result Webhook
webhook_of d db = elim (first (λ w. str_eq w.id d.webhook_id) db.webhooks) [
  | none ↦ err attribute_error
  | some w ↦ ok w
]

abbrev failure_text : Classification → String
failure_text terminal = "Terminal failure: HTTP "
failure_text retryable = "Retryable failure: HTTP "

abbrev accepted : ℕ → Bool
accepted code = leb 200 code && ltb code 300

abbrev pub is_terminal : Classification → Bool
is_terminal terminal = true
is_terminal retryable = false

unfoldable pub take_answer : HttpOutcome → Delivery → Result (Bool × Delivery)
take_answer (answered code) d =
    let heard = record d { response_status_code = some code } in
    let kind = classify_http_status code in
    if is_terminal kind && accepted code
    then ok (true, heard)
    else ok
        (false, record heard { error_message = some (concat (failure_text kind) (decimal code)) })
take_answer (timed_out exc) d =
    ok (false, record d { error_message = some (concat "Request timed out: " exc) })
take_answer (request_error exc) d =
    ok (false, record d { error_message = some (concat "Request error: " exc) })
take_answer (crashed e) d = err e

-- The first commit of `dispatch_delivery`.
unfoldable pub begin_attempt : ℕ → Delivery → Delivery
begin_attempt now d = record d {
  attempt_count = d.attempt_count + 1;
  status = if ltb 0 d.attempt_count then retrying else pending;
  updated_at = now;
}

abbrev pub die : ℕ → Delivery → Delivery
die now d = record d {
  status = dead_letter;
  dead_lettered_at = some now;
  next_retry_at = none;
  updated_at = now;
}

abbrev pub nth : ℕ → List ℕ → Option ℕ
nth n [] = none
nth zero (x ∷ xs) = some x
nth (suc n) (x ∷ xs) = nth n xs

-- `webhook.max_retries or 3`
abbrev pub max_retries_of : Webhook → ℤ
max_retries_of w = elim w.max_retries [ pos n ↦ if n == 0 then pos 3 else pos n | z ↦ z ]

-- A status code that is set and not 0.
abbrev pub ends_delivery : Option ℕ → Bool
ends_delivery none = false
ends_delivery (some code) = if code == 0 then false else is_terminal (classify_http_status code)

abbrev pub min : ℕ → ℕ → ℕ
min a b = if leb a b then a else b

abbrev pub schedule : ℕ → Delivery → Option ℕ → Delivery
schedule now d none = die now d
schedule now d (some delay) = record d {
  next_retry_at = some (now + delay);
  status = retrying;
  updated_at = now;
}

module _ (env : Env) where
  unfoldable pub attempt_delivery : Webhook → Attempt → Delivery → Result (Bool × Delivery)
  attempt_delivery w a d =
      elim (build_headers env.hmac w d.payload d.event d.signature_version d.idempotency_key
        (env.isoformat a.started)) [
          | err e ↦ err e
          | ok headers ↦ take_answer (a.post w.url d.payload headers) d
        ]

  -- The delay of the retry with this index, if there is one.
  unfoldable pub retry_delay : Webhook → ℕ → Option ℕ
  retry_delay w index = elim (nth index env.retry_delays) [
    | none ↦ none
    | some base ↦
        if ltb_ℤ (pos index) (max_retries_of w)
        then some (min (base * 2 ^ index) env.max_delay)
        else none
  ]

  -- The row after the attempt, and the success that is recorded of it.
  unfoldable pub settle : Webhook → ℕ → Bool → Delivery → Delivery × Bool
  settle w now true d = (
    record d { status = success; delivered_at = some now; next_retry_at = none; updated_at = now },
    true,
  )
  settle w now false d =
      if ends_delivery d.response_status_code
      then (die now d, true)
      else (schedule now d (retry_delay w (d.attempt_count - 1)), false)

  unfoldable pub record_attempt : Webhook → List String → Attempt → Delivery → Bool → Db → Db
  record_attempt w events a d observed db = record db {
    partitions =
        record_partition_metrics (get_partition_for_webhook env.metrics w.uuid_int events) observed
          a.finished db.partitions;
    slo_window =
        record_slo_observation env.metrics observed (a.finished - a.started) (event_value d.event)
          w.url a.finished db.slo_window;
  }

  unfoldable pub finish : Webhook → Attempt → List String → Bool × Delivery → Db → Db
  finish w a events (answer, d) db =
      let (d', observed) = settle w a.finished answer d in
      record_attempt w events a d' observed (commit d' db)

  abbrev pub conclude : Webhook → Attempt → Result (Bool × Delivery) → Call Db (Unit {0})
  conclude w a attempted = do
    answer ← lift attempted
    events ← lift (env.loads w.events)
    modify (finish w a events answer)

  unfoldable pub dispatch_row : Attempt → Delivery → Call Db (Unit {0})
  dispatch_row a row = do
    let d = begin_attempt a.started row
    modify (commit d)
    w ← (λ db. (webhook_of d db, db))
    conclude w a (attempt_delivery w a d)

  -- A delivery that is not found is logged.
  abbrev pub dispatch_found : Attempt → Option Delivery → Call Db (Unit {0})
  dispatch_found a none = pure tt
  dispatch_found a (some d) = dispatch_row a d

  unfoldable pub dispatch_delivery : String → Attempt → Call Db (Unit {0})
  dispatch_delivery id a = do found ← gets (get_delivery id); dispatch_found a found
