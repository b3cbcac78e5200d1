-- ===== src/Webhook/Trigger.antt =====
-- `get_active_webhooks_for_event`, `create_delivery` and `trigger_sla_violation_webhooks` of
-- app/services/webhook_service.py, with the module's cache of parsed events.
use noc_iq_be.Prelude.{
  ℕ, String, Bool, true, false, ◌&&◌, ◌||◌, not, Option, none, some, List, [], ◌∷◌, ◌++◌, str_eq,
  concat, ◌==◌, if◌then◌else◌, filter, first, integrity_error, Result, ok, err,
}
use noc_iq_be.Prelude.Call.{Call, ◌>>=◌, ◌>>◌, pure, lift, gets, modify}
use noc_iq_be.Prelude.Dict.{is_some}
use noc_iq_be.Bridge.Guard.{is_in}
use noc_iq_be.Cache.{TtlCache, get, set, invalidate}
use noc_iq_be.Webhook.Rows.{
  WebhookEvent, event_value, Webhook, Delivery, pending, dead_letter,
  validate_payload_schema_version,
}
use noc_iq_be.Webhook.Redaction.{Json, RedactionSettings, redact_payload}
use noc_iq_be.Webhook.Ssrf.{SsrfSettings, Net, validate_webhook_url}
use noc_iq_be.Webhook.Metrics.{Partitions, is_backpressured, get_partition_for_webhook}
use noc_iq_be.Webhook.Dispatch.{Env, Attempt, Db, commit, dispatch_delivery}

abbrev pub schema_version : String
schema_version = "1"

-- The field `data` is `body` here.
pub record Payload : Type 0 where
  pub version : String
  pub event : WebhookEvent
  pub timestamp : String
  pub body : Json

-- What the trigger takes from outside, but for the dispatch: `@>` of the database on the text of the
-- events, JSON, SHA-256, the reading of an ISO time, and the settings.
pub record TriggerEnv : Type 0 where
  pub contains_event : String → String → Bool
  pub dumps : Payload → String
  pub sha256 : String → String
  pub fromisoformat : String → Result ℕ
  pub redaction : RedactionSettings
  pub ssrf : SsrfSettings
  pub net : Net

abbrev pub EventsCache : Type 0
EventsCache = TtlCache (List String)

abbrev pub cache_key : Webhook → String
cache_key w = concat "webhook_events:" w.id

unfoldable pub invalidate_webhook_cache : Webhook → EventsCache → EventsCache
invalidate_webhook_cache w = invalidate (cache_key w)

unfoldable pub build_redacted_payload : Env → RedactionSettings → Json → WebhookEvent → ℕ → Payload
build_redacted_payload env redaction sla_data event now = record {
  version = schema_version;
  event = event;
  timestamp = env.isoformat now;
  body = redact_payload redaction sla_data;
}

unfoldable pub generate_idempotency_key :
    (String → String) → Webhook → WebhookEvent → String → String
generate_idempotency_key sha256 w event event_timestamp =
    sha256 (concat w.id (concat ":" (concat (event_value event) (concat ":" event_timestamp))))

-- The rows clash on the primary key or on the unique column.
abbrev pub same_row : Delivery → Delivery → Bool
same_row e d = str_eq d.idempotency_key e.idempotency_key || str_eq d.id e.id

unfoldable pub add_delivery : Delivery → Call Db Delivery
add_delivery e db =
    if is_some (first (same_row e) db.deliveries)
    then (err integrity_error, db)
    else (ok e, record db { deliveries = db.deliveries ++ e ∷ [] })

module _ (env : Env) (tenv : TriggerEnv) where
  -- The events of a webhook, from the cache or parsed and cached; a text that does not parse is
  -- skipped.
  abbrev pub parse_events :
      Webhook → ℕ → Option (List String) × EventsCache → Option (List String) × EventsCache
  parse_events w now (some events, cache) = (some events, cache)
  parse_events w now (none, cache) = elim (env.loads w.events) [
    | err e ↦ (none, cache)
    | ok events ↦ (some events, set (cache_key w) events now cache)
  ]

  unfoldable pub events_of : Webhook → ℕ → EventsCache → Option (List String) × EventsCache
  events_of w now cache = parse_events w now (get (cache_key w) now cache)

  abbrev pub subscribed : WebhookEvent → Option (List String) → Bool
  subscribed event none = false
  subscribed event (some events) = is_in (event_value event) events

  unfoldable pub check_events :
      WebhookEvent → ℕ → List Webhook → EventsCache → List Webhook × EventsCache
  check_events event now [] cache = ([], cache)
  check_events event now (w ∷ webhooks) cache =
      let (events, cache') = events_of w now cache in
      let (result, cache'') = check_events event now webhooks cache' in
      (if subscribed event events then w ∷ result else result, cache'')

  -- The filters of the query, then the check of each row.
  unfoldable pub get_active_webhooks_for_event :
      WebhookEvent → ℕ → Db → EventsCache → List Webhook × EventsCache
  get_active_webhooks_for_event event now db cache =
      check_events event now
        (filter (λ w. w.is_active && tenv.contains_event w.events (event_value event)) db.webhooks)
        cache

  -- `id` is the `uuid4()` of the row; the key is a unique column.
  unfoldable pub create_delivery :
      String
      → Webhook
      → WebhookEvent
      → Payload
      → (event_timestamp : String) → ℕ
      → ℕ
      → Call Db Delivery
  create_delivery id w event payload event_timestamp signature_version now = do
    let key = generate_idempotency_key tenv.sha256 w event event_timestamp
    event_dt ← lift (tenv.fromisoformat event_timestamp)
    let delivery : Delivery = record {
      id = id;
      webhook_id = w.id;
      event = event;
      payload = tenv.dumps payload;
      status = pending;
      attempt_count = 0;
      next_retry_at = none;
      response_status_code = none;
      error_message = none;
      delivered_at = none;
      dead_lettered_at = none;
      signature_version = signature_version;
      idempotency_key = key;
      event_timestamp = event_dt;
      updated_at = now;
    }
    add_delivery delivery

  -- What is done with a delivery that has been created: a dead letter, or the first attempt.
  abbrev pub send : Payload → WebhookEvent → ℕ → Attempt → Delivery → Call Db (Unit {0})
  send payload event now a delivery = elim (validate_payload_schema_version payload.version event) [
    | none ↦ dispatch_delivery env delivery.id a
    | some reason ↦ modify (
        commit (record delivery {
          status = dead_letter;
          dead_lettered_at = some now;
          error_message = some (concat "dead_lettered: " reason);
        }))
  ]

  -- Whether the loop of the trigger skips a webhook: its URL fails the check, or its partition is
  -- throttled. The events are parsed anew, without the cache.
  unfoldable pub is_skipped : Webhook → Partitions → Result Bool
  is_skipped w partitions =
      if is_some (validate_webhook_url tenv.ssrf tenv.net w.url)
      then ok true
      else elim (env.loads w.events) [
        | err e ↦ err e
        | ok events ↦
            let pid = get_partition_for_webhook env.metrics w.uuid_int events in
            ok (
              is_backpressured env.metrics pid partitions
              && not (pid == env.metrics.sla_priority_partition))
      ]

  -- The loop; the id and the attempt of each webhook's delivery are functions of the webhook.
  unfoldable pub deliver_to :
      (String → String)
      → (String → Attempt)
      → Payload
      → WebhookEvent
      → String
      → ℕ
      → ℕ
      → List Webhook
      → Call Db (List Delivery)
  deliver_to uuid attempts payload event event_timestamp signature_version now [] = pure []
  deliver_to uuid attempts payload event event_timestamp signature_version now (w ∷ webhooks) =
      let rest =
        deliver_to uuid attempts payload event event_timestamp signature_version now webhooks in
      gets (λ db. db.partitions) >>= λ partitions. lift (is_skipped w partitions) >>= λ skipped.
      elim skipped [
        | true ↦ rest
        | false ↦ (do
          delivery ←
              create_delivery (uuid w.id) w event payload event_timestamp signature_version now
          send payload event now (attempts w.id) delivery
          deliveries ← rest
          pure (delivery ∷ deliveries))
      ]

  -- `now` is the reading of the clock for the deliveries, and `made` that for the payload.
  unfoldable pub trigger_sla_violation_webhooks :
      (String → String)
      → (String → Attempt)
      → Json
      → WebhookEvent
      → ℕ
      → (now made : ℕ) → Db × EventsCache
      → (Result (List Delivery) × Db) × EventsCache
  trigger_sla_violation_webhooks uuid attempts sla_data event signature_version now made
        (db, cache) =
      let (webhooks, cache') = get_active_webhooks_for_event event now db cache in
      let payload = build_redacted_payload env tenv.redaction sla_data event made in
      (
        deliver_to uuid attempts payload event (env.isoformat now) signature_version now webhooks
            db,
        cache',
      )
