-- ===== src/Webhook/Rows.antt =====
-- The rows and enumerations of app/models/webhook.py, and what app/services/webhook_service.py says
-- of a status code and of a payload's version. Times are ticks of the clock; the text of the answer,
-- the names and the times of creation are not kept.
use noc_iq_be.Prelude.{
  ℕ, String, Bool, false, ◌&&◌, ◌||◌, Option, none, some, List, [], ◌∷◌, str_eq, ltb, leb, ◌==◌,
  if◌then◌else◌,
}
use noc_iq_be.Prelude.Int.{ℤ}
use noc_iq_be.Bridge.Guard.{is_in}

pub data WebhookEvent : Type 0 where
  sla_violation sla_warning sla_resolved : WebhookEvent

abbrev pub event_value : WebhookEvent → String
event_value sla_violation = "sla.violation"
event_value sla_warning = "sla.warning"
event_value sla_resolved = "sla.resolved"

pub data DeliveryStatus : Type 0 where
  pending success failed retrying dead_letter : DeliveryStatus

-- `uuid_int` is the number of the UUID whose text is the id.
pub record Webhook : Type 0 where
  pub id : String
  pub uuid_int : ℕ
  pub name : String
  pub url : String
  pub secret : Option String
  pub is_active : Bool
  pub events : String
  pub max_retries : ℤ
  pub last_secret_rotation_at : Option ℕ
  pub secret_version : ℕ
  pub previous_secret : Option String
  pub rotation_grace_expires_at : Option ℕ

pub record Delivery : Type 0 where
  pub id : String
  pub webhook_id : String
  pub event : WebhookEvent
  pub payload : String
  pub status : DeliveryStatus
  pub attempt_count : ℕ
  pub next_retry_at : Option ℕ
  pub response_status_code : Option ℕ
  pub error_message : Option String
  pub delivered_at : Option ℕ
  pub dead_lettered_at : Option ℕ
  pub signature_version : ℕ
  pub idempotency_key : String
  pub event_timestamp : ℕ
  pub updated_at : ℕ

pub data Classification : Type 0 where
  terminal retryable : Classification

abbrev pub among : ℕ → List ℕ → Bool
among n [] = false
among n (m ∷ ms) = n == m || among n ms

abbrev pub retryable_status_codes : List ℕ
retryable_status_codes = 500 ∷ 502 ∷ 503 ∷ 504 ∷ []

-- 2xx, 3xx and 4xx, as the code lists them
abbrev pub terminal_status_codes : List ℕ
terminal_status_codes =
    200 ∷ 201 ∷ 202 ∷ 203 ∷ 204 ∷ 205 ∷ 206 ∷ 207 ∷ 208 ∷ 226 ∷ 300 ∷ 301 ∷ 302 ∷ 303 ∷ 304 ∷ 305
    ∷ 306 ∷ 307 ∷ 308 ∷ 400 ∷ 401 ∷ 402 ∷ 403 ∷ 404 ∷ 405 ∷ 406 ∷ 407 ∷ 408 ∷ 409 ∷ 410 ∷ 411 ∷ 412
    ∷ 413 ∷ 414 ∷ 415 ∷ 416 ∷ 417 ∷ 418 ∷ 421 ∷ 422 ∷ 423 ∷ 424 ∷ 425 ∷ 426 ∷ 428 ∷ 429 ∷ 431 ∷ 451
    ∷ []

unfoldable pub classify_http_status : ℕ → Classification
classify_http_status code =
    if among code retryable_status_codes
    then retryable
    else if among code terminal_status_codes
    then terminal
    else if leb 500 code && ltb code 600
    then retryable
    else terminal

-- The dictionary of versions has one key.
abbrev supported_events : String → Option (List String)
supported_events version =
    if str_eq version "1"
    then some ("sla.violation" ∷ "sla.warning" ∷ "sla.resolved" ∷ [])
    else none

-- `(True, "")` is `none`; the reason of a dead letter otherwise.
unfoldable pub validate_payload_schema_version : String → WebhookEvent → Option String
validate_payload_schema_version version event = elim (supported_events version) [
  | none ↦ some "unknown_schema_version"
  | some events ↦ if is_in (event_value event) events then none else some "incompatible_event_type"
]
