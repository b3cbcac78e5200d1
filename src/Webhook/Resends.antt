-- ===== src/Webhook/Resends.antt =====
-- The two endpoints of app/api/v1/endpoints/webhooks.py that send a delivery again.
use noc_iq_be.Prelude.{
  ℕ, String, Bool, true, false, ◌&&◌, Option, none, some, str_eq, if◌then◌else◌, first, Error,
  http_exception, Result, ok, err,
}
use noc_iq_be.Webhook.Rows.{Webhook, Delivery, DeliveryStatus, success}
use noc_iq_be.Webhook.Dispatch.{Env, Attempt, Db, get_delivery, dispatch_delivery}
use noc_iq_be.Webhook.Replay.{replay_dead_letter_delivery}
use noc_iq_be.Webhook.Endpoints.{find_webhook, no_webhook}

abbrev pub no_delivery : Error
no_delivery = http_exception 404 "Delivery not found."

unfoldable pub find_delivery : (webhook_id delivery_id : String) → Db → Option Delivery
find_delivery webhook_id delivery_id db =
    first (λ d. str_eq d.id delivery_id && str_eq d.webhook_id webhook_id) db.deliveries

abbrev pub has_succeeded : DeliveryStatus → Bool
has_succeeded success = true
has_succeeded _ = false

-- `db.refresh(delivery)`
abbrev pub reread : Error → String → Result (Unit {0}) × Db → Result Delivery × Db
reread gone id (err e, db) = (err e, db)
reread gone id (ok _, db) = (elim (get_delivery id db) [ none ↦ err gone | some d ↦ ok d ], db)

-- `gone` is what `db.refresh` raises of a row that has vanished.
module _ (env : Env) (gone : Error) where
  abbrev pub retry_found : Attempt → Db → Option Delivery → Result Delivery × Db
  retry_found a db none = (err no_delivery, db)
  retry_found a db (some d) =
      if has_succeeded d.status
      then (err (http_exception 400 "Delivery already succeeded; retry not needed."), db)
      else reread gone d.id (dispatch_delivery env d.id a db)

  abbrev pub retry_of : Attempt → String → String → Db → Option Webhook → Result Delivery × Db
  retry_of a webhook_id id db none = (err no_webhook, db)
  retry_of a webhook_id id db (some w) = retry_found a db (find_delivery webhook_id id db)

  unfoldable pub retry_delivery :
      Attempt → (webhook_id delivery_id : String) → Db → Result Delivery × Db
  retry_delivery a webhook_id id db = retry_of a webhook_id id db (find_webhook webhook_id db)

  abbrev pub after_replay : String → Result Bool × Db → Result Delivery × Db
  after_replay id (err e, db) = (err e, db)
  after_replay id (ok false, db) = (err (http_exception 400 "Failed to replay delivery."), db)
  after_replay id (ok true, db) = reread gone id (ok tt, db)

  abbrev pub replay_matched :
      (String → Attempt) → ℕ → String → Db → Option Delivery → Result Delivery × Db
  replay_matched attempts now id db none = (err no_delivery, db)
  replay_matched attempts now id db (some d) =
      after_replay id (replay_dead_letter_delivery env attempts id now db)

  abbrev pub replay_of :
      (String → Attempt) → ℕ → String → String → Db → Option Webhook → Result Delivery × Db
  replay_of attempts now webhook_id id db none = (err no_webhook, db)
  replay_of attempts now webhook_id id db (some w) =
      replay_matched attempts now id db (find_delivery webhook_id id db)

  unfoldable pub replay_delivery :
      (String → Attempt) → ℕ → (webhook_id delivery_id : String) → Db → Result Delivery × Db
  replay_delivery attempts now webhook_id id db =
      replay_of attempts now webhook_id id db (find_webhook webhook_id db)
