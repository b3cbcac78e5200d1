-- ===== src/Webhook/Requests.antt =====
-- Requests to the endpoints of app/api/v1/endpoints/webhooks.py in a row, with the calls of
-- app/services/webhook_service.py between them.
use noc_iq_be.Prelude.{
  ℕ, ◌≤◌, String, ◌≡◌, refl, Bool, true, false, not, some, List, [], ◌∷◌, arith, str_eq, All, count,
  Error,
}
use noc_iq_be.Webhook.Rows.{Delivery, success}
use noc_iq_be.Webhook.Dispatch.{Env, Attempt, Db, has_id, get_delivery, dispatch_delivery}
use noc_iq_be.Webhook.Attempts.{get_delivery-id}
use mathlib.Core.Path.{subst}
use noc_iq_be.Webhook.Runs.{Op, step}
use noc_iq_be.Webhook.Finality.{Stands, dispatch-Stands, delivered_step}
use noc_iq_be.Webhook.Endpoints.{
  Server, WebhookCreate, WebhookUpdate, find_webhook, create_webhook, update_found, update_webhook,
  delete_webhook, rotate_found, rotate_webhook_secret,
}
use noc_iq_be.Webhook.Resends.{retry_delivery, replay_delivery}
use noc_iq_be.Webhook.Stands.{
  retry_of-Stands, replay_of-Stands, delete_found-Stands, update_found-deliveries,
  rotate_found-deliveries, same_deliveries-Stands,
}

pub data Request : Type 0 where
  post_webhook : (List String → String) → String → ℕ → WebhookCreate → Request
  change_webhook : (List String → String) → String → WebhookUpdate → Request
  remove_webhook : String → Request
  rotate_secret : (grace now : ℕ) → (new_secret id : String) → Request
  post_retry : Attempt → (webhook_id delivery_id : String) → Request
  post_replay : (String → Attempt) → ℕ → (webhook_id delivery_id : String) → Request
  direct_dispatch : Attempt → (delivery_id : String) → Request
  service_call : Op → Request

abbrev pub with_db : Server → Db → Server
with_db s db = record s { db = db }

module _ (env : Env) (gone : Error) where
  unfoldable pub handle : Request → Server → Server
  handle (post_webhook dumps id n payload) s = (create_webhook dumps id n payload s).1
  handle (change_webhook dumps id payload) s = (update_webhook dumps id payload s).1
  handle (remove_webhook id) s = (delete_webhook id s).1
  handle (rotate_secret grace now new_secret id) s =
      (rotate_webhook_secret grace now new_secret id s).1
  handle (post_retry a webhook_id id) s = with_db s (retry_delivery env gone a webhook_id id s.db).1
  handle (post_replay attempts now webhook_id id) s =
      with_db s (replay_delivery env gone attempts now webhook_id id s.db).1
  handle (direct_dispatch a id) s = with_db s (dispatch_delivery env id a s.db).1
  handle (service_call op) s = with_db s (step env op s.db)

  unfoldable pub handle_all : List Request → Server → Server
  handle_all [] s = s
  handle_all (q ∷ qs) s = handle_all qs (handle q s)

-- The request is not the deletion of the delivery's webhook, and not a direct dispatch of the
-- delivery: `dispatch_delivery`, which the tasks call, sends whatever the status.
abbrev pub spares : Delivery → Request → Bool
spares r (remove_webhook id) = not (str_eq id r.webhook_id)
spares r (direct_dispatch a id) = not (str_eq id r.id)
spares r _ = true

handle-Stands :
    (env : Env) (gone : Error) (j : String) (r : Delivery) (q : Request) (s : Server)
    → r.status ≡ success
    → spares r q ≡ true
    → Stands j r s.db
    → Stands j r (handle env gone q s).db
unfolding handle create_webhook update_webhook delete_webhook rotate_webhook_secret retry_delivery
    replay_delivery
handle-Stands env gone j r (post_webhook dumps id n payload) s delivered spared p =
    same_deliveries-Stands j r s.db (create_webhook dumps id n payload s).1.db refl p
handle-Stands env gone j r (change_webhook dumps id payload) s delivered spared p =
    same_deliveries-Stands j r s.db (update_found dumps payload s (find_webhook id s.db)).1.db
      (update_found-deliveries dumps payload s (find_webhook id s.db)) p
handle-Stands env gone j r (remove_webhook id) s delivered spared p =
    delete_found-Stands id j r s (find_webhook id s.db) (ground arith) refl p
handle-Stands env gone j r (rotate_secret grace now new_secret id) s delivered spared p =
    same_deliveries-Stands j r s.db
      (rotate_found grace now new_secret s (find_webhook id s.db)).1.db
      (rotate_found-deliveries grace now new_secret s (find_webhook id s.db)) p
handle-Stands env gone j r (post_retry a webhook_id id) s delivered spared p =
    retry_of-Stands env gone a webhook_id id j r s.db (find_webhook webhook_id s.db) delivered p
handle-Stands env gone j r (post_replay attempts now webhook_id id) s delivered spared p =
    replay_of-Stands env gone attempts now webhook_id id j r s.db (find_webhook webhook_id s.db)
      delivered p
handle-Stands env gone j r (direct_dispatch a id) s delivered spared p =
    let named : r.id ≡ j = get_delivery-id j s.db r p.0 in
    dispatch-Stands env id j a r s.db (subst (λ i. str_eq id i ≡ false) named (ground arith)) p
handle-Stands env gone j r (service_call op) s delivered spared p =
    delivered_step env j r op s.db delivered p

handle_all-Stands :
    (env : Env) (gone : Error) (j : String) (r : Delivery) (qs : List Request) (s : Server)
    → r.status ≡ success
    → All (λ q. spares r q ≡ true) qs
    → Stands j r s.db
    → Stands j r (handle_all env gone qs s).db
unfolding handle_all
handle_all-Stands env gone j r [] s delivered spared p = p
handle_all-Stands env gone j r (q ∷ qs) s delivered (one, rest) p =
    handle_all-Stands env gone j r qs (handle env gone q s) delivered rest
      (handle-Stands env gone j r q s delivered one p)

-- A delivery that has succeeded, and whose id is unique, stays as it is through every run of these
-- calls: the endpoints that create, change and delete webhooks, rotate secrets, and retry and replay
-- a delivery; direct dispatches; the retry of what is due, the replay of a dead letter and the
-- recovery of a window. Two things are excluded: the deletion of its own webhook, and a direct dispatch
-- of the delivery itself, which sends it again. The trigger and the replay by context are not among the
-- calls.
pub handle_all-delivered :
    (env : Env) (gone : Error) (qs : List Request) (id : String) (s : Server) (r : Delivery)
    → get_delivery id s.db ≡ some r
    → r.status ≡ success
    → count (has_id id) s.db.deliveries ≤ 1
    → All (λ q. spares r q ≡ true) qs
    → get_delivery id (handle_all env gone qs s).db ≡ some r
handle_all-delivered env gone qs id s r found delivered unique spared =
    (handle_all-Stands env gone id r qs s delivered spared (found, unique)).0
