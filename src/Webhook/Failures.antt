-- ===== src/Webhook/Failures.antt =====
-- A dispatch by app/services/webhook_service.py while the endpoint is down.
use noc_iq_be.Prelude.{ℕ, String, ◌≡◌, refl, ap, ◌∙◌, Bool, false, some, List, ok}
use noc_iq_be.Prelude.Call.{bind_ok, lift, modify}
use noc_iq_be.Webhook.Rows.{Webhook, Delivery}
use noc_iq_be.Webhook.Dispatch.{
  Env, Attempt, Db, get_delivery, commit, webhook_of, begin_attempt, attempt_delivery, retry_delay,
  settle, record_attempt, finish, conclude, dispatch_row, dispatch_found, dispatch_delivery,
}
use noc_iq_be.Webhook.Attempts.{
  Kept, get_delivery-id, get_delivery-commit, IsDown, IsReady, attempt_delivery-fails, Rescheduled,
  settle-fails,
}

webhook_of-commit :
    (now : ℕ) (r d : Delivery) (db : Db)
    → webhook_of (begin_attempt now r) (commit d db) ≡ webhook_of r db
unfolding webhook_of begin_attempt commit
webhook_of-commit now r d db = refl

dispatch_delivery-returns :
    (env : Env) (id : String) (w : Webhook) (a : Attempt) (r : Delivery) (db : Db)
    (answer : Bool × Delivery) (events : List String)
    → get_delivery id db ≡ some r
    → webhook_of r db ≡ ok w
    → attempt_delivery env w a (begin_attempt a.started r) ≡ ok answer
    → env.loads w.events ≡ ok events
    → dispatch_delivery env id a db
      ≡ (ok tt, finish env w a events answer (commit (begin_attempt a.started r) db))
unfolding dispatch_delivery dispatch_row
dispatch_delivery-returns env id w a r db answer events found hook answers parsed =
    let hook' = webhook_of-commit a.started r (begin_attempt a.started r) db ∙ hook in
    let start = begin_attempt a.started r in
    let s = commit start db in
    ap (λ o. dispatch_found env a o db) found
    ∙ bind_ok (λ db'. (webhook_of start db', db'))
        (λ w'. conclude env w' a (attempt_delivery env w' a start)) s s w (ap (λ x. (x, s)) hook')
    ∙ ap (λ x. conclude env w a x s) answers
    ∙ bind_ok (lift (env.loads w.events)) (λ evs. modify (finish env w a evs answer)) s s events
        (ap (λ x. (x, s)) parsed)

pub Kept-id : (r s : Delivery) → Kept r s → s.id ≡ r.id
Kept-id r s k = ap (λ x. x.0) k

get_delivery-finish :
    (env : Env) (id : String) (w : Webhook) (a : Attempt) (events : List String) (answer : Bool)
    (r d : Delivery) (db : Db)
    → get_delivery id db ≡ some r
    → Kept r (settle env w a.finished answer d).0
    → get_delivery id (finish env w a events (answer, d) (commit (begin_attempt a.started r) db))
      ≡ some (settle env w a.finished answer d).0
get_delivery-finish env id w a events answer r d db found k =
    let start = begin_attempt a.started r in
    let named : r.id ≡ id = get_delivery-id id db r found in
    let once : get_delivery id (commit start db) ≡ some start =
      get_delivery-commit id db r start (unfold begin_attempt in named) found in
    unfold finish record_attempt get_delivery in
    (get_delivery-commit id (commit start db) start (settle env w a.finished answer d).0
      (Kept-id r (settle env w a.finished answer d).0 k ∙ named) once)

webhook_of-finish :
    (env : Env) (w : Webhook) (a : Attempt) (events : List String) (answer : Bool × Delivery)
    (r s d : Delivery) (db : Db)
    → Kept r s
    → webhook_of s (finish env w a events answer (commit d db)) ≡ webhook_of r db
unfolding webhook_of finish record_attempt commit
webhook_of-finish env w a events answer r s d db k = rw (ap (λ x. x.1) k) refl

-- An attempt on a delivery that is ready, while the endpoint is down.
pub dispatch_delivery-fails :
    (env : Env) (id : String) (w : Webhook) (a : Attempt) (r : Delivery) (db : Db)
    → IsReady env id w r db
    → IsDown a
    → (s : Delivery) × Rescheduled (retry_delay env w r.attempt_count) a.finished r s
      × IsReady env id w s (dispatch_delivery env id a db).1
dispatch_delivery-fails env id w a r db ready down =
    let start = begin_attempt a.started r in
    let (d, answer, f) =
      attempt_delivery-fails env w a start (unfold begin_attempt in ready.version) down
        (unfold begin_attempt in ready.not_ended) in
    let (events, parsed) = ready.parses in
    let re = settle-fails env w a.started a.finished r d f in
    let done =
      dispatch_delivery-returns env id w a r db (false, d) events ready.found ready.webhook answer
        parsed in
    let s = (settle env w a.finished false d).0 in
    (
      s,
      re,
      record {
        found = rw done (get_delivery-finish env id w a events false r d db ready.found re.kept);
        version = ap (λ x. x.5) re.kept ∙ ready.version;
        webhook =
            rw done
              (webhook_of-finish env w a events (false, d) r s start db re.kept ∙ ready.webhook);
        parses = ready.parses;
        not_ended = re.not_ended;
      },
    )
