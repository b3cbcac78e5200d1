-- ===== src/Webhook/Routing.antt =====
-- Which webhooks the trigger of app/services/webhook_service.py serves, and the one delivery that it
-- makes of an event for each.
use noc_iq_be.Prelude.{
  ℕ, String, ◌≡◌, refl, sym, ap, inl, inr, Bool, true, false, ◌&&◌, not, List, [], ◌∷◌, ◌++◌, arith,
  str_eq, eq_iff, ◌==◌, Bool-cases, first, integrity_error, Result, ok, err,
}
use noc_iq_be.Prelude.Call.{◌>>=◌, lift}
use noc_iq_be.Prelude.Dict.{is_some}
use mathlib.Core.Path.{subst}
use noc_iq_be.Bridge.Guard.{is_in}
use noc_iq_be.Webhook.Rows.{
  WebhookEvent, sla_violation, sla_warning, sla_resolved, event_value, Webhook, Delivery,
}
use noc_iq_be.Webhook.Ssrf.{validate_webhook_url}
use noc_iq_be.Webhook.Metrics.{
  MetricSettings, Partitions, is_backpressured, get_partition_for_webhook, any_in, sla_events,
}
use noc_iq_be.Webhook.Dispatch.{Env, Db}
use noc_iq_be.Webhook.Trigger.{
  TriggerEnv, Payload, same_row, add_delivery, create_delivery, is_skipped,
}

any_in-both :
    (s : String) (xs ys : List String) → is_in s xs ≡ true → is_in s ys ≡ true → any_in xs ys ≡ true
any_in-both s [] ys h k = cc
any_in-both s (x ∷ xs) ys h k = elim (Bool-cases (str_eq x s)) [
  | inl e ↦ (let same = (eq_iff x s).0 e in rw (same, k) refl)
  | inr e ↦ (let rest = any_in-both s xs ys (ground (arith, e)) k in ground (arith, rest))
]

event_value-is_in : (event : WebhookEvent) → is_in (event_value event) sla_events ≡ true
event_value-is_in sla_violation = refl
event_value-is_in sla_warning = refl
event_value-is_in sla_resolved = refl

get_partition-priority :
    (settings : MetricSettings) (event : WebhookEvent) (n : ℕ) (events : List String)
    → is_in (event_value event) events ≡ true
    → get_partition_for_webhook settings n events ≡ settings.sla_priority_partition
unfolding get_partition_for_webhook
get_partition-priority settings event n events h =
    let all = any_in-both (event_value event) events sla_events h (event_value-is_in event) in
    rw all refl

throttle_none : (b : Bool) (m n : ℕ) → m ≡ n → (b && not (m == n)) ≡ false
throttle_none b m n h = ground arith

-- A webhook that subscribes to any of the three events is never throttled, however full the
-- partitions are: it is skipped for its URL alone.
pub is_skipped-of_subscribed :
    (env : Env) (tenv : TriggerEnv) (w : Webhook) (event : WebhookEvent) (events : List String)
    (partitions : Partitions)
    → env.loads w.events ≡ ok events
    → is_in (event_value event) events ≡ true
    → is_skipped env tenv w partitions
      ≡ ok (is_some (validate_webhook_url tenv.ssrf tenv.net w.url))
unfolding is_skipped
is_skipped-of_subscribed env tenv w event events partitions parsed h =
    let home = get_partition-priority env.metrics event w.uuid_int events h in
    elim (Bool-cases (is_some (validate_webhook_url tenv.ssrf tenv.net w.url))) [
      | inl e ↦ rw e refl
      | inr e ↦
          rw
            (
              e,
              parsed,
              throttle_none
                  (is_backpressured env.metrics
                    (get_partition_for_webhook env.metrics w.uuid_int events) partitions)
                  (get_partition_for_webhook env.metrics w.uuid_int events)
                  env.metrics.sla_priority_partition home,
            )
            refl
    ]

first-append_some :
    {A : Type 0} (p : A → Bool) (xs : List A) (a : A)
    → p a ≡ true
    → is_some (first p (xs ++ a ∷ [])) ≡ true
first-append_some p [] a h = rw h refl
first-append_some p (x ∷ xs) a h = ground (arith, first-append_some p xs a h)

add_delivery-twice :
    (d e d' : Delivery) (db db' : Db)
    → e.idempotency_key ≡ d.idempotency_key
    → add_delivery d db ≡ (ok d', db')
    → add_delivery e db' ≡ (err integrity_error, db')
unfolding add_delivery
add_delivery-twice d e d' db db' same h =
    elim (Bool-cases (is_some (first (same_row d) db.deliveries))) [
      | inl c ↦ (let h' = rw c at h in absurd cc)
      | inr c ↦
          let h' = rw c at h in
          let next : record db { deliveries = db.deliveries ++ d ∷ [] } ≡ db' = ap (λ x. x.1) h' in
          let hit : same_row e d ≡ true =
            ground (arith, (eq_iff d.idempotency_key e.idempotency_key).1 (sym same)) in
          let clash = first-append_some (same_row e) db.deliveries d hit in
          subst (λ t. add_delivery e t ≡ (err integrity_error, t)) next
            (unfold add_delivery in rw clash refl)
    ]

lifted :
    (r : Result ℕ) (f g : ℕ → Delivery) (d : Delivery) (db db' : Db)
    → ((t : ℕ) → (g t).idempotency_key ≡ (f t).idempotency_key)
    → (lift r >>= λ t. add_delivery (f t)) db ≡ (ok d, db')
    → (lift r >>= λ t. add_delivery (g t)) db' ≡ (err integrity_error, db')
lifted (err e) f g d db db' same h = absurd cc
lifted (ok t) f g d db db' same h = add_delivery-twice (f t) (g t) d db db' (same t) h

-- An event has one delivery to a webhook: after a delivery has been made for a webhook, an event and
-- a time, another for the same three raises IntegrityError and changes nothing.
pub create_delivery-twice :
    (env : Env) (tenv : TriggerEnv) (w : Webhook) (event : WebhookEvent) (event_timestamp : String)
    (id id' : String) (p p' : Payload) (v v' now now' : ℕ) (db db' : Db) (d : Delivery)
    → create_delivery env tenv id w event p event_timestamp v now db ≡ (ok d, db')
    → create_delivery env tenv id' w event p' event_timestamp v' now' db'
      ≡ (err integrity_error, db')
unfolding create_delivery
create_delivery-twice env tenv w event event_timestamp id id' p p' v v' now now' db db' d h =
    lifted (tenv.fromisoformat event_timestamp) _ _ d db db' (λ _. refl) h
