-- ===== src/Webhook/Stands.antt =====
-- What each endpoint of app/api/v1/endpoints/webhooks.py makes of a delivered row.
use noc_iq_be.Prelude.{
  ℕ, ◌≤◌, String, ◌≡◌, refl, sym, ap, ◌∙◌, inl, inr, Bool, true, false, ◌&&◌, not, Option, none,
  some, List, [], ◌∷◌, arith, str_eq, eq_iff, Bool-cases, filter, count, first, count-filter_le,
  first-holds, first_of_unique, Error, Result, ok, err,
}
use mathlib.Core.Path.{subst}
use noc_iq_be.Webhook.Rows.{Webhook, Delivery, success}
use noc_iq_be.Webhook.Dispatch.{Env, Attempt, Db, has_id, get_delivery, dispatch_delivery}
use noc_iq_be.Webhook.Replay.{replay_dead_letter_delivery}
use noc_iq_be.Webhook.Keepers.{replay_dead_letter_delivery-Keeper}
use noc_iq_be.Webhook.Finality.{Stands, dispatch-Stands, delivered_Keeper}
use noc_iq_be.Webhook.Endpoints.{
  Server, WebhookUpdate, find_webhook, update_found, delete_found, rotate_found, is_webhook,
}
use noc_iq_be.Webhook.Resends.{
  find_delivery, has_succeeded, reread, retry_found, retry_of, after_replay, replay_matched,
  replay_of,
}

reread-db : (gone : Error) (id : String) (x : Result (Unit {0}) × Db) → (reread gone id x).1 ≡ x.1
reread-db gone id (err e, db) = refl
reread-db gone id (ok u, db) = refl

-- What the retry finds under the id of a delivered row is that row.
retry_found-Stands :
    (env : Env) (gone : Error) (a : Attempt) (webhook_id id j : String) (r : Delivery) (db : Db)
    (o : Option Delivery)
    → r.status ≡ success
    → find_delivery webhook_id id db ≡ o
    → Stands j r db
    → Stands j r (retry_found env gone a db o).1
unfolding find_delivery get_delivery
retry_found-Stands env gone a webhook_id id j r db none delivered found p = p
retry_found-Stands env gone a webhook_id id j r db (some d) delivered found p =
    elim (Bool-cases (has_succeeded d.status)) [
      | inl e ↦ rw e p
      | inr e ↦ elim (Bool-cases (str_eq d.id j)) [
        | inr ne ↦ rw e (
            subst (Stands j r) (sym (reread-db gone d.id (dispatch_delivery env d.id a db)))
              (dispatch-Stands env d.id j a r db ne p))
        | inl same ↦
            let here =
              first_of_unique (λ (x : Delivery). str_eq x.id id && str_eq x.webhook_id webhook_id)
                (has_id j) d db.deliveries found same p.1 in
            let one : d ≡ r = (let two = p.0 in cc) in
            let done : has_succeeded d.status ≡ true =
              ap (λ (x : Delivery). has_succeeded x.status) one ∙ ap has_succeeded delivered in
            absurd cc
      ]
    ]

after_replay-db :
    (env : Env) (gone : Error) (id : String) (x : Result Bool × Db)
    → (after_replay env gone id x).1 ≡ x.1
after_replay-db env gone id (err e, db) = refl
after_replay-db env gone id (ok true, db) = refl
after_replay-db env gone id (ok false, db) = refl

replay_matched-Stands :
    (env : Env) (gone : Error) (attempts : String → Attempt) (now : ℕ) (id j : String)
    (r : Delivery) (db : Db) (o : Option Delivery)
    → r.status ≡ success
    → Stands j r db
    → Stands j r (replay_matched env gone attempts now id db o).1
replay_matched-Stands env gone attempts now id j r db none delivered p = p
replay_matched-Stands env gone attempts now id j r db (some d) delivered p =
    subst (Stands j r)
      (sym (after_replay-db env gone id (replay_dead_letter_delivery env attempts id now db)))
      (replay_dead_letter_delivery-Keeper env attempts (Stands j r) now id db
        (delivered_Keeper env j attempts r delivered) p)

pub retry_of-Stands :
    (env : Env) (gone : Error) (a : Attempt) (webhook_id id j : String) (r : Delivery) (db : Db)
    (o : Option Webhook)
    → r.status ≡ success
    → Stands j r db
    → Stands j r (retry_of env gone a webhook_id id db o).1
retry_of-Stands env gone a webhook_id id j r db none delivered p = p
retry_of-Stands env gone a webhook_id id j r db (some w) delivered p =
    retry_found-Stands env gone a webhook_id id j r db (find_delivery webhook_id id db) delivered
      refl p

pub replay_of-Stands :
    (env : Env) (gone : Error) (attempts : String → Attempt) (now : ℕ) (webhook_id id j : String)
    (r : Delivery) (db : Db) (o : Option Webhook)
    → r.status ≡ success
    → Stands j r db
    → Stands j r (replay_of env gone attempts now webhook_id id db o).1
replay_of-Stands env gone attempts now webhook_id id j r db none delivered p = p
replay_of-Stands env gone attempts now webhook_id id j r db (some w) delivered p =
    replay_matched-Stands env gone attempts now id j r db (find_delivery webhook_id id db) delivered
      p

first-filter_kept {ℓ} :
    {A : Type ℓ} (p q : A → Bool) (a : A) (xs : List A)
    → first q xs ≡ some a
    → p a ≡ true
    → first q (filter p xs) ≡ some a
first-filter_kept p q a [] h k = cc
first-filter_kept p q a (x ∷ xs) h k = elim (Bool-cases (q x)) [
  | inl e ↦
      let here : some x ≡ some a = rw e at h in
      let same : x ≡ a = cc in let kept : p x ≡ true = ap p same ∙ k in rw (kept, e) here
  | inr e ↦ elim (Bool-cases (p x)) [
    | inl f ↦ rw (f, e) (first-filter_kept p q a xs (rw e at h) k)
    | inr f ↦ rw f (first-filter_kept p q a xs (rw e at h) k)
  ]
]

pub delete_found-Stands :
    (id j : String) (r : Delivery) (s : Server) (o : Option Webhook)
    → str_eq id r.webhook_id ≡ false
    → find_webhook id s.db ≡ o
    → Stands j r s.db
    → Stands j r (delete_found s o).1.db
unfolding get_delivery find_webhook
delete_found-Stands id j r s none other found p = p
delete_found-Stands id j r s (some w) other found (here, unique) =
    let named : w.id ≡ id =
      (eq_iff w.id id).0 (first-holds (is_webhook id) s.db.webhooks w found) in
    let kept : not (str_eq r.webhook_id w.id) ≡ true =
      elim (Bool-cases (str_eq r.webhook_id w.id)) [
        | inr e ↦ rw e refl
        | inl e ↦
            let same : id ≡ r.webhook_id = sym named ∙ sym ((eq_iff r.webhook_id w.id).0 e) in
            let hit : str_eq id r.webhook_id ≡ true = (eq_iff id r.webhook_id).1 same in absurd cc
      ] in
    let keep = λ (d : Delivery). not (str_eq d.webhook_id w.id) in
    (
      first-filter_kept keep (has_id j) r s.db.deliveries here kept,
      omega (arith, count-filter_le keep (has_id j) s.db.deliveries, unique),
    )

pub update_found-deliveries :
    (dumps : List String → String) (payload : WebhookUpdate) (s : Server) (o : Option Webhook)
    → (update_found dumps payload s o).1.db.deliveries ≡ s.db.deliveries
update_found-deliveries dumps payload s none = refl
update_found-deliveries dumps payload s (some w) = refl

pub rotate_found-deliveries :
    (grace now : ℕ) (new_secret : String) (s : Server) (o : Option Webhook)
    → (rotate_found grace now new_secret s o).1.db.deliveries ≡ s.db.deliveries
rotate_found-deliveries grace now new_secret s none = refl
rotate_found-deliveries grace now new_secret s (some w) = refl

pub same_deliveries-Stands :
    (j : String) (r : Delivery) (db db' : Db)
    → db'.deliveries ≡ db.deliveries
    → Stands j r db
    → Stands j r db'
unfolding get_delivery
same_deliveries-Stands j r db db' same p =
    subst (λ ds. (first (has_id j) ds ≡ some r) × (count (has_id j) ds ≤ 1)) (sym same) p
