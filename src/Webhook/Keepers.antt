-- ===== src/Webhook/Keepers.antt =====
-- The replay and the recovery of app/services/webhook_service.py: a property of the database that the
-- writes and the dispatches of undelivered rows keep is kept by both.
use noc_iq_be.Prelude.{
  ℕ, String, ◌≡◌, refl, sym, inl, inr, true, Option, none, some, List, [], ◌∷◌, ltb, Bool-cases,
}
use noc_iq_be.Prelude.Call.{◌>>=◌, ◌>>◌, pure, modify, bind_keeps}
use mathlib.Core.Path.{subst}
use noc_iq_be.Webhook.Rows.{
  Delivery, DeliveryStatus, pending, success, failed, retrying, dead_letter,
}
use noc_iq_be.Webhook.Dispatch.{Env, Attempt, Db, get_delivery, commit, dispatch_delivery}
use noc_iq_be.Webhook.Replay.{
  is_dead_letter, reset, requeue, replay_found, replay_dead_letter_delivery, recover_by,
  recover_found, tally, recover_one, recover_all, recover_deliveries_in_window,
}
use noc_iq_be.Webhook.Attempts.{Kept, get_delivery-id, get_delivery-commit}
use noc_iq_be.Webhook.Failures.{Kept-id}

abbrev pub IsOpen : DeliveryStatus → Type 0
IsOpen success = ⊥
IsOpen _ = Unit

-- A property of the database that a dispatch of an undelivered row keeps, and so does a write of
-- such a row.
pub record Keeper (env : Env) (attempts : String → Attempt) (P : Db → Type 0) : Type 0 where
  pub dispatches :
      (id : String) (d : Delivery) (db : Db)
      → get_delivery id db ≡ some d
      → IsOpen d.status
      → P db
      → P (dispatch_delivery env id (attempts id) db).1
  pub writes :
      (d e : Delivery) (db : Db)
      → get_delivery d.id db ≡ some d
      → IsOpen d.status
      → Kept d e
      → P db
      → P (commit e db)

rewrite-Keeper :
    (env : Env) (attempts : String → Attempt) (P : Db → Type 0) (d e : Delivery) (db : Db)
    → Keeper env attempts P
    → get_delivery d.id db ≡ some d
    → IsOpen d.status
    → IsOpen e.status
    → Kept d e
    → P db
    → P (dispatch_delivery env d.id (attempts d.id) (commit e db)).1
rewrite-Keeper env attempts P d e db keeper found o o' k p =
    keeper.dispatches d.id e (commit e db) (get_delivery-commit d.id db d e (Kept-id d e k) found)
      o' (keeper.writes d e db found o k p)

-- The common shape of a replay and of a recovery.
rewrite_then_dispatch-Keeper :
    (env : Env) (attempts : String → Attempt) (P : Db → Type 0) (d e : Delivery) (db : Db)
    → Keeper env attempts P
    → get_delivery d.id db ≡ some d
    → IsOpen d.status
    → IsOpen e.status
    → Kept d e
    → P db
    → P ((do modify (commit e); dispatch_delivery env d.id (attempts d.id); pure true) db).1
rewrite_then_dispatch-Keeper env attempts P d e db keeper found o o' k p =
    bind_keeps P (dispatch_delivery env d.id (attempts d.id)) (λ _. pure true) (commit e db)
      (rewrite-Keeper env attempts P d e db keeper found o o' k p) (λ _ _ q. q)

is_dead_letter-IsOpen : (s : DeliveryStatus) → is_dead_letter s ≡ true → IsOpen s
is_dead_letter-IsOpen dead_letter h = tt
is_dead_letter-IsOpen pending h = tt
is_dead_letter-IsOpen success h = cc
is_dead_letter-IsOpen failed h = tt
is_dead_letter-IsOpen retrying h = tt

get_delivery-own_id :
    (id : String) (d : Delivery) (db : Db)
    → get_delivery id db ≡ some d
    → get_delivery d.id db ≡ some d
get_delivery-own_id id d db found =
    subst (λ i. get_delivery i db ≡ some d) (sym (get_delivery-id id db d found)) found

replay_found-Keeper :
    (env : Env) (attempts : String → Attempt) (P : Db → Type 0) (now : ℕ) (id : String) (db : Db)
    (o : Option Delivery)
    → Keeper env attempts P
    → get_delivery id db ≡ o
    → P db
    → P (replay_found env attempts now o db).1
replay_found-Keeper env attempts P now id db none keeper found p = p
replay_found-Keeper env attempts P now id db (some d) keeper found p =
    elim (Bool-cases (is_dead_letter d.status)) [
      | inl e ↦ rw e (
          rewrite_then_dispatch-Keeper env attempts P d (reset now d) db keeper
            (get_delivery-own_id id d db found) (is_dead_letter-IsOpen d.status e)
            (unfold reset in tt) (unfold reset in refl) p)
      | inr e ↦ rw e p
    ]

pub replay_dead_letter_delivery-Keeper :
    (env : Env) (attempts : String → Attempt) (P : Db → Type 0) (now : ℕ) (id : String) (db : Db)
    → Keeper env attempts P
    → P db
    → P (replay_dead_letter_delivery env attempts id now db).1
unfolding replay_dead_letter_delivery
replay_dead_letter_delivery-Keeper env attempts P now id db keeper p =
    replay_found-Keeper env attempts P now id db (get_delivery id db) keeper refl p

recover_found-Keeper :
    (env : Env) (attempts : String → Attempt) (P : Db → Type 0) (now : ℕ) (id : String) (db : Db)
    (o : Option Delivery)
    → Keeper env attempts P
    → get_delivery id db ≡ o
    → P db
    → P (recover_found env attempts now o db).1
recover_found-Keeper env attempts P now id db none keeper found p = p
recover_found-Keeper env attempts P now id db (some d) keeper found p = go d.status refl
  where
    again :
        IsOpen d.status
        → P
            ((do modify (commit (requeue d)); dispatch_delivery env d.id (attempts d.id); pure true)
              db).1
    again o =
        rewrite_then_dispatch-Keeper env attempts P d (requeue d) db keeper
          (get_delivery-own_id id d db found) o (unfold requeue in tt) (unfold requeue in refl) p

    go : (s : DeliveryStatus) → d.status ≡ s → P (recover_by env attempts now d s db).1
    go success e = p
    go dead_letter e = replay_dead_letter_delivery-Keeper env attempts P now d.id db keeper p
    go pending e = again (subst IsOpen (sym e) tt)
    go failed e = again (subst IsOpen (sym e) tt)
    go retrying e = again (subst IsOpen (sym e) tt)

recover_all-Keeper :
    (env : Env) (attempts : String → Attempt) (P : Db → Type 0) (now : ℕ)
    (candidates : List Delivery) (db : Db)
    → Keeper env attempts P
    → P db
    → P (recover_all env attempts now candidates db).1
unfolding recover_all recover_one
recover_all-Keeper env attempts P now [] db keeper p = p
recover_all-Keeper env attempts P now (d ∷ candidates) db keeper p =
    bind_keeps P (recover_one env attempts now d)
      (λ done. recover_all env attempts now candidates >>= λ r. pure (tally done r)) db
      (recover_found-Keeper env attempts P now d.id db (get_delivery d.id db) keeper refl p)
      (λ done t q.
        bind_keeps P (recover_all env attempts now candidates) (λ r. pure (tally done r)) t
          (recover_all-Keeper env attempts P now candidates t keeper q) (λ _ _ q'. q'))

pub recover_deliveries_in_window-Keeper :
    (env : Env) (attempts : String → Attempt) (P : Db → Type 0) (start_time end_time now : ℕ)
    (db : Db)
    → Keeper env attempts P
    → P db
    → P (recover_deliveries_in_window env attempts start_time end_time now db).1
unfolding recover_deliveries_in_window
recover_deliveries_in_window-Keeper env attempts P start_time end_time now db keeper p =
    elim (Bool-cases (ltb end_time start_time)) [
      | inl e ↦ rw e p
      | inr e ↦ rw e (recover_all-Keeper env attempts P now _ db keeper p)
    ]
