-- ===== src/Webhook/Finality.antt =====
-- What holds through every run of the calls of app/services/webhook_service.py: the end of a
-- delivery, and the partitions that fill.
use noc_iq_be.Prelude.{
  ℕ, ◌+◌, ◌≤◌, String, ◌≡◌, refl, ap, ◌∙◌, inl, inr, Bool, true, false, some, List, [], ◌∷◌, arith,
  str_eq, eq_iff, ◌==◌, if◌then◌else◌, leb→le, le→leb, Bool-cases, filter, count,
  count-update_first_other, filter_unique_dropped,
}
use mathlib.Core.Path.{subst}
use noc_iq_be.Webhook.Rows.{Webhook, Delivery, success}
use noc_iq_be.Webhook.Metrics.{
  get_or, put, get_partition_for_webhook, get_partition_pending_count, record_partition_metrics,
  is_backpressured,
}
use noc_iq_be.Webhook.Dispatch.{
  Env, Attempt, Db, has_id, get_delivery, commit, record_attempt, dispatch_delivery,
}
use noc_iq_be.Webhook.Replay.{is_due, retry_pending_deliveries}
use noc_iq_be.Webhook.Attempts.{get_delivery-id}
use noc_iq_be.Webhook.Failures.{Kept-id}
use noc_iq_be.Webhook.Keepers.{
  IsOpen, Keeper, replay_dead_letter_delivery-Keeper, recover_deliveries_in_window-Keeper,
}
use noc_iq_be.Webhook.Keeping.{dispatch_delivery-Keeps}
use noc_iq_be.Webhook.Runs.{
  Op, retry_due, replay, recover, step, run, run-keeps, dispatch_all-keeps, step-keeps,
  get_delivery-commit_ne,
}

get_or-put :
    (n m v : ℕ) (d : List (ℕ × ℕ)) → get_or 0 m (put n v d) ≡ (if n == m then v else get_or 0 m d)
get_or-put n m v [] = refl
get_or-put n m v ((k, w) ∷ d) = ground (arith, get_or-put n m v d)

counted_up : (f : ℕ → ℕ) (m n k x : ℕ) → k ≤ f n → k ≤ (if m == n then f m + x else f n)
counted_up f m n k x h = elim (Bool-cases (m == n)) [
  | inl e ↦
      (let same : n ≡ m = ground arith in let h' = subst (λ i. k ≤ f i) same h in ground arith)
  | inr e ↦ ground arith
]

record_attempt-lag :
    (env : Env) (pid k : ℕ) (w : Webhook) (events : List String) (a : Attempt) (d : Delivery)
    (b : Bool) (db : Db)
    → k ≤ get_or 0 pid db.partitions.lag
    → k ≤ get_or 0 pid (record_attempt env w events a d b db).partitions.lag
unfolding record_attempt record_partition_metrics
record_attempt-lag env pid k w events a d b db h =
    let m = get_partition_for_webhook env.metrics w.uuid_int events in
    rw (get_or-put m pid (get_or 0 m db.partitions.lag + (if b then 0 else 1)) db.partitions.lag)
      (counted_up (λ i. get_or 0 i db.partitions.lag) m pid k (if b then 0 else 1) h)

dispatch-lag :
    (env : Env) (id : String) (a : Attempt) (pid k : ℕ) (db : Db)
    → k ≤ get_or 0 pid db.partitions.lag
    → k ≤ get_or 0 pid (dispatch_delivery env id a db).1.partitions.lag
dispatch-lag env id a pid k db h =
    dispatch_delivery-Keeps env id a (λ t. k ≤ get_or 0 pid t.partitions.lag) db
      (λ r found. record {
        write = λ d t kept q. unfold commit in q;
        measure = λ w events d b t q. record_attempt-lag env pid k w events a d b t q;
      })
      h

-- A partition that is backpressured is so for ever: no call makes its count of pending deliveries
-- fall, be its deliveries successful or not.
pub backpressure_stays :
    (env : Env) (ops : List Op) (pid : ℕ) (db : Db)
    → is_backpressured env.metrics pid db.partitions ≡ true
    → is_backpressured env.metrics pid (run env ops db).partitions ≡ true
unfolding is_backpressured get_partition_pending_count
backpressure_stays env ops pid db h =
    let k = env.metrics.backpressure_threshold in
    le→leb k (get_or 0 pid (run env ops db).partitions.lag) (
      run-keeps env (λ t. k ≤ get_or 0 pid t.partitions.lag) ops db
        (λ op t p.
          step-keeps env (λ x. k ≤ get_or 0 pid x.partitions.lag) op t
            (λ attempts. record {
              dispatches = λ i d t' _ _ q. dispatch-lag env i (attempts i) pid k t' q;
              writes = λ d e t' _ _ _ q. unfold commit in q;
            })
            (λ i a t' q. dispatch-lag env i a pid k t' q) p)
        (leb→le k (get_or 0 pid db.partitions.lag) h))

-- The row is the delivered one, and the only one with its id.
abbrev pub Stands : String → Delivery → Db → Type 0
Stands j r db = (get_delivery j db ≡ some r) × (count (has_id j) db.deliveries ≤ 1)

commit-Stands :
    (j : String) (r d : Delivery) (db : Db)
    → str_eq d.id j ≡ false
    → Stands j r db
    → Stands j r (commit d db)
commit-Stands j r d db ne (found, unique) = (
  get_delivery-commit_ne j d db ne ∙ found,
  (unfold commit in
      (rw
        (count-update_first_other (has_id d.id) (has_id j) d db.deliveries
          (λ x h. let same = (eq_iff x.id d.id).0 h in rw same ne) ne)
        unique)),
)

pub dispatch-Stands :
    (env : Env) (id j : String) (a : Attempt) (r : Delivery) (db : Db)
    → str_eq id j ≡ false
    → Stands j r db
    → Stands j r (dispatch_delivery env id a db).1
dispatch-Stands env id j a r db ne p =
    dispatch_delivery-Keeps env id a (Stands j r) db
      (λ r0 found. record {
        write = λ d t kept q.
            let named : d.id ≡ id = Kept-id r0 d kept ∙ get_delivery-id id db r0 found in
            commit-Stands j r d t (rw named ne) q;
        measure = λ w events d b t q. unfold record_attempt get_delivery in q;
      })
      p

open_ne :
    (j id : String) (r d : Delivery) (db : Db)
    → r.status ≡ success
    → get_delivery id db ≡ some d
    → IsOpen d.status
    → get_delivery j db ≡ some r
    → str_eq id j ≡ false
open_ne j id r d db delivered found o met = elim (Bool-cases (str_eq id j)) [
  | inl e ↦
      let same : id ≡ j = (eq_iff id j).0 e in
      let found' : get_delivery j db ≡ some d =
        subst (λ i. get_delivery i db ≡ some d) same found in
      let one : d ≡ r = cc in
      absurd (subst IsOpen (ap (λ (x : Delivery). x.status) one ∙ delivered) o)
  | inr e ↦ e
]

pub delivered_Keeper :
    (env : Env) (j : String) (attempts : String → Attempt) (r : Delivery)
    → r.status ≡ success
    → Keeper env attempts (Stands j r)
delivered_Keeper env j attempts r delivered = record {
  dispatches = λ i d t met o q.
      dispatch-Stands env i j (attempts i) r t (open_ne j i r d t delivered met o q.0) q;
  writes = λ d e t met o k q.
      let ne = open_ne j d.id r d t delivered met o q.0 in
      let named = Kept-id d e k in commit-Stands j r e t (rw named ne) q;
}

pub delivered_step :
    (env : Env) (j : String) (r : Delivery) (op : Op) (db : Db)
    → r.status ≡ success
    → Stands j r db
    → Stands j r (step env op db)
unfolding step retry_pending_deliveries
delivered_step env j r (retry_due attempts now) db delivered p =
    dispatch_all-keeps env attempts (Stands j r) (λ d. str_eq d.id j ≡ false)
      (filter (is_due now) db.deliveries) db
      (λ d t ne q. dispatch-Stands env d.id j (attempts d.id) r t ne q)
      (filter_unique_dropped (is_due now) (has_id j) r db.deliveries (unfold get_delivery in p.0)
        p.1 (unfold is_due in (rw delivered refl)))
      p
delivered_step env j r (replay attempts id now) db delivered p =
    replay_dead_letter_delivery-Keeper env attempts (Stands j r) now id db
      (delivered_Keeper env j attempts r delivered) p
delivered_step env j r (recover attempts start_time end_time now) db delivered p =
    recover_deliveries_in_window-Keeper env attempts (Stands j r) start_time end_time now db
      (delivered_Keeper env j attempts r delivered) p

-- A delivery that has succeeded is final: no call changes its row or removes it, where its id is
-- unique.
pub delivered_final :
    (env : Env) (ops : List Op) (id : String) (db : Db) (r : Delivery)
    → get_delivery id db ≡ some r
    → r.status ≡ success
    → count (has_id id) db.deliveries ≤ 1
    → get_delivery id (run env ops db) ≡ some r
delivered_final env ops id db r found delivered unique =
    (run-keeps env (Stands id r) ops db (λ op t p. delivered_step env id r op t delivered p)
      (found, unique)).0
