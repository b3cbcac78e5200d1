-- ===== src/Webhook/Runs.antt =====
-- The calls of app/services/webhook_service.py that dispatch again, in any order and number: what
-- they keep of the deliveries.
use noc_iq_be.Prelude.{
  ℕ, ◌+◌, String, ◌≡◌, refl, sym, ◌∙◌, inl, inr, false, some, List, [], ◌∷◌, str_eq, eq_iff,
  Bool-cases, filter, All, first-update_first_other,
}
use noc_iq_be.Prelude.Call.{◌>>=◌, pure, bind_keeps}
use mathlib.Core.Path.{subst}
use noc_iq_be.Webhook.Rows.{Delivery}
use noc_iq_be.Webhook.Dispatch.{
  Env, Attempt, Db, has_id, get_delivery, commit, record_attempt, dispatch_delivery,
}
use noc_iq_be.Webhook.Replay.{
  is_due, dispatch_all, retry_pending_deliveries, replay_dead_letter_delivery,
  recover_deliveries_in_window,
}
use noc_iq_be.Webhook.Attempts.{Kept, get_delivery-id, get_delivery-commit}
use noc_iq_be.Webhook.Failures.{Kept-id}
use noc_iq_be.Webhook.Keepers.{
  Keeper, replay_dead_letter_delivery-Keeper, recover_deliveries_in_window-Keeper,
}
use noc_iq_be.Webhook.Keeping.{dispatch_delivery-Keeps}

pub get_delivery-commit_ne :
    (j : String) (d : Delivery) (db : Db)
    → str_eq d.id j ≡ false
    → get_delivery j (commit d db) ≡ get_delivery j db
unfolding get_delivery commit
get_delivery-commit_ne j d db ne =
    first-update_first_other (has_id d.id) (has_id j) d db.deliveries
      (λ x h. let same = (eq_iff x.id d.id).0 h in rw same ne) ne

-- The row with the id `j` is still that of the delivery `r`.
abbrev pub Holds : String → Delivery → Db → Type 0
Holds j r db = (s : Delivery) × (get_delivery j db ≡ some s) × Kept r s

commit-Holds :
    (j : String) (r d : Delivery) (db : Db)
    → (d.id ≡ j → Kept r d)
    → Holds j r db
    → Holds j r (commit d db)
commit-Holds j r d db k (s, found, kept) = elim (Bool-cases (str_eq d.id j)) [
  | inl e ↦ let same = (eq_iff d.id j).0 e in (d, get_delivery-commit j db s d same found, k same)
  | inr e ↦ (s, get_delivery-commit_ne j d db e ∙ found, kept)
]

dispatch-Holds :
    (env : Env) (id j : String) (a : Attempt) (r : Delivery) (db : Db)
    → Holds j r db
    → Holds j r (dispatch_delivery env id a db).1
dispatch-Holds env id j a r db (s, found, kept) =
    dispatch_delivery-Keeps env id a (Holds j r) db
      (λ r0 found0. record {
        write = λ d db' k p.
            commit-Holds j r d db'
              (λ same.
                let here : id ≡ j =
                  sym (get_delivery-id id db r0 found0) ∙ sym (Kept-id r0 d k) ∙ same in
                let met : get_delivery j db ≡ some r0 =
                  subst (λ i. get_delivery i db ≡ some r0) here found0 in
                let one : s ≡ r0 = cc in k ∙ subst (λ x. Kept r x) one kept)
              p;
        measure = λ w evs d b db' p. unfold record_attempt get_delivery in p;
      })
      (s, found, kept)

-- A call of the service.
pub data Op : Type 0 where
  retry_due : (String → Attempt) → ℕ → Op
  replay : (String → Attempt) → String → ℕ → Op
  recover : (String → Attempt) → (start_time end_time now : ℕ) → Op

unfoldable pub step : Env → Op → Db → Db
step env (retry_due attempts now) db = (retry_pending_deliveries env attempts now db).1
step env (replay attempts id now) db = (replay_dead_letter_delivery env attempts id now db).1
step env (recover attempts start_time end_time now) db =
    (recover_deliveries_in_window env attempts start_time end_time now db).1

-- The calls one after the other, whether they return or raise.
unfoldable pub run : Env → List Op → Db → Db
run env [] db = db
run env (op ∷ ops) db = run env ops (step env op db)

pub run-keeps :
    (env : Env) (P : Db → Type 0) (ops : List Op) (db : Db)
    → ((op : Op) (t : Db) → P t → P (step env op t))
    → P db
    → P (run env ops db)
unfolding run
run-keeps env P [] db h p = p
run-keeps env P (op ∷ ops) db h p = run-keeps env P ops (step env op db) h (h op db p)

pub dispatch_all-keeps :
    (env : Env) (attempts : String → Attempt) (P : Db → Type 0) (Q : Delivery → Type 0)
    (due : List Delivery) (db : Db)
    → ((d : Delivery) (t : Db) → Q d → P t → P (dispatch_delivery env d.id (attempts d.id) t).1)
    → All Q due
    → P db
    → P (dispatch_all env attempts due db).1
unfolding dispatch_all
dispatch_all-keeps env attempts P Q [] db h q p = p
dispatch_all-keeps env attempts P Q (d ∷ due) db h q p =
    bind_keeps P (dispatch_delivery env d.id (attempts d.id))
      (λ _. dispatch_all env attempts due >>= λ n. pure (n + 1)) db (h d db q.0 p)
      (λ _ t p'.
        bind_keeps P (dispatch_all env attempts due) (λ n. pure (n + 1)) t
          (dispatch_all-keeps env attempts P Q due t h q.1 p') (λ _ _ p''. p''))

All-units : (ds : List Delivery) → All (λ _. Unit {0}) ds
All-units [] = tt
All-units (d ∷ ds) = (tt, All-units ds)

-- A property that every dispatch and every write of a row keeps is kept by every call.
pub step-keeps :
    (env : Env) (P : Db → Type 0) (op : Op) (db : Db)
    → ((attempts : String → Attempt) → Keeper env attempts P)
    → ((id : String) (a : Attempt) (t : Db) → P t → P (dispatch_delivery env id a t).1)
    → P db
    → P (step env op db)
unfolding step retry_pending_deliveries
step-keeps env P (retry_due attempts now) db keeper h p =
    dispatch_all-keeps env attempts P (λ _. Unit {0}) (filter (is_due now) db.deliveries) db
      (λ d t _. h d.id (attempts d.id) t) (All-units (filter (is_due now) db.deliveries)) p
step-keeps env P (replay attempts id now) db keeper h p =
    replay_dead_letter_delivery-Keeper env attempts P now id db (keeper attempts) p
step-keeps env P (recover attempts start_time end_time now) db keeper h p =
    recover_deliveries_in_window-Keeper env attempts P start_time end_time now db (keeper attempts)
      p

commit_found-Holds :
    (j : String) (r d e : Delivery) (db : Db)
    → get_delivery d.id db ≡ some d
    → Kept d e
    → Holds j r db
    → Holds j r (commit e db)
commit_found-Holds j r d e db found k (s, met, kept) =
    commit-Holds j r e db
      (λ same.
        let here : d.id ≡ j = sym (Kept-id d e k) ∙ same in
        let twice : get_delivery j db ≡ some d =
          subst (λ i. get_delivery i db ≡ some d) here found in
        let one : s ≡ d = cc in k ∙ subst (λ x. Kept r x) one kept)
      (s, met, kept)

-- No run of these three calls of the service, the retry of the deliveries that are due, the replay of
-- a dead letter and the recovery of a window, removes a delivery, or changes its webhook, its payload,
-- its signature version, or the key and the event's time by which a receiver recognises it. Deletions
-- of webhooks, which remove deliveries, are not among the calls.
pub run-Holds :
    (env : Env) (ops : List Op) (id : String) (db : Db) (r : Delivery)
    → get_delivery id db ≡ some r
    → Holds id r (run env ops db)
run-Holds env ops id db r found =
    run-keeps env (Holds id r) ops db
      (λ op t p.
        step-keeps env (Holds id r) op t
          (λ attempts. record {
            dispatches = λ i d t' _ _ q. dispatch-Holds env i id (attempts i) r t' q;
            writes = λ d e t' met _ k q. commit_found-Holds id r d e t' met k q;
          })
          (λ i a t' q. dispatch-Holds env i id a r t' q) p)
      (r, found, refl)
