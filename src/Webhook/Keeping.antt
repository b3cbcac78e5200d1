-- ===== src/Webhook/Keeping.antt =====
-- What every call of app/services/webhook_service.py that dispatches a delivery keeps: a property of
-- the database that the writes of the row and the records of the attempt keep.
use noc_iq_be.Prelude.{
  ℕ, ◌-◌, String, ◌≡◌, refl, ◌∙◌, Bool, true, false, ◌&&◌, Option, none, some, List, ltb, leb,
  if◌then◌else◌, Result, ok, err,
}
use noc_iq_be.Prelude.Call.{◌>>=◌, lift, modify}
use noc_iq_be.Prelude.Dict.{Dict}
use noc_iq_be.Webhook.Rows.{Webhook, Delivery, classify_http_status}
use noc_iq_be.Webhook.Dispatch.{
  HttpOutcome, answered, timed_out, request_error, crashed, Env, Attempt, Db, get_delivery, commit,
  webhook_of, take_answer, begin_attempt, ends_delivery, attempt_delivery, retry_delay, schedule,
  settle, record_attempt, finish, conclude, dispatch_row, dispatch_found, dispatch_delivery,
  is_terminal, die,
}
use noc_iq_be.Webhook.Attempts.{Kept}

branch-Kept :
    (c b : Bool) (d x y s : Delivery)
    → Kept d x
    → Kept d y
    → if◌then◌else◌ {A = Result (Bool × Delivery)} c (ok (true, x)) (ok (false, y)) ≡ ok (b, s)
    → Kept d s
branch-Kept true b d x y s kx ky h = cc
branch-Kept false b d x y s kx ky h = cc

take_answer-Kept :
    (o : HttpOutcome) (d s : Delivery) (b : Bool) → take_answer o d ≡ ok (b, s) → Kept d s
unfolding take_answer
take_answer-Kept (answered code) d s b h =
    branch-Kept (is_terminal (classify_http_status code) && (leb 200 code && ltb code 300)) b d _ _
      s refl refl h
take_answer-Kept (timed_out exc) d s b h = cc
take_answer-Kept (request_error exc) d s b h = cc
take_answer-Kept (crashed e) d s b h = cc

sent-Kept :
    (w : Webhook) (a : Attempt) (headers : Result (Dict String)) (d s : Delivery) (b : Bool)
    → elim headers [ err e ↦ err e | ok hs ↦ take_answer (a.post w.url d.payload hs) d ] ≡ ok (b, s)
    → Kept d s
sent-Kept w a (err e) d s b h = cc
sent-Kept w a (ok hs) d s b h = take_answer-Kept (a.post w.url d.payload hs) d s b h

attempt_delivery-Kept :
    (env : Env) (w : Webhook) (a : Attempt) (d s : Delivery) (b : Bool)
    → attempt_delivery env w a d ≡ ok (b, s)
    → Kept d s
unfolding attempt_delivery
attempt_delivery-Kept env w a d s b h = sent-Kept w a _ d s b h

settled-Kept :
    (now : ℕ) (c : Bool) (delay : Option ℕ) (d : Delivery)
    → Kept d
        (if◌then◌else◌ {A = Delivery × Bool} c (die now d, true) (schedule now d delay, false)).0
settled-Kept now true delay d = refl
settled-Kept now false none d = refl
settled-Kept now false (some n) d = refl

settle-Kept :
    (env : Env) (w : Webhook) (now : ℕ) (b : Bool) (d : Delivery) → Kept d (settle env w now b d).0
unfolding settle
settle-Kept env w now true d = refl
settle-Kept env w now false d =
    settled-Kept now (ends_delivery d.response_status_code)
      (retry_delay env w (d.attempt_count - 1)) d

-- What a dispatch does to a database, step by step.
pub record Keeps (env : Env) (a : Attempt) (r : Delivery) (P : Db → Type 0) : Type 0 where
  pub write : (d : Delivery) (db : Db) → Kept r d → P db → P (commit d db)
  pub measure :
      (w : Webhook) (events : List String) (d : Delivery) (b : Bool) (db : Db)
      → P db
      → P (record_attempt env w events a d b db)

finish-Keeps :
    (env : Env) (a : Attempt) (r d : Delivery) (P : Db → Type 0) (w : Webhook)
    (events : List String) (b : Bool) (db : Db)
    → Keeps env a r P
    → Kept r d
    → P db
    → P (finish env w a events (b, d) db)
unfolding finish
finish-Keeps env a r d P w events b db keeps k p =
    keeps.measure w events _ _ _ (keeps.write _ db (settle-Kept env w a.finished b d ∙ k) p)

load-Keeps :
    (env : Env) (a : Attempt) (r d : Delivery) (P : Db → Type 0) (w : Webhook)
    (loaded : Result (List String)) (b : Bool) (db : Db)
    → Keeps env a r P
    → Kept r d
    → P db
    → P ((lift loaded >>= λ events. modify (finish env w a events (b, d))) db).1
load-Keeps env a r d P w (err e) b db keeps k p = p
load-Keeps env a r d P w (ok events) b db keeps k p =
    finish-Keeps env a r d P w events b db keeps k p

conclude-Keeps :
    (env : Env) (a : Attempt) (r : Delivery) (P : Db → Type 0) (w : Webhook)
    (attempted : Result (Bool × Delivery)) (db : Db)
    → Keeps env a r P
    → ((b : Bool) (d : Delivery) → attempted ≡ ok (b, d) → Kept r d)
    → P db
    → P (conclude env w a attempted db).1
conclude-Keeps env a r P w (err e) db keeps kept p = p
conclude-Keeps env a r P w (ok (b, d)) db keeps kept p =
    load-Keeps env a r d P w (env.loads w.events) b db keeps (kept b d refl) p

hook-Keeps :
    (env : Env) (a : Attempt) (r : Delivery) (P : Db → Type 0) (hook : Result Webhook) (db : Db)
    → Keeps env a r P
    → P db
    → P
        ((lift hook >>= λ w.
            conclude env w a (attempt_delivery env w a (begin_attempt a.started r)))
          db).1
hook-Keeps env a r P (err e) db keeps p = p
hook-Keeps env a r P (ok w) db keeps p =
    conclude-Keeps env a r P w (attempt_delivery env w a (begin_attempt a.started r)) db keeps
      (λ b d h.
        attempt_delivery-Kept env w a (begin_attempt a.started r) d b h
        ∙ unfold begin_attempt in refl)
      p

dispatch_row-Keeps :
    (env : Env) (a : Attempt) (r : Delivery) (P : Db → Type 0) (db : Db)
    → Keeps env a r P
    → P db
    → P (dispatch_row env a r db).1
unfolding dispatch_row
dispatch_row-Keeps env a r P db keeps p =
    let start = begin_attempt a.started r in
    hook-Keeps env a r P (webhook_of start (commit start db)) (commit start db) keeps
      (keeps.write start db (unfold begin_attempt in refl) p)

-- A property that the writes and the records of an attempt keep is kept by the dispatch, however it
-- ends.
pub dispatch_delivery-Keeps :
    (env : Env) (id : String) (a : Attempt) (P : Db → Type 0) (db : Db)
    → ((r : Delivery) → get_delivery id db ≡ some r → Keeps env a r P)
    → P db
    → P (dispatch_delivery env id a db).1
unfolding dispatch_delivery
dispatch_delivery-Keeps env id a P db keeps p = go (get_delivery id db) refl
  where
    go : (o : Option Delivery) → get_delivery id db ≡ o → P (dispatch_found env a o db).1
    go none h = p
    go (some r) h = dispatch_row-Keeps env a r P db (keeps r h) p
