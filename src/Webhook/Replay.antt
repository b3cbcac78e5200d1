-- ===== src/Webhook/Replay.antt =====
-- The calls of app/services/webhook_service.py that dispatch deliveries again: the retries that are
-- due, the replay of a dead letter, and the recovery of a window. The attempt on each delivery is a
-- function of its id. The texts of the log and the callback of progress are not kept.
use noc_iq_be.Prelude.{
  ℕ, ◌+◌, String, Bool, true, false, ◌&&◌, Option, none, some, List, [], ◌∷◌, ltb, leb,
  if◌then◌else◌, filter, sort_asc, value_error,
}
use noc_iq_be.Prelude.Call.{Call, ◌>>=◌, ◌>>◌, pure, raise, gets, modify}
use noc_iq_be.Webhook.Rows.{Delivery, DeliveryStatus, pending, success, retrying, dead_letter}
use noc_iq_be.Webhook.Dispatch.{Env, Attempt, Db, get_delivery, commit, dispatch_delivery}

-- A comparison with NULL holds of no row.
abbrev reached : Option ℕ → ℕ → Bool
reached none now = false
reached (some t) now = leb t now

abbrev pub is_retrying : DeliveryStatus → Bool
is_retrying retrying = true
is_retrying _ = false

abbrev pub is_dead_letter : DeliveryStatus → Bool
is_dead_letter dead_letter = true
is_dead_letter _ = false

unfoldable pub is_due : ℕ → Delivery → Bool
is_due now d = is_retrying d.status && reached d.next_retry_at now

-- The row of a replay; the attempt starts after it.
unfoldable pub reset : ℕ → Delivery → Delivery
reset now d = record d {
  status = pending;
  attempt_count = 0;
  next_retry_at = none;
  dead_lettered_at = none;
  error_message = none;
  response_status_code = none;
  delivered_at = none;
  updated_at = now;
}

-- The row of a recovery that is no dead letter.
unfoldable pub requeue : Delivery → Delivery
requeue d = record d { status = pending; next_retry_at = none; dead_lettered_at = none }

pub record Recovered : Type 0 where
  pub total : ℕ
  pub replayed : ℕ
  pub skipped : ℕ

abbrev pub tally : Bool → Recovered → Recovered
tally done r = record {
  total = r.total + 1;
  replayed = r.replayed + (if done then 1 else 0);
  skipped = r.skipped + (if done then 0 else 1);
}

module _ (env : Env) (attempts : String → Attempt) where
  unfoldable pub dispatch_all : List Delivery → Call Db ℕ
  dispatch_all [] = pure 0
  dispatch_all (d ∷ due) = do
    dispatch_delivery env d.id (attempts d.id)
    n ← dispatch_all due
    pure (n + 1)

  unfoldable pub retry_pending_deliveries : ℕ → Call Db ℕ
  retry_pending_deliveries now = do
    due ← gets (λ db. filter (is_due now) db.deliveries)
    dispatch_all due

  abbrev pub replay_found : ℕ → Option Delivery → Call Db Bool
  replay_found now none = pure false
  replay_found now (some d) =
      if is_dead_letter d.status
      then (do modify (commit (reset now d)); dispatch_delivery env d.id (attempts d.id); pure true)
      else pure false

  unfoldable pub replay_dead_letter_delivery : String → ℕ → Call Db Bool
  replay_dead_letter_delivery id now = do found ← gets (get_delivery id); replay_found now found

  -- A candidate is a live object: what an earlier dispatch has written to it is read. A row does not
  -- vanish in between. The result says whether it was replayed.
  abbrev pub recover_by : ℕ → Delivery → DeliveryStatus → Call Db Bool
  recover_by now d success = pure false
  recover_by now d dead_letter = replay_dead_letter_delivery d.id now
  recover_by now d _ = do
    modify (commit (requeue d))
    dispatch_delivery env d.id (attempts d.id)
    pure true

  abbrev pub recover_found : ℕ → Option Delivery → Call Db Bool
  recover_found now none = pure false
  recover_found now (some d) = recover_by now d d.status

  unfoldable pub recover_one : ℕ → Delivery → Call Db Bool
  recover_one now d = do found ← gets (get_delivery d.id); recover_found now found

  unfoldable pub recover_all : ℕ → List Delivery → Call Db Recovered
  recover_all now [] = pure (record { total = 0; replayed = 0; skipped = 0 })
  recover_all now (d ∷ candidates) = do
    done ← recover_one now d
    r ← recover_all now candidates
    pure (tally done r)

  -- `ORDER BY event_timestamp ASC`; `now` is the clock of the replays.
  unfoldable pub recover_deliveries_in_window : (start_time end_time now : ℕ) → Call Db Recovered
  recover_deliveries_in_window start_time end_time now =
      if ltb end_time start_time
      then raise (value_error "end_time must be greater than or equal to start_time")
      else (do
        candidates ← gets (λ db.
            sort_asc (λ d. d.event_timestamp)
              (filter (λ d. leb start_time d.event_timestamp && leb d.event_timestamp end_time)
                db.deliveries))
        recover_all now candidates)
