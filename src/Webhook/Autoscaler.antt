-- ===== src/Webhook/Autoscaler.antt =====
-- `WebhookAutoscaler` of app/tasks/webhook_autoscaler.py. The depths of the queues are what Redis
-- answers; the counts per partition, which never change, and the texts of the log are not kept.
use noc_iq_be.Prelude.{
  ℕ, ◌+◌, ◌-◌, ◌≤◌, Bool, true, false, Option, none, some, List, [], ◌∷◌, arith, ltb, leb,
  if◌then◌else◌,
}

pub data ScaleAction : Type 0 where
  no_action scale_up at_max scale_down at_min : ScaleAction

pub record ScalerSettings : Type 0 where
  pub worker_min : ℕ
  pub worker_max : ℕ
  pub scale_up_threshold : ℕ
  pub scale_down_threshold : ℕ

pub record ScaleEvent : Type 0 where
  pub action : ScaleAction
  pub total_queue_depth : ℕ
  pub max_partition_depth : ℕ
  pub previous_workers : ℕ
  pub current_workers : ℕ

pub record Scaler : Type 0 where
  pub current_workers : ℕ
  pub last_scale_event : Option ScaleEvent

-- What the queues answer to one check: their total, and the depth of each partition.
pub record Depths : Type 0 where
  pub total : ℕ
  pub partitions : List ℕ

abbrev max_of : List ℕ → ℕ
max_of [] = 0
max_of (x ∷ xs) = let m = max_of xs in if leb x m then m else x

abbrev decide : ScalerSettings → (total deepest workers : ℕ) → ScaleAction × ℕ
decide settings total deepest workers =
    if ltb settings.scale_up_threshold deepest
    then (let new =
          if leb (workers + 2) settings.worker_max then workers + 2 else settings.worker_max in
        (if ltb workers new then scale_up else at_max, new))
    else if ltb total settings.scale_down_threshold
    then (let new =
          if leb settings.worker_min (workers - 1) then workers - 1 else settings.worker_min in
        (if ltb new workers then scale_down else at_min, new))
    else (no_action, workers)

-- The actions that are kept as the last event.
abbrev scales : ScaleAction → Bool
scales scale_up = true
scales scale_down = true
scales _ = false

module _ (settings : ScalerSettings) where
  abbrev pub start : Scaler
  start = record { current_workers = settings.worker_min; last_scale_event = none }

  unfoldable pub check_and_signal : Depths → Scaler → ScaleEvent × Scaler
  check_and_signal depths s =
      let deepest = max_of depths.partitions in
      let (action, new) = decide settings depths.total deepest s.current_workers in
      let event : ScaleEvent = record {
        action = action;
        total_queue_depth = depths.total;
        max_partition_depth = deepest;
        previous_workers = s.current_workers;
        current_workers = new;
      } in
      (
        event,
        record {
          current_workers = new;
          last_scale_event = if scales action then some event else s.last_scale_event;
        },
      )

  unfoldable pub checks : List Depths → Scaler → Scaler
  checks [] s = s
  checks (depths ∷ later) s = checks later (check_and_signal depths s).1

-- However deep the queues are, the workers stay within the settings' bounds.
pub checks_bounded :
    (settings : ScalerSettings) (answers : List Depths) (s : Scaler)
    → settings.worker_min ≤ settings.worker_max
    → settings.worker_min ≤ s.current_workers
    → s.current_workers ≤ settings.worker_max
    → (settings.worker_min ≤ (checks settings answers s).current_workers)
      × ((checks settings answers s).current_workers ≤ settings.worker_max)
unfolding checks check_and_signal
checks_bounded settings [] s m lo hi = (lo, hi)
checks_bounded settings (depths ∷ answers) s m lo hi =
    let next = (check_and_signal settings depths s).1 in
    checks_bounded settings answers next m (ground arith) (ground arith)
