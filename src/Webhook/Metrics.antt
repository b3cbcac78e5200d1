-- ===== src/Webhook/Metrics.antt =====
-- The partitions and the observations that app/services/webhook_service.py keeps in memory: the
-- module's three dictionaries of numbers and its sliding window. Clock readings and latencies are
-- whole; rates are counts over counts.
use noc_iq_be.Prelude.{
  ℕ, ◌+◌, ◌%◌, String, Bool, false, ◌||◌, List, [], ◌∷◌, ◌++◌, ltb, leb, ◌==◌, if◌then◌else◌,
  filter,
}
use noc_iq_be.Bridge.Guard.{is_in}

module _ {V : Type 0} where
  -- `d.get(n, default)`
  abbrev pub get_or : V → ℕ → List (ℕ × V) → V
  get_or default n [] = default
  get_or default n ((m, v) ∷ d) = if m == n then v else get_or default n d

  -- `d[n] = v`
  abbrev pub put : ℕ → V → List (ℕ × V) → List (ℕ × V)
  put n v [] = (n, v) ∷ []
  put n v ((m, w) ∷ d) = if m == n then (m, v) ∷ d else (m, w) ∷ put n v d

pub record Partitions : Type 0 where
  pub lag : List (ℕ × ℕ)
  pub throughput : List (ℕ × ℕ)
  pub last_recorded : List (ℕ × ℕ)

pub record Observation : Type 0 where
  pub timestamp : ℕ
  pub success : Bool
  pub latency_ms : ℕ
  pub event : String
  pub endpoint : String

pub record MetricSettings : Type 0 where
  pub partition_count : ℕ
  pub sla_priority_partition : ℕ
  pub backpressure_threshold : ℕ
  pub slo_window : ℕ

abbrev pub any_in : List String → List String → Bool
any_in [] ys = false
any_in (x ∷ xs) ys = is_in x ys || any_in xs ys

abbrev pub sla_events : List String
sla_events = "sla.violation" ∷ "sla.warning" ∷ "sla.resolved" ∷ []

unfoldable pub get_partition_pending_count : ℕ → Partitions → ℕ
get_partition_pending_count pid p = get_or 0 pid p.lag

-- max(0, lag + (0 if success else 1))
unfoldable pub record_partition_metrics : ℕ → Bool → ℕ → Partitions → Partitions
record_partition_metrics pid success now p = record {
  lag = put pid (get_or 0 pid p.lag + (if success then 0 else 1)) p.lag;
  throughput = put pid (get_or 0 pid p.throughput + 1) p.throughput;
  last_recorded = put pid now p.last_recorded;
}

module _ (settings : MetricSettings) where
  unfoldable pub get_partition_for_webhook : ℕ → List String → ℕ
  get_partition_for_webhook uuid_int events =
      if any_in events sla_events
      then settings.sla_priority_partition
      else uuid_int % settings.partition_count

  unfoldable pub is_backpressured : ℕ → Partitions → Bool
  unfolding get_partition_pending_count
  is_backpressured pid p = leb settings.backpressure_threshold (get_partition_pending_count pid p)

  -- `while window and window[0].timestamp < now - slo_window: window.pop(0)`
  unfoldable pub evict : ℕ → List Observation → List Observation
  evict now [] = []
  evict now (o ∷ window) =
      let rest = evict now window in
      if ltb (o.timestamp + settings.slo_window) now then rest else o ∷ window

  unfoldable pub record_slo_observation :
      Bool → ℕ → (event endpoint : String) → ℕ → List Observation → List Observation
  unfolding evict
  record_slo_observation success latency event endpoint now window =
      evict now window
      ++ record {
        timestamp = now;
        success = success;
        latency_ms = latency;
        event = event;
        endpoint = endpoint;
      }
        ∷ []

  -- o["timestamp"] >= now - slo_window
  unfoldable pub current_window : ℕ → List Observation → List Observation
  current_window now window = filter (λ o. leb now (o.timestamp + settings.slo_window)) window
