-- ===== src/Health.antt =====
-- `CollectorHealth` of pipeline/live_ingestion.py: what a collector reports of itself. Times are in
-- whole ticks of the clock.
use linux_xai_security_assis.Base.{ℕ, Option, none}
use Prim.Native.String.{String}

pub data Status : Type 0 where
  unknown running stopping stopped failed : Status

pub record CollectorHealth : Type 0 where
  pub status : Status
  pub detail : String
  pub error : Option String
  pub started_at : Option ℕ
  pub stopped_at : Option ℕ
  pub last_event_timestamp : Option ℕ
  pub processed_count : ℕ
  pub malformed_count : ℕ
  pub dropped_event_count : ℕ
  pub duplicate_count : ℕ
  pub updated_at : Option ℕ
  pub queue_depth : ℕ
  pub queue_capacity : ℕ
  pub queue_high_water_mark : ℕ
  pub backpressure_wait_seconds : ℕ
  pub backpressure_wait_count : ℕ
  pub first_drop_timestamp : Option ℕ
  pub last_drop_timestamp : Option ℕ
  pub kernel_lost_event_count : ℕ
  pub first_kernel_loss_timestamp : Option ℕ
  pub last_kernel_loss_timestamp : Option ℕ
  pub quarantined_batch_count : ℕ
  pub quarantined_event_count : ℕ

-- The dataclass's defaults.
abbrev pub initial_health : CollectorHealth
initial_health = record {
  status = unknown;
  detail = "";
  error = none;
  started_at = none;
  stopped_at = none;
  last_event_timestamp = none;
  processed_count = 0;
  malformed_count = 0;
  dropped_event_count = 0;
  duplicate_count = 0;
  updated_at = none;
  queue_depth = 0;
  queue_capacity = 0;
  queue_high_water_mark = 0;
  backpressure_wait_seconds = 0;
  backpressure_wait_count = 0;
  first_drop_timestamp = none;
  last_drop_timestamp = none;
  kernel_lost_event_count = 0;
  first_kernel_loss_timestamp = none;
  last_kernel_loss_timestamp = none;
  quarantined_batch_count = 0;
  quarantined_event_count = 0;
}
