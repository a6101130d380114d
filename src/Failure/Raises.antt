-- ===== src/Failure/Raises.antt =====
-- `score_batch` of detection/system_failure.py does not raise where SQLite refuses no write.
use linux_xai_security_assis.Base.{ℕ, ◌≡◌, Bool, false, Option, List, Text}
use linux_xai_security_assis.Failure.{Settings, Formats}
use linux_xai_security_assis.Failure.Acts.{World}
use linux_xai_security_assis.Failure.Host.{
  Sample, Gauge, score_gauge, score_memory, score_group, score_health,
}
use linux_xai_security_assis.Failure.Service.{Failed, score_unit}
use linux_xai_security_assis.Failure.Batch.{Event, score_bucket, score_batch}
use linux_xai_security_assis.Failure.Safe.{
  IsAccepted, IsSafe, IsRisk, quiet-IsSafe, both-IsSafe, persist_maybe-IsSafe,
}
use linux_xai_security_assis.Failure.Closed.{
  IsClosed, score_gauge_closed, score_memory_closed, score_group_closed, score_unit_closed,
  score_health_closed, score_bucket_closed, score_batch_closed,
}

module _ (formats : Formats) (accepted : IsAccepted formats) (s : Settings) (persist : Bool) where
  IsSafe-IsClosed : IsClosed formats s persist IsSafe
  IsSafe-IsClosed = record {
    nothing = quiet-IsSafe;
    sequence = λ first second f g. both-IsSafe f g;
    writing = persist_maybe-IsSafe formats accepted s persist;
    after = λ act change h same. record { never_raises = λ w. (h w).never_raises (change w) };
  }

  module _ (start end : ℕ) where
    pub score_gauge-IsSafe :
        (host : Text) (gauge : Gauge)
        → IsRisk gauge.risk_score
        → (o : Option ℕ) → IsSafe (score_gauge formats s persist host start end gauge o)
    score_gauge-IsSafe host =
        score_gauge_closed formats s persist IsSafe IsSafe-IsClosed host start end

    pub score_memory-IsSafe :
        (host : Text) (o : Option ℕ) → IsSafe (score_memory formats s persist host start end o)
    score_memory-IsSafe host =
        score_memory_closed formats s persist IsSafe IsSafe-IsClosed host start end

    pub score_group-IsSafe :
        (group : Text × List Sample) → IsSafe (score_group formats s persist start end group)
    score_group-IsSafe = score_group_closed formats s persist IsSafe IsSafe-IsClosed start end

    pub score_unit-IsSafe :
        (unit : Text × Failed) → IsSafe (score_unit formats s persist start end unit)
    score_unit-IsSafe = score_unit_closed formats s persist IsSafe IsSafe-IsClosed start end

    pub score_health-IsSafe :
        (events : List Sample) → IsSafe (score_health formats s persist start end events)
    score_health-IsSafe = score_health_closed formats s persist IsSafe IsSafe-IsClosed start end

  pub score_bucket-IsSafe :
      (bucket : ℕ × List Event) → IsSafe (score_bucket formats s persist bucket)
  score_bucket-IsSafe = score_bucket_closed formats s persist IsSafe IsSafe-IsClosed

  -- Where SQLite refuses no write, scoring a batch does not raise, whatever the events and the state
  -- before it: the store takes every finding that the scorer builds.
  pub score_batch_safe :
      (events : List Event) (w : World) → (score_batch formats s persist events w).raised ≡ false
  score_batch_safe events w =
      (score_batch_closed formats s persist IsSafe IsSafe-IsClosed events).never_raises w
