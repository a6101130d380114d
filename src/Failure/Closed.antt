-- ===== src/Failure/Closed.antt =====
-- `score_batch` of detection/system_failure.py, act by act: a property of acts that the writing of a
-- finding has, and that one act after another and a change of the counters keep, it has too.
use linux_xai_security_assis.Base.{
  ℕ, ◌+◌, ◌≡◌, refl, Bool, true, false, Option, none, some, List, [], ◌∷◌, map, All, All-of, Text,
  keep, if◌then◌else◌,
}
use linux_xai_security_assis.Failure.{Settings, Built, Formats, Observation}
use linux_xai_security_assis.Failure.Acts.{World, Act, quiet, both, all_acts, persist_maybe}
use linux_xai_security_assis.Failure.Host.{
  Health, Sample, Gauge, disk_gauge, available_gauge, cpu_gauge, score_gauge, reported,
  score_memory, latest_sample, score_payload, by_host, score_host, score_group, score_health,
}
use linux_xai_security_assis.Failure.Service.{
  StateEvent, Failed, score_unit, score_service, failed_units,
}
use linux_xai_security_assis.Failure.Batch.{
  Event, health_of, service_of, inside, windows_of, window_width, score_bucket, score_window,
  score_batch,
}
use linux_xai_security_assis.Failure.Safe.{
  IsRisk, risk_high-IsRisk, risk_medium-IsRisk, risk_low-IsRisk,
}

pub disk_gauge-IsRisk : (s : Settings) → IsRisk (disk_gauge s).risk_score
unfolding disk_gauge
disk_gauge-IsRisk s = risk_high-IsRisk

pub available_gauge-IsRisk : (s : Settings) → IsRisk (available_gauge s).risk_score
unfolding available_gauge
available_gauge-IsRisk s = risk_medium-IsRisk

pub cpu_gauge-IsRisk : (s : Settings) → IsRisk (cpu_gauge s).risk_score
unfolding cpu_gauge
cpu_gauge-IsRisk s = risk_medium-IsRisk

module _ (formats : Formats) (s : Settings) (persist : Bool) where
  pub record IsClosed (Q : Act → Type 0) : Type 0 where
    pub nothing : Q quiet
    pub sequence : (first second : Act) → Q first → Q second → Q (both first second)
    pub writing : (b : Built) → IsRisk b.risk_score → Q (persist_maybe formats s persist b)
    pub after :
        (act : World → Act) (change : World → World)
        → ((w : World) → Q (act w))
        → ((w : World) → (change w).table ≡ w.table)
        → Q (λ w. act w (change w))

  module _ (Q : Act → Type 0) (closed : IsClosed Q) where
    sequence_all : (acts : List Act) → All Q acts → Q (all_acts acts)
    unfolding all_acts
    sequence_all [] h = closed.nothing
    sequence_all (a ∷ acts) h = closed.sequence a (all_acts acts) h.0 (sequence_all acts h.1)

    all_of {ℓ} :
        {A : Type ℓ} (f : A → Act) → ((a : A) → Q (f a)) → (xs : List A) → Q (all_acts (map f xs))
    all_of f h xs = sequence_all (map f xs) (All-of Q f h xs)

    either :
        (b : Bool) (first second : Act)
        → Q first
        → Q second
        → Q (λ w. if b then first w else second w)
    either true first second h k = h
    either false first second h k = k

    module _ (host : Text) (start end : ℕ) where
      reported_closed :
          (condition : Text) (risk value : ℕ) (o : Observation) (otherwise : Act)
          → IsRisk risk
          → Q otherwise
          → Q (reported formats s persist host start end condition risk value o otherwise)
      unfolding reported
      reported_closed condition risk value o otherwise h k =
          either o.now_active _ otherwise (closed.writing _ h) k

      pub score_gauge_closed :
          (gauge : Gauge)
          → IsRisk gauge.risk_score
          → (o : Option ℕ) → Q (score_gauge formats s persist host start end gauge o)
      unfolding score_gauge
      score_gauge_closed gauge h none = closed.nothing
      score_gauge_closed gauge h (some value) =
          closed.after _ _ (λ w. reported_closed _ _ value _ quiet h closed.nothing) (λ w. refl)

      pub score_memory_closed : (o : Option ℕ) → Q (score_memory formats s persist host start end o)
      unfolding score_memory
      score_memory_closed none = closed.nothing
      score_memory_closed (some value) =
          closed.after _ _
            (λ w.
              reported_closed _ _ value _ _ risk_medium-IsRisk
                (reported_closed _ _ value _ quiet risk_low-IsRisk closed.nothing))
            (λ w. refl)

      score_payload_closed :
          (payload : Health) → Q (score_payload formats s persist host start end payload)
      score_payload_closed payload =
          closed.sequence _ _
            (score_gauge_closed (disk_gauge s) (disk_gauge-IsRisk s) payload.disk_percent)
            (closed.sequence _ _ (score_memory_closed payload.mem_percent) (
              closed.sequence _ _
                (score_gauge_closed (available_gauge s) (available_gauge-IsRisk s)
                  payload.mem_available_mb)
                (score_gauge_closed (cpu_gauge s) (cpu_gauge-IsRisk s) payload.cpu_percent)))

      score_host_closed :
          (first : Sample) (events : List Sample)
          → Q (score_host formats s persist host start end first events)
      unfolding score_host
      score_host_closed first events =
          closed.after _ _ (λ w. score_payload_closed (latest_sample first events).payload)
            (λ w. refl)

    module _ (start end : ℕ) where
      pub score_group_closed :
          (group : Text × List Sample) → Q (score_group formats s persist start end group)
      score_group_closed (host, []) = closed.nothing
      score_group_closed (host, first ∷ events) = score_host_closed host start end first events

      pub score_unit_closed :
          (unit : Text × Failed) → Q (score_unit formats s persist start end unit)
      unfolding score_unit
      score_unit_closed (unit, failed) =
          closed.after _ _ (λ w. closed.writing _ risk_high-IsRisk) (λ w. refl)

      pub score_health_closed :
          (events : List Sample) → Q (score_health formats s persist start end events)
      unfolding score_health
      score_health_closed events =
          all_of (score_group formats s persist start end) score_group_closed (by_host events)

      score_service_closed :
          (events : List StateEvent) → Q (score_service formats s persist start end events)
      unfolding score_service
      score_service_closed events =
          all_of (score_unit formats s persist start end) score_unit_closed (failed_units events)

    pub score_bucket_closed : (bucket : ℕ × List Event) → Q (score_bucket formats s persist bucket)
    unfolding score_window
    score_bucket_closed (start, events) =
        let end = start + window_width in
        let within = keep (inside start end) events in
        closed.sequence _ _ (score_health_closed start end (health_of within))
          (score_service_closed start end (service_of within))

    pub score_batch_closed : (events : List Event) → Q (score_batch formats s persist events)
    unfolding score_batch
    score_batch_closed events =
        all_of (score_bucket formats s persist) score_bucket_closed (windows_of events)
