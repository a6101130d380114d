-- ===== src/Failure/Samples.antt =====
-- Health samples and failed units through the scorer of detection/system_failure.py.
use linux_xai_security_assis.Base.{
  ℕ, ◌*◌, ◌≤◌, ◌↔◌, max, keep, leb→le, sort_by, ◌++◌, ◌≡◌, refl, true, false, none, some, List, [],
  ◌∷◌, codes, same_text,
}
use linux_xai_security_assis.Policy.{one}
use linux_xai_security_assis.Chain.Toy.{toy_sha256, toy-IsHexDigest}
use linux_xai_security_assis.Chain.Json.{dumps_object}
use linux_xai_security_assis.Findings.{scores_in_range, insert, write_detection_finding}
use linux_xai_security_assis.Failure.Safe.{IsAccepted}
use linux_xai_security_assis.Failure.Toy.{settings, formats, fresh, disk_at, unit_failed_at}
use linux_xai_security_assis.Failure.{risk_high, severity_of, severe, build_finding}
use linux_xai_security_assis.Failure.InForce.{InForce, history}
use linux_xai_security_assis.Failure.Watched.{disk}
use linux_xai_security_assis.Failure.Limits.{reaches, clears}
use linux_xai_security_assis.Failure.Readings.{flat_map, readings_of}
use linux_xai_security_assis.Failure.Feeds.{watched_counter}
use linux_xai_security_assis.Failure.Batches.{score_batches, score_batches_iff}
use linux_xai_security_assis.Failure.Reported.{conditions, active_conditions}
use linux_xai_security_assis.Failure.HostReport.{conditions-score_host}
use linux_xai_security_assis.Failure.Windows.{IsSplit, windows_of-IsSplit}
use linux_xai_security_assis.Failure.CrashLoop.{
  Visit, sorted_times, latest_of, all_times, Forward, score_visits,
}
use linux_xai_security_assis.Failure.Loops.{crash_condition, score_unit-score_visits}
use linux_xai_security_assis.Failure.Host.{
  Sample, latest_sample, host_state, score_health, reported, score_host, new_host,
}
use linux_xai_security_assis.Failure.Service.{is_recent, score_unit, score_service}
use linux_xai_security_assis.Failure.Batch.{Event, windows_of, score_window, score_batch}

two_windows_run :
    conditions (score_batch formats settings false (disk_at 310 100 ∷ disk_at 20 100 ∷ []) fresh)
    ≡ codes "disk_full" ∷ []
unfolding score_batch one score_window score_host new_host score_health reported same_text
    score_service
two_windows_run = refl

-- Two batches in one window count once.
same_window_run :
    conditions (
      score_batch formats settings false
        (disk_at 30 100 ∷ [])
        (score_batch formats settings false (disk_at 20 100 ∷ []) fresh).world)
    ≡ []
unfolding score_batch one score_window score_host new_host score_health reported same_text
    score_service
same_window_run = refl

-- While a condition is being cleared it is reported with a reading under its limit.
clearing_run :
    conditions (
      score_batch formats settings false
        (disk_at 20 100 ∷ disk_at 310 100 ∷ disk_at 610 5 ∷ disk_at 910 5 ∷ [])
        fresh)
    ≡ codes "disk_full" ∷ codes "disk_full" ∷ []
unfolding score_batch one score_window score_host new_host score_health reported same_text
    score_service
clearing_run = refl

crash_loop_run :
    conditions (
      score_batch formats settings true
        (unit_failed_at 20 ∷ unit_failed_at 320 ∷ unit_failed_at 325 ∷ [])
        fresh)
    ≡ codes "service_unit_failed" ∷ codes "service_crash_loop" ∷ []
unfolding score_batch one score_window scores_in_range risk_high toy_sha256 insert dumps_object
    severity_of severe score_health score_service write_detection_finding build_finding
crash_loop_run = refl

accepted : IsAccepted formats
accepted = record { digest = toy-IsHexDigest; writes = λ n. refl }

abbrev batches : List (List Event)
batches = (disk_at 20 100 ∷ []) ∷ (disk_at 310 100 ∷ disk_at 40 5 ∷ []) ∷ []

ratio_small : settings.failure_clear_ratio ≤ one
unfolding one
ratio_small = leb→le settings.failure_clear_ratio one refl

score_batches_iff_example :
    ((watched_counter settings disk
        (codes "web")
        (score_batches formats settings false batches fresh)).active
      ≡ true)
    ↔ InForce
        (reaches settings disk)
        (clears settings disk)
        (max 1 2)
        (max 1 2)
        (history none [] (flat_map (readings_of disk (codes "web")) batches))
score_batches_iff_example =
    score_batches_iff formats accepted settings false disk (codes "web") ratio_small batches fresh
      refl

abbrev sample : Sample
sample = record {
  timestamp = 20 * one;
  host_id = some (codes "web");
  payload = record {
    mem_percent = some (85 * one);
    mem_available_mb = none;
    cpu_percent = none;
    disk_percent = some (100 * one);
  };
}

conditions-score_host_example :
    conditions (score_host formats settings true (codes "web") 0 (300 * one) sample [] fresh)
    ≡ active_conditions sample.payload (
        host_state settings
          (codes "web")
          (score_host formats settings true (codes "web") 0 (300 * one) sample [] fresh).world)
unfolding latest_sample
conditions-score_host_example =
    conditions-score_host formats accepted settings true (codes "web") 0 (300 * one) sample [] fresh

windows_of-IsSplit_example :
    IsSplit
      (disk_at 310 100 ∷ disk_at 20 100 ∷ [])
      (windows_of (disk_at 310 100 ∷ disk_at 20 100 ∷ []))
windows_of-IsSplit_example = windows_of-IsSplit (disk_at 310 100 ∷ disk_at 20 100 ∷ [])

abbrev visit_at : ℕ → Visit
visit_at seconds = record {
  window_start = 0;
  window_end = 300 * one;
  unit = codes "a.service";
  failed = record {
    times = seconds * one ∷ [];
    last_action = some (codes "failed");
    last_result = none;
  };
}

visits-Forward :
    Forward (codes "a.service") 0 (latest_of (visit_at 310).failed) (visit_at 20 ∷ visit_at 30 ∷ [])
unfolding one same_text sort_by
visits-Forward = (leb→le 0 _ refl, (leb→le _ _ refl, leb→le _ _ refl))

score_unit-score_visits_example :
    conditions (
      score_unit formats settings true 0
        (300 * one)
        (codes "a.service", (visit_at 310).failed)
        (score_visits formats settings true (visit_at 20 ∷ visit_at 30 ∷ []) fresh))
    ≡ crash_condition settings (
        keep (is_recent (600 * one) (latest_of (visit_at 310).failed)) (
          all_times (codes "a.service") (visit_at 20 ∷ visit_at 30 ∷ [])
          ++ sorted_times (visit_at 310).failed))
      ∷ []
score_unit-score_visits_example =
    score_unit-score_visits formats accepted settings true (visit_at 20 ∷ visit_at 30 ∷ [])
      (visit_at 310) fresh refl visits-Forward
