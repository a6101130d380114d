-- ===== src/Failure/Toy.antt =====
-- Settings and events to run the scorer of detection/system_failure.py with.
use linux_xai_security_assis.Base.{ℕ, ◌*◌, ◌^◌, false, none, some, [], codes}
use linux_xai_security_assis.Policy.{one}
use linux_xai_security_assis.Chain.Toy.{toy_sha256}
use linux_xai_security_assis.Failure.{Settings, Formats}
use linux_xai_security_assis.Failure.Acts.{World}
use linux_xai_security_assis.Failure.Batch.{Event, system_health, service_state}

-- The settings of observability/config.py.
abbrev pub settings : Settings
settings = record {
  failure_memory_high_pct = 90 * one;
  failure_memory_medium_pct = 80 * one;
  failure_memory_min_available_mb = 128;
  failure_cpu_high_pct = 95 * one;
  failure_disk_full_pct = 99 * one;
  failure_consecutive_windows = 2;
  failure_clear_windows = 2;
  failure_clear_ratio = 8106479329266893 * 2 ^ 1021;
  failure_crash_loop_threshold = 3;
  failure_crash_loop_window_seconds = 600 * one;
}

abbrev pub formats : Formats
formats = record {
  sha256 = toy_sha256;
  repr = λ n. codes "0.0";
  evidence_json = λ s b. codes "[]";
  explanation = λ b. [];
  refuses = λ n. false;
}

abbrev pub fresh : World
fresh = record {
  host_states = [];
  failures = [];
  table = record { findings = []; next_id = 1 };
  writes = 0;
}

abbrev pub disk_at : ℕ → ℕ → Event
disk_at seconds percent = record {
  timestamp = seconds * one;
  host_id = some (codes "web");
  payload = system_health (record {
    mem_percent = none;
    mem_available_mb = none;
    cpu_percent = none;
    disk_percent = some (percent * one);
  });
}

abbrev pub unit_failed_at : ℕ → Event
unit_failed_at seconds = record {
  timestamp = seconds * one;
  host_id = none;
  payload =
      service_state
        (record { unit = some (codes "a.service"); action = some (codes "failed"); result = none });
}
