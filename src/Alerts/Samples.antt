-- ===== src/Alerts/Samples.antt =====
-- The alerts of observability/alerts.py for one snapshot.
use linux_xai_security_assis.Base.{
  ◌≡◌, refl, true, false, Bool, Option, none, some, List, [], ◌∷◌, Text, codes, sort_by,
}
use linux_xai_security_assis.Policy.{text_leb}
use linux_xai_security_assis.Alerts.{
  Snapshot, Settings, evidence_chain_broken, events_dropped, events_quarantined,
  database_permissions_insecure, collector_degraded, key_before, insecure_files, broken_tables,
  disk_alerts, queue_alerts, silence_alerts, raised, evaluate,
}
use linux_xai_security_assis.Alerts.Report.{IsReport, evaluate-IsReport}

abbrev snapshot : Snapshot
snapshot = record {
  collected_at = 1000;
  latest_event_timestamp = some 990;
  updated_at = some 995;
  file_permissions =
      (codes "events.db", some 420)
      ∷ (codes "events.db-wal", some 384)
      ∷ (codes "events.db-shm", none)
      ∷ [];
  sources = (codes "exec", false) ∷ (codes "dns", true) ∷ [];
  free_bytes = 500;
  total_bytes = 1000;
  queue_depth = 1;
  queue_capacity = 10;
  dropped_event_count = 3;
  kernel_lost_event_count = 0;
  quarantined_event_count = 2;
  database_error = false;
}

abbrev settings : Settings
settings = record {
  alert_collector_silence_seconds = 60;
  stale_after_seconds = 300;
  alert_min_free_disk_bytes = 100;
  alert_min_free_disk_ratio = record { part = 1; whole = 20 };
  alert_max_queue_fill_ratio = record { part = 8; whole = 10 };
}

abbrev chains : Option (List (Text × Bool))
chains = some ((codes "policy_decisions", false) ∷ (codes "detection_findings", true) ∷ [])

report_runs :
    evaluate settings chains snapshot
    ≡ collector_degraded (codes "dns")
      ∷ database_permissions_insecure (codes "events.db" ∷ [])
      ∷ events_dropped 3
      ∷ evidence_chain_broken (codes "policy_decisions" ∷ [])
      ∷ events_quarantined 2
      ∷ []
unfolding evaluate sort_by raised insecure_files text_leb broken_tables silence_alerts disk_alerts
    queue_alerts key_before
report_runs = refl

evaluate-IsReport_example : IsReport settings chains snapshot (evaluate settings chains snapshot)
evaluate-IsReport_example = evaluate-IsReport settings chains snapshot
