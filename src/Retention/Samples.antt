-- ===== src/Retention/Samples.antt =====
-- A pass of storage/retention.py over a small database, and its theorems there.
use linux_xai_security_assis.Base.{
  ℕ, ◌*◌, ◌≡◌, refl, true, false, Option, none, some, List, [], ◌∷◌, length, keep,
}
use linux_xai_security_assis.Retention.Tables.{
  Event, Database, delete_events_older_than, delete_analytics_older_than,
}
use linux_xai_security_assis.Retention.{
  Settings, Env, Manager, Done, enforce_size_cap, prune_rounds, run_once, maybe_run, prune_by_age,
  record_actions, capped, maybe_vacuum,
}
use linux_xai_security_assis.Retention.Batches.{is_old, is_retained, delete_events_older_than-keep}
use linux_xai_security_assis.Retention.SizeCap.{Enforced, enforce_size_cap-Enforced}
use linux_xai_security_assis.Retention.Pass.{Accounted, run_once-Accounted}

abbrev event : ℕ → ℕ → Event
event id timestamp = record { id = id; timestamp = timestamp }

abbrev events : List Event
events =
    event 1 10
    ∷ event 2 20
    ∷ event 4 20
    ∷ event 3 30
    ∷ event 5 90000
    ∷ event 6 90001
    ∷ event 7 90002
    ∷ []

batches_run :
    delete_events_older_than (some 20) 2 events
    ≡ some (3, event 3 30 ∷ event 5 90000 ∷ event 6 90001 ∷ event 7 90002 ∷ [])
unfolding delete_events_older_than
batches_run = refl

delete_events_older_than-keep_example :
    delete_events_older_than (some 20) 2 events
    ≡ some (length (keep (is_old (some 20)) events), keep (is_retained (some 20)) events)
delete_events_older_than-keep_example = delete_events_older_than-keep (some 20) 2 events

abbrev db : Database
db = record {
  events = events;
  behavior_risks = 15 ∷ 90000 ∷ [];
  event_features = [];
  anomaly_scores = 5 ∷ [];
  detection_findings = [];
  policy_decisions = [];
  triage_annotations = [];
  ml_model_lifecycle = [];
  maintenance_log = [];
}

abbrev settings : Settings
settings = record {
  retention_max_age_days = 1;
  retention_max_db_bytes = 200;
  retention_prune_batch = 2;
  retention_interval_seconds = 60;
  retention_vacuum_interval_seconds = 600;
}

-- Each event takes 100 bytes.
abbrev env : Env
env = record {
  clock = 86430;
  at_vacuum = 500;
  after_vacuum = 501;
  database_bytes = λ n (db : Database). 100 * length db.events;
  log_takes = λ action. true;
  vacuum_raises = λ n. false;
}

abbrev manager : Manager
manager = record { last_run = 450; last_vacuum = 0 }

abbrev left_of : Option Done → List Event
left_of none = []
left_of (some done) = done.database.events

pass_runs : left_of (run_once settings env manager db) ≡ event 6 90001 ∷ event 7 90002 ∷ []
unfolding run_once enforce_size_cap prune_rounds prune_by_age delete_events_older_than
    record_actions capped delete_analytics_older_than maybe_vacuum
pass_runs = refl

-- The VACUUM of the first round raises: the five events that are gone are not reported.
raising_runs :
    run_once settings (record env { vacuum_raises = λ n. true }) manager db
    ≡ some (record {
      raised = true;
      actions = [];
      manager = manager;
      database = record db {
        events = event 6 90001 ∷ event 7 90002 ∷ [];
        behavior_risks = 90000 ∷ [];
        anomaly_scores = [];
      };
    })
unfolding run_once enforce_size_cap prune_rounds prune_by_age delete_events_older_than
    record_actions capped delete_analytics_older_than maybe_vacuum
raising_runs = refl

early_runs : left_of (maybe_run settings env false 500 manager db) ≡ events
unfolding maybe_run
early_runs = refl

enforce_size_cap-Enforced_example : Enforced settings env db (enforce_size_cap settings env db)
enforce_size_cap-Enforced_example = enforce_size_cap-Enforced settings env db

run_once-Accounted_example :
    (done : Done) × (run_once settings env manager db ≡ some done) × Accounted settings env db done
run_once-Accounted_example = run_once-Accounted settings env manager db
