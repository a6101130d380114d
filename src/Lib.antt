-- ===== src/Lib.antt =====
-- A model of the security assistant's evidence path, in antt, with its correctness theorems. The
-- program collects host telemetry, stores it in SQLite, scores it, and keeps evidence tables that
-- an auditor can check. Paths below are from the repository's root.
--
-- Parts and files:
-- - Chain: storage/evidence_chain.py (`serialize_core`, `link_hash`, `next_link`, `verify_chain`)
--   and, of storage/sqlite_store.py, `_extend_chain` and the `verify_*_chain` readers. A table is
--   the list of its rows by `id`; a covered value is a JSON value, printed as `json.dumps` does
--   (Chain.Json) and read back in Chain.Readable. SHA-256 is the parameter `sha256`, a function on
--   texts; a theorem that needs the form of a digest takes the record `IsHexDigest`. Texts are
--   lists of code points.
-- - Lifecycle: the writers of `ml_models` and `ml_model_lifecycle` in storage/sqlite_store.py
--   (`write_ml_model`, `write_ml_lifecycle_transition`, `activate_ml_model`,
--   `deactivate_ml_model`, `write_ml_drift_assessment`), each of which is one transaction that
--   returns a new store or an error and no store, and the recorders of ml/lifecycle.py.
-- - Gate: `normal_fpr_acceptance` of ml/evaluation.py. The code compares in floating point; the
--   model decides the same inequality exactly, over integers.
-- - Policy: policy/engine.py. Doubles are counted in multiples of 2 ^ -1074; `str.upper`,
--   `str.lower` and the test for a blank text are parameters, since they range over Unicode. An
--   exception that `evaluate` catches and one that leaves it are different outcomes.
--   Policy.Trail has `evaluate_all` and `write_policy_decision` of storage/sqlite_store.py, with
--   the columns of a row as texts. The clock and whether SQLite refuses a write are parameters.
-- - Ingestion: `LiveIngestionService` of pipeline/live_ingestion.py, and `write_events` of
--   storage/sqlite_store.py. The producer and the consumer are two sets of acts on one state, and
--   `Run` is every interleaving of them and of `stop`. The normalizer and whether SQLite or the
--   analysis fails are the environment's. The sentinel of the queue is the queue being empty after
--   the producer has ended. A record that the producer reads after a stop is discarded by the code
--   and is no act of a run. Ingestion.Analysis has `process` of `DatabaseAnalysisPipeline`, which
--   scores a batch (Failure), persists the detector's findings (Findings) and decides them
--   (Policy.Trail); the analyzer, the detector's scores, the explainer and the assistant are its
--   parameters.
-- - Restart, Supervisor, Health: `RestartPolicy` and `SourceSupervisor` of pipeline/supervisor.py
--   and the record `CollectorHealth`. A method is an action on a world; what clocks, the stop
--   event, the collector and the database do at each point is the environment `Env`. The loop
--   `run` takes fuel, one unit for each restart; crash_loop_threshold units are the fuel for a
--   source that keeps failing.
-- - Loss: telemetry/bcc/perf_loss.py and ringbuf_loss.py, from which the losses that Ingestion
--   counts come.
-- - Findings: `write_detection_finding` of storage/sqlite_store.py and the loop of `detect` in
--   detection/detector.py that persists a batch. A write that raises leaves the earlier writes of
--   its batch. How a float is written is the parameter `repr`.
-- - Detection: the suppressions of detection/detector.py (`_validate_suppressions`,
--   `_matched_rule_ids`, `_apply_suppressions`) and the correlation by entity
--   (`_assign_correlation`). What they never read of a finding is the type `R`.
-- - Failure: detection/system_failure.py. Failure.antt has the settings, the counters and the
--   findings, Acts the acts that may raise, Host, Service and Batch the scoring. Times and readings
--   are in multiples of 2 ^ -1074 and products are compared exactly, where the code rounds. The
--   texts of the evidence are the parameter `Formats`. A thread scores a batch under a lock, so
--   that batches are scored one after the other. InForce, Limits and Readings say what the counters
--   are for. Which writes of findings SQLite refuses is a parameter, here and in Findings and
--   Ingestion; a theorem that needs that none is refused says so.
-- - Events: pipeline/event_stream.py, pipeline/identity.py and `_event_hash` of
--   storage/sqlite_store.py. Python's `float` and `int` of a text and the rounding of a time are
--   the parameter `Python`, the files and the variables that identify a host the record
--   `Environment`.
-- - Triage: `write_triage_annotation`, `read_triage_annotations` and `read_latest_triage_state` of
--   storage/sqlite_store.py. Triage.Page has `read_detection_findings_page`, whose SQL is a filter,
--   a sort and a slice of the joined rows, and the route of one finding of api/app.py.
-- - Retention: storage/retention.py and the deletions of storage/sqlite_store.py
--   (Retention.Tables). The loop of `delete_events_older_than` takes fuel, one unit for each event
--   and one more; the byte cap has its own eight rounds. Which VACUUM raises is a parameter; a
--   deletion that SQLite refuses is left out. Settings are whole numbers, and the two
--   quotients of the byte cap are computed exactly where the code rounds a float.
-- - Migrations: `migrate`, `current_version` and `_backfill_chain` of storage/migrations.py. What a
--   migration does, and what other processes do before the lock is granted, is the record `Env`.
-- - Auth: api/auth.py, and `require_token` of api/app.py. SHA-256 and Python's `str.strip`,
--   `str.lower` and `str.splitlines` are parameters.
-- - Alerts: `evaluate` of observability/alerts.py over the values that `MetricsSnapshot` of
--   observability/metrics.py derives. Ratios are compared exactly, as fractions.
-- - Base: what the others share.
--
-- How they interact: a collector prints events and loss records (Loss); the ingestion service
-- counts, queues and stores them (Ingestion) and is restarted under a policy (Supervisor, Restart),
-- which reads its health record (Health). Ingestion takes any normalizer; the program's is Events.
-- Samples of hosts and services are scored as findings (Failure), which are written as Findings
-- writes them; findings become decisions (Policy), which are recorded (Policy.Trail), and
-- decisions, findings, annotations and lifecycle rows (Lifecycle, judged by Gate) are chained
-- (Chain). The detector's batch is disposed of (Detection) and stored once (Findings); analysts
-- annotate it (Triage) and read it by pages (Triage.Page); retention prunes the events beneath it
-- and leaves the chains alone (Retention); an old database gains its chains on migration
-- (Migrations); the API serves it behind a token (Auth); and what a snapshot of all this shows is
-- reported (Alerts).
--
-- Numbers: counts and times are natural numbers, times in ticks of a clock that does not go back;
-- Python's integers have no bound, so that sums do not overflow. Not modelled: the scores of the
-- detector's rules, of the baseline and of machine learning (floating point), the collectors and
-- the routes of the API but one (input and output), the schema changes of the migrations (SQL),
-- the quarantine of batches, the assistant, and what only formats text.
mod Base
pub mod Chain
pub mod Health
pub mod Restart
pub mod Supervisor
pub mod Gate
pub mod Lifecycle
pub mod Policy
pub mod Ingestion
pub mod Loss
pub mod Migrations
pub mod Triage
pub mod Retention
pub mod Findings
pub mod Detection
pub mod Auth
pub mod Alerts
pub mod Failure
pub mod Events
