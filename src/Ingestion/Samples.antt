-- ===== src/Ingestion/Samples.antt =====
-- A small run of the service of pipeline/live_ingestion.py, and its theorems at that run.
use linux_xai_security_assis.Base.{ℕ, ◌≡◌, refl, true, false, none, some, []}
use linux_xai_security_assis.Ingestion.{
  lost, canonical, loss_report, Env, Service, started, write_events,
}
use linux_xai_security_assis.Ingestion.Threads.{produce, consume, finish}
use linux_xai_security_assis.Ingestion.Runs.{Run, begins, takes, consumes}
use linux_xai_security_assis.Ingestion.Cited.{IsCited, Run-IsCited}
use linux_xai_security_assis.Ingestion.Bounds.{IsBounded, Run-IsBounded}

-- Items are event ids; every item normalizes, and SQLite takes every batch.
abbrev env : Env ℕ
env = record {
  queue_size = 1;
  ingest_batch_size = 2;
  backpressure_timeout = 2;
  has_analysis = true;
  normalize = λ i. some (record { event_id = i; timestamp = i; encodes = true });
  write_fails = λ events table. none;
  analysis_fails = λ events. none;
}

abbrev first : Service ℕ
first = started env 100

abbrev second : Service ℕ
second = produce env (canonical 7) 100 first

abbrev third : Service ℕ
third = consume env second

abbrev fourth : Service ℕ
fourth = produce env (loss_report (lost 250) false) 101 third

run : Run env fourth 1 250
unfolding produce consume write_events
run =
    takes (loss_report (lost 250) false) 101
      (consumes (takes (canonical 7) 100 (begins 100) refl refl refl)) refl refl refl

queue_is_empty : fourth.queue ≡ []
unfolding produce consume write_events
queue_is_empty = refl

waits_for_nothing : fourth.waiting ≡ none
unfolding produce consume write_events
waits_for_nothing = refl

Run-IsCited_example : IsCited fourth
Run-IsCited_example = Run-IsCited env run

Run-IsBounded_example : IsBounded env fourth
Run-IsBounded_example = Run-IsBounded env run

-- The event is in the table and was analysed.
it_is_processed : (finish env 102 fourth).health.processed_count ≡ 1
unfolding produce consume finish write_events
it_is_processed = refl
