-- ===== src/Ingestion/Threads.antt =====
-- The two threads of the ingestion service of pipeline/live_ingestion.py.
use Prim.Native.String.{String}
use linux_xai_security_assis.Base.{
  ℕ, ◌+◌, Bool, true, false, not, ◌||◌, Option, none, some, List, [], ◌∷◌, ◌++◌, keep, length,
  get_last?, ltb, leb, ◌==◌, if◌then◌else◌,
}
use linux_xai_security_assis.Health
use linux_xai_security_assis.Health.{CollectorHealth}
use linux_xai_security_assis.Ingestion.{
  Event, Lost, unreadable, infinite, lost, Raw, undecodable, loss_report, canonical, Env, Service,
  set_error, add_malformed, or_first, write_events, encodable, enqueue,
}

abbrev pub is_empty : List Event → Bool
is_empty [] = true
is_empty (event ∷ events) = false

abbrev pub last_timestamp : List Event → Option ℕ
last_timestamp events = elim (get_last? events) [ none ↦ none | some event ↦ some event.timestamp ]

abbrev stopped_cleanly : CollectorHealth → CollectorHealth
stopped_cleanly health = record health {
  status = Health.stopped;
  detail = "collector stopped cleanly";
}

-- The end of `_consume`: the sentinel stands behind every item, so the queue is empty.
abbrev pub ended : Health.Status → CollectorHealth → CollectorHealth
ended Health.failed health = health
ended Health.unknown health = stopped_cleanly health
ended Health.running health = stopped_cleanly health
ended Health.stopping health = stopped_cleanly health
ended Health.stopped health = stopped_cleanly health

abbrev pub close_health : ℕ → CollectorHealth → CollectorHealth
close_health now health = record (ended health.status health) { stopped_at = some now }

-- The status after `stop`: a terminal one is not overwritten.
abbrev pub stopping : CollectorHealth → CollectorHealth
stopping health = record health { status = Health.stopping; detail = "shutdown requested" }

abbrev pub after_stop : Health.Status → CollectorHealth → CollectorHealth
after_stop Health.stopped health = health
after_stop Health.failed health = health
after_stop Health.unknown health = health
after_stop Health.running health = stopping health
after_stop Health.stopping health = stopping health

module _ {Item : Type 0} (env : Env Item) where
  abbrev pub with_health : (CollectorHealth → CollectorHealth) → Service Item → Service Item
  with_health f s = record s { health = f s.health }

  abbrev pub add_losses : ℕ → ℕ → CollectorHealth → CollectorHealth
  add_losses n now h = record h {
    kernel_lost_event_count = h.kernel_lost_event_count + n;
    first_kernel_loss_timestamp = or_first h.first_kernel_loss_timestamp now;
    last_kernel_loss_timestamp = some now;
  }

  -- `_record_kernel_loss`: the state it leaves, and whether it raises.
  unfoldable pub record_kernel_loss : Lost → Bool → ℕ → Service Item → Service Item × Bool
  record_kernel_loss unreadable log_raises now s = (with_health (add_malformed 1) s, false)
  record_kernel_loss infinite log_raises now s = (s, true)
  record_kernel_loss (lost n) log_raises now s =
      if n == 0
      then (with_health (add_malformed 1) s, false)
      else (with_health (add_losses n now) s, log_raises)

  -- The `except` and the `finally` of `_produce`.
  abbrev pub producer_fails : Service Item × Bool → Service Item
  producer_fails (s, false) = s
  producer_fails (s, true) =
      record (with_health (set_error "OverflowError: cannot convert float infinity to integer") s) {
        producer_done = true;
      }

  -- One turn of the loop of `_produce`, with no stop requested.
  unfoldable pub produce : Raw Item → ℕ → Service Item → Service Item
  unfolding record_kernel_loss enqueue
  produce undecodable now s = with_health (add_malformed 1) s
  produce (loss_report reading log_raises) now s =
      producer_fails (record_kernel_loss reading log_raises now s)
  produce (canonical i) now s = enqueue env i now s

  -- `_quarantine_batch`
  abbrev pub quarantine_batch : List Event → String → Service Item → Service Item
  quarantine_batch events detail s = record s {
    pending = [];
    health = record s.health {
      quarantined_batch_count = s.health.quarantined_batch_count + 1;
      quarantined_event_count = s.health.quarantined_event_count + length events;
      error = some detail;
      detail = "batch quarantined after a failed write";
    };
  }

  -- What `_flush` does with a batch that SQLite accepts.
  unfoldable pub flushed : Service Item → Service Item
  unfolding write_events
  flushed s =
      let (result, after) = write_events s.pending s.table in
      record s {
        pending = [];
        batch = s.batch ++ keep encodable s.pending;
        table = after;
        health = record s.health {
          processed_count = s.health.processed_count + (result.inserted + result.duplicates);
          duplicate_count = s.health.duplicate_count + result.duplicates;
          malformed_count = s.health.malformed_count + result.rejected_count;
          last_event_timestamp = last_timestamp s.pending;
        };
      }

  -- `_flush`, with `pending` and `batch` in the state.
  unfoldable pub written : Option String → Service Item → Service Item
  unfolding flushed
  written none s = flushed s
  written (some error) s = quarantine_batch s.pending error s

  unfoldable pub flush : Service Item → Service Item
  unfolding written
  flush s = if is_empty s.pending then s else written (env.write_fails s.pending s.table) s

  -- `_process_batch`
  abbrev pub reported : Option String → Service Item → Service Item
  reported none s = s
  reported (some error) s = with_health (set_error error) s

  unfoldable pub process_batch : Service Item → Service Item
  process_batch s =
      if not env.has_analysis || is_empty s.batch
      then s
      else reported (env.analysis_fails s.batch)
          (record s { analysed = s.analysed ++ s.batch ∷ [] })

  -- `_maybe_analyse`
  unfoldable pub maybe_analyse : Service Item → Service Item
  unfolding process_batch
  maybe_analyse s =
      if ltb (length s.batch) env.ingest_batch_size
      then s
      else record (process_batch s) { batch = [] }

  -- One turn of the loop of `_consume`: the next item, or, with the queue empty, an idle flush.
  unfoldable pub accept : Option Event → Service Item → Service Item
  unfolding flush maybe_analyse
  accept none s = with_health (add_malformed 1) s
  accept (some event) s =
      let held = record s { pending = s.pending ++ event ∷ [] } in
      if leb env.ingest_batch_size (length held.pending) then maybe_analyse (flush held) else held

  unfoldable pub take_next : List Item → Service Item → Service Item
  unfolding accept
  take_next [] s = maybe_analyse (flush s)
  take_next (i ∷ rest) s = accept (env.normalize i) (record s { queue = rest })

  unfoldable pub consume : Service Item → Service Item
  unfolding take_next
  consume s = take_next s.queue s

  unfoldable pub finish : ℕ → Service Item → Service Item
  unfolding flush process_batch
  finish now s = with_health (close_health now) (process_batch (flush s))

  -- `stop`
  unfoldable pub request_stop : Service Item → Service Item
  request_stop s = record s { stop = true; health = after_stop s.health.status s.health }
