-- ===== src/Ingestion.antt =====
-- The live ingestion service of pipeline/live_ingestion.py: a producer and a consumer thread around
-- a bounded queue, and `write_events` of storage/sqlite_store.py, into which the consumer flushes.
-- Each operation here is what one thread does between two points where the other can run. The
-- normalizer, the analysis pipeline and what makes SQLite fail are the environment's; Analysis has
-- the pipeline that the program uses. Log lines, where alone the quarantine's answer shows, and the
-- periodic health writes are left out.
pub mod Threads
pub mod Conservation
pub mod Runs
pub mod Cited
pub mod Balance
pub mod Bounds
pub mod Analysis
mod Samples
use Prim.Native.String.{String}
use linux_xai_security_assis.Base.{
  ℕ, suc, ◌+◌, ◌-◌, max, Bool, true, false, not, ◌&&◌, ◌||◌, Option, none, some, List, [], ◌∷◌,
  ◌++◌, any, keep, length, get_last?, ltb, leb, ◌==◌, if◌then◌else◌,
}
use linux_xai_security_assis.Health
use linux_xai_security_assis.Health.{CollectorHealth, initial_health}

-- What the service reads of a canonical event: `encodes` says whether `_event_row` accepts it.
pub record Event : Type 0 where
  pub event_id : ℕ
  pub timestamp : ℕ
  pub encodes : Bool

-- What `int` makes of a report's count: nothing, the OverflowError of an infinite one, or a number,
-- 0 for one that is not positive.
pub data Lost : Type 0 where
  unreadable infinite : Lost
  lost : ℕ → Lost

-- A raw record: one that does not decode to a mapping, a kernel-loss report, or an item for the
-- queue. A report's flag says whether the log line of an order of magnitude is due and raises an
-- OverflowError, its own total being infinite.
pub data Raw (Item : Type 0) : Type 0 where
  undecodable : Raw Item
  loss_report : Lost → Bool → Raw Item
  canonical : Item → Raw Item

pub record Env (Item : Type 0) : Type 0 where
  pub queue_size : ℕ
  pub ingest_batch_size : ℕ
  pub backpressure_timeout : ℕ
  pub has_analysis : Bool
  pub normalize : Item → Option Event
  pub write_fails : List Event → List Event → Option String
  pub analysis_fails : List Event → Option String

-- The service's state: `waiting` holds the item that the producer waits to put, with its deadline,
-- and `analysed` the batches that the analysis pipeline was called with.
pub record Service (Item : Type 0) : Type 0 where
  pub queue : List Item
  pub waiting : Option (Item × ℕ)
  pub stop : Bool
  pub producer_done : Bool
  pub pending : List Event
  pub batch : List Event
  pub table : List Event
  pub analysed : List (List Event)
  pub depth : ℕ
  pub high_water_mark : ℕ
  pub health : CollectorHealth

-- `start` with an empty table.
abbrev pub started : {Item : Type 0} → Env Item → ℕ → Service Item
started env now = record {
  queue = [];
  waiting = none;
  stop = false;
  producer_done = false;
  pending = [];
  batch = [];
  table = [];
  analysed = [];
  depth = 0;
  high_water_mark = 0;
  health = record initial_health {
    status = Health.running;
    started_at = some now;
    updated_at = some now;
    queue_capacity = env.queue_size;
  };
}

abbrev pub or_first : Option ℕ → ℕ → Option ℕ
or_first none now = some now
or_first (some first) now = some first

-- `_set_error`
abbrev pub set_error : String → CollectorHealth → CollectorHealth
set_error error health = record health {
  status = Health.failed;
  error = some error;
  detail = "collector or ingestion failure";
}

-- `self._health.malformed_count += n`
abbrev pub add_malformed : ℕ → CollectorHealth → CollectorHealth
add_malformed n health = record health { malformed_count = health.malformed_count + n }

-- `INSERT OR IGNORE` of the rows, by their primary key.
abbrev pub has_id : ℕ → Event → Bool
has_id id event = event.event_id == id

unfoldable pub insert_rows : List Event → List Event → List Event
insert_rows [] table = table
insert_rows (event ∷ events) table =
    insert_rows events (if any (has_id event.event_id) table then table else table ++ event ∷ [])

pub record BatchWriteResult : Type 0 where
  pub inserted : ℕ
  pub duplicates : ℕ
  pub rejected_count : ℕ

abbrev pub encodable : Event → Bool
encodable event = event.encodes

abbrev pub refused : Event → Bool
refused event = not event.encodes

-- `write_events`, where SQLite does not fail.
unfoldable pub write_events : List Event → List Event → BatchWriteResult × List Event
unfolding insert_rows
write_events events table =
    let rows = keep encodable events in
    let after = insert_rows rows table in
    let inserted = length after - length table in
    (
      record {
        inserted = inserted;
        duplicates = length rows - inserted;
        rejected_count = length (keep refused events);
      },
      after,
    )

module _ {Item : Type 0} (env : Env Item) where
  -- `_observe_queue_depth`
  abbrev pub observe_queue_depth : Service Item → Service Item
  observe_queue_depth s = record s {
    depth = length s.queue;
    high_water_mark = max s.high_water_mark (length s.queue);
  }

  -- `_record_drop`
  unfoldable pub record_drop : ℕ → ℕ → Service Item → Service Item
  record_drop waited now s = record s {
    waiting = none;
    health = record s.health {
      backpressure_wait_count = s.health.backpressure_wait_count + 1;
      backpressure_wait_seconds = s.health.backpressure_wait_seconds + waited;
      dropped_event_count = s.health.dropped_event_count + 1;
      first_drop_timestamp = or_first s.health.first_drop_timestamp now;
      last_drop_timestamp = some now;
    };
  }

  -- `queue.put` where there is room
  abbrev put : Item → Service Item → Service Item
  put item s = record s { queue = s.queue ++ item ∷ [] }

  unfoldable pub has_room : Service Item → Bool
  has_room s = ltb (length s.queue) env.queue_size

  -- `_enqueue` up to its loop.
  unfoldable pub enqueue : Item → ℕ → Service Item → Service Item
  unfolding has_room
  enqueue item now s =
      if has_room s
      then observe_queue_depth (put item s)
      else record s { waiting = some (item, now + env.backpressure_timeout) }

  -- One turn of the loop of `_enqueue`; `later` is the clock after the attempt to put.
  unfoldable pub turn : Option (Item × ℕ) → ℕ → ℕ → ℕ → Service Item → Service Item
  unfolding record_drop has_room
  turn none now later wall_clock s = s
  turn (some (item, deadline)) now later wall_clock s =
      let waited = env.backpressure_timeout - (deadline - later) in
      if s.stop || leb deadline now
      then record_drop waited wall_clock s
      else if has_room s
      then observe_queue_depth (record (put item s) {
        waiting = none;
        health = record s.health {
          backpressure_wait_count = s.health.backpressure_wait_count + 1;
          backpressure_wait_seconds = s.health.backpressure_wait_seconds + waited;
        };
      })
      else s

  unfoldable pub retry : ℕ → ℕ → ℕ → Service Item → Service Item
  unfolding turn
  retry now later wall_clock s = turn s.waiting now later wall_clock s
