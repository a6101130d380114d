-- ===== src/Loss.antt =====
-- The collectors' loss reports: `RingBufferLossReporter` of telemetry/bcc/ringbuf_loss.py over
-- `PerfBufferLossReporter` of telemetry/bcc/perf_loss.py. The clocks and the counter's readings are
-- arguments; the record's constant fields (buffer, source, version) are left out.
pub mod Totals
mod Samples
use linux_xai_security_assis.Base.{
  ℕ, ◌+◌, ◌-◌, Bool, true, false, Option, none, some, List, [], ◌∷◌, ◌++◌, ltb, ◌==◌, if◌then◌else◌,
}

-- A printed `telemetry_loss` record.
pub record LossRecord : Type 0 where
  pub timestamp : ℕ
  pub lost_events : ℕ
  pub total_lost_events : ℕ

pub record PerfBufferLossReporter : Type 0 where
  pub total_lost_events : ℕ
  pub pending : ℕ
  pub last_report : Option ℕ
  pub printed : List LossRecord

abbrev pub new_reporter : PerfBufferLossReporter
new_reporter = record { total_lost_events = 0; pending = 0; last_report = none; printed = [] }

-- `_emit`
unfoldable pub emit : ℕ → ℕ → PerfBufferLossReporter → PerfBufferLossReporter
emit now wall_clock r = if r.pending == 0 then r else record r {
  pending = 0;
  last_report = some now;
  printed =
      r.printed
      ++ record {
        timestamp = wall_clock;
        lost_events = r.pending;
        total_lost_events = r.total_lost_events;
      }
        ∷ [];
}

-- Inside the reporting window of the last report; the clock is monotonic.
abbrev pub too_soon : ℕ → ℕ → Option ℕ → Bool
too_soon interval now none = false
too_soon interval now (some last) = ltb now (last + interval)

-- `__call__`, with a positive count or 0 for one that it ignores.
unfoldable pub report : ℕ → ℕ → ℕ → ℕ → PerfBufferLossReporter → PerfBufferLossReporter
unfolding emit
report interval now wall_clock lost r =
    let counted = record r {
      total_lost_events = r.total_lost_events + lost;
      pending = r.pending + lost;
    } in
    if lost == 0
    then r
    else if too_soon interval now r.last_report
    then counted
    else emit now wall_clock counted

pub record RingBufferLossReporter : Type 0 where
  pub last_seen : ℕ
  pub reporter : PerfBufferLossReporter

-- What one poll finds: the clocks, and the counter, `none` where it cannot be read.
pub record Reading : Type 0 where
  pub now : ℕ
  pub wall_clock : ℕ
  pub counter : Option ℕ

-- `poll`
unfoldable pub polled : ℕ → ℕ → ℕ → Option ℕ → RingBufferLossReporter → RingBufferLossReporter
polled interval now wall_clock none p = p
polled interval now wall_clock (some current) p =
    let moved = record p { last_seen = current } in
    let delta = current - p.last_seen in
    if ltb current p.last_seen
    then moved
    else if delta == 0
    then moved
    else record moved { reporter = report interval now wall_clock delta p.reporter }

unfoldable pub poll : ℕ → Reading → RingBufferLossReporter → RingBufferLossReporter
unfolding polled
poll interval reading p = polled interval reading.now reading.wall_clock reading.counter p

-- The polls of a collector's life, and `flush` on its way out.
unfoldable pub poll_all : ℕ → List Reading → RingBufferLossReporter → RingBufferLossReporter
unfolding poll
poll_all interval [] p = p
poll_all interval (reading ∷ readings) p = poll_all interval readings (poll interval reading p)

unfoldable pub flush : ℕ → ℕ → RingBufferLossReporter → RingBufferLossReporter
flush now wall_clock p = record p { reporter = emit now wall_clock p.reporter }

abbrev pub new_poller : RingBufferLossReporter
new_poller = record { last_seen = 0; reporter = new_reporter }
