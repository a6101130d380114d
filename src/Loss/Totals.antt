-- ===== src/Loss/Totals.antt =====
-- What the records of telemetry/bcc/ringbuf_loss.py and perf_loss.py add up to.
use linux_xai_security_assis.Base.{
  ℕ, ◌+◌, ◌-◌, ◌≤◌, ◌≡◌, refl, ◌∙◌, Option, none, some, List, [], ◌∷◌, ◌++◌, ltb, ◌==◌, arith,
  Bool-cases, inl, inr,
}
use linux_xai_security_assis.Loss.{
  LossRecord, PerfBufferLossReporter, emit, too_soon, report, RingBufferLossReporter, Reading,
  polled, poll, poll_all, flush, new_poller,
}

abbrev pub lost_total : List LossRecord → ℕ
lost_total [] = 0
lost_total (r ∷ rs) = r.lost_events + lost_total rs

lost_total-append :
    (rs qs : List LossRecord) → lost_total (rs ++ qs) ≡ lost_total rs + lost_total qs
lost_total-append [] qs = omega arith
lost_total-append (r ∷ rs) qs = omega (arith, lost_total-append rs qs)

abbrev pub counters : List Reading → List (Option ℕ)
counters [] = []
counters (reading ∷ readings) = reading.counter ∷ counters readings

-- What the counter grew by from a first value on, a recreated map's fall aside.
abbrev pub growth : ℕ → List (Option ℕ) → ℕ
growth seen [] = 0
growth seen (none ∷ readings) = growth seen readings
growth seen (some current ∷ readings) = (current - seen) + growth current readings

-- Printed or pending.
abbrev known : PerfBufferLossReporter → ℕ
known r = lost_total r.printed + r.pending

emit-known :
    (now wall_clock : ℕ) (r : PerfBufferLossReporter) → known (emit now wall_clock r) ≡ known r
unfolding emit
emit-known now wall_clock r = elim (Bool-cases (r.pending == 0)) [
  | inl nothing ↦ rw nothing refl
  | inr some_lost ↦ rw some_lost (
      omega (
        arith,
        lost_total-append r.printed (
            record {
              timestamp = wall_clock;
              lost_events = r.pending;
              total_lost_events = r.total_lost_events;
            }
            ∷ []),
      ))
]

report-known :
    (interval now wall_clock lost : ℕ) (r : PerfBufferLossReporter)
    → known (report interval now wall_clock lost r) ≡ known r + lost
unfolding report
report-known interval now wall_clock lost r =
    let counted = record r {
      total_lost_events = r.total_lost_events + lost;
      pending = r.pending + lost;
    } in
    elim (Bool-cases (lost == 0)) [
      | inl nothing ↦ rw nothing (ground arith)
      | inr positive ↦ elim (Bool-cases (too_soon interval now r.last_report)) [
        | inl soon ↦ rw (positive, soon) (omega arith)
        | inr due ↦ rw (positive, due) (omega (arith, emit-known now wall_clock counted))
      ]
    ]

polled-known :
    (interval now wall_clock : ℕ) (counter : Option ℕ) (rest : List (Option ℕ))
    (p : RingBufferLossReporter)
    → known (polled interval now wall_clock counter p).reporter
        + growth (polled interval now wall_clock counter p).last_seen rest
      ≡ known p.reporter + growth p.last_seen (counter ∷ rest)
unfolding polled
polled-known interval now wall_clock none rest p = refl
polled-known interval now wall_clock (some current) rest p =
    elim (Bool-cases (ltb current p.last_seen)) [
      | inl fell ↦ rw fell (ground arith)
      | inr held ↦ elim (Bool-cases (current - p.last_seen == 0)) [
        | inl same ↦ rw (held, same) (ground arith)
        | inr grew ↦
            rw (held, grew)
              (omega
                (arith, report-known interval now wall_clock (current - p.last_seen) p.reporter))
      ]
    ]

poll_all-known :
    (interval : ℕ) (readings : List Reading) (p : RingBufferLossReporter)
    → known (poll_all interval readings p).reporter
      ≡ known p.reporter + growth p.last_seen (counters readings)
unfolding poll_all poll
poll_all-known interval [] p = omega arith
poll_all-known interval (reading ∷ readings) p =
    poll_all-known interval readings (poll interval reading p)
    ∙ polled-known interval reading.now reading.wall_clock reading.counter (counters readings) p

emit-pending :
    (now wall_clock : ℕ) (r : PerfBufferLossReporter) → (emit now wall_clock r).pending ≡ 0
unfolding emit
emit-pending now wall_clock r = ground arith

-- After the flush on the way out, the printed records add up to what the counter grew by over all
-- the polls, whatever polls could not read it and however the reports were coalesced.
pub flush-growth :
    (interval now wall_clock : ℕ) (readings : List Reading)
    → lost_total (flush now wall_clock (poll_all interval readings new_poller)).reporter.printed
      ≡ growth 0 (counters readings)
unfolding flush
flush-growth interval now wall_clock readings =
    let last = (poll_all interval readings new_poller).reporter in
    omega (
      arith,
      emit-known now wall_clock last,
      emit-pending now wall_clock last,
      poll_all-known interval readings new_poller,
    )

-- The counter as it was last read.
abbrev pub last_read : ℕ → List (Option ℕ) → ℕ
last_read seen [] = seen
last_read seen (none ∷ readings) = last_read seen readings
last_read seen (some current ∷ readings) = last_read current readings

-- No reading is less than the one before it.
abbrev pub NeverFalls : ℕ → List (Option ℕ) → Type 0
NeverFalls seen [] = Unit
NeverFalls seen (none ∷ readings) = NeverFalls seen readings
NeverFalls seen (some current ∷ readings) = (seen ≤ current) × NeverFalls current readings

growth-last_read :
    (seen : ℕ) (readings : List (Option ℕ))
    → NeverFalls seen readings
    → seen + growth seen readings ≡ last_read seen readings
growth-last_read seen [] h = omega arith
growth-last_read seen (none ∷ readings) h = growth-last_read seen readings h
growth-last_read seen (some current ∷ readings) h =
    omega (arith, h.0, growth-last_read current readings h.1)

-- A counter that never falls is reported in full: after the flush the printed records add up to
-- its last reading.
pub flush-last_read :
    (interval now wall_clock : ℕ) (readings : List Reading)
    → NeverFalls 0 (counters readings)
    → lost_total (flush now wall_clock (poll_all interval readings new_poller)).reporter.printed
      ≡ last_read 0 (counters readings)
flush-last_read interval now wall_clock readings h =
    flush-growth interval now wall_clock readings
    ∙ omega (arith, growth-last_read 0 (counters readings) h)
