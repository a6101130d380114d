-- ===== src/Ingestion/Bounds.antt =====
-- The bounds of the queue of pipeline/live_ingestion.py.
use Prim.Native.String.{String}
use linux_xai_security_assis.Base.{
  true, false, ℕ, ◌+◌, ◌≤◌, max, ◌≡◌, true, ◌||◌, Option, none, some, [], ◌∷◌, ◌++◌, length,
  length-append, arith, if-both, Bool-cases, inl, inr, leb, ◌==◌,
}
use linux_xai_security_assis.Health.{CollectorHealth, Status}
use linux_xai_security_assis.Health
use linux_xai_security_assis.Ingestion.{
  unreadable, infinite, lost, Raw, undecodable, loss_report, canonical, Env, Service, enqueue,
  retry, turn, record_drop, has_room,
}
use linux_xai_security_assis.Ingestion.Threads.{
  record_kernel_loss, producer_fails, produce, written, flushed, reported, request_stop, after_stop,
}
use linux_xai_security_assis.Ingestion.Runs.{
  IsClosed, consume-keeps, Run, begins, takes, waits, ends, consumes, stops,
}

-- The queue and both samples of its depth are within its size, and each drop was waited for.
abbrev pub IsBounded : {Item : Type 0} → Env Item → Service Item → Type 0
IsBounded env s =
    (length s.queue ≤ env.queue_size)
    × (s.depth ≤ env.queue_size)
    × (s.high_water_mark ≤ env.queue_size)
    × (s.health.dropped_event_count ≤ s.health.backpressure_wait_count)

after_stop-drops :
    (status : Status) (h : CollectorHealth)
    → h.dropped_event_count ≤ h.backpressure_wait_count
    → (after_stop status h).dropped_event_count ≤ (after_stop status h).backpressure_wait_count
after_stop-drops Health.unknown h le = le
after_stop-drops Health.running h le = le
after_stop-drops Health.stopping h le = le
after_stop-drops Health.stopped h le = le
after_stop-drops Health.failed h le = le

module _ {Item : Type 0} (env : Env Item) where
  written-IsBounded :
      (e : Option String) (s : Service Item) → IsBounded env s → IsBounded env (written env e s)
  unfolding written flushed
  written-IsBounded none s h = h
  written-IsBounded (some error) s h = h

  reported-IsBounded :
      (e : Option String) (s : Service Item) → IsBounded env s → IsBounded env (reported env e s)
  reported-IsBounded none s h = h
  reported-IsBounded (some error) s h = h

  IsBounded-IsClosed : IsClosed env (IsBounded env)
  IsBounded-IsClosed = record {
    pops = λ i rest s e h.
        let size : length s.queue ≡ length rest + 1 = (rw e (omega arith)) in
        (omega (arith, h.0, size), h.1, h.2, h.3);
    malformed = λ s h. h;
    holds = λ event s h. h;
    writes = written-IsBounded;
    analyses = λ e s h. reported-IsBounded e (record s { analysed = s.analysed ++ s.batch ∷ [] }) h;
    clears = λ s h. h;
  }

  -- An item that there is room for.
  put-IsBounded :
      (i : Item) (s : Service Item)
      → has_room env s ≡ true
      → IsBounded env s
      → (length (s.queue ++ i ∷ []) ≤ env.queue_size)
        × (max s.high_water_mark (length (s.queue ++ i ∷ [])) ≤ env.queue_size)
  unfolding has_room
  put-IsBounded i s room h =
      let size = length-append s.queue (i ∷ []) in (ground (arith, size), ground (arith, size, h.2))

  produce-IsBounded :
      (raw : Raw Item) (now : ℕ) (s : Service Item)
      → IsBounded env s
      → IsBounded env (produce env raw now s)
  unfolding produce record_kernel_loss enqueue
  produce-IsBounded undecodable now s h = h
  produce-IsBounded (loss_report unreadable log_raises) now s h = h
  produce-IsBounded (loss_report infinite log_raises) now s h = h
  produce-IsBounded (loss_report (lost n) false) now s h =
      if-both (λ r. IsBounded env (producer_fails env r)) (n == 0) h h
  produce-IsBounded (loss_report (lost n) true) now s h =
      if-both (λ r. IsBounded env (producer_fails env r)) (n == 0) h h
  produce-IsBounded (canonical i) now s h = elim (Bool-cases (has_room env s)) [
    | inl room ↦
        let (queued, marked) = put-IsBounded i s room h in rw room (queued, queued, marked, h.3)
    | inr full ↦ rw full h
  ]

  turn-IsBounded :
      (w : Option (Item × ℕ)) (now later wall_clock : ℕ) (s : Service Item)
      → IsBounded env s
      → IsBounded env (turn env w now later wall_clock s)
  unfolding turn record_drop
  turn-IsBounded none now later wall_clock s h = h
  turn-IsBounded (some (i, deadline)) now later wall_clock s h =
      elim (Bool-cases (s.stop || leb deadline now)) [
        | inl over ↦ rw over (h.0, h.1, h.2, omega (arith, h.3))
        | inr still ↦ elim (Bool-cases (has_room env s)) [
          | inl room ↦
              let (queued, marked) = put-IsBounded i s room h in
              rw (still, room) (queued, queued, marked, omega (arith, h.3))
          | inr full ↦ rw (still, full) h
        ]
      ]

  -- However the two threads interleave, the queue, its sampled depth and the high-water mark stay
  -- within the queue's size, and no more events are dropped than were waited for.
  pub Run-IsBounded : {s : Service Item} {n k : ℕ} → Run env s n k → IsBounded env s
  unfolding retry request_stop
  Run-IsBounded (begins now) = (omega arith, omega arith, omega arith, omega arith)
  Run-IsBounded (takes {s} raw now r stop waiting done) =
      produce-IsBounded raw now s (Run-IsBounded r)
  Run-IsBounded (waits {s} now later wall_clock r) =
      turn-IsBounded s.waiting now later wall_clock s (Run-IsBounded r)
  Run-IsBounded (ends r idle) = Run-IsBounded r
  Run-IsBounded (consumes {s} r) =
      consume-keeps env (λ t. IsBounded env t) IsBounded-IsClosed s (Run-IsBounded r)
  Run-IsBounded (stops {s} r) =
      let h = Run-IsBounded r in (h.0, h.1, h.2, after_stop-drops s.health.status s.health h.3)
