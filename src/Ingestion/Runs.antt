-- ===== src/Ingestion/Runs.antt =====
-- Every interleaving of the two threads of pipeline/live_ingestion.py and of `stop`.
use Prim.Native.String.{String}
use linux_xai_security_assis.Base.{
  ℕ, ◌+◌, ◌≡◌, refl, Bool, true, false, not, ◌||◌, Option, none, some, List, [], ◌∷◌, ◌++◌, length,
  if-both, if◌then◌else◌, ltb, leb, ◌==◌,
}
use linux_xai_security_assis.Health.{CollectorHealth}
use linux_xai_security_assis.Ingestion.{
  Event, unreadable, infinite, lost, Raw, undecodable, loss_report, canonical, Env, Service,
  started, enqueue, retry, turn, record_drop, add_malformed, has_room,
}
use linux_xai_security_assis.Ingestion.Threads.{
  record_kernel_loss, producer_fails, produce, flushed, written, flush, process_batch, reported,
  maybe_analyse, accept, take_next, consume, request_stop, with_health, is_empty,
}

-- What a raw record adds to the records that have to be accounted for, and to the kernel's losses.
abbrev pub records : {Item : Type 0} → Raw Item → ℕ
records undecodable = 1
records (loss_report unreadable log_raises) = 1
records (loss_report infinite log_raises) = 0
records (loss_report (lost n) log_raises) = if n == 0 then 1 else 0
records (canonical i) = 1

abbrev pub losses : {Item : Type 0} → Raw Item → ℕ
losses undecodable = 0
losses (loss_report unreadable log_raises) = 0
losses (loss_report infinite log_raises) = 0
losses (loss_report (lost n) log_raises) = n
losses (canonical i) = 0

-- The reports with an infinite count, which are counted nowhere.
abbrev pub uncounted : {Item : Type 0} → Raw Item → ℕ
uncounted undecodable = 0
uncounted (loss_report unreadable log_raises) = 0
uncounted (loss_report infinite log_raises) = 1
uncounted (loss_report (lost n) log_raises) = 0
uncounted (canonical i) = 0

-- The producer takes a record only while no stop is requested and it waits for nothing; the
-- producer ends, the consumer takes turns and a stop comes at any time.
pub data Run {Item : Type 0} (env : Env Item) : Service Item → ℕ → ℕ → Type 0 where
  begins : (now : ℕ) → Run env (started env now) 0 0
  takes :
      {s : Service Item} {n k : ℕ} (raw : Raw Item) (now : ℕ)
      → Run env s n k
      → s.stop ≡ false
      → s.waiting ≡ none
      → s.producer_done ≡ false
      → Run env (produce env raw now s) (n + records raw) (k + losses raw)
  waits :
      {s : Service Item} {n k : ℕ} (now later wall_clock : ℕ)
      → Run env s n k
      → Run env (retry env now later wall_clock s) n k
  ends :
      {s : Service Item} {n k : ℕ}
      → Run env s n k
      → s.waiting ≡ none
      → Run env (record s { producer_done = true }) n k
  consumes : {s : Service Item} {n k : ℕ} → Run env s n k → Run env (consume env s) n k
  stops : {s : Service Item} {n k : ℕ} → Run env s n k → Run env (request_stop env s) n k

-- The reports of a run that are counted nowhere.
abbrev pub missed :
    {Item : Type 0} {env : Env Item} {s : Service Item} {n k : ℕ} → Run env s n k → ℕ
missed (begins now) = 0
missed (takes raw now r stop waiting done) = missed r + uncounted raw
missed (waits now later wall_clock r) = missed r
missed (ends r idle) = missed r
missed (consumes r) = missed r
missed (stops r) = missed r

module _ {Item : Type 0} (env : Env Item) where
  -- What the consumer's single acts keep, its turns keep.
  pub record IsClosed (P : Service Item → Type 0) : Type 0 where
    pub pops :
        (i : Item) (rest : List Item) (s : Service Item)
        → s.queue ≡ i ∷ rest
        → P s
        → P (record s { queue = rest })
    pub malformed : (s : Service Item) → P s → P (with_health env (add_malformed 1) s)
    pub holds :
        (event : Event) (s : Service Item)
        → P s
        → P (record s { pending = s.pending ++ event ∷ [] })
    pub writes : (e : Option String) (s : Service Item) → P s → P (written env e s)
    pub analyses :
        (e : Option String) (s : Service Item)
        → P s
        → P (reported env e (record s { analysed = s.analysed ++ s.batch ∷ [] }))
    pub clears : (s : Service Item) → P s → P (record s { batch = [] })

  module _ (P : Service Item → Type 0) (closed : IsClosed P) where
    pub flush-keeps : (s : Service Item) → P s → P (flush env s)
    unfolding flush
    flush-keeps s h =
        if-both P (is_empty s.pending) h (closed.writes (env.write_fails s.pending s.table) s h)

    pub process_batch-keeps : (s : Service Item) → P s → P (process_batch env s)
    unfolding process_batch
    process_batch-keeps s h =
        if-both P (not env.has_analysis || is_empty s.batch) h
          (closed.analyses (env.analysis_fails s.batch) s h)

    maybe_analyse-keeps : (s : Service Item) → P s → P (maybe_analyse env s)
    unfolding maybe_analyse
    maybe_analyse-keeps s h =
        if-both P (ltb (length s.batch) env.ingest_batch_size) h
          (closed.clears (process_batch env s) (process_batch-keeps s h))

    accept-keeps : (e : Option Event) (s : Service Item) → P s → P (accept env e s)
    unfolding accept
    accept-keeps none s h = closed.malformed s h
    accept-keeps (some event) s h =
        let held = record s { pending = s.pending ++ event ∷ [] } in
        let hh = closed.holds event s h in
        if-both P (leb env.ingest_batch_size (length held.pending))
          (maybe_analyse-keeps (flush env held) (flush-keeps held hh)) hh

    pub consume-keeps : (s : Service Item) → P s → P (consume env s)
    unfolding consume take_next
    consume-keeps s h = go s.queue refl
      where
        go : (q : List Item) → s.queue ≡ q → P (take_next env q s)
        go [] e = maybe_analyse-keeps (flush env s) (flush-keeps s h)
        go (i ∷ rest) e =
            accept-keeps (env.normalize i) (record s { queue = rest }) (closed.pops i rest s e h)

  -- What the consumer never touches.
  abbrev pub Untouched : Service Item → Service Item → Type 0
  Untouched s t =
      (t.health.kernel_lost_event_count ≡ s.health.kernel_lost_event_count)
      × (t.producer_done ≡ s.producer_done)
      × (t.waiting ≡ s.waiting)

  Untouched-written :
      (s : Service Item) (e : Option String) (t : Service Item)
      → Untouched s t
      → Untouched s (written env e t)
  unfolding written flushed
  Untouched-written s none t h = h
  Untouched-written s (some error) t h = h

  Untouched-reported :
      (s : Service Item) (e : Option String) (t : Service Item)
      → Untouched s t
      → Untouched s (reported env e t)
  Untouched-reported s none t h = h
  Untouched-reported s (some error) t h = h

  pub Untouched-IsClosed : (s : Service Item) → IsClosed (Untouched s)
  Untouched-IsClosed s = record {
    pops = λ i rest t e h. h;
    malformed = λ t h. h;
    holds = λ event t h. h;
    writes = λ e t h. Untouched-written s e t h;
    analyses =
        λ e t h. Untouched-reported s e (record t { analysed = t.analysed ++ t.batch ∷ [] }) h;
    clears = λ t h. h;
  }

  -- What does not depend on the producer's part of the state, the producer and `stop` keep.
  abbrev pub Ignores : (Service Item → Type 0) → Type 0
  Ignores P =
      (s : Service Item) (queue : List Item) (waiting : Option (Item × ℕ)) (stop done : Bool)
      (depth mark : ℕ) (health : CollectorHealth)
      → P s
      → P (record s {
        queue = queue;
        waiting = waiting;
        stop = stop;
        producer_done = done;
        depth = depth;
        high_water_mark = mark;
        health = health;
      })

  module _ (P : Service Item → Type 0) (ignores : Ignores P) where
    pub produce-keeps :
        (raw : Raw Item) (now : ℕ) (s : Service Item) → P s → P (produce env raw now s)
    unfolding produce record_kernel_loss enqueue
    produce-keeps undecodable now s h = ignores s _ _ _ _ _ _ _ h
    produce-keeps (loss_report unreadable log_raises) now s h = ignores s _ _ _ _ _ _ _ h
    produce-keeps (loss_report infinite log_raises) now s h = ignores s _ _ _ _ _ _ _ h
    produce-keeps (loss_report (lost n) false) now s h =
        if-both (λ r. P (producer_fails env r)) (n == 0) (ignores s _ _ _ _ _ _ _ h)
          (ignores s _ _ _ _ _ _ _ h)
    produce-keeps (loss_report (lost n) true) now s h =
        if-both (λ r. P (producer_fails env r)) (n == 0) (ignores s _ _ _ _ _ _ _ h)
          (ignores s _ _ _ _ _ _ _ h)
    produce-keeps (canonical i) now s h =
        if-both P (has_room env s) (ignores s _ _ _ _ _ _ _ h) (ignores s _ _ _ _ _ _ _ h)

    turn-keeps :
        (w : Option (Item × ℕ)) (now later wall_clock : ℕ) (s : Service Item)
        → P s
        → P (turn env w now later wall_clock s)
    unfolding turn record_drop
    turn-keeps none now later wall_clock s h = h
    turn-keeps (some (i, deadline)) now later wall_clock s h =
        if-both P (s.stop || leb deadline now) (ignores s _ _ _ _ _ _ _ h)
          (if-both P (has_room env s) (ignores s _ _ _ _ _ _ _ h) h)

    pub retry-keeps :
        (now later wall_clock : ℕ) (s : Service Item) → P s → P (retry env now later wall_clock s)
    unfolding retry
    retry-keeps now later wall_clock s h = turn-keeps s.waiting now later wall_clock s h

    pub request_stop-keeps : (s : Service Item) → P s → P (request_stop env s)
    unfolding request_stop
    request_stop-keeps s h = ignores s _ _ _ _ _ _ _ h
