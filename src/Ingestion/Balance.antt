-- ===== src/Ingestion/Balance.antt =====
-- The books of pipeline/live_ingestion.py, over every interleaving and at the end of the consumer.
use Prim.Native.String.{String}
use linux_xai_security_assis.Base.{
  ℕ, ◌+◌, ◌≡◌, refl, sym, ◌∙◌, true, false, not, ◌≤◌, ◌⊎◌, ◌||◌, Option, none, some, List, [], ◌∷◌,
  ◌++◌, length, arith, if-both, Bool-cases, inl, inr, ◌==◌, leb,
}
use linux_xai_security_assis.Health
use linux_xai_security_assis.Health.{CollectorHealth, Status}
use linux_xai_security_assis.Ingestion.{
  Event, unreadable, infinite, lost, Raw, undecodable, loss_report, canonical, Env, Service,
  enqueue, retry, turn, record_drop, has_room,
}
use linux_xai_security_assis.Ingestion.Threads.{
  record_kernel_loss, produce, written, flushed, flush, process_batch, reported, finish,
  request_stop, after_stop, ended, close_health, is_empty,
}
use linux_xai_security_assis.Ingestion.Conservation.{
  settled, accounted, in_hand, consume-accounted, enqueue-accounted, retry-accounted,
  flush-accounted, process_batch-accounted,
}
use linux_xai_security_assis.Ingestion.Runs.{
  records, losses, uncounted, missed, Run, begins, takes, waits, ends, consumes, stops,
  consume-keeps, Untouched, Untouched-IsClosed,
}

after_stop-same :
    (status : Status) (h : CollectorHealth)
    → (settled (after_stop status h) ≡ settled h)
      × ((after_stop status h).kernel_lost_event_count ≡ h.kernel_lost_event_count)
after_stop-same Health.unknown h = (refl, refl)
after_stop-same Health.running h = (refl, refl)
after_stop-same Health.stopping h = (refl, refl)
after_stop-same Health.stopped h = (refl, refl)
after_stop-same Health.failed h = (refl, refl)

module _ {Item : Type 0} (env : Env Item) where
  abbrev kernel_lost : Service Item → ℕ
  kernel_lost s = s.health.kernel_lost_event_count

  produce-accounted :
      (raw : Raw Item) (now : ℕ) (s : Service Item)
      → s.waiting ≡ none
      → accounted (produce env raw now s) ≡ accounted s + records raw
  unfolding produce record_kernel_loss
  produce-accounted undecodable now s h = omega arith
  produce-accounted (loss_report unreadable log_raises) now s h = omega arith
  produce-accounted (loss_report infinite log_raises) now s h = omega arith
  produce-accounted (loss_report (lost n) false) now s h = elim (Bool-cases (n == 0)) [
    | inl zero_loss ↦ rw zero_loss (omega arith)
    | inr loss ↦ rw loss (omega arith)
  ]
  produce-accounted (loss_report (lost n) true) now s h = elim (Bool-cases (n == 0)) [
    | inl zero_loss ↦ rw zero_loss (omega arith)
    | inr loss ↦ rw loss (omega arith)
  ]
  produce-accounted (canonical i) now s h = enqueue-accounted env i now s h

  enqueue-lost :
      (i : Item) (now : ℕ) (s : Service Item) → kernel_lost (enqueue env i now s) ≡ kernel_lost s
  unfolding enqueue
  enqueue-lost i now s =
      if-both (λ (t : Service Item). kernel_lost t ≡ kernel_lost s) (has_room env s) refl refl

  produce-lost :
      (raw : Raw Item) (now : ℕ) (s : Service Item)
      → kernel_lost (produce env raw now s) ≡ kernel_lost s + losses raw
  unfolding produce record_kernel_loss
  produce-lost undecodable now s = omega arith
  produce-lost (loss_report unreadable log_raises) now s = omega arith
  produce-lost (loss_report infinite log_raises) now s = omega arith
  produce-lost (loss_report (lost n) false) now s = elim (Bool-cases (n == 0)) [
    | inl zero_loss ↦ rw zero_loss (ground arith)
    | inr loss ↦ rw loss (omega arith)
  ]
  produce-lost (loss_report (lost n) true) now s = elim (Bool-cases (n == 0)) [
    | inl zero_loss ↦ rw zero_loss (ground arith)
    | inr loss ↦ rw loss (omega arith)
  ]
  produce-lost (canonical i) now s = omega (arith, enqueue-lost i now s)

  turn-lost :
      (w : Option (Item × ℕ)) (now later wall_clock : ℕ) (s : Service Item)
      → kernel_lost (turn env w now later wall_clock s) ≡ kernel_lost s
  unfolding turn record_drop
  turn-lost none now later wall_clock s = refl
  turn-lost (some (i, deadline)) now later wall_clock s =
      if-both (λ (t : Service Item). kernel_lost t ≡ kernel_lost s) (s.stop || leb deadline now)
        refl
        (if-both (λ (t : Service Item). kernel_lost t ≡ kernel_lost s) (has_room env s) refl refl)

  retry-lost :
      (now later wall_clock : ℕ) (s : Service Item)
      → kernel_lost (retry env now later wall_clock s) ≡ kernel_lost s
  unfolding retry
  retry-lost now later wall_clock s = turn-lost s.waiting now later wall_clock s

  turn-done :
      (w : Option (Item × ℕ)) (now later wall_clock : ℕ) (s : Service Item)
      → (turn env w now later wall_clock s).producer_done ≡ s.producer_done
  unfolding turn record_drop
  turn-done none now later wall_clock s = refl
  turn-done (some (i, deadline)) now later wall_clock s =
      if-both (λ (t : Service Item). t.producer_done ≡ s.producer_done) (s.stop || leb deadline now)
        refl
        (if-both (λ (t : Service Item). t.producer_done ≡ s.producer_done) (has_room env s) refl
          refl)

  produce-missed :
      (raw : Raw Item) (now : ℕ) (s : Service Item)
      → (uncounted raw ≡ 0) ⊎ ((uncounted raw ≡ 1) × ((produce env raw now s).producer_done ≡ true))
  unfolding produce record_kernel_loss
  produce-missed undecodable now s = inl refl
  produce-missed (loss_report unreadable log_raises) now s = inl refl
  produce-missed (loss_report infinite log_raises) now s = inr (refl, refl)
  produce-missed (loss_report (lost n) log_raises) now s = inl refl
  produce-missed (canonical i) now s = inl refl

  -- A report that is counted nowhere ends the producer.
  missed-ends :
      {s : Service Item} {n k : ℕ} (r : Run env s n k)
      → (missed r ≡ 0) ⊎ ((missed r ≡ 1) × (s.producer_done ≡ true))
  unfolding retry request_stop
  missed-ends (begins now) = inl refl
  missed-ends (takes {s} raw now r stop waiting done) = elim (missed-ends r) [
    | inr (one, over) ↦ cc (over, done)
    | inl before ↦ elim (produce-missed raw now s) [
      | inl counted ↦ inl (omega (arith, before, counted))
      | inr (lost_one, over) ↦ inr (omega (arith, before, lost_one), over)
    ]
  ]
  missed-ends (waits {s} now later wall_clock r) =
      let same = turn-done s.waiting now later wall_clock s in
      elim (missed-ends r) [ inl before ↦ inl before | inr (one, over) ↦ inr (one, same ∙ over) ]
  missed-ends (ends r idle) = elim (missed-ends r) [
    | inl before ↦ inl before
    | inr (one, over) ↦ inr (one, refl)
  ]
  missed-ends (consumes {s} r) =
      let same =
        consume-keeps env (Untouched env s) (Untouched-IsClosed env s) s (refl, refl, refl) in
      elim (missed-ends r) [ inl before ↦ inl before | inr (one, over) ↦ inr (one, same.1 ∙ over) ]
  missed-ends (stops r) = missed-ends r

  Run-balance :
      {s : Service Item} {n k : ℕ} → Run env s n k → (accounted s ≡ n) × (kernel_lost s ≡ k)
  unfolding request_stop
  Run-balance (begins now) = (refl, refl)
  Run-balance (takes {s} raw now r stop waiting done) =
      let (balance, loss) = Run-balance r in
      (
        omega (arith, produce-accounted raw now s waiting, balance),
        omega (arith, produce-lost raw now s, loss),
      )
  Run-balance (waits {s} now later wall_clock r) =
      let (balance, loss) = Run-balance r in
      (
        retry-accounted env now later wall_clock s ∙ balance,
        retry-lost now later wall_clock s ∙ loss,
      )
  Run-balance (ends r idle) = Run-balance r
  Run-balance (consumes {s} r) =
      let (balance, loss) = Run-balance r in
      let same =
        consume-keeps env (Untouched env s) (Untouched-IsClosed env s) s (refl, refl, refl) in
      (consume-accounted env s ∙ balance, same.0 ∙ loss)
  Run-balance (stops {s} r) =
      let (balance, loss) = Run-balance r in
      let same = after_stop-same s.health.status s.health in
      (omega (arith, balance, same.0), same.1 ∙ loss)

  pub Run-accounted :
      {s : Service Item} {n k : ℕ} (r : Run env s n k)
      → (accounted s ≡ n) × (s.health.kernel_lost_event_count ≡ k) × (missed r ≤ 1)
  Run-accounted r =
      let (balance, loss) = Run-balance r in
      (
        balance,
        loss,
        elim (missed-ends r) [
          | inl before ↦ omega (arith, before)
          | inr (one, over) ↦ omega (arith, one)
        ],
      )

  -- What the producer left behind when the consumer ends.
  IsDrained : Service Item → Type 0
  IsDrained s = (s.pending ≡ []) × (s.queue ≡ []) × (s.waiting ≡ none)

  written-drains :
      (e : Option String) (s : Service Item)
      → s.queue ≡ []
      → s.waiting ≡ none
      → IsDrained (written env e s)
  unfolding written flushed IsDrained
  written-drains none s q w = (refl, q, w)
  written-drains (some error) s q w = (refl, q, w)

  is_empty→eq : (events : List Event) → is_empty events ≡ true → events ≡ []
  is_empty→eq [] h = refl
  is_empty→eq (event ∷ events) h = cc

  flush-drains : (s : Service Item) → s.queue ≡ [] → s.waiting ≡ none → IsDrained (flush env s)
  unfolding flush IsDrained
  flush-drains s q w = elim (Bool-cases (is_empty s.pending)) [
    | inl nothing ↦ rw nothing (is_empty→eq s.pending nothing, q, w)
    | inr events ↦ rw events (written-drains (env.write_fails s.pending s.table) s q w)
  ]

  process_batch-drains : (s : Service Item) → IsDrained s → IsDrained (process_batch env s)
  unfolding process_batch IsDrained
  process_batch-drains s h =
      if-both IsDrained (not env.has_analysis || is_empty s.batch) h
        (reports (env.analysis_fails s.batch))
    where
      reports :
          (e : Option String)
          → IsDrained (reported env e (record s { analysed = s.analysed ++ s.batch ∷ [] }))
      reports none = h
      reports (some error) = h

  close_health-settled : (now : ℕ) (h : CollectorHealth) → settled (close_health now h) ≡ settled h
  close_health-settled now h = go h.status
    where
      go :
          (status : Status)
          → settled (record (ended status h) { stopped_at = some now }) ≡ settled h
      go Health.unknown = refl
      go Health.running = refl
      go Health.stopping = refl
      go Health.stopped = refl
      go Health.failed = refl

  drained-settled : (s : Service Item) → IsDrained s → accounted s ≡ settled s.health
  unfolding IsDrained
  drained-settled s (p, q, w) =
      let sizes : in_hand s.waiting + length s.queue + length s.pending ≡ 0 = (rw (p, q, w) refl) in
      omega (arith, sizes)

  -- Once the producer waits for nothing and the queue is empty, the consumer's end leaves every
  -- record that was taken processed, malformed, dropped or quarantined, and none in memory.
  pub finish-settled :
      {s : Service Item} {n k : ℕ} (now : ℕ)
      → Run env s n k
      → s.queue ≡ []
      → s.waiting ≡ none
      → settled (finish env now s).health ≡ n
  unfolding finish
  finish-settled {s} now r q w =
      let after = process_batch env (flush env s) in
      let drained : IsDrained after = process_batch-drains (flush env s) (flush-drains s q w) in
      close_health-settled now after.health
      ∙ sym (drained-settled after drained)
      ∙ process_batch-accounted env (flush env s)
      ∙ flush-accounted env s
      ∙ (Run-accounted r).0
