-- ===== src/Ingestion/Conservation.antt =====
-- What happens to each record that the producer of pipeline/live_ingestion.py takes from its source.
use Prim.Native.String.{String}
use linux_xai_security_assis.Base.{
  ℕ, ◌+◌, ◌≤◌, ◌≡◌, refl, ◌∙◌, Option, none, some, List, [], ◌∷◌, ◌++◌, keep, length, length-append,
  arith, any, not, ◌||◌, if-both, Bool-cases, inl, inr, ltb, leb,
}
use linux_xai_security_assis.Health.{CollectorHealth}
use linux_xai_security_assis.Ingestion.{
  Event, Env, Service, insert_rows, write_events, encodable, refused, has_id, enqueue, retry, turn,
  record_drop, has_room,
}
use linux_xai_security_assis.Ingestion.Threads.{
  flushed, written, flush, process_batch, reported, maybe_analyse, accept, take_next, consume,
  is_empty,
}

length-insert_rows :
    (events table : List Event)
    → (length table ≤ length (insert_rows events table))
      × (length (insert_rows events table) ≤ length table + length events)
unfolding insert_rows
length-insert_rows [] table = omega arith
length-insert_rows (event ∷ events) table = elim (Bool-cases (any (has_id event.event_id) table)) [
  | inl there ↦ rw there (ground (arith, length-insert_rows events table))
  | inr new ↦ rw new (
      ground
        (arith, length-insert_rows events (table ++ event ∷ []), length-append table (event ∷ [])))
]

length-keep_split :
    (events : List Event)
    → length (keep encodable events) + length (keep refused events) ≡ length events
length-keep_split [] = omega arith
length-keep_split (event ∷ events) = ground (arith, length-keep_split events)

-- The result's counts add up to the batch.
write_events-counts :
    (events table : List Event)
    → (write_events events table).0.inserted
        + (write_events events table).0.duplicates
        + (write_events events table).0.rejected_count
      ≡ length events
unfolding write_events
write_events-counts events table =
    omega (arith, length-keep_split events, length-insert_rows (keep encodable events) table)

abbrev pub settled : CollectorHealth → ℕ
settled h =
    h.processed_count + h.malformed_count + h.dropped_event_count + h.quarantined_event_count

-- How many records the health record and the buffers account for.
module _ {Item : Type 0} where
  abbrev pub in_hand : Option (Item × ℕ) → ℕ
  in_hand none = 0
  in_hand (some p) = 1

  abbrev pub accounted : Service Item → ℕ
  accounted s = settled s.health + (in_hand s.waiting + length s.queue + length s.pending)

module _ {Item : Type 0} (env : Env Item) where
  written-accounted : (e : Option _) (s : Service Item) → accounted (written env e s) ≡ accounted s
  unfolding written flushed
  written-accounted none s = omega (arith, write_events-counts s.pending s.table)
  written-accounted (some error) s = omega arith

  pub flush-accounted : (s : Service Item) → accounted (flush env s) ≡ accounted s
  unfolding flush
  flush-accounted s =
      if-both (λ (t : Service Item). accounted t ≡ accounted s) (is_empty s.pending) refl
        (written-accounted (env.write_fails s.pending s.table) s)

  pub process_batch-accounted : (s : Service Item) → accounted (process_batch env s) ≡ accounted s
  unfolding process_batch
  process_batch-accounted s =
      if-both (λ (t : Service Item). accounted t ≡ accounted s)
        (not env.has_analysis || is_empty s.batch) refl
        (reported-accounted (env.analysis_fails s.batch))
    where
      reported-accounted :
          (e : Option String)
          → accounted (reported env e (record s { analysed = s.analysed ++ s.batch ∷ [] }))
            ≡ accounted s
      reported-accounted none = refl
      reported-accounted (some error) = refl

  maybe_analyse-accounted : (s : Service Item) → accounted (maybe_analyse env s) ≡ accounted s
  unfolding maybe_analyse
  maybe_analyse-accounted s =
      if-both (λ (t : Service Item). accounted t ≡ accounted s)
        (ltb (length s.batch) env.ingest_batch_size) refl (process_batch-accounted s)

  -- An item that leaves the queue is malformed or pending.
  accept-accounted :
      (e : Option Event) (s : Service Item) → accounted (accept env e s) ≡ accounted s + 1
  unfolding accept
  accept-accounted none s = omega arith
  accept-accounted (some event) s =
      let held = record s { pending = s.pending ++ event ∷ [] } in
      let one_more : accounted held ≡ accounted s + 1 =
        omega (arith, length-append s.pending (event ∷ [])) in
      if-both (λ (t : Service Item). accounted t ≡ accounted s + 1)
        (leb env.ingest_batch_size (length held.pending))
        (maybe_analyse-accounted (flush env held) ∙ flush-accounted held ∙ one_more) one_more

  pub consume-accounted : (s : Service Item) → accounted (consume env s) ≡ accounted s
  unfolding consume take_next
  consume-accounted s = go s.queue refl
    where
      go : (q : List Item) → s.queue ≡ q → accounted (take_next env q s) ≡ accounted s
      go [] e = maybe_analyse-accounted (flush env s) ∙ flush-accounted s
      go (i ∷ rest) e =
          let size : length s.queue ≡ length rest + 1 = (rw e (omega arith)) in
          omega (arith, accept-accounted (env.normalize i) (record s { queue = rest }), size)

  pub enqueue-accounted :
      (i : Item) (now : ℕ) (s : Service Item)
      → s.waiting ≡ none
      → accounted (enqueue env i now s) ≡ accounted s + 1
  unfolding enqueue
  enqueue-accounted i now s h =
      let idle : in_hand s.waiting ≡ 0 = (rw h refl) in
      elim (Bool-cases (has_room env s)) [
        | inl room ↦ rw room (omega (arith, length-append s.queue (i ∷ [])))
        | inr full ↦ rw full (omega (arith, idle))
      ]

  pub retry-accounted :
      (now later wall_clock : ℕ) (s : Service Item)
      → accounted (retry env now later wall_clock s) ≡ accounted s
  unfolding retry turn record_drop
  retry-accounted now later wall_clock s = go s.waiting refl
    where
      go :
          (w : Option (Item × ℕ))
          → s.waiting ≡ w
          → accounted (turn env w now later wall_clock s) ≡ accounted s
      go none e = refl
      go (some (i, deadline)) e =
          let one_held : in_hand s.waiting ≡ 1 = (rw e refl) in
          elim (Bool-cases (s.stop || leb deadline now)) [
            | inl over ↦ rw over (omega (arith, one_held))
            | inr waits ↦ elim (Bool-cases (has_room env s)) [
              | inl room ↦
                  rw (waits, room) (omega (arith, one_held, length-append s.queue (i ∷ [])))
              | inr full ↦ rw (waits, full) refl
            ]
          ]
