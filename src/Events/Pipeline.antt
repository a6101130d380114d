-- ===== src/Events/Pipeline.antt =====
-- `TelemetryPipeline` and `InMemoryEventStore` of pipeline/event_stream.py: a finite source, each
-- record of which is normalized and then stored or skipped.
use linux_xai_security_assis.Base.{
  ℕ, ◌+◌, ◌≡◌, refl, sym, ◌∙◌, Option, none, some, List, [], ◌∷◌, ◌++◌, arith, length,
  length-append,
}
use mathlib.Core.List.{append-nil, append_assoc}
use linux_xai_security_assis.Events.{Python, Double, Raw}
use linux_xai_security_assis.Events.Record.{Event}
use linux_xai_security_assis.Events.Normalizer.{Environment, normalize}

-- The events of the store, which takes every one, and the two counts.
pub record Pipeline : Type 0 where
  pub events : List Event
  pub processed_count : ℕ
  pub skipped_count : ℕ

-- One turn of the loop, by what the normalizer made of the record.
unfoldable pub take_event : Option Event → Pipeline → Pipeline
take_event none p = record p { skipped_count = p.skipped_count + 1 }
take_event (some e) p = record p {
  events = p.events ++ e ∷ [];
  processed_count = p.processed_count + 1;
}

take_events :
    (o : Option Event) (p : Pipeline) (more : List Event)
    → (take_event o p).events ++ more ≡ p.events ++ elim o [ none ↦ more | some e ↦ e ∷ more ]
unfolding take_event
take_events none p more = refl
take_events (some e) p more = append_assoc p.events (e ∷ []) more

take_event-counts :
    (o : Option Event) (p : Pipeline)
    → p.processed_count ≡ length p.events
    → ((take_event o p).processed_count ≡ length (take_event o p).events)
      × ((take_event o p).processed_count + (take_event o p).skipped_count
          ≡ p.processed_count + p.skipped_count + 1)
unfolding take_event
take_event-counts none p h = (h, omega arith)
take_event-counts (some e) p h = (omega (arith, h, length-append p.events (e ∷ [])), omega arith)

module _ (py : Python) (env : Environment) where
  -- `run`, over what the collector yields, each with the monotonic clock when it is normalized.
  unfoldable pub run : List (Double × Raw) → Pipeline → Pipeline
  unfolding take_event
  run [] p = p
  run (r ∷ records) p = run records (take_event (normalize py env r.0 r.1) p)

  -- What the normalizer makes of each record, in order.
  abbrev pub normalized : List (Double × Raw) → List Event
  normalized [] = []
  normalized (r ∷ records) =
      let rest = normalized records in
      elim (normalize py env r.0 r.1) [ none ↦ rest | some e ↦ e ∷ rest ]

  pub run-events :
      (records : List (Double × Raw)) (p : Pipeline)
      → (run records p).events ≡ p.events ++ normalized records
  unfolding run
  run-events [] p = sym (append-nil p.events)
  run-events (r ∷ records) p =
      run-events records (take_event (normalize py env r.0 r.1) p)
      ∙ take_events (normalize py env r.0 r.1) p (normalized records)

  -- Every record is counted once, and every event that is stored is counted as processed.
  pub run-counts :
      (records : List (Double × Raw)) (p : Pipeline)
      → p.processed_count ≡ length p.events
      → ((run records p).processed_count ≡ length (run records p).events)
        × ((run records p).processed_count + (run records p).skipped_count
            ≡ p.processed_count + p.skipped_count + length records)
  unfolding run
  run-counts [] p h = (h, omega arith)
  run-counts (r ∷ records) p h =
      let o = normalize py env r.0 r.1 in
      let (first, total) = take_event-counts o p h in
      let (rest, all_counted) = run-counts records (take_event o p) first in
      (rest, omega (arith, all_counted, total))
