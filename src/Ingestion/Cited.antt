-- ===== src/Ingestion/Cited.antt =====
-- Which events the consumer of pipeline/live_ingestion.py hands to the analysis pipeline.
use Prim.Native.String.{String}
use linux_xai_security_assis.Base.{
  ℕ, ◌≡◌, Bool, true, Option, none, some, List, [], ◌∷◌, ◌++◌, keep, arith, any, if-both,
  if◌then◌else◌, Bool-cases, inl, inr, All, All-append, All-map,
}
use linux_xai_security_assis.Ingestion.{
  Event, Env, Service, insert_rows, write_events, encodable, has_id,
}
use linux_xai_security_assis.Ingestion.Threads.{written, flushed, reported}
use linux_xai_security_assis.Ingestion.Runs.{
  IsClosed, consume-keeps, Ignores, produce-keeps, retry-keeps, request_stop-keeps, Run, begins,
  takes, waits, ends, consumes, stops,
}

-- The table has a row with the event's id.
abbrev pub IsStored : List Event → Event → Type 0
IsStored table event = any (has_id event.event_id) table ≡ true

any-append : (p : Event → Bool) (xs ys : List Event) → any p xs ≡ true → any p (xs ++ ys) ≡ true
any-append p [] ys h = cc
any-append p (x ∷ xs) ys h = ground (arith, any-append p xs ys)

any-append_last :
    (p : Event → Bool) (xs : List Event) (x : Event) → p x ≡ true → any p (xs ++ x ∷ []) ≡ true
any-append_last p [] x h = ground arith
any-append_last p (y ∷ xs) x h = ground (arith, any-append_last p xs x)

insert_rows-keeps :
    (p : Event → Bool) (events table : List Event)
    → any p table ≡ true
    → any p (insert_rows events table) ≡ true
unfolding insert_rows
insert_rows-keeps p [] table h = h
insert_rows-keeps p (event ∷ events) table h = insert_rows-keeps p events _ (
    if-both (λ (rows : List Event). any p rows ≡ true) (any (has_id event.event_id) table) h
      (any-append p table (event ∷ []) h))

insert_rows-IsStored :
    (events table : List Event) → All (IsStored (insert_rows events table)) events
unfolding insert_rows
insert_rows-IsStored [] table = tt
insert_rows-IsStored (event ∷ events) table =
    (insert_rows-keeps (has_id event.event_id) events _ there, insert_rows-IsStored events _)
  where
    there :
        any
          (has_id event.event_id)
          (if any (has_id event.event_id) table then table else table ++ event ∷ [])
        ≡ true
    there = elim (Bool-cases (any (has_id event.event_id) table)) [
      | inl old ↦ rw old old
      | inr new ↦ rw new (any-append_last (has_id event.event_id) table event (ground arith))
    ]

-- The events held for analysis, and those of every batch that was analysed, are in the table.
abbrev pub IsCited : {Item : Type 0} → Service Item → Type 0
IsCited s = All (IsStored s.table) s.batch × All (All (IsStored s.table)) s.analysed

module _ {Item : Type 0} (env : Env Item) where
  IsCited-written : (e : Option String) (s : Service Item) → IsCited s → IsCited (written env e s)
  unfolding written flushed write_events
  IsCited-written (some error) s h = h
  IsCited-written none s h =
      let rows = keep encodable s.pending in
      let kept = λ (event : Event) (there : IsStored s.table event).
        insert_rows-keeps (has_id event.event_id) rows s.table there in
      (
        All-append (IsStored (insert_rows rows s.table)) s.batch rows (All-map kept s.batch h.0)
            (insert_rows-IsStored rows s.table),
        All-map (λ batch. All-map kept batch) s.analysed h.1,
      )

  IsCited-reported : (e : Option String) (s : Service Item) → IsCited s → IsCited (reported env e s)
  IsCited-reported none s h = h
  IsCited-reported (some error) s h = h

  IsCited-IsClosed : IsClosed env IsCited
  IsCited-IsClosed = record {
    pops = λ i rest s e h. h;
    malformed = λ s h. h;
    holds = λ event s h. h;
    writes = IsCited-written;
    analyses = λ e s h.
        IsCited-reported e (record s { analysed = s.analysed ++ s.batch ∷ [] })
          (h.0, All-append (All (IsStored s.table)) s.analysed (s.batch ∷ []) h.1 (h.0, tt));
    clears = λ s h. (tt, h.1);
  }

  IsCited-Ignores : Ignores env IsCited
  IsCited-Ignores s queue waiting stop done depth mark health h = h

  -- However the two threads interleave, and whatever the database refuses, every event that is
  -- held for analysis or was in an analysed batch has its id in the table.
  pub Run-IsCited : {s : Service Item} {n k : ℕ} → Run env s n k → IsCited s
  Run-IsCited (begins now) = (tt, tt)
  Run-IsCited (takes {s} raw now r stop waiting done) =
      produce-keeps env IsCited IsCited-Ignores raw now s (Run-IsCited r)
  Run-IsCited (waits {s} now later wall_clock r) =
      retry-keeps env IsCited IsCited-Ignores now later wall_clock s (Run-IsCited r)
  Run-IsCited (ends r idle) = Run-IsCited r
  Run-IsCited (consumes {s} r) = consume-keeps env IsCited IsCited-IsClosed s (Run-IsCited r)
  Run-IsCited (stops {s} r) = request_stop-keeps env IsCited IsCited-Ignores s (Run-IsCited r)
