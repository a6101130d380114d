-- ===== src/Failure/Grown.antt =====
-- What detection/system_failure.py leaves in the table of findings.
use linux_xai_security_assis.Base.{
  ℕ, sym, Bool, Bool-cases, inl, inr, Option, none, some, List, subst,
}
use linux_xai_security_assis.Chain.Writer.{IsHexDigest}
use linux_xai_security_assis.Findings.{Table, Stored}
use linux_xai_security_assis.Findings.Chained.{IsChained, AllChained, write-IsChained}
use linux_xai_security_assis.Findings.Extended.{
  Holds, Extends, Extends_refl, Extends_trans, AllExtend, write-Extends,
}
use linux_xai_security_assis.Failure.{Settings, Built, Formats, build_finding}
use linux_xai_security_assis.Failure.Acts.{World, Act, quiet, both, written, persist_maybe}
use linux_xai_security_assis.Failure.Batch.{Event, score_batch}
use linux_xai_security_assis.Failure.Closed.{IsClosed, score_batch_closed}

module _ (formats : Formats) (digest : IsHexDigest formats.sha256) (s : Settings)
    (persist : Bool) where
  abbrev IsSound : Table → Type 0
  IsSound = IsChained formats.sha256 digest formats.repr

  -- A row with the columns of a finding that the scorer built.
  abbrev pub IsBuilt : Stored → Type 0
  IsBuilt stored =
      (b : Built) × Holds formats.sha256 formats.repr (build_finding formats s b) stored

  abbrev Added : Table → Table → Type 0
  Added = Extends IsBuilt

  -- An act adds rows of findings that the scorer built to the table, and leaves its chain whole.
  pub record Grows (act : Act) : Type 0 where
    pub extends : (w : World) → Added w.table (act w).world.table
    pub sound : (w : World) → IsSound w.table → IsSound (act w).world.table

  quiet-Grows : Grows quiet
  quiet-Grows = record { extends = λ w. Extends_refl IsBuilt w.table; sound = λ w h. h }

  both-Grows : (first second : Act) → Grows first → Grows second → Grows (both first second)
  unfolding both
  both-Grows first second f g = record {
    extends = λ w. elim (Bool-cases (first w).raised) [
      | inl raised ↦ rw raised (f.extends w)
      | inr fine ↦ rw fine (Extends_trans IsBuilt (f.extends w) (g.extends (first w).world))
    ];
    sound = λ w h. elim (Bool-cases (first w).raised) [
      | inl raised ↦ rw raised (f.sound w h)
      | inr fine ↦ rw fine (g.sound (first w).world (f.sound w h))
    ];
  }

  written-Extends :
      (b : Built) (w : World) (o : Option (ℕ × Table))
      → AllExtend IsBuilt formats.sha256 formats.repr w.table o
      → Added w.table (written b w o).world.table
  written-Extends b w none h = Extends_refl IsBuilt w.table
  written-Extends b w (some stored) h = h

  written-IsSound :
      (b : Built) (w : World) (o : Option (ℕ × Table))
      → IsSound w.table
      → AllChained formats.sha256 digest formats.repr o
      → IsSound (written b w o).world.table
  written-IsSound b w none h all = h
  written-IsSound b w (some stored) h all = all

  persist_maybe-Grows : (b : Built) → Grows (persist_maybe formats s persist b)
  unfolding persist_maybe
  persist_maybe-Grows b = record {
    extends = λ w. elim (Bool-cases persist) [
      | inr dry ↦ rw dry (Extends_refl IsBuilt w.table)
      | inl real ↦ rw real (
          written-Extends b w _ (
            write-Extends IsBuilt formats.sha256 formats.repr (formats.refuses w.writes) w.table
              (build_finding formats s b) (λ stored h. (b, h))))
    ];
    sound = λ w h. elim (Bool-cases persist) [
      | inr dry ↦ rw dry h
      | inl real ↦ rw real (
          written-IsSound b w _ h (
            write-IsChained formats.sha256 digest formats.repr (formats.refuses w.writes) w.table
              (build_finding formats s b) h))
    ];
  }

  Grows-IsClosed : IsClosed formats s persist Grows
  Grows-IsClosed = record {
    nothing = quiet-Grows;
    sequence = both-Grows;
    writing = λ b risk. persist_maybe-Grows b;
    after = λ act change h same. record {
      extends = λ w.
          subst (λ t. Added t (act w (change w)).world.table) (same w) ((h w).extends (change w));
      sound = λ w k. (h w).sound (change w) (subst IsSound (sym (same w)) k);
    };
  }

  pub score_batch-Grows : (events : List Event) → Grows (score_batch formats s persist events)
  score_batch-Grows = score_batch_closed formats s persist Grows Grows-IsClosed
