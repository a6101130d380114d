-- ===== src/Ingestion/Analysis/Verified.antt =====
-- What `process` of pipeline/live_ingestion.py leaves in the two chained tables that it writes.
use mathlib.Core.List.{append-nil, Memᴰ}
use linux_xai_security_assis.Base.{
  ℕ, ◌+◌, All, ◌≤◌, ◌≡◌, ◌⊎◌, refl, sym, ◌∙◌, inl, inr, Bool, true, false, Bool-cases, Option-cases,
  Option, List, [], ◌∷◌, ◌++◌, map, length, arith, Text,
}
use linux_xai_security_assis.Chain.Columns.{finding_chain_columns, policy_chain_columns}
use linux_xai_security_assis.Chain.{Row, verify_chain}
use linux_xai_security_assis.Chain.Linked.{verify_chain_iff}
use linux_xai_security_assis.Chain.Writer.{IsHexDigest}
use linux_xai_security_assis.Policy
use linux_xai_security_assis.Policy.{Number, PolicyRule, AssistantResponse}
use linux_xai_security_assis.Policy.Trail.{evaluate_all}
use linux_xai_security_assis.Policy.Trail.Recorded.{evaluate_all-IsTrail}
use linux_xai_security_assis.Findings.{Table, Stored, persist}
use linux_xai_security_assis.Findings.Chained.{rows_of, IsChained, persist-IsChained}
use linux_xai_security_assis.Findings.Extended.{
  Holds, Covers, Extends, Extends_refl, Extends_trans, persist-Extends,
}
use linux_xai_security_assis.Failure.{Settings, Formats}
use linux_xai_security_assis.Failure.Acts.{World}
use linux_xai_security_assis.Failure.Batch.{Event, score_batch}
use linux_xai_security_assis.Failure.Grown.{IsBuilt, score_batch-Grows}
use linux_xai_security_assis.Ingestion.Analysis.Counted.{
  length-map, length-with_ids, persist-ids, trail_ends,
}
use linux_xai_security_assis.Ingestion.Analysis.{
  Draft, with_ids, Analysed, writing, decide_all, persist_all, detect_all, after_scoring, process,
  drafts_of,
}

module _ {R : Type 0} (formats : Formats) (fixed_4 : Number → Text)
    (float_error : Policy.Finding → Text) (settings : Settings) (upper lower : Text → Text)
    (now : ℕ → Number) (refuses : ℕ → Bool) (policies : List PolicyRule) (dry : Bool)
    (monitor : List Event → Option (List R)) (detected : List R → List Event → Option (List Draft))
    (respond : List Policy.Finding → Option (Option ℕ → Option AssistantResponse))
    (digest : IsHexDigest formats.sha256) where
  -- A row with the columns of a draft.
  abbrev pub IsDraft : List Draft → Stored → Type 0
  IsDraft drafts stored =
      (d : Draft) × Memᴰ d drafts × Holds formats.sha256 formats.repr d.stored stored

  own_rows :
      (drafts rest : List Draft)
      → ((d : Draft) → Memᴰ d rest → Memᴰ d drafts)
      → All
          (Covers (IsDraft drafts) formats.sha256 formats.repr)
          (map (λ (d : Draft). d.stored) rest)
  own_rows drafts [] inside = tt
  own_rows drafts (d ∷ rest) inside = (
    λ stored h. (d, inside d (Memᴰ.head refl), h),
    own_rows drafts rest (λ e m. inside e (Memᴰ.tail m)),
  )

  -- The findings are those of the table before and then rows of drafts, the decisions those before
  -- and then one for each finding that was decided: for every draft, unless an exception left the
  -- pipeline. Both chains verify.
  pub record IsAnalysed (drafts : List Draft) (before : Table) (table : List Row) (o : Analysed)
      : Type 0 where
    pub extended : Extends (IsDraft drafts) before o.world.table
    pub rows : List Row
    pub appended : o.decisions ≡ table ++ rows
    pub at_most : length rows ≤ length drafts
    pub complete : (o.raised ≡ true) ⊎ (length rows ≡ length drafts)
    pub findings_verify :
        (verify_chain formats.sha256 finding_chain_columns (rows_of o.world.table)).ok ≡ true
    pub decisions_verify : (verify_chain formats.sha256 policy_chain_columns o.decisions).ok ≡ true

  abbrev IsSound : Table → Type 0
  IsSound = IsChained formats.sha256 digest formats.repr

  abbrev Verifies : List Row → Type 0
  Verifies rows = (verify_chain formats.sha256 policy_chain_columns rows).ok ≡ true

  -- No decision, after an exception or where none is due.
  undecided :
      (drafts : List Draft) (before : Table) (table : List Row) (raised : Bool) (w : World)
      → Extends (IsDraft drafts) before w.table
      → IsSound w.table
      → Verifies table
      → (raised ≡ true) ⊎ (length drafts ≡ 0)
      → IsAnalysed drafts before table (record { raised = raised; world = w; decisions = table })
  undecided drafts before table raised w extends sound ok why = record {
    extended = extends;
    rows = [];
    appended = sym (append-nil table);
    at_most = omega arith;
    complete = elim why [ inl e ↦ inl e | inr none_due ↦ inr (sym none_due) ];
    findings_verify =
        (verify_chain_iff formats.sha256 finding_chain_columns (rows_of w.table)).1 sound;
    decisions_verify = ok;
  }

  decide_all-IsAnalysed :
      (drafts : List Draft) (findings : List Policy.Finding) (before : Table) (table : List Row)
      (w : World)
      → length findings ≡ length drafts
      → Extends (IsDraft drafts) before w.table
      → IsSound w.table
      → Verifies table
      → IsAnalysed drafts before table (
          decide_all formats fixed_4 float_error settings upper lower now refuses policies dry
            monitor detected respond findings w table)
  unfolding decide_all
  decide_all-IsAnalysed drafts findings before table w each extends sound ok =
      elim (Option-cases (respond findings)) [
        | inl raises ↦
            rw (raises, decide_all)
              (undecided drafts before table true w extends sound ok (inl refl))
        | inr (responses, given) ↦
            let wr =
              writing formats fixed_4 float_error settings upper lower now refuses policies dry
                monitor detected respond in
            let o =
              evaluate_all wr upper lower now refuses policies dry responses 0 findings table in
            let (trail, verified) =
              evaluate_all-IsTrail wr upper lower now refuses policies dry responses digest findings
                table ok in
            let (most, ends) =
              trail_ends wr upper lower now refuses policies dry responses findings table o trail in
            rw (given, decide_all)
              (record {
                extended = extends;
                rows = trail.rows;
                appended = trail.appended;
                at_most = omega (arith, most, each);
                complete = elim ends [ inl raised ↦ inl raised | inr all ↦ inr (all ∙ each) ];
                findings_verify =
                    (verify_chain_iff formats.sha256 finding_chain_columns (rows_of w.table)).1
                      sound;
                decisions_verify = verified;
              })
      ]

  persist_all-IsAnalysed :
      (drafts : List Draft) (before : Table) (table : List Row) (w : World)
      → Extends (IsDraft drafts) before w.table
      → IsSound w.table
      → Verifies table
      → IsAnalysed drafts before table (
          persist_all formats fixed_4 float_error settings upper lower now refuses policies dry
            monitor detected respond drafts w table)
  unfolding persist_all
  persist_all-IsAnalysed drafts before table w extends sound ok =
      let findings = map (λ (d : Draft). d.stored) drafts in
      let refused = λ (n : ℕ). formats.refuses (w.writes + n) in
      let r = persist formats.sha256 formats.repr refused findings w.table in
      let w' : World = record w { table = r.table; writes = w.writes + length drafts } in
      let extends' : Extends (IsDraft drafts) before r.table =
        Extends_trans (IsDraft drafts) extends (
          persist-Extends (IsDraft drafts) formats.sha256 formats.repr refused findings w.table
            (own_rows drafts drafts (λ d m. m))) in
      let sound' =
        persist-IsChained formats.sha256 digest formats.repr refused findings w.table sound in
      elim (Bool-cases r.raised) [
        | inl raised ↦
            rw raised (undecided drafts before table true w' extends' sound' ok (inl refl))
        | inr fine ↦
            let ids = persist-ids formats.sha256 formats.repr refused findings w.table fine in
            let each =
              length-with_ids r.ids drafts (ids ∙ length-map (λ (d : Draft). d.stored) drafts) in
            rw fine (
              decide_all-IsAnalysed drafts (with_ids r.ids drafts) before table w' each extends'
                sound' ok)
      ]

  -- `process` once the batch is scored.
  after_scoring-IsAnalysed :
      (event : Event) (events : List Event) (table : List Row) (w : World)
      → IsSound w.table
      → Verifies table
      → IsAnalysed
          (drafts_of formats fixed_4 float_error settings upper lower now refuses policies dry
            monitor detected respond
            (event ∷ events))
          w.table
          table
          (after_scoring formats fixed_4 float_error settings upper lower now refuses policies dry
            monitor detected respond
            (event ∷ events)
            w
            table)
  unfolding after_scoring detect_all
  after_scoring-IsAnalysed event events table w sound ok =
      elim (Option-cases (monitor (event ∷ events))) [
        | inl raises ↦
            rw (raises, after_scoring, drafts_of)
              (undecided [] w.table table true w (Extends_refl (IsDraft []) w.table) sound ok
                (inl refl))
        | inr ([], quiet) ↦
            rw (quiet, after_scoring, drafts_of)
              (undecided [] w.table table false w (Extends_refl (IsDraft []) w.table) sound ok
                (inr refl))
        | inr (risk ∷ risks, found) ↦
            elim (Option-cases (detected (risk ∷ risks) (event ∷ events))) [
              | inl raises ↦
                  rw (found, after_scoring, drafts_of)
                    (rw (raises, detect_all, drafts_of)
                      (undecided [] w.table table true w (Extends_refl (IsDraft []) w.table) sound
                        ok (inl refl)))
              | inr (drafts, made) ↦
                  rw (found, after_scoring, drafts_of)
                    (rw (made, detect_all, drafts_of)
                      (persist_all-IsAnalysed drafts w.table table w
                        (Extends_refl (IsDraft drafts) w.table) sound ok))
            ]
      ]

  -- The table once the system failures of the batch are scored, which comes first.
  abbrev pub scored : List Event → World → Table
  scored events w = (score_batch formats settings true events w).world.table

  scored_nothing : (w : World) → scored [] w ≡ w.table
  unfolding score_batch
  scored_nothing w = refl

  -- With a digest function of the form of SHA-256, and chains of findings and of decisions that
  -- verify: whatever the batch, whichever stage raises and whichever writes SQLite refuses, both
  -- chains verify after it. Scoring the system failures, which comes first, only appends rows to the
  -- table of findings, each with the columns of a finding that the scorer built; what follows only
  -- appends rows with the columns of findings of the detector. The table of decisions grows by at
  -- most one row for each finding detected, and by one for each unless an exception left the
  -- pipeline.
  pub process-IsAnalysed :
      (events : List Event) (w : World) (table : List Row)
      → (verify_chain formats.sha256 finding_chain_columns (rows_of w.table)).ok ≡ true
      → (verify_chain formats.sha256 policy_chain_columns table).ok ≡ true
      → Extends (IsBuilt formats digest settings true) w.table (scored events w)
        × IsAnalysed
            (drafts_of formats fixed_4 float_error settings upper lower now refuses policies dry
              monitor detected respond events)
            (scored events w)
            table
            (process formats fixed_4 float_error settings upper lower now refuses policies dry
              monitor detected respond events w table)
  unfolding process
  process-IsAnalysed [] w table found decided =
      let sound =
        (verify_chain_iff formats.sha256 finding_chain_columns (rows_of w.table)).0 found in
      rw (scored_nothing w) (
        Extends_refl (IsBuilt formats digest settings true) w.table,
        undecided [] w.table table false w (Extends_refl (IsDraft []) w.table) sound decided
            (inr refl),
      )
  process-IsAnalysed (event ∷ events) w table found decided =
      let sound =
        (verify_chain_iff formats.sha256 finding_chain_columns (rows_of w.table)).0 found in
      let r = score_batch formats settings true (event ∷ events) w in
      let grows = score_batch-Grows formats digest settings true (event ∷ events) in
      let sound' = grows.sound w sound in
      (
        grows.extends w,
        elim (Bool-cases r.raised) [
          | inl raised ↦ rw raised (
              undecided _ r.world.table table true r.world (Extends_refl (IsDraft _) r.world.table)
                sound' decided (inl refl))
          | inr fine ↦ rw fine (after_scoring-IsAnalysed event events table r.world sound' decided)
        ],
      )
