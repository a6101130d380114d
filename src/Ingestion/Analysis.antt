-- ===== src/Ingestion/Analysis.antt =====
-- `DatabaseAnalysisPipeline.process` of pipeline/live_ingestion.py: system failures are scored, then
-- the detector's findings are persisted and decided. What the analyzer, the detector's scores, the
-- explainer and the assistant come to are parameters, each of which may raise; the last two write
-- tables of their own. SQLite refuses the findings that `Formats` says, and the decisions that
-- `refuses` says.
pub mod Counted
pub mod Verified
mod Samples
use linux_xai_security_assis.Base.{
  ℕ, Bool, true, false, Option, none, some, List, [], ◌∷◌, ◌+◌, length, map, Text, if◌then◌else◌,
}
use linux_xai_security_assis.Chain.{Row}
use linux_xai_security_assis.Policy.{Number, PolicyRule, AssistantResponse}
use linux_xai_security_assis.Policy
use linux_xai_security_assis.Policy.Trail.{Writing, Outcome, evaluate_all}
use linux_xai_security_assis.Findings.{Table, Persisted, persist}
use linux_xai_security_assis.Findings
use linux_xai_security_assis.Failure.{Settings, Formats}
use linux_xai_security_assis.Failure.Acts.{World, Scored}
use linux_xai_security_assis.Failure.Batch.{Event, score_batch}

-- A finding of the detector: the mapping that the store writes, and what the policy engine reads
-- of it once its key is there.
pub record Draft : Type 0 where
  pub stored : Findings.Finding
  pub described : ℕ → Policy.Finding

-- `finding["id"] = …`
abbrev pub with_ids : List ℕ → List Draft → List Policy.Finding
with_ids [] drafts = []
with_ids (id ∷ ids) [] = []
with_ids (id ∷ ids) (draft ∷ drafts) = draft.described id ∷ with_ids ids drafts

-- What a batch leaves: whether an exception left `process`, what the scorer keeps with the table of
-- findings, and the table of decisions.
pub record Analysed : Type 0 where
  pub raised : Bool
  pub world : World
  pub decisions : List Row

abbrev pub has_raised : Option (List Policy.Evaluate.Decision) → Bool
has_raised none = true
has_raised (some decisions) = false

module _ {R : Type 0} (formats : Formats) (fixed_4 : Number → Text)
    (float_error : Policy.Finding → Text) (settings : Settings) (upper lower : Text → Text)
    (now : ℕ → Number) (refuses : ℕ → Bool) (policies : List PolicyRule) (dry : Bool)
    (monitor : List Event → Option (List R)) (detected : List R → List Event → Option (List Draft))
    (respond : List Policy.Finding → Option (Option ℕ → Option AssistantResponse)) where
  abbrev pub writing : Writing
  writing = record {
    sha256 = formats.sha256;
    repr = formats.repr;
    fixed_4 = fixed_4;
    float_error = float_error;
  }

  -- The assistant's responses, and the decisions.
  unfoldable pub decide_all : List Policy.Finding → World → List Row → Analysed
  unfolding evaluate_all
  decide_all findings w table = elim (respond findings) [
    | none ↦ record { raised = true; world = w; decisions = table }
    | some responses ↦
        let o =
          evaluate_all writing upper lower now refuses policies dry responses 0 findings table in
        record { raised = has_raised o.returned; world = w; decisions = o.table }
  ]

  -- The loop of `detect` that persists, and what comes after it.
  unfoldable pub persist_all : List Draft → World → List Row → Analysed
  unfolding persist decide_all
  persist_all drafts w table =
      let refused = λ (n : ℕ). formats.refuses (w.writes + n) in
      let findings = map (λ (d : Draft). d.stored) drafts in
      let r = persist formats.sha256 formats.repr refused findings w.table in
      let w' : World = record w { table = r.table; writes = w.writes + length drafts } in
      if r.raised
      then record { raised = true; world = w'; decisions = table }
      else decide_all (with_ids r.ids drafts) w' table

  unfoldable pub detect_all : List R → List Event → World → List Row → Analysed
  unfolding persist_all
  detect_all risks events w table = elim (detected risks events) [
    | none ↦ record { raised = true; world = w; decisions = table }
    | some drafts ↦ persist_all drafts w table
  ]

  -- The early return where there is no risk.
  unfoldable pub after_scoring : List Event → World → List Row → Analysed
  unfolding detect_all
  after_scoring events w table = elim (monitor events) [
    | none ↦ record { raised = true; world = w; decisions = table }
    | some [] ↦ record { raised = false; world = w; decisions = table }
    | some (risk ∷ risks) ↦ detect_all (risk ∷ risks) events w table
  ]

  unfoldable pub process : List Event → World → List Row → Analysed
  unfolding score_batch after_scoring
  process [] w table = record { raised = false; world = w; decisions = table }
  process (event ∷ events) w table =
      let r = score_batch formats settings true (event ∷ events) w in
      if r.raised
      then record { raised = true; world = r.world; decisions = table }
      else after_scoring (event ∷ events) r.world table

  -- The findings that a batch is to have.
  abbrev pub drafts_of : List Event → List Draft
  drafts_of [] = []
  drafts_of (event ∷ events) = elim (monitor (event ∷ events)) [
    | none ↦ []
    | some [] ↦ []
    | some (risk ∷ risks) ↦ elim (detected (risk ∷ risks) (event ∷ events)) [
      | none ↦ []
      | some drafts ↦ drafts
    ]
  ]
