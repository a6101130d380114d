-- ===== src/Ingestion/Analysis/Samples.antt =====
-- A batch through `process` of pipeline/live_ingestion.py, and its theorem there.
use linux_xai_security_assis.Base.{
  ℕ, ◌≡◌, refl, Bool, true, false, Option, none, some, List, [], ◌∷◌, Text, codes, length,
  same_text,
}
use linux_xai_security_assis.Chain.Json.{dumps_object}
use linux_xai_security_assis.Chain.Columns.{finding_chain_columns, policy_chain_columns}
use linux_xai_security_assis.Chain.{verify_chain}
use linux_xai_security_assis.Chain.Toy.{toy_sha256, toy-IsHexDigest}
use linux_xai_security_assis.Chain.Linked.{verify_chain_iff}
use linux_xai_security_assis.Policy
use linux_xai_security_assis.Policy.{Number, ticks, one, items, other_signal, AssistantResponse}
use linux_xai_security_assis.Findings.{insert, write_detection_finding, scores_in_range}
use linux_xai_security_assis.Findings.Chained.{rows_of}
use linux_xai_security_assis.Findings.Extended.{Extends}
use linux_xai_security_assis.Failure.{build_finding, severity_of, severe, risk_high}
use linux_xai_security_assis.Failure.Toy.{settings, formats, fresh, unit_failed_at}
use linux_xai_security_assis.Failure.Grown.{IsBuilt}
use linux_xai_security_assis.Failure.Host.{score_health}
use linux_xai_security_assis.Failure.Service.{score_service}
use linux_xai_security_assis.Failure.Batch.{Event, score_window, score_batch}
use linux_xai_security_assis.Ingestion.Analysis.{Draft, Analysed, process, drafts_of}
use linux_xai_security_assis.Ingestion.Analysis.Verified.{IsAnalysed, scored, process-IsAnalysed}

abbrev zero_text : Number → Text
zero_text n = codes "0.0"

abbrev float_error : Policy.Finding → Text
float_error f = codes "TypeError"

abbrev same : Text → Text
same t = t

abbrev accepts : ℕ → Bool
accepts n = false

-- One risk, of which the detector makes one finding.
abbrev monitor : List Event → Option (List ℕ)
monitor events = some (7 ∷ [])

abbrev draft : Draft
draft = record {
  stored = record {
    source_risk_id = some 7;
    window_start = ticks 0;
    window_end = ticks 60;
    entity_type = codes "uid";
    entity_key = codes "0";
    risk_score = ticks 0;
    severity = codes "LOW";
    behavior_score = ticks 0;
    rule_score = ticks 0;
    context_score = ticks 0;
    evidence_json = codes "[]";
    explanation = codes "";
    mode = codes "detection";
    provenance_hash = some (codes "aa");
    detector_version = some (codes "detector.v1");
    correlation_id = none;
    suppressed = false;
    suppression_reason = none;
    created_at = none;
  };
  described = λ id. record {
    id = some id;
    risk_score = some (ticks 0);
    severity = some (codes "LOW");
    entity_type = some (codes "uid");
    entity_key = some (codes "0");
    evidence = some (items (other_signal ∷ []));
    detection_type = none;
  };
}

abbrev detected : List ℕ → List Event → Option (List Draft)
detected risks events = some (draft ∷ [])

abbrev respond : List Policy.Finding → Option (Option ℕ → Option AssistantResponse)
respond findings = some (λ id. none)

abbrev silent : List Policy.Finding → Option (Option ℕ → Option AssistantResponse)
silent findings = none

abbrev batch : List Event
batch = unit_failed_at 20 ∷ []

abbrev run :
    (List Policy.Finding → Option (Option ℕ → Option AssistantResponse)) → List Event → Analysed
run respond events =
    process formats zero_text float_error settings same same ticks accepts [] true monitor detected
      respond events fresh []

-- A unit that failed and a risk: two findings, and a decision about the second.
batch_runs :
    let o = run respond batch in
    (length o.world.table.findings ≡ 2) × (length o.decisions ≡ 1) × (o.raised ≡ false)
unfolding process score_batch one score_window score_health score_service same_text toy_sha256
    insert write_detection_finding scores_in_range dumps_object severity_of severe build_finding
    risk_high
batch_runs = (refl, refl, refl)

-- The assistant raises: both findings stay.
silent_runs :
    let o = run silent batch in
    (length o.world.table.findings ≡ 2) × (length o.decisions ≡ 0) × (o.raised ≡ true)
unfolding process score_batch one score_window score_health score_service same_text toy_sha256
    insert write_detection_finding scores_in_range dumps_object severity_of severe build_finding
    risk_high
silent_runs = (refl, refl, refl)

no_findings : (verify_chain toy_sha256 finding_chain_columns (rows_of fresh.table)).ok ≡ true
no_findings = (verify_chain_iff toy_sha256 finding_chain_columns []).1 tt

no_decisions : (verify_chain toy_sha256 policy_chain_columns []).ok ≡ true
no_decisions = (verify_chain_iff toy_sha256 policy_chain_columns []).1 tt

process-IsAnalysed_example :
    Extends (IsBuilt formats toy-IsHexDigest settings true) fresh.table (
      scored formats zero_text float_error settings same same ticks accepts [] true monitor detected
        respond toy-IsHexDigest batch fresh)
    × IsAnalysed formats zero_text float_error settings same same ticks accepts [] true monitor
        detected respond toy-IsHexDigest
        (drafts_of formats zero_text float_error settings same same ticks accepts [] true monitor
          detected respond batch)
        (scored formats zero_text float_error settings same same ticks accepts [] true monitor
          detected respond toy-IsHexDigest batch fresh)
        []
        (run respond batch)
process-IsAnalysed_example =
    process-IsAnalysed formats zero_text float_error settings same same ticks accepts [] true
      monitor detected respond toy-IsHexDigest batch fresh [] no_findings no_decisions
