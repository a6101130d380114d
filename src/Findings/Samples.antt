-- ===== src/Findings/Samples.antt =====
-- Findings of storage/sqlite_store.py written twice, and the theorems there.
use linux_xai_security_assis.Base.{
  ℕ, Bool, ◌==◌, ◌≡◌, refl, true, false, none, some, List, [], ◌∷◌, Text, codes, All,
}
use linux_xai_security_assis.Chain.Toy.{toy_sha256}
use linux_xai_security_assis.Policy.{Number, nan, ticks, one}
use linux_xai_security_assis.Findings.{
  Finding, Table, persist, write_detection_finding, insert, find_hash, scores_in_range,
}
use linux_xai_security_assis.Findings.Again.{HasHash, persist-again}

abbrev repr : Number → Text
repr n = codes "0.0"

abbrev finding : Text → Number → Finding
finding hash score = record {
  source_risk_id = some 1;
  window_start = ticks 0;
  window_end = ticks 60;
  entity_type = codes "uid";
  entity_key = codes "0";
  risk_score = score;
  severity = codes "LOW";
  behavior_score = ticks 0;
  rule_score = ticks 0;
  context_score = ticks 0;
  evidence_json = codes "[]";
  explanation = codes "";
  mode = codes "detection";
  provenance_hash = some hash;
  detector_version = some (codes "detector.v1");
  correlation_id = none;
  suppressed = false;
  suppression_reason = none;
  created_at = none;
}

abbrev batch : List Finding
batch =
    finding (codes "aa") (ticks 0)
    ∷ finding (codes "bb") (ticks 0)
    ∷ finding (codes "aa") (ticks 0)
    ∷ []

abbrev takes_all : ℕ → Bool
takes_all n = false

abbrev empty : Table
empty = record { findings = []; next_id = 1 }

keys_run : (persist toy_sha256 repr takes_all batch empty).ids ≡ 1 ∷ 2 ∷ 1 ∷ []
unfolding persist write_detection_finding insert find_hash scores_in_range one
keys_run = refl

raising_run :
    (persist toy_sha256 repr takes_all (finding (codes "aa") nan ∷ batch) empty).raised ≡ true
unfolding persist write_detection_finding insert find_hash scores_in_range
raising_run = refl

batch-HasHash : All HasHash batch
batch-HasHash =
    (((λ e. cc e), λ e. cc e), (((λ e. cc e), λ e. cc e), (((λ e. cc e), λ e. cc e), tt)))

-- SQLite refuses the second write, and the retry writes it.
abbrev refuses_second : ℕ → Bool
refuses_second n = n == 1

refused_run : (persist toy_sha256 repr refuses_second batch empty).ids ≡ 1 ∷ []
unfolding persist write_detection_finding insert find_hash scores_in_range one
refused_run = refl

persist-again_example :
    persist toy_sha256 repr takes_all batch
      (persist toy_sha256 repr refuses_second batch empty).table
    ≡ persist toy_sha256 repr takes_all batch empty
persist-again_example = persist-again toy_sha256 repr refuses_second batch empty batch-HasHash
