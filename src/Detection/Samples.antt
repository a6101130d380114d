-- ===== src/Detection/Samples.antt =====
-- A batch of detection/detector.py under two suppressions.
use linux_xai_security_assis.Base.{
  ℕ, ◌≡◌, refl, true, false, Option, none, some, List, [], ◌∷◌, Text, codes, same_text, decimal,
  sort_by, sort_by, All,
}
use linux_xai_security_assis.Detection.{
  rule_fusion, other_signal, Finding, Given, mapping, valid, invalid, no_reason,
  validate_suppressions, suppress, apply_suppressions,
}
use linux_xai_security_assis.Chain.Toy.{toy_sha256}
use linux_xai_security_assis.Detection.Correlation.{placed, find_anchor, assign_correlation}
use linux_xai_security_assis.Detection.Assigned.{IsCorrelated, assign_correlation-IsCorrelated}
use linux_xai_security_assis.Detection.Suppressed.{
  IsAuditable, Each, IsDisposed, apply_suppressions-IsDisposed,
}

abbrev strip : Text → Text
strip t = t

abbrev finding : Text → Text → Finding ℕ
finding kind key = record {
  entity_type = kind;
  entity_key = key;
  window_start = 0;
  window_end = 60;
  evidence =
      other_signal
      ∷ rule_fusion (
          record { rule_id = codes "r1"; matched = false }
          ∷ record { rule_id = codes "r2"; matched = true }
          ∷ [])
      ∷ [];
  rest = 7;
  correlation_id = none;
  suppressed = false;
  suppression_reason = none;
}

abbrev findings : List (Finding ℕ)
findings = finding (codes "uid") (codes "1000") ∷ finding (codes "command") (codes "cron") ∷ []

abbrev cron : Given
cron = record {
  entity_type = some (codes "command");
  entity_key = some (codes "cron");
  matched_rule = some (codes "r2");
  reason = codes "nightly";
}

abbrev specs : List Given
specs = cron ∷ record cron { reason = codes "later" } ∷ []

accepted :
    validate_suppressions strip
      (mapping cron ∷ mapping (record cron { reason = codes "later" }) ∷ [])
    ≡ valid specs
unfolding validate_suppressions
accepted = refl

refuses_no_reason :
    validate_suppressions strip (mapping (record cron { reason = [] }) ∷ []) ≡ invalid no_reason
unfolding validate_suppressions
refuses_no_reason = refl

abbrev reasons : List (Finding ℕ) → List (Option Text)
reasons [] = []
reasons (f ∷ fs) = f.suppression_reason ∷ reasons fs

first_reason_counts :
    reasons (apply_suppressions specs findings) ≡ none ∷ some (codes "nightly") ∷ []
unfolding apply_suppressions suppress same_text
first_reason_counts = refl

apply_suppressions-IsDisposed_example :
    All IsAuditable specs × Each (IsDisposed specs) findings (apply_suppressions specs findings)
apply_suppressions-IsDisposed_example =
    apply_suppressions-IsDisposed strip
      (mapping cron ∷ mapping (record cron { reason = codes "later" }) ∷ []) specs findings accepted

-- Three windows of one entity, out of order: the first two touch, and the third stands apart.
abbrev windows : List (Finding ℕ)
windows =
    record (finding (codes "uid") (codes "0")) { window_start = 60; window_end = 120 }
    ∷ record (finding (codes "uid") (codes "0")) { window_start = 121; window_end = 180 }
    ∷ finding (codes "uid") (codes "0")
    ∷ []

abbrev anchors : List (ℕ × Finding ℕ) → List (ℕ × Finding ℕ) → List (Option ℕ)
anchors all [] = []
anchors all (p ∷ rest) = find_anchor all p ∷ anchors all rest

anchors_run : anchors (placed 0 windows) (placed 0 windows) ≡ some 0 ∷ some 121 ∷ some 0 ∷ []
unfolding find_anchor placed same_text sort_by
anchors_run = refl

assign_correlation-IsCorrelated_example :
    Each
      (IsCorrelated toy_sha256 decimal windows)
      windows
      (assign_correlation toy_sha256 decimal windows)
assign_correlation-IsCorrelated_example = assign_correlation-IsCorrelated toy_sha256 decimal windows
