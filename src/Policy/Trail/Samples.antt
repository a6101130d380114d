-- ===== src/Policy/Trail/Samples.antt =====
-- Batches for the theorem of `evaluate_all` of policy/engine.py.
use linux_xai_security_assis.Base.{
  ℕ, ◌≡◌, refl, Bool, true, false, Option, none, some, List, [], ◌∷◌, Text, codes, length, ltb,
  same_text, decimal,
}
use linux_xai_security_assis.Chain.Toy.{toy_sha256, toy-IsHexDigest}
use linux_xai_security_assis.Chain.Columns.{policy_chain_columns}
use linux_xai_security_assis.Chain.{verify_chain}
use linux_xai_security_assis.Chain.Linked.{verify_chain_iff}
use linux_xai_security_assis.Policy
use linux_xai_security_assis.Policy.{
  PolicyRule, pos, Number, ticks, Finding, EvidenceItem, items, other_signal, not_a_mapping,
  AssistantResponse, one,
}
use linux_xai_security_assis.Policy.Trail.{Writing, Outcome, evaluate_all}
use linux_xai_security_assis.Policy.Trail.Recorded.{IsTrail, evaluate_all-IsTrail}

abbrev same : Text → Text
same t = t

abbrev tick_text : Number → Text
tick_text (ticks n) = decimal n
tick_text n = codes "NaN"

abbrev writing : Writing
writing = record {
  sha256 = toy_sha256;
  repr = tick_text;
  fixed_4 = tick_text;
  float_error = λ f. codes "TypeError";
}

abbrev no_response : Option ℕ → Option AssistantResponse
no_response id = none

abbrev about : ℕ → List EvidenceItem → Finding
about id evidence = record {
  id = some id;
  risk_score = some (ticks 3);
  severity = some (codes "low");
  entity_type = some (codes "process");
  entity_key = some (codes "proc:1");
  evidence = some (items evidence);
  detection_type = none;
}

-- A finding that no policy matches, a malformed one, one whose evidence is no mapping, and one more.
abbrev batch : List Finding
batch =
    about 1 (other_signal ∷ [])
    ∷ record (about 2 []) { severity = none }
    ∷ about 3 (not_a_mapping ∷ [])
    ∷ about 4 (other_signal ∷ [])
    ∷ []

-- A policy that every finding meets.
abbrev log_all : PolicyRule
log_all = record {
  policy_id = codes "log_all";
  priority = pos 0;
  criteria = record {
    severity = none;
    min_risk_score = none;
    max_risk_score = none;
    detection_type = none;
    required_rule_ids = none;
    telemetry_complete = false;
  };
  decision = Policy.log;
  required_approval = false;
  proposed_action = codes "retain";
  allowed_recommendation_keywords = [];
}

abbrev run : List PolicyRule → (ℕ → Bool) → List Finding → Outcome
run policies refuses findings =
    evaluate_all writing same same ticks refuses policies true no_response 0 findings []

-- With no policy every finding is decided, by a review.
all_decided : length (run [] (λ n. false) batch).table ≡ 4
unfolding evaluate_all toy_sha256 one same_text
all_decided = refl

-- SQLite refuses the second write: the row before it stays, and nothing is returned.
refused_midway :
    let o = run (log_all ∷ []) (λ n. ltb 0 n) batch in (length o.table ≡ 1) × (o.returned ≡ none)
unfolding evaluate_all toy_sha256 one same_text
refused_midway = (refl, refl)

-- A policy reads the evidence of the third finding, which raises: the fourth is never looked at.
raised_midway :
    let o = run (log_all ∷ []) (λ n. false) batch in (length o.table ≡ 2) × (o.returned ≡ none)
unfolding evaluate_all toy_sha256 one same_text
raised_midway = (refl, refl)

empty_verifies : (verify_chain toy_sha256 policy_chain_columns []).ok ≡ true
empty_verifies = (verify_chain_iff toy_sha256 policy_chain_columns []).1 tt

evaluate_all-IsTrail_example :
    let o = run (log_all ∷ []) (λ n. false) batch in
    IsTrail writing same same ticks (λ n. false) (log_all ∷ []) true no_response 0 batch [] o
    × ((verify_chain toy_sha256 policy_chain_columns o.table).ok ≡ true)
evaluate_all-IsTrail_example =
    evaluate_all-IsTrail writing same same ticks (λ n. false) (log_all ∷ []) true no_response
      toy-IsHexDigest batch [] empty_verifies
