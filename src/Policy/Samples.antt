-- ===== src/Policy/Samples.antt =====
-- Findings and policies for the theorems of the engine of policy/engine.py.
use linux_xai_security_assis.Base.{
  ◌≡◌, refl, Bool, true, false, Option, none, some, List, [], ◌∷◌, Text, codes, same_text,
}
use linux_xai_security_assis.Policy
use linux_xai_security_assis.Policy.{
  PolicyDecision, Number, ticks, ℤ, pos, Criteria, PolicyRule, Finding, EvidenceItem, items,
  other_signal, not_a_mapping, AssistantResponse, Recommendation, text, done, sorted, insert,
  key_leb, less, one, contains, is_substring, is_dangerous,
}
use linux_xai_security_assis.Policy.Evaluate.{
  Valid, Decision, limitations_of, select, evaluate, decide,
}
use linux_xai_security_assis.Policy.Selected.{core, evaluate-core}
use linux_xai_security_assis.Policy.Verdict.{Rests, evaluate-Rests}
use linux_xai_security_assis.Policy.Returns.{evaluate-returns}
use linux_xai_security_assis.Policy.Document.{Document, loaded, from_document}

abbrev same : Text → Text
same t = t

abbrev is_blank : Text → Bool
is_blank [] = true
is_blank (c ∷ t) = false

abbrev any_low : Criteria
any_low = record {
  severity = some (codes "LOW" ∷ []);
  min_risk_score = some (ticks 0);
  max_risk_score = none;
  detection_type = none;
  required_rule_ids = none;
  telemetry_complete = false;
}

abbrev log_low : PolicyRule
log_low = record {
  policy_id = codes "low_log";
  priority = pos 70;
  criteria = any_low;
  decision = Policy.log;
  required_approval = false;
  proposed_action = codes "retain";
  allowed_recommendation_keywords = codes "review" ∷ [];
}

abbrev review_low : PolicyRule
review_low = record log_low {
  policy_id = codes "low_review";
  priority = pos 10;
  decision = Policy.review_required;
}

abbrev policies : List PolicyRule
policies = review_low ∷ log_low ∷ []

abbrev finding : Finding
finding = record {
  id = some 7;
  risk_score = some (ticks 3);
  severity = some (codes "LOW");
  entity_type = some (codes "process");
  entity_key = some (codes "proc:1");
  evidence = some (items (other_signal ∷ []));
  detection_type = none;
}

abbrev valid : Valid
valid = record {
  id = 7;
  risk_score = ticks 3;
  severity = codes "LOW";
  detection_type = codes "process";
  evidence = other_signal ∷ [];
}

abbrev advice : Text → Option AssistantResponse
advice t = some (record { limitations = none; recommended_action = text t })

selected_low : select same same (sorted policies) valid (limitations_of none) ≡ done (some log_low)
unfolding select sorted limitations_of same_text
selected_low = refl

evaluate-core_example :
    core (evaluate same same policies true finding (advice (codes "kill it")) none)
    ≡ core (evaluate same same policies true finding none none)
evaluate-core_example =
    evaluate-core same same policies true finding (advice (codes "kill it")) none none

evaluate-returns_example :
    (d : Decision) × (evaluate same same policies true finding none none ≡ some d)
evaluate-returns_example =
    evaluate-returns same same policies true finding none none (tt, tt) tt
      ((tt, tt), ((tt, tt), tt))

-- A risk score beyond all doubles: nothing is decided.
overflow_escapes :
    evaluate same same policies true (record finding { risk_score = some Policy.beyond }) none none
    ≡ none
unfolding evaluate
overflow_escapes = refl

abbrev logged : Decision
logged = decide same same (some log_low) valid (limitations_of none) none false

logged_is : evaluate same same (sorted policies) false finding none none ≡ some logged
unfolding evaluate sorted same_text one
logged_is = refl

evaluate-Rests_example : Rests same same (sorted policies) finding none false logged
evaluate-Rests_example =
    evaluate-Rests same same (sorted policies) finding none false none logged logged_is

-- A recommendation that would execute something: the same policy asks for a review instead.
rejected_is_reviewed :
    (d : Decision) × (evaluate same same
        (sorted policies)
        false
        finding
        (advice (codes "kill it"))
        none
      ≡ some d)
    × (d.decision ≡ Policy.review_required)
unfolding evaluate sorted same_text one
rejected_is_reviewed = (
  decide same same (some log_low) valid (limitations_of none) (advice (codes "kill it")) false,
  refl,
  refl,
)

-- An evidence item that is not a mapping: the exception is not one of those that are caught.
text_evidence_escapes :
    evaluate same same
      (sorted policies)
      true
      (record finding { evidence = some (items (not_a_mapping ∷ [])) })
      none
      none
    ≡ none
unfolding evaluate sorted same_text one
text_evidence_escapes = refl

abbrev document : Document
document = record {
  is_version_1 = true;
  policies = some (
      some (record {
        policy_id = some (codes "p");
        criteria = some (record {
          has_unknown_keys = false;
          severity = none;
          detection_type = none;
          required_rule_ids = none;
          min_risk_score = none;
          max_risk_score = none;
          telemetry_complete = false;
        });
        decision = some Policy.allow;
        required_approval = some false;
        proposed_action = some (codes "none");
        keywords = none;
        priority = none;
      })
      ∷ []);
}

abbrev only_policy : PolicyRule
only_policy = record {
  policy_id = codes "p";
  priority = pos 0;
  criteria = record any_low { severity = none; min_risk_score = none };
  decision = Policy.allow;
  required_approval = false;
  proposed_action = codes "none";
  allowed_recommendation_keywords = [];
}

document_loads : from_document same is_blank document ≡ loaded (only_policy ∷ [])
unfolding from_document is_dangerous sorted
document_loads = refl
