-- ===== src/Policy/Evaluate.antt =====
-- `PolicyEngine.evaluate` of policy/engine.py and what it calls. `str.upper` and `str.lower` are
-- Python's own, over all of Unicode: parameters here.
use linux_xai_security_assis.Base.{
  ℕ, Bool, true, false, not, ◌&&◌, Option, none, some, List, [], ◌∷◌, ◌++◌, map, any, all,
  if◌then◌else◌, Text, codes,
}
use linux_xai_security_assis.Policy.{
  PolicyDecision, allow, log, review_required, dry_run, Number, unreadable, beyond, ticks, one,
  less, PolicyRule, RuleResult, rule_result, not_a_rule, EvidenceItem, rule_fusion, other_signal,
  not_a_mapping, Evidence, items, not_a_list, Finding, text, not_text, AssistantResponse, Error,
  missing_fields, bad_number, score_out_of_range, bad_evidence, rules_not_iterable, Attempt, done,
  fails, escapes, ◌>>=◌, contains, is_substring, is_dangerous,
}

-- A finding whose required keys are all there, with what the guards of `_validate_finding` found.
pub record Valid : Type 0 where
  pub id : ℕ
  pub risk_score : Number
  pub severity : Text
  pub detection_type : Text
  pub evidence : List EvidenceItem

abbrev pub require {ℓ} : {A : Type ℓ} → Option A → Attempt A
require none = fails missing_fields
require (some a) = done a

-- `float(value)`
abbrev pub float : Number → Attempt Number
float unreadable = fails bad_number
float beyond = escapes
float n = done n

-- `not 0.0 <= score <= 1.0`
unfoldable pub in_unit : Number → Bool
unfolding less
in_unit (ticks n) = not (less (ticks one) (ticks n))
in_unit n = false

unfoldable pub check_score : Number → Attempt Number
unfolding in_unit
check_score score = if in_unit score then done score else fails score_out_of_range

unfoldable pub check_evidence : Evidence → Attempt (List EvidenceItem)
check_evidence not_a_list = fails bad_evidence
check_evidence (items []) = fails bad_evidence
check_evidence (items (item ∷ more)) = done (item ∷ more)

-- `str(finding.get("detection_type", finding["entity_type"]))`
abbrev type_or : Option Text → Text → Text
type_or none entity_type = entity_type
type_or (some detection_type) entity_type = detection_type

-- `_validate_finding`
unfoldable pub validate_finding : Finding → Attempt Valid
unfolding check_score check_evidence
validate_finding finding = do
  id ← require finding.id
  raw ← require finding.risk_score
  severity ← require finding.severity
  entity_type ← require finding.entity_type
  _ ← require finding.entity_key
  raw_evidence ← require finding.evidence
  number ← float raw
  score ← check_score number
  evidence ← check_evidence raw_evidence
  done (record {
    id = id;
    risk_score = score;
    severity = severity;
    detection_type = type_or finding.detection_type entity_type;
    evidence = evidence;
  })

-- `_matched_rule_ids`: the first `rule_fusion` item decides.
unfoldable pub rule_ids : List RuleResult → Attempt (List Text)
rule_ids [] = done []
rule_ids (not_a_rule ∷ rules) = escapes
rule_ids (rule_result true (some id) ∷ rules) = rule_ids rules >>= λ ids. done (id ∷ ids)
rule_ids (rule_result true none ∷ rules) = rule_ids rules
rule_ids (rule_result false id ∷ rules) = rule_ids rules

unfoldable pub matched_rule_ids : List EvidenceItem → Attempt (List Text)
unfolding rule_ids
matched_rule_ids [] = done []
matched_rule_ids (not_a_mapping ∷ more) = escapes
matched_rule_ids (other_signal ∷ more) = matched_rule_ids more
matched_rule_ids (rule_fusion none ∷ more) = fails rules_not_iterable
matched_rule_ids (rule_fusion (some rules) ∷ more) = rule_ids rules

pub data Limitation : Type 0 where
  stated : Text → Limitation
  not_established malformed_input : Limitation

-- `_limitations`
unfoldable pub limitations_of : Option AssistantResponse → List Limitation
limitations_of none = not_established ∷ []
limitations_of (some response) = elim response.limitations [
  | some t ↦ stated t ∷ []
  | none ↦ not_established ∷ []
]

abbrev pub is_empty {ℓ} : {A : Type ℓ} → List A → Bool
is_empty [] = true
is_empty (a ∷ more) = false

-- A test of `_matches` that applies only if its key is there.
abbrev pub when {ℓ} : {A : Type ℓ} → Option A → (A → Attempt Bool) → Attempt Bool
when none test = done true
when (some a) test = test a

abbrev pub both : Attempt Bool → Attempt Bool → Attempt Bool
both first second = first >>= λ b. if b then second else done false

-- The policy whose values a rejection names.
pub data Rejection : Type 0 where
  recommendation_not_text destructive out_of_scope : Rejection

pub data Sentence : Type 0 where
  no_policy_matched dry_run_only : Sentence
  matched : Text → Text → Number → Sentence
  advisory : Rejection → Sentence
  failed_closed : Error → Sentence

pub data PolicyId : Type 0 where
  fail_closed : PolicyId
  policy : Text → PolicyId

pub data Action : Type 0 where
  review_finding review_input : Action
  proposed : Text → Action

pub data Advisory : Type 0 where
  accepted failed : Advisory
  rejected : Rejection → Advisory

-- The result's fields that the engine decides.
pub record Decision : Type 0 where
  pub finding_id : Option ℕ
  pub policy_id : PolicyId
  pub decision : PolicyDecision
  pub reason : List Sentence
  pub risk_score : Number
  pub severity : Option Text
  pub required_approval : Bool
  pub proposed_action : Action
  pub limitations : List Limitation
  pub is_dry_run : Bool
  pub advisory_rejection : Advisory

-- `_advisory_check`
-- The decision once a policy is selected: a rejected advice asks for review, and a dry run
-- permits nothing but what `ALLOW` and `LOG` permit.
unfoldable pub is_permissive : PolicyDecision → Bool
is_permissive allow = true
is_permissive log = true
is_permissive _ = false

unfoldable pub reviewed : PolicyRule → Option Rejection → PolicyDecision × Bool × List Sentence
reviewed rule none = (rule.decision, rule.required_approval, [])
reviewed rule (some rejection) = (review_required, true, advisory rejection ∷ [])

unfoldable pub restrained : Bool → PolicyDecision → PolicyDecision × List Sentence
unfolding is_permissive
restrained dry decision =
    if dry && not (is_permissive decision) then (dry_run, dry_run_only ∷ []) else (decision, [])

abbrev pub advisory_of : Option Rejection → Advisory
advisory_of none = accepted
advisory_of (some rejection) = rejected rejection

-- The `except` branch.
safe_score : Option Number → Number
unfolding in_unit
safe_score none = ticks 0
safe_score (some score) = if in_unit score then score else ticks 0

-- Whether `float(finding.get("risk_score", 0.0))` raises an OverflowError there.
abbrev pub overflows : Option Number → Bool
overflows (some beyond) = true
overflows _ = false

severity_or_unknown : Option Text → Text
severity_or_unknown none = codes "UNKNOWN"
severity_or_unknown (some severity) = severity

-- A `dry_run` that is not given is the engine's own.
abbrev pub or_default : Option Bool → Bool → Bool
or_default none default = default
or_default (some given) default = given

module _ (upper lower : Text → Text) where
  -- `_matches`, its tests in their order.
  unfoldable pub matches : PolicyRule → Valid → List Limitation → Attempt Bool
  unfolding contains less matched_rule_ids
  matches rule finding limitations =
      both
        (when rule.criteria.severity
          (λ allowed. done (contains (map upper allowed) (upper finding.severity))))
        (both
          (when rule.criteria.min_risk_score
            (λ low. float low >>= λ bound. done (not (less finding.risk_score bound))))
          (both
            (when rule.criteria.max_risk_score
              (λ high. float high >>= λ bound. done (not (less bound finding.risk_score))))
            (both
              (when rule.criteria.detection_type
                (λ types. done (contains types finding.detection_type)))
              (both
                (matched_rule_ids finding.evidence >>= λ ids.
                  done (all (contains ids) (or_none rule.criteria.required_rule_ids)))
                (done (not (rule.criteria.telemetry_complete && not (is_empty limitations))))))))
    where
      or_none : Option (List Text) → List Text
      or_none none = []
      or_none (some ids) = ids

  -- `_advisory_check`, of a response that is there
  check_text : PolicyRule → Text → Option Rejection
  unfolding is_dangerous is_substring
  check_text rule lowered =
      if is_dangerous lowered
      then some destructive
      else if not (is_empty rule.allowed_recommendation_keywords)
          && not (
              any (λ keyword. is_substring (lower keyword) lowered)
                rule.allowed_recommendation_keywords)
      then some out_of_scope
      else none

  unfoldable pub advisory_check : PolicyRule → Option AssistantResponse → Option Rejection
  unfolding check_text
  advisory_check rule none = none
  advisory_check rule (some response) = elim response.recommended_action [
    | not_text ↦ some recommendation_not_text
    | text t ↦ check_text rule (lower t)
  ]

  -- `next((policy for policy in self.policies if self._matches(…)), None)`
  unfoldable pub select : List PolicyRule → Valid → List Limitation → Attempt (Option PolicyRule)
  unfolding matches
  select [] finding limitations = done none
  select (rule ∷ rules) finding limitations =
      let rest = select rules finding limitations in
      matches rule finding limitations >>= λ b. if b then done (some rule) else rest

  unfoldable pub decide :
      Option PolicyRule → Valid → List Limitation → Option AssistantResponse → Bool → Decision
  unfolding reviewed restrained advisory_check
  decide none finding limitations response dry = record {
    finding_id = some finding.id;
    policy_id = fail_closed;
    decision = review_required;
    reason = no_policy_matched ∷ [];
    risk_score = finding.risk_score;
    severity = some (upper finding.severity);
    required_approval = true;
    proposed_action = review_finding;
    limitations = limitations;
    is_dry_run = dry;
    advisory_rejection = accepted;
  }
  decide (some rule) finding limitations response dry =
      let rejection = advisory_check rule response in
      let (first, approval, advice) = reviewed rule rejection in
      let (decision, note) = restrained dry first in
      record {
        finding_id = some finding.id;
        policy_id = policy rule.policy_id;
        decision = decision;
        reason = matched rule.policy_id finding.severity finding.risk_score ∷ advice ++ note;
        risk_score = finding.risk_score;
        severity = some (upper finding.severity);
        required_approval = approval;
        proposed_action = proposed rule.proposed_action;
        limitations = limitations;
        is_dry_run = dry;
        advisory_rejection = advisory_of rejection;
      }

  unfoldable pub closed : Finding → Error → Decision
  unfolding safe_score severity_or_unknown
  closed finding error = record {
    finding_id = finding.id;
    policy_id = fail_closed;
    decision = review_required;
    reason = failed_closed error ∷ [];
    risk_score = safe_score finding.risk_score;
    severity = some (upper (severity_or_unknown finding.severity));
    required_approval = true;
    proposed_action = review_input;
    limitations = malformed_input ∷ [];
    is_dry_run = true;
    advisory_rejection = failed;
  }

  unfoldable pub attempt :
      List PolicyRule → Finding → Option AssistantResponse → Bool → Attempt Decision
  unfolding validate_finding limitations_of select decide
  attempt policies finding response dry = do
    valid ← validate_finding finding
    let limitations = limitations_of response
    selected ← select policies valid limitations
    done (decide selected valid limitations response dry)

  abbrev pub caught : Finding → Attempt Decision → Option Decision
  caught finding (done decision) = some decision
  caught finding (fails error) =
      if overflows finding.risk_score then none else some (closed finding error)
  caught finding escapes = none

  -- `evaluate`: `none` where an AttributeError or an OverflowError leaves it.
  unfoldable pub evaluate :
      List PolicyRule → Bool → Finding → Option AssistantResponse → Option Bool → Option Decision
  unfolding attempt closed
  evaluate policies default finding response dry =
      caught finding (attempt policies finding response (or_default dry default))
