-- ===== src/Policy/Returns.antt =====
-- When `evaluate` of policy/engine.py returns a decision at all.
use linux_xai_security_assis.Base.{
  ◌≡◌, refl, Bool, true, false, if◌then◌else◌, if-both, Option, none, some, List, [], ◌∷◌, All,
  Text,
}
use linux_xai_security_assis.Policy.{
  Number, unreadable, beyond, nan, negative, infinite, ticks, PolicyRule, Finding,
  score_out_of_range, AssistantResponse, Attempt, done, fails, escapes, ◌>>=◌, EvidenceItem,
  Evidence, rule_fusion, other_signal, not_a_mapping, RuleResult, rule_result, not_a_rule, items,
  not_a_list,
}
use linux_xai_security_assis.Policy.Evaluate.{
  Valid, Decision, Limitation, float, when, both, limitations_of, rule_ids, matched_rule_ids,
  matches, select, validate_finding, check_score, check_evidence, in_unit, attempt, evaluate,
  require, caught, closed, overflows,
}

abbrev IsRule : RuleResult → Type 0
IsRule (rule_result matched id) = Unit
IsRule not_a_rule = ⊥

-- The items, and the rules of a `rule_fusion` item, are mappings.
abbrev pub IsMapping : EvidenceItem → Type 0
IsMapping (rule_fusion none) = Unit
IsMapping (rule_fusion (some rules)) = All IsRule rules
IsMapping other_signal = Unit
IsMapping not_a_mapping = ⊥

abbrev pub IsMapped : Option Evidence → Type 0
IsMapped none = Unit
IsMapped (some not_a_list) = Unit
IsMapped (some (items list)) = All IsMapping list

-- The computation comes to a value with the property, or to an exception that is caught.
abbrev Keeps {ℓ} : {A : Type ℓ} → (A → Type 0) → Attempt A → Type 0
Keeps Q (done a) = Q a
Keeps Q (fails e) = Unit
Keeps Q escapes = ⊥

abbrev Stays {ℓ} : {A : Type ℓ} → Attempt A → Type 0
Stays m = Keeps (λ a. Unit) m

bind-Keeps {ℓ κ} :
    {A : Type ℓ} {B : Type κ} {Q : A → Type 0} (R : B → Type 0) (m : Attempt A) (f : A → Attempt B)
    → Keeps Q m
    → ((a : A) → Q a → Keeps R (f a))
    → Keeps R (m >>= f)
bind-Keeps R (done a) f h g = g a h
bind-Keeps R (fails e) f h g = tt
bind-Keeps R escapes f h g = h

bind-Stays {ℓ κ} :
    {A : Type ℓ} {B : Type κ} (m : Attempt A) (f : A → Attempt B)
    → Stays m
    → ((a : A) → Stays (f a))
    → Stays (m >>= f)
bind-Stays {A} m f h g = bind-Keeps {A = A} {Q = λ a. Unit} (λ b. Unit) m f h (λ a u. g a)

when-Stays {ℓ} :
    {A : Type ℓ} (o : Option A) (test : A → Attempt Bool)
    → ((a : A) → Stays (test a))
    → Stays (when o test)
when-Stays none test h = tt
when-Stays (some a) test h = h a

both-Stays : (m n : Attempt Bool) → Stays m → Stays n → Stays (both m n)
both-Stays (done true) n h g = g
both-Stays (done false) n h g = tt
both-Stays (fails e) n h g = tt
both-Stays escapes n h g = h

-- A number that is not an integer beyond all doubles; a missing one is none.
abbrev pub IsRead : Number → Type 0
IsRead beyond = ⊥
IsRead _ = Unit

abbrev pub IsReadable : Option Number → Type 0
IsReadable none = Unit
IsReadable (some n) = IsRead n

float-Stays : (n : Number) → IsRead n → Stays (float n)
float-Stays beyond h = h
float-Stays unreadable h = tt
float-Stays nan h = tt
float-Stays negative h = tt
float-Stays infinite h = tt
float-Stays (ticks t) h = tt

float_test-Stays :
    (o : Option Number) (f : Number → Bool)
    → IsReadable o
    → Stays (when o (λ n. float n >>= λ b. done (f b)))
float_test-Stays none f h = tt
float_test-Stays (some n) f h = bind-Stays (float n) (λ b. done (f b)) (float-Stays n h) (λ a. tt)

-- The bounds on the score of a policy.
abbrev pub IsBounding : PolicyRule → Type 0
IsBounding rule = IsReadable rule.criteria.min_risk_score × IsReadable rule.criteria.max_risk_score

not_overflows : (o : Option Number) → IsReadable o → overflows o ≡ false
not_overflows none h = refl
not_overflows (some beyond) h = absurd h
not_overflows (some unreadable) h = refl
not_overflows (some nan) h = refl
not_overflows (some negative) h = refl
not_overflows (some infinite) h = refl
not_overflows (some (ticks t)) h = refl

require-IsReadable : (o : Option Number) → IsReadable o → Keeps IsRead (require o)
require-IsReadable none h = tt
require-IsReadable (some n) h = h

rule_ids-Stays : (rules : List RuleResult) → All IsRule rules → Stays (rule_ids rules)
unfolding rule_ids
rule_ids-Stays [] h = tt
rule_ids-Stays (not_a_rule ∷ rules) h = h.0
rule_ids-Stays (rule_result true (some id) ∷ rules) h =
    bind-Stays (rule_ids rules) (λ ids. done (id ∷ ids)) (rule_ids-Stays rules h.1) (λ a. tt)
rule_ids-Stays (rule_result true none ∷ rules) h = rule_ids-Stays rules h.1
rule_ids-Stays (rule_result false id ∷ rules) h = rule_ids-Stays rules h.1

matched_rule_ids-Stays :
    (list : List EvidenceItem) → All IsMapping list → Stays (matched_rule_ids list)
unfolding matched_rule_ids
matched_rule_ids-Stays [] h = tt
matched_rule_ids-Stays (not_a_mapping ∷ more) h = h.0
matched_rule_ids-Stays (other_signal ∷ more) h = matched_rule_ids-Stays more h.1
matched_rule_ids-Stays (rule_fusion none ∷ more) h = tt
matched_rule_ids-Stays (rule_fusion (some rules) ∷ more) h = rule_ids-Stays rules h.0

require-Stays {ℓ} : {A : Type ℓ} (o : Option A) → Stays (require o)
require-Stays none = tt
require-Stays (some a) = tt

require-IsMapped : (o : Option Evidence) → IsMapped o → Keeps (λ e. IsMapped (some e)) (require o)
require-IsMapped none h = tt
require-IsMapped (some e) h = h

check_evidence-IsMapped :
    (e : Evidence) → IsMapped (some e) → Keeps (All IsMapping) (check_evidence e)
unfolding check_evidence
check_evidence-IsMapped not_a_list h = tt
check_evidence-IsMapped (items []) h = tt
check_evidence-IsMapped (items (item ∷ more)) h = h

check_score-Stays : (n : Number) → Stays (check_score n)
unfolding check_score
check_score-Stays n = branch (in_unit n)
  where
    branch : (b : Bool) → Stays (if b then done n else fails score_out_of_range)
    branch true = tt
    branch false = tt

ValidMapped : Valid → Type 0
ValidMapped valid = All IsMapping valid.evidence

-- A valid finding's evidence is the one that was given.
validate_finding-IsMapped :
    (finding : Finding)
    → IsMapped finding.evidence
    → IsReadable finding.risk_score
    → Keeps ValidMapped (validate_finding finding)
unfolding validate_finding ValidMapped
validate_finding-IsMapped finding h readable =
    bind-Keeps {Q = λ a. Unit} ValidMapped (require finding.id) _ (require-Stays finding.id) λ id u.
      bind-Keeps {Q = IsRead} ValidMapped (require finding.risk_score) _
        (require-IsReadable finding.risk_score readable)
        λ raw is_read.
          bind-Keeps {Q = λ a. Unit} ValidMapped (require finding.severity) _
            (require-Stays finding.severity)
            λ severity u.
              bind-Keeps {Q = λ a. Unit} ValidMapped (require finding.entity_type) _
                (require-Stays finding.entity_type)
                λ entity_type u.
                  bind-Keeps {Q = λ a. Unit} ValidMapped (require finding.entity_key) _
                    (require-Stays finding.entity_key)
                    λ entity_key u.
                      bind-Keeps {Q = λ e. IsMapped (some e)} ValidMapped (require finding.evidence)
                        _ (require-IsMapped finding.evidence h)
                        λ raw_evidence mapped.
                          bind-Keeps {Q = λ a. Unit} ValidMapped (float raw) _
                            (float-Stays raw is_read)
                            λ number u.
                              bind-Keeps {Q = λ a. Unit} ValidMapped (check_score number) _
                                (check_score-Stays number)
                                λ score u.
                                  bind-Keeps {Q = All IsMapping} ValidMapped
                                    (check_evidence raw_evidence) _
                                    (check_evidence-IsMapped raw_evidence mapped)
                                    λ evidence all. all

module _ (upper lower : Text → Text) where
  matches-Stays :
      (rule : PolicyRule) (finding : Valid) (limitations : List Limitation)
      → All IsMapping finding.evidence
      → IsBounding rule
      → Stays (matches upper lower rule finding limitations)
  unfolding matches
  matches-Stays rule finding limitations h bounds =
      both-Stays _ _ (when-Stays rule.criteria.severity _ (λ a. tt)) (
        both-Stays _ _ (float_test-Stays rule.criteria.min_risk_score _ bounds.0) (
          both-Stays _ _ (float_test-Stays rule.criteria.max_risk_score _ bounds.1) (
            both-Stays _ _ (when-Stays rule.criteria.detection_type _ (λ a. tt)) (
              both-Stays _ _ (bind-Stays _ _ (matched_rule_ids-Stays finding.evidence h) (λ a. tt))
                tt))))

  select-Stays :
      (policies : List PolicyRule) (finding : Valid) (limitations : List Limitation)
      → All IsMapping finding.evidence
      → All IsBounding policies
      → Stays (select upper lower policies finding limitations)
  unfolding select
  select-Stays [] finding limitations h bounds = tt
  select-Stays (rule ∷ policies) finding limitations h bounds =
      bind-Stays (matches upper lower rule finding limitations) _
        (matches-Stays rule finding limitations h bounds.0)
        (λ b. if-both Stays b tt (select-Stays policies finding limitations h bounds.1))

  -- `evaluate` returns a decision for every finding, valid or not, whose evidence items, and the
  -- rules in them, are mappings and whose risk score, if it has one, is no integer beyond all
  -- doubles, under policies whose bounds on the score are no such integers either.
  pub evaluate-returns :
      (policies : List PolicyRule) (default : Bool) (finding : Finding)
      (response : Option AssistantResponse) (dry : Option Bool)
      → IsMapped finding.evidence
      → IsReadable finding.risk_score
      → All IsBounding policies
      → (d : Decision) × (evaluate upper lower policies default finding response dry ≡ some d)
  unfolding evaluate attempt ValidMapped
  evaluate-returns policies default finding response dry m readable bounds = caught-returns _ (
      bind-Keeps {Q = ValidMapped} (λ d. Unit) (validate_finding finding) _
        (validate_finding-IsMapped finding m readable)
        λ valid all.
          bind-Keeps (λ d. Unit) (select upper lower policies valid (limitations_of response)) _
            (select-Stays policies valid (limitations_of response) all bounds) λ selected u. tt)
    where
      caught-returns :
          (a : Attempt Decision)
          → Stays a
          → (d : Decision) × (caught upper lower finding a ≡ some d)
      caught-returns (done d) h = (d, refl)
      caught-returns (fails e) h =
          (closed upper lower finding e, rw (not_overflows finding.risk_score readable) refl)
      caught-returns escapes h = absurd h
