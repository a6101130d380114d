-- ===== src/Policy/Document.antt =====
-- `PolicyEngine.from_document` and `__init__` of policy/engine.py. A value of the document is
-- `none` where its type is not the one asked for; inside, a key that can be left out is an
-- option. `str.lower` and whether `str.strip` leaves anything are Python's own: parameters here.
use linux_xai_security_assis.Base.{
  ◌≡◌, refl, Bool, true, false, not, Option, none, some, List, [], ◌∷◌, All, arith, Text, subst,
}
use linux_xai_security_assis.Policy.{
  PolicyDecision, Number, ℤ, pos, Criteria, PolicyRule, is_dangerous, sorted,
}
use linux_xai_security_assis.Policy.Order.{insert-All}

pub data ConfigError : Type 0 where
  bad_version policies_not_list policy_not_mapping empty_id match_not_mapping unknown_keys :
      ConfigError
  bad_severity bad_detection_type bad_rule_ids bad_decision bad_approval bad_action : ConfigError
  executing_action bad_keywords bad_priority no_policies : ConfigError

pub data Loaded {ℓ} (A : Type ℓ) : Type ℓ where
  loaded : A → Loaded A
  refused : ConfigError → Loaded A

infixl 5 ◌>>=◌ ◌>>◌
abbrev pub ◌>>=◌ {ℓ κ} : {A : Type ℓ} {B : Type κ} → Loaded A → (A → Loaded B) → Loaded B
loaded a >>= f = f a
refused e >>= f = refused e

abbrev pub ◌>>◌ {ℓ κ} : {A : Type ℓ} {B : Type κ} → Loaded A → Loaded B → Loaded B
m >> k = m >>= λ _. k

-- `if bad: raise PolicyConfigurationError(error)`
abbrev raise_if : Bool → ConfigError → Loaded (Unit {0})
raise_if true e = refused e
raise_if false e = loaded tt

-- The value, or the exception where its type is wrong.
abbrev typed {ℓ} : {A : Type ℓ} → Option A → ConfigError → Loaded A
typed none e = refused e
typed (some a) e = loaded a

-- A key that can be left out.
abbrev optional {ℓ} : {A : Type ℓ} → Option (Option A) → ConfigError → Loaded (Option A)
optional none e = loaded none
optional (some value) e = typed value e >>= λ a. loaded (some a)

abbrev or_default {ℓ} : {A : Type ℓ} → Option A → A → A
or_default none a = a
or_default (some b) a = b

-- A `match` mapping; the two scores are only read when a finding is matched.
pub record RawMatch : Type 0 where
  pub has_unknown_keys : Bool
  pub severity : Option (Option (List Text))
  pub detection_type : Option (Option (List Text))
  pub required_rule_ids : Option (Option (List Text))
  pub min_risk_score : Option Number
  pub max_risk_score : Option Number
  pub telemetry_complete : Bool

pub record RawPolicy : Type 0 where
  pub policy_id : Option Text
  pub criteria : Option RawMatch
  pub decision : Option PolicyDecision
  pub required_approval : Option Bool
  pub proposed_action : Option Text
  pub keywords : Option (Option (List Text))
  pub priority : Option (Option ℤ)

-- `policies` holds `none` for an entry that is not a mapping.
pub record Document : Type 0 where
  pub is_version_1 : Bool
  pub policies : Option (List (Option RawPolicy))

loaded-injective {ℓ} : {A : Type ℓ} {a b : A} → loaded a ≡ loaded b → a ≡ b
loaded-injective h = cc h

-- What an accepted document went through.
bind-loaded {ℓ κ} :
    {A : Type ℓ} {B : Type κ} (m : Loaded A) (f : A → Loaded B) {b : B}
    → (m >>= f) ≡ loaded b
    → (a : A) × (m ≡ loaded a) × (f a ≡ loaded b)
bind-loaded (loaded a) f h = (a, refl, h)
bind-loaded (refused e) f h = cc

module _ (lower : Text → Text) (is_blank : Text → Bool) where
  load_match : RawMatch → Loaded Criteria
  load_match raw = do
    raise_if raw.has_unknown_keys unknown_keys
    severity ← optional raw.severity bad_severity
    detection_type ← optional raw.detection_type bad_detection_type
    required_rule_ids ← optional raw.required_rule_ids bad_rule_ids
    loaded (record {
      severity = severity;
      min_risk_score = raw.min_risk_score;
      max_risk_score = raw.max_risk_score;
      detection_type = detection_type;
      required_rule_ids = required_rule_ids;
      telemetry_complete = raw.telemetry_complete;
    })

  -- One turn of the loop over `raw_policies`.
  load_policy : Option RawPolicy → Loaded PolicyRule
  unfolding load_match
  load_policy entry = do
    raw ← typed entry policy_not_mapping
    policy_id ← typed raw.policy_id empty_id
    raise_if (is_blank policy_id) empty_id
    raw_match ← typed raw.criteria match_not_mapping
    criteria ← load_match raw_match
    decision ← typed raw.decision bad_decision
    required_approval ← typed raw.required_approval bad_approval
    proposed_action ← typed raw.proposed_action bad_action
    raise_if (is_blank proposed_action) bad_action
    raise_if (is_dangerous (lower proposed_action)) executing_action
    keywords ← typed (or_default raw.keywords (some [])) bad_keywords
    priority ← typed (or_default raw.priority (some (pos 0))) bad_priority
    loaded (record {
      policy_id = policy_id;
      priority = priority;
      criteria = criteria;
      decision = decision;
      required_approval = required_approval;
      proposed_action = proposed_action;
      allowed_recommendation_keywords = keywords;
    })

  load_policies : List (Option RawPolicy) → Loaded (List PolicyRule)
  unfolding load_policy
  load_policies [] = loaded []
  load_policies (entry ∷ entries) = do
    rule ← load_policy entry
    rules ← load_policies entries
    loaded (rule ∷ rules)

  -- `__init__`: the policies in order, of which there is one at least.
  abbrev init : List PolicyRule → Loaded (List PolicyRule)
  init [] = refused no_policies
  init (rule ∷ rules) = loaded (sorted (rule ∷ rules))

  unfoldable pub from_document : Document → Loaded (List PolicyRule)
  unfolding load_policies
  from_document document = do
    raise_if (not document.is_version_1) bad_version
    entries ← typed document.policies policies_not_list
    rules ← load_policies entries
    init rules

  -- What an action that is only proposed may say.
  pub record IsAdvisory (rule : PolicyRule) : Type 0 where
    pub named : is_blank rule.policy_id ≡ false
    pub stated : is_blank rule.proposed_action ≡ false
    pub harmless : is_dangerous (lower rule.proposed_action) ≡ false

  load_policy-IsAdvisory :
      (entry : Option RawPolicy) (rule : PolicyRule)
      → load_policy entry ≡ loaded rule
      → IsAdvisory rule
  unfolding load_policy
  load_policy-IsAdvisory entry rule h = record {
    named = ground arith;
    stated = ground arith;
    harmless = ground arith;
  }

  load_policies-IsAdvisory :
      (entries : List (Option RawPolicy)) (rules : List PolicyRule)
      → load_policies entries ≡ loaded rules
      → All IsAdvisory rules
  unfolding load_policies
  load_policies-IsAdvisory [] rules h = subst (All IsAdvisory) (loaded-injective h) tt
  load_policies-IsAdvisory (entry ∷ entries) rules h =
      let (rule, first, h1) = bind-loaded (load_policy entry) _ h in
      let (rest, others, h2) = bind-loaded (load_policies entries) _ h1 in
      subst (All IsAdvisory) (loaded-injective h2)
        (load_policy-IsAdvisory entry rule first, load_policies-IsAdvisory entries rest others)

  sorted-All :
      (P : PolicyRule → Type 0) (rules : List PolicyRule) → All P rules → All P (sorted rules)
  unfolding sorted
  sorted-All P [] h = tt
  sorted-All P (rule ∷ rules) h = insert-All P rule (sorted rules) h.0 (sorted-All P rules h.1)

  init-IsAdvisory :
      (given rules : List PolicyRule)
      → All IsAdvisory given
      → init given ≡ loaded rules
      → All IsAdvisory rules
  init-IsAdvisory [] rules all h = cc
  init-IsAdvisory (rule ∷ given) rules all h =
      subst (All IsAdvisory) (loaded-injective h) (sorted-All IsAdvisory (rule ∷ given) all)

  -- Every policy of an engine that was built from a document, whatever the document, has an id
  -- and a proposed action that are not blank, and the action names nothing that executes.
  pub from_document-IsAdvisory :
      (document : Document) (rules : List PolicyRule)
      → from_document document ≡ loaded rules
      → All IsAdvisory rules
  unfolding from_document
  from_document-IsAdvisory document rules h =
      let (u, version, h1) = bind-loaded (raise_if (not document.is_version_1) bad_version) _ h in
      let (entries, listed, h2) = bind-loaded (typed document.policies policies_not_list) _ h1 in
      let (given, each, h3) = bind-loaded (load_policies entries) _ h2 in
      init-IsAdvisory given rules (load_policies-IsAdvisory entries given each) h3
