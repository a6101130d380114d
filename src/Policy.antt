-- ===== src/Policy.antt =====
-- The policy engine of policy/engine.py. A finding is a mapping whose keys can be missing; a
-- decision's reason is the list of its sentences. `evaluate` is the decision that the engine makes;
-- Trail has its record in the policy chain of the store, and batches.
pub mod Evaluate
pub mod Order
pub mod Selected
pub mod Verdict
pub mod Returns
pub mod Document
pub mod Trail
mod Samples
use linux_xai_security_assis.Base.{
  ℕ, zero, suc, ◌+◌, ◌^◌, Bool, true, false, not, ◌&&◌, ◌||◌, Option, none, some, List, [], ◌∷◌,
  ◌++◌, map, any, all, ltb, leb, ◌==◌, if◌then◌else◌, Text, same_text, starts_with, codes,
}

pub data PolicyDecision : Type 0 where
  allow log review_required dry_run action_pending_approval denied : PolicyDecision

-- A value that `float` reads. Every finite double is a multiple of 2 ^ -1074, so one that is not
-- negative is counted in these ticks. For `beyond`, an integer beyond all doubles, `float` raises an
-- OverflowError.
pub data Number : Type 0 where
  unreadable beyond nan negative infinite : Number
  ticks : ℕ → Number

unfoldable pub one : ℕ
one = 2 ^ 1074

-- `a < b` on two doubles; a negative one is compared by its sign alone, which is all that a
-- comparison with a score between 0 and 1 needs.
unfoldable pub less : Number → Number → Bool
less (ticks a) (ticks b) = ltb a b
less (ticks a) infinite = true
less negative (ticks b) = true
less negative infinite = true
less a b = false

-- A Python integer.
pub data ℤ : Type 0 where
  pos negsuc : ℕ → ℤ

-- The `match` mapping, once loaded.
pub record Criteria : Type 0 where
  pub severity : Option (List Text)
  pub min_risk_score : Option Number
  pub max_risk_score : Option Number
  pub detection_type : Option (List Text)
  pub required_rule_ids : Option (List Text)
  pub telemetry_complete : Bool

pub record PolicyRule : Type 0 where
  pub policy_id : Text
  pub priority : ℤ
  pub criteria : Criteria
  pub decision : PolicyDecision
  pub required_approval : Bool
  pub proposed_action : Text
  pub allowed_recommendation_keywords : List Text

-- One rule of a `rule_fusion` evidence item: a mapping, or anything else, which has no `get`.
pub data RuleResult : Type 0 where
  rule_result : Bool → Option Text → RuleResult
  not_a_rule : RuleResult

pub data EvidenceItem : Type 0 where
  rule_fusion : Option (List RuleResult) → EvidenceItem
  other_signal not_a_mapping : EvidenceItem

pub data Evidence : Type 0 where
  items : List EvidenceItem → Evidence
  not_a_list : Evidence

-- A finding's keys, `none` for one that is missing; severity and types as `str` writes them.
pub record Finding : Type 0 where
  pub id : Option ℕ
  pub risk_score : Option Number
  pub severity : Option Text
  pub entity_type : Option Text
  pub entity_key : Option Text
  pub evidence : Option Evidence
  pub detection_type : Option Text

pub data Recommendation : Type 0 where
  text : Text → Recommendation
  not_text : Recommendation

-- A response that is not empty; a missing recommendation reads as the empty text.
pub record AssistantResponse : Type 0 where
  pub limitations : Option Text
  pub recommended_action : Recommendation

pub data Error : Type 0 where
  missing_fields bad_number score_out_of_range bad_evidence rules_not_iterable : Error

-- What a computation comes to: a value, an exception that `evaluate` catches, or an AttributeError
-- or an OverflowError, which it does not.
pub data Attempt {ℓ} (A : Type ℓ) : Type ℓ where
  done : A → Attempt A
  fails : Error → Attempt A
  escapes : Attempt A

infixl 5 ◌>>=◌ ◌>>◌
abbrev pub ◌>>=◌ {ℓ κ} : {A : Type ℓ} {B : Type κ} → Attempt A → (A → Attempt B) → Attempt B
done a >>= f = f a
fails e >>= f = fails e
escapes >>= f = escapes

abbrev pub ◌>>◌ {ℓ κ} : {A : Type ℓ} {B : Type κ} → Attempt A → Attempt B → Attempt B
m >> k = m >>= λ _. k

-- The key order of `sorted`: `(-policy.priority, policy.policy_id)`.
unfoldable pub text_leb : Text → Text → Bool
text_leb [] t = true
text_leb (a ∷ s) [] = false
text_leb (a ∷ s) (b ∷ t) = ltb a b || (a == b && text_leb s t)

unfoldable pub int_leb : ℤ → ℤ → Bool
int_leb (pos a) (pos b) = leb a b
int_leb (pos a) (negsuc b) = false
int_leb (negsuc a) (pos b) = true
int_leb (negsuc a) (negsuc b) = leb b a

unfoldable pub key_leb : PolicyRule → PolicyRule → Bool
unfolding int_leb text_leb
key_leb p q =
    int_leb q.priority p.priority
    && (not (int_leb p.priority q.priority) || text_leb p.policy_id q.policy_id)

unfoldable pub insert : PolicyRule → List PolicyRule → List PolicyRule
unfolding key_leb
insert p [] = p ∷ []
insert p (q ∷ ps) = let rest = insert p ps in if key_leb p q then p ∷ q ∷ ps else q ∷ rest

-- `self.policies` of `__init__`
unfoldable pub sorted : List PolicyRule → List PolicyRule
unfolding insert
sorted [] = []
sorted (p ∷ ps) = insert p (sorted ps)

unfoldable pub contains : List Text → Text → Bool
contains texts t = any (same_text t) texts

-- `term in text`
unfoldable pub is_substring : Text → Text → Bool
unfolding starts_with
is_substring s [] = starts_with s []
is_substring s (b ∷ t) = starts_with s (b ∷ t) || is_substring s t

abbrev pub dangerous_terms : List Text
dangerous_terms =
    codes "kill"
    ∷ codes "terminate"
    ∷ codes "delete"
    ∷ codes "modify firewall"
    ∷ codes "sudoers"
    ∷ codes "execute"
    ∷ codes "run command"
    ∷ codes "block ip"
    ∷ codes "disable account"
    ∷ []

unfoldable pub is_dangerous : Text → Bool
unfolding is_substring
is_dangerous lowered = any (λ term. is_substring term lowered) dangerous_terms
