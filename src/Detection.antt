-- ===== src/Detection.antt =====
-- detection/detector.py: the steps of `DetectionEngine` over a batch of findings, which are the
-- operator's suppressions and the correlation by entity. What these steps never read of a finding,
-- its scores, explanation and provenance, is `rest`. Python's `str.strip` is a parameter, and
-- window bounds are ticks.
pub mod Suppressed
pub mod Correlation
pub mod Anchors
pub mod Runs
pub mod Assigned
mod Samples
use linux_xai_security_assis.Base.{
  ℕ, zero, suc, ◌+◌, max, Bool, true, false, not, ◌&&◌, ◌||◌, Option, none, some, List, [], ◌∷◌,
  ◌++◌, map, any, keep, ltb, leb, ◌==◌, if◌then◌else◌, Text, same_text,
}

-- One rule of a `rule_fusion` item, and an item of the evidence.
pub record Rule : Type 0 where
  pub rule_id : Text
  pub matched : Bool

pub data Item : Type 0 where
  rule_fusion : List Rule → Item
  other_signal : Item

pub record Finding (R : Type 0) : Type 0 where
  pub entity_type : Text
  pub entity_key : Text
  pub window_start : ℕ
  pub window_end : ℕ
  pub evidence : List Item
  pub rest : R
  pub correlation_id : Option Text
  pub suppressed : Bool
  pub suppression_reason : Option Text

-- A suppression spec as the operator gave it; `reason` is `str` of what is there, or empty.
pub record Given : Type 0 where
  pub entity_type : Option Text
  pub entity_key : Option Text
  pub matched_rule : Option Text
  pub reason : Text

pub data Spec : Type 0 where
  mapping : Given → Spec
  not_a_mapping : Spec

pub data Error : Type 0 where
  must_be_a_mapping no_reason unconstrained : Error

pub data Validated : Type 0 where
  valid : List Given → Validated
  invalid : Error → Validated

unfoldable pub is_none : Option Text → Bool
is_none none = true
is_none (some t) = false

unfoldable pub is_empty : Text → Bool
is_empty [] = true
is_empty (c ∷ t) = false

abbrev pub and_rest : Given → Validated → Validated
and_rest spec (valid specs) = valid (spec ∷ specs)
and_rest spec (invalid e) = invalid e

module _ (strip : Text → Text) where
  -- `_validate_suppressions`
  unfoldable pub validate_suppressions : List Spec → Validated
  unfolding is_none is_empty
  validate_suppressions [] = valid []
  validate_suppressions (not_a_mapping ∷ specs) = invalid must_be_a_mapping
  validate_suppressions (mapping spec ∷ specs) =
      let rest = validate_suppressions specs in
      let reason = strip spec.reason in
      if is_empty reason
      then invalid no_reason
      else if is_none spec.entity_key && is_none spec.matched_rule
      then invalid unconstrained
      else and_rest (record spec { reason = reason }) rest

-- `_matched_rule_ids`: the rules of the first `rule_fusion` item.
unfoldable pub matched_rule_ids : List Item → List Text
matched_rule_ids [] = []
matched_rule_ids (rule_fusion rules ∷ items) =
    map (λ (r : Rule). r.rule_id) (keep (λ (r : Rule). r.matched) rules)
matched_rule_ids (other_signal ∷ items) = matched_rule_ids items

-- A constraint that is not given holds.
unfoldable pub allows : Option Text → Text → Bool
unfolding same_text
allows none t = true
allows (some wanted) t = same_text wanted t

unfoldable pub allows_rules : Option Text → List Text → Bool
unfolding same_text
allows_rules none ids = true
allows_rules (some wanted) ids = any (same_text wanted) ids

module _ {R : Type 0} where
  -- The tests of one spec against one finding.
  unfoldable pub covers : Given → Finding R → Bool
  unfolding allows allows_rules matched_rule_ids
  covers spec f =
      allows spec.entity_type f.entity_type
      && allows spec.entity_key f.entity_key
      && allows_rules spec.matched_rule (matched_rule_ids f.evidence)

  -- The loop over the specs, which the first one that covers the finding ends.
  unfoldable pub suppress : List Given → Finding R → Finding R
  unfolding covers
  suppress [] f = f
  suppress (spec ∷ specs) f =
      let rest = suppress specs f in
      if covers spec f
      then record f { suppressed = true; suppression_reason = some spec.reason }
      else rest

  -- `_apply_suppressions`
  unfoldable pub apply_suppressions : List Given → List (Finding R) → List (Finding R)
  apply_suppressions specs findings = map (suppress specs) findings
