-- ===== src/Policy/Verdict.antt =====
-- What the verdict of `evaluate` in policy/engine.py can be.
use linux_xai_security_assis.Base.{
  ◌≡◌, refl, sym, ap, ◌∙◌, subst, Bool, true, false, Option, none, some, List, Bool-cases, inl, inr,
  Text,
}
use linux_xai_security_assis.Policy.{
  PolicyDecision, review_required, dry_run, PolicyRule, Finding, AssistantResponse, done, fails,
  Error,
}
use linux_xai_security_assis.Policy.Evaluate.{
  Valid, limitations_of, select, validate_finding, advisory_check, decide, closed, attempt,
  evaluate, or_default, is_permissive, Decision, fail_closed, Rejection, reviewed, restrained,
  caught, overflows,
}
use linux_xai_security_assis.Policy.Selected.{Attempt-cases}

some-injective {ℓ} : {A : Type ℓ} {a b : A} → some a ≡ some b → a ≡ b
some-injective h = cc h

review_does_not_permit : is_permissive review_required ≡ false
unfolding is_permissive
review_does_not_permit = refl

module _ (upper lower : Text → Text) (policies : List PolicyRule) (finding : Finding)
    (response : Option AssistantResponse) where
  -- A policy that itself permits was selected for a valid finding, and the advice passed its check.
  pub record Permitted (verdict : PolicyDecision) : Type 0 where
    pub rule : PolicyRule
    pub valid : Valid
    pub validated : validate_finding finding ≡ done valid
    pub selected : select upper lower policies valid (limitations_of response) ≡ done (some rule)
    pub accepted : advisory_check upper lower rule response ≡ none
    pub decided : rule.decision ≡ verdict

  -- What a verdict rests on: no policy or an input that is refused, a dry run, or a policy.
  pub data Rests (dry : Bool) (d : Decision) : Type 0 where
    closed_down :
        d.policy_id ≡ fail_closed
        → d.decision ≡ review_required
        → d.required_approval ≡ true
        → Rests dry d
    in_dry_run : dry ≡ true → d.decision ≡ dry_run → Rests dry d
    permitted : is_permissive d.decision ≡ true → Permitted d.decision → Rests dry d
    enforced : dry ≡ false → is_permissive d.decision ≡ false → Rests dry d

  permission :
      (rule : PolicyRule) (valid : Valid) (verdict : PolicyDecision)
      → validate_finding finding ≡ done valid
      → select upper lower policies valid (limitations_of response) ≡ done (some rule)
      → advisory_check upper lower rule response ≡ none
      → rule.decision ≡ verdict
      → Permitted verdict
  permission rule valid verdict ok found advice same = record {
    rule = rule;
    valid = valid;
    validated = ok;
    selected = found;
    accepted = advice;
    decided = same;
  }

  -- The policy, and how its advice and the dry run bear on the verdict.
  reviewed-Rests :
      (dry : Bool) (d : Decision) (rule : PolicyRule) (valid : Valid) (rejection : Option Rejection)
      → validate_finding finding ≡ done valid
      → select upper lower policies valid (limitations_of response) ≡ done (some rule)
      → advisory_check upper lower rule response ≡ rejection
      → d.decision ≡ (restrained dry (reviewed rule rejection).0).0
      → Rests dry d
  unfolding reviewed restrained
  reviewed-Rests true d rule valid none ok found advice h =
      elim (Bool-cases (is_permissive rule.decision)) [
        | inl permits ↦
            let same : d.decision ≡ rule.decision = h ∙ (rw permits refl) in
            permitted (ap is_permissive same ∙ permits)
              (permission rule valid d.decision ok found advice (sym same))
        | inr other ↦ in_dry_run refl (h ∙ (rw other refl))
      ]
  reviewed-Rests false d rule valid none ok found advice h =
      elim (Bool-cases (is_permissive rule.decision)) [
        | inl permits ↦
            permitted (ap is_permissive h ∙ permits)
              (permission rule valid d.decision ok found advice (sym h))
        | inr other ↦ enforced refl (ap is_permissive h ∙ other)
      ]
  reviewed-Rests true d rule valid (some rejection) ok found advice h = in_dry_run refl h
  reviewed-Rests false d rule valid (some rejection) ok found advice h =
      enforced refl (ap is_permissive h ∙ review_does_not_permit)

  decide-Rests :
      (dry : Bool) (selected : Option PolicyRule) (valid : Valid)
      → validate_finding finding ≡ done valid
      → select upper lower policies valid (limitations_of response) ≡ done selected
      → Rests dry (decide upper lower selected valid (limitations_of response) response dry)
  unfolding decide
  decide-Rests dry none valid ok found = closed_down refl refl refl
  decide-Rests dry (some rule) valid ok found =
      reviewed-Rests dry _ rule valid (advisory_check upper lower rule response) ok found refl refl

  closed-Rests :
      (dry : Bool) (d : Decision) (e : Error)
      → caught upper lower finding (fails e) ≡ some d
      → Rests dry d
  unfolding closed
  closed-Rests dry d e h = elim (Bool-cases (overflows finding.risk_score)) [
    | inl gone ↦ cc (rw gone at h)
    | inr read ↦
        subst (λ x. Rests dry x) (some-injective (rw read at h)) (closed_down refl refl refl)
  ]

  -- Every decision rests on one of four things: no policy or a refused input, where it asks for a
  -- review with approval; a dry run, where it is `DRY_RUN`; a matching policy that itself says
  -- `ALLOW` or `LOG`, for a valid finding and with no advice rejected; or an enforcing run, where
  -- it permits nothing.
  pub evaluate-Rests :
      (default : Bool) (dry : Option Bool) (d : Decision)
      → evaluate upper lower policies default finding response dry ≡ some d
      → Rests (or_default dry default) d
  unfolding evaluate attempt closed
  evaluate-Rests default dry d h = elim (Attempt-cases (validate_finding finding)) [
    | inl (valid, ok) ↦
        elim (Attempt-cases (select upper lower policies valid (limitations_of response))) [
          | inl (selected, found) ↦
              subst (λ x. Rests (or_default dry default) x) (some-injective (rw (ok, found) at h))
                (decide-Rests (or_default dry default) selected valid ok found)
          | inr (inl (e, bad)) ↦ closed-Rests (or_default dry default) d e (rw (ok, bad) at h)
          | inr (inr gone) ↦ cc (rw (ok, gone) at h)
        ]
    | inr (inl (e, bad)) ↦ closed-Rests (or_default dry default) d e (rw bad at h)
    | inr (inr gone) ↦ cc (rw gone at h)
  ]
