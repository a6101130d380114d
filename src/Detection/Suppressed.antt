-- ===== src/Detection/Suppressed.antt =====
-- The suppressions of detection/detector.py: what they may change, and for what reason.
use mathlib.Core.List.{Memᴰ}
use linux_xai_security_assis.Base.{
  ◌≡◌, ◌≢◌, ◌⊎◌, refl, sym, ap, ◌∙◌, true, false, ◌&&◌, Option, none, some, List, [], ◌∷◌, ◌++◌,
  Text, same_text→eq, same_text_refl, All, inl, inr, false≢true, Bool-cases, subst, ◌↔◌,
  any-same_text_iff, arith,
}
use linux_xai_security_assis.Detection.{
  Finding, Given, Spec, mapping, not_a_mapping, Validated, valid, invalid, is_none, is_empty,
  and_rest, validate_suppressions, matched_rule_ids, allows, allows_rules, covers, suppress,
  apply_suppressions,
}

-- A spec that may mute findings: it says why, and it names an entity or a rule.
pub record IsAuditable (spec : Given) : Type 0 where
  pub explained : spec.reason ≢ []
  pub constrained : (spec.entity_key ≢ none) ⊎ (spec.matched_rule ≢ none)

and_rest-All :
    (spec : Given) (v : Validated) (specs : List Given)
    → IsAuditable spec
    → and_rest spec v ≡ valid specs
    → ((more : List Given) → v ≡ valid more → All IsAuditable more)
    → All IsAuditable specs
and_rest-All spec (valid more) specs h e rest =
    let same : spec ∷ more ≡ specs = cc e in subst (All IsAuditable) same (h, rest more refl)
and_rest-All spec (invalid why) specs h e rest = cc e

not_is_empty : (t : Text) → is_empty t ≡ false → t ≢ []
unfolding is_empty
not_is_empty t h e = false≢true (sym h ∙ rw e refl)

constrained_of :
    (key rule : Option Text) → is_none key && is_none rule ≡ false → (key ≢ none) ⊎ (rule ≢ none)
unfolding is_none
constrained_of none none h = absurd (false≢true (sym h))
constrained_of none (some rule) h = inr (λ e. cc e)
constrained_of (some key) rule h = inl (λ e. cc e)

-- Specs that pass the validation are auditable, every one.
validate_suppressions-IsAuditable :
    (strip : Text → Text) (specs : List Spec) (valids : List Given)
    → validate_suppressions strip specs ≡ valid valids
    → All IsAuditable valids
unfolding validate_suppressions
validate_suppressions-IsAuditable strip [] valids h =
    let same : [] ≡ valids = cc h in subst (All IsAuditable) same tt
validate_suppressions-IsAuditable strip (not_a_mapping ∷ specs) valids h = cc h
validate_suppressions-IsAuditable strip (mapping spec ∷ specs) valids h =
    elim (Bool-cases (is_empty (strip spec.reason))) [
      | inl blank ↦ cc (rw blank at h)
      | inr reasoned ↦ elim (Bool-cases (is_none spec.entity_key && is_none spec.matched_rule)) [
        | inl wide ↦ cc (rw (reasoned, wide) at h)
        | inr narrow ↦
            and_rest-All (record spec { reason = strip spec.reason })
              (validate_suppressions strip specs) valids
              (record {
                explained = not_is_empty (strip spec.reason) reasoned;
                constrained = constrained_of spec.entity_key spec.matched_rule narrow;
              })
              (rw (reasoned, narrow) at h) (validate_suppressions-IsAuditable strip specs)
      ]
    ]

module _ {R : Type 0} where
  -- What it is for a spec to be about a finding.
  pub record Concerns (spec : Given) (f : Finding R) : Type 0 where
    pub of_type : (spec.entity_type ≡ none) ⊎ (spec.entity_type ≡ some f.entity_type)
    pub of_key : (spec.entity_key ≡ none) ⊎ (spec.entity_key ≡ some f.entity_key)
    pub of_rule :
        (spec.matched_rule ≡ none)
        ⊎ ((id : Text) × (spec.matched_rule ≡ some id) × Memᴰ id (matched_rule_ids f.evidence))

  -- What may become of a finding: nothing, if no spec concerns it, or else the reason of the first
  -- spec that does, and no other change.
  abbrev pub IsDisposed : List Given → Finding R → Finding R → Type 0
  IsDisposed specs f g =
      ((g ≡ f) × All (λ spec. ¬ Concerns spec f) specs)
      ⊎ ((before : List Given) × (spec : Given) × (after : List Given) × (specs
            ≡ before ++ spec ∷ after)
          × All (λ earlier. ¬ Concerns earlier f) before
          × Concerns spec f
          × (g ≡ record f { suppressed = true; suppression_reason = some spec.reason }))

allows_iff :
    (wanted : Option Text) (t : Text)
    → (allows wanted t ≡ true) ↔ ((wanted ≡ none) ⊎ (wanted ≡ some t))
unfolding allows
allows_iff none t = ((λ h. inl refl), λ h. refl)
allows_iff (some wanted) t = (
  (λ h. inr (ap some (same_text→eq wanted t h))),
  λ h. elim h [
    | inl nothing ↦ cc nothing
    | inr same ↦ let e : wanted ≡ t = cc same in rw e (same_text_refl t)
  ],
)

allows_rules_iff :
    (wanted : Option Text) (ids : List Text)
    → (allows_rules wanted ids ≡ true)
      ↔ ((wanted ≡ none) ⊎ ((id : Text) × (wanted ≡ some id) × Memᴰ id ids))
unfolding allows_rules
allows_rules_iff none ids = ((λ h. inl refl), λ h. refl)
allows_rules_iff (some wanted) ids = (
  (λ h. inr (wanted, refl, (any-same_text_iff wanted ids).0 h)),
  λ h. elim h [
    | inl nothing ↦ cc nothing
    | inr (id, same, m) ↦
        let e : id ≡ wanted = cc same in
        (any-same_text_iff wanted ids).1 (subst (λ (x : Text). Memᴰ x ids) e m)
  ],
)

module _ {R : Type 0} where
  covers-Concerns : (spec : Given) (f : Finding R) → covers spec f ≡ true → Concerns spec f
  unfolding covers
  covers-Concerns spec f h = record {
    of_type = (allows_iff spec.entity_type f.entity_type).0 (ground (arith, h));
    of_key = (allows_iff spec.entity_key f.entity_key).0 (ground (arith, h));
    of_rule =
        (allows_rules_iff spec.matched_rule (matched_rule_ids f.evidence)).0 (ground (arith, h));
  }

  Concerns-covers : (spec : Given) (f : Finding R) → Concerns spec f → covers spec f ≡ true
  unfolding covers
  Concerns-covers spec f c =
      rw
        (
          (allows_iff spec.entity_type f.entity_type).1 c.of_type,
          (allows_iff spec.entity_key f.entity_key).1 c.of_key,
          (allows_rules_iff spec.matched_rule (matched_rule_ids f.evidence)).1 c.of_rule,
        )
        refl

  suppress-IsDisposed : (specs : List Given) (f : Finding R) → IsDisposed specs f (suppress specs f)
  unfolding suppress
  suppress-IsDisposed [] f = inl (refl, tt)
  suppress-IsDisposed (spec ∷ specs) f = elim (Bool-cases (covers spec f)) [
    | inl about ↦ rw about (inr ([], spec, specs, refl, tt, covers-Concerns spec f about, refl))
    | inr elsewhere ↦
        let apart : ¬ Concerns spec f =
          λ c. false≢true (sym elsewhere ∙ Concerns-covers spec f c) in
        rw elsewhere (elim (suppress-IsDisposed specs f) [
          | inl (same, none_about) ↦ inl (same, (apart, none_about))
          | inr (before, first, after, split, earlier, about, is) ↦ inr (
            spec ∷ before,
            first,
            after,
            ap (λ (more : List Given). spec ∷ more) split,
            (apart, earlier),
            about,
            is,
          )
        ])
  ]

  -- The batch position by position.
  abbrev pub Each : (Finding R → Finding R → Type 0) → List (Finding R) → List (Finding R) → Type 0
  Each P [] [] = Unit
  Each P [] (g ∷ gs) = ⊥
  Each P (f ∷ fs) [] = ⊥
  Each P (f ∷ fs) (g ∷ gs) = P f g × Each P fs gs

  map-Each :
      (specs : List Given) (findings : List (Finding R))
      → Each (IsDisposed specs) findings (apply_suppressions specs findings)
  unfolding apply_suppressions
  map-Each specs [] = tt
  map-Each specs (f ∷ findings) = (suppress-IsDisposed specs f, map-Each specs findings)

  -- With specs that the validation accepted, no finding is dropped, added or moved. One that no
  -- spec concerns is unchanged; any other changes only in being suppressed for the reason of the
  -- first spec that concerns it, and every spec has a reason and names an entity or a rule.
  pub apply_suppressions-IsDisposed :
      (strip : Text → Text) (given : List Spec) (specs : List Given) (findings : List (Finding R))
      → validate_suppressions strip given ≡ valid specs
      → All IsAuditable specs × Each (IsDisposed specs) findings (apply_suppressions specs findings)
  apply_suppressions-IsDisposed strip given specs findings h =
      (validate_suppressions-IsAuditable strip given specs h, map-Each specs findings)
