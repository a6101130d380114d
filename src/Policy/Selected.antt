-- ===== src/Policy/Selected.antt =====
-- Which policy decides in `evaluate` of policy/engine.py, and what the assistant can change.
use linux_xai_security_assis.Base.{
  ℕ, ◌≡◌, refl, subst, Bool, true, false, Option, none, some, List, [], ◌∷◌, All, All-map, arith,
  Bool-cases, inl, inr, ◌⊎◌, Text,
}
use linux_xai_security_assis.Policy.{
  Number, PolicyRule, Finding, AssistantResponse, Error, Attempt, done, fails, escapes, key_leb,
  sorted,
}
use linux_xai_security_assis.Policy.Order.{IsSorted, key_leb_total, sorted-IsSorted, All-sorted}
use linux_xai_security_assis.Policy.Evaluate.{
  Valid, Limitation, limitations_of, is_empty, matches, select, validate_finding, decide, attempt,
  evaluate, or_default, Decision, PolicyId, Action,
}

pub Attempt-cases {ℓ} :
    {A : Type ℓ} (m : Attempt A)
    → ((a : A) × (m ≡ done a)) ⊎ (((e : Error) × (m ≡ fails e)) ⊎ (m ≡ escapes))
Attempt-cases (done a) = inl (a, refl)
Attempt-cases (fails e) = inr (inl (e, refl))
Attempt-cases escapes = inr (inr refl)

key_leb_refl : (p : PolicyRule) → key_leb p p ≡ true
key_leb_refl p = elim (Bool-cases (key_leb p p)) [ inl h ↦ h | inr h ↦ key_leb_total p p h ]

-- What a decision says of the finding, apart from the verdict and its reasons.
abbrev pub Core : Type 0
Core = Option ℕ × PolicyId × Number × Option Text × Action

abbrev pub core : Option Decision → Option Core
core none = none
core (some d) = some (d.finding_id, d.policy_id, d.risk_score, d.severity, d.proposed_action)

module _ (upper lower : Text → Text) where
  -- The policy matches, and every policy that matches has no smaller key.
  abbrev pub IsFirst : List PolicyRule → Valid → List Limitation → PolicyRule → Type 0
  IsFirst policies finding limitations rule =
      (matches upper lower rule finding limitations ≡ done true)
      × All (λ q. matches upper lower q finding limitations ≡ done true → key_leb rule q ≡ true)
          policies

  select-IsFirst_sorted :
      (policies : List PolicyRule) (finding : Valid) (limitations : List Limitation)
      (rule : PolicyRule)
      → IsSorted policies
      → select upper lower policies finding limitations ≡ done (some rule)
      → IsFirst policies finding limitations rule
  unfolding select IsSorted
  select-IsFirst_sorted [] finding limitations rule order h = cc
  select-IsFirst_sorted (p ∷ ps) finding limitations rule order h =
      elim (Attempt-cases (matches upper lower p finding limitations)) [
        | inl (true, match_found) ↦
            let same : p ≡ rule =
              (let e : done (some p) ≡ done (some rule) = (rw match_found at h) in cc e) in
            subst (λ r. IsFirst (p ∷ ps) finding limitations r) same
              (match_found, (λ again. key_leb_refl p, All-map (λ q le again. le) ps order.0))
        | inl (false, other) ↦
            let (mine, others) =
              select-IsFirst_sorted ps finding limitations rule order.1 (rw other at h) in
            (mine, (λ match_found. cc (match_found, other), others))
        | inr (inl (e, bad)) ↦ cc (rw bad at h)
        | inr (inr gone) ↦ cc (rw gone at h)
      ]

  -- The policy that the engine selects matches the finding, and of all the policies that it was
  -- given none that matches has a higher priority, or the same one and a smaller id.
  pub select-IsFirst :
      (policies : List PolicyRule) (finding : Valid) (limitations : List Limitation)
      (rule : PolicyRule)
      → select upper lower (sorted policies) finding limitations ≡ done (some rule)
      → IsFirst policies finding limitations rule
  select-IsFirst policies finding limitations rule h =
      let (mine, others) =
        select-IsFirst_sorted (sorted policies) finding limitations rule (sorted-IsSorted policies)
          h in
      (mine, All-sorted _ policies others)

  limitations_of_nonempty :
      (response : Option AssistantResponse) → is_empty (limitations_of response) ≡ false
  unfolding limitations_of
  limitations_of_nonempty none = refl
  limitations_of_nonempty (some response) = ground arith

  matches_agree :
      (rule : PolicyRule) (finding : Valid) (r s : Option AssistantResponse)
      → matches upper lower rule finding (limitations_of r)
        ≡ matches upper lower rule finding (limitations_of s)
  unfolding matches
  matches_agree rule finding r s = rw (limitations_of_nonempty r, limitations_of_nonempty s) refl

  pub select_agree :
      (policies : List PolicyRule) (finding : Valid) (r s : Option AssistantResponse)
      → select upper lower policies finding (limitations_of r)
        ≡ select upper lower policies finding (limitations_of s)
  unfolding select
  select_agree [] finding r s = refl
  select_agree (rule ∷ policies) finding r s =
      rw (matches_agree rule finding r s, select_agree policies finding r s) refl

  decide_agree :
      (selected : Option PolicyRule) (finding : Valid) (r s : Option AssistantResponse) (dry : Bool)
      → core (some (decide upper lower selected finding (limitations_of r) r dry))
        ≡ core (some (decide upper lower selected finding (limitations_of s) s dry))
  unfolding decide
  decide_agree none finding r s dry = refl
  decide_agree (some rule) finding r s dry = refl

  -- Two responses of the assistant, or a response and none, leave the finding's id, the policy
  -- that decides, the risk score, the severity and the proposed action the same.
  pub evaluate-core :
      (policies : List PolicyRule) (default : Bool) (finding : Finding)
      (r s : Option AssistantResponse) (dry : Option Bool)
      → core (evaluate upper lower policies default finding r dry)
        ≡ core (evaluate upper lower policies default finding s dry)
  unfolding evaluate attempt
  evaluate-core policies default finding r s dry = elim (Attempt-cases (validate_finding finding)) [
    | inl (valid, ok) ↦
        elim (Attempt-cases (select upper lower policies valid (limitations_of s))) [
          | inl (selected, found) ↦
              rw (ok, select_agree policies valid r s, found)
                (decide_agree selected valid r s (or_default dry default))
          | inr (inl (e, bad)) ↦ rw (ok, select_agree policies valid r s, bad) refl
          | inr (inr gone) ↦ rw (ok, select_agree policies valid r s, gone) refl
        ]
    | inr (inl (e, bad)) ↦ rw bad refl
    | inr (inr gone) ↦ rw gone refl
  ]
