-- ===== src/Lifecycle/Samples.antt =====
-- A model's life in the store of storage/sqlite_store.py, and the theorems of the gate and of the
-- lifecycle at it.
use mathlib.Core.List.{Memᴰ}
use linux_xai_security_assis.Base.{
  ℕ_discrete, ℕ, ◌-◌, ◌*◌, ◌≤◌, ◌≡◌, ◌≢◌, ◌↔◌, refl, true, false, none, some, [], ◌∷◌, ◌++◌,
}
use linux_xai_security_assis.Gate.{within_budget, normal_fpr_acceptance}
use linux_xai_security_assis.Gate.Binding.{normal_fpr_acceptance_iff}
use linux_xai_security_assis.Lifecycle.{
  append_row, require_activation_gate_verdict, has_id, is_eligible_state, stands_down, retired,
  eligible, Row, Model, Store, empty, ok, err, Transition, no_evidence, write_ml_model,
  write_transition, activate_ml_model, activated, current_state, gate_evidence, verdict_mismatch,
}
use linux_xai_security_assis.Lifecycle.Activation.{MayActivate, IsActivated, activate_ml_model_iff}
use linux_xai_security_assis.Lifecycle.Reachable.{
  Reach, insert, transition, activate, here, next, IsVouched, Reach-IsVouched,
}
use linux_xai_security_assis.Lifecycle.Retirement.{IsOutOfService, write_transition-retires}

abbrev forest : Model
forest = record { id = "iforest-1"; active = false }

abbrev stored : Store
stored = record { models = forest ∷ []; lifecycle = []; assessments = 0 }

-- The gate's claim of eligibility for no false positive in 60 windows.
abbrev claim : Transition
claim = record {
  model_id = "iforest-1";
  to_state = some eligible;
  from_state = none;
  reason = "activation gate satisfied";
  evidence = gate_evidence 0 60;
  activation_eligible = true;
}

abbrev claim_row : Row
claim_row = record {
  model_id = "iforest-1";
  from_state = none;
  to_state = eligible;
  reason = "activation gate satisfied";
  evidence = gate_evidence 0 60;
  activation_eligible = true;
}

abbrev claimed : Store
claimed = record { models = forest ∷ []; lifecycle = claim_row ∷ []; assessments = 0 }

abbrev serving : Store
serving = activated "iforest-1" 0 60 claimed

inserted : write_ml_model forest empty ≡ ok stored
unfolding write_ml_model
inserted = refl

claimed_after : write_transition claim stored ≡ ok claimed
unfolding write_transition normal_fpr_acceptance within_budget ℕ_discrete append_row
claimed_after = refl

serving_after : activate_ml_model "iforest-1" 0 60 claimed ≡ ok serving
unfolding activate_ml_model normal_fpr_acceptance within_budget require_activation_gate_verdict
    ℕ_discrete has_id is_eligible_state current_state
serving_after = refl

reached : Reach serving
reached =
    next (next (next here (insert forest inserted)) (transition claim claimed_after))
      (activate "iforest-1" 0 60 serving_after)

abbrev served : Model
served = record { id = "iforest-1"; active = true }

in_service : Memᴰ served serving.models
in_service = Memᴰ.head refl

Reach-IsVouched_example : (served.id ≡ served.id) × IsVouched served.id serving.lifecycle
Reach-IsVouched_example = Reach-IsVouched reached served served in_service in_service refl refl

activate_ml_model_iff_example :
    (activate_ml_model "iforest-1" 0 60 claimed ≡ ok serving)
    ↔ (MayActivate "iforest-1" 0 60 claimed × IsActivated "iforest-1" 0 60 claimed serving)
activate_ml_model_iff_example = activate_ml_model_iff "iforest-1" 0 60 claimed serving

abbrev retirement : Transition
retirement = record {
  model_id = "iforest-1";
  to_state = some retired;
  from_state = none;
  reason = "superseded";
  evidence = no_evidence;
  activation_eligible = false;
}

abbrev retired_row : Row
retired_row = record {
  model_id = "iforest-1";
  from_state = none;
  to_state = retired;
  reason = "superseded";
  evidence = no_evidence;
  activation_eligible = false;
}

abbrev retired_store : Store
retired_store = record serving {
  models = forest ∷ [];
  lifecycle = serving.lifecycle ++ retired_row ∷ [];
}

retired_after : write_transition retirement serving ≡ ok retired_store
unfolding write_transition append_row
retired_after = refl

retired_stands_down : stands_down retired ≡ true
unfolding stands_down
retired_stands_down = refl

write_transition-retires_example :
    IsOutOfService "iforest-1" retired_store
    × ((k n : ℕ) (u : Store) → activate_ml_model "iforest-1" k n retired_store ≢ ok u)
write_transition-retires_example =
    write_transition-retires retirement retired serving retired_store refl retired_stands_down
      retired_after

-- One false positive in 60 windows is refused, and one in 100 is granted.
refused_at_60 : (normal_fpr_acceptance 1 60).activation_eligible ≡ false
unfolding normal_fpr_acceptance within_budget
refused_at_60 = refl

granted_at_100 : (normal_fpr_acceptance 1 100).activation_eligible ≡ true
unfolding normal_fpr_acceptance within_budget
granted_at_100 = refl

-- A false positive that is left out of the recorded counts is noticed.
mismatch_refused :
    write_transition
      (record claim { evidence = record (gate_evidence 0 60) { false_positive_count = some 1 } })
      stored
    ≡ err verdict_mismatch
unfolding write_transition normal_fpr_acceptance within_budget
mismatch_refused = refl

normal_fpr_acceptance_iff_example : ((normal_fpr_acceptance 1 100).activation_eligible ≡ true) ↔ (
    (60 ≤ 100)
    × (20 * 1 ≤ 100)
    × (19 * 2705544681316 * 100 ≤ 1000000000000 * ((100 - 20 * 1) * (100 - 20 * 1))))
normal_fpr_acceptance_iff_example = normal_fpr_acceptance_iff 1 100
