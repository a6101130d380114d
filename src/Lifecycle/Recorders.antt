-- ===== src/Lifecycle/Recorders.antt =====
-- The recorders of ml/lifecycle.py over the store's writers.
use Prim.Native.String.{String}
use linux_xai_security_assis.Base.{
  ℕ, Bool, true, false, not, Option, none, some, List, [], ◌∷◌, length, ◌==◌, if◌then◌else◌,
}
use linux_xai_security_assis.Gate.{normal_fpr_acceptance}
use linux_xai_security_assis.Lifecycle.{
  State, trained, evaluated, eligible, ineligible, retraining_required, drifted, retired,
  no_evidence, gate_evidence, Store, Result, ok, ◌>>=◌, ◌>>◌, refuse_if, bad_holdout_ids,
  Transition, write_transition, activate_ml_model, write_drift_assessment, DriftStatus,
  drift_detected,
}

-- A row that claims nothing.
abbrev plain : String → State → Option (Option State) → String → Transition
plain id to_state from_state reason = record {
  model_id = id;
  to_state = some to_state;
  from_state = from_state;
  reason = reason;
  evidence = no_evidence;
  activation_eligible = false;
}

pub record_trained : String → Store → Result Store
record_trained id store =
    write_transition (plain id trained none "model trained on verified-normal windows") store

pub record_evaluated : String → Store → Result Store
record_evaluated id store =
    write_transition
      (plain id evaluated (some (some trained)) "threshold evaluated against holdout windows") store

-- `len(set(window_ids)) != len(window_ids)`: a window is named twice
repeats : List ℕ → Bool
repeats [] = false
repeats (id ∷ ids) = let rest = repeats ids in if names id ids then true else rest
  where
    names : ℕ → List ℕ → Bool
    names id [] = false
    names id (other ∷ ids) = if id == other then true else names id ids

check_holdout : Option (List ℕ) → ℕ → Result (Unit {0})
unfolding repeats
check_holdout none windows = ok tt
check_holdout (some ids) windows = do
  refuse_if (repeats ids) bad_holdout_ids
  refuse_if (not (length ids == windows)) bad_holdout_ids

-- `record_activation_gate`: the verdict is what the gate returns for the counts.
pub record_activation_gate : String → ℕ → ℕ → Option (List ℕ) → Store → Result Store
unfolding check_holdout
record_activation_gate id false_positives windows holdout_ids store = do
  check_holdout holdout_ids windows
  let granted = (normal_fpr_acceptance false_positives windows).activation_eligible
  write_transition
      (record {
        model_id = id;
        to_state = some (if granted then eligible else ineligible);
        from_state = some (some evaluated);
        reason = if granted then "activation gate satisfied" else "activation gate not satisfied";
        evidence = gate_evidence false_positives windows;
        activation_eligible = granted;
      })
      store

pub record_activation : String → ℕ → ℕ → Store → Result Store
record_activation id false_positives windows store =
    activate_ml_model id false_positives windows store

is_drift : Option DriftStatus → Bool
is_drift (some drift_detected) = true
is_drift _ = false

-- `record_drift_assessment`: two transactions when drift was detected.
pub record_drift_assessment : String → Option DriftStatus → Store → Result Store
unfolding is_drift
record_drift_assessment id status store = do
  written ← write_drift_assessment id status none store
  if is_drift status
      then write_transition (plain id retraining_required none "feature distributions diverged")
          written
      else ok written

pub record_drifted : String → String → Store → Result Store
record_drifted id reason store = write_transition (plain id drifted none reason) store

pub record_retired : String → String → Store → Result Store
record_retired id reason store = write_transition (plain id retired none reason) store
