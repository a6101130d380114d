-- ===== src/Lifecycle.antt =====
-- The model lifecycle: the writers of `ml_models` and `ml_model_lifecycle` in
-- storage/sqlite_store.py, and the recorders of ml/lifecycle.py over them. A call that raises has
-- rolled back its transaction, so it returns an error and no store. The hash chain that each row
-- extends is modelled in `Chain`.
pub mod Recorders
pub mod Log
pub mod Standing
pub mod Activation
pub mod Reachable
pub mod Retirement
mod Samples
use Prim.Native.String.{String}
use text.Mathlib.Text.{◌==◌}
use linux_xai_security_assis.Base.{
  ℕ, suc, Bool, true, false, not, ◌&&◌, ◌||◌, Option, none, some, List, [], ◌∷◌, ◌++◌, any, decided,
  if◌then◌else◌,
}
use linux_xai_security_assis.Base
use linux_xai_security_assis.Gate.{Bound, Reason, Acceptance, normal_fpr_acceptance}

pub data State : Type 0 where
  trained evaluated eligible ineligible active drift_assessed retraining_required : State
  drifted retired : State

pub State-discrete : Discrete State
State-discrete = hlevel

pub Acceptance-discrete : Discrete Acceptance
Acceptance-discrete = hlevel Base.ℕ_discrete

-- What the checks read of `evidence`: the recorded verdict and counts, `none` where they are missing
-- or of another type. `assessment` is the drift assessment that a `drift_assessed` row names.
pub record Evidence : Type 0 where
  pub acceptance : Option Acceptance
  pub false_positive_count : Option ℕ
  pub normal_window_count : Option ℕ
  pub assessment : Option ℕ

abbrev pub no_evidence : Evidence
no_evidence = record {
  acceptance = none;
  false_positive_count = none;
  normal_window_count = none;
  assessment = none;
}

-- One row of `ml_model_lifecycle`.
pub record Row : Type 0 where
  pub model_id : String
  pub from_state : Option State
  pub to_state : State
  pub reason : String
  pub evidence : Evidence
  pub activation_eligible : Bool

-- One row of `ml_models`; what its other columns hold is never read here.
pub record Model : Type 0 where
  pub id : String
  pub active : Bool

pub record Store : Type 0 where
  pub models : List Model
  pub lifecycle : List Row
  pub assessments : ℕ

abbrev pub empty : Store
empty = record { models = []; lifecycle = []; assessments = 0 }

pub data Error : Type 0 where
  active_insert duplicate_model unknown_state missing_reason drift_claims_eligibility : Error
  active_without_verdict missing_verdict refusing_verdict missing_counts verdict_mismatch : Error
  gate_refuses unknown_model not_eligible bad_holdout_ids unknown_status : Error

pub data Result {ℓ} (A : Type ℓ) : Type ℓ where
  ok : A → Result A
  err : Error → Result A

infixl 5 ◌>>=◌ ◌>>◌
abbrev pub ◌>>=◌ {ℓ κ} : {A : Type ℓ} {B : Type κ} → Result A → (A → Result B) → Result B
ok a >>= f = f a
err e >>= f = err e

abbrev pub ◌>>◌ {ℓ κ} : {A : Type ℓ} {B : Type κ} → Result A → Result B → Result B
m >> k = m >>= λ _. k

-- `if bad: raise error`
abbrev pub refuse_if : Bool → Error → Result (Unit {0})
refuse_if true e = err e
refuse_if false e = ok tt

unfoldable pub is_state : State → State → Bool
unfolding State-discrete
is_state a b = decided (State-discrete a b)

pub has_id : String → Model → Bool
has_id id model = model.id == id

-- `write_ml_model`: always an inactive row; `id` is the primary key.
pub write_ml_model : Model → Store → Result Store
unfolding has_id
write_ml_model model store = do
  refuse_if model.active active_insert
  refuse_if (any (has_id model.id) store.models) duplicate_model
  ok (record store { models = store.models ++ model ∷ [] })

-- `_require_activation_gate_verdict`
same_acceptance : Acceptance → Acceptance → Bool
unfolding Acceptance-discrete
same_acceptance a b = decided (Acceptance-discrete a b)

require_counts : Acceptance → Option ℕ → Option ℕ → Result (Unit {0})
unfolding same_acceptance
require_counts acceptance none windows = err missing_counts
require_counts acceptance (some false_positives) none = err missing_counts
require_counts acceptance (some false_positives) (some windows) =
    refuse_if (not (same_acceptance (normal_fpr_acceptance false_positives windows) acceptance))
      verdict_mismatch

require_verdict : Option Acceptance → Evidence → Result (Unit {0})
unfolding require_counts
require_verdict none evidence = err missing_verdict
require_verdict (some acceptance) evidence = do
  refuse_if (not acceptance.activation_eligible) refusing_verdict
  require_counts acceptance evidence.false_positive_count evidence.normal_window_count

pub require_activation_gate_verdict : Evidence → Result (Unit {0})
unfolding require_verdict
require_activation_gate_verdict evidence = require_verdict evidence.acceptance evidence

-- `_set_ml_model_inactive`: the new table and whether a row changed.
abbrev pub stood_down : String → Model → Model
stood_down id model = if model.id == id then record model { active = false } else model

abbrev pub map_models : (Model → Model) → List Model → List Model
map_models f [] = []
map_models f (model ∷ models) = f model ∷ map_models f models

set_inactive : String → List Model → List Model
set_inactive id models = map_models (stood_down id) models

is_active : String → Model → Bool
is_active id model = model.id == id && model.active

-- `deactivate_ml_model`
pub deactivate_ml_model : String → Store → Store × Bool
unfolding set_inactive is_active
deactivate_ml_model id store =
    (record store { models = set_inactive id store.models }, any (is_active id) store.models)

-- The states that stand a model down.
unfoldable pub stands_down : State → Bool
unfolding is_state
stands_down state = is_state state retired || is_state state drifted

unfoldable pub is_drift_state : State → Bool
unfolding is_state
is_drift_state state = is_state state drift_assessed || is_state state retraining_required

-- `_insert_ml_lifecycle` and the stand-down, in one transaction.
pub append_row : Row → Store → Store
unfolding set_inactive stands_down
append_row row store = record store {
  models =
      if stands_down row.to_state then set_inactive row.model_id store.models else store.models;
  lifecycle = store.lifecycle ++ row ∷ [];
}

-- `write_ml_lifecycle_transition`, its checks in their order. A state is `none` for a text that
-- names no state.
pub record Transition : Type 0 where
  pub model_id : String
  pub to_state : Option State
  pub from_state : Option (Option State)
  pub reason : String
  pub evidence : Evidence
  pub activation_eligible : Bool

known : Option State → Result State
known none = err unknown_state
known (some state) = ok state

known_from : Option (Option State) → Result (Option State)
known_from none = ok none
known_from (some none) = err unknown_state
known_from (some (some state)) = ok (some state)

check_claim : Bool → Evidence → Result (Unit {0})
unfolding require_activation_gate_verdict
check_claim true evidence = require_activation_gate_verdict evidence
check_claim false evidence = ok tt

pub checked_row : Transition → Result Row
unfolding known known_from check_claim is_drift_state is_state
checked_row t = do
  to_state ← known t.to_state
  from_state ← known_from t.from_state
  refuse_if (t.reason == "") missing_reason
  refuse_if (t.activation_eligible && is_drift_state to_state) drift_claims_eligibility
  refuse_if (is_state to_state active && not t.activation_eligible) active_without_verdict
  check_claim t.activation_eligible t.evidence
  ok (record {
    model_id = t.model_id;
    from_state = from_state;
    to_state = to_state;
    reason = t.reason;
    evidence = t.evidence;
    activation_eligible = t.activation_eligible;
  })

pub write_transition : Transition → Store → Result Store
unfolding checked_row
write_transition t store = do row ← checked_row t; ok (append_row row store)

-- The last row that passes a test: `ORDER BY chain_seq DESC, id DESC LIMIT 1`.
pub latest : (Row → Bool) → List Row → Option Row
latest p [] = none
latest p (row ∷ rows) = elim (latest p rows) [
  | some later ↦ some later
  | none ↦ if p row then some row else none
]

-- `model_id = ? AND to_state != 'drift_assessed'`
abbrev pub is_stage_of : String → Row → Bool
is_stage_of id row = row.model_id == id && not (is_state row.to_state drift_assessed)

abbrev pub state_of : Option Row → Option State
state_of none = none
state_of (some row) = some row.to_state

-- `current_state` of ml/lifecycle.py, the state alone.
pub current_state : String → Store → Option State
unfolding latest is_state
current_state id store = state_of (latest (is_stage_of id) store.lifecycle)

is_eligible_state : Option State → Bool
unfolding is_state
is_eligible_state none = false
is_eligible_state (some state) = is_state state eligible

-- `UPDATE ml_models SET active = 0 WHERE active = 1`, then `SET active = 1 WHERE id = ?`
abbrev pub switched_to : String → Model → Model
switched_to id model = record model { active = model.id == id }

abbrev pub gate_evidence : ℕ → ℕ → Evidence
gate_evidence false_positives windows = record no_evidence {
  acceptance = some (normal_fpr_acceptance false_positives windows);
  false_positive_count = some false_positives;
  normal_window_count = some windows;
}

-- The transaction of `activate_ml_model`, once its checks have passed.
abbrev pub activated : String → ℕ → ℕ → Store → Store
activated id false_positives windows store = record store {
  models = map_models (switched_to id) store.models;
  lifecycle =
      store.lifecycle
      ++ record {
        model_id = id;
        from_state = some eligible;
        to_state = active;
        reason = "model activated after satisfying the activation gate";
        evidence = gate_evidence false_positives windows;
        activation_eligible = true;
      }
        ∷ [];
}

-- `activate_ml_model`
pub activate_ml_model : String → ℕ → ℕ → Store → Result Store
activate_ml_model id false_positives windows store = do
  refuse_if (not (normal_fpr_acceptance false_positives windows).activation_eligible) gate_refuses
  require_activation_gate_verdict (gate_evidence false_positives windows)
  refuse_if (not (any (has_id id) store.models)) unknown_model
  refuse_if (not (is_eligible_state (current_state id store))) not_eligible
  ok (activated id false_positives windows store)

pub data DriftStatus : Type 0 where
  no_drift_detected drift_detected insufficient_data : DriftStatus

known_status : Option DriftStatus → Result DriftStatus
known_status none = err unknown_status
known_status (some status) = ok status

-- `write_ml_drift_assessment`: the assessment and the row that names it. A status is `none` for a
-- text that names none; a `from_state` that names none fails the table's CHECK constraint.
pub write_drift_assessment :
    String → Option DriftStatus → Option (Option State) → Store → Result Store
unfolding append_row known_from known_status
write_drift_assessment id status from_state store = do
  known_status status
  from ← known_from from_state
  ok (
      append_row
        (record {
          model_id = id;
          from_state = from;
          to_state = drift_assessed;
          reason = "drift assessment recorded";
          evidence = record no_evidence { assessment = some (suc store.assessments) };
          activation_eligible = false;
        })
        (record store { assessments = suc store.assessments }))
