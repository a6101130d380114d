-- ===== src/Lifecycle/Retirement.antt =====
-- What an accepted `retired` or `drifted` transition of storage/sqlite_store.py does to a model.
use Prim.Native.String.{String}
use text.Mathlib.Text.{◌==◌}
use text.Mathlib.TextEquality.{eq_iff}
use linux_xai_security_assis.Base.{
  ℕ, ◌≡◌, ◌≢◌, refl, ap, subst, ◌∙◌, true, false, some, List, [], ◌∷◌, arith, All, inl, inr,
}
use linux_xai_security_assis.Lifecycle.{
  State, trained, evaluated, ineligible, retraining_required, retired, drifted, eligible,
  drift_assessed, active, Row, Model, Store, ok, Transition, stands_down, is_state, is_stage_of,
  set_inactive, append_row, checked_row, known, current_state, write_transition, activate_ml_model,
}
use linux_xai_security_assis.Lifecycle.Log.{latest-append}
use linux_xai_security_assis.Lifecycle.Activation.{activate_ml_model-ok}
use linux_xai_security_assis.Lifecycle.Standing.{ok-injective, Result-cases}

-- No model with the id is flagged active.
abbrev pub IsOutOfService : String → Store → Type 0
IsOutOfService id s = All (λ (m : Model). (m.id == id) ≡ true → m.active ≡ false) s.models

set_inactive-IsOutOfService :
    (id : String) (models : List Model)
    → All (λ (m : Model). (m.id == id) ≡ true → m.active ≡ false) (set_inactive id models)
unfolding set_inactive
set_inactive-IsOutOfService id [] = tt
set_inactive-IsOutOfService id (m ∷ models) = (ground arith, set_inactive-IsOutOfService id models)

stands_down-is_stage :
    (state : State)
    → stands_down state ≡ true
    → (is_state state drift_assessed ≡ false) × (state ≢ eligible)
unfolding stands_down is_state
stands_down-is_stage retired h = (refl, λ e. cc e)
stands_down-is_stage drifted h = (refl, λ e. cc e)
stands_down-is_stage trained h = cc
stands_down-is_stage evaluated h = cc
stands_down-is_stage eligible h = cc
stands_down-is_stage ineligible h = cc
stands_down-is_stage active h = cc
stands_down-is_stage drift_assessed h = cc
stands_down-is_stage retraining_required h = cc

current_state-append_row :
    (row : Row) (s : Store)
    → is_state row.to_state drift_assessed ≡ false
    → current_state row.model_id (append_row row s) ≡ some row.to_state
unfolding current_state append_row
current_state-append_row row s h =
    let mine : is_stage_of row.model_id row ≡ true =
      ground (arith, (eq_iff row.model_id row.model_id).1 refl) in
    rw (latest-append (is_stage_of row.model_id) s.lifecycle row, mine) refl

checked_row-names :
    (x : Transition) (row : Row)
    → checked_row x ≡ ok row
    → (row.model_id ≡ x.model_id) × (x.to_state ≡ some row.to_state)
unfolding checked_row known
checked_row-names x row h = (ground arith, ground arith)

append_row-retires :
    (row : Row) (s : Store)
    → stands_down row.to_state ≡ true
    → IsOutOfService row.model_id (append_row row s)
unfolding append_row
append_row-retires row s h = rw h (set_inactive-IsOutOfService row.model_id s.models)

-- An accepted transition to `retired` or `drifted` leaves no model of that id flagged active, and
-- the model cannot be activated from there, whatever counts the gate is shown.
pub write_transition-retires :
    (x : Transition) (state : State) (s t : Store)
    → x.to_state ≡ some state
    → stands_down state ≡ true
    → write_transition x s ≡ ok t
    → IsOutOfService x.model_id t
      × ((k n : ℕ) (u : Store) → activate_ml_model x.model_id k n t ≢ ok u)
unfolding write_transition
write_transition-retires x state s t to down h = elim (Result-cases (checked_row x)) [
  | inr (e, refused) ↦ cc (rw refused at h)
  | inl (row, accepted) ↦
      let (mine, names) = checked_row-names x row accepted in
      let written : append_row row s ≡ t = ok-injective (rw accepted at h) in
      let same : row.to_state ≡ state = cc (names, to) in
      let goes : stands_down row.to_state ≡ true = ap stands_down same ∙ down in
      let (stage, other) = stands_down-is_stage row.to_state goes in
      subst
        (λ id. IsOutOfService id t × ((k n : ℕ) (u : Store) → activate_ml_model id k n t ≢ ok u))
        mine
        (subst
          (λ r.
            IsOutOfService row.model_id r
            × ((k n : ℕ) (u : Store) → activate_ml_model row.model_id k n r ≢ ok u))
          written
          (
            append_row-retires row s goes,
            λ k n u a.
                let (granted, eligible_now, same) =
                  activate_ml_model-ok row.model_id k n (append_row row s) u a in
                other (cc (eligible_now, current_state-append_row row s stage)),
          ))
]
