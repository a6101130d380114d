-- ===== src/Lifecycle/Standing.antt =====
-- The flag `ml_models.active` against the log, over every sequence of the store's writers
-- (storage/sqlite_store.py).
use Prim.Native.String.{String}
use text.Mathlib.Text.{◌==◌}
use text.Mathlib.TextEquality.{eq_iff}
use linux_xai_security_assis.Base.{
  ℕ, ◌≡◌, ◌≢◌, refl, sym, subst, ◌∙◌, Bool, true, false, ◌&&◌, ◌||◌, Option, none, some, List, [],
  ◌∷◌, ◌++◌, arith, All, All-append, Bool-cases, inl, inr, if-both, holds_of_decided, false≢true,
  ◌⊎◌, any, if◌then◌else◌,
}
use linux_xai_security_assis.Gate.{normal_fpr_acceptance}
use linux_xai_security_assis.Lifecycle.{
  State, State-discrete, active, eligible, gate_evidence, Row, Model, Store, Result, Error, ok, err,
  active_insert, duplicate_model, has_id, drift_assessed, is_drift_state, activated, Transition,
  is_state, stands_down, latest, set_inactive, switched_to, map_models, append_row, checked_row,
  write_ml_model, write_transition, deactivate_ml_model,
}
use linux_xai_security_assis.Lifecycle.Log.{
  IsHonest, checked_row-IsHonest, refuse_if-ok, latest-append,
}

-- The rows that say whether a model is in service.
abbrev pub says_standing : String → Row → Bool
says_standing id row =
    row.model_id == id && (is_state row.to_state active || stands_down row.to_state)

abbrev pub OnlyActive : Option String → List Model → Type 0
OnlyActive o models = All (λ (m : Model). m.active ≡ true → o ≡ some m.id) models

abbrev pub InService : Option String → List Row → Type 0
InService none rows = Unit
InService (some id) rows =
    (row : Row) × (latest (says_standing id) rows ≡ some row) × (row.to_state ≡ active)

-- At most one model is active, and the log's last word on it is an activation.
pub record IsSound (s : Store) : Type 0 where
  pub serving : Option String
  pub only : OnlyActive serving s.models
  pub in_service : InService serving s.lifecycle
  pub honest : All IsHonest s.lifecycle

OnlyActive-stood_down_other :
    (o : Option String) (id : String) (models : List Model)
    → OnlyActive o models
    → OnlyActive o (set_inactive id models)
unfolding set_inactive
OnlyActive-stood_down_other o id [] h = tt
OnlyActive-stood_down_other o id (m ∷ models) h =
    (ground arith, OnlyActive-stood_down_other o id models h.1)

OnlyActive-stood_down :
    (id : String) (models : List Model)
    → OnlyActive (some id) models
    → OnlyActive none (set_inactive id models)
unfolding set_inactive
OnlyActive-stood_down id [] h = tt
OnlyActive-stood_down id (m ∷ models) h =
    (ground (arith, eq_iff m.id id), OnlyActive-stood_down id models h.1)

OnlyActive-switched_to :
    (id : String) (models : List Model) → OnlyActive (some id) (map_models (switched_to id) models)
OnlyActive-switched_to id [] = tt
OnlyActive-switched_to id (m ∷ models) =
    (ground (arith, eq_iff m.id id), OnlyActive-switched_to id models)

is_state→eq : (a b : State) → is_state a b ≡ true → a ≡ b
unfolding is_state
is_state→eq a b h = holds_of_decided (State-discrete a b) h

active_does_not_stand_down : stands_down active ≡ false
unfolding stands_down
active_does_not_stand_down = refl

append_row-keeps :
    (row : Row) (o : Option String) (models : List Model)
    → OnlyActive o models
    → OnlyActive o (if stands_down row.to_state then set_inactive row.model_id models else models)
append_row-keeps row o models h =
    if-both (λ ms. OnlyActive o ms) (stands_down row.to_state)
      (OnlyActive-stood_down_other o row.model_id models h) h

append_row-some :
    (row : Row) (id : String) (s : Store)
    → OnlyActive (some id) s.models
    → InService (some id) s.lifecycle
    → IsHonest row
    → All IsHonest s.lifecycle
    → IsSound (append_row row s)
unfolding append_row
append_row-some row id s only (last, found, standing) honest log =
    elim (Bool-cases (says_standing id row)) [
      | inr other ↦ record {
        serving = some id;
        only = append_row-keeps row (some id) s.models only;
        in_service =
            (last, latest-append (says_standing id) s.lifecycle row ∙ (rw other found), standing);
        honest = log';
      }
      | inl says ↦ elim (Bool-cases (stands_down row.to_state)) [
        | inl down ↦ record {
          serving = none;
          only =
              let same : row.model_id ≡ id = (eq_iff row.model_id id).0 (ground arith) in
              rw (down, same) (OnlyActive-stood_down id s.models only);
          in_service = tt;
          honest = log';
        }
        | inr up ↦ record {
          serving = some id;
          only = append_row-keeps row (some id) s.models only;
          in_service = (
            row,
            latest-append (says_standing id) s.lifecycle row ∙ (rw says refl),
            is_state→eq row.to_state active (ground arith),
          );
          honest = log';
        }
      ]
    ]
  where
    log' : All IsHonest (s.lifecycle ++ row ∷ [])
    log' = All-append IsHonest s.lifecycle (row ∷ []) log (honest, tt)

pub append_row-IsSound :
    (row : Row) (s : Store) → IsHonest row → IsSound s → IsSound (append_row row s)
append_row-IsSound row s honest sound = go sound.serving sound.only sound.in_service
  where
    go :
        (o : Option String)
        → OnlyActive o s.models
        → InService o s.lifecycle
        → IsSound (append_row row s)
    go none only standing =
        unfold append_row in
        record {
          serving = none;
          only = append_row-keeps row none s.models only;
          in_service = tt;
          honest = All-append IsHonest s.lifecycle (row ∷ []) sound.honest (honest, tt);
        }
    go (some id) only standing = append_row-some row id s only standing honest sound.honest

pub ok-injective {ℓ} : {A : Type ℓ} {a b : A} → ok a ≡ ok b → a ≡ b
ok-injective h = cc h

pub Result-cases {ℓ} :
    {A : Type ℓ} (r : Result A) → ((a : A) × (r ≡ ok a)) ⊎ ((e : Error) × (r ≡ err e))
Result-cases (ok a) = inl (a, refl)
Result-cases (err e) = inr (e, refl)

-- A new model's row is inactive, so it changes nothing here.
pub write_ml_model-IsSound :
    (model : Model) (s t : Store) → IsSound s → write_ml_model model s ≡ ok t → IsSound t
unfolding write_ml_model
write_ml_model-IsSound model s t sound h =
    let (inactive, h1) = refuse_if-ok model.active active_insert _ h in
    let (new, h2) = refuse_if-ok (any (has_id model.id) s.models) duplicate_model _ h1 in
    subst IsSound (ok-injective h2) (record {
      serving = sound.serving;
      only =
          All-append (λ (m : Model). m.active ≡ true → sound.serving ≡ some m.id) s.models
            (model ∷ []) sound.only (λ on. cc (on, inactive), tt);
      in_service = sound.in_service;
      honest = sound.honest;
    })

pub write_transition-IsSound :
    (x : Transition) (s t : Store) → IsSound s → write_transition x s ≡ ok t → IsSound t
unfolding write_transition
write_transition-IsSound x s t sound h = elim (Result-cases (checked_row x)) [
  | inl (row, accepted) ↦
      subst IsSound (ok-injective (rw accepted at h))
        (append_row-IsSound row s (checked_row-IsHonest x row accepted) sound)
  | inr (e, refused) ↦ cc (rw refused at h)
]

activation_row : String → ℕ → ℕ → Row
activation_row id k n = record {
  model_id = id;
  from_state = some eligible;
  to_state = active;
  reason = "model activated after satisfying the activation gate";
  evidence = gate_evidence k n;
  activation_eligible = true;
}

activation_row-IsHonest :
    (id : String) (k n : ℕ)
    → (normal_fpr_acceptance k n).activation_eligible ≡ true
    → IsHonest (activation_row id k n)
unfolding activation_row is_drift_state is_state
activation_row-IsHonest id k n granted = record {
  supported = λ c. record {
    false_positives = k;
    windows = n;
    counted = refl;
    observed = refl;
    recorded = refl;
    granted = granted;
  };
  activations = λ c. refl;
  observations = λ c. cc;
}

says_standing-activation_row :
    (id : String) (k n : ℕ) → says_standing id (activation_row id k n) ≡ true
unfolding activation_row is_state
says_standing-activation_row id k n = ground (arith, (eq_iff id id).1 refl)

pub activated-IsSound :
    (id : String) (k n : ℕ) (s : Store)
    → (normal_fpr_acceptance k n).activation_eligible ≡ true
    → IsSound s
    → IsSound (activated id k n s)
unfolding activation_row
activated-IsSound id k n s granted sound = record {
  serving = some id;
  only = OnlyActive-switched_to id s.models;
  in_service = (
    activation_row id k n,
    latest-append (says_standing id) s.lifecycle (activation_row id k n)
        ∙ (rw (says_standing-activation_row id k n) refl),
    refl,
  );
  honest =
      All-append IsHonest s.lifecycle (activation_row id k n ∷ []) sound.honest
        (activation_row-IsHonest id k n granted, tt);
}

pub deactivate_ml_model-IsSound :
    (id : String) (s : Store) → IsSound s → IsSound (deactivate_ml_model id s).0
unfolding deactivate_ml_model
deactivate_ml_model-IsSound id s sound = record {
  serving = sound.serving;
  only = OnlyActive-stood_down_other sound.serving id s.models sound.only;
  in_service = sound.in_service;
  honest = sound.honest;
}

drift_assessed≢active : drift_assessed ≢ active
drift_assessed≢active e = cc e

pub recounted :
    (s : Store) (assessments : ℕ) → IsSound s → IsSound (record s { assessments = assessments })
recounted s assessments sound = record {
  serving = sound.serving;
  only = sound.only;
  in_service = sound.in_service;
  honest = sound.honest;
}

pub assessment_row-IsHonest :
    (row : Row) → row.to_state ≡ drift_assessed → row.activation_eligible ≡ false → IsHonest row
unfolding is_drift_state is_state
assessment_row-IsHonest row to claim = record {
  supported = λ c. absurd (false≢true (sym claim ∙ c));
  activations = λ c. absurd (drift_assessed≢active (sym to ∙ c));
  observations = λ c. claim;
}
