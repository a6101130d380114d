-- ===== src/Lifecycle/Reachable.antt =====
-- What every sequence of the writers of storage/sqlite_store.py leaves in the two model tables.
use Prim.Native.String.{String}
use mathlib.Core.List.{Memᴰ}
use linux_xai_security_assis.Base.{
  ℕ, ◌≡◌, refl, sym, subst, true, Option, none, some, List, [], ◌∷◌, All,
}
use linux_xai_security_assis.Lifecycle.{
  State, active, Row, Model, Store, empty, ok, Transition, DriftStatus, latest, write_ml_model,
  write_transition, activate_ml_model, deactivate_ml_model, write_drift_assessment, known_status,
  known_from,
}
use linux_xai_security_assis.Lifecycle.Log.{IsHonest, IsSupported, latest-All}
use linux_xai_security_assis.Lifecycle.Activation.{activate_ml_model-ok}
use linux_xai_security_assis.Lifecycle.Standing.{
  IsSound, InService, says_standing, append_row-IsSound, write_ml_model-IsSound,
  write_transition-IsSound, activated-IsSound, deactivate_ml_model-IsSound, assessment_row-IsHonest,
  ok-injective, recounted,
}

-- Every writer of the two tables, at any arguments that it accepts.
pub data Step (s : Store) (t : Store) : Type 0 where
  insert : (model : Model) → write_ml_model model s ≡ ok t → Step s t
  transition : (x : Transition) → write_transition x s ≡ ok t → Step s t
  activate : (id : String) (k n : ℕ) → activate_ml_model id k n s ≡ ok t → Step s t
  deactivate : (id : String) → (deactivate_ml_model id s).0 ≡ t → Step s t
  assess :
      (id : String) (status : Option DriftStatus) (from : Option (Option State))
      → write_drift_assessment id status from s ≡ ok t
      → Step s t

-- The stores that some sequence of writes to an empty store leads to.
pub data Reach : Store → Type 0 where
  here : Reach empty
  next : {s t : Store} → Reach s → Step s t → Reach t

write_drift_assessment-IsSound :
    (id : String) (status : Option DriftStatus) (from : Option (Option State)) (s t : Store)
    → IsSound s
    → write_drift_assessment id status from s ≡ ok t
    → IsSound t
unfolding write_drift_assessment known_status known_from
write_drift_assessment-IsSound id none from s t sound h = cc
write_drift_assessment-IsSound id (some status) (some none) s t sound h = cc
write_drift_assessment-IsSound id (some status) none s t sound h =
    subst IsSound (ok-injective h)
      (append_row-IsSound _ _ (assessment_row-IsHonest _ refl refl) (recounted s _ sound))
write_drift_assessment-IsSound id (some status) (some (some state)) s t sound h =
    subst IsSound (ok-injective h)
      (append_row-IsSound _ _ (assessment_row-IsHonest _ refl refl) (recounted s _ sound))

Step-IsSound : {s t : Store} → Step s t → IsSound s → IsSound t
Step-IsSound {s} {t} (insert model h) sound = write_ml_model-IsSound model s t sound h
Step-IsSound {s} {t} (transition x h) sound = write_transition-IsSound x s t sound h
Step-IsSound {s} {t} (activate id k n h) sound =
    let (granted, stage, same) = activate_ml_model-ok id k n s t h in
    subst IsSound (sym same) (activated-IsSound id k n s granted sound)
Step-IsSound {s} {t} (deactivate id h) sound =
    subst IsSound h (deactivate_ml_model-IsSound id s sound)
Step-IsSound {s} {t} (assess id status from h) sound =
    write_drift_assessment-IsSound id status from s t sound h

Reach-IsSound : {s : Store} → Reach s → IsSound s
Reach-IsSound here = record { serving = none; only = tt; in_service = tt; honest = tt }
Reach-IsSound (next r step) = Step-IsSound step (Reach-IsSound r)

All-at {ℓ κ} : {A : Type ℓ} (P : A → Type κ) (xs : List A) {a : A} → All P xs → Memᴰ a xs → P a
All-at P [] h m = elim m [ ]
All-at P (x ∷ xs) h (Memᴰ.head e) = subst P (sym e) h.0
All-at P (x ∷ xs) h (Memᴰ.tail m) = All-at P xs h.1 m

-- The record of an activation that nothing has ended.
pub record IsVouched (id : String) (rows : List Row) : Type 0 where
  pub row : Row
  pub found : latest (says_standing id) rows ≡ some row
  pub activation : row.to_state ≡ active
  pub evidence : IsSupported row.evidence

InService-IsVouched :
    (o : Option String) (id : String) (rows : List Row)
    → InService o rows
    → All IsHonest rows
    → o ≡ some id
    → IsVouched id rows
InService-IsVouched none id rows h honest e = cc
InService-IsVouched (some other) id rows (row, found, standing) honest e =
    let same : other ≡ id = cc e in
    let facts = (latest-All IsHonest (says_standing other) rows honest found).0 in
    record {
      row = row;
      found = rw same at found;
      activation = standing;
      evidence = facts.supported (facts.activations standing);
    }

-- In every store that the writers can reach, two models that are flagged active have the same
-- id, and the last row on an active model's standing is an activation, none of its retirements or
-- drift verdicts, with counts beside it for which the gate grants eligibility.
pub Reach-IsVouched :
    {s : Store}
    → Reach s
    → (m n : Model) → Memᴰ m s.models
    → Memᴰ n s.models
    → m.active ≡ true
    → n.active ≡ true
    → (m.id ≡ n.id) × IsVouched m.id s.lifecycle
Reach-IsVouched {s} r m n hm hn am an =
    let sound = Reach-IsSound r in
    let em : sound.serving ≡ some m.id = All-at _ s.models sound.only hm am in
    let en : sound.serving ≡ some n.id = All-at _ s.models sound.only hn an in
    (
      cc (em, en),
      InService-IsVouched sound.serving m.id s.lifecycle sound.in_service sound.honest em,
    )
