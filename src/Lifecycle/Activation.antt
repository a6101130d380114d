-- ===== src/Lifecycle/Activation.antt =====
-- When `activate_ml_model` of storage/sqlite_store.py acts, and what stands in its way.
use Prim.Native.String.{String}
use linux_xai_security_assis.Base.{
  ℕ, ◌-◌, ◌*◌, ◌≤◌, ◌≡◌, ◌↔◌, refl, ap, sym, ◌∙◌, Bool, true, false, not, Option, none, some, List,
  [], ◌∷◌, ◌++◌, map, arith, any, decided_of_holds, holds_of_decided, Bool-cases, Option-cases, inl,
  inr,
}
use mathlib.Core.List.{Memᴰ}
use text.Mathlib.Text.{◌==◌}
use text.Mathlib.TextEquality.{eq_iff}
use linux_xai_security_assis.Gate.Binding.{normal_fpr_acceptance_iff}
use linux_xai_security_assis.Gate.{Acceptance, normal_fpr_acceptance}
use linux_xai_security_assis.Lifecycle.{
  State, State-discrete, active, drift_assessed, Row, Model, latest, is_stage_of, map_models,
  switched_to, eligible, gate_evidence, Store, ok, has_id, is_state, is_eligible_state,
  current_state, activated, gate_refuses, unknown_model, not_eligible, Acceptance-discrete,
  same_acceptance, require_counts, require_verdict, require_activation_gate_verdict,
  activate_ml_model,
}
use linux_xai_security_assis.Lifecycle.Log.{refuse_if-ok}

same_acceptance_refl : (a : Acceptance) → same_acceptance a a ≡ true
unfolding same_acceptance
same_acceptance_refl a = decided_of_holds (Acceptance-discrete a a) refl

-- The evidence that `activate_ml_model` builds is_taken the check of every eligibility claim.
gate_evidence_passes :
    (k n : ℕ)
    → (normal_fpr_acceptance k n).activation_eligible ≡ true
    → require_activation_gate_verdict (gate_evidence k n) ≡ ok tt
unfolding require_activation_gate_verdict require_verdict require_counts
gate_evidence_passes k n h = simp (h, same_acceptance_refl (normal_fpr_acceptance k n))

is_eligible_state→eq : (o : Option State) → is_eligible_state o ≡ true → o ≡ some eligible
unfolding is_eligible_state is_state
is_eligible_state→eq none h = cc
is_eligible_state→eq (some s) h = ap some (holds_of_decided (State-discrete s eligible) h)

is_eligible_state_of_eq : (o : Option State) → o ≡ some eligible → is_eligible_state o ≡ true
unfolding is_eligible_state is_state
is_eligible_state_of_eq o e = rw e refl

-- The last row that is_taken a test, and none after it does.
record IsLast (p : Row → Bool) (rows : List Row) (row : Row) : Type 0 where
  before : List Row
  after : List Row
  split : rows ≡ before ++ row ∷ after
  is_taken : p row ≡ true
  later : (r : Row) → Memᴰ r after → p r ≡ false

latest_none :
    (p : Row → Bool) (rows : List Row)
    → latest p rows ≡ none
    → (r : Row) → Memᴰ r rows
    → p r ≡ false
unfolding latest
latest_none p [] h r m = elim m [ ]
latest_none p (row ∷ rows) h r m = elim (Option-cases (latest p rows)) [
  | inr (later, e) ↦ cc (rw e at h)
  | inl nothing ↦ elim (Bool-cases (p row)) [
    | inl is_taken ↦ cc (rw (nothing, is_taken) at h)
    | inr fails ↦ elim m [
      | Memᴰ.head e ↦ ap p e ∙ fails
      | Memᴰ.tail m' ↦ latest_none p rows nothing r m'
    ]
  ]
]

latest-IsLast :
    (p : Row → Bool) (rows : List Row) (row : Row) → latest p rows ≡ some row → IsLast p rows row
unfolding latest
latest-IsLast p [] row h = absurd (cc h)
latest-IsLast p (first ∷ rows) row h = elim (Option-cases (latest p rows)) [
  | inr (later, e) ↦
      let same : later ≡ row = cc (rw e at h) in
      let last = latest-IsLast p rows row (e ∙ ap some same) in
      record {
        before = first ∷ last.before;
        after = last.after;
        split = ap (λ (rest : List Row). first ∷ rest) last.split;
        is_taken = last.is_taken;
        later = last.later;
      }
  | inl nothing ↦ elim (Bool-cases (p first)) [
    | inr fails ↦ cc (rw (nothing, fails) at h)
    | inl is_taken ↦
        let same : first ≡ row = cc (rw (nothing, is_taken) at h) in
        record {
          before = [];
          after = rows;
          split = ap (λ (r : Row). r ∷ rows) same;
          is_taken = sym (ap p same) ∙ is_taken;
          later = latest_none p rows nothing;
        }
  ]
]

latest-nothing :
    (p : Row → Bool) (rows : List Row)
    → ((r : Row) → Memᴰ r rows → p r ≡ false)
    → latest p rows ≡ none
unfolding latest
latest-nothing p [] h = refl
latest-nothing p (row ∷ rows) h =
    rw (latest-nothing p rows (λ r m. h r (Memᴰ.tail m)), h row (Memᴰ.head refl)) refl

latest-of_split :
    (p : Row → Bool) (before after : List Row) (row : Row)
    → p row ≡ true
    → ((r : Row) → Memᴰ r after → p r ≡ false)
    → latest p (before ++ row ∷ after) ≡ some row
unfolding latest
latest-of_split p [] after row is_taken h = rw (latest-nothing p after h, is_taken) refl
latest-of_split p (first ∷ before) after row is_taken h =
    rw (latest-of_split p before after row is_taken h) refl

-- The log has a row of the model with the state, and after it none of the model but of drift
-- assessments.
pub record LastStage (id : String) (state : State) (rows : List Row) : Type 0 where
  pub row : Row
  pub before : List Row
  pub after : List Row
  pub split : rows ≡ before ++ row ∷ after
  pub own : row.model_id ≡ id
  pub says : row.to_state ≡ state
  pub later : (r : Row) → Memᴰ r after → r.model_id ≡ id → r.to_state ≡ drift_assessed

stage_test :
    (id : String) (r : Row)
    → r.model_id ≡ id
    → is_stage_of id r ≡ false
    → r.to_state ≡ drift_assessed
unfolding is_state
stage_test id r own h =
    holds_of_decided (State-discrete r.to_state drift_assessed)
      (ground (arith, (eq_iff r.model_id id).1 own, h))

not_stage :
    (id : String) (r : Row)
    → (r.model_id ≡ id → r.to_state ≡ drift_assessed)
    → is_stage_of id r ≡ false
unfolding is_state
not_stage id r h = elim (Bool-cases (r.model_id == id)) [
  | inr other ↦ rw other refl
  | inl own ↦
      let drift =
        decided_of_holds (State-discrete r.to_state drift_assessed)
          (h ((eq_iff r.model_id id).0 own)) in
      rw (own, drift) refl
]

is_eligible_stage :
    (id : String) (r : Row) → r.model_id ≡ id → r.to_state ≡ eligible → is_stage_of id r ≡ true
unfolding is_state
is_eligible_stage id r own says = rw ((eq_iff r.model_id id).1 own, says) refl

current_state→LastStage :
    (id : String) (s : Store)
    → current_state id s ≡ some eligible
    → LastStage id eligible s.lifecycle
unfolding current_state
current_state→LastStage id s h = elim (Option-cases (latest (is_stage_of id) s.lifecycle)) [
  | inl nothing ↦ cc (rw nothing at h)
  | inr (row, e) ↦
      let last = latest-IsLast (is_stage_of id) s.lifecycle row e in
      record {
        row = row;
        before = last.before;
        after = last.after;
        split = last.split;
        own = (eq_iff row.model_id id).0 (ground (arith, last.is_taken));
        says = cc (rw e at h);
        later = λ r m own. stage_test id r own (last.later r m);
      }
]

LastStage→current_state :
    (id : String) (s : Store)
    → LastStage id eligible s.lifecycle
    → current_state id s ≡ some eligible
unfolding current_state
LastStage→current_state id s h =
    let found =
      latest-of_split (is_stage_of id) h.before h.after h.row
        (is_eligible_stage id h.row h.own h.says) (λ r m. not_stage id r (h.later r m)) in
    rw (h.split, found) (ap some h.says)

any_id→Memᴰ :
    (id : String) (models : List Model)
    → any (has_id id) models ≡ true
    → (m : Model) × Memᴰ m models × (m.id ≡ id)
unfolding has_id
any_id→Memᴰ id [] h = cc h
any_id→Memᴰ id (m ∷ models) h = elim (Bool-cases (m.id == id)) [
  | inl own ↦ (m, Memᴰ.head refl, (eq_iff m.id id).0 own)
  | inr other ↦
      let (found, there, own) = any_id→Memᴰ id models (rw other at h) in
      (found, Memᴰ.tail there, own)
]

Memᴰ→any_id :
    (id : String) (models : List Model) (m : Model)
    → Memᴰ m models
    → m.id ≡ id
    → any (has_id id) models ≡ true
unfolding has_id
Memᴰ→any_id id [] m there own = elim there [ ]
Memᴰ→any_id id (n ∷ models) m there own = elim there [
  | Memᴰ.head e ↦ rw ((eq_iff n.id id).1 (sym (ap (λ (x : Model). x.id) e) ∙ own)) refl
  | Memᴰ.tail there' ↦ ground (arith, Memᴰ→any_id id models m there' own)
]

module _ (id : String) (k n : ℕ) (s : Store) where
  -- What has to hold for an activation: the counts pass the gate, the model has a row, and its
  -- latest row in the log, drift assessments aside, says `eligible`.
  pub record MayActivate : Type 0 where
    pub enough : 60 ≤ n
    pub within : 20 * k ≤ n
    pub bounded : 19 * 2705544681316 * n ≤ 1000000000000 * ((n - 20 * k) * (n - 20 * k))
    pub known : (m : Model) × Memᴰ m s.models × (m.id ≡ id)
    pub stage : LastStage id eligible s.lifecycle

  -- The model alone is active, and the log ends with its activation and the counts.
  pub record IsActivated (t : Store) : Type 0 where
    pub models : t.models ≡ map (λ (m : Model). record m { active = m.id == id }) s.models
    pub logged :
        t.lifecycle
        ≡ s.lifecycle
          ++ record {
            model_id = id;
            from_state = some eligible;
            to_state = active;
            reason = "model activated after satisfying the activation gate";
            evidence = record {
              acceptance = some (normal_fpr_acceptance k n);
              false_positive_count = some k;
              normal_window_count = some n;
              assessment = none;
            };
            activation_eligible = true;
          }
            ∷ []
    pub same_assessments : t.assessments ≡ s.assessments

  switched :
      (models : List Model)
      → map_models (switched_to id) models
        ≡ map (λ (m : Model). record m { active = m.id == id }) models
  switched [] = refl
  switched (m ∷ models) =
      ap (λ (rest : List Model). (record m { active = m.id == id }) ∷ rest) (switched models)

  activated-IsActivated : (t : Store) → t ≡ activated id k n s → IsActivated t
  activated-IsActivated t e = record {
    models = ap (λ (x : Store). x.models) e ∙ switched s.models;
    logged = ap (λ (x : Store). x.lifecycle) e;
    same_assessments = ap (λ (x : Store). x.assessments) e;
  }

  IsActivated→activated : (t : Store) → IsActivated t → t ≡ activated id k n s
  IsActivated→activated t h = λ i. record {
    models = (h.models ∙ sym (switched s.models)) i;
    lifecycle = h.logged i;
    assessments = h.same_assessments i;
  }

  -- An activation goes through, and leaves a store, exactly if there are at least 60 windows whose
  -- false positives pass the gate, the model has a row, and its latest row in the log, drift
  -- assessments aside, says `eligible`; and the store is the one before with this model alone active
  -- and its activation logged.
  pub activate_ml_model_iff :
      (t : Store) → (activate_ml_model id k n s ≡ ok t) ↔ (MayActivate × IsActivated t)
  unfolding activate_ml_model
  activate_ml_model_iff t = (forth, back)
    where
      forth : activate_ml_model id k n s ≡ ok t → MayActivate × IsActivated t
      forth h =
          let (granted, h1) =
            refuse_if-ok (not (normal_fpr_acceptance k n).activation_eligible) gate_refuses _ h in
          let grants : (normal_fpr_acceptance k n).activation_eligible ≡ true = ground arith in
          let h2 = rw (gate_evidence_passes k n grants) at h1 in
          let (present, h3) = refuse_if-ok (not (any (has_id id) s.models)) unknown_model _ h2 in
          let (stage, h4) =
            refuse_if-ok (not (is_eligible_state (current_state id s))) not_eligible _ h3 in
          let (enough, within, bounded) = (normal_fpr_acceptance_iff k n).0 grants in
          (
            record {
              enough = enough;
              within = within;
              bounded = bounded;
              known = any_id→Memᴰ id s.models (ground arith);
              stage =
                  current_state→LastStage id s
                    (is_eligible_state→eq (current_state id s) (ground arith));
            },
            activated-IsActivated t (cc h4),
          )

      back : MayActivate × IsActivated t → activate_ml_model id k n s ≡ ok t
      back (m, e) =
          let granted = (normal_fpr_acceptance_iff k n).1 (m.enough, m.within, m.bounded) in
          let (model, there, own) = m.known in
          simp (
            granted,
            gate_evidence_passes k n granted,
            Memᴰ→any_id id s.models model there own,
            is_eligible_state_of_eq (current_state id s) (LastStage→current_state id s m.stage),
            IsActivated→activated t e,
          )

  -- The same, in the words of the code.
  pub activate_ml_model-ok :
      (t : Store)
      → activate_ml_model id k n s ≡ ok t
      → ((normal_fpr_acceptance k n).activation_eligible ≡ true)
        × (current_state id s ≡ some eligible)
        × (t ≡ activated id k n s)
  activate_ml_model-ok t h =
      let (m, e) = (activate_ml_model_iff t).0 h in
      (
        (normal_fpr_acceptance_iff k n).1 (m.enough, m.within, m.bounded),
        LastStage→current_state id s m.stage,
        IsActivated→activated t e,
      )
