-- ===== src/Lifecycle/Log.antt =====
-- What the rows of the lifecycle log of storage/sqlite_store.py can claim.
use linux_xai_security_assis.Base.{
  ℕ, ◌≡◌, refl, Bool, true, false, not, Option, none, some, List, [], ◌∷◌, ◌++◌, arith, All,
  if◌then◌else◌, holds_of_decided, Bool-cases, Option-cases, subst, ◌∙◌, inl, inr,
}
use linux_xai_security_assis.Gate.{Acceptance, normal_fpr_acceptance}
use linux_xai_security_assis.Lifecycle.{
  active, Evidence, Row, Transition, Result, Error, ok, refuse_if, ◌>>◌, is_drift_state,
  require_activation_gate_verdict, require_verdict, require_counts, refusing_verdict,
  same_acceptance, Acceptance-discrete, check_claim, checked_row, latest,
}

-- The counts that are recorded beside a verdict, and the gate's own verdict over them.
pub record IsSupported (e : Evidence) : Type 0 where
  pub false_positives : ℕ
  pub windows : ℕ
  pub counted : e.false_positive_count ≡ some false_positives
  pub observed : e.normal_window_count ≡ some windows
  pub recorded : e.acceptance ≡ some (normal_fpr_acceptance false_positives windows)
  pub granted : (normal_fpr_acceptance false_positives windows).activation_eligible ≡ true

pub record IsHonest (row : Row) : Type 0 where
  pub supported : row.activation_eligible ≡ true → IsSupported row.evidence
  pub activations : row.to_state ≡ active → row.activation_eligible ≡ true
  pub observations : is_drift_state row.to_state ≡ true → row.activation_eligible ≡ false

-- What an accepted check leaves: the refusal did not apply, and the rest was accepted.
pub refuse_if-ok {ℓ} :
    {A : Type ℓ} (b : Bool) (e : Error) (k : Result A) {a : A}
    → (refuse_if b e >> k) ≡ ok a
    → (b ≡ false) × (k ≡ ok a)
refuse_if-ok true e k h = cc
refuse_if-ok false e k h = (refl, h)

same_acceptance→eq : (a b : Acceptance) → same_acceptance a b ≡ true → a ≡ b
unfolding same_acceptance
same_acceptance→eq a b h = holds_of_decided (Acceptance-discrete a b) h

require_counts→IsSupported :
    (a : Acceptance) (e : Evidence) (f w : Option ℕ)
    → e.acceptance ≡ some a
    → e.false_positive_count ≡ f
    → e.normal_window_count ≡ w
    → a.activation_eligible ≡ true
    → require_counts a f w ≡ ok tt
    → IsSupported e
unfolding require_counts
require_counts→IsSupported a e none w r hf hw g h = cc
require_counts→IsSupported a e (some k) none r hf hw g h = cc
require_counts→IsSupported a e (some k) (some n) r hf hw g h =
    let same : normal_fpr_acceptance k n ≡ a =
      same_acceptance→eq (normal_fpr_acceptance k n) a (ground arith) in
    record {
      false_positives = k;
      windows = n;
      counted = hf;
      observed = hw;
      recorded = cc (r, same);
      granted = rw same g;
    }

require_verdict→IsSupported :
    (a : Option Acceptance) (e : Evidence)
    → e.acceptance ≡ a
    → require_verdict a e ≡ ok tt
    → IsSupported e
unfolding require_verdict
require_verdict→IsSupported none e r h = cc
require_verdict→IsSupported (some a) e r h =
    let (granted, counted) = refuse_if-ok (not a.activation_eligible) refusing_verdict _ h in
    require_counts→IsSupported a e e.false_positive_count e.normal_window_count r refl refl
      (ground arith) counted

check_claim→IsSupported :
    (claim : Bool) (e : Evidence) → check_claim claim e ≡ ok tt → claim ≡ true → IsSupported e
unfolding check_claim require_activation_gate_verdict
check_claim→IsSupported true e h c = require_verdict→IsSupported e.acceptance e refl h
check_claim→IsSupported false e h c = cc

-- A transition that the writer accepts gives a row whose claims hold.
pub checked_row-IsHonest : (t : Transition) (row : Row) → checked_row t ≡ ok row → IsHonest row
unfolding checked_row
checked_row-IsHonest t row h =
    let same : row.evidence ≡ t.evidence = ground arith in
    let checked : check_claim t.activation_eligible t.evidence ≡ ok tt = ground arith in
    record {
      supported = λ c.
          rw same (check_claim→IsSupported t.activation_eligible t.evidence checked (ground arith));
      activations = λ c. ground arith;
      observations = λ c. ground arith;
    }

-- The last row that passes a test passes it, and what holds of all rows holds of it.
pub latest-All {κ} :
    (P : Row → Type κ) (p : Row → Bool) (rows : List Row) {row : Row}
    → All P rows
    → latest p rows ≡ some row
    → P row × (p row ≡ true)
unfolding latest
latest-All P p [] h e = cc
latest-All P p (r ∷ rows) {row} h e = elim (Option-cases (latest p rows)) [
  | inl nothing ↦ elim (Bool-cases (p r)) [
    | inl passes ↦
        let same : r ≡ row = let e' : some r ≡ some row = (rw (nothing, passes) at e) in cc in
        subst (λ x. P x × (p x ≡ true)) same (h.0, passes)
    | inr fails ↦ absurd (let e' : none ≡ some row = (rw (nothing, fails) at e) in cc)
  ]
  | inr (later, found) ↦
      latest-All P p rows h.1 (let e' : some later ≡ some row = (rw found at e) in found ∙ e')
]

-- One more row is the last that passes, if it passes.
pub latest-append :
    (p : Row → Bool) (rows : List Row) (row : Row)
    → latest p (rows ++ row ∷ []) ≡ (if p row then some row else latest p rows)
unfolding latest
latest-append p [] row = ground arith
latest-append p (r ∷ rows) row = ground (arith, latest-append p rows row)
