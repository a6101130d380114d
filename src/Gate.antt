-- ===== src/Gate.antt =====
-- The activation gate of ml/evaluation.py, `normal_fpr_acceptance`, over natural counts. The Wilson
-- bound is a real number with a square root; it is named by the counts that it is computed from,
-- and compared with the 5% budget exactly: with z² = `z_squared` / `scale` the comparison
-- `centre + radius > 1 / 20` is multiplied out and squared.
pub mod Binding
use linux_xai_security_assis.Base.{
  ℕ, ◌+◌, ◌-◌, ◌*◌, ◌^◌, Bool, true, false, not, ◌&&◌, Option, none, some, List, [], ◌∷◌, ◌++◌, ltb,
  leb, ◌==◌, if◌then◌else◌,
}

-- MAX_NORMAL_FPR is 1 / 20.
abbrev pub budget_inverse : ℕ
budget_inverse = 20

abbrev pub min_normal_holdout_windows : ℕ
min_normal_holdout_windows = 60

-- z = 1.644854
abbrev pub scale : ℕ
scale = 1000000000000

abbrev pub z_squared : ℕ
z_squared = 2705544681316

-- The bound that `_wilson_upper_bound` computes of these counts.
pub record Bound : Type 0 where
  pub successes : ℕ
  pub observations : ℕ

unfoldable pub bound_of : ℕ → ℕ → Option Bound
bound_of successes observations =
    if observations == 0
    then none
    else some (record { successes = successes; observations = observations })

-- Whether the number that `_wilson_upper_bound` computes is at most 1 / 20: what is left of the budget
-- after the centre, against the radius, both times 20 · n · (1 + z² / n).
unfoldable pub within_budget : Bound → Bool
within_budget bound =
    let k = bound.successes in
    let n = bound.observations in
    let spent = 20 * scale * k + 9 * z_squared in
    let left = scale * n - spent in
    leb spent (scale * n)
    && leb (400 * z_squared * scale * (k * (n - k)) + 100 * z_squared * z_squared * n)
        (n * (left * left))

pub data Reason : Type 0 where
  too_few_windows fpr_over_budget bound_over_budget : Reason

pub record Acceptance : Type 0 where
  pub activation_eligible : Bool
  pub max_normal_fpr_inverse : ℕ
  pub minimum_normal_holdout_windows : ℕ
  pub normal_fpr_upper_95 : Option Bound
  pub reasons : List Reason

-- `reasons.append(reason)` under a test
abbrev reason_if : Bool → Reason → List Reason
reason_if b reason = if b then reason ∷ [] else []

abbrev is_empty : List Reason → Bool
is_empty [] = true
is_empty (r ∷ rs) = false

-- `fpr is None or fpr > MAX_NORMAL_FPR`
abbrev pub fpr_exceeds : ℕ → ℕ → Bool
fpr_exceeds false_positives normal_windows =
    if normal_windows == 0 then true else ltb normal_windows (budget_inverse * false_positives)

abbrev pub bound_exceeds : Option Bound → Bool
bound_exceeds none = true
bound_exceeds (some bound) = not (within_budget bound)

unfoldable pub normal_fpr_acceptance : ℕ → ℕ → Acceptance
unfolding bound_of
normal_fpr_acceptance false_positives normal_windows =
    let upper_bound = bound_of false_positives normal_windows in
    let reasons =
      reason_if (ltb normal_windows min_normal_holdout_windows) too_few_windows
      ++ (reason_if (fpr_exceeds false_positives normal_windows) fpr_over_budget
          ++ reason_if (bound_exceeds upper_bound) bound_over_budget) in
    record {
      activation_eligible = is_empty reasons;
      max_normal_fpr_inverse = budget_inverse;
      minimum_normal_holdout_windows = min_normal_holdout_windows;
      normal_fpr_upper_95 = upper_bound;
      reasons = reasons;
    }
