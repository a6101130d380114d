-- ===== src/Gate/Binding.antt =====
-- Which conditions of the gate of ml/evaluation.py decide.
use native.Mathlib.Nat.{mul-le-mul_right, le_of_mul-le-mul_right}
use linux_xai_security_assis.Base.{
  ℕ, zero, suc, ◌+◌, ◌-◌, ◌*◌, ◌≤◌, ◌<◌, ◌≡◌, ◌↔◌, ap, sym, true, arith,
}
use linux_xai_security_assis.Gate.{within_budget, normal_fpr_acceptance, scale, z_squared}

-- A bound within the budget leaves room for the observed rate.
within_budget-fpr :
    (k n : ℕ) → within_budget (record { successes = k; observations = n }) ≡ true → 20 * k < n
unfolding within_budget
within_budget-fpr k n h = ground arith

-- The comparison of the bound, squared, against the test of the rate 1 / 20 at the same z: what
-- each side lacks of the other.
squared :
    (k d left : ℕ)
    → scale * d ≡ left + 9 * z_squared
    → (20 * k + d) * (left * left)
        + 19 * z_squared * (20 * k + d) * (scale * (20 * k + d) + z_squared)
      ≡ 400 * z_squared * scale * (k * (19 * k + d))
        + 100 * z_squared * z_squared * (20 * k + d)
        + scale * (d * d) * (scale * (20 * k + d) + z_squared)
squared k d left e =
    let twice : (scale * d) * (scale * d) * (20 * k + d)
        ≡ (left + 9 * z_squared) * (left + 9 * z_squared) * (20 * k + d) =
      ap (λ (m : ℕ). m * m * (20 * k + d)) e in
    let once : (scale * d) * (20 * k + d) ≡ (left + 9 * z_squared) * (20 * k + d) =
      ap (λ (m : ℕ). m * (20 * k + d)) e in
    omega (arith, twice, once)

-- The comparison for other names of its numbers.
moved :
    (n m n' m' square k : ℕ)
    → n ≡ n'
    → m ≡ m'
    → 400 * z_squared * scale * (k * m) + 100 * z_squared * z_squared * n ≤ n * square
    → 400 * z_squared * scale * (k * m') + 100 * z_squared * z_squared * n' ≤ n' * square
moved n m n' m' square k e f h = (rw (e, f) at h)

abbrev FitsTest : ℕ → ℕ → Type 0
FitsTest k n = (20 * k ≤ n) × (19 * z_squared * n ≤ scale * ((n - 20 * k) * (n - 20 * k)))

within_budget→FitsTest :
    (k n : ℕ) → within_budget (record { successes = k; observations = n }) ≡ true → FitsTest k n
unfolding within_budget
within_budget→FitsTest k n h =
    let below = within_budget-fpr k n h in
    let d = n - 20 * k in
    let left = scale * n - (20 * scale * k + 9 * z_squared) in
    let parts : n ≡ 20 * k + d = omega (arith, below) in
    let rest : n - k ≡ 19 * k + d = omega (arith, below) in
    let fits : 20 * scale * k + 9 * z_squared ≤ scale * n = ground (arith, h) in
    let e : scale * d ≡ left + 9 * z_squared = omega (arith, fits, below) in
    let test : 400 * z_squared * scale * (k * (n - k)) + 100 * z_squared * z_squared * n
        ≤ n * (left * left) =
      ground (arith, h) in
    let test' : 400 * z_squared * scale * (k * (19 * k + d))
          + 100 * z_squared * z_squared * (20 * k + d)
        ≤ (20 * k + d) * (left * left) =
      moved n (n - k) (20 * k + d) (19 * k + d) (left * left) k parts rest test in
    let scaled : 19 * z_squared * (20 * k + d) * (scale * (20 * k + d) + z_squared)
        ≤ scale * (d * d) * (scale * (20 * k + d) + z_squared) =
      omega (arith, squared k d left e, test') in
    let positive : zero < scale * (20 * k + d) + z_squared = omega arith in
    let bare : 19 * z_squared * (20 * k + d) ≤ scale * (d * d) =
      le_of_mul-le-mul_right scaled positive in
    (omega (arith, below), omega (arith, bare, parts))

distance-positive : (n d : ℕ) → 1 ≤ n → 19 * z_squared * n ≤ scale * (d * d) → zero < d
distance-positive n zero h far = absurd (omega (arith, h, far))
distance-positive n (suc d) h far = omega arith

FitsTest→within_budget :
    (k n : ℕ)
    → 1 ≤ n
    → FitsTest k n
    → within_budget (record { successes = k; observations = n }) ≡ true
unfolding within_budget
FitsTest→within_budget k n some_window (below, far) =
    let d = n - 20 * k in
    let left = scale * n - (20 * scale * k + 9 * z_squared) in
    let parts : n ≡ 20 * k + d = omega (arith, below) in
    let rest : n - k ≡ 19 * k + d = omega (arith, below) in
    let positive = distance-positive n d some_window far in
    let room : 19 * z_squared * d ≤ (scale * d) * d = omega (arith, far, parts) in
    let away : 19 * z_squared ≤ scale * d = le_of_mul-le-mul_right room positive in
    let e : scale * d ≡ left + 9 * z_squared = omega (arith, away, below) in
    let bare : 19 * z_squared * (20 * k + d) ≤ scale * (d * d) = omega (arith, far, parts) in
    let scaled : 19 * z_squared * (20 * k + d) * (scale * (20 * k + d) + z_squared)
        ≤ scale * (d * d) * (scale * (20 * k + d) + z_squared) =
      mul-le-mul_right (scale * (20 * k + d) + z_squared) bare in
    let test' : 400 * z_squared * scale * (k * (19 * k + d))
          + 100 * z_squared * z_squared * (20 * k + d)
        ≤ (20 * k + d) * (left * left) =
      omega (arith, squared k d left e, scaled) in
    let test : 400 * z_squared * scale * (k * (n - k)) + 100 * z_squared * z_squared * n
        ≤ n * (left * left) =
      moved (20 * k + d) (19 * k + d) n (n - k) (left * left) k (sym parts) (sym rest) test' in
    let spent : 20 * scale * k + 9 * z_squared ≤ scale * n = omega (arith, away, below) in
    ground (arith, test, spent)

-- The gate grants eligibility exactly if there are at least 60 windows, the observed rate is at most
-- 1 / 20, and it is so far below that the test of the rate 1 / 20 at z = 1.644854 rejects it: with
-- n windows and k false positives, (n - 20 k)² is at least 19 z² n. That is where the one-sided
-- Wilson bound is at most 1 / 20.
pub normal_fpr_acceptance_iff :
    (k n : ℕ)
    → ((normal_fpr_acceptance k n).activation_eligible ≡ true) ↔ (
        (60 ≤ n)
        × (20 * k ≤ n)
        × (19 * 2705544681316 * n ≤ 1000000000000 * ((n - 20 * k) * (n - 20 * k))))
unfolding normal_fpr_acceptance
normal_fpr_acceptance_iff k n = (
  (λ h.
      let enough : 60 ≤ n = ground (arith, h) in
      let fits : within_budget (record { successes = k; observations = n }) ≡ true =
        ground (arith, h) in
      let (near, far) = within_budget→FitsTest k n fits in (enough, near, far)),
  λ (enough, near, far).
      let fits = FitsTest→within_budget k n (omega (arith, enough)) (near, far) in
      ground (arith, enough, fits, within_budget-fpr k n fits),
)
