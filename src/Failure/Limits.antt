-- ===== src/Failure/Limits.antt =====
-- The limits of the conditions of a host, in detection/system_failure.py: which readings reach one,
-- and which are clear of it.
use linux_xai_security_assis.Base.{
  ℕ, ◌*◌, ◌≤◌, ◌<◌, ◌≡◌, refl, sym, ap, ◌∙◌, inl, inr, Bool, true, false, not, arith, leb, leb→le,
  ltb, ltb→lt, Bool-cases,
}
use native.Mathlib.Nat.{mul-le-mul_left, le_of_mul-le-mul_left}
use linux_xai_security_assis.Policy.{one}
use linux_xai_security_assis.Failure.{Settings, breach_high, breach_low}
use linux_xai_security_assis.Failure.Watched.{
  Watched, disk, memory_high, memory_medium, memory_available, cpu, breaches_of,
}

-- The limit of a condition: a share in percent, or the megabytes that are to be free.
abbrev pub limit_of : Settings → Watched → ℕ
limit_of s disk = s.failure_disk_full_pct
limit_of s memory_high = s.failure_memory_high_pct
limit_of s memory_medium = s.failure_memory_medium_pct
limit_of s memory_available = s.failure_memory_min_available_mb
limit_of s cpu = s.failure_cpu_high_pct

-- A reading at the limit or on the wrong side of it.
abbrev pub reaches : Settings → Watched → ℕ → Bool
reaches s memory_available v = leb v s.failure_memory_min_available_mb
reaches s x v = leb (limit_of s x) v

-- A reading below the limit times the clear ratio, or above the limit divided by it, where the
-- ratio counts parts of `one`.
abbrev pub clears : Settings → Watched → ℕ → Bool
clears s memory_available v =
    ltb (s.failure_memory_min_available_mb * one) (v * s.failure_clear_ratio)
clears s x v = ltb (v * one) (limit_of s x * s.failure_clear_ratio)

one-positive : 0 < one
unfolding one
one-positive = ltb→lt 0 one refl

not-leb : (a b : ℕ) → not (leb a b) ≡ ltb b a
not-leb a b = ground arith

leb_of : (a b c d : ℕ) → (a ≤ b → c ≤ d) → (c ≤ d → a ≤ b) → leb a b ≡ leb c d
leb_of a b c d f g = elim (Bool-cases (leb a b)) [
  | inl h ↦ ground (arith, f (leb→le a b h), h)
  | inr h ↦ elim (Bool-cases (leb c d)) [
    | inl k ↦ ground (arith, g (leb→le c d k), h)
    | inr k ↦ h ∙ sym k
  ]
]

leb-scaled : (k a b : ℕ) → 0 < k → leb (k * a) (k * b) ≡ leb a b
leb-scaled k a b h =
    leb_of (k * a) (k * b) a b (λ m. le_of_mul-le-mul_left m h) (λ m. mul-le-mul_left k m)

leb_floor : (v floor : ℕ) → leb (v * one) (floor * one) ≡ leb v floor
leb_floor v floor =
    let left : v * one ≡ one * v = omega arith in
    let right : floor * one ≡ one * floor = omega arith in
    rw (left, right) (leb-scaled one v floor one-positive)

leb_above :
    (v floor ratio : ℕ) → leb (v * one * ratio) (floor * one * one) ≡ leb (v * ratio) (floor * one)
leb_above v floor ratio =
    let left : v * one * ratio ≡ one * (v * ratio) = omega arith in
    let right : floor * one * one ≡ one * (floor * one) = omega arith in
    rw (left, right) (leb-scaled one (v * ratio) (floor * one) one-positive)

pub breaches-reaches :
    (s : Settings) (x : Watched) (v : ℕ) → breaches_of s x false v ≡ reaches s x v
unfolding breaches_of breach_high breach_low
breaches-reaches s disk v = refl
breaches-reaches s memory_high v = refl
breaches-reaches s memory_medium v = refl
breaches-reaches s memory_available v = leb_floor v s.failure_memory_min_available_mb
breaches-reaches s cpu v = refl

pub breaches-clears :
    (s : Settings) (x : Watched) (v : ℕ) → not (breaches_of s x true v) ≡ clears s x v
unfolding breaches_of breach_high breach_low
breaches-clears s disk v = not-leb _ _
breaches-clears s memory_high v = not-leb _ _
breaches-clears s memory_medium v = not-leb _ _
breaches-clears s memory_available v =
    ap not (leb_above v s.failure_memory_min_available_mb s.failure_clear_ratio)
    ∙ not-leb (v * s.failure_clear_ratio) (s.failure_memory_min_available_mb * one)
breaches-clears s cpu v = not-leb _ _
