-- ===== src/Failure/Safe.antt =====
-- Scoring in detection/system_failure.py does not raise where SQLite refuses no write: the store
-- accepts every finding it builds.
use linux_xai_security_assis.Base.{
  ℕ, ◌≡◌, ◌≢◌, refl, sym, ap, ◌∙◌, inl, inr, Bool, true, false, some, List, [], ◌∷◌, length, All,
  arith, Bool-cases,
}
use linux_xai_security_assis.Chain.Json.{dumps_object}
use linux_xai_security_assis.Chain.Writer.{IsHexDigest}
use linux_xai_security_assis.Policy.{one, ticks}
use linux_xai_security_assis.Policy.Evaluate.{in_unit}
use linux_xai_security_assis.Findings.{hash_of, scores_in_range}
use linux_xai_security_assis.Findings.Again.{hash_of-cases, write-Wrote}
use linux_xai_security_assis.Failure.{
  Settings, Built, Formats, build_finding, risk_high, risk_medium, risk_low, material,
  provenance_hash,
}
use linux_xai_security_assis.Failure.Acts.{World, Act, quiet, both, all_acts, persist_maybe}

pub record IsSafe (act : Act) : Type 0 where
  pub never_raises : (w : World) → (act w).raised ≡ false

pub quiet-IsSafe : IsSafe quiet
quiet-IsSafe = record { never_raises = λ w. refl }

pub both-IsSafe : {first second : Act} → IsSafe first → IsSafe second → IsSafe (both first second)
unfolding both
both-IsSafe {first} f g = record {
  never_raises = λ w. rw (f.never_raises w) (g.never_raises (first w).world);
}

pub all_acts-IsSafe : (acts : List Act) → All IsSafe acts → IsSafe (all_acts acts)
unfolding all_acts
all_acts-IsSafe [] h = quiet-IsSafe
all_acts-IsSafe (a ∷ acts) h = both-IsSafe h.0 (all_acts-IsSafe acts h.1)

-- The scores that the findings carry.
pub IsRisk : ℕ → Type 0
IsRisk risk = in_unit (ticks risk) ≡ true

pub risk_high-IsRisk : IsRisk risk_high
unfolding IsRisk in_unit risk_high one
risk_high-IsRisk = refl

pub risk_medium-IsRisk : IsRisk risk_medium
unfolding IsRisk in_unit risk_medium one
risk_medium-IsRisk = refl

pub risk_low-IsRisk : IsRisk risk_low
unfolding IsRisk in_unit risk_low one
risk_low-IsRisk = refl

zero_in_unit : in_unit (ticks 0) ≡ true
unfolding in_unit one
zero_in_unit = refl

good_scores :
    (formats : Formats) (s : Settings) (b : Built)
    → IsRisk b.risk_score
    → scores_in_range (build_finding formats s b) ≡ true
unfolding build_finding IsRisk scores_in_range
good_scores formats s b h = rw (h, zero_in_unit) refl

own_hash :
    (formats : Formats) (s : Settings) (b : Built)
    → (build_finding formats s b).provenance_hash ≡ some (provenance_hash formats b)
unfolding build_finding
own_hash formats s b = refl

hash_not_empty :
    (formats : Formats)
    → IsHexDigest formats.sha256
    → (b : Built) → some (provenance_hash formats b) ≢ some []
unfolding provenance_hash
hash_not_empty formats digest b e =
    let sized = digest.size (dumps_object (material formats b)) in
    let is_empty : provenance_hash formats b ≡ [] = cc e in omega (arith, sized, ap length is_empty)

-- The hash of a finding, and that the store looks it up.
pub stored_hash :
    (formats : Formats) (digest : IsHexDigest formats.sha256) (s : Settings) (b : Built)
    → (hash_of (build_finding formats s b).provenance_hash ≡ some (provenance_hash formats b))
unfolding build_finding
stored_hash formats digest s b =
    let (hash, is_hash, e) =
      hash_of-cases (some (provenance_hash formats b)) (λ e. cc e)
        (λ e. hash_not_empty formats digest b e) in
    is_hash ∙ sym e

-- The digest has the form of SHA-256, and SQLite refuses no write.
pub record IsAccepted (formats : Formats) : Type 0 where
  pub digest : IsHexDigest formats.sha256
  pub writes : (n : ℕ) → formats.refuses n ≡ false

module _ (formats : Formats) (accepted : IsAccepted formats) (s : Settings) (persist : Bool) where
  pub persist_maybe-IsSafe :
      (b : Built) → IsRisk b.risk_score → IsSafe (persist_maybe formats s persist b)
  unfolding persist_maybe
  persist_maybe-IsSafe b h = record {
    never_raises = λ w. elim (Bool-cases persist) [
      | inr dry ↦ rw dry refl
      | inl real ↦
          let (r, (wrote, keeps, found)) =
            write-Wrote formats.sha256 formats.repr (formats.refuses w.writes) w.table
              (build_finding formats s b) (provenance_hash formats b)
              (rw (good_scores formats s b h, accepted.writes w.writes) refl)
              (stored_hash formats accepted.digest s b) (own_hash formats s b) in
          rw (real, wrote) refl
    ];
  }
