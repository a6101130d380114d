-- ===== src/Failure/Hysteresis.antt =====
-- When a hysteresis counter of detection/system_failure.py is active.
use linux_xai_security_assis.Base.{
  ℕ, ◌*◌, ◌≤◌, max, ◌≡◌, refl, sym, ◌↔◌, inl, inr, Bool, true, false, not, none, List, [], arith,
  leb→le, Bool-cases,
}
use native.Mathlib.Nat.{mul-le-mul}
use linux_xai_security_assis.Policy.{one}
use linux_xai_security_assis.Failure.{new_counter, breach_high, breach_low}
use linux_xai_security_assis.Failure.InForce.{InForce, feed, history, leaves_at}
use linux_xai_security_assis.Failure.Steps.{not-not, Tracks, InForce-nil, feed-Tracks}

module _ {V : Type 0} (breaches : Bool → V → Bool) (breach clear : ℕ)
    (banded : (v : V) → breaches false v ≡ true → breaches true v ≡ true) where
  -- A counter is active exactly if its condition is in force over the readings of the windows,
  -- provided that a reading which enters the condition would keep it.
  pub feed_iff :
      (readings : List (V × ℕ))
      → ((feed breaches (new_counter breach clear) readings).active ≡ true)
        ↔ InForce
            (breaches false)
            (leaves_at breaches)
            (max 1 breach)
            (max 1 clear)
            (history none [] readings)
  feed_iff readings =
      let none_before : Tracks (breaches false) (leaves_at breaches) (max 1 breach) (max 1 clear)
          (new_counter breach clear) [] =
        record {
          breach_needed = refl;
          clear_needed = refl;
          counts_clear = λ e. refl;
          counts_breach = λ e. refl;
          is_active = λ e. cc;
          is_quiet = λ e.
              InForce-nil (breaches false) (leaves_at breaches) (max 1 breach) (max 1 clear)
                (ground arith) (ground arith) (λ v h. rw (banded v h) refl);
        } in
      let t =
        feed-Tracks (breaches false) (leaves_at breaches) (max 1 breach) (max 1 clear)
          (ground arith) (ground arith) (λ v h. rw (banded v h) refl) breaches (λ v. refl)
          (λ v. sym (not-not (breaches true v))) (new_counter breach clear) [] readings
          none_before in
      (
        t.is_active,
        λ f. elim (Bool-cases (feed breaches (new_counter breach clear) readings).active) [
          | inl on ↦ on
          | inr off ↦ absurd (t.is_quiet off f)
        ],
      )

module _ (limit ratio : ℕ) (small : ratio ≤ one) where
  pub high_banded :
      (v : ℕ) → breach_high false v limit ratio ≡ true → breach_high true v limit ratio ≡ true
  unfolding breach_high
  high_banded v reached =
      let scaled : limit * ratio ≤ v * one = mul-le-mul (leb→le limit v reached) small in
      ground (arith, scaled)

  pub low_banded :
      (v : ℕ) → breach_low false v limit ratio ≡ true → breach_low true v limit ratio ≡ true
  unfolding breach_low
  low_banded v reached =
      let scaled : v * ratio ≤ limit * one = mul-le-mul (leb→le v limit reached) small in
      ground (arith, scaled)

  module _ (breach clear : ℕ) (readings : List (ℕ × ℕ)) where
    pub feed-breach_high_iff :
        ((feed
            (λ active v. breach_high active v limit ratio)
            (new_counter breach clear)
            readings).active
          ≡ true)
        ↔ InForce
            (λ v. breach_high false v limit ratio)
            (λ v. not (breach_high true v limit ratio))
            (max 1 breach)
            (max 1 clear)
            (history none [] readings)
    feed-breach_high_iff =
        feed_iff (λ active v. breach_high active v limit ratio) breach clear high_banded readings
