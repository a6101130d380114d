-- ===== src/Detection/Assigned.antt =====
-- The correlation ids that `_assign_correlation` of detection/detector.py leaves in a batch.
use mathlib.Core.List.{Memᴰ}
use linux_xai_security_assis.Base.{
  ℕ, ◌+◌, ◌≤◌, ◌≡◌, ◌↔◌, refl, sym, ap, ◌∙◌, subst, true, some, List, [], ◌∷◌, keep, keep_iff, Text,
  same_text→eq, same_text_refl, arith,
}
use linux_xai_security_assis.Detection.{Finding}
use linux_xai_security_assis.Detection.Correlation.{
  Placed, placed, same_entity, sort, find_anchor, correlation_id, assign, assign_correlation,
}
use linux_xai_security_assis.Detection.Anchors.{IsStart, walk_group}
use linux_xai_security_assis.Detection.Runs.{SameEntity, IsAnchor, sort_iff, sort-IsSorted}
use linux_xai_security_assis.Detection.Suppressed.{Each}

module _ {R : Type 0} where
  same_entity_iff : (f : Finding R) (p : Placed R) → (same_entity f p ≡ true) ↔ SameEntity f p.1
  unfolding same_entity
  same_entity_iff f p = (
    (λ h. (
      same_text→eq f.entity_type p.1.entity_type (ground (arith, h)),
      same_text→eq f.entity_key p.1.entity_key (ground (arith, h)),
    )),
    λ (types, keys).
        rw (sym types, sym keys, same_text_refl f.entity_type, same_text_refl f.entity_key) refl,
  )

  placed_inside :
      (index : ℕ) (findings : List (Finding R)) (p : Placed R)
      → Memᴰ p (placed index findings)
      → Memᴰ p.1 findings × (index ≤ p.0)
  unfolding placed
  placed_inside index [] p m = elim m [ ]
  placed_inside index (f ∷ findings) p (Memᴰ.head e) =
      (Memᴰ.head (ap (λ (x : Placed R). x.1) e), omega (arith, ap (λ (x : Placed R). x.0) e))
  placed_inside index (f ∷ findings) p (Memᴰ.tail m) =
      let (there, least) = placed_inside (index + 1) findings p m in
      (Memᴰ.tail there, omega (arith, least))

  placed_of :
      (index : ℕ) (findings : List (Finding R)) (f : Finding R)
      → Memᴰ f findings
      → (i : ℕ) × Memᴰ (i, f) (placed index findings)
  unfolding placed
  placed_of index [] f m = elim m [ ]
  placed_of index (g ∷ findings) f (Memᴰ.head e) =
      (index, Memᴰ.head (ap (λ (x : Finding R). (index, x)) e))
  placed_of index (g ∷ findings) f (Memᴰ.tail m) =
      let (i, there) = placed_of (index + 1) findings f m in (i, Memᴰ.tail there)

  placed_unique :
      (index : ℕ) (findings : List (Finding R)) (p q : Placed R)
      → Memᴰ p (placed index findings)
      → Memᴰ q (placed index findings)
      → q.0 ≡ p.0
      → q ≡ p
  unfolding placed
  placed_unique index [] p q m n e = elim m [ ]
  placed_unique index (f ∷ findings) p q (Memᴰ.head a) (Memᴰ.head b) e = b ∙ sym a
  placed_unique index (f ∷ findings) p q (Memᴰ.head a) (Memᴰ.tail n) e =
      absurd
        (omega (arith, e, ap (λ (x : Placed R). x.0) a, (placed_inside (index + 1) findings q n).1))
  placed_unique index (f ∷ findings) p q (Memᴰ.tail m) (Memᴰ.head b) e =
      absurd
        (omega (arith, e, ap (λ (x : Placed R). x.0) b, (placed_inside (index + 1) findings p m).1))
  placed_unique index (f ∷ findings) p q (Memᴰ.tail m) (Memᴰ.tail n) e =
      placed_unique (index + 1) findings p q m n e

  abbrev group_of : List (Finding R) → Finding R → List (Placed R)
  group_of findings f = sort (keep (same_entity f) (placed 0 findings))

  group_of_iff :
      (findings : List (Finding R)) (f : Finding R) (h : Placed R)
      → Memᴰ h (group_of findings f) ↔ (Memᴰ h (placed 0 findings) × SameEntity f h.1)
  group_of_iff findings f h =
      let sorted = sort_iff (keep (same_entity f) (placed 0 findings)) h in
      let kept = keep_iff (same_entity f) (placed 0 findings) h in
      (
        (λ m. ((kept.0 (sorted.0 m)).0, (same_entity_iff f h).0 (kept.0 (sorted.0 m)).1)),
        λ (m, same). sorted.1 (kept.1 (m, (same_entity_iff f h).1 same)),
      )

  IsStart-IsAnchor :
      (findings : List (Finding R)) (f : Finding R) (anchor : ℕ)
      → IsStart (group_of findings f) f.window_start anchor
      → IsAnchor findings f anchor
  IsStart-IsAnchor findings f anchor s =
      let outside : (h : Placed R)
          → Memᴰ h (group_of findings f)
          → Memᴰ h.1 findings × SameEntity f h.1 =
        λ h m. (
          (placed_inside 0 findings h ((group_of_iff findings f h).0 m).0).0,
          ((group_of_iff findings f h).0 m).1,
        ) in
      let (h, m, starts) = s.begins in
      record {
        begins = (h.1, (outside h m).0, (outside h m).1, starts);
        before = s.before;
        unbroken = λ t after upto.
            let (g, there, starts_before, ends) = s.unbroken t after upto in
            (g.1, (outside g there).0, (outside g there).1, starts_before, ends);
        gap = λ (g, there, same, starts_before, ends).
            let (i, is_placed) = placed_of 0 findings g there in
            s.gap
              ((i, g), (group_of_iff findings f (i, g)).1 (is_placed, same), starts_before, ends);
      }

  find_anchor-IsAnchor :
      (findings : List (Finding R)) (p : Placed R)
      → Memᴰ p (placed 0 findings)
      → (a : ℕ) × (find_anchor (placed 0 findings) p ≡ some a) × IsAnchor findings p.1 a
  unfolding find_anchor
  find_anchor-IsAnchor findings p m =
      let group = group_of findings p.1 in
      let inside = (group_of_iff findings p.1 p).1 (m, (refl, refl)) in
      let (a, q, is, there, same, start) =
        walk_group 0 group p (sort-IsSorted (keep (same_entity p.1) (placed 0 findings))) inside in
      let itself : q ≡ p =
        placed_unique 0 findings p q m ((group_of_iff findings p.1 q).0 there).0 same in
      (
        a,
        is,
        IsStart-IsAnchor findings p.1 a
            (subst (λ (x : Placed R). IsStart group x.1.window_start a) itself start),
      )

module _ (sha256 : Text → Text) (repr : ℕ → Text) {R : Type 0} where
  -- A finding with the correlation id of its run, and no other change.
  abbrev pub IsCorrelated : List (Finding R) → Finding R → Finding R → Type 0
  IsCorrelated findings f g =
      (anchor : ℕ) × IsAnchor findings f anchor
      × (g ≡ record f {
        correlation_id = some (correlation_id sha256 repr f.entity_type f.entity_key anchor);
      })

  assign-IsCorrelated :
      (findings : List (Finding R)) (index : ℕ) (rest : List (Finding R))
      → ((p : Placed R) → Memᴰ p (placed index rest) → Memᴰ p (placed 0 findings))
      → Each
          (IsCorrelated findings)
          rest
          (assign sha256 repr (placed 0 findings) (placed index rest))
  unfolding placed assign
  assign-IsCorrelated findings index [] sub = tt
  assign-IsCorrelated findings index (f ∷ rest) sub =
      let (a, is, anchored) =
        find_anchor-IsAnchor findings (index, f) (sub (index, f) (Memᴰ.head refl)) in
      (
        (a, anchored, rw is refl),
        assign-IsCorrelated findings (index + 1) rest (λ p m. sub p (Memᴰ.tail m)),
      )

  -- No finding is dropped, added or moved, and each changes only in its correlation id, which is
  -- that of its entity and of the start of its run: a time, not after the start of its own window, at
  -- which a window of the entity begins, which none crosses, and from which on each time up to
  -- its own window is crossed.
  pub assign_correlation-IsCorrelated :
      (findings : List (Finding R))
      → Each (IsCorrelated findings) findings (assign_correlation sha256 repr findings)
  unfolding assign_correlation
  assign_correlation-IsCorrelated findings = assign-IsCorrelated findings 0 findings (λ p m. m)
