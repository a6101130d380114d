-- ===== src/Detection/Runs.antt =====
-- What `_assign_correlation` of detection/detector.py sets for each finding of a batch.
use mathlib.Core.List.{Memᴰ}
use linux_xai_security_assis.Base.{
  insert_by, sort_by, sort_by_iff, ℕ, ◌≤◌, ◌<◌, ◌≡◌, ◌↔◌, List, [], ◌∷◌, leb, inl, inr, Bool-cases,
  arith,
}
use linux_xai_security_assis.Detection.{Finding}
use linux_xai_security_assis.Detection.Correlation.{Placed, sort, earlier}
use linux_xai_security_assis.Detection.Anchors.{IsSorted}

module _ {R : Type 0} where
  -- Findings about one entity.
  abbrev pub SameEntity : Finding R → Finding R → Type 0
  SameEntity f g = (f.entity_type ≡ g.entity_type) × (f.entity_key ≡ g.entity_key)

  -- A window of the finding's entity crosses the time: it begins before it and does not end before
  -- it.
  abbrev pub Crosses : List (Finding R) → Finding R → ℕ → Type 0
  Crosses findings f t =
      (h : Finding R) × Memᴰ h findings × SameEntity f h × (h.window_start < t) × (t ≤ h.window_end)

  -- The start of the run of contiguous windows that a finding belongs to: a window of its entity
  -- begins there, none crosses it, and every later time up to the finding's window is crossed.
  pub record IsAnchor (findings : List (Finding R)) (f : Finding R) (anchor : ℕ) : Type 0 where
    pub begins : (g : Finding R) × Memᴰ g findings × SameEntity f g × (g.window_start ≡ anchor)
    pub before : anchor ≤ f.window_start
    pub unbroken : (t : ℕ) → anchor < t → t ≤ f.window_start → Crosses findings f t
    pub gap : ¬ Crosses findings f anchor

  -- A finding has one anchor.
  IsAnchor-unique :
      (findings : List (Finding R)) (f : Finding R) (a b : ℕ)
      → IsAnchor findings f a
      → IsAnchor findings f b
      → a ≡ b
  IsAnchor-unique findings f a b at_a at_b = elim (Bool-cases (leb a b)) [
    | inr gt ↦ absurd (at_a.gap (at_b.unbroken a (ground (arith, gt)) at_a.before))
    | inl le ↦ elim (Bool-cases (leb b a)) [
      | inl ge ↦ ground (arith, le, ge)
      | inr lt ↦ absurd (at_b.gap (at_a.unbroken b (ground (arith, lt)) at_b.before))
    ]
  ]

  -- A sort keeps the members and sorts.
  insert-IsSorted :
      (least : ℕ) (p : Placed R) (group : List (Placed R))
      → least ≤ p.1.window_start
      → IsSorted least group
      → IsSorted least (insert_by earlier p group)
  unfolding insert_by
  insert-IsSorted least p [] h s = (h, tt)
  insert-IsSorted least p (q ∷ group) h s =
      elim (Bool-cases (leb p.1.window_start q.1.window_start)) [
        | inl le ↦ rw le (h, (ground (arith, le), s.1))
        | inr gt ↦ rw gt (s.0, insert-IsSorted q.1.window_start p group (ground (arith, gt)) s.1)
      ]

  pub sort_iff : (group : List (Placed R)) (h : Placed R) → Memᴰ h (sort group) ↔ Memᴰ h group
  unfolding sort
  sort_iff group h = sort_by_iff earlier group h

  pub sort-IsSorted : (group : List (Placed R)) → IsSorted 0 (sort group)
  unfolding sort sort_by
  sort-IsSorted [] = tt
  sort-IsSorted (p ∷ group) =
      insert-IsSorted 0 p (sort_by earlier group) (omega arith) (sort-IsSorted group)
