-- ===== src/Detection/Correlation.antt =====
-- `_assign_correlation` of detection/detector.py. A finding is identified by its position, since the
-- code sets a field of the shared mapping; its entity's group is formed for each finding anew. SHA-256
-- and Python's `repr` of a window bound are parameters.
use linux_xai_security_assis.Base.{
  sort_by, ℕ, ◌+◌, max, Bool, ◌&&◌, Option, none, some, List, [], ◌∷◌, ◌++◌, keep, take, ltb, leb,
  ◌==◌, if◌then◌else◌, Text, codes, same_text,
}
use linux_xai_security_assis.Detection.{Finding}

-- Where the walk over a group stands: the anchor of the run, and the latest end so far.
pub record Run : Type 0 where
  pub anchor : ℕ
  pub prev_end : ℕ

-- The anchor of the run that a window belongs to, and the walk's state behind the window.
unfoldable pub anchor_from : Option Run → ℕ → ℕ
anchor_from none start = start
anchor_from (some run) start = if ltb run.prev_end start then start else run.anchor

unfoldable pub end_from : Option Run → ℕ → ℕ
end_from none end = end
end_from (some run) end = max run.prev_end end

-- What the walk sets at one position.
abbrev pub lookup : ℕ → List (ℕ × ℕ) → Option ℕ
lookup index [] = none
lookup index (entry ∷ entries) =
    let rest = lookup index entries in if entry.0 == index then some entry.1 else rest

-- A finding with its position.
abbrev pub Placed : Type 0 → Type 0
Placed R = ℕ × Finding R

module _ {R : Type 0} where
  unfoldable pub placed : ℕ → List (Finding R) → List (Placed R)
  placed index [] = []
  placed index (f ∷ findings) = (index, f) ∷ placed (index + 1) findings

  unfoldable pub same_entity : Finding R → Placed R → Bool
  unfolding same_text
  same_entity f p = same_text f.entity_type p.1.entity_type && same_text f.entity_key p.1.entity_key

  abbrev pub earlier : Placed R → Placed R → Bool
  earlier p q = leb p.1.window_start q.1.window_start

  -- `group.sort(key=…)`, which is stable.
  unfoldable pub sort : List (Placed R) → List (Placed R)
  sort group = sort_by earlier group

  -- The walk: the anchor for each position.
  unfoldable pub walk : Option Run → List (Placed R) → List (ℕ × ℕ)
  unfolding anchor_from end_from
  walk run [] = []
  walk run (p ∷ group) =
      let anchor = anchor_from run p.1.window_start in
      let run' : Run = record { anchor = anchor; prev_end = end_from run p.1.window_end } in
      (p.0, anchor) ∷ walk (some run') group

  -- The anchor that is set for a finding.
  unfoldable pub find_anchor : List (Placed R) → Placed R → Option ℕ
  unfolding walk sort same_entity
  find_anchor all p = lookup p.0 (walk none (sort (keep (same_entity p.1) all)))

module _ (sha256 : Text → Text) (repr : ℕ → Text) where
  -- `_correlation_id`
  unfoldable pub correlation_id : Text → Text → ℕ → Text
  correlation_id entity_type entity_key anchor =
      take 16 (sha256 (entity_type ++ (codes "|" ++ (entity_key ++ (codes "|" ++ repr anchor)))))

  module _ {R : Type 0} where
    abbrev pub with_anchor : Finding R → Option ℕ → Finding R
    with_anchor f none = f
    with_anchor f (some anchor) = record f {
      correlation_id = some (correlation_id f.entity_type f.entity_key anchor);
    }

    unfoldable pub assign : List (ℕ × Finding R) → List (ℕ × Finding R) → List (Finding R)
    assign all [] = []
    assign all (p ∷ rest) = with_anchor p.1 (find_anchor all p) ∷ assign all rest

    -- `_assign_correlation`
    unfoldable pub assign_correlation : List (Finding R) → List (Finding R)
    unfolding assign placed
    assign_correlation findings = assign (placed 0 findings) (placed 0 findings)
