-- ===== src/Ingestion/Analysis/Counted.antt =====
-- How many findings and decisions the stages of `process` in pipeline/live_ingestion.py leave.
use linux_xai_security_assis.Base.{
  ℕ, suc, ◌+◌, ◌≤◌, ◌≡◌, ◌⊎◌, refl, sym, ap, ◌∙◌, inl, inr, Bool, true, false, Option, none, some,
  List, [], ◌∷◌, map, length, arith, Text, length-append,
}
use linux_xai_security_assis.Chain.{Row}
use linux_xai_security_assis.Policy
use linux_xai_security_assis.Policy.{Number, PolicyRule, AssistantResponse}
use linux_xai_security_assis.Policy.Evaluate.{Decision}
use linux_xai_security_assis.Policy.Trail.{Writing, Outcome}
use linux_xai_security_assis.Policy.Trail.Recorded.{IsTrail, Ended, recorded}
use linux_xai_security_assis.Findings
use linux_xai_security_assis.Findings.{
  Table, Persisted, first_then, write_detection_finding, persist,
}
use linux_xai_security_assis.Ingestion.Analysis.{Draft, with_ids, has_raised}

pub length-map {ℓ κ} :
    {A : Type ℓ} {B : Type κ} (f : A → B) (xs : List A) → length (map f xs) ≡ length xs
length-map f [] = refl
length-map f (x ∷ xs) = ap suc (length-map f xs)

pub length-with_ids :
    (ids : List ℕ) (drafts : List Draft)
    → length ids ≡ length drafts
    → length (with_ids ids drafts) ≡ length drafts
length-with_ids [] drafts h = h
length-with_ids (id ∷ ids) [] h = refl
length-with_ids (id ∷ ids) (draft ∷ drafts) h =
    ap suc (length-with_ids ids drafts (omega (arith, h)))

-- A loop that has not raised has a key for each finding.
module _ (sha256 : Text → Text) (repr : Number → Text) where
  first_then-ids :
      (table : Table) (o : Option (ℕ × Table)) (rest : Table → Persisted) (n : ℕ)
      → ((t : Table) → (rest t).raised ≡ false → length (rest t).ids ≡ n)
      → (first_then table o rest).raised ≡ false
      → length (first_then table o rest).ids ≡ suc n
  first_then-ids table none rest n next h = cc
  first_then-ids table (some r) rest n next h = ap suc (next r.1 h)

  pub persist-ids :
      (refuses : ℕ → Bool) (findings : List Findings.Finding) (table : Table)
      → (persist sha256 repr refuses findings table).raised ≡ false
      → length (persist sha256 repr refuses findings table).ids ≡ length findings
  unfolding persist
  persist-ids refuses [] table h = refl
  persist-ids refuses (f ∷ findings) table h =
      first_then-ids table (write_detection_finding sha256 repr (refuses 0) table f)
        (persist sha256 repr (λ n. refuses (suc n)) findings) (length findings)
        (persist-ids (λ n. refuses (suc n)) findings) h

module _ (w : Writing) (upper lower : Text → Text) (now : ℕ → Number) (refuses : ℕ → Bool)
    (policies : List PolicyRule) (dry : Bool)
    (responses : Option ℕ → Option AssistantResponse) where
  length-recorded :
      (n : ℕ) (findings : List Policy.Finding) (decisions : List Decision)
      → length findings ≡ length decisions
      → length (recorded w upper lower now refuses policies dry responses n findings decisions)
        ≡ length findings
  length-recorded n [] decisions h = refl
  length-recorded n (f ∷ findings) [] h = absurd (omega arith)
  length-recorded n (f ∷ findings) (d ∷ decisions) h =
      ap suc (length-recorded (suc n) findings decisions (omega (arith, h)))

  -- A decision for each finding that was handled.
  trail_rows :
      (findings : List Policy.Finding) (table : List Row) (o : Outcome)
      (t : IsTrail w upper lower now refuses policies dry responses 0 findings table o)
      → length t.rows ≡ length t.handled
  trail_rows findings table o t =
      let same : length t.handled ≡ length t.decisions =
        sym (length-map _ t.handled) ∙ ap length t.decided ∙ length-map some t.decisions in
      sym (length-map (λ (r : Row). r.fields) t.rows)
      ∙ ap length t.stored
      ∙ length-recorded 0 t.handled t.decisions same

  ended_cases :
      (n : ℕ) (rest : List Policy.Finding) (decisions : List Decision)
      (returned : Option (List Decision))
      → Ended w upper lower now refuses policies dry responses n rest decisions returned
      → (has_raised returned ≡ true) ⊎ (length rest ≡ 0)
  ended_cases n [] decisions returned h = inr refl
  ended_cases n (f ∷ rest) decisions returned h = inl (rw h.0 refl)

  pub trail_ends :
      (findings : List Policy.Finding) (table : List Row) (o : Outcome)
      (t : IsTrail w upper lower now refuses policies dry responses 0 findings table o)
      → (length t.rows ≤ length findings)
        × ((has_raised o.returned ≡ true) ⊎ (length t.rows ≡ length findings))
  trail_ends findings table o t =
      let rows = trail_rows findings table o t in
      let parts : length findings ≡ length t.handled + length t.rest =
        ap length t.split ∙ length-append t.handled t.rest in
      (
        omega (arith, rows, parts),
        elim (ended_cases _ t.rest t.decisions o.returned t.ended) [
          | inl raised ↦ inl raised
          | inr over ↦ inr (omega (arith, rows, parts, over))
        ],
      )
