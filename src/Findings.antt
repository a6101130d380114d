-- ===== src/Findings.antt =====
-- storage/sqlite_store.py: `write_detection_finding`, which writes a finding once and chains it; and
-- of detection/detector.py the loop of `detect` that persists a batch. How a number is written is
-- the parameter `repr`, and the evidence is given as the text that `json.dumps` makes of it.
pub mod Again
pub mod Chained
pub mod Extended
mod Samples
use linux_xai_security_assis.Base.{
  ℕ, suc, ◌+◌, Bool, true, false, not, ◌&&◌, Option, none, some, List, [], ◌∷◌, ◌++◌, map,
  if◌then◌else◌, Text, codes, same_text, decimal,
}
use linux_xai_security_assis.Chain.Json.{Value, null, number, text}
use linux_xai_security_assis.Chain.Columns.{finding_chain_columns}
use linux_xai_security_assis.Chain.{Row, chain_head, extended}
use linux_xai_security_assis.Policy.{Number}
use linux_xai_security_assis.Policy.Evaluate.{in_unit}

-- The mapping that the detector hands to the store.
pub record Finding : Type 0 where
  pub source_risk_id : Option ℕ
  pub window_start : Number
  pub window_end : Number
  pub entity_type : Text
  pub entity_key : Text
  pub risk_score : Number
  pub severity : Text
  pub behavior_score : Number
  pub rule_score : Number
  pub context_score : Number
  pub evidence_json : Text
  pub explanation : Text
  pub mode : Text
  pub provenance_hash : Option Text
  pub detector_version : Option Text
  pub correlation_id : Option Text
  pub suppressed : Bool
  pub suppression_reason : Option Text
  pub created_at : Option Number

-- A stored finding: its key, its hash, and the row that the chain reads.
pub record Stored : Type 0 where
  pub id : ℕ
  pub provenance_hash : Option Text
  pub row : Row

-- The table in `id` order, and the next key that AUTOINCREMENT gives.
pub record Table : Type 0 where
  pub findings : List Stored
  pub next_id : ℕ

abbrev nullable : Option Text → Value
nullable none = null
nullable (some t) = text t

-- `WHERE provenance_hash = ?`
abbrev pub has_hash : Text → Option Text → Bool
has_hash hash none = false
has_hash hash (some stored) = same_text stored hash

unfoldable pub find_hash : Text → List Stored → Option ℕ
unfolding same_text
find_hash hash [] = none
find_hash hash (s ∷ findings) =
    let rest = find_hash hash findings in
    if has_hash hash s.provenance_hash then some s.id else rest

-- `finding.get("provenance_hash")` where it is not empty
abbrev pub hash_of : Option Text → Option Text
hash_of none = none
hash_of (some []) = none
hash_of (some (c ∷ hash)) = some (c ∷ hash)

abbrev pub existing : Table → Option Text → Option ℕ
existing table none = none
existing table (some hash) = find_hash hash table.findings

-- The test of the scores; what `float` cannot read raises as well.
unfoldable pub scores_in_range : Finding → Bool
unfolding in_unit
scores_in_range f =
    in_unit f.risk_score
    && in_unit f.behavior_score
    && in_unit f.rule_score
    && in_unit f.context_score

-- What a batch leaves: the keys given out before a write raised, if one did.
pub record Persisted : Type 0 where
  pub ids : List ℕ
  pub raised : Bool
  pub table : Table

abbrev pub first_then : Table → Option (ℕ × Table) → (Table → Persisted) → Persisted
first_then table none rest = record { ids = []; raised = true; table = table }
first_then table (some written) rest =
    let r = rest written.1 in record r { ids = written.0 ∷ r.ids }

module _ (sha256 : Text → Text) (repr : Number → Text) where
  abbrev optional_number : Option Number → Value
  optional_number none = null
  optional_number (some n) = number (repr n)

  abbrev optional_id : Option ℕ → Value
  optional_id none = null
  optional_id (some n) = number (decimal n)

  -- The inserted columns.
  abbrev pub columns_of : Finding → List (Text × Value)
  columns_of f =
      (codes "source_risk_id", optional_id f.source_risk_id)
      ∷ (codes "window_start", number (repr f.window_start))
      ∷ (codes "window_end", number (repr f.window_end))
      ∷ (codes "entity_type", text f.entity_type)
      ∷ (codes "entity_key", text f.entity_key)
      ∷ (codes "risk_score", number (repr f.risk_score))
      ∷ (codes "severity", text f.severity)
      ∷ (codes "behavior_score", number (repr f.behavior_score))
      ∷ (codes "rule_score", number (repr f.rule_score))
      ∷ (codes "context_score", number (repr f.context_score))
      ∷ (codes "evidence_json", text f.evidence_json)
      ∷ (codes "explanation", text f.explanation)
      ∷ (codes "mode", text f.mode)
      ∷ (codes "provenance_hash", nullable f.provenance_hash)
      ∷ (codes "detector_version", nullable f.detector_version)
      ∷ (codes "correlation_id", nullable f.correlation_id)
      ∷ (codes "suppressed", number (if f.suppressed then codes "1" else codes "0"))
      ∷ (codes "suppression_reason", nullable f.suppression_reason)
      ∷ (codes "created_at", optional_number f.created_at)
      ∷ []

  -- The insert, and `_extend_chain` of the row: the new key and the table.
  unfoldable pub insert : Table → Finding → ℕ × Table
  insert table f =
      let row : Row =
        extended sha256 finding_chain_columns
          (chain_head (map (λ (s : Stored). s.row) table.findings)) (columns_of f) in
      let stored : Stored = record {
        id = table.next_id;
        provenance_hash = f.provenance_hash;
        row = row;
      } in
      (
        table.next_id,
        record { findings = table.findings ++ stored ∷ []; next_id = table.next_id + 1 },
      )

  -- The insert raises where the partial UNIQUE index on `provenance_hash` has the hash, an empty
  -- one, which the search before it passes over.
  abbrev pub unless_taken : Table → Finding → Option ℕ → Option (ℕ × Table)
  unless_taken table f none = some (insert table f)
  unless_taken table f (some id) = none

  abbrev pub unless_found : Table → Finding → Option ℕ → Option (ℕ × Table)
  unless_found table f none = unless_taken table f (existing table f.provenance_hash)
  unless_found table f (some id) = some (id, table)

  -- `write_detection_finding`, `refused` where SQLite refuses one of its statements; `none` where
  -- it raises, with the table as it was.
  unfoldable pub write_detection_finding : Bool → Table → Finding → Option (ℕ × Table)
  unfolding find_hash
  write_detection_finding refused table f =
      if scores_in_range f && not refused
      then unless_found table f (existing table (hash_of f.provenance_hash))
      else none

  -- The loop at the end of `detect`: every write is a transaction of its own. `refuses` says which
  -- of the writes SQLite refuses.
  unfoldable pub persist : (ℕ → Bool) → List Finding → Table → Persisted
  persist refuses [] table = record { ids = []; raised = false; table = table }
  persist refuses (f ∷ findings) table =
      first_then table (write_detection_finding (refuses 0) table f)
        (λ (t : Table). persist (λ n. refuses (suc n)) findings t)
