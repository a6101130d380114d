-- ===== src/Findings/Chained.antt =====
-- The chain of the findings that storage/sqlite_store.py writes.
use linux_xai_security_assis.Base.{
  ℕ, suc, ◌≡◌, Bool, true, not, ◌&&◌, Option, none, some, List, [], ◌∷◌, map, Text, if-both,
}
use mathlib.Core.List.{map-append}
use linux_xai_security_assis.Chain.Columns.{finding_chain_columns}
use linux_xai_security_assis.Chain.{Row, genesis_prev_hash, extend_chain, verify_chain}
use linux_xai_security_assis.Chain.Linked.{IsLinked, verify_chain_iff}
use linux_xai_security_assis.Chain.Writer.{IsHexDigest, extend_chain-IsLinked}
use linux_xai_security_assis.Policy.{Number}
use linux_xai_security_assis.Findings.{
  Finding, Stored, Table, columns_of, hash_of, scores_in_range, insert, unless_taken, unless_found,
  existing, write_detection_finding, Persisted, first_then, persist,
}

abbrev pub rows_of : Table → List Row
rows_of table = map (λ (s : Stored). s.row) table.findings

module _ (sha256 : Text → Text) (digest : IsHexDigest sha256) (repr : Number → Text) where
  abbrev pub IsChained : Table → Type 0
  IsChained table = IsLinked sha256 finding_chain_columns 0 genesis_prev_hash (rows_of table)

  insert-IsChained :
      (table : Table) (f : Finding) → IsChained table → IsChained (insert sha256 repr table f).1
  unfolding insert extend_chain
  insert-IsChained table f h = rw (map-append (λ (s : Stored). s.row) table.findings _) (
      extend_chain-IsLinked sha256 digest finding_chain_columns (rows_of table)
        (columns_of sha256 repr f) h)

  -- A write raises, leaves the table, or appends to it.
  abbrev pub AllChained : Option (ℕ × Table) → Type 0
  AllChained none = Unit
  AllChained (some r) = IsChained r.1

  taken-IsChained :
      (table : Table) (f : Finding) (o : Option ℕ)
      → IsChained table
      → AllChained (unless_taken sha256 repr table f o)
  taken-IsChained table f none h = insert-IsChained table f h
  taken-IsChained table f (some id) h = tt

  found-IsChained :
      (table : Table) (f : Finding) (o : Option ℕ)
      → IsChained table
      → AllChained (unless_found sha256 repr table f o)
  found-IsChained table f none h = taken-IsChained table f (existing table f.provenance_hash) h
  found-IsChained table f (some id) h = h

  pub write-IsChained :
      (refused : Bool) (table : Table) (f : Finding)
      → IsChained table
      → AllChained (write_detection_finding sha256 repr refused table f)
  unfolding write_detection_finding
  write-IsChained refused table f h =
      if-both AllChained (scores_in_range f && not refused)
        (found-IsChained table f (existing table (hash_of f.provenance_hash)) h) tt

  first_then-IsChained :
      (table : Table) (o : Option (ℕ × Table)) (rest : Table → Persisted)
      → IsChained table
      → AllChained o
      → ((t : Table) → IsChained t → IsChained (rest t).table)
      → IsChained (first_then table o rest).table
  first_then-IsChained table none rest h all next = h
  first_then-IsChained table (some r) rest h all next = next r.1 all

  pub persist-IsChained :
      (refuses : ℕ → Bool) (findings : List Finding) (table : Table)
      → IsChained table
      → IsChained (persist sha256 repr refuses findings table).table
  unfolding persist
  persist-IsChained refuses [] table h = h
  persist-IsChained refuses (f ∷ findings) table h =
      first_then-IsChained table (write_detection_finding sha256 repr (refuses 0) table f)
        (persist sha256 repr (λ n. refuses (suc n)) findings) h
        (write-IsChained (refuses 0) table f h)
        (λ t. persist-IsChained (λ n. refuses (suc n)) findings t)

  -- A chain of findings that verifies still verifies after a batch is persisted, whatever the
  -- findings, also where a write raises midway.
  pub persist-verifies :
      (refuses : ℕ → Bool) (findings : List Finding) (table : Table)
      → (verify_chain sha256 finding_chain_columns (rows_of table)).ok ≡ true
      → (verify_chain sha256 finding_chain_columns
          (rows_of (persist sha256 repr refuses findings table).table)).ok
        ≡ true
  persist-verifies refuses findings table h = (verify_chain_iff sha256 finding_chain_columns _).1 (
      persist-IsChained refuses findings table
        ((verify_chain_iff sha256 finding_chain_columns (rows_of table)).0 h))
