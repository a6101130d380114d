-- ===== src/Findings/Extended.antt =====
-- The table of findings in storage/sqlite_store.py only grows at its end.
use mathlib.Core.List.{append-nil, append_assoc}
use linux_xai_security_assis.Base.{
  ℕ, suc, Bool, not, ◌&&◌, All, ◌≡◌, refl, sym, ap, ◌∙◌, Option, none, some, List, [], ◌∷◌, ◌++◌,
  Text, if-both,
}
use linux_xai_security_assis.Policy.{Number}
use linux_xai_security_assis.Findings.{
  Finding, Stored, Table, columns_of, hash_of, scores_in_range, insert, unless_taken, unless_found,
  existing, write_detection_finding, Persisted, first_then, persist,
}

-- A row with the columns of the finding.
abbrev pub Holds : (Text → Text) → (Number → Text) → Finding → Stored → Type 0
Holds sha256 repr f stored =
    (stored.row.fields ≡ columns_of sha256 repr f) × (stored.provenance_hash ≡ f.provenance_hash)

-- The second table has the rows of the first, and then more, each with the property.
pub record Extends (P : Stored → Type 0) (before after : Table) : Type 0 where
  pub more : List Stored
  pub appended : after.findings ≡ before.findings ++ more
  pub each : All P more

module _ (P : Stored → Type 0) where
  pub Extends_refl : (t : Table) → Extends P t t
  Extends_refl t = record { more = []; appended = sym (append-nil t.findings); each = tt }

  All-append : (xs ys : List Stored) → All P xs → All P ys → All P (xs ++ ys)
  All-append [] ys h k = k
  All-append (x ∷ xs) ys h k = (h.0, All-append xs ys h.1 k)

  pub Extends_trans : {t u v : Table} → Extends P t u → Extends P u v → Extends P t v
  Extends_trans {t} h k = record {
    more = h.more ++ k.more;
    appended =
        k.appended
        ∙ ap (λ (l : List Stored). l ++ k.more) h.appended
        ∙ append_assoc t.findings h.more k.more;
    each = All-append h.more k.more h.each k.each;
  }

  module _ (sha256 : Text → Text) (repr : Number → Text) where
    -- The rows that hold the finding have the property.
    abbrev pub Covers : Finding → Type 0
    Covers f = (stored : Stored) → Holds sha256 repr f stored → P stored

    insert-Extends :
        (table : Table) (f : Finding) → Covers f → Extends P table (insert sha256 repr table f).1
    unfolding insert
    insert-Extends table f covers = record {
      more = _;
      appended = refl;
      each = (covers _ (refl, refl), tt);
    }

    abbrev pub AllExtend : Table → Option (ℕ × Table) → Type 0
    AllExtend table none = Unit
    AllExtend table (some r) = Extends P table r.1

    taken-Extends :
        (table : Table) (f : Finding) (o : Option ℕ)
        → Covers f
        → AllExtend table (unless_taken sha256 repr table f o)
    taken-Extends table f none covers = insert-Extends table f covers
    taken-Extends table f (some id) covers = tt

    found-Extends :
        (table : Table) (f : Finding) (o : Option ℕ)
        → Covers f
        → AllExtend table (unless_found sha256 repr table f o)
    found-Extends table f none covers =
        taken-Extends table f (existing table f.provenance_hash) covers
    found-Extends table f (some id) covers = Extends_refl table

    pub write-Extends :
        (refused : Bool) (table : Table) (f : Finding)
        → Covers f
        → AllExtend table (write_detection_finding sha256 repr refused table f)
    unfolding write_detection_finding
    write-Extends refused table f covers =
        if-both (AllExtend table) (scores_in_range f && not refused)
          (found-Extends table f (existing table (hash_of f.provenance_hash)) covers) tt

    first_then-Extends :
        (table : Table) (o : Option (ℕ × Table)) (rest : Table → Persisted)
        → AllExtend table o
        → ((t : Table) → Extends P t (rest t).table)
        → Extends P table (first_then table o rest).table
    first_then-Extends table none rest h next = Extends_refl table
    first_then-Extends table (some r) rest h next = Extends_trans h (next r.1)

    pub persist-Extends :
        (refuses : ℕ → Bool) (findings : List Finding) (table : Table)
        → All Covers findings
        → Extends P table (persist sha256 repr refuses findings table).table
    unfolding persist
    persist-Extends refuses [] table covers = Extends_refl table
    persist-Extends refuses (f ∷ findings) table covers =
        first_then-Extends table (write_detection_finding sha256 repr (refuses 0) table f)
          (persist sha256 repr (λ n. refuses (suc n)) findings)
          (write-Extends (refuses 0) table f covers.0)
          (λ t. persist-Extends (λ n. refuses (suc n)) findings t covers.1)
