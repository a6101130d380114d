-- ===== src/Findings/Again.antt =====
-- Writing findings of storage/sqlite_store.py again: a finding has one row.
use linux_xai_security_assis.Base.{
  ℕ, suc, Bool, not, ◌&&◌, ◌∙◌, arith, ◌≡◌, ◌≢◌, refl, ap, true, false, Option, none, some, List,
  [], ◌∷◌, ◌++◌, Text, same_text_refl, All, inl, inr, Bool-cases, Option-cases,
}
use linux_xai_security_assis.Policy.{Number}
use linux_xai_security_assis.Findings.{
  Finding, Stored, Table, has_hash, find_hash, hash_of, scores_in_range, insert, existing,
  write_detection_finding, Persisted, persist,
}

-- What the detector always sets.
abbrev pub HasHash : Finding → Type 0
HasHash f = f.provenance_hash ≢ none × (f.provenance_hash ≢ some [])

-- Whatever hash is found in the one is found in the other, under the same key.
abbrev pub Keeps : List Stored → List Stored → Type 0
Keeps old new = (hash : Text) (id : ℕ) → find_hash hash old ≡ some id → find_hash hash new ≡ some id

find_hash-append : (old more : List Stored) → Keeps old (old ++ more)
unfolding find_hash
find_hash-append [] more hash id h = cc
find_hash-append (s ∷ old) more hash id h = elim (Bool-cases (has_hash hash s.provenance_hash)) [
  | inl found ↦ rw found (rw found at h)
  | inr other ↦ rw other (find_hash-append old more hash id (rw other at h))
]

find_hash-last :
    (old : List Stored) (hash : Text) (s : Stored)
    → find_hash hash old ≡ none
    → s.provenance_hash ≡ some hash
    → find_hash hash (old ++ s ∷ []) ≡ some s.id
unfolding find_hash
find_hash-last [] hash s h e = rw (e, same_text_refl hash) refl
find_hash-last (t ∷ old) hash s h e = elim (Bool-cases (has_hash hash t.provenance_hash)) [
  | inl found ↦ cc (rw found at h)
  | inr other ↦ rw other (find_hash-last old hash s (rw other at h) e)
]

pub hash_of-cases :
    (o : Option Text)
    → o ≢ none
    → o ≢ some []
    → (hash : Text) × (hash_of o ≡ some hash) × (o ≡ some hash)
hash_of-cases none h k = absurd (h refl)
hash_of-cases (some []) h k = absurd (k refl)
hash_of-cases (some (c ∷ hash)) h k = (c ∷ hash, refl, refl)

module _ (sha256 : Text → Text) (repr : Number → Text) where
  write-bad :
      (refused : Bool) (table : Table) (f : Finding)
      → (scores_in_range f && not refused) ≡ false
      → write_detection_finding sha256 repr refused table f ≡ none
  unfolding write_detection_finding
  write-bad refused table f h = rw h refl

  write-found :
      (refused : Bool) (table : Table) (f : Finding) (hash : Text) (id : ℕ)
      → (scores_in_range f && not refused) ≡ true
      → hash_of f.provenance_hash ≡ some hash
      → find_hash hash table.findings ≡ some id
      → write_detection_finding sha256 repr refused table f ≡ some (id, table)
  unfolding write_detection_finding
  write-found refused table f hash id good is_hash found = rw (good, is_hash, found) refl

  write-fresh :
      (refused : Bool) (table : Table) (f : Finding) (hash : Text)
      → (scores_in_range f && not refused) ≡ true
      → hash_of f.provenance_hash ≡ some hash
      → f.provenance_hash ≡ some hash
      → find_hash hash table.findings ≡ none
      → write_detection_finding sha256 repr refused table f ≡ some (insert sha256 repr table f)
  unfolding write_detection_finding
  write-fresh refused table f hash good is_hash is_stored fresh =
      let not_found : existing table (hash_of f.provenance_hash) ≡ none = rw is_hash fresh in
      let not_taken : existing table f.provenance_hash ≡ none = rw is_stored fresh in
      rw (good, not_found, not_taken) refl

  -- What a write of a finding with a hash returns, and finds from then on.
  abbrev pub Wrote : Bool → Table → Finding → ℕ × Table → Text → Type 0
  Wrote refused table f r hash =
      (write_detection_finding sha256 repr refused table f ≡ some r)
      × Keeps table.findings r.1.findings
      × (find_hash hash r.1.findings ≡ some r.0)

  pub write-Wrote :
      (refused : Bool) (table : Table) (f : Finding) (hash : Text)
      → (scores_in_range f && not refused) ≡ true
      → hash_of f.provenance_hash ≡ some hash
      → f.provenance_hash ≡ some hash
      → (r : ℕ × Table) × Wrote refused table f r hash
  unfolding insert
  write-Wrote refused table f hash good is_hash is_stored =
      elim (Option-cases (find_hash hash table.findings)) [
        | inr (id, found) ↦ (
          (id, table),
          (write-found refused table f hash id good is_hash found, (λ h i e. e), found),
        )
        | inl fresh ↦ (
          insert sha256 repr table f,
          (
            write-fresh refused table f hash good is_hash is_stored fresh,
            find_hash-append table.findings _,
            find_hash-last table.findings hash _ fresh is_stored,
          ),
        )
      ]

  -- A batch keeps what is found.
  persist-Keeps :
      (refuses : ℕ → Bool) (findings : List Finding) (table : Table)
      → All HasHash findings
      → Keeps table.findings (persist sha256 repr refuses findings table).table.findings
  unfolding persist
  persist-Keeps refuses [] table h hash id e = e
  persist-Keeps refuses (f ∷ findings) table h hash id e =
      elim (Bool-cases (scores_in_range f && not (refuses 0))) [
        | inr bad ↦ rw (write-bad (refuses 0) table f bad) e
        | inl good ↦
            let (own, is_hash, is_stored) = hash_of-cases f.provenance_hash h.0.0 h.0.1 in
            let (r, (wrote, keeps, found)) =
              write-Wrote (refuses 0) table f own good is_hash is_stored in
            rw wrote
              (persist-Keeps (λ n. refuses (suc n)) findings r.1 h.1 hash id (keeps hash id e))
      ]

  -- A write that is not refused accepts what one that may be refused accepted.
  accepted :
      (f : Finding) (refused : Bool)
      → (scores_in_range f && not refused) ≡ true
      → (scores_in_range f && not false) ≡ true
  accepted f refused h = ground (arith, h)

  same_write :
      (refused : Bool) (table : Table) (f : Finding)
      → (scores_in_range f && not refused) ≡ true
      → write_detection_finding sha256 repr refused table f
        ≡ write_detection_finding sha256 repr false table f
  unfolding write_detection_finding
  same_write refused table f h = rw (h, accepted f refused h) refl

  -- Persisting a batch of findings with hashes, of which SQLite refuses any writes, and persisting
  -- it again with none refused, returns the keys, raises where it raises, and leaves the table that
  -- persisting it once with none refused does.
  pub persist-again :
      (refuses : ℕ → Bool) (findings : List Finding) (table : Table)
      → All HasHash findings
      → persist sha256 repr (λ n. false) findings (persist sha256 repr refuses findings table).table
        ≡ persist sha256 repr (λ n. false) findings table
  unfolding persist
  persist-again refuses [] table h = refl
  persist-again refuses (f ∷ findings) table h =
      elim (Bool-cases (scores_in_range f && not (refuses 0))) [
        | inr bad ↦ rw (write-bad (refuses 0) table f bad) refl
        | inl good ↦
            let (own, is_hash, is_stored) = hash_of-cases f.provenance_hash h.0.0 h.0.1 in
            let fine = accepted f (refuses 0) good in
            let (r, (wrote, kept, found)) = write-Wrote false table f own fine is_hash is_stored in
            let wrote' : write_detection_finding sha256 repr (refuses 0) table f ≡ some r =
              same_write (refuses 0) table f good ∙ wrote in
            let later = (persist sha256 repr (λ n. refuses (suc n)) findings r.1).table in
            let there = persist-Keeps (λ n. refuses (suc n)) findings r.1 h.1 own r.0 found in
            rw (wrote', wrote, write-found false later f own r.0 fine is_hash there)
              (ap (λ (p : Persisted). record p { ids = r.0 ∷ p.ids })
                (persist-again (λ n. refuses (suc n)) findings r.1 h.1))
      ]
