-- ===== src/Migrations/Backfill.antt =====
-- The backfill of storage/migrations.py against the writer of storage/sqlite_store.py.
use linux_xai_security_assis.Base.{
  ℕ, ◌+◌, ◌≡◌, refl, sym, ap, ◌∙◌, true, false, Option, none, some, List, [], ◌∷◌, ◌++◌, arith,
  Text, length,
}
use mathlib.Core.List.{append-nil, append_assoc}
use linux_xai_security_assis.Chain.Json.{Value}
use linux_xai_security_assis.Chain.{
  Row, genesis_prev_hash, next_seq, or_genesis, serialize_core, chain_head, head_from, later_row,
  next_link, verify_chain, extended, extend_chain, write_all,
}
use linux_xai_security_assis.Chain.Linked.{
  IsLinked, link, end_hash, verify_chain_iff, IsLinked-append,
}
use linux_xai_security_assis.Chain.Writer.{
  IsHexDigest, write_all-IsLinked, AtHead, AtHead-head_from, link_size, or_genesis-some,
}
use linux_xai_security_assis.Migrations.{
  is_pending, backfill_from, backfill_chain, head_seq, head_hash,
}

-- A row as it stood before the chain's columns were added.
abbrev pub unchained : List (Text × Value) → Row
unchained fields = record {
  fields = fields;
  chain_seq = none;
  chain_prev_hash = none;
  chain_hash = none;
}

abbrev pub all_unchained : List (List (Text × Value)) → List Row
all_unchained [] = []
all_unchained (fields ∷ more) = unchained fields ∷ all_unchained more

abbrev contents_of : List Row → List (List (Text × Value))
contents_of [] = []
contents_of (row ∷ rows) = row.fields ∷ contents_of rows

contents_of-append : (xs ys : List Row) → contents_of (xs ++ ys) ≡ contents_of xs ++ contents_of ys
contents_of-append [] ys = refl
contents_of-append (x ∷ xs) ys = rw (contents_of-append xs ys)

-- The head counts only with its number, and that is what the writer leaves.
abbrev IsNumbered : Option Row → Type 0
IsNumbered none = Unit
IsNumbered (some row) = (m : ℕ) × (row.chain_seq ≡ some m)

later_row-unchained :
    (best : Option Row) (fields : List (Text × Value))
    → IsNumbered best
    → later_row (unchained fields) best ≡ best
unfolding later_row
later_row-unchained none fields h = refl
later_row-unchained (some best) fields h = rw h.1 refl

head_from-unchained :
    (best : Option Row) (rows : List (List (Text × Value)))
    → IsNumbered best
    → head_from best (all_unchained rows) ≡ best
unfolding head_from
head_from-unchained best [] h = refl
head_from-unchained best (fields ∷ rows) h =
    rw (head_from, later_row-unchained best fields h) (head_from-unchained best rows h)

head_from-append :
    (best : Option Row) (xs ys : List Row)
    → head_from best (xs ++ ys) ≡ head_from (head_from best xs) ys
unfolding head_from
head_from-append best [] ys = refl
head_from-append best (x ∷ xs) ys = head_from-append (later_row x best) xs ys

AtHead-IsNumbered :
    (seq : ℕ) (prev : Text) (head : Option Row) → AtHead seq prev head → IsNumbered head
AtHead-IsNumbered seq prev none h = tt
AtHead-IsNumbered seq prev (some row) h = (h.0, h.1)

AtHead-continues :
    (seq : ℕ) (prev : Text) (head : Option Row)
    → AtHead seq prev head
    → (next_seq (head_seq head) ≡ seq) × (or_genesis (head_hash head) ≡ prev)
unfolding or_genesis
AtHead-continues seq prev none h = (sym h.0, sym h.1)
AtHead-continues seq prev (some row) h = (ap next_seq h.1 ∙ h.2, rw h.3 (or_genesis-some prev h.4))

module _ (sha256 : Text → Text) (digest : IsHexDigest sha256) (columns : List Text) where
  -- Linked rows are passed over.
  backfill_from-linked :
      (seq : ℕ) (prev : Text) (ps : Option ℕ) (ph : Option Text) (rows more : List Row)
      → IsLinked sha256 columns seq prev rows
      → backfill_from sha256 columns ps ph (rows ++ more)
        ≡ rows ++ backfill_from sha256 columns ps ph more
  unfolding backfill_from
  backfill_from-linked seq prev ps ph [] more h = refl
  backfill_from-linked seq prev ps ph (row ∷ rows) more h =
      let done : is_pending row ≡ false = unfold is_pending in (rw h.0 refl) in
      rw
        (
          done,
          backfill_from-linked (seq + 1) (link sha256 columns seq prev row) ps ph rows more h.3,
        )
        refl

  -- The pending rows continue the chain, and keep their content.
  backfill_from-IsLinked :
      (seq : ℕ) (prev : Text) (ps : Option ℕ) (ph : Option Text) (rows : List (List (Text × Value)))
      → next_seq ps ≡ seq
      → or_genesis ph ≡ prev
      → IsLinked sha256 columns seq prev (backfill_from sha256 columns ps ph (all_unchained rows))
  unfolding backfill_from next_link serialize_core
  backfill_from-IsLinked seq prev ps ph [] hs hp = tt
  backfill_from-IsLinked seq prev ps ph (fields ∷ rows) hs hp =
      rw (hs, hp)
        (
          refl,
          refl,
          refl,
          backfill_from-IsLinked (seq + 1) (link sha256 columns seq prev (unchained fields))
              (some seq) (some (link sha256 columns seq prev (unchained fields))) rows refl
              (or_genesis-some _ (link_size sha256 digest columns seq prev (unchained fields))),
        )

  contents_of-backfill_from :
      (ps : Option ℕ) (ph : Option Text) (rows : List (List (Text × Value)))
      → contents_of (backfill_from sha256 columns ps ph (all_unchained rows)) ≡ rows
  unfolding backfill_from
  contents_of-backfill_from ps ph [] = refl
  contents_of-backfill_from ps ph (fields ∷ rows) =
      let n = next_link sha256 ps ph columns (unchained fields) in
      ap (λ (more : List (List (Text × Value))). fields ∷ more)
        (contents_of-backfill_from (some n.seq) (some n.hash) rows)

  contents_of-write_all :
      (table : List Row) (rows : List (List (Text × Value)))
      → contents_of (write_all sha256 columns table rows) ≡ contents_of table ++ rows
  unfolding write_all extend_chain
  contents_of-write_all table [] = sym (append-nil (contents_of table))
  contents_of-write_all table (fields ∷ rows) =
      contents_of-write_all (extend_chain sha256 columns table fields) rows
      ∙ rw (contents_of-append table (extended sha256 columns (chain_head table) fields ∷ []))
          (append_assoc (contents_of table) (fields ∷ []) rows)

  -- A linked table is determined by its rows' content.
  IsLinked-unique :
      (seq : ℕ) (prev : Text) (xs ys : List Row)
      → IsLinked sha256 columns seq prev xs
      → IsLinked sha256 columns seq prev ys
      → contents_of xs ≡ contents_of ys
      → xs ≡ ys
  IsLinked-unique seq prev [] [] hx hy e = refl
  IsLinked-unique seq prev [] (y ∷ ys) hx hy e = cc
  IsLinked-unique seq prev (x ∷ xs) [] hx hy e = cc
  IsLinked-unique seq prev (x ∷ xs) (y ∷ ys) hx hy e =
      let same : x.fields ≡ y.fields = cc e in
      let links : link sha256 columns seq prev x ≡ link sha256 columns seq prev y =
        unfold serialize_core in (rw same refl) in
      let rest =
        IsLinked-unique (seq + 1) (link sha256 columns seq prev x) xs ys hx.3 (rw links hy.3)
          (cc e) in
      let first : x ≡ y = ground (arith, links, same, hx.0, hx.1, hx.2, hy.0, hy.1, hy.2) in
      cc (first, rest)

  -- Backfilling a verified table that has unchained rows behind it gives the very table that the
  -- writer would have left, had it written those rows: contents, order, numbers and hashes.
  pub backfill_chain-write_all :
      (table : List Row) (rows : List (List (Text × Value)))
      → (verify_chain sha256 columns table).ok ≡ true
      → backfill_chain sha256 columns (table ++ all_unchained rows)
        ≡ write_all sha256 columns table rows
  unfolding backfill_chain chain_head
  backfill_chain-write_all table rows h =
      let linked = (verify_chain_iff sha256 columns table).0 h in
      let head =
        AtHead-head_from sha256 digest columns 0 genesis_prev_hash none table (refl, refl) linked in
      let head_same =
        head_from-append none table (all_unchained rows)
        ∙ head_from-unchained (head_from none table) rows (AtHead-IsNumbered _ _ _ head) in
      let (at_seq, at_prev) = AtHead-continues _ _ _ head in
      let ps = head_seq (head_from none table) in
      let ph = head_hash (head_from none table) in
      let filled = backfill_from sha256 columns ps ph (all_unchained rows) in
      let whole = table ++ filled in
      rw
        (
          head_same,
          backfill_from-linked 0 genesis_prev_hash ps ph table (all_unchained rows) linked,
        )
        (IsLinked-unique 0 genesis_prev_hash whole (write_all sha256 columns table rows)
          (IsLinked-append sha256 columns 0 genesis_prev_hash table filled linked (
            backfill_from-IsLinked (0 + length table)
              (end_hash sha256 columns 0 genesis_prev_hash table) ps ph rows at_seq at_prev))
          (write_all-IsLinked sha256 digest columns table rows linked)
          (contents_of-append table filled
            ∙ ap (λ (more : List (List (Text × Value))). contents_of table ++ more)
                (contents_of-backfill_from ps ph rows)
            ∙ sym (contents_of-write_all table rows)))
