-- ===== src/Chain/Writer.antt =====
-- The writer `_extend_chain` of storage/sqlite_store.py against the verifier of
-- storage/evidence_chain.py.
use linux_xai_security_assis.Base.{
  ℕ, suc, ◌+◌, ◌≤◌, ◌≡◌, ◌⊎◌, refl, ap, ◌∙◌, true, Option, none, some, List, [], ◌∷◌, arith, Text,
  All, length, length-append,
}
use linux_xai_security_assis.Chain.Json.{Value}
use linux_xai_security_assis.Chain.{
  Row, genesis_prev_hash, next_seq, or_genesis, serialize_core, chain_head, head_from, later_row,
  order_by_chain_seq, link_hash, next_link, verify_chain, verify_table, extended, extend_chain,
  write_all,
}
use linux_xai_security_assis.Chain.Linked.{
  IsLinked, end_hash, link, IsLinked-append, IsLinked→verify_from,
}

abbrev pub IsHexDigit : ℕ → Type 0
IsHexDigit c = ((48 ≤ c) × (c ≤ 57)) ⊎ ((97 ≤ c) × (c ≤ 102))

-- What the chain relies on of `hashlib.sha256(…).hexdigest()`: 64 hexadecimal digits.
pub record IsHexDigest (sha256 : Text → Text) : Type 0 where
  pub size : (t : Text) → length (sha256 t) ≡ 64
  pub digits : (t : Text) → All IsHexDigit (sha256 t)

-- The head of the chain stands just before `seq`, with the hash `prev`.
abbrev pub AtHead : ℕ → Text → Option Row → Type 0
AtHead seq prev none = (seq ≡ 0) × (prev ≡ genesis_prev_hash)
AtHead seq prev (some row) =
    (m : ℕ) × (row.chain_seq ≡ some m)
    × (m + 1 ≡ seq)
    × (row.chain_hash ≡ some prev)
    × (1 ≤ length prev)

pub or_genesis-some : (t : Text) → 1 ≤ length t → or_genesis (some t) ≡ t
unfolding or_genesis
or_genesis-some [] h = elim h [ ]
or_genesis-some (c ∷ t) h = refl

-- Rows stored in chain order stay where they are.
order_of_IsLinked :
    (sha256 : Text → Text) (columns : List Text) (seq : ℕ) (prev : Text) (rows : List Row)
    → IsLinked sha256 columns seq prev rows
    → order_by_chain_seq rows ≡ rows
unfolding order_by_chain_seq
order_of_IsLinked sha256 columns seq prev [] h = refl
order_of_IsLinked sha256 columns seq prev (row ∷ []) h = refl
order_of_IsLinked sha256 columns seq prev (row ∷ next ∷ rows) h =
    rw
      (order_of_IsLinked sha256 columns (seq + 1) (link sha256 columns seq prev row) (next ∷ rows)
        h.3)
      (ground (arith, h.0, h.3.0))

module _ (sha256 : Text → Text) (digest : IsHexDigest sha256) (columns : List Text) where
  pub link_size :
      (seq : ℕ) (prev : Text) (row : Row) → 1 ≤ length (link sha256 columns seq prev row)
  unfolding link_hash
  link_size seq prev row = omega (arith, digest.size)

  AtHead-later_row :
      (seq : ℕ) (prev : Text) (best : Option Row) (row : Row)
      → AtHead seq prev best
      → row.chain_seq ≡ some seq
      → later_row row best ≡ some row
  unfolding later_row
  AtHead-later_row seq prev none row h e = rw e
  AtHead-later_row seq prev (some best) row h e = ground (arith, h.1, h.2)

  pub AtHead-head_from :
      (seq : ℕ) (prev : Text) (best : Option Row) (rows : List Row)
      → AtHead seq prev best
      → IsLinked sha256 columns seq prev rows
      → AtHead (seq + length rows) (end_hash sha256 columns seq prev rows) (head_from best rows)
  unfolding head_from
  AtHead-head_from seq prev best [] h l = let e : seq + 0 ≡ seq = omega arith in rw e h
  AtHead-head_from seq prev best (row ∷ rows) h l =
      let e : seq + suc (length rows) ≡ seq + 1 + length rows = omega arith in
      rw (e, AtHead-later_row seq prev best row h l.0)
        (AtHead-head_from (seq + 1) (link sha256 columns seq prev row) (some row) rows
          (seq, l.0, refl, l.2, link_size seq prev row) l.3)

  -- The row that the writer appends after a head continues the chain.
  extended-IsLinked :
      (seq : ℕ) (prev : Text) (head : Option Row) (fields : List (Text × Value))
      → AtHead seq prev head
      → IsLinked sha256 columns seq prev (extended sha256 columns head fields ∷ [])
  unfolding next_link serialize_core
  extended-IsLinked seq prev none fields h = ground arith
  extended-IsLinked seq prev (some row) fields h =
      let at : next_seq row.chain_seq ≡ seq = ap next_seq h.1 ∙ h.2 in
      let after : or_genesis row.chain_hash ≡ prev = rw h.3 (or_genesis-some prev h.4) in
      rw (at, after) (refl, refl, refl, tt)

  -- One insert keeps a table linked.
  pub extend_chain-IsLinked :
      (table : List Row) (fields : List (Text × Value))
      → IsLinked sha256 columns 0 genesis_prev_hash table
      → IsLinked sha256 columns 0 genesis_prev_hash (extend_chain sha256 columns table fields)
  unfolding extend_chain
  extend_chain-IsLinked table fields h =
      IsLinked-append sha256 columns 0 genesis_prev_hash table
        (extended sha256 columns (chain_head table) fields ∷ []) h
        (extended-IsLinked (0 + length table) (end_hash sha256 columns 0 genesis_prev_hash table)
          (chain_head table) fields
          (AtHead-head_from 0 genesis_prev_hash none table (refl, refl) h))

  pub write_all-IsLinked :
      (table : List Row) (rows : List (List (Text × Value)))
      → IsLinked sha256 columns 0 genesis_prev_hash table
      → IsLinked sha256 columns 0 genesis_prev_hash (write_all sha256 columns table rows)
  unfolding write_all
  write_all-IsLinked table [] h = h
  write_all-IsLinked table (fields ∷ rows) h =
      write_all-IsLinked (extend_chain sha256 columns table fields) rows
        (extend_chain-IsLinked table fields h)

  length-write_all :
      (table : List Row) (rows : List (List (Text × Value)))
      → length (write_all sha256 columns table rows) ≡ length table + length rows
  unfolding write_all extend_chain
  length-write_all table [] = omega arith
  length-write_all table (fields ∷ rows) =
      length-write_all (extend_chain sha256 columns table fields) rows
      ∙ omega (arith, length-append table (extended sha256 columns (chain_head table) fields ∷ []))

  -- Every table that was written row by row through `_extend_chain`, whatever the rows, verifies:
  -- the verdict is ok, with every row counted, no break and no reason.
  pub write_all-verifies :
      (rows : List (List (Text × Value)))
      → verify_table sha256 columns (write_all sha256 columns [] rows)
        ≡ record { ok = true; checked = length rows; break_seq = none; reason = none }
  unfolding verify_table
  write_all-verifies rows =
      let table = write_all sha256 columns [] rows in
      let linked = write_all-IsLinked [] rows tt in
      rw (order_of_IsLinked sha256 columns 0 genesis_prev_hash table linked) (
        unfold verify_chain in
        IsLinked→verify_from sha256 columns 0 genesis_prev_hash 0 table linked
        ∙ ground (arith, length-write_all [] rows))
