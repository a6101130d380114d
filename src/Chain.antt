-- ===== src/Chain.antt =====
-- storage/evidence_chain.py, and of storage/sqlite_store.py the writer `_extend_chain` and the
-- readers `verify_*_chain`. SHA-256 is the parameter `sha256`: the hexadecimal digest of a text.
pub mod Json
pub mod Columns
pub mod Linked
pub mod Writer
pub mod Readable
pub mod Tamper
pub mod Drawn
pub mod Toy
mod Samples
use linux_xai_security_assis.Base.{
  ℕ, zero, suc, ◌+◌, ◌≡◌, Bool, true, false, not, Option, none, some, List, [], ◌∷◌, ◌++◌, map,
  Text, same_text, decimal, ltb, ◌==◌, if◌then◌else◌,
}
use Json.{Value, null, dumps}

-- A stored row: its covered columns, and the three `chain_*` columns, NULL until it is chained.
pub record Row : Type 0 where
  pub fields : List (Text × Value)
  pub chain_seq : Option ℕ
  pub chain_prev_hash : Option Text
  pub chain_hash : Option Text

-- `"0" * 64`
abbrev zeros : ℕ → Text
zeros zero = []
zeros (suc n) = 48 ∷ zeros n

unfoldable pub genesis_prev_hash : Text
genesis_prev_hash = zeros 64

-- `row.get(name)`
pub get : List (Text × Value) → Text → Value
get [] name = null
get ((key, value) ∷ fields) name = if same_text key name then value else get fields name

pub pairs : List Text → List (Text × Value) → List (Text × Value)
unfolding get same_text
pairs [] fields = []
pairs (name ∷ names) fields = (name, get fields name) ∷ pairs names fields

unfoldable pub serialize_core : List Text → Row → Text
unfolding pairs dumps
serialize_core columns row = dumps (pairs columns row.fields)

-- What `next_link` returns.
pub record Link : Type 0 where
  pub seq : ℕ
  pub prev_hash : Text
  pub hash : Text

-- `int(prev_seq) + 1`, or 0 for the first row
abbrev pub next_seq : Option ℕ → ℕ
next_seq none = 0
next_seq (some n) = n + 1

-- `prev_hash if prev_hash else GENESIS_PREV_HASH`: an empty text counts as missing
unfoldable pub or_genesis : Option Text → Text
or_genesis none = genesis_prev_hash
or_genesis (some []) = genesis_prev_hash
or_genesis (some (c ∷ cs)) = c ∷ cs

pub data Reason : Type 0 where
  non_contiguous : ℕ → Option ℕ → Reason
  broken_linkage hash_mismatch : ℕ → Reason

pub record Verification : Type 0 where
  pub ok : Bool
  pub checked : ℕ
  pub break_seq : Option ℕ
  pub reason : Option Reason

-- `row.get("chain_seq") == index`, and a stored text against a computed one
unfoldable pub seq_is : Option ℕ → ℕ → Bool
seq_is none index = false
seq_is (some seq) index = seq == index

unfoldable pub text_is : Option Text → Text → Bool
unfolding same_text
text_is none text = false
text_is (some stored) text = same_text stored text

abbrev failed : ℕ → Option ℕ → Reason → Verification
failed checked seq reason = record {
  ok = false;
  checked = checked;
  break_seq = seq;
  reason = some reason;
}

-- `ORDER BY chain_seq ASC, id ASC` over the table in `id` order; NULL sorts first.
abbrev pub seq_before : Option ℕ → Option ℕ → Bool
seq_before none none = false
seq_before none (some b) = true
seq_before (some a) none = false
seq_before (some a) (some b) = ltb a b

pub insert_row : Row → List Row → List Row
insert_row row [] = row ∷ []
insert_row row (r ∷ rs) =
    let rest = insert_row row rs in
    if seq_before r.chain_seq row.chain_seq then r ∷ rest else row ∷ r ∷ rs

pub order_by_chain_seq : List Row → List Row
unfolding insert_row
order_by_chain_seq [] = []
order_by_chain_seq (row ∷ table) = insert_row row (order_by_chain_seq table)

-- `WHERE chain_seq IS NOT NULL ORDER BY chain_seq DESC LIMIT 1`
unfoldable pub later_row : Row → Option Row → Option Row
later_row row none = elim row.chain_seq [ none ↦ none | some _ ↦ some row ]
later_row row (some best) = if seq_before best.chain_seq row.chain_seq then some row else some best

unfoldable pub head_from : Option Row → List Row → Option Row
unfolding later_row
head_from best [] = best
head_from best (row ∷ table) = head_from (later_row row best) table

unfoldable pub chain_head : List Row → Option Row
unfolding head_from
chain_head = head_from none

module _ (sha256 : Text → Text) where
  -- `f"{seq}\n{prev_hash}\n{serialized}"`
  unfoldable pub link_hash : ℕ → Text → Text → Text
  link_hash seq prev_hash serialized =
      sha256 (decimal seq ++ (10 ∷ (prev_hash ++ (10 ∷ serialized))))

  pub content_hash : List Text → Row → Text
  content_hash columns row = sha256 (serialize_core columns row)

  unfoldable pub next_link : Option ℕ → Option Text → List Text → Row → Link
  unfolding or_genesis link_hash
  next_link prev_seq prev_hash columns row =
      let seq = next_seq prev_seq in
      let prev = or_genesis prev_hash in
      record { seq = seq; prev_hash = prev; hash = link_hash seq prev (serialize_core columns row) }

  -- The loop of `verify_chain`, at position `index` with the last good hash and the count.
  pub verify_from : List Text → ℕ → Text → ℕ → List Row → Verification
  verify_from columns index prev checked [] = record {
    ok = true;
    checked = checked;
    break_seq = none;
    reason = none;
  }
  verify_from columns index prev checked (row ∷ rows) =
      let expected = link_hash index prev (serialize_core columns row) in
      let rest = verify_from columns (index + 1) expected (checked + 1) rows in
      if not (seq_is row.chain_seq index)
      then failed checked row.chain_seq (non_contiguous index row.chain_seq)
      else if not (text_is row.chain_prev_hash prev)
      then failed checked row.chain_seq (broken_linkage index)
      else if not (text_is row.chain_hash expected)
      then failed checked row.chain_seq (hash_mismatch index)
      else rest

  pub verify_chain : List Text → List Row → Verification
  unfolding verify_from seq_is text_is link_hash serialize_core genesis_prev_hash decimal
  verify_chain columns rows = verify_from columns 0 genesis_prev_hash 0 rows

  -- `_extend_chain` of a row just inserted at the end of its table.
  abbrev pub extended : List Text → Option Row → List (Text × Value) → Row
  extended columns head fields =
      let stored : Row = record {
        fields = fields;
        chain_seq = none;
        chain_prev_hash = none;
        chain_hash = none;
      } in
      let link : Link = elim head [
        | none ↦ next_link none none columns stored
        | some h ↦ next_link h.chain_seq h.chain_hash columns stored
      ] in
      record stored {
        chain_seq = some link.seq;
        chain_prev_hash = some link.prev_hash;
        chain_hash = some link.hash;
      }

  unfoldable pub extend_chain : List Text → List Row → List (Text × Value) → List Row
  unfolding chain_head next_link
  extend_chain columns table fields = table ++ extended columns (chain_head table) fields ∷ []

  -- A table after one insert for each list of columns.
  unfoldable pub write_all : List Text → List Row → List (List (Text × Value)) → List Row
  write_all columns table [] = table
  write_all columns table (fields ∷ more) =
      write_all columns (extend_chain columns table fields) more

  -- `verify_findings_chain`, `verify_policy_chain`, `verify_triage_chain`
  pub verify_table : List Text → List Row → Verification
  unfolding order_by_chain_seq verify_chain
  verify_table columns table = verify_chain columns (order_by_chain_seq table)
