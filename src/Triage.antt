-- ===== src/Triage.antt =====
-- storage/sqlite_store.py: the analyst's triage log. `write_triage_annotation` appends a row and
-- chains it, `read_triage_annotations` reads the history, and `read_latest_triage_state` folds it.
pub mod Latest
pub mod Writer
pub mod Page
mod Samples
use linux_xai_security_assis.Base.{
  ℕ, suc, ◌+◌, min, max, Bool, true, false, Option, none, some, List, [], ◌∷◌, ◌++◌, map, any, take,
  keep, ◌==◌, if◌then◌else◌, Text, codes, same_text, decimal,
}
use linux_xai_security_assis.Chain.Json.{Value, null, number, text}
use linux_xai_security_assis.Chain.Columns.{triage_chain_columns}
use linux_xai_security_assis.Chain.{Row, chain_head, extended}

-- The columns of `triage_annotations` that the writer fills; a time is its JSON literal.
pub record Annotation : Type 0 where
  pub finding_id : ℕ
  pub action : Text
  pub disposition : Option Text
  pub note : Option Text
  pub actor : Option Text
  pub created_at : Text

-- A stored row, in `id` order in its table.
pub record Stored : Type 0 where
  pub annotation : Annotation
  pub chain_seq : Option ℕ
  pub chain_prev_hash : Option Text
  pub chain_hash : Option Text

abbrev nullable : Option Text → Value
nullable none = null
nullable (some t) = text t

-- The covered columns of a row.
abbrev pub columns_of : Annotation → List (Text × Value)
columns_of a =
    (codes "finding_id", number (decimal a.finding_id))
    ∷ (codes "action", text a.action)
    ∷ (codes "disposition", nullable a.disposition)
    ∷ (codes "note", nullable a.note)
    ∷ (codes "actor", nullable a.actor)
    ∷ (codes "created_at", number a.created_at)
    ∷ []

-- The row as the chain reads it.
abbrev pub as_row : Stored → Row
as_row s = record {
  fields = columns_of s.annotation;
  chain_seq = s.chain_seq;
  chain_prev_hash = s.chain_prev_hash;
  chain_hash = s.chain_hash;
}

abbrev pub triage_actions : List Text
triage_actions =
    codes "acknowledge"
    ∷ codes "annotate"
    ∷ codes "disposition"
    ∷ codes "suppress"
    ∷ codes "unsuppress"
    ∷ []

abbrev pub triage_dispositions : List Text
triage_dispositions = codes "true-positive" ∷ codes "false-positive" ∷ codes "benign" ∷ []

-- `t in texts`
unfoldable pub is_in : Text → List Text → Bool
is_in t texts = any (same_text t) texts

-- The `ValueError`s.
pub data Refusal : Type 0 where
  unknown_action unknown_disposition : Text → Refusal
  disposition_required : Refusal

pub data Outcome : Type 0 where
  refused : Refusal → Outcome
  written : Stored → List Stored → Outcome

-- `action == "disposition"`
unfoldable pub is_disposition : Text → Bool
unfolding same_text
is_disposition action = same_text action (codes "disposition")

-- `disposition if action == "disposition" else None`
unfoldable pub kept_disposition : Text → Option Text → Option Text
kept_disposition action disposition = if is_disposition action then disposition else none

module _ (sha256 : Text → Text) where
  -- The insert, and `_extend_chain` of the row.
  unfoldable pub append : List Stored → Annotation → Outcome
  append table a =
      let row : Row =
        extended sha256 triage_chain_columns (chain_head (map as_row table)) (columns_of a) in
      let stored : Stored = record {
        annotation = a;
        chain_seq = row.chain_seq;
        chain_prev_hash = row.chain_prev_hash;
        chain_hash = row.chain_hash;
      } in
      written stored (table ++ stored ∷ [])

  -- The checks of the disposition that is kept, then the write.
  unfoldable pub checked : List Stored → Annotation → Option Text → Outcome
  checked table a none =
      if is_disposition a.action then refused disposition_required else append table a
  checked table a (some d) =
      if is_in d triage_dispositions then append table a else refused (unknown_disposition d)

  -- `write_triage_annotation`, with `created_at` or else the clock already in the row.
  unfoldable pub write_triage_annotation : List Stored → Annotation → Outcome
  write_triage_annotation table a =
      let disposition = kept_disposition a.action a.disposition in
      if is_in a.action triage_actions
      then checked table (record a { disposition = disposition }) disposition
      else refused (unknown_action a.action)

-- `read_triage_annotations`
unfoldable pub read_triage_annotations : List Stored → Option ℕ → ℕ → List Stored
read_triage_annotations table finding_id limit =
    let most = max 1 (min limit 5000) in
    elim finding_id [
      | none ↦ take most table
      | some id ↦ take most (keep (λ (s : Stored). s.annotation.finding_id == id) table)
    ]

-- The summary of one finding.
pub record Entry : Type 0 where
  pub disposition : Option Text
  pub acknowledged : Bool
  pub suppressed : Bool
  pub annotation_count : ℕ

abbrev pub fresh : Entry
fresh = record {
  disposition = none;
  acknowledged = false;
  suppressed = false;
  annotation_count = 0;
}

-- The body of the loop, on the entry that `setdefault` returned.
unfoldable pub updated : Annotation → Entry → Entry
updated a entry =
    let counted : Entry = record entry { annotation_count = entry.annotation_count + 1 } in
    if same_text a.action (codes "acknowledge")
    then record counted { acknowledged = true }
    else if same_text a.action (codes "disposition")
    then record counted { disposition = a.disposition }
    else if same_text a.action (codes "suppress")
    then record counted { suppressed = true }
    else if same_text a.action (codes "unsuppress")
    then record counted { suppressed = false }
    else counted

-- The dictionary, in the order of insertion.
abbrev pub States : Type 0
States = List (ℕ × Entry)

unfoldable pub update : Annotation → States → States
update a [] = (a.finding_id, updated a fresh) ∷ []
update a ((id, entry) ∷ states) =
    let rest = update a states in
    if id == a.finding_id then (id, updated a entry) ∷ states else (id, entry) ∷ rest

unfoldable pub fold : States → List Stored → States
unfolding update
fold states [] = states
fold states (s ∷ rows) = fold (update s.annotation states) rows

-- `read_latest_triage_state`
unfoldable pub read_latest_triage_state : List Stored → States
unfolding fold
read_latest_triage_state table = fold [] table
