-- ===== src/Triage/Page.antt =====
-- storage/sqlite_store.py: `read_detection_findings_page`, the filtered, sorted and paged read of
-- the findings with their triage state, which SQL computes; and of api/app.py the route of one
-- finding, which folds the state in Python. Columns that neither looks at are left out. A time or
-- a score is counted in multiples of 2 ^ -1074; a negative limit or offset reads as 0 does.
pub mod Effective
pub mod Filtered
pub mod Ordered
pub mod Walk
mod Samples
use linux_xai_security_assis.Base.{
  ℕ, suc, ◌+◌, ◌*◌, min, max, Bool, true, false, not, ◌&&◌, ◌||◌, Option, none, some, List, [], ◌∷◌,
  ◌++◌, map, any, all, keep, take, drop, length, get_last?, leb, ltb, ◌==◌, if◌then◌else◌, Text,
  codes, same_text, Keyed, lookup, sort_by,
}
use linux_xai_security_assis.Policy.{text_leb}
use linux_xai_security_assis.Triage.{Stored, Entry, States, read_latest_triage_state}

-- The columns of `detection_findings` that filters, orders and the state read.
pub record FindingRow : Type 0 where
  pub id : ℕ
  pub window_start : ℕ
  pub window_end : ℕ
  pub risk_score : ℕ
  pub entity_type : Text
  pub severity : Text
  pub suppressed : Bool

-- A row of the `enriched` table.
pub record Enriched : Type 0 where
  pub finding : FindingRow
  pub triage_disposition : Option Text
  pub triage_acknowledged : Bool
  pub triage_suppressed : Bool
  pub triage_annotation_count : ℕ

-- `WHERE finding_id = f.id AND …`
abbrev pub of_finding : ℕ → (Stored → Bool) → Stored → Bool
of_finding id test s = s.annotation.finding_id == id && test s

abbrev pub has_action : Text → Stored → Bool
has_action name s = same_text s.annotation.action name

-- `ORDER BY id DESC LIMIT 1`, over a table in `id` order
abbrev newest : (Stored → Bool) → List Stored → Option Stored
newest test rows = get_last? (keep test rows)

abbrev pub disposition_of : Option Stored → Option Text
disposition_of none = none
disposition_of (some s) = s.annotation.disposition

-- `(SELECT action …) = 'suppress'`, which is not true of NULL
abbrev pub suppresses : Option Stored → Bool
suppresses none = false
suppresses (some s) = has_action (codes "suppress") s

abbrev pub sets_suppression : Stored → Bool
sets_suppression s = has_action (codes "suppress") s || has_action (codes "unsuppress") s

-- A row of the common table expression `enriched`.
unfoldable pub enrich : List Stored → FindingRow → Enriched
enrich annotations f = record {
  finding = f;
  triage_disposition =
      disposition_of (newest (of_finding f.id (has_action (codes "disposition"))) annotations);
  triage_acknowledged = any (of_finding f.id (has_action (codes "acknowledge"))) annotations;
  triage_suppressed =
      f.suppressed || suppresses (newest (of_finding f.id sets_suppression) annotations);
  triage_annotation_count = length (keep (of_finding f.id (λ s. true)) annotations);
}

pub record Filters : Type 0 where
  pub severity : Option Text
  pub entity_type : Option Text
  pub disposition : Option Text
  pub acknowledged : Option Bool
  pub suppressed : Option Bool
  pub window_start : Option ℕ
  pub window_end : Option ℕ

-- A clause that is added where its filter is given.
abbrev pub clause {ℓ} : {A : Type ℓ} → Option A → (A → Enriched → Bool) → List (Enriched → Bool)
clause none test = []
clause (some a) test = test a ∷ []

-- `triage_disposition IS NULL`, and `triage_disposition = ?`, which is not true of NULL
abbrev pub is_null : Option Text → Bool
is_null none = true
is_null (some t) = false

abbrev pub equals : Option Text → Text → Bool
equals none t = false
equals (some stored) t = same_text stored t

unfoldable pub disposition_clause : Text → Enriched → Bool
disposition_clause wanted e =
    if same_text wanted (codes "none")
    then is_null e.triage_disposition
    else equals e.triage_disposition wanted

abbrev pub same_flag : Bool → Bool → Bool
same_flag true b = b
same_flag false b = not b

abbrev pub clauses : Filters → List (Enriched → Bool)
clauses f =
    clause f.severity (λ t e. same_text e.finding.severity t)
    ++ (clause f.entity_type (λ t e. same_text e.finding.entity_type t)
        ++ (clause f.disposition disposition_clause
            ++ (clause f.acknowledged (λ b e. same_flag b e.triage_acknowledged)
                ++ (clause f.suppressed (λ b e. same_flag b e.triage_suppressed)
                    ++ (clause f.window_start (λ t e. leb t e.finding.window_start)
                        ++ clause f.window_end (λ t e. leb e.finding.window_start t))))))

-- The `WHERE` of the clauses, joined by AND.
unfoldable pub passes : Filters → Enriched → Bool
unfolding disposition_clause
passes f e = all (λ (c : Enriched → Bool). c e) (clauses f)

-- What a row is sorted by. SQLite has numbers before texts.
pub data Key : Type 0 where
  number : ℕ → Key
  name : Text → Key

abbrev severity_rank : Text → ℕ
severity_rank severity =
    if same_text severity (codes "CRITICAL")
    then 4
    else if same_text severity (codes "HIGH")
    then 3
    else if same_text severity (codes "MEDIUM")
    then 2
    else if same_text severity (codes "LOW")
    then 1
    else 0

-- `_FINDING_SORT_EXPRESSIONS`
abbrev pub finding_sort_expressions : Keyed (FindingRow → Key)
finding_sort_expressions =
    (codes "id", λ f. number f.id)
    ∷ (codes "window_start", λ f. number f.window_start)
    ∷ (codes "window_end", λ f. number f.window_end)
    ∷ (codes "risk_score", λ f. number f.risk_score)
    ∷ (codes "entity_type", λ f. name f.entity_type)
    ∷ (codes "severity", λ f. number (severity_rank f.severity))
    ∷ []

pub data Direction : Type 0 where
  ascending descending : Direction

abbrev pub directions : Keyed Direction
directions = (codes "asc", ascending) ∷ (codes "desc", descending) ∷ []

unfoldable pub sort_key_leb : Key → Key → Bool
unfolding text_leb
sort_key_leb (number a) (number b) = leb a b
sort_key_leb (number a) (name t) = true
sort_key_leb (name s) (number b) = false
sort_key_leb (name s) (name t) = text_leb s t

abbrev along : Direction → Key → Key → Bool
along ascending a b = sort_key_leb a b
along descending a b = sort_key_leb b a

-- `ORDER BY {sort_expr} {direction}, id ASC`
unfoldable pub comes_before : (FindingRow → Key) → Direction → Enriched → Enriched → Bool
unfolding sort_key_leb
comes_before key direction x y =
    along direction (key x.finding) (key y.finding)
    && (not (along direction (key y.finding) (key x.finding)) || leb x.finding.id y.finding.id)

-- `LIMIT ? OFFSET ?`
abbrev pub slice {ℓ} : {A : Type ℓ} → ℕ → ℕ → List A → List A
slice limit offset rows = take limit (drop offset rows)

-- The `ValueError`s, or the page and the number of all the rows that match.
pub data PageRead : Type 0 where
  unsortable_field invalid_order : Text → PageRead
  page : List Enriched → ℕ → PageRead

-- The rows that match, in the order asked for.
unfoldable pub matching :
    List FindingRow → List Stored → Filters → (FindingRow → Key) → Direction → List Enriched
unfolding enrich passes comes_before sort_by
matching findings annotations filters key direction =
    sort_by (comes_before key direction) (keep (passes filters) (map (enrich annotations) findings))

module _ (lower : Text → Text) where
  unfoldable pub read_detection_findings_page :
      List FindingRow → List Stored → ℕ → ℕ → Text → Text → Filters → PageRead
  unfolding matching lookup
  read_detection_findings_page findings annotations limit offset sort order filters =
      elim (lookup sort finding_sort_expressions) [
        | none ↦ unsortable_field sort
        | some key ↦ elim (lookup (lower order) directions) [
          | none ↦ invalid_order order
          | some direction ↦
              page
                (slice (max 1 (min limit 500)) offset
                  (matching findings annotations filters key direction))
                (length (keep (passes filters) (map (enrich annotations) findings)))
        ]
      ]

-- `read_detection_finding`
unfoldable pub read_detection_finding : List FindingRow → ℕ → Option FindingRow
read_detection_finding [] id = none
read_detection_finding (f ∷ findings) id =
    let rest = read_detection_finding findings id in if f.id == id then some f else rest

-- `state.get(finding_id, {})`, read with the defaults of the route
abbrev pub state_of : States → ℕ → Option Entry
state_of [] id = none
state_of ((key, entry) ∷ states) id =
    let rest = state_of states id in if key == id then some entry else rest

unfoldable pub effective : FindingRow → Option Entry → Enriched
effective f none = record {
  finding = f;
  triage_disposition = none;
  triage_acknowledged = false;
  triage_suppressed = f.suppressed || false;
  triage_annotation_count = 0;
}
effective f (some entry) = record {
  finding = f;
  triage_disposition = entry.disposition;
  triage_acknowledged = entry.acknowledged;
  triage_suppressed = f.suppressed || entry.suppressed;
  triage_annotation_count = entry.annotation_count;
}

-- The route `/api/detections/{finding_id}`; `none` is its 404.
unfoldable pub detection : List FindingRow → List Stored → ℕ → Option Enriched
unfolding read_detection_finding read_latest_triage_state effective
detection findings annotations id = elim (read_detection_finding findings id) [
  | none ↦ none
  | some f ↦ some (effective f (state_of (read_latest_triage_state annotations) id))
]
