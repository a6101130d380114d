-- ===== src/Triage/Page/Effective.antt =====
-- The triage state that the SQL of storage/sqlite_store.py computes, against the fold of
-- `read_latest_triage_state`: what a page shows of a finding and what its own route shows.
use linux_xai_security_assis.Base.{
  ℕ, ◌≡◌, refl, sym, ap, ◌∙◌, inl, inr, Bool, true, ◌&&◌, ◌||◌, Bool-cases, Option-cases, Option,
  none, some, List, [], ◌∷◌, any, keep, length, get_last?, ◌==◌, ==_iff, arith, codes, All, ◌≢◌,
  All-sort_by, All-keep, All-images, All-map, All-take, All-drop, Text, lookup, min, max,
}
use linux_xai_security_assis.Triage.{Stored, States, read_latest_triage_state}
use linux_xai_security_assis.Triage.Latest
use linux_xai_security_assis.Triage.Latest.{
  latest, is_about, summary, read_latest_triage_state-summary,
}
use linux_xai_security_assis.Triage.Page.{
  FindingRow, Enriched, enrich, state_of, effective, read_detection_finding, detection, has_action,
  of_finding, disposition_of, suppresses, sets_suppression, Filters, Key, Direction, matching,
  comes_before, passes, PageRead, unsortable_field, invalid_order, page,
  read_detection_findings_page, finding_sort_expressions, directions,
}

state_of-lookup : (states : States) (id : ℕ) → state_of states id ≡ Latest.lookup id states
state_of-lookup [] id = refl
state_of-lookup ((key, entry) ∷ states) id = rw (state_of-lookup states id) refl

module _ (p q : Stored → Bool) where
  keep-and : (rows : List Stored) → keep (λ s. p s && q s) rows ≡ keep q (keep p rows)
  keep-and [] = refl
  keep-and (s ∷ rows) = ground (arith, keep-and rows)

  any-and : (rows : List Stored) → any (λ s. p s && q s) rows ≡ any q (keep p rows)
  any-and [] = refl
  any-and (s ∷ rows) = ground (arith, any-and rows)

keep-true : (rows : List Stored) → keep (λ s. true) rows ≡ rows
keep-true [] = refl
keep-true (s ∷ rows) = ap (λ (l : List Stored). s ∷ l) (keep-true rows)

abbrev last_or : Stored → Option Stored → Option Stored
last_or s none = some s
last_or s (some t) = some t

get_last?-cons :
    (s : Stored) (rows : List Stored) → get_last? (s ∷ rows) ≡ last_or s (get_last? rows)
get_last?-cons s [] = refl
get_last?-cons s (t ∷ []) = refl
get_last?-cons s (t ∷ u ∷ rows) =
    let ih : get_last? (u ∷ rows) ≡ last_or t (get_last? (u ∷ rows)) =
      get_last?-cons t (u ∷ rows) in
    elim (Option-cases (get_last? (u ∷ rows))) [
      | inl nothing ↦ cc (ap (last_or t) nothing)
      | inr (found, is) ↦ is ∙ sym (ap (last_or s) is)
    ]

last-latest : (p : Stored → Bool) (rows : List Stored) → get_last? (keep p rows) ≡ latest p rows
last-latest p [] = refl
last-latest p (s ∷ rows) = elim (Bool-cases (p s)) [
  | inl taken ↦
      rw taken (get_last?-cons s (keep p rows) ∙ ground (arith, last-latest p rows, taken))
  | inr passed ↦ rw passed (last-latest p rows ∙ ground (arith, passed))
]

-- The row of a finding whose annotations are given.
abbrev of_rows : FindingRow → List Stored → Enriched
of_rows f rows = record {
  finding = f;
  triage_disposition = disposition_of (latest (has_action (codes "disposition")) rows);
  triage_acknowledged = any (has_action (codes "acknowledge")) rows;
  triage_suppressed = f.suppressed || suppresses (latest sets_suppression rows);
  triage_annotation_count = length rows;
}

newest-latest :
    (id : ℕ) (test : Stored → Bool) (annotations : List Stored)
    → get_last? (keep (of_finding id test) annotations)
      ≡ latest test (keep (is_about id) annotations)
newest-latest id test annotations =
    ap (λ (l : List Stored). get_last? l) (keep-and (is_about id) test annotations)
    ∙ last-latest test (keep (is_about id) annotations)

enrich-of_rows :
    (annotations : List Stored) (f : FindingRow)
    → enrich annotations f ≡ of_rows f (keep (is_about f.id) annotations)
unfolding enrich
enrich-of_rows annotations f =
    rw
      (
        newest-latest f.id (has_action (codes "disposition")) annotations,
        any-and (is_about f.id) (has_action (codes "acknowledge")) annotations,
        newest-latest f.id sets_suppression annotations,
        keep-and (is_about f.id) (λ s. true) annotations,
        keep-true (keep (is_about f.id) annotations),
      )
      refl

of_rows-effective :
    (f : FindingRow) (rows : List Stored) → of_rows f rows ≡ effective f (summary rows)
unfolding effective
of_rows-effective f [] = refl
of_rows-effective f (s ∷ rows) =
    elim (Option-cases (latest (has_action (codes "disposition")) (s ∷ rows))) [
      | inl undisposed ↦ elim (Option-cases (latest sets_suppression (s ∷ rows))) [
        | inl untouched ↦ rw (undisposed, untouched) refl
        | inr (row, sets) ↦ rw (undisposed, sets) refl
      ]
      | inr (disposes, is) ↦ elim (Option-cases (latest sets_suppression (s ∷ rows))) [
        | inl untouched ↦ rw (is, untouched) refl
        | inr (row, sets) ↦ rw (is, sets) refl
      ]
    ]

-- The columns that the query computes are those of the fold.
enrich-effective :
    (annotations : List Stored) (f : FindingRow)
    → enrich annotations f ≡ effective f (state_of (read_latest_triage_state annotations) f.id)
enrich-effective annotations f =
    enrich-of_rows annotations f
    ∙ of_rows-effective f (keep (is_about f.id) annotations)
    ∙ ap (effective f) (
        sym (
          state_of-lookup (read_latest_triage_state annotations) f.id
          ∙ read_latest_triage_state-summary annotations f.id))

-- `id` is the primary key.
abbrev pub IsKeyed : List FindingRow → Type 0
IsKeyed [] = Unit
IsKeyed (f ∷ findings) = All (λ (g : FindingRow). g.id ≢ f.id) findings × IsKeyed findings

abbrev IsFound : List FindingRow → FindingRow → Type 0
IsFound findings f = read_detection_finding findings f.id ≡ some f

IsFound-behind :
    (f g : FindingRow) (findings : List FindingRow)
    → g.id ≢ f.id
    → IsFound findings g
    → IsFound (f ∷ findings) g
unfolding read_detection_finding
IsFound-behind f g findings other found = elim (Bool-cases (f.id == g.id)) [
  | inl same ↦ absurd (other (sym ((==_iff f.id g.id).0 same)))
  | inr differ ↦ rw differ found
]

All-IsFound_behind :
    (f : FindingRow) (findings more : List FindingRow)
    → All (λ (g : FindingRow). g.id ≢ f.id) more
    → All (IsFound findings) more
    → All (IsFound (f ∷ findings)) more
All-IsFound_behind f findings [] h k = tt
All-IsFound_behind f findings (g ∷ more) h k =
    (IsFound-behind f g findings h.0 k.0, All-IsFound_behind f findings more h.1 k.1)

All-IsFound : (findings : List FindingRow) → IsKeyed findings → All (IsFound findings) findings
unfolding read_detection_finding
All-IsFound [] h = tt
All-IsFound (f ∷ findings) h = (
  rw ((==_iff f.id f.id).1 refl) refl,
  All-IsFound_behind f findings findings h.0 (All-IsFound findings h.1),
)

abbrev IsShown : List FindingRow → List Stored → Enriched → Type 0
IsShown findings annotations e = detection findings annotations e.finding.id ≡ some e

found-IsShown :
    (findings : List FindingRow) (annotations : List Stored) (f : FindingRow)
    → IsFound findings f
    → IsShown findings annotations (enrich annotations f)
unfolding detection enrich
found-IsShown findings annotations f h =
    rw (h, detection) (ap some (sym (enrich-effective annotations f)))

matching-IsShown :
    (findings : List FindingRow) (annotations : List Stored) (filters : Filters)
    (key : FindingRow → Key) (direction : Direction)
    → IsKeyed findings
    → All (IsShown findings annotations) (matching findings annotations filters key direction)
unfolding matching
matching-IsShown findings annotations filters key direction keyed =
    let P = IsShown findings annotations in
    All-sort_by (comes_before key direction) P _ (
      All-keep P (passes filters) _ (
        All-images P (enrich annotations) findings
          (All-map (found-IsShown findings annotations) findings (All-IsFound findings keyed))))

abbrev pub rows_of : PageRead → List Enriched
rows_of (unsortable_field sort) = []
rows_of (invalid_order order) = []
rows_of (page rows total) = rows

-- With an `id` for each finding of its own: whatever the page, its filters and its order, the route
-- of each finding on it answers with the very same row, its disposition, acknowledgement,
-- suppression and number of annotations included, though SQL computes the one and Python the other.
pub page-detection :
    (lower : Text → Text) (findings : List FindingRow) (annotations : List Stored)
    (limit offset : ℕ) (sort order : Text) (filters : Filters)
    → IsKeyed findings
    → All
        (λ (e : Enriched). detection findings annotations e.finding.id ≡ some e)
        (rows_of
          (read_detection_findings_page lower findings annotations limit offset sort order filters))
unfolding read_detection_findings_page
page-detection lower findings annotations limit offset sort order filters keyed =
    elim (Option-cases (lookup sort finding_sort_expressions)) [
      | inl unsortable ↦ rw (unsortable, read_detection_findings_page) tt
      | inr (key, sorts) ↦ elim (Option-cases (lookup (lower order) directions)) [
        | inl invalid ↦ rw (sorts, invalid, read_detection_findings_page) tt
        | inr (direction, goes) ↦
            rw (sorts, goes, read_detection_findings_page)
              (let P = IsShown findings annotations in
                All-take P (max 1 (min limit 500)) _ (
                  All-drop P offset _
                    (matching-IsShown findings annotations filters key direction keyed)))
      ]
    ]
