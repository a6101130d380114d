-- ===== src/Triage/Page/Samples.antt =====
-- Findings and annotations for the page of storage/sqlite_store.py.
use mathlib.Core.List.{Memᴰ}
use linux_xai_security_assis.Base.{
  ℕ, ◌*◌, ◌≤◌, ◌≡◌, ◌↔◌, refl, Bool, true, false, none, some, List, [], ◌∷◌, map, length, Text,
  codes, arith, All, same_text, lookup,
}
use linux_xai_security_assis.Triage.{Stored}
use linux_xai_security_assis.Triage.Page.{
  FindingRow, Enriched, enrich, Filters, Key, number, descending, PageRead, invalid_order,
  read_detection_findings_page, detection, finding_sort_expressions, directions,
}
use linux_xai_security_assis.Triage.Page.Effective.{rows_of, page-detection}
use linux_xai_security_assis.Triage.Page.Filtered.{IsWanted}
use linux_xai_security_assis.Triage.Page.Walk.{pages, total_of, pages-IsListing}
use linux_xai_security_assis.Triage.Page.Ordered.{IsOrdered}

abbrev same : Text → Text
same t = t

abbrev finding : ℕ → ℕ → Text → Bool → FindingRow
finding id score severity suppressed = record {
  id = id;
  window_start = 300 * id;
  window_end = 300 * id;
  risk_score = score;
  entity_type = codes "process";
  severity = severity;
  suppressed = suppressed;
}

abbrev findings : List FindingRow
findings =
    finding 1 40 (codes "LOW") false
    ∷ finding 2 90 (codes "HIGH") false
    ∷ finding 3 40 (codes "LOW") true
    ∷ finding 4 95 (codes "HIGH") false
    ∷ []

abbrev stored : ℕ → Text → Stored
stored id action = record {
  annotation = record {
    finding_id = id;
    action = action;
    disposition = some (codes "benign");
    note = none;
    actor = none;
    created_at = codes "1.5";
  };
  chain_seq = none;
  chain_prev_hash = none;
  chain_hash = none;
}

-- Finding 2 is suppressed and no longer, finding 1 has a disposition, finding 4 is suppressed.
abbrev annotations : List Stored
annotations =
    stored 2 (codes "suppress")
    ∷ stored 1 (codes "disposition")
    ∷ stored 2 (codes "unsuppress")
    ∷ stored 4 (codes "suppress")
    ∷ []

-- What is not suppressed, by a rule or by an analyst.
abbrev filters : Filters
filters = record {
  severity = none;
  entity_type = some (codes "process");
  disposition = none;
  acknowledged = none;
  suppressed = some false;
  window_start = none;
  window_end = some 1200;
}

abbrev ids : PageRead → List ℕ
ids read = map (λ (e : Enriched). e.finding.id) (rows_of read)

abbrev read : ℕ → Text → PageRead
read offset order =
    read_detection_findings_page same findings annotations 1 offset (codes "risk_score") order
      filters

first_page : (ids (read 0 (codes "desc")) ≡ 2 ∷ []) × (total_of (read 0 (codes "desc")) ≡ 2)
unfolding read_detection_findings_page same_text
first_page = (refl, refl)

second_page : ids (read 1 (codes "desc")) ≡ 1 ∷ []
unfolding read_detection_findings_page same_text
second_page = refl

no_order : read 0 (codes "random") ≡ invalid_order (codes "random")
unfolding read_detection_findings_page same_text
no_order = refl

page-detection_example :
    All
      (λ (e : Enriched). detection findings annotations e.finding.id ≡ some e)
      (rows_of (
        read_detection_findings_page same findings annotations 1 0
          (codes "risk_score")
          (codes "desc")
          filters))
page-detection_example =
    page-detection same findings annotations 1 0 (codes "risk_score") (codes "desc") filters
      (omega arith)

abbrev by_score : FindingRow → Key
by_score f = number f.risk_score

sorts : lookup (codes "risk_score") finding_sort_expressions ≡ some by_score
unfolding lookup same_text
sorts = refl

goes : lookup (same (codes "desc")) directions ≡ some descending
unfolding lookup same_text
goes = refl

enough : total_of (read 0 (codes "desc")) ≤ 2 * 1
unfolding read_detection_findings_page same_text
enough = omega arith

abbrev listed : List Enriched
listed = pages same findings annotations 1 (codes "risk_score") (codes "desc") filters 2 0

pages-IsListing_example :
    IsOrdered by_score descending listed
    × (length listed ≡ total_of (read 0 (codes "desc")))
    × ((e : Enriched)
        → Memᴰ e listed ↔ (Memᴰ e (map (enrich annotations) findings) × IsWanted filters e))
pages-IsListing_example =
    pages-IsListing same findings annotations 1 (codes "risk_score") (codes "desc") filters by_score
      descending sorts goes (omega arith) (omega arith) 2 enough
