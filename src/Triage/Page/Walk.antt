-- ===== src/Triage/Page/Walk.antt =====
-- Reading all pages of `read_detection_findings_page` of storage/sqlite_store.py one after the other.
use mathlib.Core.List.{Memᴰ}
use linux_xai_security_assis.Base.{
  ℕ, zero, suc, ◌+◌, ◌*◌, ◌≤◌, ◌≡◌, refl, sym, ap, ◌∙◌, ◌↔◌, some, List, [], ◌∷◌, ◌++◌, map, keep,
  drop, length, length-drop, take-append-drop, drop-drop, min, max, arith, Text, lookup,
  sort_by_iff, keep_iff, length-sort_by, sort_by-IsSortedBy,
}
use linux_xai_security_assis.Triage.{Stored}
use linux_xai_security_assis.Triage.Page.{
  FindingRow, Enriched, enrich, Filters, passes, Key, Direction, comes_before, slice, matching,
  PageRead, unsortable_field, invalid_order, page, read_detection_findings_page,
  finding_sort_expressions, directions,
}
use linux_xai_security_assis.Triage.Page.Effective.{rows_of}
use linux_xai_security_assis.Triage.Page.Ordered.{
  IsOrdered, IsSortedBy-IsOrdered, before_total, before_trans,
}
use linux_xai_security_assis.Triage.Page.Filtered.{IsWanted, passes_iff}

-- Slices of a list, one after the other.
abbrev slices : ℕ → ℕ → ℕ → List Enriched → List Enriched
slices limit zero offset rows = []
slices limit (suc k) offset rows = slice limit offset rows ++ slices limit k (offset + limit) rows

slices_lem :
    (limit k offset : ℕ) (rows : List Enriched)
    → length (drop offset rows) ≤ k * limit
    → slices limit k offset rows ≡ drop offset rows
slices_lem limit zero offset rows h = sym (empty (drop offset rows) (omega (arith, h)))
  where
    empty : (xs : List Enriched) → length xs ≡ 0 → xs ≡ []
    empty [] e = refl
    empty (x ∷ xs) e = absurd (omega arith)
slices_lem limit (suc k) offset rows h =
    let later =
      slices_lem limit k (offset + limit) rows
        (grind (arith, length-drop (offset + limit) rows, length-drop offset rows)) in
    rw later (rw (sym (drop-drop offset limit rows)) (take-append-drop limit (drop offset rows)))

abbrev pub total_of : PageRead → ℕ
total_of (unsortable_field sort) = 0
total_of (invalid_order order) = 0
total_of (page rows total) = total

module _ (lower : Text → Text) (findings : List FindingRow) (annotations : List Stored) (limit : ℕ)
    (sort order : Text) (filters : Filters) where
  abbrev pub page_at : ℕ → PageRead
  page_at offset =
      read_detection_findings_page lower findings annotations limit offset sort order filters

  -- The rows of so many pages, each read where the one before it ends.
  abbrev pub pages : ℕ → ℕ → List Enriched
  pages zero offset = []
  pages (suc k) offset = rows_of (page_at offset) ++ pages k (offset + limit)

  module _ (key : FindingRow → Key) (direction : Direction)
      (sorts : lookup sort finding_sort_expressions ≡ some key)
      (goes : lookup (lower order) directions ≡ some direction) (least : 1 ≤ limit)
      (most : limit ≤ 500) where
    listing : List Enriched
    listing = matching findings annotations filters key direction

    page_lem :
        (offset : ℕ)
        → page_at offset
          ≡ page
              (slice limit offset listing)
              (length (keep (passes filters) (map (enrich annotations) findings)))
    unfolding read_detection_findings_page listing
    page_lem offset =
        let kept : max 1 (min limit 500) ≡ limit = omega arith in
        rw (sorts, goes, kept, read_detection_findings_page) refl

    pages-slices : (k offset : ℕ) → pages k offset ≡ slices limit k offset listing
    pages-slices zero offset = refl
    pages-slices (suc k) offset = rw (page_lem offset, pages-slices k (offset + limit)) refl

    listing_iff :
        (e : Enriched)
        → Memᴰ e listing ↔ (Memᴰ e (map (enrich annotations) findings) × IsWanted filters e)
    unfolding listing matching
    listing_iff e =
        let all = map (enrich annotations) findings in
        let sorted = sort_by_iff (comes_before key direction) (keep (passes filters) all) e in
        let kept = keep_iff (passes filters) all e in
        let wanted = passes_iff filters e in
        (
          (λ m. let (member, passed) = kept.0 (sorted.0 m) in (member, wanted.0 passed)),
          λ (m, w). sorted.1 (kept.1 (m, wanted.1 w)),
        )

    -- With a field and an order that are known, a limit from 1 to 500, and pages enough for the
    -- total that the first one reports: the pages one after the other are the findings whose row
    -- with its triage state meets every filter that is given, and no others, as many as the total,
    -- in the order asked for by that field and then by `id`.
    pub pages-IsListing :
        (k : ℕ)
        → total_of (page_at 0) ≤ k * limit
        → IsOrdered key direction (pages k 0)
          × (length (pages k 0) ≡ total_of (page_at 0))
          × ((e : Enriched)
              → Memᴰ e (pages k 0)
                ↔ (Memᴰ e (map (enrich annotations) findings) × IsWanted filters e))
    unfolding listing matching
    pages-IsListing k enough =
        let kept = keep (passes filters) (map (enrich annotations) findings) in
        let size : length listing ≡ length kept =
          length-sort_by (comes_before key direction) kept in
        let total : total_of (page_at 0) ≡ length kept = ap total_of (page_lem 0) in
        let whole : pages k 0 ≡ listing =
          pages-slices k 0 ∙ slices_lem limit k 0 listing (omega (arith, size, total, enough)) in
        rw whole (
          IsSortedBy-IsOrdered key direction listing (
              sort_by-IsSortedBy (comes_before key direction) (before_total key direction)
                (before_trans key direction) kept),
          size ∙ sym total,
          listing_iff,
        )
