-- ===== src/Triage/Latest.antt =====
-- The fold of `read_latest_triage_state` in storage/sqlite_store.py against a description in which
-- the latest row of each kind counts.
use linux_xai_security_assis.Base.{
  ℕ, suc, ◌+◌, ◌≡◌, refl, sym, ap, ◌∙◌, Bool, true, false, ◌||◌, Option, none, some, List, [], ◌∷◌,
  any, keep, length, ◌==◌, arith, if◌then◌else◌, Text, codes, same_text, same_text→eq, inl, inr,
  Bool-cases, Option-cases, ◌⊎◌,
}
use linux_xai_security_assis.Triage.{
  Annotation, Stored, Entry, fresh, updated, States, update, fold, read_latest_triage_state,
}

-- `state.get(finding_id)`
abbrev pub lookup : ℕ → States → Option Entry
lookup id [] = none
lookup id ((key, entry) ∷ states) =
    let rest = lookup id states in if key == id then some entry else rest

abbrev pub action_is : Text → Stored → Bool
action_is name s = same_text s.annotation.action name

-- The last row of a kind.
abbrev pub latest : (Stored → Bool) → List Stored → Option Stored
latest p [] = none
latest p (s ∷ rows) = elim (latest p rows) [
  | some found ↦ some found
  | none ↦ if p s then some s else none
]

-- The disposition that a row sets, and whether a row suppresses, with a default for no row.
abbrev or_else : Option Text → Option Stored → Option Text
or_else d none = d
or_else d (some s) = s.annotation.disposition

abbrev or_lasts : Bool → Option Stored → Bool
or_lasts b none = b
or_lasts b (some s) = action_is (codes "suppress") s

abbrev toggles : Stored → Bool
toggles s = action_is (codes "suppress") s || action_is (codes "unsuppress") s

abbrev pub is_about : ℕ → Stored → Bool
is_about id s = s.annotation.finding_id == id

-- A finding with rows is summed up by its last disposition, whether any row acknowledges it, its
-- last suppression or lifting of one, and the number of its rows.
abbrev pub summary : List Stored → Option Entry
summary [] = none
summary (s ∷ rows) = some (record {
  disposition = or_else none (latest (action_is (codes "disposition")) (s ∷ rows));
  acknowledged = any (action_is (codes "acknowledge")) (s ∷ rows);
  suppressed = or_lasts false (latest toggles (s ∷ rows));
  annotation_count = length (s ∷ rows);
})

-- The fold over the rows of one finding, from the entry it has.
abbrev pub entry_of : Option Entry → Entry
entry_of none = fresh
entry_of (some entry) = entry

abbrev fold_entry : Option Entry → List Stored → Option Entry
fold_entry o [] = o
fold_entry o (s ∷ rows) = fold_entry (some (updated s.annotation (entry_of o))) rows

pub lookup-update :
    (id : ℕ) (a : Annotation) (states : States)
    → lookup id (update a states) ≡ (
        if a.finding_id == id
        then some (updated a (entry_of (lookup id states)))
        else lookup id states)
unfolding update
lookup-update id a [] = refl
lookup-update id a ((key, entry) ∷ states) = ground (arith, lookup-update id a states)

lookup-fold :
    (id : ℕ) (states : States) (rows : List Stored)
    → lookup id (fold states rows) ≡ fold_entry (lookup id states) (keep (is_about id) rows)
unfolding fold
lookup-fold id states [] = refl
lookup-fold id states (s ∷ rows) = elim (Bool-cases (is_about id s)) [
  | inl same ↦ rw same (
      lookup-fold id (update s.annotation states) rows
      ∙ rw (lookup-update id s.annotation states, same) refl)
  | inr other ↦ rw other (
      lookup-fold id (update s.annotation states) rows
      ∙ rw (lookup-update id s.annotation states, other) refl)
]

-- What one action does to the columns of the summary, whichever action it is.
abbrev tests : Text → (Bool × Bool × Bool × Bool)
tests t = (
  same_text t (codes "acknowledge"),
  same_text t (codes "disposition"),
  same_text t (codes "suppress"),
  same_text t (codes "unsuppress"),
)

abbrev merged : Entry → List Stored → Entry
merged e rows = record {
  disposition = or_else e.disposition (latest (action_is (codes "disposition")) rows);
  acknowledged = e.acknowledged || any (action_is (codes "acknowledge")) rows;
  suppressed = or_lasts e.suppressed (latest toggles rows);
  annotation_count = e.annotation_count + length rows;
}

exclusive : (t u v : Text) → same_text t u ≡ true → same_text u v ≡ false → same_text t v ≡ false
exclusive t u v h e = rw (same_text→eq t u h) e

-- The four tests of the loop's body, at most one of which holds.
abbrev Kind : Text → Type 0
Kind t =
    (same_text t (codes "acknowledge") ≡ true)
      × (same_text t (codes "disposition") ≡ false)
      × (same_text t (codes "suppress") ≡ false)
      × (same_text t (codes "unsuppress") ≡ false)
    ⊎ ((same_text t (codes "acknowledge") ≡ false)
        × (same_text t (codes "disposition") ≡ true)
        × (same_text t (codes "suppress") ≡ false)
        × (same_text t (codes "unsuppress") ≡ false))
    ⊎ ((same_text t (codes "acknowledge") ≡ false)
        × (same_text t (codes "disposition") ≡ false)
        × (same_text t (codes "suppress") ≡ true)
        × (same_text t (codes "unsuppress") ≡ false))
    ⊎ ((same_text t (codes "acknowledge") ≡ false)
        × (same_text t (codes "disposition") ≡ false)
        × (same_text t (codes "suppress") ≡ false))

kind_of : (t : Text) → Kind t
unfolding same_text
kind_of t = elim (Bool-cases (same_text t (codes "acknowledge"))) [
  | inl is_ack ↦ inl (
    is_ack,
    exclusive t _ _ is_ack refl,
    exclusive t _ _ is_ack refl,
    exclusive t _ _ is_ack refl,
  )
  | inr no_ack ↦ elim (Bool-cases (same_text t (codes "disposition"))) [
    | inl is_disp ↦
        inr (inl (no_ack, is_disp, exclusive t _ _ is_disp refl, exclusive t _ _ is_disp refl))
    | inr no_disp ↦ elim (Bool-cases (same_text t (codes "suppress"))) [
      | inl is_supp ↦ inr (inr (inl (no_ack, no_disp, is_supp, exclusive t _ _ is_supp refl)))
      | inr no_supp ↦ inr (inr (inr (no_ack, no_disp, no_supp)))
    ]
  ]
]

latest-snoc :
    (p : Stored → Bool) (s : Stored) (rows : List Stored)
    → p s ≡ false
    → latest p (s ∷ rows) ≡ latest p rows
latest-snoc p s rows h = elim (Option-cases (latest p rows)) [
  | inl nothing ↦ rw (nothing, h) refl
  | inr (found, is) ↦ rw is refl
]

disposition-latest :
    (d : Option Text) (s : Stored) (rows : List Stored)
    → action_is (codes "disposition") s ≡ true
    → or_else s.annotation.disposition (latest (action_is (codes "disposition")) rows)
      ≡ or_else d (latest (action_is (codes "disposition")) (s ∷ rows))
disposition-latest d s rows h =
    elim (Option-cases (latest (action_is (codes "disposition")) rows)) [
      | inl nothing ↦ rw (nothing, h) refl
      | inr (found, is) ↦ rw is refl
    ]

suppressed-latest :
    (b : Bool) (s : Stored) (rows : List Stored)
    → toggles s ≡ true
    → or_lasts (action_is (codes "suppress") s) (latest toggles rows)
      ≡ or_lasts b (latest toggles (s ∷ rows))
suppressed-latest b s rows h = elim (Option-cases (latest toggles rows)) [
  | inl nothing ↦ rw (nothing, h) refl
  | inr (found, is) ↦ rw is refl
]

merged-updated :
    (e : Entry) (s : Stored) (rows : List Stored)
    → merged (updated s.annotation e) rows ≡ merged e (s ∷ rows)
unfolding updated
merged-updated e s rows =
    let count : e.annotation_count + 1 + length rows ≡ e.annotation_count + suc (length rows) =
      omega arith in
    elim (kind_of s.annotation.action) [
      | inl (ack, disp, supp, unsupp) ↦
          let toggled : toggles s ≡ false = rw (supp, unsupp) refl in
          rw (latest-snoc _ s rows disp, latest-snoc toggles s rows toggled, ack) (ground arith)
      | inr (inl (ack, disp, supp, unsupp)) ↦
          let toggled : toggles s ≡ false = rw (supp, unsupp) refl in
          rw
            (
              sym (disposition-latest e.disposition s rows disp),
              latest-snoc toggles s rows toggled,
              ack,
              disp,
              count,
            )
            refl
      | inr (inr (inl (ack, disp, supp, unsupp))) ↦
          let toggled : toggles s ≡ true = rw supp refl in
          rw
            (
              latest-snoc _ s rows disp,
              sym (suppressed-latest e.suppressed s rows toggled),
              ack,
              disp,
              supp,
              count,
            )
            refl
      | inr (inr (inr (ack, disp, supp))) ↦
          elim (Bool-cases (same_text s.annotation.action (codes "unsuppress"))) [
            | inl unsupp ↦
                let toggled : toggles s ≡ true = rw (supp, unsupp) refl in
                rw
                  (
                    latest-snoc _ s rows disp,
                    sym (suppressed-latest e.suppressed s rows toggled),
                    ack,
                    disp,
                    supp,
                    unsupp,
                    count,
                  )
                  refl
            | inr plain ↦
                let toggled : toggles s ≡ false = rw (supp, plain) refl in
                rw
                  (
                    latest-snoc _ s rows disp,
                    latest-snoc toggles s rows toggled,
                    ack,
                    disp,
                    supp,
                    plain,
                    count,
                  )
                  refl
          ]
    ]

fold_entry-merged :
    (e : Entry) (rows : List Stored) → fold_entry (some e) rows ≡ some (merged e rows)
fold_entry-merged e [] = ground arith
fold_entry-merged e (s ∷ rows) =
    fold_entry-merged (updated s.annotation e) rows ∙ ap some (merged-updated e s rows)

fold_entry-summary : (rows : List Stored) → fold_entry none rows ≡ summary rows
fold_entry-summary [] = refl
fold_entry-summary (s ∷ rows) = fold_entry-merged fresh (s ∷ rows) ∙ ground arith

-- The state that is read for a finding is the summary of its own rows: none without rows, and
-- otherwise the disposition of the last row that sets one, whether some row acknowledges the
-- finding, whether the last row that suppresses it or lifts that suppresses it, and the number of
-- its rows.
pub read_latest_triage_state-summary :
    (table : List Stored) (id : ℕ)
    → lookup id (read_latest_triage_state table) ≡ summary (keep (is_about id) table)
unfolding read_latest_triage_state
read_latest_triage_state-summary table id =
    lookup-fold id [] table ∙ fold_entry-summary (keep (is_about id) table)
