-- ===== src/Triage/Writer.antt =====
-- `write_triage_annotation` of storage/sqlite_store.py: what it refuses, and what it leaves of the
-- table, of its chain and of the effective state.
use linux_xai_security_assis.Base.{
  ℕ, ◌≡◌, ◌↔◌, refl, sym, ap, ◌∙◌, subst, true, false, Option, none, some, List, [], ◌∷◌, ◌++◌, map,
  ◌==◌, if◌then◌else◌, Text, codes, same_text, same_text→eq, any-same_text_iff, inl, inr, ◌⊎◌,
  false≢true, Bool-cases, Option-cases,
}
use mathlib.Core.List.{Memᴰ, map-append}
use linux_xai_security_assis.Chain.Columns.{triage_chain_columns}
use linux_xai_security_assis.Chain.{extend_chain}
use linux_xai_security_assis.Triage.{
  Annotation, Stored, columns_of, as_row, triage_actions, triage_dispositions, is_in, Refusal,
  unknown_action, unknown_disposition, disposition_required, refused, written, is_disposition,
  kept_disposition, append, checked, write_triage_annotation, Entry, States, updated, update, fold,
  read_latest_triage_state,
}
use linux_xai_security_assis.Triage.Latest.{lookup, entry_of, lookup-update}

-- What a call may ask for: a known action, with a known disposition where it sets one.
abbrev pub IsAllowed : Annotation → Type 0
IsAllowed a =
    Memᴰ a.action triage_actions
    × (a.action ≡ codes "disposition"
        → (d : Text) × (a.disposition ≡ some d) × Memᴰ d triage_dispositions)

-- The row that is stored: a disposition rides on no other action.
abbrev pub cleaned : Annotation → Annotation
cleaned a = record a { disposition = kept_disposition a.action a.disposition }

-- The effective state as a function of the finding, and the step that one annotation makes on it.
abbrev pub view : List Stored → ℕ → Option Entry
view table id = lookup id (read_latest_triage_state table)

abbrev pub recorded : Annotation → (ℕ → Option Entry) → ℕ → Option Entry
recorded a state id =
    if a.finding_id == id then some (updated a (entry_of (state id))) else state id

-- Why a call is refused.
abbrev pub IsReason : Annotation → Refusal → Type 0
IsReason a (unknown_action t) = (t ≡ a.action) × ¬ Memᴰ a.action triage_actions
IsReason a disposition_required = (a.action ≡ codes "disposition") × (a.disposition ≡ none)
IsReason a (unknown_disposition d) =
    (a.action ≡ codes "disposition") × (a.disposition ≡ some d) × ¬ Memᴰ d triage_dispositions

is_in_iff : (t : Text) (texts : List Text) → (is_in t texts ≡ true) ↔ Memᴰ t texts
unfolding is_in
is_in_iff = any-same_text_iff

not_in : (t : Text) (texts : List Text) → is_in t texts ≡ false → ¬ Memᴰ t texts
not_in t texts h m = false≢true (sym h ∙ (is_in_iff t texts).1 m)

module _ (sha256 : Text → Text) where
  -- Whatever a call asks for, it is refused for a reason that holds, and leaves the table, or it is allowed and its row, without a stray
  -- disposition, is appended.
  pub write_triage_annotation-cases :
      (table : List Stored) (a : Annotation)
      → ((e : Refusal) × (write_triage_annotation sha256 table a ≡ refused e) × IsReason a e)
        ⊎ (IsAllowed a × (write_triage_annotation sha256 table a ≡ append sha256 table (cleaned a)))
  unfolding write_triage_annotation kept_disposition is_disposition checked
  write_triage_annotation-cases table a = elim (Bool-cases (is_in a.action triage_actions)) [
    | inr unknown ↦
        inl
          (unknown_action a.action, rw unknown refl, (refl, not_in a.action triage_actions unknown))
    | inl known ↦
        let member = (is_in_iff a.action triage_actions).0 known in
        elim (Bool-cases (same_text a.action (codes "disposition"))) [
          | inr other ↦ inr (
            (member, λ e. absurd (false≢true (sym other ∙ rw e refl))),
            rw (known, other) (rw (checked, is_disposition, other) refl),
          )
          | inl sets ↦
              let is_set = same_text→eq a.action (codes "disposition") sets in
              elim (Option-cases a.disposition) [
                | inl missing ↦ inl (
                  disposition_required,
                  rw (known, sets, missing) (rw (checked, is_disposition, sets) refl),
                  (is_set, missing),
                )
                | inr (d, given) ↦ elim (Bool-cases (is_in d triage_dispositions)) [
                  | inl fine ↦ inr (
                    (member, λ e. (d, given, (is_in_iff d triage_dispositions).0 fine)),
                    rw (known, sets, given, fine) refl,
                  )
                  | inr bad ↦ inl (
                    unknown_disposition d,
                    rw (known, sets, given, bad) refl,
                    (is_set, given, not_in d triage_dispositions bad),
                  )
                ]
              ]
        ]
  ]

IsReason-not_IsAllowed : (a : Annotation) (e : Refusal) → IsReason a e → ¬ IsAllowed a
IsReason-not_IsAllowed a (unknown_action t) h allowed = h.1 allowed.0
IsReason-not_IsAllowed a disposition_required h allowed =
    let (d, given, m) = allowed.1 h.0 in cc (h.1, given)
IsReason-not_IsAllowed a (unknown_disposition d) h allowed =
    let (d', given, m) = allowed.1 h.0 in
    let same : d' ≡ d = cc (h.1, given) in h.2 (subst (λ x. Memᴰ x triage_dispositions) same m)

fold-append :
    (states : States) (xs ys : List Stored) → fold states (xs ++ ys) ≡ fold (fold states xs) ys
unfolding fold
fold-append states [] ys = refl
fold-append states (x ∷ xs) ys = fold-append (update x.annotation states) xs ys

-- What one accepted call leaves: its row at the end of the history, the chain extended by it, and
-- the finding's effective state updated by it, with every other finding's as it was.
pub record Recorded (sha256 : Text → Text) (a : Annotation) (table after : List Stored)
    : Type 0 where
  pub history : map Stored.annotation after ≡ map Stored.annotation table ++ a ∷ []
  pub chain :
      map as_row after ≡ extend_chain sha256 triage_chain_columns (map as_row table) (columns_of a)
  pub state : (id : ℕ) → view after id ≡ recorded a (view table) id

module _ (sha256 : Text → Text) where
  append-Recorded :
      (table : List Stored) (a : Annotation)
      → (s : Stored) × (after : List Stored) × (append sha256 table a ≡ written s after)
        × Recorded sha256 a table after
  unfolding append extend_chain read_latest_triage_state fold
  append-Recorded table a = (
    _,
    _,
    refl,
    record {
      history = map-append Stored.annotation table _;
      chain = map-append as_row table _;
      state = λ id. ap (lookup id) (fold-append [] table _) ∙ lookup-update id a (fold [] table);
    },
  )

  -- Every allowed call is written, and what it leaves refines the abstract update: the history
  -- gains the row, its disposition dropped unless the action sets one, the chain is extended by
  -- that row, and the effective state changes for that finding alone.
  pub write_triage_annotation-Recorded :
      (table : List Stored) (a : Annotation)
      → IsAllowed a
      → (s : Stored) × (after : List Stored) × (write_triage_annotation sha256 table a
          ≡ written s after)
        × Recorded sha256 (cleaned a) table after
  write_triage_annotation-Recorded table a allowed =
      elim (write_triage_annotation-cases sha256 table a) [
        | inl (e, is, reason) ↦ absurd (IsReason-not_IsAllowed a e reason allowed)
        | inr (h, is) ↦
            let (s, after, appended, done) = append-Recorded table (cleaned a) in
            (s, after, is ∙ appended, done)
      ]
