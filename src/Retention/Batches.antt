-- ===== src/Retention/Batches.antt =====
-- The batched deletion `delete_events_older_than` of storage/sqlite_store.py against one filter.
use linux_xai_security_assis.Base.{
  ℕ, zero, suc, ◌+◌, ◌-◌, ◌≤◌, ◌<◌, min, max, ◌≡◌, refl, sym, ap, ◌∙◌, Bool, not, Option, some,
  List, [], ◌∷◌, ltb, length, keep, length-keep, arith, inl, inr, Bool-cases,
}
use linux_xai_security_assis.Retention.Tables.{
  Event, reaches, delete_batch, delete_batches, delete_events_older_than,
}

abbrev pub is_old : Option ℕ → Event → Bool
is_old cutoff event = reaches cutoff event.timestamp

abbrev pub is_retained : Option ℕ → Event → Bool
is_retained cutoff event = not (is_old cutoff event)

abbrev old_count : Option ℕ → List Event → ℕ
old_count cutoff events = length (keep (is_old cutoff) events)

-- A batch deletes old events only, and as many as it may.
keep-delete_batch :
    (cutoff : Option ℕ) (limit : ℕ) (events : List Event)
    → keep (is_retained cutoff) (delete_batch cutoff limit events)
      ≡ keep (is_retained cutoff) events
unfolding delete_batch
keep-delete_batch cutoff zero events = refl
keep-delete_batch cutoff (suc limit) [] = refl
keep-delete_batch cutoff (suc limit) (event ∷ events) = elim (Bool-cases (is_old cutoff event)) [
  | inl old ↦ rw old (keep-delete_batch cutoff limit events)
  | inr new ↦
      rw (new, new)
        (ap (λ (es : List Event). event ∷ es) (keep-delete_batch cutoff (suc limit) events))
]

length-delete_batch :
    (cutoff : Option ℕ) (limit : ℕ) (events : List Event)
    → length (delete_batch cutoff limit events) + min limit (old_count cutoff events)
      ≡ length events
unfolding delete_batch
length-delete_batch cutoff zero events = omega arith
length-delete_batch cutoff (suc limit) [] = omega arith
length-delete_batch cutoff (suc limit) (event ∷ events) = elim (Bool-cases (is_old cutoff event)) [
  | inl old ↦ rw old (omega (arith, length-delete_batch cutoff limit events))
  | inr new ↦ rw new (omega (arith, length-delete_batch cutoff (suc limit) events))
]

old_count-delete_batch :
    (cutoff : Option ℕ) (limit : ℕ) (events : List Event)
    → old_count cutoff (delete_batch cutoff limit events) ≡ old_count cutoff events - limit
unfolding delete_batch
old_count-delete_batch cutoff zero events = omega arith
old_count-delete_batch cutoff (suc limit) [] = omega arith
old_count-delete_batch cutoff (suc limit) (event ∷ events) =
    elim (Bool-cases (is_old cutoff event)) [
      | inl old ↦ rw old (omega (arith, old_count-delete_batch cutoff limit events))
      | inr new ↦ rw (new, new) (omega (arith, old_count-delete_batch cutoff (suc limit) events))
    ]

retained_of_none_old :
    (cutoff : Option ℕ) (events : List Event)
    → old_count cutoff events ≡ 0
    → keep (is_retained cutoff) events ≡ events
retained_of_none_old cutoff [] h = refl
retained_of_none_old cutoff (event ∷ events) h = elim (Bool-cases (is_old cutoff event)) [
  | inl old ↦ absurd (omega (arith, rw old at h))
  | inr new ↦
      rw new
        (ap (λ (es : List Event). event ∷ es) (retained_of_none_old cutoff events (rw new at h)))
]

delete_batches-keep :
    (fuel : ℕ) (cutoff : Option ℕ) (batch deleted : ℕ) (events : List Event)
    → old_count cutoff events < fuel
    → 1 ≤ batch
    → delete_batches fuel cutoff batch deleted events
      ≡ some (deleted + old_count cutoff events, keep (is_retained cutoff) events)
unfolding delete_batches
delete_batches-keep zero cutoff batch deleted events hf hb = absurd (omega arith)
delete_batches-keep (suc fuel) cutoff batch deleted events hf hb =
    let left = delete_batch cutoff batch events in
    let removed = length events - length left in
    let size = length-delete_batch cutoff batch events in
    let olds = old_count-delete_batch cutoff batch events in
    elim (Bool-cases (ltb removed batch)) [
      | inl last ↦
          let count : removed ≡ old_count cutoff events = ground (arith, size) in
          let none_old : old_count cutoff left ≡ 0 = ground (arith, size, olds) in
          let same : keep (is_retained cutoff) events ≡ left =
            sym (keep-delete_batch cutoff batch events)
            ∙ retained_of_none_old cutoff left none_old in
          rw (same, sym count) (rw last refl)
      | inr full ↦
          let count : removed ≡ batch = ground (arith, size) in
          let total : deleted + removed + old_count cutoff left
              ≡ deleted + old_count cutoff events =
            ground (arith, size, olds) in
          rw (sym total, sym (keep-delete_batch cutoff batch events))
            (rw full (
              delete_batches-keep fuel cutoff batch (deleted + removed) left
                (ground (arith, size, olds)) hb))
    ]

-- Deleting in batches, of whatever size, ends, deletes exactly the events that the cutoff reaches,
-- keeps the others in their order, and returns how many went.
pub delete_events_older_than-keep :
    (cutoff : Option ℕ) (batch : ℕ) (events : List Event)
    → delete_events_older_than cutoff batch events
      ≡ some (length (keep (is_old cutoff) events), keep (is_retained cutoff) events)
unfolding delete_events_older_than
delete_events_older_than-keep cutoff batch events =
    let from_none : 0 + old_count cutoff events ≡ old_count cutoff events = omega arith in
    delete_batches-keep (suc (length events)) cutoff (max 1 batch) 0 events
      (omega (arith, length-keep (is_old cutoff) events)) (omega arith)
    ∙ rw from_none refl
