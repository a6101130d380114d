-- ===== src/Failure/CrashLoop.antt =====
-- The crash-loop count of detection/system_failure.py: which failures of a unit it counts, though it
-- forgets those that are not recent.
use linux_xai_security_assis.Base.{
  ℕ, ◌≤◌, ◌≡◌, refl, subst, sym, ap, ◌∙◌, inl, inr, Bool, true, false, List, [], ◌∷◌, ◌++◌, arith,
  keep, leb, if◌then◌else◌, Bool-cases, Option-cases, Text, same_text, same_text→eq, Keyed, put,
  lookup-put_self, lookup-put_other, sort_by,
}
use mathlib.Core.List.{append-nil, append_assoc}
use linux_xai_security_assis.Findings.{write_detection_finding}
use linux_xai_security_assis.Failure.{Settings, Formats, Built, build_finding}
use linux_xai_security_assis.Failure.Acts.{World, persist_maybe}
use linux_xai_security_assis.Failure.Service.{
  Failed, times_from, times_of, record_failure, record_all, is_recent, failure_count_in_window,
  latest_time, score_unit,
}

-- One unit that failed in one window.
pub record Visit : Type 0 where
  pub window_start : ℕ
  pub window_end : ℕ
  pub unit : Text
  pub failed : Failed

abbrev pub sorted_times : Failed → List ℕ
sorted_times f = sort_by leb f.times

abbrev pub latest_of : Failed → ℕ
latest_of f = latest_time 0 (sorted_times f)

-- Every failure of a unit that was ever scored.
abbrev pub all_times : Text → List Visit → List ℕ
all_times unit [] = []
all_times unit (v ∷ visits) =
    let rest = all_times unit visits in
    if same_text v.unit unit then sorted_times v.failed ++ rest else rest

-- The latest failure of a unit is never before that of an earlier visit, nor after `end`.
abbrev pub Forward : Text → ℕ → ℕ → List Visit → Type 0
Forward unit from end [] = from ≤ end
Forward unit from end (v ∷ visits) =
    if same_text v.unit unit
    then (from ≤ latest_of v.failed) × Forward unit (latest_of v.failed) end visits
    else Forward unit from end visits

module _ (unit : Text) where
  times_of-put_self :
      (times : List ℕ) (failures : Keyed (List ℕ)) → times_of unit (put unit times failures) ≡ times
  times_of-put_self times failures = ap times_from (lookup-put_self unit times failures)

  times_of-put_other :
      (other : Text) (times : List ℕ) (failures : Keyed (List ℕ))
      → same_text other unit ≡ false
      → times_of unit (put other times failures) ≡ times_of unit failures
  times_of-put_other other times failures h =
      ap times_from (lookup-put_other other times unit failures h)

  pub times_of-record_all :
      (times : List ℕ) (failures : Keyed (List ℕ))
      → times_of unit (record_all unit times failures) ≡ times_of unit failures ++ times
  unfolding record_failure
  times_of-record_all [] failures = sym (append-nil (times_of unit failures))
  times_of-record_all (t ∷ times) failures =
      times_of-record_all times (record_failure unit t failures)
      ∙ ap (λ l. l ++ times) (times_of-put_self (times_of unit failures ++ t ∷ []) failures)
      ∙ append_assoc (times_of unit failures) (t ∷ []) times

  times_of-record_all_other :
      (other : Text) (times : List ℕ) (failures : Keyed (List ℕ))
      → same_text other unit ≡ false
      → times_of unit (record_all other times failures) ≡ times_of unit failures
  unfolding record_failure
  times_of-record_all_other other [] failures h = refl
  times_of-record_all_other other (t ∷ times) failures h =
      times_of-record_all_other other times (record_failure other t failures) h
      ∙ times_of-put_other other (times_of other failures ++ t ∷ []) failures h

-- Forgetting what is not recent at one time loses nothing that is recent at a later one.
pub keep-keep_later :
    (window before now : ℕ) (times more : List ℕ)
    → before ≤ now
    → keep (is_recent window now) (keep (is_recent window before) times ++ more)
      ≡ keep (is_recent window now) (times ++ more)
keep-keep_later window before now [] more h = refl
keep-keep_later window before now (t ∷ times) more h =
    ground (arith, keep-keep_later window before now times more h)

module _ (formats : Formats) (s : Settings) (persist : Bool) where
  persist_maybe-failures :
      (b : Built) (w : World) → (persist_maybe formats s persist b w).world.failures ≡ w.failures
  unfolding persist_maybe
  persist_maybe-failures b w = elim (Bool-cases persist) [
    | inr dry ↦ rw dry refl
    | inl real ↦
        elim (Option-cases (
          write_detection_finding formats.sha256 formats.repr (formats.refuses w.writes) w.table
            (build_finding formats s b))) [
              | inl fails ↦ rw (real, fails) refl
              | inr (r, wrote) ↦ rw (real, wrote) refl
            ]
  ]

  abbrev visit : Visit → World → World
  visit v w = (score_unit formats s persist v.window_start v.window_end (v.unit, v.failed) w).world

  unfoldable pub score_visits : List Visit → World → World
  score_visits [] w = w
  score_visits (v ∷ visits) w = score_visits visits (visit v w)

  abbrev pub span : ℕ
  span = s.failure_crash_loop_window_seconds

  kept : Visit → World → List ℕ
  kept v w =
      keep (is_recent span (latest_of v.failed))
        (times_of v.unit (record_all v.unit (sorted_times v.failed) w.failures))

  visit-failures :
      (v : Visit) (w : World)
      → (visit v w).failures
        ≡ put v.unit (kept v w) (record_all v.unit (sorted_times v.failed) w.failures)
  unfolding score_unit failure_count_in_window kept
  visit-failures v w = persist_maybe-failures _ _

  visit-own :
      (v : Visit) (w : World)
      → times_of v.unit (visit v w).failures
        ≡ keep
            (is_recent span (latest_of v.failed))
            (times_of v.unit w.failures ++ sorted_times v.failed)
  unfolding kept
  visit-own v w =
      ap (times_of v.unit) (visit-failures v w)
      ∙ times_of-put_self v.unit (kept v w) (record_all v.unit (sorted_times v.failed) w.failures)
      ∙ ap (keep (is_recent span (latest_of v.failed)))
          (times_of-record_all v.unit (sorted_times v.failed) w.failures)

  visit-other :
      (v : Visit) (unit : Text) (w : World)
      → same_text v.unit unit ≡ false
      → times_of unit (visit v w).failures ≡ times_of unit w.failures
  visit-other v unit w h =
      ap (times_of unit) (visit-failures v w)
      ∙ times_of-put_other unit v.unit (kept v w)
          (record_all v.unit (sorted_times v.failed) w.failures) h
      ∙ times_of-record_all_other unit v.unit (sorted_times v.failed) w.failures h

  -- What the scorer holds of a unit: of all its failures, the recent ones.
  unfoldable pub Tracks : Text → ℕ → List ℕ → World → Type 0
  Tracks unit latest times w = times_of unit w.failures ≡ keep (is_recent span latest) times

  visit-Tracks :
      (v : Visit) (latest : ℕ) (times : List ℕ) (w : World)
      → Tracks v.unit latest times w
      → latest ≤ latest_of v.failed
      → Tracks v.unit (latest_of v.failed) (times ++ sorted_times v.failed) (visit v w)
  unfolding Tracks
  visit-Tracks v latest times w t h =
      visit-own v w
      ∙ ap (λ l. keep (is_recent span (latest_of v.failed)) (l ++ sorted_times v.failed)) t
      ∙ keep-keep_later span latest (latest_of v.failed) times (sorted_times v.failed) h

  other_Tracks :
      (v : Visit) (unit : Text) (latest : ℕ) (times : List ℕ) (w : World)
      → same_text v.unit unit ≡ false
      → Tracks unit latest times w
      → Tracks unit latest times (visit v w)
  unfolding Tracks
  other_Tracks v unit latest times w h t = visit-other v unit w h ∙ t

  own_Tracks :
      (v : Visit) (unit : Text) (latest : ℕ) (times : List ℕ) (w : World)
      → same_text v.unit unit ≡ true
      → Tracks unit latest times w
      → latest ≤ latest_of v.failed
      → Tracks unit (latest_of v.failed) (times ++ sorted_times v.failed) (visit v w)
  own_Tracks v unit latest times w same =
      subst
        (λ u.
          Tracks u latest times w
          → latest ≤ latest_of v.failed
          → Tracks u (latest_of v.failed) (times ++ sorted_times v.failed) (visit v w))
        (same_text→eq v.unit unit same) (visit-Tracks v latest times w)

  pub score_visits-Tracks :
      (unit : Text) (latest end : ℕ) (times : List ℕ) (visits : List Visit) (w : World)
      → Tracks unit latest times w
      → Forward unit latest end visits
      → (last : ℕ) × Tracks unit last (times ++ all_times unit visits) (score_visits visits w)
        × (last ≤ end)
  unfolding score_visits
  score_visits-Tracks unit latest end times [] w t f = (latest, rw (append-nil times) t, f)
  score_visits-Tracks unit latest end times (v ∷ visits) w t f =
      elim (Bool-cases (same_text v.unit unit)) [
        | inl same ↦
            let forward : (latest ≤ latest_of v.failed)
                × Forward unit (latest_of v.failed) end visits =
              rw same at f in
            let rest =
              score_visits-Tracks unit (latest_of v.failed) end (times ++ sorted_times v.failed)
                visits (visit v w) (own_Tracks v unit latest times w same t forward.0) forward.1 in
            rw (same, ← append_assoc times (sorted_times v.failed) (all_times unit visits)) rest
        | inr other ↦
            let forward : Forward unit latest end visits = rw other at f in
            let still = other_Tracks v unit latest times w other t in
            rw other (score_visits-Tracks unit latest end times visits (visit v w) still forward)
      ]
