-- ===== src/Failure/Loops.antt =====
-- The finding of a unit that failed in detection/system_failure.py: a crash loop, or one failure.
use linux_xai_security_assis.Base.{
  ℕ, ◌≡◌, refl, ap, ◌∙◌, Bool, List, [], ◌∷◌, ◌++◌, length, keep, leb, if◌then◌else◌, Text, codes,
  lookup,
}
use linux_xai_security_assis.Failure.{Settings, Formats}
use linux_xai_security_assis.Failure.Acts.{World}
use linux_xai_security_assis.Failure.Service.{
  times_of, is_recent, failure_count_in_window, score_unit,
}
use linux_xai_security_assis.Failure.Safe.{IsAccepted, risk_high-IsRisk}
use linux_xai_security_assis.Failure.Reported.{conditions, conditions-persist_maybe}
use linux_xai_security_assis.Failure.CrashLoop.{
  Visit, sorted_times, latest_of, all_times, Forward, times_of-record_all, keep-keep_later,
  score_visits, Tracks, score_visits-Tracks,
}

-- The condition of a unit that failed, by those of its failures that are recent.
abbrev pub crash_condition : Settings → List ℕ → Text
crash_condition s recent =
    if leb s.failure_crash_loop_threshold (length recent)
    then codes "service_crash_loop"
    else codes "service_unit_failed"

module _ (formats : Formats) (accepted : IsAccepted formats) (s : Settings) (persist : Bool) where
  conditions-score_unit :
      (v : Visit) (w : World)
      → conditions (score_unit formats s persist v.window_start v.window_end (v.unit, v.failed) w)
        ≡ crash_condition s (
            keep
              (is_recent s.failure_crash_loop_window_seconds (latest_of v.failed))
              (times_of v.unit w.failures ++ sorted_times v.failed))
          ∷ []
  unfolding score_unit failure_count_in_window
  conditions-score_unit v w =
      conditions-persist_maybe formats accepted s persist _ risk_high-IsRisk _
      ∙ ap
          (λ l.
            crash_condition s
              (keep (is_recent s.failure_crash_loop_window_seconds (latest_of v.failed)) l)
            ∷ [])
          (times_of-record_all v.unit (sorted_times v.failed) w.failures)

  -- A scorer that has seen no failure visits units in any windows, and SQLite refuses no write. A unit that then fails, with its
  -- latest failure not before those of its earlier visits, gets one finding: a crash loop exactly if
  -- of all the failures it ever had those in the span up to the latest reach the threshold, though
  -- the scorer has forgotten the others.
  pub score_unit-score_visits :
      (visits : List Visit) (v : Visit) (w : World)
      → w.failures ≡ []
      → Forward v.unit 0 (latest_of v.failed) visits
      → conditions (
          score_unit formats s persist v.window_start v.window_end
            (v.unit, v.failed)
            (score_visits formats s persist visits w))
        ≡ crash_condition s (
            keep
              (is_recent s.failure_crash_loop_window_seconds (latest_of v.failed))
              (all_times v.unit visits ++ sorted_times v.failed))
          ∷ []
  unfolding Tracks lookup
  score_unit-score_visits visits v w first forward =
      let none_yet : times_of v.unit w.failures ≡ [] = rw first refl in
      let (last, tracks, before) =
        score_visits-Tracks formats s persist v.unit 0 (latest_of v.failed) [] visits w none_yet
          forward in
      let span = s.failure_crash_loop_window_seconds in
      conditions-score_unit v (score_visits formats s persist visits w)
      ∙ ap
          (λ l.
            crash_condition s
              (keep (is_recent span (latest_of v.failed)) (l ++ sorted_times v.failed))
            ∷ [])
          tracks
      ∙ ap (λ l. crash_condition s l ∷ [])
          (keep-keep_later span last (latest_of v.failed) (all_times v.unit visits)
            (sorted_times v.failed) before)
