-- ===== src/Failure/Service.antt =====
-- The failures of systemd units in detection/system_failure.py: `_ServiceState` and
-- `_score_service`.
use linux_xai_security_assis.Base.{
  ℕ, ◌+◌, Bool, false, ◌||◌, Option, none, some, List, [], ◌∷◌, ◌++◌, map, keep, length, leb,
  if◌then◌else◌, Text, codes, same_text, sort_by, Keyed, lookup, put,
}
use linux_xai_security_assis.Policy.{text_leb}
use linux_xai_security_assis.Failure.{Settings, observed_failures, Built, Formats, risk_high}
use linux_xai_security_assis.Failure.Acts.{Act, all_acts, persist_maybe}

-- The payload of a SERVICE_STATE event.
pub record Service : Type 0 where
  pub unit : Option Text
  pub action : Option Text
  pub result : Option Text

pub record StateEvent : Type 0 where
  pub timestamp : ℕ
  pub payload : Service

abbrev pub times_from : Option (List ℕ) → List ℕ
times_from none = []
times_from (some times) = times

-- `self._failures[unit]`
abbrev pub times_of : Text → Keyed (List ℕ) → List ℕ
times_of unit failures = times_from (lookup unit failures)

-- `record_failure`
unfoldable pub record_failure : Text → ℕ → Keyed (List ℕ) → Keyed (List ℕ)
unfolding lookup put
record_failure unit time failures = put unit (times_of unit failures ++ time ∷ []) failures

abbrev pub record_all : Text → List ℕ → Keyed (List ℕ) → Keyed (List ℕ)
record_all unit [] failures = failures
record_all unit (t ∷ times) failures = record_all unit times (record_failure unit t failures)

-- `t >= now - window_seconds`, where the difference may be negative
abbrev pub is_recent : ℕ → ℕ → ℕ → Bool
is_recent window now time = leb now (time + window)

-- `failure_count_in_window`: it forgets what is not recent.
unfoldable pub failure_count_in_window : Text → ℕ → ℕ → Keyed (List ℕ) → ℕ × Keyed (List ℕ)
unfolding lookup put
failure_count_in_window unit window now failures =
    let recent = keep (is_recent window now) (times_of unit failures) in
    (length recent, put unit recent failures)

-- What a window shows of one unit: its failures, and the last action and result.
pub record Failed : Type 0 where
  pub times : List ℕ
  pub last_action : Option Text
  pub last_result : Option Text

abbrev is_text : Text → Option Text → Bool
is_text t none = false
is_text t (some given) = same_text given t

-- `action == "failed" or result == "failure"`
abbrev pub is_failure : Service → Bool
is_failure p = is_text (codes "failed") p.action || is_text (codes "failure") p.result

abbrev pub noted : StateEvent → Option Failed → Failed
noted e none = record {
  times = e.timestamp ∷ [];
  last_action = e.payload.action;
  last_result = e.payload.result;
}
noted e (some f) = record {
  times = f.times ++ e.timestamp ∷ [];
  last_action = e.payload.action;
  last_result = e.payload.result;
}

-- The unit that an event reports failed; one without a name is unknown.
unfoldable pub failed_unit : StateEvent → Option Text
unfolding same_text
failed_unit e = elim e.payload.unit [
  | none ↦ none
  | some [] ↦ none
  | some (c ∷ unit) ↦ if is_failure e.payload then some (c ∷ unit) else none
]

abbrev pub note_under : StateEvent → Option Text → Keyed Failed → Keyed Failed
note_under e none failed = failed
note_under e (some unit) failed = put unit (noted e (lookup unit failed)) failed

unfoldable pub failed_by_unit : Keyed Failed → List StateEvent → Keyed Failed
unfolding lookup put failed_unit
failed_by_unit failed [] = failed
failed_by_unit failed (e ∷ events) = failed_by_unit (note_under e (failed_unit e) failed) events

-- The units that failed, sorted.
unfoldable pub failed_units : List StateEvent → Keyed Failed
unfolding sort_by text_leb failed_by_unit
failed_units events = sort_by (λ (a b : Text × Failed). text_leb a.0 b.0) (failed_by_unit [] events)

-- The last of the sorted times.
abbrev pub latest_time : ℕ → List ℕ → ℕ
latest_time last [] = last
latest_time last (t ∷ times) = latest_time t times

module _ (formats : Formats) (s : Settings) (persist : Bool) (window_start window_end : ℕ) where
  -- The body of the loop over the units that failed.
  unfoldable pub score_unit : Text × Failed → Act
  unfolding sort_by record_failure failure_count_in_window persist_maybe
  score_unit (unit, failed) w =
      let times = sort_by leb failed.times in
      let (count, kept) =
        failure_count_in_window unit s.failure_crash_loop_window_seconds (latest_time 0 times)
          (record_all unit times w.failures) in
      let built : Built = record {
        window_start = window_start;
        window_end = window_end;
        entity_type = codes "systemd_unit";
        entity_key = unit;
        risk_score = risk_high;
        condition =
            if leb s.failure_crash_loop_threshold count
            then codes "service_crash_loop"
            else codes "service_unit_failed";
        observed = observed_failures failed.last_action failed.last_result (length times) count;
        consecutive_windows = 1;
      } in
      persist_maybe formats s persist built (record w { failures = kept })

  -- `_score_service`
  unfoldable pub score_service : List StateEvent → Act
  unfolding failed_units score_unit all_acts
  score_service events = all_acts (map score_unit (failed_units events))
