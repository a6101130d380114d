-- ===== src/Failure/Batch.antt =====
-- `score_batch`, `score` and `_score_window` of detection/system_failure.py. A thread holds the lock
-- of the scorer for a whole batch, so that batches are scored one after the other.
use linux_xai_security_assis.Base.{
  ℕ, ◌+◌, ◌*◌, ◌/◌, Bool, true, false, ◌&&◌, Option, List, [], ◌∷◌, map, ltb, leb, ◌==◌, keep, Text,
  sort_by, grouped_from,
}
use linux_xai_security_assis.Policy.{one}
use linux_xai_security_assis.Failure.{Settings, Formats}
use linux_xai_security_assis.Failure.Acts.{Act, both, all_acts}
use linux_xai_security_assis.Failure.Host.{Health, Sample, score_health}
use linux_xai_security_assis.Failure.Service.{Service, StateEvent, score_service}

-- What an event carries, by its type.
pub data Payload : Type 0 where
  system_health : Health → Payload
  service_state : Service → Payload
  other : Payload

pub record Event : Type 0 where
  pub timestamp : ℕ
  pub host_id : Option Text
  pub payload : Payload

-- `WINDOW_SECONDS`
unfoldable pub window_width : ℕ
window_width = 300 * one

unfoldable pub window_start_for : ℕ → ℕ
window_start_for time = time / window_width * window_width

abbrev pub is_consumed : Event → Bool
is_consumed e = elim e.payload [ system_health p ↦ true | service_state p ↦ true | other ↦ false ]

-- The windows of a batch, each with its events in their order.
unfoldable pub by_window : List (ℕ × List Event) → List Event → List (ℕ × List Event)
unfolding grouped_from window_start_for
by_window windows events =
    grouped_from ◌==◌ (λ (e : Event). window_start_for e.timestamp) windows
      (keep is_consumed events)

abbrev pub in_order : ℕ × List Event → ℕ × List Event → Bool
in_order a b = leb a.0 b.0

-- `sorted(by_window)`
unfoldable pub windows_of : List Event → List (ℕ × List Event)
unfolding by_window sort_by
windows_of events = sort_by in_order (by_window [] events)

-- `window_start <= ts < window_end`
abbrev pub inside : ℕ → ℕ → Event → Bool
inside window_start window_end e = leb window_start e.timestamp && ltb e.timestamp window_end

abbrev pub health_of : List Event → List Sample
health_of [] = []
health_of (e ∷ events) = elim e.payload [
  | system_health p ↦
      record { timestamp = e.timestamp; host_id = e.host_id; payload = p } ∷ health_of events
  | service_state p ↦ health_of events
  | other ↦ health_of events
]

abbrev pub service_of : List Event → List StateEvent
service_of [] = []
service_of (e ∷ events) = elim e.payload [
  | system_health p ↦ service_of events
  | service_state p ↦ record { timestamp = e.timestamp; payload = p } ∷ service_of events
  | other ↦ service_of events
]

module _ (formats : Formats) (s : Settings) (persist : Bool) where
  -- `_score_window`, and `score`, which takes the lock for it
  unfoldable pub score_window : List Event → ℕ → ℕ → Act
  score_window events window_start window_end =
      let within = keep (inside window_start window_end) events in
      both (score_health formats s persist window_start window_end (health_of within))
        (score_service formats s persist window_start window_end (service_of within))

  abbrev pub score_bucket : ℕ × List Event → Act
  score_bucket (window_start, events) =
      score_window events window_start (window_start + window_width)

  unfoldable pub score_batch : List Event → Act
  unfolding windows_of all_acts window_width
  score_batch events = all_acts (map score_bucket (windows_of events))
