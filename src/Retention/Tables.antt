-- ===== src/Retention/Tables.antt =====
-- The tables that storage/retention.py prunes, and the deletions of storage/sqlite_store.py. The
-- events stand in the order of the index on (timestamp, id), which is the order that both deletions
-- select them in. Timestamps are whole seconds.
use linux_xai_security_assis.Base.{
  ℕ, zero, suc, ◌+◌, ◌-◌, max, Bool, false, not, Option, none, some, List, [], ◌∷◌, ltb, leb,
  if◌then◌else◌, length, drop, keep,
}
use linux_xai_security_assis.Chain.{Row}

pub record Event : Type 0 where
  pub id : ℕ
  pub timestamp : ℕ

-- The tables that retention may touch, the chained ones, which it must not, and its log.
pub data Kind : Type 0 where
  prune_age size_cap vacuum : Kind

pub data Detail : Type 0 where
  no_detail ineffective : Detail
  rounds : ℕ → Detail

-- `MaintenanceAction`, without the texts that repeat the settings and without the durations.
pub record MaintenanceAction : Type 0 where
  pub action : Kind
  pub events_deleted : ℕ
  pub rows_deleted : ℕ
  pub cutoff_timestamp : Option ℕ
  pub oldest_retained_timestamp : Option ℕ
  pub db_bytes_before : ℕ
  pub db_bytes_after : ℕ
  pub detail : Detail

pub record Database : Type 0 where
  pub events : List Event
  pub behavior_risks : List ℕ
  pub event_features : List ℕ
  pub anomaly_scores : List ℕ
  pub detection_findings : List Row
  pub policy_decisions : List Row
  pub triage_annotations : List Row
  pub ml_model_lifecycle : List Row
  pub maintenance_log : List MaintenanceAction

-- `timestamp <= cutoff`; a cutoff before the epoch is `none`.
abbrev pub reaches : Option ℕ → ℕ → Bool
reaches none timestamp = false
reaches (some cutoff) timestamp = leb timestamp cutoff

abbrev pub oldest_event_timestamp : List Event → Option ℕ
oldest_event_timestamp [] = none
oldest_event_timestamp (event ∷ events) = some event.timestamp

-- The events that one batch leaves: it deletes the first `limit` that the cutoff reaches.
unfoldable pub delete_batch : Option ℕ → ℕ → List Event → List Event
delete_batch cutoff zero events = events
delete_batch cutoff (suc limit) [] = []
delete_batch cutoff (suc limit) (event ∷ events) =
    let deleted = delete_batch cutoff limit events in
    let kept = delete_batch cutoff (suc limit) events in
    if reaches cutoff event.timestamp then deleted else event ∷ kept

-- The loop of `delete_events_older_than`, on fuel, with the number deleted so far.
unfoldable pub delete_batches : ℕ → Option ℕ → ℕ → ℕ → List Event → Option (ℕ × List Event)
unfolding delete_batch
delete_batches zero cutoff batch deleted events = none
delete_batches (suc fuel) cutoff batch deleted events =
    let left = delete_batch cutoff batch events in
    let removed = length events - length left in
    let more = delete_batches fuel cutoff batch (deleted + removed) left in
    if ltb removed batch then some (deleted + removed, left) else more

-- `delete_events_older_than`; one unit of fuel for each event and one more.
unfoldable pub delete_events_older_than : Option ℕ → ℕ → List Event → Option (ℕ × List Event)
unfolding delete_batches
delete_events_older_than cutoff batch events =
    delete_batches (suc (length events)) cutoff (max 1 batch) 0 events

-- `delete_oldest_events`: what is left, and how many went.
unfoldable pub delete_oldest_events : ℕ → List Event → ℕ × List Event
delete_oldest_events count events = (length events - length (drop count events), drop count events)

-- `DELETE FROM … WHERE … <= ?` of one derived table
abbrev pub outlives : Option ℕ → List ℕ → List ℕ
outlives cutoff times = keep (λ time. not (reaches cutoff time)) times

-- `delete_analytics_older_than`
unfoldable pub delete_analytics_older_than : Option ℕ → Database → ℕ × Database
delete_analytics_older_than cutoff db =
    let risks = outlives cutoff db.behavior_risks in
    let features = outlives cutoff db.event_features in
    let scores = outlives cutoff db.anomaly_scores in
    (
      (length db.behavior_risks - length risks)
          + (length db.event_features - length features)
          + (length db.anomaly_scores - length scores),
      record db { behavior_risks = risks; event_features = features; anomaly_scores = scores },
    )
