-- ===== src/Alerts.antt =====
-- The alert rules of observability/alerts.py, over the snapshot of observability/metrics.py. Times
-- are ticks; a ratio is a fraction that is compared exactly, where the code divides floats.
pub mod Firing
pub mod Report
mod Samples
use linux_xai_security_assis.Base.{
  ℕ, ◌+◌, ◌-◌, ◌*◌, ◌%◌, Bool, true, false, not, ◌&&◌, ◌||◌, Option, none, some, List, [], ◌∷◌,
  ◌++◌, map, keep, ltb, ◌==◌, if◌then◌else◌, sort_by, Text, codes,
}
use linux_xai_security_assis.Policy.{text_leb}

pub record Snapshot : Type 0 where
  pub collected_at : ℕ
  pub latest_event_timestamp : Option ℕ
  pub updated_at : Option ℕ
  pub file_permissions : List (Text × Option ℕ)
  pub sources : List (Text × Bool)
  pub free_bytes : ℕ
  pub total_bytes : ℕ
  pub queue_depth : ℕ
  pub queue_capacity : ℕ
  pub dropped_event_count : ℕ
  pub kernel_lost_event_count : ℕ
  pub quarantined_event_count : ℕ
  pub database_error : Bool

pub record Ratio : Type 0 where
  pub part : ℕ
  pub whole : ℕ

pub record Settings : Type 0 where
  pub alert_collector_silence_seconds : ℕ
  pub stale_after_seconds : ℕ
  pub alert_min_free_disk_bytes : ℕ
  pub alert_min_free_disk_ratio : Ratio
  pub alert_max_queue_fill_ratio : Ratio

-- An alert by its name, with what its value, label or summary carries.
pub data Alert : Type 0 where
  database_unavailable disk_space_low_ratio ingest_queue_saturated : Alert
  database_permissions_insecure evidence_chain_broken : List Text → Alert
  events_dropped kernel_events_lost events_quarantined : ℕ → Alert
  collector_health_stale telemetry_stale disk_space_low : ℕ → Alert
  collector_degraded : Text → Alert

abbrev pub is_critical : Alert → Bool
is_critical (events_quarantined n) = false
is_critical disk_space_low_ratio = false
is_critical ingest_queue_saturated = false
is_critical alert = true

abbrev pub name_of : Alert → Text
name_of database_unavailable = codes "database_unavailable"
name_of disk_space_low_ratio = codes "disk_space_low_ratio"
name_of ingest_queue_saturated = codes "ingest_queue_saturated"
name_of (database_permissions_insecure files) = codes "database_permissions_insecure"
name_of (evidence_chain_broken tables) = codes "evidence_chain_broken"
name_of (events_dropped n) = codes "events_dropped"
name_of (kernel_events_lost n) = codes "kernel_events_lost"
name_of (events_quarantined n) = codes "events_quarantined"
name_of (collector_health_stale age) = codes "collector_health_stale"
name_of (telemetry_stale age) = codes "telemetry_stale"
name_of (disk_space_low bytes) = codes "disk_space_low"
name_of (collector_degraded source) = codes "collector_degraded"

-- The key order `(0 if critical else 1, name)`.
unfoldable pub key_before : Alert → Alert → Bool
key_before a b =
    if is_critical a
    then if is_critical b then text_leb (name_of a) (name_of b) else true
    else if is_critical b
    then false
    else text_leb (name_of a) (name_of b)

-- `max(collected_at - time, 0)`
abbrev pub age_of : ℕ → Option ℕ → Option ℕ
age_of now none = none
age_of now (some time) = some (now - time)

-- `mode & 0o077`
abbrev pub is_exposed : Option ℕ → Bool
is_exposed none = false
is_exposed (some mode) = not (mode % 64 == 0)

abbrev pub by_path : Text × Option ℕ → Text × Option ℕ → Bool
by_path a b = text_leb a.0 b.0

unfoldable pub insecure_files : Snapshot → List Text
insecure_files s =
    map (λ (f : Text × Option ℕ). f.0)
      (keep (λ (f : Text × Option ℕ). is_exposed f.1) (sort_by by_path s.file_permissions))

abbrev pub degraded_sources : Snapshot → List Text
degraded_sources s = map (λ (f : Text × Bool). f.0) (keep (λ (f : Text × Bool). f.1) s.sources)

-- The broken tables of `chain_status`, `none` where the caller does not verify.
unfoldable pub broken_tables : Option (List (Text × Bool)) → List Text
broken_tables none = []
broken_tables (some status) =
    sort_by text_leb (map (λ (t : Text × Bool). t.0) (keep (λ (t : Text × Bool). not t.1) status))

-- One alert under a condition, or one for what is there.
abbrev pub when : Bool → Alert → List Alert
when condition alert = if condition then alert ∷ [] else []

abbrev pub for_any : (List Text → Alert) → List Text → List Alert
for_any alert [] = []
for_any alert (t ∷ texts) = alert (t ∷ texts) ∷ []

abbrev pub for_age : (ℕ → Alert) → ℕ → Option ℕ → List Alert
for_age alert limit none = []
for_age alert limit (some age) = when (ltb limit age) (alert age)

abbrev pub counted : (ℕ → Alert) → ℕ → List Alert
counted alert count = when (not (count == 0)) (alert count)

unfoldable pub disk_alerts : Settings → Snapshot → List Alert
disk_alerts c s =
    if s.total_bytes == 0
    then []
    else if ltb s.free_bytes c.alert_min_free_disk_bytes
    then disk_space_low s.free_bytes ∷ []
    else when
        (ltb (s.free_bytes * c.alert_min_free_disk_ratio.whole)
          (c.alert_min_free_disk_ratio.part * s.total_bytes))
        disk_space_low_ratio

unfoldable pub queue_alerts : Settings → Snapshot → List Alert
queue_alerts c s =
    when
      (not (s.queue_capacity == 0)
        && ltb (c.alert_max_queue_fill_ratio.part * s.queue_capacity)
            (s.queue_depth * c.alert_max_queue_fill_ratio.whole))
      ingest_queue_saturated

unfoldable pub silence_alerts : Settings → Snapshot → List Alert
silence_alerts c s =
    if c.alert_collector_silence_seconds == 0
    then []
    else for_age collector_health_stale c.alert_collector_silence_seconds
        (age_of s.collected_at s.updated_at)

-- The alerts in the order in which the rules stand.
unfoldable pub raised : Settings → Option (List (Text × Bool)) → Snapshot → List Alert
raised c chain_status s =
    when s.database_error database_unavailable
    ++ (for_any database_permissions_insecure (insecure_files s)
        ++ (for_any evidence_chain_broken (broken_tables chain_status)
            ++ (counted events_dropped s.dropped_event_count
                ++ (counted kernel_events_lost s.kernel_lost_event_count
                    ++ (counted events_quarantined s.quarantined_event_count
                        ++ (map collector_degraded (degraded_sources s)
                            ++ (silence_alerts c s
                                ++ (for_age telemetry_stale c.stale_after_seconds
                                      (age_of s.collected_at s.latest_event_timestamp)
                                    ++ (disk_alerts c s ++ queue_alerts c s)))))))))

-- `evaluate`
unfoldable pub evaluate : Settings → Option (List (Text × Bool)) → Snapshot → List Alert
evaluate c chain_status s = sort_by key_before (raised c chain_status s)
