-- ===== src/Failure.antt =====
-- detection/system_failure.py: the hysteresis of a condition, the settings, and the findings that
-- the scorer builds. Times and readings are doubles that are not negative, counted in multiples of
-- 2 ^ -1074 as in Policy; a product or quotient of a threshold is compared exactly, where the code
-- rounds it.
pub mod InForce
pub mod Steps
pub mod Hysteresis
pub mod Acts
pub mod Host
pub mod Service
pub mod Batch
pub mod Safe
pub mod Closed
pub mod Raises
pub mod Grown
pub mod Watched
pub mod Limits
pub mod Readings
pub mod Feeds
pub mod Batches
pub mod Reported
pub mod HostReport
pub mod Buckets
pub mod Windows
pub mod CrashLoop
pub mod Loops
pub mod Toy
mod Samples
use linux_xai_security_assis.Base.{
  ℕ, ◌+◌, ◌*◌, ◌^◌, max, Bool, true, false, not, ◌&&◌, Option, none, some, List, [], ◌∷◌, leb,
  if◌then◌else◌, Text, codes, decimal, Keyed,
}
use linux_xai_security_assis.Chain.Json.{Value, text, number, dumps_object}
use linux_xai_security_assis.Policy.{Number, ticks, one}
use linux_xai_security_assis.Findings.{Finding}

-- What `_thresholds` and the scorer read of `Settings`.
pub record Settings : Type 0 where
  pub failure_memory_high_pct : ℕ
  pub failure_memory_medium_pct : ℕ
  pub failure_memory_min_available_mb : ℕ
  pub failure_cpu_high_pct : ℕ
  pub failure_disk_full_pct : ℕ
  pub failure_consecutive_windows : ℕ
  pub failure_clear_windows : ℕ
  pub failure_clear_ratio : ℕ
  pub failure_crash_loop_threshold : ℕ
  pub failure_crash_loop_window_seconds : ℕ

-- `value >= threshold * clear_ratio`, or `value >= threshold`
unfoldable pub breach_high : Bool → ℕ → ℕ → ℕ → Bool
breach_high active value threshold ratio =
    if active then leb (threshold * ratio) (value * one) else leb threshold value

-- `value <= threshold / clear_ratio`, or `value <= threshold`
unfoldable pub breach_low : Bool → ℕ → ℕ → ℕ → Bool
breach_low active value threshold ratio =
    if active then leb (value * ratio) (threshold * one) else leb value threshold

-- `_HysteresisCounter`
pub record Counter : Type 0 where
  pub breach_needed : ℕ
  pub clear_needed : ℕ
  pub breach_count : ℕ
  pub clear_count : ℕ
  pub active : Bool
  pub last_window : Option ℕ

abbrev pub new_counter : ℕ → ℕ → Counter
new_counter breach clear = record {
  breach_needed = max 1 breach;
  clear_needed = max 1 clear;
  breach_count = 0;
  clear_count = 0;
  active = false;
  last_window = none;
}

-- `self._last_window is not None and window_start <= self._last_window`
abbrev pub is_stale : ℕ → Option ℕ → Bool
is_stale window none = false
is_stale window (some last) = leb window last

abbrev pub advance : Bool → ℕ → Counter → Counter
advance true window c = record c {
  last_window = some window;
  breach_count = c.breach_count + 1;
  clear_count = 0;
  active = if not c.active && leb c.breach_needed (c.breach_count + 1) then true else c.active;
}
advance false window c = record c {
  last_window = some window;
  clear_count = c.clear_count + 1;
  breach_count = 0;
  active = if c.active && leb c.clear_needed (c.clear_count + 1) then false else c.active;
}

-- What `observe` returns, and the counter it leaves.
pub record Observation : Type 0 where
  pub now_active : Bool
  pub just_cleared : Bool
  pub counter : Counter

unfoldable pub observe : Bool → ℕ → Counter → Observation
observe in_breach window c =
    if is_stale window c.last_window
    then record { now_active = c.active; just_cleared = false; counter = c }
    else record {
      now_active = (advance in_breach window c).active;
      just_cleared = c.active && not (advance in_breach window c).active;
      counter = advance in_breach window c;
    }

-- What a finding says it saw: a reading, or the failures of a unit.
pub data Observed : Type 0 where
  observed_reading : ℕ → Observed
  observed_failures : Option Text → Option Text → ℕ → ℕ → Observed

-- The finding that `_build_finding` makes, less what is the same in all of them; the detail, the
-- evidence and the explanation format these fields.
pub record Built : Type 0 where
  pub window_start : ℕ
  pub window_end : ℕ
  pub entity_type : Text
  pub entity_key : Text
  pub risk_score : ℕ
  pub condition : Text
  pub observed : Observed
  pub consecutive_windows : ℕ

-- The doubles 0.85, 0.65, 0.4 and 0.8.
unfoldable pub risk_high : ℕ
risk_high = 7656119366529843 * 2 ^ 1021

unfoldable pub risk_medium : ℕ
risk_medium = 5854679515581645 * 2 ^ 1021

unfoldable pub risk_low : ℕ
risk_low = 3602879701896397 * 2 ^ 1021

unfoldable pub severe : ℕ
severe = 3602879701896397 * 2 ^ 1022

unfoldable pub severity_of : ℕ → Text
severity_of risk =
    if leb severe risk
    then codes "HIGH"
    else if leb (2 ^ 1073) risk
    then codes "MEDIUM"
    else codes "LOW"

abbrev failure_detector_version : Text
failure_detector_version = codes "system_failure.v1"

-- How the program writes a float, the digest, the texts that only format a finding, and which of
-- the writes to the table of findings, counted in `World`, SQLite refuses.
pub record Formats : Type 0 where
  pub sha256 : Text → Text
  pub repr : Number → Text
  pub evidence_json : Settings → Built → Text
  pub explanation : Built → Text
  pub refuses : ℕ → Bool

-- `_provenance_hash`: the keys of the material are sorted.
abbrev pub material : Formats → Built → List (Text × Value)
material formats b =
    (codes "condition", text b.condition)
    ∷ (codes "detector_version", text failure_detector_version)
    ∷ (codes "entity_key", text b.entity_key)
    ∷ (codes "entity_type", text b.entity_type)
    ∷ (codes "severity", text (severity_of b.risk_score))
    ∷ (codes "window_end", number (formats.repr (ticks b.window_end)))
    ∷ (codes "window_start", number (formats.repr (ticks b.window_start)))
    ∷ []

unfoldable pub provenance_hash : Formats → Built → Text
provenance_hash formats b = formats.sha256 (dumps_object (material formats b))

-- The mapping that is written to the store.
unfoldable pub build_finding : Formats → Settings → Built → Finding
unfolding provenance_hash
build_finding formats s b = record {
  source_risk_id = none;
  window_start = ticks b.window_start;
  window_end = ticks b.window_end;
  entity_type = b.entity_type;
  entity_key = b.entity_key;
  risk_score = ticks b.risk_score;
  severity = severity_of b.risk_score;
  behavior_score = ticks 0;
  rule_score = ticks 0;
  context_score = ticks 0;
  evidence_json = formats.evidence_json s b;
  explanation = formats.explanation b;
  mode = codes "system_failure";
  provenance_hash = some (provenance_hash formats b);
  detector_version = some failure_detector_version;
  correlation_id = none;
  suppressed = false;
  suppression_reason = none;
  created_at = none;
}
