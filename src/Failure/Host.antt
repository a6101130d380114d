-- ===== src/Failure/Host.antt =====
-- The health samples of detection/system_failure.py: `_score_host` and `_score_health`.
use linux_xai_security_assis.Base.{
  ℕ, ◌*◌, Bool, Option, none, some, List, [], ◌∷◌, map, ltb, if◌then◌else◌, Text, codes, same_text,
  lookup, put, grouped_from,
}
use linux_xai_security_assis.Policy.{one}
use linux_xai_security_assis.Failure.{
  Settings, Counter, new_counter, Observation, observe, breach_high, breach_low, observed_reading,
  Formats, risk_high, risk_medium, risk_low,
}
use linux_xai_security_assis.Failure.Acts.{
  HostState, World, Act, quiet, both, all_acts, persist_maybe,
}

-- The payload of a SYSTEM_HEALTH event; what is missing or null is unknown.
pub record Health : Type 0 where
  pub mem_percent : Option ℕ
  pub mem_available_mb : Option ℕ
  pub cpu_percent : Option ℕ
  pub disk_percent : Option ℕ

pub record Sample : Type 0 where
  pub timestamp : ℕ
  pub host_id : Option Text
  pub payload : Health

unfoldable pub new_host : Settings → HostState
new_host s =
    let c = new_counter s.failure_consecutive_windows s.failure_clear_windows in
    record { mem_high = c; mem_medium = c; mem_available = c; cpu_high = c; disk_full = c }

abbrev pub or_new : Settings → Option HostState → HostState
or_new s none = new_host s
or_new s (some state) = state

-- `_host_state`
unfoldable pub host_state : Settings → Text → World → HostState
unfolding lookup
host_state s host w = or_new s (lookup host w.host_states)

abbrev pub with_state : Text → HostState → World → World
with_state host state w = record w { host_states = put host state w.host_states }

-- `max(events, key=…)` over a list that is not empty: the first of the latest.
unfoldable pub latest_sample : Sample → List Sample → Sample
latest_sample best [] = best
latest_sample best (e ∷ events) =
    latest_sample (if ltb best.timestamp e.timestamp then e else best) events

-- `event.host_id or "unknown"`
abbrev pub host_or_unknown : Option Text → Text
host_or_unknown none = codes "unknown"
host_or_unknown (some []) = codes "unknown"
host_or_unknown (some (c ∷ host)) = c ∷ host

-- The samples of each host, in the order in which the hosts appear.
unfoldable pub by_host : List Sample → List (Text × List Sample)
unfolding grouped_from
by_host events = grouped_from same_text (λ (e : Sample). host_or_unknown e.host_id) [] events

-- A condition that has one counter and one limit.
pub record Gauge : Type 0 where
  pub condition : Text
  pub risk_score : ℕ
  pub counter_of : HostState → Counter
  pub with_counter : Counter → HostState → HostState
  pub breaches : Bool → ℕ → Bool

unfoldable pub disk_gauge : Settings → Gauge
unfolding breach_high
disk_gauge s = record {
  condition = codes "disk_full";
  risk_score = risk_high;
  counter_of = λ (h : HostState). h.disk_full;
  with_counter = λ c (h : HostState). record h { disk_full = c };
  breaches = λ active v. breach_high active v s.failure_disk_full_pct s.failure_clear_ratio;
}

-- The floor and the reading are whole megabytes, compared as floats.
unfoldable pub available_gauge : Settings → Gauge
unfolding breach_low
available_gauge s = record {
  condition = codes "memory_available_low";
  risk_score = risk_medium;
  counter_of = λ (h : HostState). h.mem_available;
  with_counter = λ c (h : HostState). record h { mem_available = c };
  breaches = λ active v.
      breach_low active (v * one) (s.failure_memory_min_available_mb * one) s.failure_clear_ratio;
}

unfoldable pub cpu_gauge : Settings → Gauge
unfolding breach_high
cpu_gauge s = record {
  condition = codes "cpu_pressure_high";
  risk_score = risk_medium;
  counter_of = λ (h : HostState). h.cpu_high;
  with_counter = λ c (h : HostState). record h { cpu_high = c };
  breaches = λ active v. breach_high active v s.failure_cpu_high_pct s.failure_clear_ratio;
}

module _ (formats : Formats) (s : Settings) (persist : Bool) where
  module _ (host : Text) (window_start window_end : ℕ) where
    -- A finding of this host, of a condition that its counter holds.
    abbrev pub host_finding : Text → ℕ → ℕ → Counter → Act
    host_finding condition risk value c = persist_maybe formats s persist (record {
      window_start = window_start;
      window_end = window_end;
      entity_type = codes "host";
      entity_key = host;
      risk_score = risk;
      condition = condition;
      observed = observed_reading value;
      consecutive_windows = c.breach_count;
    })

    -- Report a condition that is active, or go on.
    unfoldable pub reported : Text → ℕ → ℕ → Observation → Act → Act
    unfolding persist_maybe
    reported condition risk value o otherwise w =
        if o.now_active then host_finding condition risk value o.counter w else otherwise w

    -- Observe one counter with the reading of this window, and report while it is active.
    unfoldable pub score_gauge : Gauge → Option ℕ → Act
    unfolding host_state put observe
    score_gauge gauge none w = quiet w
    score_gauge gauge (some value) w =
        let state = host_state s host w in
        let c = gauge.counter_of state in
        let o = observe (gauge.breaches c.active value) window_start c in
        let w' = with_state host (gauge.with_counter o.counter state) w in
        reported gauge.condition gauge.risk_score value o quiet w'

    -- Both counters are observed, and the higher condition is reported.
    unfoldable pub score_memory : Option ℕ → Act
    unfolding host_state put observe breach_high
    score_memory none w = quiet w
    score_memory (some value) w =
        let state = host_state s host w in
        let high =
          observe
            (breach_high state.mem_high.active value s.failure_memory_high_pct
              s.failure_clear_ratio)
            window_start state.mem_high in
        let medium =
          observe
            (breach_high state.mem_medium.active value s.failure_memory_medium_pct
              s.failure_clear_ratio)
            window_start state.mem_medium in
        let w' =
          with_state host (record state { mem_high = high.counter; mem_medium = medium.counter })
            w in
        reported (codes "memory_pressure_high") risk_medium value high
          (reported (codes "memory_pressure_medium") risk_low value medium quiet) w'

    abbrev pub score_payload : Health → Act
    score_payload payload = both (score_gauge (disk_gauge s) payload.disk_percent) (
        both (score_memory payload.mem_percent) (
          both (score_gauge (available_gauge s) payload.mem_available_mb)
            (score_gauge (cpu_gauge s) payload.cpu_percent)))

    -- `_score_host`, of the samples of one host in one window; a host that is new gets its state.
    unfoldable pub score_host : Sample → List Sample → Act
    unfolding host_state put latest_sample score_gauge score_memory both disk_gauge available_gauge
        cpu_gauge
    score_host first events w =
        score_payload (latest_sample first events).payload (with_state host (host_state s host w) w)

  abbrev pub score_group : ℕ → ℕ → Text × List Sample → Act
  score_group window_start window_end (host, []) = quiet
  score_group window_start window_end (host, first ∷ events) =
      score_host host window_start window_end first events

  -- `_score_health`
  unfoldable pub score_health : ℕ → ℕ → List Sample → Act
  unfolding by_host all_acts
  score_health window_start window_end events =
      all_acts (map (score_group window_start window_end) (by_host events))
