-- ===== src/Failure/Reported.antt =====
-- Which findings `_score_host` of detection/system_failure.py reports.
use linux_xai_security_assis.Base.{
  ℕ, ◌≡◌, refl, sym, ap, ◌∙◌, inl, inr, Bool, false≢true, Option, none, some, List, [], ◌∷◌, ◌++◌,
  map, if◌then◌else◌, Bool-cases, Option-cases, Text, codes,
}
use mathlib.Core.List.{map-append}
use linux_xai_security_assis.Failure.{
  build_finding, Settings, Counter, Built, Formats, Observation, observe, is_stale,
}
use linux_xai_security_assis.Failure.Acts.{
  HostState, World, Act, Scored, quiet, both, persist_maybe,
}
use linux_xai_security_assis.Failure.Host.{
  Health, Gauge, host_state, reported, score_gauge, score_memory,
}
use linux_xai_security_assis.Failure.Safe.{
  IsAccepted, IsSafe, IsRisk, persist_maybe-IsSafe, risk_medium-IsRisk, risk_low-IsRisk,
}
use linux_xai_security_assis.Findings.{write_detection_finding}
use linux_xai_security_assis.Failure.Watched.{
  memory_high, memory_medium, breaches_of, observed_with,
}

abbrev pub condition_of : Built × Option ℕ → Text
condition_of f = f.0.condition

abbrev pub conditions : Scored → List Text
conditions r = map condition_of r.findings

-- A condition that was read in this window and is active.
abbrev pub of_gauge : Text → Option ℕ → Counter → List Text
of_gauge condition none c = []
of_gauge condition (some value) c = if c.active then condition ∷ [] else []

abbrev pub of_memory : Option ℕ → Counter → Counter → List Text
of_memory none high medium = []
of_memory (some value) high medium =
    if high.active
    then codes "memory_pressure_high" ∷ []
    else of_gauge (codes "memory_pressure_medium") (some value) medium

-- What a host is to report, from the readings of the window and the counters after it.
abbrev pub active_conditions : Health → HostState → List Text
active_conditions p h =
    of_gauge (codes "disk_full") p.disk_percent h.disk_full
    ++ (of_memory p.mem_percent h.mem_high h.mem_medium
        ++ (of_gauge (codes "memory_available_low") p.mem_available_mb h.mem_available
            ++ of_gauge (codes "cpu_pressure_high") p.cpu_percent h.cpu_high))

now_active-eq :
    (b : Bool) (window : ℕ) (c : Counter)
    → (observe b window c).now_active ≡ (observe b window c).counter.active
unfolding observe
now_active-eq b window c = elim (Bool-cases (is_stale window c.last_window)) [
  | inl stale ↦ rw stale refl
  | inr fresh ↦ rw fresh refl
]

pub conditions-both :
    (first second : Act)
    → IsSafe first
    → (w : World)
    → conditions (both first second w) ≡ conditions (first w) ++ conditions (second (first w).world)
unfolding both
conditions-both first second safe w =
    rw (safe.never_raises w)
      (map-append condition_of (first w).findings (second (first w).world).findings)

module _ (formats : Formats) (accepted : IsAccepted formats) (s : Settings) (persist : Bool) where
  pub conditions-persist_maybe :
      (b : Built)
      → IsRisk b.risk_score
      → (w : World) → conditions (persist_maybe formats s persist b w) ≡ b.condition ∷ []
  unfolding persist_maybe
  conditions-persist_maybe b risk w = elim (Bool-cases persist) [
    | inr dry ↦ rw dry refl
    | inl real ↦
        elim (Option-cases (
          write_detection_finding formats.sha256 formats.repr (formats.refuses w.writes) w.table
            (build_finding formats s b))) [
              | inl fails ↦
                  let safe =
                    (persist_maybe-IsSafe formats accepted s persist b risk).never_raises w in
                  absurd (false≢true (sym (rw (real, fails) at safe)))
              | inr (r, wrote) ↦ rw (real, wrote) refl
            ]
  ]

  module _ (host : Text) (start end : ℕ) where
    conditions-reported :
        (condition : Text) (risk value : ℕ) (o : Observation) (otherwise : Act) (w : World)
        → IsRisk risk
        → conditions (reported formats s persist host start end condition risk value o otherwise w)
          ≡ (if o.now_active then condition ∷ [] else conditions (otherwise w))
    unfolding reported
    conditions-reported condition risk value o otherwise w h = elim (Bool-cases o.now_active) [
      | inl on ↦ rw on (conditions-persist_maybe _ h w)
      | inr off ↦ rw off refl
    ]

    pub conditions-score_gauge :
        (gauge : Gauge) (o : Option ℕ) (w : World)
        → IsRisk gauge.risk_score
        → conditions (score_gauge formats s persist host start end gauge o w)
          ≡ of_gauge gauge.condition o
              (observed_with gauge.breaches start o (gauge.counter_of (host_state s host w)))
    unfolding score_gauge
    conditions-score_gauge gauge none w h = refl
    conditions-score_gauge gauge (some v) w h =
        let c = gauge.counter_of (host_state s host w) in
        conditions-reported gauge.condition gauge.risk_score v _ quiet _ h
        ∙ ap (λ b. if b then gauge.condition ∷ [] else [])
            (now_active-eq (gauge.breaches c.active v) start c)

    pub conditions-score_memory :
        (o : Option ℕ) (w : World)
        → conditions (score_memory formats s persist host start end o w)
          ≡ of_memory o
              (observed_with (breaches_of s memory_high) start o (host_state s host w).mem_high)
              (observed_with (breaches_of s memory_medium) start o (host_state s host w).mem_medium)
    unfolding score_memory breaches_of
    conditions-score_memory none w = refl
    conditions-score_memory (some v) w =
        let high = (host_state s host w).mem_high in
        let medium = (host_state s host w).mem_medium in
        conditions-reported _ _ v _ _ _ risk_medium-IsRisk
        ∙ ap
            (λ l.
              if (observe (breaches_of s memory_high high.active v) start high).now_active
              then codes "memory_pressure_high" ∷ []
              else l)
            (conditions-reported _ _ v _ quiet _ risk_low-IsRisk)
        ∙ rw
            (
              now_active-eq (breaches_of s memory_high high.active v) start high,
              now_active-eq (breaches_of s memory_medium medium.active v) start medium,
            )
            refl
