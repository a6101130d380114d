-- ===== src/Failure/HostReport.antt =====
-- What `_score_host` of detection/system_failure.py reports: the conditions that are active.
use linux_xai_security_assis.Base.{
  ℕ, ◌≡◌, refl, sym, ap, ◌∙◌, Bool, List, ◌++◌, Text, same_text_refl,
}
use linux_xai_security_assis.Failure.{Settings, Formats}
use linux_xai_security_assis.Failure.Safe.{IsAccepted}
use linux_xai_security_assis.Failure.Acts.{HostState, World, Act}
use linux_xai_security_assis.Failure.Host.{
  Health, Sample, disk_gauge, available_gauge, cpu_gauge, host_state, with_state, score_gauge,
  score_memory, score_payload, latest_sample, score_host,
}
use linux_xai_security_assis.Failure.Raises.{score_gauge-IsSafe, score_memory-IsSafe}
use linux_xai_security_assis.Failure.Closed.{
  disk_gauge-IsRisk, available_gauge-IsRisk, cpu_gauge-IsRisk,
}
use linux_xai_security_assis.Failure.Watched.{
  memory_high, memory_medium, breaches_of, observed_with, gauge_change, memory_change, Transforms,
  score_gauge-Transforms, score_memory-Transforms,
}
use linux_xai_security_assis.Failure.Readings.{
  payload_change, score_payload-Transforms, disk_lens, available_lens,
}
use linux_xai_security_assis.Failure.Reported.{
  conditions, of_gauge, of_memory, active_conditions, conditions-both, conditions-score_gauge,
  conditions-score_memory,
}

module _ (formats : Formats) (accepted : IsAccepted formats) (s : Settings) (persist : Bool) where
  module _ (host : Text) (start end : ℕ) where
    -- No act changes what another one reads.
    read_together :
        (p : Health) (h : HostState)
        → (let h₁ = gauge_change (disk_gauge s) start p.disk_percent h in
            let h₂ = memory_change s start p.mem_percent h₁ in
            let h₃ = gauge_change (available_gauge s) start p.mem_available_mb h₂ in
            of_gauge (disk_gauge s).condition p.disk_percent (
              observed_with
                (disk_gauge s).breaches
                start
                p.disk_percent
                ((disk_gauge s).counter_of h))
            ++ (of_memory p.mem_percent
                  (observed_with (breaches_of s memory_high) start p.mem_percent h₁.mem_high)
                  (observed_with (breaches_of s memory_medium) start p.mem_percent h₁.mem_medium)
                ++ (of_gauge (available_gauge s).condition p.mem_available_mb (
                      observed_with
                        (available_gauge s).breaches
                        start
                        p.mem_available_mb
                        ((available_gauge s).counter_of h₂))
                    ++ of_gauge (cpu_gauge s).condition p.cpu_percent (
                        observed_with
                          (cpu_gauge s).breaches
                          start
                          p.cpu_percent
                          ((cpu_gauge s).counter_of h₃)))))
          ≡ active_conditions p (payload_change s start p h)
    unfolding payload_change disk_gauge available_gauge cpu_gauge memory_change
    read_together p h = refl

    -- The state of the host after an act that changes it.
    changed :
        (change : HostState → HostState) (act : Act) (w : World)
        → Transforms s host change act
        → host_state s host (act w).world ≡ change (host_state s host w)
    changed change act w t = t.moves w host ∙ rw (same_text_refl host) refl

    conditions-score_payload :
        (p : Health) (w : World)
        → conditions (score_payload formats s persist host start end p w)
          ≡ active_conditions p (payload_change s start p (host_state s host w))
    unfolding payload_change
    conditions-score_payload p w =
        let safe = score_gauge-IsSafe formats accepted s persist start end host in
        let moves = score_gauge-Transforms formats s persist host start end in
        let gauge = score_gauge formats s persist host start end in
        let disk_act = gauge (disk_gauge s) p.disk_percent in
        let memory_act = score_memory formats s persist host start end p.mem_percent in
        let available_act = gauge (available_gauge s) p.mem_available_mb in
        let cpu_act = gauge (cpu_gauge s) p.cpu_percent in
        let w₁ = (disk_act w).world in
        let w₂ = (memory_act w₁).world in
        let w₃ = (available_act w₂).world in
        let to₁ =
          changed (gauge_change (disk_gauge s) start p.disk_percent) disk_act w
            (moves (disk_gauge s) p.disk_percent (disk_lens s)) in
        let to₂ =
          changed (memory_change s start p.mem_percent) memory_act w₁
            (score_memory-Transforms formats s persist host start end p.mem_percent) in
        let to₃ =
          changed (gauge_change (available_gauge s) start p.mem_available_mb) available_act w₂
            (moves (available_gauge s) p.mem_available_mb (available_lens s)) in
        conditions-both disk_act _ (safe (disk_gauge s) (disk_gauge-IsRisk s) p.disk_percent) w
        ∙ ap (λ l. conditions (disk_act w) ++ l)
            (conditions-both memory_act _
                (score_memory-IsSafe formats accepted s persist start end host p.mem_percent) w₁
              ∙ ap (λ l. conditions (memory_act w₁) ++ l)
                  (conditions-both available_act cpu_act
                    (safe (available_gauge s) (available_gauge-IsRisk s) p.mem_available_mb) w₂))
        ∙ rw
            (
              conditions-score_gauge formats accepted s persist host start end (disk_gauge s)
                  p.disk_percent w (disk_gauge-IsRisk s),
              conditions-score_memory formats accepted s persist host start end p.mem_percent w₁,
              conditions-score_gauge formats accepted s persist host start end (available_gauge s)
                  p.mem_available_mb w₂ (available_gauge-IsRisk s),
              conditions-score_gauge formats accepted s persist host start end (cpu_gauge s)
                  p.cpu_percent w₃ (cpu_gauge-IsRisk s),
              to₃,
              to₂,
              to₁,
            )
            (read_together p (host_state s host w))

  -- Where SQLite refuses no write, a sample is reported as exactly the conditions that it reads and
  -- that are active after it, the higher memory condition alone where both are; each finding has its
  -- own place in this order.
  pub conditions-score_host :
      (host : Text) (start end : ℕ) (first : Sample) (events : List Sample) (w : World)
      → conditions (score_host formats s persist host start end first events w)
        ≡ active_conditions
            (latest_sample first events).payload
            (host_state s host (score_host formats s persist host start end first events w).world)
  unfolding score_host
  conditions-score_host host start end first events w =
      let p = (latest_sample first events).payload in
      let w₀ = with_state host (host_state s host w) w in
      conditions-score_payload host start end p w₀
      ∙ ap (active_conditions p) (
          sym (
            changed host start end (payload_change s start p)
              (score_payload formats s persist host start end p) w₀
              (score_payload-Transforms formats accepted s persist host start end p)))
