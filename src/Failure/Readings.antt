-- ===== src/Failure/Readings.antt =====
-- The counters of detection/system_failure.py over batches: which readings each has observed.
use linux_xai_security_assis.Base.{
  ℕ, ◌+◌, ◌≡◌, refl, Bool, Option, none, some, List, [], ◌∷◌, ◌++◌, if◌then◌else◌, Text, same_text,
  keep,
}
use linux_xai_security_assis.Failure.{Settings, Counter, Formats, observe}
use linux_xai_security_assis.Failure.Safe.{IsAccepted}
use linux_xai_security_assis.Failure.Acts.{HostState}
use linux_xai_security_assis.Failure.Host.{
  Health, Sample, disk_gauge, available_gauge, cpu_gauge, score_payload, latest_sample, by_host,
}
use linux_xai_security_assis.Failure.Batch.{Event, health_of, inside, windows_of, window_width}
use linux_xai_security_assis.Failure.InForce.{feed}
use linux_xai_security_assis.Failure.Raises.{score_gauge-IsSafe, score_memory-IsSafe}
use linux_xai_security_assis.Failure.Closed.{disk_gauge-IsRisk, available_gauge-IsRisk}
use linux_xai_security_assis.Failure.Watched.{
  Watched, disk, memory_high, memory_medium, memory_available, cpu, counter_of, reading_of,
  breaches_of, at_window, Transforms, both-Transforms, score_gauge-Transforms,
  score_memory-Transforms, memory_change, observed_with, gauge_change,
}

abbrev pub flat_map {ℓ κ} : {A : Type ℓ} {B : Type κ} → (A → List B) → List A → List B
flat_map f [] = []
flat_map f (x ∷ xs) = f x ++ flat_map f xs

-- The readings of one condition of one host that a batch holds, in the order of its windows: for
-- each window the latest sample of the host, if it has the reading.
module _ (x : Watched) (host : Text) where
  abbrev pub group_readings : ℕ → Text × List Sample → List (ℕ × ℕ)
  group_readings window (h, []) = []
  group_readings window (h, first ∷ events) =
      if same_text h host
      then at_window window (reading_of x (latest_sample first events).payload)
      else []

  abbrev pub window_readings : ℕ × List Event → List (ℕ × ℕ)
  window_readings (window, events) =
      flat_map (group_readings window)
        (by_host (health_of (keep (inside window (window + window_width)) events)))

  abbrev pub readings_of : List Event → List (ℕ × ℕ)
  readings_of events = flat_map window_readings (windows_of events)

pub feed-append :
    {V : Type 0} (breaches : Bool → V → Bool) (c : Counter) (rs more : List (V × ℕ))
    → feed breaches c (rs ++ more) ≡ feed breaches (feed breaches c rs) more
unfolding feed
feed-append breaches c [] more = refl
feed-append breaches c (r ∷ rs) more =
    feed-append breaches (observe (breaches c.active r.0) r.1 c).counter rs more

feed-at_window :
    (breaches : Bool → ℕ → Bool) (c : Counter) (window : ℕ) (o : Option ℕ)
    → observed_with breaches window o c ≡ feed breaches c (at_window window o)
unfolding feed
feed-at_window breaches c window none = refl
feed-at_window breaches c window (some v) = refl

-- What one payload does to the state of its host.
unfoldable pub payload_change : Settings → ℕ → Health → HostState → HostState
payload_change s window p h = gauge_change (cpu_gauge s) window p.cpu_percent (
    gauge_change (available_gauge s) window p.mem_available_mb
      (memory_change s window p.mem_percent (gauge_change (disk_gauge s) window p.disk_percent h)))

pub counter_of-payload_change :
    (s : Settings) (x : Watched) (window : ℕ) (p : Health) (h : HostState)
    → counter_of x (payload_change s window p h)
      ≡ feed (breaches_of s x) (counter_of x h) (at_window window (reading_of x p))
unfolding payload_change disk_gauge available_gauge cpu_gauge memory_change breaches_of
counter_of-payload_change s disk window p h =
    feed-at_window (breaches_of s disk) h.disk_full window p.disk_percent
counter_of-payload_change s memory_high window p h =
    feed-at_window (breaches_of s memory_high) h.mem_high window p.mem_percent
counter_of-payload_change s memory_medium window p h =
    feed-at_window (breaches_of s memory_medium) h.mem_medium window p.mem_percent
counter_of-payload_change s memory_available window p h =
    feed-at_window (breaches_of s memory_available) h.mem_available window p.mem_available_mb
counter_of-payload_change s cpu window p h =
    feed-at_window (breaches_of s cpu) h.cpu_high window p.cpu_percent

pub disk_lens :
    (s : Settings) (h : HostState) → (disk_gauge s).with_counter ((disk_gauge s).counter_of h) h ≡ h
unfolding disk_gauge
disk_lens s h = refl

pub available_lens :
    (s : Settings) (h : HostState)
    → (available_gauge s).with_counter ((available_gauge s).counter_of h) h ≡ h
unfolding available_gauge
available_lens s h = refl

pub cpu_lens :
    (s : Settings) (h : HostState) → (cpu_gauge s).with_counter ((cpu_gauge s).counter_of h) h ≡ h
unfolding cpu_gauge
cpu_lens s h = refl

module _ (formats : Formats) (accepted : IsAccepted formats) (s : Settings) (persist : Bool) where
  pub score_payload-Transforms :
      (host : Text) (start end : ℕ) (p : Health)
      → Transforms s host
          (payload_change s start p)
          (score_payload formats s persist host start end p)
  unfolding payload_change
  score_payload-Transforms host start end p =
      let on_memory = score_memory-Transforms formats s persist host start end p.mem_percent in
      let on_disk =
        score_gauge-Transforms formats s persist host start end (disk_gauge s) p.disk_percent
          (disk_lens s) in
      let on_available =
        score_gauge-Transforms formats s persist host start end (available_gauge s)
          p.mem_available_mb (available_lens s) in
      let on_cpu =
        score_gauge-Transforms formats s persist host start end (cpu_gauge s) p.cpu_percent
          (cpu_lens s) in
      let safe = score_gauge-IsSafe formats accepted s persist start end host in
      both-Transforms s host (gauge_change (disk_gauge s) start p.disk_percent) _
        (safe (disk_gauge s) (disk_gauge-IsRisk s) p.disk_percent) on_disk
        (both-Transforms s host (memory_change s start p.mem_percent) _
          (score_memory-IsSafe formats accepted s persist start end host p.mem_percent) on_memory
          (both-Transforms s host (gauge_change (available_gauge s) start p.mem_available_mb)
            (gauge_change (cpu_gauge s) start p.cpu_percent)
            (safe (available_gauge s) (available_gauge-IsRisk s) p.mem_available_mb) on_available
            on_cpu))
