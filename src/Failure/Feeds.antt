-- ===== src/Failure/Feeds.antt =====
-- Batches of detection/system_failure.py: when a condition of a host is in force, in terms of the
-- readings that the batches held.
use linux_xai_security_assis.Base.{
  ℕ, ◌+◌, ◌≡◌, refl, sym, ap, ◌∙◌, inl, inr, Bool, true, false, List, [], ◌∷◌, ◌++◌, map,
  if◌then◌else◌, Bool-cases, subst, Text, same_text, same_text→eq, keep,
}
use mathlib.Core.List.{append-nil}
use linux_xai_security_assis.Failure.{Settings, Counter, Formats}
use linux_xai_security_assis.Failure.Acts.{HostState, World, Act, quiet, both, all_acts}
use linux_xai_security_assis.Failure.Host.{
  Sample, host_state, with_state, latest_sample, score_payload, score_host, score_group, by_host,
  score_health,
}
use linux_xai_security_assis.Failure.Service.{Failed, score_unit, score_service, failed_units}
use linux_xai_security_assis.Failure.Batch.{
  Event, health_of, service_of, inside, windows_of, window_width, score_window, score_bucket,
  score_batch,
}
use linux_xai_security_assis.Failure.InForce.{feed}
use linux_xai_security_assis.Failure.Safe.{IsAccepted, IsSafe}
use linux_xai_security_assis.Failure.Raises.{
  score_group-IsSafe, score_unit-IsSafe, score_health-IsSafe, score_bucket-IsSafe,
}
use linux_xai_security_assis.Failure.Watched.{
  Watched, counter_of, reading_of, breaches_of, at_window, host_state-with_state, host_state_of,
  persist_maybe-host_states,
}
use linux_xai_security_assis.Failure.Readings.{
  flat_map, group_readings, window_readings, readings_of, feed-append, payload_change,
  counter_of-payload_change, score_payload-Transforms,
}

module _ (s : Settings) (x : Watched) (host : Text) where
  abbrev pub watched_counter : World → Counter
  watched_counter w = counter_of x (host_state s host w)

  -- An act that has the counter observe some readings.
  pub record Feeds (readings : List (ℕ × ℕ)) (act : Act) : Type 0 where
    pub feeds :
        (w : World)
        → watched_counter (act w).world ≡ feed (breaches_of s x) (watched_counter w) readings

  quiet-Feeds : Feeds [] quiet
  unfolding feed
  quiet-Feeds = record { feeds = λ w. refl }

  both-Feeds :
      (rs more : List (ℕ × ℕ)) {first second : Act}
      → IsSafe first
      → Feeds rs first
      → Feeds more second
      → Feeds (rs ++ more) (both first second)
  unfolding both
  both-Feeds rs more {first} safe a b = record {
    feeds = λ w. rw (safe.never_raises w) (
        b.feeds (first w).world
        ∙ ap (λ c. feed (breaches_of s x) c more) (a.feeds w)
        ∙ sym (feed-append (breaches_of s x) (watched_counter w) rs more));
  }

  all_acts-Feeds {ℓ} :
      {A : Type ℓ} (f : A → Act) (readings : A → List (ℕ × ℕ))
      → ((a : A) → IsSafe (f a))
      → ((a : A) → Feeds (readings a) (f a))
      → (list : List A) → Feeds (flat_map readings list) (all_acts (map f list))
  unfolding all_acts
  all_acts-Feeds f readings safe h [] = quiet-Feeds
  all_acts-Feeds f readings safe h (a ∷ more) =
      both-Feeds (readings a) (flat_map readings more) (safe a) (h a)
        (all_acts-Feeds f readings safe h more)

  -- Acts that leave the states of the hosts alone.
  all_acts-Feeds_nothing {ℓ} :
      {A : Type ℓ} (f : A → Act)
      → ((a : A) → IsSafe (f a))
      → ((a : A) → Feeds [] (f a))
      → (list : List A) → Feeds [] (all_acts (map f list))
  unfolding all_acts
  all_acts-Feeds_nothing f safe h [] = quiet-Feeds
  all_acts-Feeds_nothing f safe h (a ∷ more) =
      both-Feeds [] [] (safe a) (h a) (all_acts-Feeds_nothing f safe h more)

  moved :
      (b : Bool) (change : HostState → HostState) (before after : HostState) (rs : List (ℕ × ℕ))
      → after ≡ (if b then change before else before)
      → counter_of x (change before) ≡ feed (breaches_of s x) (counter_of x before) rs
      → counter_of x after ≡ feed (breaches_of s x) (counter_of x before) (if b then rs else [])
  unfolding feed
  moved true change before after rs e h = ap (counter_of x) e ∙ h
  moved false change before after rs e h = ap (counter_of x) e

  settled :
      (other : Text) (w : World)
      → host_state s host (with_state other (host_state s other w) w) ≡ host_state s host w
  settled other w =
      host_state-with_state s other host (host_state s other w) w
      ∙ elim (Bool-cases (same_text other host)) [
        | inl same ↦ rw same (ap (λ t. host_state s t w) (same_text→eq other host same))
        | inr apart ↦ rw apart refl
      ]

  module _ (formats : Formats) (accepted : IsAccepted formats) (persist : Bool) where
    score_host-Feeds :
        (other : Text) (start end : ℕ) (first : Sample) (events : List Sample)
        → Feeds
            (if same_text other host
              then at_window start (reading_of x (latest_sample first events).payload)
              else [])
            (score_host formats s persist other start end first events)
    unfolding score_host
    score_host-Feeds other start end first events = record {
      feeds = λ w.
          let p = (latest_sample first events).payload in
          let w₀ = with_state other (host_state s other w) w in
          let change = payload_change s start p in
          moved (same_text other host) change (host_state s host w)
            (host_state s host (score_payload formats s persist other start end p w₀).world)
            (at_window start (reading_of x p))
            ((score_payload-Transforms formats accepted s persist other start end p).moves w₀ host
              ∙ ap (λ h. if same_text other host then change h else h) (settled other w))
            (counter_of-payload_change s x start p (host_state s host w));
    }

    score_group-Feeds :
        (start end : ℕ) (group : Text × List Sample)
        → Feeds (group_readings x host start group) (score_group formats s persist start end group)
    score_group-Feeds start end (other, []) = quiet-Feeds
    score_group-Feeds start end (other, first ∷ events) =
        score_host-Feeds other start end first events

    score_unit-Feeds :
        (start end : ℕ) (unit : Text × Failed)
        → Feeds [] (score_unit formats s persist start end unit)
    unfolding score_unit feed
    score_unit-Feeds start end (unit, failed) = record {
      feeds = λ w.
          ap (counter_of x)
            (host_state_of s host _ _ (persist_maybe-host_states formats s persist _ _));
    }

    score_bucket-Feeds :
        (bucket : ℕ × List Event)
        → Feeds (window_readings x host bucket) (score_bucket formats s persist bucket)
    unfolding score_window score_health score_service
    score_bucket-Feeds (start, events) =
        let end = start + window_width in
        let within = keep (inside start end) events in
        let rs = window_readings x host (start, events) in
        subst (λ l. Feeds l (score_window formats s persist events start end)) (append-nil rs)
          (both-Feeds rs []
            (score_health-IsSafe formats accepted s persist start end (health_of within))
            (all_acts-Feeds (score_group formats s persist start end) (group_readings x host start)
              (score_group-IsSafe formats accepted s persist start end)
              (score_group-Feeds start end) (by_host (health_of within)))
            (all_acts-Feeds_nothing (score_unit formats s persist start end)
              (score_unit-IsSafe formats accepted s persist start end) (score_unit-Feeds start end)
              (failed_units (service_of within))))

    pub score_batch-Feeds :
        (events : List Event)
        → Feeds (readings_of x host events) (score_batch formats s persist events)
    unfolding score_batch
    score_batch-Feeds events =
        all_acts-Feeds (score_bucket formats s persist) (window_readings x host)
          (score_bucket-IsSafe formats accepted s persist) score_bucket-Feeds (windows_of events)
