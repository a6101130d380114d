-- ===== src/Failure/Batches.antt =====
-- Batches of detection/system_failure.py, one after the other: when a condition of a host is in
-- force, in terms of the readings that the batches held.
use linux_xai_security_assis.Base.{
  subst, ℕ, ◌*◌, ◌≤◌, max, ◌≡◌, refl, sym, ap, ◌∙◌, ◌↔◌, Bool, true, false, none, List, [], ◌∷◌,
  Text,
}
use linux_xai_security_assis.Policy.{one}
use linux_xai_security_assis.Failure.{Settings, Formats, new_counter}
use linux_xai_security_assis.Failure.Safe.{IsAccepted}
use linux_xai_security_assis.Failure.Acts.{World}
use linux_xai_security_assis.Failure.Host.{new_host, host_state}
use linux_xai_security_assis.Failure.Batch.{Event, score_batch}
use linux_xai_security_assis.Failure.Limits.{reaches, clears, breaches-reaches, breaches-clears}
use linux_xai_security_assis.Failure.InForce.{feed, history, InForce, leaves_at}
use linux_xai_security_assis.Failure.Hysteresis.{feed_iff, high_banded, low_banded}
use linux_xai_security_assis.Failure.Watched.{
  Watched, disk, memory_high, memory_medium, memory_available, cpu, counter_of, breaches_of,
}
use linux_xai_security_assis.Failure.Readings.{flat_map, readings_of, feed-append}
use linux_xai_security_assis.Failure.Feeds.{watched_counter, score_batch-Feeds}

-- Batches, one after the other.
module _ (formats : Formats) (s : Settings) (persist : Bool) where
  unfoldable pub score_batches : List (List Event) → World → World
  score_batches [] w = w
  score_batches (events ∷ batches) w =
      score_batches batches (score_batch formats s persist events w).world

new_host_counter :
    (s : Settings) (x : Watched)
    → counter_of x (new_host s) ≡ new_counter s.failure_consecutive_windows s.failure_clear_windows
unfolding new_host
new_host_counter s disk = refl
new_host_counter s memory_high = refl
new_host_counter s memory_medium = refl
new_host_counter s memory_available = refl
new_host_counter s cpu = refl

banded :
    (s : Settings)
    → s.failure_clear_ratio ≤ one
    → (x : Watched) (v : ℕ) → breaches_of s x false v ≡ true
    → breaches_of s x true v ≡ true
unfolding breaches_of
banded s small disk v = high_banded s.failure_disk_full_pct s.failure_clear_ratio small v
banded s small memory_high v = high_banded s.failure_memory_high_pct s.failure_clear_ratio small v
banded s small memory_medium v =
    high_banded s.failure_memory_medium_pct s.failure_clear_ratio small v
banded s small memory_available v =
    low_banded (s.failure_memory_min_available_mb * one) s.failure_clear_ratio small (v * one)
banded s small cpu v = high_banded s.failure_cpu_high_pct s.failure_clear_ratio small v

module _ (formats : Formats) (accepted : IsAccepted formats) (s : Settings) (persist : Bool)
    (x : Watched) (host : Text) where
  score_batches-feed :
      (batches : List (List Event)) (w : World)
      → watched_counter s x host (score_batches formats s persist batches w)
        ≡ feed
            (breaches_of s x)
            (watched_counter s x host w)
            (flat_map (readings_of x host) batches)
  unfolding score_batches feed
  score_batches-feed [] w = refl
  score_batches-feed (events ∷ batches) w =
      let w' = (score_batch formats s persist events w).world in
      score_batches-feed batches w'
      ∙ ap (λ c. feed (breaches_of s x) c (flat_map (readings_of x host) batches))
          ((score_batch-Feeds s x host formats accepted persist events).feeds w)
      ∙ sym (
          feed-append (breaches_of s x) (watched_counter s x host w) (readings_of x host events)
            (flat_map (readings_of x host) batches))

  -- The code's test of a reading is one of the limits.
  by_limits :
      (breach clear : ℕ) (h : List ℕ)
      → InForce (breaches_of s x false) (leaves_at (breaches_of s x)) breach clear h
        ≡ InForce (reaches s x) (clears s x) breach clear h
  by_limits breach clear h =
      λ i. InForce (λ v. breaches-reaches s x v i) (λ v. breaches-clears s x v i) breach clear h

  fresh_counter :
      (w : World)
      → w.host_states ≡ []
      → watched_counter s x host w
        ≡ new_counter s.failure_consecutive_windows s.failure_clear_windows
  unfolding host_state new_host
  fresh_counter w first = rw first (new_host_counter s x)

  -- A scorer that has seen no host scores any batches, and SQLite refuses no write: each of the five conditions of a host is
  -- then active exactly if it is in force over the readings of that host: its limit was reached in
  -- as many windows in a row as the settings ask for, and has not been cleared in as many since.
  -- The windows are taken in the order in which they were scored, one that is not after those
  -- before it does not count, and what else the batches held does not matter. The clear ratio is at
  -- most one, as the settings demand.
  pub score_batches_iff :
      s.failure_clear_ratio ≤ one
      → (batches : List (List Event)) (w : World) → w.host_states ≡ []
      → ((watched_counter s x host (score_batches formats s persist batches w)).active ≡ true)
        ↔ InForce
            (reaches s x)
            (clears s x)
            (max 1 s.failure_consecutive_windows)
            (max 1 s.failure_clear_windows)
            (history none [] (flat_map (readings_of x host) batches))
  score_batches_iff small batches w first =
      let rs = flat_map (readings_of x host) batches in
      let fresh = new_counter s.failure_consecutive_windows s.failure_clear_windows in
      let start : watched_counter s x host w ≡ fresh = fresh_counter w first in
      let by_code =
        feed_iff (breaches_of s x) s.failure_consecutive_windows s.failure_clear_windows
          (banded s small x) rs in
      let in_force =
        by_limits (max 1 s.failure_consecutive_windows) (max 1 s.failure_clear_windows)
          (history none [] rs) in
      rw (score_batches-feed batches w, start)
        (subst (λ A. ((feed (breaches_of s x) fresh rs).active ≡ true) ↔ A) in_force by_code)
