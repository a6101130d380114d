-- ===== src/Failure/Watched.antt =====
-- The five conditions of a host in detection/system_failure.py, and what each act of a batch does to
-- their counters.
use linux_xai_security_assis.Base.{
  ℕ, ◌*◌, ◌≡◌, refl, sym, ap, ◌∙◌, inl, inr, Bool, true, false, Option, none, some, List, [], ◌∷◌,
  if◌then◌else◌, Bool-cases, Option-cases, Text, same_text, same_text→eq, lookup, lookup-put_self,
  lookup-put_other,
}
use linux_xai_security_assis.Policy.{one}
use linux_xai_security_assis.Findings.{write_detection_finding}
use linux_xai_security_assis.Failure.{
  build_finding, Settings, Counter, Observation, Formats, Built, observe, breach_high, breach_low,
}
use linux_xai_security_assis.Failure.Acts.{HostState, World, Act, quiet, both, persist_maybe}
use linux_xai_security_assis.Failure.Host.{
  Health, Gauge, host_state, with_state, or_new, reported, score_gauge, score_memory,
}
use linux_xai_security_assis.Failure.Safe.{IsSafe}

pub data Watched : Type 0 where
  disk memory_high memory_medium memory_available cpu : Watched

abbrev pub counter_of : Watched → HostState → Counter
counter_of disk h = h.disk_full
counter_of memory_high h = h.mem_high
counter_of memory_medium h = h.mem_medium
counter_of memory_available h = h.mem_available
counter_of cpu h = h.cpu_high

abbrev pub reading_of : Watched → Health → Option ℕ
reading_of disk p = p.disk_percent
reading_of memory_high p = p.mem_percent
reading_of memory_medium p = p.mem_percent
reading_of memory_available p = p.mem_available_mb
reading_of cpu p = p.cpu_percent

-- The test that the code makes of a reading of each.
unfoldable pub breaches_of : Settings → Watched → Bool → ℕ → Bool
breaches_of s disk active v = breach_high active v s.failure_disk_full_pct s.failure_clear_ratio
breaches_of s memory_high active v =
    breach_high active v s.failure_memory_high_pct s.failure_clear_ratio
breaches_of s memory_medium active v =
    breach_high active v s.failure_memory_medium_pct s.failure_clear_ratio
breaches_of s memory_available active v =
    breach_low active (v * one) (s.failure_memory_min_available_mb * one) s.failure_clear_ratio
breaches_of s cpu active v = breach_high active v s.failure_cpu_high_pct s.failure_clear_ratio

-- The reading of a window, if there is one.
abbrev pub at_window : ℕ → Option ℕ → List (ℕ × ℕ)
at_window window none = []
at_window window (some v) = (v, window) ∷ []

module _ (s : Settings) where
  pub host_state-with_state :
      (host asked : Text) (state : HostState) (w : World)
      → host_state s asked (with_state host state w)
        ≡ (if same_text host asked then state else host_state s asked w)
  unfolding host_state
  host_state-with_state host asked state w = elim (Bool-cases (same_text host asked)) [
    | inl same ↦ rw same (
        rw (← same_text→eq host asked same)
          (ap (or_new s) (lookup-put_self host state w.host_states)))
    | inr other ↦ rw other (ap (or_new s) (lookup-put_other host state asked w.host_states other))
  ]

  both_moves :
      (b : Bool) (f g : HostState → HostState) (before between : HostState)
      → between ≡ (if b then f before else before)
      → (if b then g between else between) ≡ (if b then g (f before) else before)
  both_moves true f g before between e = ap g e
  both_moves false f g before between e = e

  pub host_state_of :
      (asked : Text) (w w' : World)
      → w'.host_states ≡ w.host_states
      → host_state s asked w' ≡ host_state s asked w
  unfolding host_state
  host_state_of asked w w' e = ap (λ d. or_new s (lookup asked d)) e

  same_moves :
      (host asked : Text) (f : HostState → HostState) (w : World)
      → (if same_text host asked then f (host_state s host w) else host_state s asked w)
        ≡ (if same_text host asked then f (host_state s asked w) else host_state s asked w)
  same_moves host asked f w = elim (Bool-cases (same_text host asked)) [
    | inl same ↦ rw same (ap (λ t. f (host_state s t w)) (same_text→eq host asked same))
    | inr other ↦ rw other refl
  ]

  -- What a write of the state of one host does to the state of any.
  state_moves :
      (host asked : Text) (f : HostState → HostState) (w w' : World)
      → w'.host_states ≡ (with_state host (f (host_state s host w)) w).host_states
      → host_state s asked w'
        ≡ (if same_text host asked then f (host_state s asked w) else host_state s asked w)
  state_moves host asked f w w' e =
      host_state_of asked (with_state host (f (host_state s host w)) w) w' e
      ∙ host_state-with_state host asked (f (host_state s host w)) w
      ∙ same_moves host asked f w

  -- An act that changes the state of one host by a function, and of no other.
  pub record Transforms (host : Text) (change : HostState → HostState) (act : Act) : Type 0 where
    pub moves :
        (w : World) (asked : Text)
        → host_state s asked (act w).world
          ≡ (if same_text host asked then change (host_state s asked w) else host_state s asked w)

  pub both-Transforms :
      (host : Text) (f g : HostState → HostState) {first second : Act}
      → IsSafe first
      → Transforms host f first
      → Transforms host g second
      → Transforms host (λ h. g (f h)) (both first second)
  unfolding both
  both-Transforms host f g {first} safe a b = record {
    moves = λ w asked. rw (safe.never_raises w) (
        b.moves (first w).world asked
        ∙ both_moves (same_text host asked) f g (host_state s asked w)
            (host_state s asked (first w).world) (a.moves w asked));
  }

if-same {ℓ} : {A : Type ℓ} (b : Bool) {x y : A} → x ≡ y → (if b then x else y) ≡ y
if-same true e = e
if-same false e = refl

-- Observing a counter with a reading, if there is one.
abbrev pub observed_with : (Bool → ℕ → Bool) → ℕ → Option ℕ → Counter → Counter
observed_with breaches window none c = c
observed_with breaches window (some v) c = (observe (breaches c.active v) window c).counter

abbrev pub gauge_change : Gauge → ℕ → Option ℕ → HostState → HostState
gauge_change gauge window o h =
    gauge.with_counter (observed_with gauge.breaches window o (gauge.counter_of h)) h

unfoldable pub memory_change : Settings → ℕ → Option ℕ → HostState → HostState
unfolding breaches_of
memory_change s window o h = record h {
  mem_high = observed_with (breaches_of s memory_high) window o h.mem_high;
  mem_medium = observed_with (breaches_of s memory_medium) window o h.mem_medium;
}

module _ (formats : Formats) (s : Settings) (persist : Bool) where
  pub persist_maybe-host_states :
      (b : Built) (w : World)
      → (persist_maybe formats s persist b w).world.host_states ≡ w.host_states
  unfolding persist_maybe
  persist_maybe-host_states b w = elim (Bool-cases persist) [
    | inr dry ↦ rw dry refl
    | inl real ↦
        elim (Option-cases (
          write_detection_finding formats.sha256 formats.repr (formats.refuses w.writes) w.table
            (build_finding formats s b))) [
              | inl raised ↦ rw (real, raised) refl
              | inr (r, wrote) ↦ rw (real, wrote) refl
            ]
  ]

  module _ (host : Text) (start end : ℕ) where
    reported-host_states :
        (condition : Text) (risk value : ℕ) (o : Observation) (otherwise : Act) (w : World)
        → (otherwise w).world.host_states ≡ w.host_states
        → (reported formats s persist host start end condition risk value o otherwise
            w).world.host_states
          ≡ w.host_states
    unfolding reported
    reported-host_states condition risk value o otherwise w h = elim (Bool-cases o.now_active) [
      | inl on ↦ rw on (persist_maybe-host_states _ w)
      | inr off ↦ rw off h
    ]

    pub score_gauge-Transforms :
        (gauge : Gauge) (o : Option ℕ)
        → ((h : HostState) → gauge.with_counter (gauge.counter_of h) h ≡ h)
        → Transforms s host
            (gauge_change gauge start o)
            (score_gauge formats s persist host start end gauge o)
    unfolding score_gauge
    score_gauge-Transforms gauge none lens = record {
      moves = λ w asked. sym (if-same (same_text host asked) (lens (host_state s asked w)));
    }
    score_gauge-Transforms gauge (some v) lens = record {
      moves = λ w asked.
          state_moves s host asked
            (λ h.
              gauge.with_counter (observed_with gauge.breaches start (some v) (gauge.counter_of h))
                h)
            w (score_gauge formats s persist host start end gauge (some v) w).world
            (reported-host_states _ _ v _ quiet _ refl);
    }

    pub score_memory-Transforms :
        (o : Option ℕ)
        → Transforms s host
            (memory_change s start o)
            (score_memory formats s persist host start end o)
    unfolding score_memory memory_change breaches_of
    score_memory-Transforms none = record {
      moves = λ w asked. sym (if-same (same_text host asked) refl);
    }
    score_memory-Transforms (some v) = record {
      moves = λ w asked.
          state_moves s host asked (memory_change s start (some v)) w
            (score_memory formats s persist host start end (some v) w).world
            (reported-host_states _ _ v _ _ _ (reported-host_states _ _ v _ quiet _ refl));
    }
