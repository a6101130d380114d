-- ===== src/Supervisor/Counts.antt =====
-- The counters of a source, cumulative over its restarts (pipeline/supervisor.py, `_absorb_health`).
use Prim.Native.String.{String}
use linux_xai_security_assis.Base.{
  ℕ, ◌+◌, ◌≡◌, refl, Bool, true, false, Option, none, some, arith, if◌then◌else◌, ◌&&◌, not,
}
use linux_xai_security_assis.Restart
use linux_xai_security_assis.Health.{CollectorHealth}
use linux_xai_security_assis.Supervisor.{
  SourceState, World, Env, Lifetime, raised, returned, describe, attempt, after_run, after_failure,
  absorbed,
}

-- What one lifetime of the collector delivered, by its own account.
abbrev pub delivered : Lifetime → (CollectorHealth → ℕ) → ℕ
delivered (raised error) count = 0
delivered (returned health) count = count health

abbrev pub has_failed : Lifetime → Bool
has_failed life = elim (describe life).1 [ none ↦ false | some _ ↦ true ]

record SameCounts (a b : SourceState) : Type 0 where
  processed : b.processed_count ≡ a.processed_count
  batches : b.quarantined_batch_count ≡ a.quarantined_batch_count
  events : b.quarantined_event_count ≡ a.quarantined_event_count

module _ (config : Restart.Config) (env : Env) where
  after_failure-counts :
      (runtime : ℕ) (failure : String) (w : World)
      → SameCounts w.state (after_failure config env runtime failure w).1.state
        × ((after_failure config env runtime failure w).1.state.restart_count
            ≡ w.state.restart_count + 1)
  unfolding after_failure
  after_failure-counts runtime failure w = ground arith

  after_run-counts :
      (runtime : ℕ) (failure : Option String) (stop : Bool) (w : World)
      → SameCounts w.state (after_run config env runtime failure stop w).1.state
        × ((after_run config env runtime failure stop w).1.state.restart_count
            ≡ w.state.restart_count
              + (if (elim failure [ none ↦ false | some _ ↦ true ]) && not stop then 1 else 0))
  unfolding after_run
  after_run-counts runtime failure true w = ground arith
  after_run-counts runtime none false w = ground arith
  after_run-counts runtime (some failure) false w =
      ground (arith, after_failure-counts runtime failure w)

  abbrev pub Counted : SourceState → SourceState → Lifetime → Bool → Type 0
  Counted s s' life stop =
      (s'.processed_count ≡ s.processed_count + delivered life (λ h. h.processed_count))
      × (s'.quarantined_batch_count
          ≡ s.quarantined_batch_count + delivered life (λ h. h.quarantined_batch_count))
      × (s'.quarantined_event_count
          ≡ s.quarantined_event_count + delivered life (λ h. h.quarantined_event_count))
      × (s'.restart_count ≡ s.restart_count + (if has_failed life && not stop then 1 else 0))

  after_life :
      (life : Lifetime) (runtime : ℕ) (stop : Bool) (u : SourceState) (v : World)
      → v.state ≡ absorbed (describe life).0 u
      → Counted u (after_run config env runtime (describe life).1 stop v).1.state life stop
  unfolding describe absorbed
  after_life (raised error) runtime stop u v e =
      ground (arith, after_run-counts runtime (some error) stop v)
  after_life (returned health) runtime stop u v e =
      ground (arith, after_run-counts runtime (describe (returned health)).1 stop v)

  -- One round adds to each counter exactly what the collector's lifetime delivered, on every
  -- branch, and counts one restart exactly if the lifetime failed with no stop requested.
  pub attempt-counts :
      (w : World)
      → let life = env.lifetime (w.step + 1 + 1 + 1 + 1) in
        let stop = env.stop_is_set (w.step + 1 + 1 + 1 + 1 + 1 + 1) in
        let s = w.state in let s' = (attempt config env w).1.state in Counted s s' life stop
  unfolding attempt
  attempt-counts w = after_life (env.lifetime (w.step + 1 + 1 + 1 + 1)) _ _ _ _ refl
