-- ===== src/Supervisor/Outcome.antt =====
-- How a round and the whole loop of `SourceSupervisor.run` of pipeline/supervisor.py end.
use Prim.Native.String.{String}
use linux_xai_security_assis.Base.{
  ℕ, zero, suc, ◌+◌, ◌≡◌, ◌≢◌, ◌⊎◌, inl, inr, Bool, true, false, Option, none, some, arith,
  Bool-cases,
}
use linux_xai_security_assis.Restart
use linux_xai_security_assis.Supervisor.{
  starting, backoff, degraded, stopped, SourceState, World, Env, M, Next, again, done, attempt, run,
  continue, after_run, after_failure,
}

-- The source is expected back, was stopped, or was given up on. Only a source that was given up on
-- is marked as crash looping, and it has no restart planned.
pub record IsExpected (s : SourceState) : Type 0 where
  pub status : s.status ≡ backoff
  pub planned : s.next_restart_at ≢ none
  pub not_looping : s.crash_looping ≡ false

pub record IsStopped (s : SourceState) : Type 0 where
  pub status : s.status ≡ stopped
  pub not_looping : s.crash_looping ≡ false

pub record IsGivenUp (s : SourceState) : Type 0 where
  pub status : s.status ≡ degraded
  pub looping : s.crash_looping ≡ true
  pub not_planned : s.next_restart_at ≡ none
  pub explained : s.error ≢ none

abbrev pub Ended : SourceState → Type 0
Ended s = IsStopped s ⊎ IsGivenUp s

-- `again` leaves a source that is expected back, `done` one that has ended.
abbrev pub After : Next × World → Type 0
After (again, w) = IsExpected w.state
After (done, w) = Ended w.state

abbrev pub IsWaiting : SourceState → Type 0
IsWaiting s = ((s.status ≡ starting) ⊎ (s.status ≡ backoff)) × (s.crash_looping ≡ false)

module _ (config : Restart.Config) (env : Env) where
  abbrev pub Ends : World → Type 0
  Ends w = Ended w.state ⊎ (IsWaiting w.state × ((t : ℕ) × (env.stop_is_set t ≡ true)))

  after_failure-After :
      (runtime : ℕ) (failure : String) (w : World)
      → w.state.crash_looping ≡ false
      → After (after_failure config env runtime failure w)
  unfolding after_failure
  after_failure-After runtime failure w h = ground arith

  after_run-After :
      (runtime : ℕ) (failure : Option String) (stop : Bool) (w : World)
      → w.state.crash_looping ≡ false
      → After (after_run config env runtime failure stop w)
  unfolding after_run
  after_run-After runtime failure true w h = ground arith
  after_run-After runtime none false w h = ground arith
  after_run-After runtime (some failure) false w h = after_failure-After runtime failure w h

  -- One round of the loop, whatever happens in it: if the loop goes round again, the source is in
  -- backoff with a restart planned; if it ends, the source is stopped, or it is degraded and marked
  -- as crash looping with no restart planned and the failure recorded.
  pub attempt-After : (w : World) → w.state.crash_looping ≡ false → After (attempt config env w)
  unfolding attempt
  attempt-After w h = after_run-After _ _ _ _ (ground arith)

  continue-Ends :
      (rest : M Bool) (r : Next × World)
      → After r
      → ((w : World) → IsWaiting w.state → (rest w).0 ≡ true → Ends (rest w).1)
      → (continue rest r).0 ≡ true
      → Ends (continue rest r).1
  unfolding continue
  continue-Ends rest (done, w) a ih e = inl a
  continue-Ends rest (again, w) a ih e = ih w (inr a.status, a.not_looping) e

  -- The loop of `run` over any number of rounds, from a source that waits for its first round or for
  -- a restart: if the loop ends, the source is stopped or given up on, or the stop event was seen
  -- before a round, which leaves the source in the state in which it waited.
  pub run-Ends :
      (fuel : ℕ) (w : World)
      → IsWaiting w.state
      → (run config env fuel w).0 ≡ true
      → Ends (run config env fuel w).1
  unfolding run
  run-Ends zero w h e = cc
  run-Ends (suc fuel) w h e = elim (Bool-cases (env.stop_is_set w.step)) [
    | inl stop ↦ rw stop (inr (h, (w.step, stop)))
    | inr go ↦ rw go (
        continue-Ends (run config env fuel) (attempt config env (record w { step = w.step + 1 }))
          (attempt-After (record w { step = w.step + 1 }) h.1) (run-Ends fuel) (rw go at e))
  ]
