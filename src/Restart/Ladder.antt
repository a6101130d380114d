-- ===== src/Restart/Ladder.antt =====
-- The delays that `record_failure` of pipeline/supervisor.py returns.
use linux_xai_security_assis.Base.{
  ℕ, suc, ◌+◌, ◌-◌, ◌*◌, ◌≤◌, ◌<◌, ◌≡◌, min, [], ◌∷◌, arith, true, false, leb,
}
use linux_xai_security_assis.Restart.{
  Config, RestartPolicy, since_healthy, trim, backoff, record_failure,
}
use native.Mathlib.Nat.{pow-suc}

backoff-suc :
    (config : Config) (n : ℕ)
    → n < 32
    → backoff config (suc (suc n)) ≡ min (2 * backoff config (suc n)) config.maximum
unfolding backoff
backoff-suc config n h =
    let next : min (suc (suc n) - 1) 32 ≡ suc n = omega arith in
    let now : min (suc n - 1) 32 ≡ n = omega arith in rw (next, now, pow-suc) (omega arith)

-- A failure after a run that was not healthy waits twice as long as the one before it did, up to
-- the ceiling, for the first 33 failures in a row.
pub record_failure-doubles :
    (config : Config) (now later runtime next_runtime : ℕ) (policy : RestartPolicy)
    → let (after, delay) = record_failure config now runtime policy in
      after.consecutive_failures ≤ 32
      → next_runtime < config.healthy_runtime
      → (record_failure config later next_runtime after).1 ≡ min (2 * delay) config.maximum
unfolding record_failure
record_failure-doubles config now later runtime next_runtime policy few unhealthy =
    let c = (since_healthy config runtime policy).consecutive_failures in
    let keeps : leb config.healthy_runtime next_runtime ≡ false = ground arith in
    let one : c + 1 ≡ suc c = omega arith in
    let two : suc c + 1 ≡ suc (suc c) = omega arith in
    rw (keeps, one, two) (backoff-suc config c (omega arith))

-- The ladder starts again after a healthy run: one failure in the window, and the initial delay.
pub record_failure_after_healthy :
    (config : Config) (now runtime : ℕ) (policy : RestartPolicy)
    → config.healthy_runtime ≤ runtime
    → record_failure config now runtime policy ≡ (
      record { consecutive_failures = 1; failures = now ∷ [] },
      min config.initial config.maximum,
    )
unfolding record_failure backoff trim
record_failure_after_healthy config now runtime policy h =
    let resets : leb config.healthy_runtime runtime ≡ true = ground arith in
    rw resets (ground arith)

pub backoff-le-maximum : (config : Config) (n : ℕ) → backoff config n ≤ config.maximum
unfolding backoff
backoff-le-maximum config n = omega arith
