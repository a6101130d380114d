-- ===== src/Restart.antt =====
-- `RestartPolicy` of pipeline/supervisor.py: the backoff ladder and the crash-loop window of one
-- source. Times and delays are whole ticks; `now` is what the policy's clock reads.
pub mod Ladder
pub mod Window
use linux_xai_security_assis.Base.{
  ℕ, ◌+◌, ◌-◌, ◌*◌, ◌^◌, min, Bool, List, [], ◌∷◌, ◌++◌, length, ltb, leb, if◌then◌else◌,
}

-- The settings that the policy reads.
pub record Config : Type 0 where
  pub initial : ℕ
  pub maximum : ℕ
  pub healthy_runtime : ℕ
  pub threshold : ℕ
  pub window : ℕ

-- `failures` is the deque, oldest first.
pub record RestartPolicy : Type 0 where
  pub consecutive_failures : ℕ
  pub failures : List ℕ

abbrev pub fresh_policy : RestartPolicy
fresh_policy = record { consecutive_failures = 0; failures = [] }

-- The loop of `_trim`. `failure < now - window` is written without the difference, which on ℕ
-- would stop at 0.
unfoldable pub trim : Config → ℕ → List ℕ → List ℕ
trim config now [] = []
trim config now (failure ∷ failures) =
    if ltb (failure + config.window) now then trim config now failures else failure ∷ failures

unfoldable pub backoff : Config → ℕ → ℕ
backoff config consecutive =
    let exponent = consecutive - 1 in min (config.initial * 2 ^ min exponent 32) config.maximum

-- A long enough run clears the ladder and the window.
abbrev pub since_healthy : Config → ℕ → RestartPolicy → RestartPolicy
since_healthy config runtime policy =
    if leb config.healthy_runtime runtime then fresh_policy else policy

-- `record_failure`: the new policy and the delay.
unfoldable pub record_failure : Config → ℕ → ℕ → RestartPolicy → RestartPolicy × ℕ
record_failure config now runtime policy =
    let since = since_healthy config runtime policy in
    let consecutive = since.consecutive_failures + 1 in
    (
      record {
        consecutive_failures = consecutive;
        failures = trim config now (since.failures ++ now ∷ []);
      },
      backoff config consecutive,
    )

-- `is_crash_looping` and `failures_in_window` trim the deque too.
unfoldable pub is_crash_looping : Config → ℕ → RestartPolicy → RestartPolicy × Bool
is_crash_looping config now policy =
    let failures = trim config now policy.failures in
    (record policy { failures = failures }, leb config.threshold (length failures))

unfoldable pub failures_in_window : Config → ℕ → RestartPolicy → RestartPolicy × ℕ
failures_in_window config now policy =
    let failures = trim config now policy.failures in
    (record policy { failures = failures }, length failures)
