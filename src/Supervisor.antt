-- ===== src/Supervisor.antt =====
-- `SourceSupervisor` of pipeline/supervisor.py: one source, restarted under its policy until it is
-- stopped or degraded. The world outside is a parameter `env`: what the clocks read, whether the
-- stop event is set, what a collector does and whether the database takes a state row, each at a
-- point of one global order of steps. A method is an action on `World`.
pub mod Counts
pub mod Outcome
pub mod Degrade
mod Samples
use Prim.Native.String.{String}
use linux_xai_security_assis.Base.{
  ℕ, zero, suc, ◌+◌, ◌-◌, Bool, true, false, Option, none, some, if◌then◌else◌,
}
use text.Mathlib.Text.{◌==◌}
use linux_xai_security_assis.Health
use linux_xai_security_assis.Health.{CollectorHealth}
use linux_xai_security_assis.Restart
use linux_xai_security_assis.Restart.{RestartPolicy, fresh_policy}

pub data Status : Type 0 where
  starting running backoff degraded stopped : Status

-- The texts of `detail`, with the numbers that they quote.
pub data Detail : Type 0 where
  collector_running shutdown_requested finished_without_error shutdown_during_backoff : Detail
  restarting_after_failure : ℕ → Detail
  crash_loop : ℕ → ℕ → Detail

pub record SourceState : Type 0 where
  pub status : Status
  pub detail : Option Detail
  pub error : Option String
  pub started_at : Option ℕ
  pub stopped_at : Option ℕ
  pub last_event_timestamp : Option ℕ
  pub processed_count : ℕ
  pub restart_count : ℕ
  pub consecutive_failures : ℕ
  pub last_failure_at : Option ℕ
  pub next_restart_at : Option ℕ
  pub backoff_seconds : ℕ
  pub crash_looping : Bool
  pub quarantined_batch_count : ℕ
  pub quarantined_event_count : ℕ
  pub updated_at : Option ℕ

abbrev pub initial_state : SourceState
initial_state = record {
  status = starting;
  detail = none;
  error = none;
  started_at = none;
  stopped_at = none;
  last_event_timestamp = none;
  processed_count = 0;
  restart_count = 0;
  consecutive_failures = 0;
  last_failure_at = none;
  next_restart_at = none;
  backoff_seconds = 0;
  crash_looping = false;
  quarantined_batch_count = 0;
  quarantined_event_count = 0;
  updated_at = none;
}

-- What one collector lifetime comes to: the factory or `service.run` raises, or a health record
-- comes back.
pub data Lifetime : Type 0 where
  raised : String → Lifetime
  returned : CollectorHealth → Lifetime

pub record Env : Type 0 where
  pub clock : ℕ → ℕ
  pub wall_clock : ℕ → ℕ
  pub stop_is_set : ℕ → Bool
  pub lifetime : ℕ → Lifetime
  pub store_takes : ℕ → Bool

-- `row` is the source's row in the database, which `write_source_state` replaces.
pub record World : Type 0 where
  pub step : ℕ
  pub policy : RestartPolicy
  pub state : SourceState
  pub row : Option SourceState

abbrev pub fresh_world : World
fresh_world = record { step = 0; policy = fresh_policy; state = initial_state; row = none }

abbrev pub M : Type 0 → Type 0
M A = World → A × World

infixl 5 ◌>>=◌ ◌>>◌
abbrev pub ◌>>=◌ : {A B : Type 0} → M A → (A → M B) → M B
◌>>=◌ m f w = let (a, w') = m w in f a w'

abbrev pub ◌>>◌ : {A B : Type 0} → M A → M B → M B
m >> k = m >>= λ _. k

abbrev pub pure : {A : Type 0} → A → M A
pure a w = (a, w)

-- One look at the world outside.
abbrev pub observe : {A : Type 0} → (ℕ → A) → M A
observe f w = (f w.step, record w { step = w.step + 1 })

-- `_update`: a state row that the database refuses is logged and forgotten.
pub update : Env → (SourceState → SourceState) → M Unit
update env changes = do
  now ← observe env.wall_clock
  taken ← observe env.store_takes
  λ w.
      let state : SourceState = record (changes w.state) { updated_at = some now } in
      (tt, record w { state = state; row = if taken then some state else w.row })

-- `_run_once`. The repeated test of the stop event only asks the service to stop.
pub describe : Lifetime → Option CollectorHealth × Option String
describe (raised error) = (none, some error)
describe (returned health) = (
  some health,
  elim health.status [
    | Health.failed ↦ some (elim health.error [
      | none ↦ "collector failed without a reported error"
      | some error ↦ if error == "" then "collector failed without a reported error" else error
    ])
    | _ ↦ none
  ],
)

-- `_absorb_health`
abbrev or_else : Option ℕ → Option ℕ → Option ℕ
or_else none old = old
or_else (some new) old = some new

absorbed : Option CollectorHealth → SourceState → SourceState
absorbed none state = state
absorbed (some health) state = record state {
  processed_count = state.processed_count + health.processed_count;
  quarantined_batch_count = state.quarantined_batch_count + health.quarantined_batch_count;
  quarantined_event_count = state.quarantined_event_count + health.quarantined_event_count;
  last_event_timestamp = or_else health.last_event_timestamp state.last_event_timestamp;
}

absorb_health : Option CollectorHealth → M Unit
unfolding absorbed
absorb_health health w = (tt, record w { state = absorbed health w.state })

-- The policy's methods, at what its clock reads.
record_failure : Restart.Config → Env → ℕ → M ℕ
unfolding Restart.record_failure
record_failure config env runtime = do
  now ← observe env.clock
  λ w.
      let (policy, delay) = Restart.record_failure config now runtime w.policy in
      (delay, record w { policy = policy })

is_crash_looping : Restart.Config → Env → M Bool
is_crash_looping config env = do
  now ← observe env.clock
  λ w.
      let (policy, looping) = Restart.is_crash_looping config now w.policy in
      (looping, record w { policy = policy })

failures_in_window : Restart.Config → Env → M ℕ
failures_in_window config env = do
  now ← observe env.clock
  λ w.
      let (policy, count) = Restart.failures_in_window config now w.policy in
      (count, record w { policy = policy })

-- `_degrade`; the second count is for the log line.
degrade : Restart.Config → Env → String → M Unit
unfolding update failures_in_window
degrade config env failure = do
  count ← failures_in_window config env
  failed_at ← observe env.wall_clock
  stopped_at ← observe env.wall_clock
  λ w.
      update env
        (λ s. record s {
          status = degraded;
          error = some failure;
          detail = some (crash_loop count config.window);
          crash_looping = true;
          consecutive_failures = w.policy.consecutive_failures;
          last_failure_at = some failed_at;
          next_restart_at = none;
          backoff_seconds = 0;
          stopped_at = some stopped_at;
        })
        w
  failures_in_window config env
  pure tt

-- The `_update` before the wait of a restart.
enter_backoff : Env → String → ℕ → ℕ → M Unit
unfolding update
enter_backoff env failure runtime delay = do
  failed_at ← observe env.wall_clock
  now ← observe env.wall_clock
  stopped_at ← observe env.wall_clock
  λ w.
      update env
        (λ s. record s {
          status = backoff;
          error = some failure;
          detail = some (restarting_after_failure runtime);
          consecutive_failures = w.policy.consecutive_failures;
          last_failure_at = some failed_at;
          backoff_seconds = delay;
          next_restart_at = some (now + delay);
          stopped_at = some stopped_at;
        })
        w

-- Whether the loop goes round again.
pub data Next : Type 0 where
  again done : Next

finish : Env → Detail → M Next
unfolding update
finish env detail = do
  now ← observe env.wall_clock
  update env (λ s. record s { status = stopped; detail = some detail; stopped_at = some now })
  pure done

give_up : Env → M Next
unfolding update
give_up env = do
  update env (λ s. record s { status = stopped; detail = some shutdown_during_backoff })
  pure done

-- `_stop.wait(delay)` says whether the stop event was set.
wait_backoff : Env → M Next
unfolding give_up
wait_backoff env = do stop ← observe env.stop_is_set; if stop then give_up env else pure again

count_restart : M Unit
count_restart w =
    (tt, record w { state = record w.state { restart_count = w.state.restart_count + 1 } })

after_failure : Restart.Config → Env → ℕ → String → M Next
unfolding record_failure is_crash_looping count_restart degrade enter_backoff wait_backoff
after_failure config env runtime failure = do
  delay ← record_failure config env runtime
  looping ← is_crash_looping config env
  count_restart
  if looping
      then degrade config env failure >> pure done
      else (enter_backoff env failure runtime delay >> wait_backoff env)

after_run : Restart.Config → Env → ℕ → Option String → Bool → M Next
unfolding finish after_failure
after_run config env runtime failure true = finish env shutdown_requested
after_run config env runtime none false = finish env finished_without_error
after_run config env runtime (some failure) false = after_failure config env runtime failure

-- A round up to the end of `_run_once`: the lifetime of the collector and how long it ran.
begin_round : Env → M (Lifetime × ℕ)
unfolding update
begin_round env = do
  started_wall ← observe env.wall_clock
  started ← observe env.clock
  update env (λ s. record s {
    status = running;
    started_at = some started_wall;
    detail = some collector_running;
    next_restart_at = none;
    backoff_seconds = 0;
    error = none;
  })
  lifetime ← observe env.lifetime
  ended ← observe env.clock
  pure (lifetime, ended - started)

-- One round of the loop of `run`.
pub attempt : Restart.Config → Env → M Next
unfolding begin_round describe absorb_health after_run
attempt config env = do
  (lifetime, runtime) ← begin_round env
  let (health, failure) = describe lifetime
  absorb_health health
  stop ← observe env.stop_is_set
  after_run config env runtime failure stop

continue : M Bool → Next × World → Bool × World
continue rest (done, w) = (true, w)
continue rest (again, w) = rest w

-- `run`, on fuel: whether the loop has ended, and the world.
pub run : Restart.Config → Env → ℕ → M Bool
unfolding continue
run config env zero w = (false, w)
run config env (suc fuel) w =
    let (stop, w') = observe env.stop_is_set w in
    if stop then (true, w') else continue (run config env fuel) (attempt config env w')
