-- ===== src/Supervisor/Samples.antt =====
-- Runs of the supervisor of pipeline/supervisor.py, and its theorems at them.
use linux_xai_security_assis.Base.{◌+◌, ◌≡◌, refl, true, false, List, [], ◌∷◌, arith}
use linux_xai_security_assis.Health
use linux_xai_security_assis.Health.{CollectorHealth, initial_health}
use linux_xai_security_assis.Restart
use linux_xai_security_assis.Restart.{
  Config, RestartPolicy, fresh_policy, record_failure, is_crash_looping,
}
use linux_xai_security_assis.Restart.Window.{Report, record_all, is_crash_looping-record_all}
use linux_xai_security_assis.Supervisor.{Env, raised, returned, fresh_world, describe, attempt, run}
use linux_xai_security_assis.Supervisor.Degrade.{KeepsFailing, GivenUp, run_degrades}

abbrev config : Config
config = record { initial = 1; maximum = 60; healthy_runtime = 300; threshold = 3; window = 600 }

-- The collector raises at once, whenever it is started.
abbrev broken : Env
broken = record {
  clock = λ t. 5;
  wall_clock = λ t. 1000 + t;
  stop_is_set = λ t. false;
  lifetime = λ t. raised "RuntimeError: no probe";
  store_takes = λ t. true;
}

-- The collector delivers ten events and ends.
abbrev finite : Env
finite = record broken {
  lifetime =
      λ t. returned (record initial_health { status = Health.stopped; processed_count = 10 });
}

broken-KeepsFailing : KeepsFailing config broken
unfolding describe
broken-KeepsFailing = record {
  error = λ t. "RuntimeError: no probe";
  fails = λ t. refl;
  not_stopped = λ t. refl;
  short_runs = λ t. omega arith;
  in_window = λ t u early late. omega arith;
}

run_degrades_example : GivenUp config broken broken-KeepsFailing 3 (run config broken 3 fresh_world)
run_degrades_example = run_degrades config broken broken-KeepsFailing (omega arith)

broken_after_two : (run config broken 2 fresh_world).0 ≡ false
unfolding run attempt Restart.is_crash_looping Restart.trim
broken_after_two = refl

finite_ends : (run config finite 1 fresh_world).0 ≡ true
unfolding run attempt
finite_ends = refl

abbrev reports : List Report
reports =
    record { now = 10; runtime = 0 }
    ∷ record { now = 500; runtime = 0 }
    ∷ record { now = 900; runtime = 20 }
    ∷ []

is_crash_looping-record_all_example :
    (is_crash_looping config 900 (record_all config fresh_policy reports)).1 ≡ false
is_crash_looping-record_all_example = is_crash_looping-record_all config reports 900 (omega arith)
