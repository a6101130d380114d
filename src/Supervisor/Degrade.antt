-- ===== src/Supervisor/Degrade.antt =====
-- A collector that keeps failing is given up on (pipeline/supervisor.py).
use Prim.Native.String.{String}
use linux_xai_security_assis.Base.{
  ℕ, zero, suc, ◌+◌, ◌-◌, ◌*◌, ◌≤◌, ◌<◌, ◌≡◌, refl, ap, subst, ◌∙◌, Bool, true, false, Option, none,
  some, List, [], ◌∷◌, ◌++◌, arith, All, All-append, length, length-append, leb, ltb, if◌then◌else◌,
}
use linux_xai_security_assis.Health.{CollectorHealth}
use linux_xai_security_assis.Restart
use linux_xai_security_assis.Restart.{Config, RestartPolicy, trim, fresh_policy}
use linux_xai_security_assis.Supervisor.{
  degraded, SourceState, World, Env, M, Next, again, done, describe, attempt, run, after_failure,
  continue, fresh_world, observe, absorbed, begin_round, absorb_health,
}

-- What `run` looks at in a round that fails and is gone round again: the stop event, the round up
-- to its failure, the policy, the database and the wait.
abbrev pub looks : ℕ
looks = 16

-- A host on which the collector fails every time, each run shorter than a healthy one and all of
-- the rounds until it is given up on within one window, and nobody asks it to stop. A run's clock is
-- read where it starts and four looks later.
pub record KeepsFailing (config : Config) (env : Env) : Type 0 where
  pub error : ℕ → String
  pub fails : (t : ℕ) → (describe (env.lifetime t)).1 ≡ some (error t)
  pub not_stopped : (t : ℕ) → env.stop_is_set t ≡ false
  pub short_runs : (t : ℕ) → env.clock (t + 1 + 1 + 1 + 1) - env.clock t < config.healthy_runtime
  pub in_window :
      (t u : ℕ)
      → t < looks * config.threshold
      → u < looks * config.threshold
      → env.clock u ≤ env.clock t + config.window

module _ (config : Config) (env : Env) (h : KeepsFailing config env) where
  abbrev last_look : ℕ
  last_look = looks * config.threshold

  abbrev Near : ℕ → Type 0
  Near failure = (u : ℕ) → u < last_look → env.clock u ≤ failure + config.window

  trim-Near :
      (t : ℕ) (failures : List ℕ)
      → t < last_look
      → All Near failures
      → trim config (env.clock t) failures ≡ failures
  unfolding trim
  trim-Near t [] early near = refl
  trim-Near t (failure ∷ failures) early near =
      let inside = near.0 t early in
      let kept : ltb (failure + config.window) (env.clock t) ≡ false = ground arith in rw kept refl

  Near-snoc :
      (t : ℕ) (failures : List ℕ)
      → t < last_look
      → All Near failures
      → All Near (failures ++ env.clock t ∷ [])
  Near-snoc t failures early near =
      All-append Near failures (env.clock t ∷ []) near ((λ u soon. h.in_window t u early soon), tt)

  record_failure-Near :
      (t runtime : ℕ) (policy : RestartPolicy)
      → t < last_look
      → All Near policy.failures
      → runtime < config.healthy_runtime
      → (Restart.record_failure config (env.clock t) runtime policy).0.failures
        ≡ policy.failures ++ env.clock t ∷ []
  unfolding Restart.record_failure
  record_failure-Near t runtime policy early near short =
      let keeps : leb config.healthy_runtime runtime ≡ false = ground arith in
      rw keeps (
        trim-Near t (policy.failures ++ env.clock t ∷ []) early
          (Near-snoc t policy.failures early near))

  -- One failed round: the failure is added to the window, and the loop ends, with the source
  -- degraded, exactly if the window then holds as many failures as the threshold.
  abbrev Round : World → Next × World → Type 0
  Round w (next, w') =
      (w'.policy.failures ≡ w.policy.failures ++ env.clock w.step ∷ [])
      × (w'.state.restart_count ≡ w.state.restart_count + 1)
      × (next ≡ (if leb config.threshold (length w.policy.failures + 1) then done else again))
      × (next ≡ done → w'.state.status ≡ degraded)
      × (next ≡ again → w'.step ≡ w.step + 8)

  after_failure-Near :
      (runtime : ℕ) (failure : String) (w : World)
      → w.step + 8 ≤ last_look
      → All Near w.policy.failures
      → runtime < config.healthy_runtime
      → Round w (after_failure config env runtime failure w)
  unfolding after_failure Restart.is_crash_looping Restart.failures_in_window
  after_failure-Near runtime failure w early near short =
      let held = w.policy.failures ++ env.clock w.step ∷ [] in
      let now : w.step < last_look = omega (arith, early) in
      let later : w.step + 1 + 1 < last_look = omega (arith, early) in
      let next : w.step + 1 < last_look = omega (arith, early) in
      let latest : w.step + 1 + 1 + 1 + 1 + 1 + 1 + 1 < last_look = omega (arith, early) in
      let stays : (t : ℕ) → t < last_look → trim config (env.clock t) held ≡ held =
        λ t soon. trim-Near t held soon (Near-snoc w.step w.policy.failures now near) in
      simp (record_failure-Near w.step runtime w.policy now near short, stays (w.step + 1) next)
        (ground (
          arith,
          length-append w.policy.failures (env.clock w.step ∷ []),
          h.not_stopped (w.step + 1 + 1 + 1 + 1 + 1 + 1 + 1),
          stays (w.step + 1 + 1) later,
          stays (w.step + 1 + 1 + 1 + 1 + 1 + 1 + 1) latest,
        ))

  -- The same of a whole round, wherever its failure falls in time.
  abbrev Grown : World → Next × World → Type 0
  Grown w (next, w') =
      (t : ℕ) × (t < last_look)
      × (w'.policy.failures ≡ w.policy.failures ++ env.clock t ∷ [])
      × (w'.state.restart_count ≡ w.state.restart_count + 1)
      × (next ≡ (if leb config.threshold (length w.policy.failures + 1) then done else again))
      × (next ≡ done → w'.state.status ≡ degraded)
      × (next ≡ again → w'.step ≡ w.step + 15)

  Grown-of_Round :
      (w v : World) (r : Next × World)
      → v.step ≡ w.step + 7
      → w.step + 15 ≤ last_look
      → v.policy ≡ w.policy
      → v.state.restart_count ≡ w.state.restart_count
      → Round v r
      → Grown w r
  Grown-of_Round w v (next, w') at early p c (grows, counts, decides, degrades, steps) = (
    v.step,
    omega (arith, at, early),
    rw (← p) grows,
    counts ∙ ap (λ (n : ℕ). n + 1) c,
    rw (← p) decides,
    degrades,
    (λ on. steps on ∙ (omega (arith, at))),
  )

  restart_count-absorbed :
      (health : Option CollectorHealth) (s : SourceState)
      → (absorbed health s).restart_count ≡ s.restart_count
  unfolding absorbed
  restart_count-absorbed none s = refl
  restart_count-absorbed (some health) s = refl

  -- The world in which a round decides what comes next.
  abbrev decides_in : World → World
  decides_in w =
      let (r, w') = begin_round env w in
      (observe env.stop_is_set (absorb_health (describe r.0).0 w').1).1

  attempt-Grown :
      (w : World)
      → w.step + 15 ≤ last_look
      → All Near w.policy.failures
      → Grown w (attempt config env w)
  unfolding attempt
  attempt-Grown w early near =
      let t = w.step + 1 + 1 + 1 + 1 in
      let r = begin_round env w in
      rw (h.fails t, h.not_stopped (t + 1 + 1))
        (Grown-of_Round w (decides_in w) (after_failure config env r.0.1 (h.error t) (decides_in w))
          (omega arith) early refl (restart_count-absorbed (describe r.0.0).0 r.1.state)
          (after_failure-Near r.0.1 (h.error t) (decides_in w) (omega (arith, early)) near
            (h.short_runs (w.step + 1))))

  -- What the loop leaves behind when it has given up.
  abbrev pub GivenUp : ℕ → Bool × World → Type 0
  GivenUp failures outcome =
      (outcome.0 ≡ true)
      × (outcome.1.state.status ≡ degraded)
      × (outcome.1.state.restart_count ≡ failures)

  continue-GivenUp :
      (rest : M Bool) (w : World) (r : Next × World) (left : ℕ)
      → Grown w r
      → w.step + 15 + looks * left ≤ last_look
      → length w.policy.failures + suc left ≡ config.threshold
      → ((w' : World) (m : ℕ)
          → left ≡ suc m
          → w'.step + looks * left ≤ last_look
          → All Near w'.policy.failures
          → length w'.policy.failures + left ≡ config.threshold
          → GivenUp (w'.state.restart_count + left) (rest w'))
      → All Near w.policy.failures
      → GivenUp (w.state.restart_count + suc left) (continue rest r)
  unfolding continue
  continue-GivenUp rest w (done, w') left (t, soon, grows, counts, decides, degrades, steps) early e
        ih near =
      let last : left ≡ 0 = ground arith in (refl, degrades refl, omega arith)
  continue-GivenUp rest w (again, w') left (t, soon, grows, counts, decides, degrades, steps) early
        e ih near =
      let more : 0 < left = ground arith in
      let held = Near-snoc t w.policy.failures soon near in
      let step = steps refl in
      let rest_given_up =
        ih w' (left - 1) (omega arith) (omega (arith, step, early)) (rw grows held)
          (rw grows (omega (arith, length-append w.policy.failures (env.clock t ∷ [])))) in
      (rest_given_up.0, rest_given_up.1, omega (arith, rest_given_up.2))

  run-GivenUp :
      (left : ℕ) (w : World)
      → w.step + looks * suc left ≤ last_look
      → All Near w.policy.failures
      → length w.policy.failures + suc left ≡ config.threshold
      → GivenUp (w.state.restart_count + suc left) (run config env (suc left) w)
  unfolding run
  run-GivenUp zero w early near e = rw (h.not_stopped w.step) (
      continue-GivenUp (run config env zero) (record w { step = w.step + 1 })
        (attempt config env (record w { step = w.step + 1 })) zero
        (attempt-Grown (record w { step = w.step + 1 }) (omega (arith, early)) near)
        (omega (arith, early)) e (λ w' m none_left early' near' e'. absurd (omega arith)) near)
  run-GivenUp (suc left) w early near e = rw (h.not_stopped w.step) (
      continue-GivenUp (run config env (suc left)) (record w { step = w.step + 1 })
        (attempt config env (record w { step = w.step + 1 })) (suc left)
        (attempt-Grown (record w { step = w.step + 1 }) (omega (arith, early)) near)
        (omega (arith, early)) e
        (λ w' m some_left early' near' e'. run-GivenUp left w' early' near' e') near)

  -- A collector that fails every time, after runs shorter than a healthy one, all until then within
  -- one window, is given up on at its failure number `crash_loop_threshold`: the loop ends by itself
  -- with the source degraded, and `restart_count`, which counts the last failure too, though the
  -- collector is not started again after it, is the threshold.
  pub run_degrades :
      1 ≤ config.threshold → GivenUp config.threshold (run config env config.threshold fresh_world)
  run_degrades some_threshold =
      let n = config.threshold - 1 in
      let all : suc n ≡ config.threshold = omega arith in
      let count : 0 + suc n ≡ suc n = omega arith in
      subst (λ k. GivenUp k (run config env k fresh_world)) all
        (subst (λ k. GivenUp k (run config env (suc n) fresh_world)) count
          (run-GivenUp n fresh_world (omega arith) tt (omega arith)))
