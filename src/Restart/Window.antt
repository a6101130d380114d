-- ===== src/Restart/Window.antt =====
-- The crash-loop window of pipeline/supervisor.py: what the deque holds after any failures.
use linux_xai_security_assis.Base.{
  ℕ, ◌+◌, ◌≤◌, ◌≡◌, refl, sym, ap, ◌∙◌, inl, inr, Bool, true, false, List, [], ◌∷◌, ◌++◌, arith,
  length, keep, ltb, leb, if◌then◌else◌, Bool-cases,
}
use linux_xai_security_assis.Restart.{
  Config, RestartPolicy, fresh_policy, trim, record_failure, is_crash_looping,
}

-- One report of a failure: when, and how long the collector had run.
pub record Report : Type 0 where
  pub now : ℕ
  pub runtime : ℕ

pub record_all : Config → RestartPolicy → List Report → RestartPolicy
record_all config policy [] = policy
record_all config policy (r ∷ reports) =
    record_all config (record_failure config r.now r.runtime policy).0 reports

-- Every failure since the last healthy run, none forgotten.
abbrev after_report : Config → List ℕ → Report → List ℕ
after_report config times r =
    (if leb config.healthy_runtime r.runtime then [] else times) ++ r.now ∷ []

abbrev pub times_since : Config → List ℕ → List Report → List ℕ
times_since config times [] = times
times_since config times (r ∷ reports) = times_since config (after_report config times r) reports

abbrev pub in_window : Config → ℕ → ℕ → Bool
in_window config now time = leb now (time + config.window)

-- Each time from `lo` on is at or after the one before it, and none is after `hi`.
abbrev pub Ascending : ℕ → ℕ → List ℕ → Type 0
Ascending lo hi [] = lo ≤ hi
Ascending lo hi (t ∷ times) = (lo ≤ t) × Ascending t hi times

-- The clock of the reports does not run backwards, nor past `end`.
abbrev pub Monotone : ℕ → ℕ → List Report → Type 0
Monotone lo end [] = lo ≤ end
Monotone lo end (r ∷ reports) = (lo ≤ r.now) × Monotone r.now end reports

Ascending-lower :
    (lo t hi : ℕ) (times : List ℕ) → lo ≤ t → Ascending t hi times → Ascending lo hi times
Ascending-lower lo t hi [] h a = omega arith
Ascending-lower lo t hi (u ∷ times) h a = (omega arith, a.1)

Ascending-snoc :
    (lo hi now : ℕ) (times : List ℕ)
    → Ascending lo hi times
    → hi ≤ now
    → Ascending lo now (times ++ now ∷ [])
Ascending-snoc lo hi now [] a h = omega arith
Ascending-snoc lo hi now (t ∷ times) a h = (a.0, Ascending-snoc t hi now times a.1 h)

module _ (config : Config) where
  keep_all_in_window :
      (now lo hi : ℕ) (times : List ℕ)
      → leb now (lo + config.window) ≡ true
      → Ascending lo hi times
      → keep (in_window config now) times ≡ times
  keep_all_in_window now lo hi [] h a = refl
  keep_all_in_window now lo hi (t ∷ times) h a =
      let inside : leb now (t + config.window) ≡ true = ground (arith, a.0) in
      rw inside (ap (λ ts. t ∷ ts) (keep_all_in_window now t hi times inside a.1))

  -- `_trim` drops exactly the failures before the window.
  trim-eq-keep :
      (now lo hi : ℕ) (times : List ℕ)
      → Ascending lo hi times
      → trim config now times ≡ keep (in_window config now) times
  unfolding trim
  trim-eq-keep now lo hi [] a = refl
  trim-eq-keep now lo hi (t ∷ times) a = elim (Bool-cases (leb now (t + config.window))) [
    | inl inside ↦
        let kept : ltb (t + config.window) now ≡ false = ground arith in
        rw (kept, inside) (ap (λ ts. t ∷ ts) (sym (keep_all_in_window now t hi times inside a.1)))
    | inr outside ↦
        let dropped : ltb (t + config.window) now ≡ true = ground arith in
        rw (dropped, outside) (trim-eq-keep now t hi times a.1)
  ]

  keep-keep :
      (before now : ℕ) (times : List ℕ)
      → before ≤ now
      → keep (in_window config now) (keep (in_window config before) times)
        ≡ keep (in_window config now) times
  keep-keep before now [] h = refl
  keep-keep before now (t ∷ times) h = ground (arith, keep-keep before now times)

  keep-snoc :
      (now t : ℕ) (times : List ℕ)
      → keep (in_window config now) (times ++ t ∷ [])
        ≡ keep (in_window config now) times ++ keep (in_window config now) (t ∷ [])
  keep-snoc now t [] = refl
  keep-snoc now t (u ∷ times) = ground (arith, keep-snoc now t times)

  Ascending-keep :
      (p : ℕ → Bool) (lo hi : ℕ) (times : List ℕ)
      → Ascending lo hi times
      → Ascending lo hi (keep p times)
  Ascending-keep p lo hi [] a = a
  Ascending-keep p lo hi (t ∷ times) a = elim (Bool-cases (p t)) [
    | inl kept ↦ rw kept (a.0, Ascending-keep p t hi times a.1)
    | inr dropped ↦
        rw dropped (Ascending-lower lo t hi (keep p times) a.0 (Ascending-keep p t hi times a.1))
  ]

  -- What the deque holds: of the failures since the last healthy run, those in the window.
  abbrev Tracks : ℕ → List ℕ → RestartPolicy → Type 0
  Tracks now times policy =
      Ascending 0 now times × (policy.failures ≡ keep (in_window config now) times)

  trim_after :
      (before now : ℕ) (times : List ℕ)
      → Ascending 0 before times
      → before ≤ now
      → trim config now (keep (in_window config before) times ++ now ∷ [])
        ≡ keep (in_window config now) (times ++ now ∷ [])
  trim_after before now times a h =
      trim-eq-keep now 0 now (keep (in_window config before) times ++ now ∷ []) (
        Ascending-snoc 0 before now (keep (in_window config before) times)
          (Ascending-keep (in_window config before) 0 before times a) h)
      ∙ keep-snoc now now (keep (in_window config before) times)
      ∙ ap (λ ts. ts ++ keep (in_window config now) (now ∷ [])) (keep-keep before now times h)
      ∙ sym (keep-snoc now now times)

  Tracks-record_failure :
      (before : ℕ) (times : List ℕ) (policy : RestartPolicy) (r : Report)
      → Tracks before times policy
      → before ≤ r.now
      → Tracks r.now (after_report config times r) (record_failure config r.now r.runtime policy).0
  unfolding record_failure
  Tracks-record_failure before times policy r h m =
      elim (Bool-cases (leb config.healthy_runtime r.runtime)) [
        | inl healthy ↦
            rw healthy (omega arith, trim_after r.now r.now [] (omega arith) (omega arith))
        | inr unhealthy ↦ rw unhealthy (
          Ascending-snoc 0 before r.now times h.0 m,
          rw h.1 (trim_after before r.now times h.0 m),
        )
      ]

  Tracks-record_all :
      (before end : ℕ) (times : List ℕ) (policy : RestartPolicy) (reports : List Report)
      → Tracks before times policy
      → Monotone before end reports
      → (now : ℕ) × Tracks now (times_since config times reports) (record_all config policy reports)
        × (now ≤ end)
  unfolding record_all
  Tracks-record_all before end times policy [] h m = (before, h, m)
  Tracks-record_all before end times policy (r ∷ reports) h m =
      Tracks-record_all r.now end (after_report config times r)
        (record_failure config r.now r.runtime policy).0 reports
        (Tracks-record_failure before times policy r h m.0) m.1

  -- After any failures, reported by a clock that does not run backwards, the source is crash
  -- looping exactly if the failures since its last healthy run that lie in the window reach the
  -- threshold, though the deque has forgotten the others.
  pub is_crash_looping-record_all :
      (reports : List Report) (now : ℕ)
      → Monotone 0 now reports
      → (is_crash_looping config now (record_all config fresh_policy reports)).1
        ≡ leb config.threshold
            (length (keep (in_window config now) (times_since config [] reports)))
  unfolding is_crash_looping
  is_crash_looping-record_all reports now m =
      let times = times_since config [] reports in
      let (last, (ascending, held), before) =
        Tracks-record_all 0 now [] fresh_policy reports (omega arith, refl) m in
      let trimmed : trim config now (keep (in_window config last) times)
          ≡ keep (in_window config now) times =
        trim-eq-keep now 0 last (keep (in_window config last) times)
          (Ascending-keep (in_window config last) 0 last times ascending)
        ∙ keep-keep last now times before in
      rw (held, trimmed) refl
