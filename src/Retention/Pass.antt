-- ===== src/Retention/Pass.antt =====
-- One pass of storage/retention.py: what it deletes is what it reports.
use linux_xai_security_assis.Base.{
  ℕ, ◌⊎◌, true, false, if-both, ◌+◌, ◌-◌, ◌≤◌, ◌≡◌, refl, sym, ap, ◌∙◌, Bool, not, ◌&&◌, Option,
  none, some, List, [], ◌∷◌, ◌++◌, ◌==◌, if◌then◌else◌, ltb, length, length-drop, drop, keep, arith,
  inl, inr, Bool-cases,
}
use mathlib.Core.List.{append_assoc, append-nil}
use linux_xai_security_assis.Retention.Tables.{
  Event, Database, MaintenanceAction, delete_analytics_older_than,
}
use linux_xai_security_assis.Retention.{
  Stage, raising, logged, after_cap, Settings, Env, Manager, Done, cutoff_of, pruned_by_age,
  prune_by_age, maybe_vacuum, record_action, record_actions, listed, is_some, after_age, run_once,
  enforce_size_cap,
}
use linux_xai_security_assis.Retention.Batches.{is_old, is_retained, delete_events_older_than-keep}
use linux_xai_security_assis.Retention.SizeCap.{enforce_size_cap-Enforced, without_oldest}

-- The append-only hash-chained tables are the same.
pub record SameChains (db after : Database) : Type 0 where
  pub findings : after.detection_findings ≡ db.detection_findings
  pub decisions : after.policy_decisions ≡ db.policy_decisions
  pub triage : after.triage_annotations ≡ db.triage_annotations
  pub lifecycle : after.ml_model_lifecycle ≡ db.ml_model_lifecycle

SameChains-trans : (a b c : Database) → SameChains a b → SameChains b c → SameChains a c
SameChains-trans a b c h k = record {
  findings = k.findings ∙ h.findings;
  decisions = k.decisions ∙ h.decisions;
  triage = k.triage ∙ h.triage;
  lifecycle = k.lifecycle ∙ h.lifecycle;
}

abbrev pub reported : List MaintenanceAction → ℕ
reported [] = 0
reported (action ∷ actions) = action.events_deleted + reported actions

reported-append : (xs ys : List MaintenanceAction) → reported (xs ++ ys) ≡ reported xs + reported ys
reported-append [] ys = omega arith
reported-append (x ∷ xs) ys = omega (arith, reported-append xs ys)

-- The events that the age policy keeps.
abbrev pub age_kept : Settings → Env → List Event → List Event
age_kept settings env events =
    if settings.retention_max_age_days == 0
    then events
    else keep (is_retained (cutoff_of env.clock settings.retention_max_age_days)) events

length-kept :
    (p : Event → Bool) (events : List Event)
    → length (keep p events) + length (keep (λ event. not (p event)) events) ≡ length events
length-kept p [] = omega arith
length-kept p (event ∷ events) = elim (Bool-cases (p event)) [
  | inl holds ↦ rw holds (omega (arith, length-kept p events))
  | inr fails ↦ rw fails (omega (arith, length-kept p events))
]

-- A stage of the pass: what its action reports is what went, and it went from `events` only.
record IsStage (db : Database) (action : Option MaintenanceAction) (after : Database) : Type 0 where
  counts : reported (listed action) + length after.events ≡ length db.events
  chains : SameChains db after
  log : after.maintenance_log ≡ db.maintenance_log

pruned_by_age-IsStage :
    (env : Env) (cutoff : Option ℕ) (db : Database)
    → let pruned : ℕ × List Event =
        (length (keep (is_old cutoff) db.events), keep (is_retained cutoff) db.events) in
      IsStage db (pruned_by_age env cutoff db pruned).0 (pruned_by_age env cutoff db pruned).1
unfolding delete_analytics_older_than
pruned_by_age-IsStage env cutoff db = record {
  counts =
      let n = length (keep (is_old cutoff) db.events) in
      let total = length-kept (is_old cutoff) db.events in
      elim (Bool-cases ((n == 0) && ((delete_analytics_older_than cutoff db).0 == 0))) [
        | inl nothing ↦ rw nothing (ground (arith, nothing, total))
        | inr something ↦ rw something (omega (arith, total))
      ];
  chains = record { findings = refl; decisions = refl; triage = refl; lifecycle = refl };
  log = refl;
}

prune_by_age-IsStage :
    (settings : Settings) (env : Env) (db : Database)
    → (r : Option MaintenanceAction × Database) × (prune_by_age settings env db ≡ some r)
      × (r.1.events ≡ age_kept settings env db.events)
      × IsStage db r.0 r.1
unfolding prune_by_age delete_analytics_older_than
prune_by_age-IsStage settings env db =
    let cutoff = cutoff_of env.clock settings.retention_max_age_days in
    elim (Bool-cases (settings.retention_max_age_days == 0)) [
      | inl off ↦ (
        (none, db),
        rw off refl,
        rw off refl,
        record {
          counts = omega arith;
          chains = record { findings = refl; decisions = refl; triage = refl; lifecycle = refl };
          log = refl;
        },
      )
      | inr on ↦ (
        pruned_by_age env cutoff db
            (length (keep (is_old cutoff) db.events), keep (is_retained cutoff) db.events),
        rw (on, delete_events_older_than-keep cutoff settings.retention_prune_batch db.events) refl,
        rw on refl,
        pruned_by_age-IsStage env cutoff db,
      )
    ]

without_oldest-IsStage :
    (db : Database) (action : MaintenanceAction)
    → action.events_deleted ≤ length db.events
    → IsStage db (some action) (without_oldest action.events_deleted db)
without_oldest-IsStage db action h = record {
  counts = omega (arith, length-drop action.events_deleted db.events);
  chains = record { findings = refl; decisions = refl; triage = refl; lifecycle = refl };
  log = refl;
}

-- What the byte cap leaves: a stage that returns, or events from the oldest on that went unreported.
IsCapped : Database → Stage → Type 0
IsCapped db r =
    ((r.raised ≡ true) ⊎ ((r.raised ≡ false) × IsStage db r.action r.database))
    × SameChains db r.database
    × (r.database.maintenance_log ≡ db.maintenance_log)
    × ((k : ℕ) × (r.database.events ≡ drop k db.events))

enforce_size_cap-IsCapped :
    (settings : Settings) (env : Env) (db : Database)
    → IsCapped db (enforce_size_cap settings env db)
unfolding IsCapped
enforce_size_cap-IsCapped settings env db =
    let same : SameChains db db = record {
      findings = refl;
      decisions = refl;
      triage = refl;
      lifecycle = refl;
    } in
    let r = enforce_size_cap settings env db in
    elim (enforce_size_cap-Enforced settings env db) [
      | inl (returns, nothing, is, why) ↦
          let at : IsStage db none db = record {
            counts = omega arith;
            chains = same;
            log = refl;
          } in
          rw (nothing, is) (inr (returns, at), same, refl, (0, refl))
      | inr (inl (action, returns, is, over, within, left, why)) ↦
          rw (is, left)
            (
              inr (returns, without_oldest-IsStage db action within),
              record { findings = refl; decisions = refl; triage = refl; lifecycle = refl },
              refl,
              (action.events_deleted, refl),
            )
      | inr (inr (k, raises, nothing, over, some_gone, within, left)) ↦
          rw (nothing, left)
            (
              inl raises,
              record { findings = refl; decisions = refl; triage = refl; lifecycle = refl },
              refl,
              (k, refl),
            )
    ]

-- What the log has taken.
record_actions-log :
    (env : Env) (actions : List MaintenanceAction) (db : Database)
    → record_actions env actions db
      ≡ record db { maintenance_log = db.maintenance_log ++ keep env.log_takes actions }
unfolding record_actions record_action
record_actions-log env [] db =
    ap (λ (log : List MaintenanceAction). record db { maintenance_log = log })
      (sym (append-nil db.maintenance_log))
record_actions-log env (action ∷ actions) db = elim (Bool-cases (env.log_takes action)) [
  | inl takes ↦ rw takes (
      record_actions-log env actions
        (record db { maintenance_log = db.maintenance_log ++ action ∷ [] })
      ∙ ap (λ (log : List MaintenanceAction). record db { maintenance_log = log })
          (append_assoc db.maintenance_log (action ∷ []) (keep env.log_takes actions)))
  | inr refuses ↦ rw refuses (record_actions-log env actions db)
]

-- A VACUUM raises, or its action reports no event.
ReportsNothing : Option (Option MaintenanceAction × ℕ) → Type 0
ReportsNothing none = Unit
ReportsNothing (some vacuumed) = reported (listed vacuumed.0) ≡ 0

vacuum-reported :
    (settings : Settings) (env : Env) (forced : Bool) (last : ℕ) (db : Database)
    → ReportsNothing (maybe_vacuum settings env forced last db)
unfolding maybe_vacuum ReportsNothing
vacuum-reported settings env forced last db =
    let interval = settings.retention_vacuum_interval_seconds in
    let done = if-both ReportsNothing (env.vacuum_raises 8) tt (omega arith) in
    if-both ReportsNothing forced done (
      if-both ReportsNothing (interval == 0) refl (
        if-both ReportsNothing (not (last == 0) && ltb (env.at_vacuum - last) interval) refl
          (if-both ReportsNothing (last == 0) refl done)))

logged-SameChains :
    (a b : Database) (log : List MaintenanceAction)
    → SameChains a b
    → SameChains a (record b { maintenance_log = log })
logged-SameChains a b log h = record {
  findings = h.findings;
  decisions = h.decisions;
  triage = h.triage;
  lifecycle = h.lifecycle;
}

-- What a pass leaves of a database: where it returns, its actions report the events that went, and
-- the log has taken them; where it raises, nothing is returned or logged.
pub record Accounted (settings : Settings) (env : Env) (db : Database) (done : Done) : Type 0 where
  pub counts :
      ((done.raised ≡ true)
        × (done.actions ≡ [])
        × (done.database.maintenance_log ≡ db.maintenance_log))
      ⊎ ((done.raised ≡ false)
          × (reported done.actions + length done.database.events ≡ length db.events)
          × (done.database.maintenance_log ≡ db.maintenance_log ++ keep env.log_takes done.actions))
  pub newest : (k : ℕ) × (done.database.events ≡ drop k (age_kept settings env db.events))
  pub chains : SameChains db done.database

raising-Accounted :
    (settings : Settings) (env : Env) (manager : Manager) (db after : Database)
    → after.maintenance_log ≡ db.maintenance_log
    → (k : ℕ) × (after.events ≡ drop k (age_kept settings env db.events))
    → SameChains db after
    → Accounted settings env db (raising manager after)
raising-Accounted settings env manager db after log newest chains = record {
  counts = inl (refl, refl, log);
  newest = newest;
  chains = chains;
}

logged-Accounted :
    (settings : Settings) (env : Env) (manager : Manager) (actions : List MaintenanceAction)
    (db after : Database) (vacuumed : Option (Option MaintenanceAction × ℕ))
    → reported actions + length after.events ≡ length db.events
    → after.maintenance_log ≡ db.maintenance_log
    → (k : ℕ) × (after.events ≡ drop k (age_kept settings env db.events))
    → SameChains db after
    → ReportsNothing vacuumed
    → Accounted settings env db (logged env manager actions after vacuumed)
unfolding ReportsNothing
logged-Accounted settings env manager actions db after none counts log newest chains nothing =
    raising-Accounted settings env manager db after log newest chains
logged-Accounted settings env manager actions db after (some vacuumed) counts log newest chains
      nothing =
    let all = actions ++ listed vacuumed.0 in
    let is_logged = record_actions-log env all after in
    record {
      counts = inr (
        refl,
        (rw is_logged
            (omega (arith, counts, nothing, reported-append actions (listed vacuumed.0)))),
        rw is_logged (ap (λ (l : List MaintenanceAction). l ++ keep env.log_takes all) log),
      );
      newest = rw is_logged newest;
      chains = rw is_logged (logged-SameChains db after _ chains);
    }

after_cap-Accounted :
    (settings : Settings) (env : Env) (manager : Manager) (db : Database)
    (aged : Option MaintenanceAction × Database) (sized : Stage)
    → IsStage db aged.0 aged.1
    → aged.1.events ≡ age_kept settings env db.events
    → IsCapped aged.1 sized
    → Accounted settings env db (after_cap settings env manager aged.0 sized)
unfolding IsCapped
after_cap-Accounted settings env manager db aged sized first kept (ends, same, log, (k, left)) =
    let chains = SameChains-trans db aged.1 sized.database first.chains same in
    let is_log = log ∙ first.log in
    let newest = left ∙ ap (drop k) kept in
    elim ends [
      | inl raises ↦
          rw raises
            (raising-Accounted settings env manager db sized.database is_log (k, newest) chains)
      | inr (returns, second) ↦
          let total : reported (listed aged.0 ++ listed sized.action) + length sized.database.events
              ≡ length db.events =
            omega (
              arith,
              first.counts,
              second.counts,
              reported-append (listed aged.0) (listed sized.action),
            ) in
          rw returns (
            logged-Accounted settings env manager (listed aged.0 ++ listed sized.action) db
              sized.database
              (maybe_vacuum settings env (is_some sized.action) manager.last_vacuum sized.database)
              total is_log (k, newest) chains
              (vacuum-reported settings env (is_some sized.action) manager.last_vacuum
                sized.database))
    ]

-- Where SQLite carries out the deletions, every pass ends, by returning its actions or because a
-- VACUUM raises. The actions that it returns report exactly as many deleted events as went, and the
-- log gains, in order, the ones that it took; a pass that raises returns and logs nothing. Either
-- way, what is left of the events the age policy keeps is all but the oldest, and the hash-chained
-- tables are the same.
pub run_once-Accounted :
    (settings : Settings) (env : Env) (manager : Manager) (db : Database)
    → (done : Done) × (run_once settings env manager db ≡ some done)
      × Accounted settings env db done
unfolding run_once
run_once-Accounted settings env manager db =
    let (aged, is, kept, first) = prune_by_age-IsStage settings env db in
    (
      after_age settings env manager aged,
      rw is refl,
      after_cap-Accounted settings env manager db aged (enforce_size_cap settings env aged.1) first
          kept (enforce_size_cap-IsCapped settings env aged.1),
    )
