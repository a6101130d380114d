-- ===== src/Retention.antt =====
-- storage/retention.py over the deletions of the store (Retention.Tables). Clocks, the size of the
-- database's files at each measurement and whether the maintenance log can be written are the
-- environment's; the settings are whole numbers, with 0 for a policy that is off.
pub mod Tables
pub mod Batches
pub mod SizeCap
pub mod Pass
mod Samples
use mathlib.Core.Option as Option
use linux_xai_security_assis.Base.{
  ℕ, zero, suc, ◌+◌, ◌-◌, ◌*◌, ◌/◌, min, max, Bool, true, false, not, ◌&&◌, ◌||◌, Option, none,
  some, List, [], ◌∷◌, ◌++◌, ltb, leb, ◌==◌, if◌then◌else◌, length, drop, keep,
}
use linux_xai_security_assis.Retention.Tables.{
  Database, Detail, Event, Kind, MaintenanceAction, delete_analytics_older_than, delete_batch,
  delete_batches, delete_events_older_than, delete_oldest_events, ineffective, no_detail,
  oldest_event_timestamp, outlives, prune_age, reaches, rounds, size_cap, vacuum,
}

pub record Settings : Type 0 where
  pub retention_max_age_days : ℕ
  pub retention_max_db_bytes : ℕ
  pub retention_prune_batch : ℕ
  pub retention_interval_seconds : ℕ
  pub retention_vacuum_interval_seconds : ℕ

-- What a pass meets: the clocks where it reads them, the size of the files at each measurement,
-- whether the log takes an action, and whether a VACUUM raises: that of each round of the byte cap,
-- from 0, and with 8 the scheduled one.
pub record Env : Type 0 where
  pub clock : ℕ
  pub at_vacuum : ℕ
  pub after_vacuum : ℕ
  pub database_bytes : ℕ → Database → ℕ
  pub log_takes : MaintenanceAction → Bool
  pub vacuum_raises : ℕ → Bool

-- The manager between calls; 0 stands for no run and no vacuum yet, as in the code.
pub record Manager : Type 0 where
  pub last_run : ℕ
  pub last_vacuum : ℕ

-- `self.clock() - max_age_days * SECONDS_PER_DAY`
abbrev pub cutoff_of : ℕ → ℕ → Option ℕ
cutoff_of now days = if leb (days * 86400) now then some (now - days * 86400) else none

-- `int(excess / bytes_per_event)`, computed exactly.
abbrev pub estimate : ℕ → ℕ → ℕ → ℕ
estimate excess current_bytes event_count =
    if ltb current_bytes event_count then excess else excess * event_count / max 1 current_bytes

-- Where the loop of `_enforce_size_cap` stands, and whether its VACUUM has raised.
pub record Pruning : Type 0 where
  pub total_deleted : ℕ
  pub rounds_run : ℕ
  pub current_bytes : ℕ
  pub raised : Bool
  pub database : Database

-- The prune by age after `delete_events_older_than`; nothing is reported where nothing went.
abbrev pub pruned_by_age :
    Env → Option ℕ → Database → ℕ × List Event → Option MaintenanceAction × Database
pruned_by_age env cutoff db pruned =
    let analysed = delete_analytics_older_than cutoff (record db { events = pruned.1 }) in
    let action : MaintenanceAction = record {
      action = prune_age;
      events_deleted = pruned.0;
      rows_deleted = analysed.0;
      cutoff_timestamp = cutoff;
      oldest_retained_timestamp = oldest_event_timestamp pruned.1;
      db_bytes_before = env.database_bytes 0 db;
      db_bytes_after = env.database_bytes 1 analysed.1;
      detail = no_detail;
    } in
    (if (pruned.0 == 0) && (analysed.0 == 0) then none else some action, analysed.1)

-- `_prune_by_age`; `none` only if the loop of the deletion were out of fuel.
unfoldable pub prune_by_age :
    Settings → Env → Database → Option (Option MaintenanceAction × Database)
prune_by_age settings env db =
    let cutoff = cutoff_of env.clock settings.retention_max_age_days in
    if settings.retention_max_age_days == 0
    then some (none, db)
    else Option.map (pruned_by_age env cutoff db)
        (delete_events_older_than cutoff settings.retention_prune_batch db.events)

-- `int(cap * SIZE_CAP_TARGET_RATIO)`, computed exactly.
abbrev pub target_of : ℕ → ℕ
target_of cap = cap * 9 / 10

-- How many events one round deletes.
abbrev pub to_delete : ℕ → ℕ → ℕ → ℕ
to_delete cap current_bytes event_count =
    min event_count (max 1 (estimate (current_bytes - target_of cap) current_bytes event_count))

-- The body of the loop of `_enforce_size_cap` after the count, with its VACUUM and its measurement at
-- the end.
unfoldable pub prune_round : ℕ → Env → Pruning → Pruning
unfolding delete_oldest_events
prune_round cap env p =
    let count = length p.database.events in
    let result = delete_oldest_events (to_delete cap p.current_bytes count) p.database.events in
    let left : Database = record p.database { events = result.1 } in
    record {
      total_deleted = p.total_deleted + result.0;
      rounds_run = p.rounds_run + 1;
      current_bytes = env.database_bytes (3 + p.rounds_run) left;
      raised = env.vacuum_raises p.rounds_run;
      database = left;
    }

-- The loop, with `rounds` of its eight rounds left. A round without events is counted and ends it.
unfoldable pub prune_rounds : ℕ → ℕ → Env → Pruning → Pruning
unfolding prune_round
prune_rounds zero cap env p = p
prune_rounds (suc left) cap env p =
    let next = prune_round cap env p in
    let rest = prune_rounds left cap env next in
    if leb p.current_bytes cap
    then p
    else if length p.database.events == 0
    then record p { rounds_run = p.rounds_run + 1 }
    else if next.raised || (next.total_deleted - p.total_deleted == 0)
    then next
    else rest

-- What `_enforce_size_cap` reports after its loop.
abbrev pub size_cap_action : ℕ → Pruning → MaintenanceAction
size_cap_action bytes_before p = record {
  action = size_cap;
  events_deleted = p.total_deleted;
  rows_deleted = 0;
  cutoff_timestamp = none;
  oldest_retained_timestamp = oldest_event_timestamp p.database.events;
  db_bytes_before = bytes_before;
  db_bytes_after = p.current_bytes;
  detail =
      if (p.total_deleted == 0) && leb bytes_before p.current_bytes
      then ineffective
      else rounds p.rounds_run;
}

-- What a stage that can raise leaves; where it has raised it has no action.
pub record Stage : Type 0 where
  pub raised : Bool
  pub action : Option MaintenanceAction
  pub database : Database

abbrev pub idle : Database → Stage
idle db = record { raised = false; action = none; database = db }

-- What `_enforce_size_cap` returns, given where its loop would end.
unfoldable pub capped : ℕ → ℕ → Database → Pruning → Stage
capped cap bytes_before db end =
    if cap == 0 then idle db else if leb bytes_before cap then idle db else record {
      raised = end.raised;
      action = if end.raised then none else some (size_cap_action bytes_before end);
      database = end.database;
    }

abbrev pub unpruned : ℕ → Database → Pruning
unpruned bytes db = record {
  total_deleted = 0;
  rounds_run = 0;
  current_bytes = bytes;
  raised = false;
  database = db;
}

-- `_enforce_size_cap`
unfoldable pub enforce_size_cap : Settings → Env → Database → Stage
enforce_size_cap settings env db =
    let cap = settings.retention_max_db_bytes in
    let bytes_before = env.database_bytes 2 db in
    capped cap bytes_before db (prune_rounds 8 cap env (unpruned bytes_before db))

abbrev vacuum_action : Env → Database → MaintenanceAction
vacuum_action env db = record {
  action = vacuum;
  events_deleted = 0;
  rows_deleted = 0;
  cutoff_timestamp = none;
  oldest_retained_timestamp = oldest_event_timestamp db.events;
  db_bytes_before = env.database_bytes 11 db;
  db_bytes_after = env.database_bytes 12 db;
  detail = no_detail;
}

-- `_maybe_vacuum`: the action, and `_last_vacuum` after it; `none` where the VACUUM raises.
unfoldable pub maybe_vacuum :
    Settings → Env → Bool → ℕ → Database → Option (Option MaintenanceAction × ℕ)
maybe_vacuum settings env forced last_vacuum db =
    let interval = settings.retention_vacuum_interval_seconds in
    let done : Option (Option MaintenanceAction × ℕ) =
      if env.vacuum_raises 8 then none else some (some (vacuum_action env db), env.after_vacuum) in
    if forced
    then done
    else if interval == 0
    then some (none, last_vacuum)
    else if not (last_vacuum == 0) && ltb (env.at_vacuum - last_vacuum) interval
    then some (none, last_vacuum)
    else if last_vacuum == 0
    then some (none, env.at_vacuum)
    else done

-- `_record`: the log may refuse the row, and the pass goes on.
unfoldable pub record_action : Env → MaintenanceAction → Database → Database
record_action env action db =
    if env.log_takes action
    then record db { maintenance_log = db.maintenance_log ++ action ∷ [] }
    else db

unfoldable pub record_actions : Env → List MaintenanceAction → Database → Database
unfolding record_action
record_actions env [] db = db
record_actions env (action ∷ actions) db = record_actions env actions (record_action env action db)

abbrev pub listed : Option MaintenanceAction → List MaintenanceAction
listed none = []
listed (some action) = action ∷ []

abbrev pub is_some : Option MaintenanceAction → Bool
is_some none = false
is_some (some action) = true

-- What a pass returns and leaves, or that an exception left it.
pub record Done : Type 0 where
  pub raised : Bool
  pub actions : List MaintenanceAction
  pub manager : Manager
  pub database : Database

abbrev pub raising : Manager → Database → Done
raising manager db = record { raised = true; actions = []; manager = manager; database = db }

-- The end of `run_once`, with what the scheduled VACUUM came to.
abbrev pub logged :
    Env → Manager → List MaintenanceAction → Database → Option (Option MaintenanceAction × ℕ) → Done
logged env manager actions db none = raising manager db
logged env manager actions db (some vacuumed) = record {
  raised = false;
  actions = actions ++ listed vacuumed.0;
  manager = record manager { last_vacuum = vacuumed.1 };
  database = record_actions env (actions ++ listed vacuumed.0) db;
}

-- `run_once` after the prune by age, and after the byte cap.
abbrev pub after_cap : Settings → Env → Manager → Option MaintenanceAction → Stage → Done
after_cap settings env manager aged sized =
    if sized.raised
    then raising manager sized.database
    else logged env manager (listed aged ++ listed sized.action) sized.database
        (maybe_vacuum settings env (is_some sized.action) manager.last_vacuum sized.database)

abbrev pub after_age : Settings → Env → Manager → Option MaintenanceAction × Database → Done
after_age settings env manager aged =
    after_cap settings env manager aged.0 (enforce_size_cap settings env aged.1)

-- `run_once`
unfoldable pub run_once : Settings → Env → Manager → Database → Option Done
run_once settings env manager db =
    Option.map (after_age settings env manager) (prune_by_age settings env db)

-- `maybe_run`, at `now` of the monotonic clock.
unfoldable pub maybe_run : Settings → Env → Bool → ℕ → Manager → Database → Option Done
maybe_run settings env force now manager db =
    let is_early =
      not (manager.last_run == 0)
      && ltb (now - manager.last_run) settings.retention_interval_seconds in
    if not force && is_early
    then some (record { raised = false; actions = []; manager = manager; database = db })
    else run_once settings env (record manager { last_run = now }) db
