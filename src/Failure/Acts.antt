-- ===== src/Failure/Acts.antt =====
-- What detection/system_failure.py keeps between batches, and its acts: each may add findings,
-- write them, and raise, which ends what runs and leaves the acts before it done.
use linux_xai_security_assis.Base.{
  ℕ, ◌+◌, Bool, true, false, Option, none, some, List, [], ◌∷◌, ◌++◌, if◌then◌else◌, Keyed,
}
use linux_xai_security_assis.Findings.{Table, write_detection_finding}
use linux_xai_security_assis.Failure.{Settings, Counter, Built, Formats, build_finding}

-- `_HostState`
pub record HostState : Type 0 where
  pub mem_high : Counter
  pub mem_medium : Counter
  pub mem_available : Counter
  pub cpu_high : Counter
  pub disk_full : Counter

-- `_host_states`, `_ServiceState`, the findings table of the store, and how many writes to it there
-- were.
pub record World : Type 0 where
  pub host_states : Keyed HostState
  pub failures : Keyed (List ℕ)
  pub table : Table
  pub writes : ℕ

-- A finding, with the `id` it has if it was written.
pub record Scored : Type 0 where
  pub findings : List (Built × Option ℕ)
  pub raised : Bool
  pub world : World

abbrev pub Act : Type 0
Act = World → Scored

abbrev pub quiet : Act
quiet w = record { findings = []; raised = false; world = w }

abbrev pub joined : List (Built × Option ℕ) → Scored → Scored
joined found r = record r { findings = found ++ r.findings }

-- One act and then another, unless the first raises.
unfoldable pub both : Act → Act → Act
both first second w = let r = first w in if r.raised then r else joined r.findings (second r.world)

unfoldable pub all_acts : List Act → Act
unfolding both
all_acts [] = quiet
all_acts (a ∷ acts) = both a (all_acts acts)

abbrev pub written : Built → World → Option (ℕ × Table) → Scored
written b w none = record {
  findings = [];
  raised = true;
  world = record w { writes = w.writes + 1 };
}
written b w (some stored) = record {
  findings = (b, some stored.0) ∷ [];
  raised = false;
  world = record w { table = stored.1; writes = w.writes + 1 };
}

-- `_persist_maybe`
unfoldable pub persist_maybe : Formats → Settings → Bool → Built → Act
persist_maybe formats s persist b w =
    if persist
    then written b w (
        write_detection_finding formats.sha256 formats.repr (formats.refuses w.writes) w.table
          (build_finding formats s b))
    else record { findings = (b, none) ∷ []; raised = false; world = w }
