-- ===== src/Alerts/Report.antt =====
-- The report that `evaluate` of observability/alerts.py returns.
use mathlib.Core.List.{Memᴰ}
use linux_xai_security_assis.Base.{
  ℕ, ◌%◌, ◌≢◌, ◌⊎◌, subst, arith, not, none, some, map, keep, All-map, ◌≡◌, ◌↔◌, refl, sym, ◌∙◌, ap,
  false≢true, Bool, true, false, Option, List, [], ◌∷◌, ◌++◌, insert_by, sort_by, sort_by_iff, Text,
  All, inl, inr, Bool-cases,
}
use linux_xai_security_assis.Policy.{text_leb}
use linux_xai_security_assis.Alerts.{
  database_unavailable, disk_space_low_ratio, ingest_queue_saturated, database_permissions_insecure,
  evidence_chain_broken, events_dropped, kernel_events_lost, events_quarantined,
  collector_health_stale, telemetry_stale, disk_space_low, collector_degraded, insecure_files,
  broken_tables, is_exposed, by_path, Snapshot, Settings, Alert, is_critical, key_before, raised,
  evaluate,
}
use linux_xai_security_assis.Alerts.Firing.{Fires, raised_iff}

-- What is to be looked at, and need not wake anybody: lost batches, and two rules of thumb.
abbrev pub IsWarning : Alert → Type 0
IsWarning a =
    ((n : ℕ) × (a ≡ events_quarantined n))
    ⊎ ((a ≡ disk_space_low_ratio) ⊎ (a ≡ ingest_queue_saturated))

abbrev pub IsCritical : Alert → Type 0
IsCritical a = ¬ IsWarning a

-- The critical alerts, and then the others.
abbrev pub IsWorstFirst : List Alert → Type 0
IsWorstFirst alerts =
    (critical : List Alert) × (warnings : List Alert) × (alerts ≡ critical ++ warnings)
    × All IsCritical critical
    × All IsWarning warnings

abbrev HoldsCritical : Alert → Type 0
HoldsCritical a = is_critical a ≡ true

abbrev HoldsWarning : Alert → Type 0
HoldsWarning a = is_critical a ≡ false

abbrev IsSplit : List Alert → Type 0
IsSplit alerts =
    (critical : List Alert) × (warnings : List Alert) × (alerts ≡ critical ++ warnings)
    × All HoldsCritical critical
    × All HoldsWarning warnings

IsWarning-of_false : (a : Alert) → HoldsWarning a → IsWarning a
IsWarning-of_false (events_quarantined n) h = inl (n, refl)
IsWarning-of_false disk_space_low_ratio h = inr (inl refl)
IsWarning-of_false ingest_queue_saturated h = inr (inr refl)
IsWarning-of_false database_unavailable h = cc h
IsWarning-of_false (database_permissions_insecure files) h = cc h
IsWarning-of_false (evidence_chain_broken tables) h = cc h
IsWarning-of_false (events_dropped n) h = cc h
IsWarning-of_false (kernel_events_lost n) h = cc h
IsWarning-of_false (collector_health_stale age) h = cc h
IsWarning-of_false (telemetry_stale age) h = cc h
IsWarning-of_false (disk_space_low bytes) h = cc h
IsWarning-of_false (collector_degraded source) h = cc h

IsCritical-of_true : (a : Alert) → HoldsCritical a → IsCritical a
IsCritical-of_true a h w = elim w [
  | inl (n, e) ↦ absurd (false≢true (sym (ap is_critical e) ∙ h))
  | inr (inl e) ↦ absurd (false≢true (sym (ap is_critical e) ∙ h))
  | inr (inr e) ↦ absurd (false≢true (sym (ap is_critical e) ∙ h))
]

IsWorstFirst-of_split : (alerts : List Alert) → IsSplit alerts → IsWorstFirst alerts
IsWorstFirst-of_split alerts (critical, warnings, is, hc, hw) = (
  critical,
  warnings,
  is,
  All-map IsCritical-of_true critical hc,
  All-map IsWarning-of_false warnings hw,
)

insert-HoldsWarning :
    (a : Alert) (warnings : List Alert)
    → HoldsWarning a
    → All HoldsWarning warnings
    → All HoldsWarning (insert_by key_before a warnings)
unfolding insert_by
insert-HoldsWarning a [] h all = (h, tt)
insert-HoldsWarning a (w ∷ warnings) h all = elim (Bool-cases (key_before a w)) [
  | inl first ↦ rw first (h, all)
  | inr later ↦ rw later (all.0, insert-HoldsWarning a warnings h all.1)
]

key_before-critical : (a b : Alert) → HoldsCritical a → HoldsWarning b → key_before a b ≡ true
unfolding key_before
key_before-critical a b ha hb = rw (ha, hb) refl

key_before-warning : (a b : Alert) → HoldsWarning a → HoldsCritical b → key_before a b ≡ false
unfolding key_before
key_before-warning a b ha hb = rw (ha, hb) refl

insert-critical :
    (a : Alert) (warnings : List Alert)
    → HoldsCritical a
    → All HoldsWarning warnings
    → insert_by key_before a warnings ≡ a ∷ warnings
unfolding insert_by
insert-critical a [] h all = refl
insert-critical a (w ∷ warnings) h all = rw (key_before-critical a w h all.0) refl

insert-IsSplit :
    (a : Alert) (critical warnings : List Alert)
    → All HoldsCritical critical
    → All HoldsWarning warnings
    → IsSplit (insert_by key_before a (critical ++ warnings))
unfolding insert_by
insert-IsSplit a [] warnings hc hw = elim (Bool-cases (is_critical a)) [
  | inl crit ↦ (a ∷ [], warnings, insert-critical a warnings crit hw, (crit, tt), hw)
  | inr warn ↦
      ([], insert_by key_before a warnings, refl, tt, insert-HoldsWarning a warnings warn hw)
]
insert-IsSplit a (c ∷ critical) warnings hc hw = elim (Bool-cases (key_before a c)) [
  | inl first ↦ elim (Bool-cases (is_critical a)) [
    | inl crit ↦ rw first (a ∷ c ∷ critical, warnings, refl, (crit, hc), hw)
    | inr warn ↦ absurd (false≢true (sym (key_before-warning a c warn hc.0) ∙ first))
  ]
  | inr later ↦
      let (cs, ws, is, all_critical, all_warning) = insert-IsSplit a critical warnings hc.1 hw in
      rw later
        (c ∷ cs, ws, ap (λ (alerts : List Alert). c ∷ alerts) is, (hc.0, all_critical), all_warning)
]

sort-IsSplit : (alerts : List Alert) → IsSplit (sort_by key_before alerts)
unfolding sort_by
sort-IsSplit [] = ([], [], refl, tt, tt)
sort-IsSplit (a ∷ alerts) =
    let (critical, warnings, is, hc, hw) = sort-IsSplit alerts in
    rw is (insert-IsSplit a critical warnings hc hw)

-- The names that a filter of pairs leaves.
named_iff :
    {B : Type 0} (p : Text × B → Bool) (pairs : List (Text × B)) (t : Text)
    → Memᴰ t (map (λ (f : Text × B). f.0) (keep p pairs))
      ↔ ((b : B) × Memᴰ (t, b) pairs × (p (t, b) ≡ true))
named_iff p [] t = ((λ m. elim m [ ]), λ h. elim h.1 [ ])
named_iff {B} p (f ∷ pairs) t = elim (Bool-cases (p f)) [
  | inl kept ↦ rw kept (
    (λ m. elim m [
      | Memᴰ.head e ↦ (
        f.1,
        Memᴰ.head (ap (λ (n : Text). (n, f.1)) e),
        ap p (ap (λ (n : Text). (n, f.1)) e) ∙ kept,
      )
      | Memᴰ.tail m' ↦
          let (b, there, passes) = (named_iff p pairs t).0 m' in (b, Memᴰ.tail there, passes)
    ]),
    λ (b, there, passes). elim there [
      | Memᴰ.head e ↦ Memᴰ.head (ap (λ (g : Text × B). g.0) e)
      | Memᴰ.tail m ↦ Memᴰ.tail ((named_iff p pairs t).1 (b, m, passes))
    ],
  )
  | inr left ↦ rw left (
    (λ m. let (b, there, passes) = (named_iff p pairs t).0 m in (b, Memᴰ.tail there, passes)),
    λ (b, there, passes). elim there [
      | Memᴰ.head e ↦ absurd (false≢true (sym left ∙ ap p (sym e) ∙ passes))
      | Memᴰ.tail m ↦ (named_iff p pairs t).1 (b, m, passes)
    ],
  )
]

-- A file that the group or others can do anything with.
abbrev pub IsInsecure : Snapshot → Text → Type 0
IsInsecure s file = (mode : ℕ) × Memᴰ (file, some mode) s.file_permissions × (mode % 64 ≢ 0)

-- A table whose chain was verified, and is broken.
abbrev pub IsBroken : Option (List (Text × Bool)) → Text → Type 0
IsBroken none table = ⊥
IsBroken (some status) table = Memᴰ (table, false) status

insecure_files_iff : (s : Snapshot) (file : Text) → Memᴰ file (insecure_files s) ↔ IsInsecure s file
unfolding insecure_files
insecure_files_iff s file =
    let exposed = λ (f : Text × Option ℕ). is_exposed f.1 in
    let files = sort_by by_path s.file_permissions in
    let iff = named_iff exposed files file in
    (
      (λ m.
          let (mode, there, open_mode) = iff.0 m in
          shown mode ((sort_by_iff by_path s.file_permissions (file, mode)).0 there) open_mode),
      λ (mode, there, some_bit). iff.1 (
        some mode,
        (sort_by_iff by_path s.file_permissions (file, some mode)).1 there,
        ground (arith, some_bit),
      ),
    )
  where
    shown :
        (mode : Option ℕ)
        → Memᴰ (file, mode) s.file_permissions
        → is_exposed mode ≡ true
        → IsInsecure s file
    shown none there open_mode = cc open_mode
    shown (some mode) there open_mode = (mode, there, λ e. cc (rw e at open_mode))

broken_tables_iff :
    (status : Option (List (Text × Bool))) (table : Text)
    → Memᴰ table (broken_tables status) ↔ IsBroken status table
unfolding broken_tables
broken_tables_iff none table = ((λ m. elim m [ ]), λ h. absurd h)
broken_tables_iff (some status) table =
    let fails = λ (t : Text × Bool). not t.1 in
    let names = map (λ (t : Text × Bool). t.0) (keep fails status) in
    let iff = named_iff fails status table in
    (
      (λ m.
          let (ok, there, broken) = iff.0 ((sort_by_iff text_leb names table).0 m) in
          subst (λ b. Memᴰ (table, b) status) (not_true ok broken) there),
      λ there. (sort_by_iff text_leb names table).1 (iff.1 (false, there, refl)),
    )
  where
    not_true : (b : Bool) → not b ≡ true → b ≡ false
    not_true true h = cc h
    not_true false h = refl

-- What a report says of a snapshot: which alerts it holds, which files and tables two of them name,
-- and their order.
pub record IsReport (c : Settings) (chain_status : Option (List (Text × Bool))) (s : Snapshot)
    (alerts : List Alert) : Type 0 where
  pub fires : (a : Alert) → Memᴰ a alerts ↔ Fires c chain_status s a
  pub files : (file : Text) → Memᴰ file (insecure_files s) ↔ IsInsecure s file
  pub tables :
      (table : Text) → Memᴰ table (broken_tables chain_status) ↔ IsBroken chain_status table
  pub order : IsWorstFirst alerts

-- The report holds exactly the alerts whose condition holds of the snapshot and of the chains. The
-- one on permissions names exactly the files whose mode gives the group or others anything, the one
-- on the chains exactly the tables whose chain was verified and is broken. Every critical alert
-- stands before the warnings, which are those on quarantined events, on the ratio of free space and
-- on the queue.
pub evaluate-IsReport :
    (c : Settings) (chain_status : Option (List (Text × Bool))) (s : Snapshot)
    → IsReport c chain_status s (evaluate c chain_status s)
unfolding evaluate
evaluate-IsReport c chain_status s = record {
  fires = λ a. (
    (λ m.
        (raised_iff c chain_status s a).0
          ((sort_by_iff key_before (raised c chain_status s) a).0 m)),
    λ h.
        (sort_by_iff key_before (raised c chain_status s) a).1
          ((raised_iff c chain_status s a).1 h),
  );
  files = insecure_files_iff s;
  tables = broken_tables_iff chain_status;
  order = IsWorstFirst-of_split _ (sort-IsSplit (raised c chain_status s));
}
