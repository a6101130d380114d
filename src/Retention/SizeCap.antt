-- ===== src/Retention/SizeCap.antt =====
-- `_enforce_size_cap` of storage/retention.py: its at most eight rounds, and what they delete.
use linux_xai_security_assis.Base.{
  ℕ, zero, suc, ◌+◌, ◌-◌, ◌≤◌, ◌<◌, ◌≡◌, ◌⊎◌, ◌||◌, refl, sym, ap, ◌∙◌, true, false, none, some,
  List, [], ◌∷◌, leb, ◌==◌, length, drop, length-drop, arith, inl, inr, Bool-cases,
}
use linux_xai_security_assis.Retention.Tables.{
  Event, Database, MaintenanceAction, rounds, delete_oldest_events,
}
use linux_xai_security_assis.Retention.{
  Settings, Env, Stage, Pruning, to_delete, prune_round, prune_rounds, size_cap_action, capped,
  unpruned, enforce_size_cap,
}

drop-nil {ℓ} : {A : Type ℓ} (n : ℕ) → drop {A = A} n [] ≡ []
drop-nil zero = refl
drop-nil (suc n) = refl

drop-drop {ℓ} : {A : Type ℓ} (m n : ℕ) (xs : List A) → drop n (drop m xs) ≡ drop (m + n) xs
drop-drop zero n xs = let e : 0 + n ≡ n = omega arith in rw e refl
drop-drop (suc m) n [] = drop-nil n ∙ sym (drop-nil (suc m + n))
drop-drop (suc m) n (x ∷ xs) =
    let e : suc m + n ≡ suc (m + n) = omega arith in rw e (drop-drop m n xs)

-- The database without its `k` oldest events.
abbrev pub without_oldest : ℕ → Database → Database
without_oldest k db = record db { events = drop k db.events }

-- What the loop has done between two points, with `left` rounds to go at the first one.
record IsPruned (cap left : ℕ) (p q : Pruning) : Type 0 where
  gone : ℕ
  counts : q.total_deleted ≡ p.total_deleted + gone
  within : gone ≤ length p.database.events
  oldest : q.database ≡ without_oldest gone p.database
  ended :
      ((q.raised ≡ true) × (1 ≤ gone))
      ⊎ ((q.raised ≡ false)
          × ((q.current_bytes ≤ cap)
              ⊎ (q.database.events ≡ [])
              ⊎ ((q.rounds_run ≡ p.rounds_run + left) × (left ≤ gone))))

empty_of_length : (events : List Event) → length events ≡ 0 → events ≡ []
empty_of_length [] h = refl
empty_of_length (event ∷ events) h = absurd (omega arith)

-- A round over events deletes at least one and no more than there are.
to_delete-bounds :
    (cap bytes count : ℕ)
    → 1 ≤ count
    → (1 ≤ to_delete cap bytes count) × (to_delete cap bytes count ≤ count)
to_delete-bounds cap bytes count h = (omega arith, omega arith)

round_step :
    (cap left : ℕ) (env : Env) (p q : Pruning)
    → 1 ≤ length p.database.events
    → IsPruned cap left (prune_round cap env p) q
    → IsPruned cap (suc left) p q
unfolding prune_round delete_oldest_events
round_step cap left env p q h rest =
    let k = to_delete cap p.current_bytes (length p.database.events) in
    let (least, most) = to_delete-bounds cap p.current_bytes (length p.database.events) h in
    let size = length-drop k p.database.events in
    let removed : length p.database.events - length (drop k p.database.events) ≡ k =
      omega (arith, size, most) in
    record {
      gone = k + rest.gone;
      counts = omega (arith, rest.counts, removed);
      within = omega (arith, rest.within, size, most);
      oldest =
          rest.oldest
          ∙ ap (λ (events : List Event). record p.database { events = events })
              (drop-drop k rest.gone p.database.events);
      ended = elim rest.ended [
        | inl (raises, some_gone) ↦ inl (raises, omega (arith, some_gone))
        | inr (returns, inl fits) ↦ inr (returns, inl fits)
        | inr (returns, inr (inl empty)) ↦ inr (returns, inr (inl empty))
        | inr (returns, inr (inr (all, least'))) ↦
            inr (returns, inr (inr (omega (arith, all), omega (arith, least', least))))
      ];
    }

-- A round whose VACUUM raises has deleted its events.
round_raises :
    (cap left : ℕ) (env : Env) (p : Pruning)
    → 1 ≤ length p.database.events
    → (prune_round cap env p).raised ≡ true
    → IsPruned cap left p (prune_round cap env p)
unfolding prune_round delete_oldest_events
round_raises cap left env p h raises =
    let k = to_delete cap p.current_bytes (length p.database.events) in
    let (least, most) = to_delete-bounds cap p.current_bytes (length p.database.events) h in
    let size = length-drop k p.database.events in
    record {
      gone = k;
      counts = omega (arith, size, most);
      within = omega (arith, most);
      oldest = refl;
      ended = inl (raises, omega (arith, least));
    }

-- The test for a round that deleted nothing never holds.
round-progress :
    (cap : ℕ) (env : Env) (p : Pruning)
    → 1 ≤ length p.database.events
    → ((prune_round cap env p).total_deleted - p.total_deleted == 0) ≡ false
unfolding prune_round delete_oldest_events
round-progress cap env p h =
    let k = to_delete cap p.current_bytes (length p.database.events) in
    let (least, most) = to_delete-bounds cap p.current_bytes (length p.database.events) h in
    let size = length-drop k p.database.events in ground (arith, size, most, least)

prune_rounds-IsPruned :
    (cap left : ℕ) (env : Env) (p : Pruning)
    → p.raised ≡ false
    → IsPruned cap left p (prune_rounds left cap env p)
unfolding prune_rounds
prune_rounds-IsPruned cap zero env p fine = record {
  gone = 0;
  counts = omega arith;
  within = omega arith;
  oldest = refl;
  ended = inr (fine, inr (inr (omega arith, omega arith)));
}
prune_rounds-IsPruned cap (suc left) env p fine = elim (Bool-cases (leb p.current_bytes cap)) [
  | inl fits ↦
      rw (prune_rounds, fits)
        (record {
          gone = 0;
          counts = omega arith;
          within = omega arith;
          oldest = refl;
          ended = inr (fine, inl (ground arith));
        })
  | inr over ↦ elim (Bool-cases (length p.database.events == 0)) [
    | inl empty ↦
        rw (prune_rounds, over, empty)
          (record {
            gone = 0;
            counts = omega arith;
            within = omega arith;
            oldest = refl;
            ended = inr (fine, inr (inl (empty_of_length p.database.events (ground arith))));
          })
    | inr some_left ↦
        let h : 1 ≤ length p.database.events = ground arith in
        elim (Bool-cases (prune_round cap env p).raised) [
          | inl raises ↦
              let next = prune_round cap env p in
              let stops : (next.raised || (next.total_deleted - p.total_deleted == 0)) ≡ true =
                ap (λ b. b || (next.total_deleted - p.total_deleted == 0)) raises in
              rw (prune_rounds, over, some_left, stops) (round_raises cap (suc left) env p h raises)
          | inr returns ↦
              let rest = prune_rounds-IsPruned cap left env (prune_round cap env p) returns in
              let next = prune_round cap env p in
              let goes_on : (next.raised || (next.total_deleted - p.total_deleted == 0)) ≡ false =
                ap (λ b. b || (next.total_deleted - p.total_deleted == 0)) returns
                ∙ round-progress cap env p h in
              rw (prune_rounds, over, some_left, goes_on) (round_step cap left env p _ h rest)
        ]
  ]
]

-- The call leaves the database as it is where the cap is off or kept; else it deletes the oldest
-- events only, as many as it reports, and stops below the cap, without events, or after 8 rounds. A
-- VACUUM that raises ends it over the cap, with the oldest events deleted, at least one.
abbrev pub Enforced : Settings → Env → Database → Stage → Type 0
Enforced settings env db r =
    ((r.raised ≡ false)
      × (r.action ≡ none)
      × (r.database ≡ db)
      × ((settings.retention_max_db_bytes ≡ 0)
          ⊎ (env.database_bytes 2 db ≤ settings.retention_max_db_bytes)))
    ⊎ ((action : MaintenanceAction) × (r.raised ≡ false)
        × (r.action ≡ some action)
        × (settings.retention_max_db_bytes < env.database_bytes 2 db)
        × (action.events_deleted ≤ length db.events)
        × (r.database ≡ without_oldest action.events_deleted db)
        × ((action.db_bytes_after ≤ settings.retention_max_db_bytes)
            ⊎ (r.database.events ≡ [])
            ⊎ ((action.detail ≡ rounds 8) × (8 ≤ action.events_deleted))))
    ⊎ ((k : ℕ) × (r.raised ≡ true)
        × (r.action ≡ none)
        × (settings.retention_max_db_bytes < env.database_bytes 2 db)
        × (1 ≤ k)
        × (k ≤ length db.events)
        × (r.database ≡ without_oldest k db))

capped-Enforced :
    (settings : Settings) (env : Env) (db : Database) (end : Pruning)
    → IsPruned settings.retention_max_db_bytes 8 (unpruned (env.database_bytes 2 db) db) end
    → Enforced settings env db
        (capped settings.retention_max_db_bytes (env.database_bytes 2 db) db end)
unfolding capped
capped-Enforced settings env db end pruned =
    let cap = settings.retention_max_db_bytes in
    let before = env.database_bytes 2 db in
    let all : end.total_deleted ≡ pruned.gone = omega (arith, pruned.counts) in
    elim (Bool-cases (cap == 0)) [
      | inl off ↦ rw off (inl (refl, refl, refl, inl (ground arith)))
      | inr on ↦ elim (Bool-cases (leb before cap)) [
        | inl fits ↦ rw (on, fits) (inl (refl, refl, refl, inr (ground arith)))
        | inr over ↦ elim pruned.ended [
          | inl (raises, some_gone) ↦
              rw (on, over)
                (inr (
                  inr (
                    pruned.gone,
                    raises,
                    (rw raises refl),
                    ground arith,
                    some_gone,
                    pruned.within,
                    pruned.oldest,
                  )))
          | inr (returns, why) ↦
              rw (on, over)
                (inr (
                  inl (
                    size_cap_action before end,
                    returns,
                    (rw returns refl),
                    ground arith,
                    omega (arith, all, pruned.within),
                    pruned.oldest ∙ ap (λ (k : ℕ). without_oldest k db) (sym all),
                    elim why [
                      | inl below ↦ inl below
                      | inr (inl empty) ↦ inr (inl empty)
                      | inr (inr (eight, many)) ↦
                          let deleted : (end.total_deleted == 0) ≡ false =
                            ground (arith, all, many) in
                          inr (
                            inr (
                              rw deleted (ap rounds (omega (arith, eight))),
                              omega (arith, all, many),
                            ))
                    ],
                  )))
        ]
      ]
    ]

-- The byte cap, whatever the files measure: it leaves the database as it is where it is off or
-- kept, and otherwise deletes the oldest events and nothing else, as many as it reports, until the
-- files fit, no event is left, or eight rounds have each deleted at least one. A VACUUM that raises
-- ends it, over the cap and with no action, after deleting the oldest events, at least one, and
-- nothing else.
pub enforce_size_cap-Enforced :
    (settings : Settings) (env : Env) (db : Database)
    → Enforced settings env db (enforce_size_cap settings env db)
unfolding enforce_size_cap
enforce_size_cap-Enforced settings env db =
    let cap = settings.retention_max_db_bytes in
    let start = unpruned (env.database_bytes 2 db) db in
    capped-Enforced settings env db (prune_rounds 8 cap env start)
      (prune_rounds-IsPruned cap 8 env start refl)
