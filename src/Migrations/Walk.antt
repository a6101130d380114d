-- ===== src/Migrations/Walk.antt =====
-- What `migrate` of storage/migrations.py leaves, whatever other processes do meanwhile.
use linux_xai_security_assis.Base.{
  ℕ, zero, suc, ◌+◌, ◌≤◌, ◌<◌, max, ◌≡◌, ◌⊎◌, inl, inr, refl, ap, ◌∙◌, subst, false, Option, none,
  some, List, [], ◌∷◌, ◌++◌, arith, Bool-cases, Option-cases, leb, ltb,
}
use linux_xai_security_assis.Migrations.{
  Database, Env, Outcome, migrated, raised, current_version, latest_version, commit, under_lock,
  walk, migrate,
}

-- The rows that the first `k` migrations leave.
abbrev pub up_to : ℕ → List ℕ
up_to zero = []
up_to (suc k) = up_to k ++ suc k ∷ []

abbrev from : ℕ → ℕ → List ℕ
from m zero = []
from m (suc n) = m ∷ from (suc m) n

current_version-append :
    (versions : List ℕ) (v : ℕ)
    → current_version (versions ++ v ∷ []) ≡ max (current_version versions) v
current_version-append [] v = omega arith
current_version-append (w ∷ versions) v = omega (arith, current_version-append versions v)

current_version-up_to : (k : ℕ) → current_version (up_to k) ≡ k
current_version-up_to zero = refl
current_version-up_to (suc k) =
    omega (arith, current_version-append (up_to k) (suc k), current_version-up_to k)

module _ {D : Type 0} (env : Env D) where
  abbrev pub after : Option D → ℕ → Option D
  after none version = none
  after (some body) version = env.apply version body

  -- The first `k` migrations, each applied once and in order.
  abbrev pub replay : D → ℕ → Option D
  replay d zero = some d
  replay d (suc k) = after (replay d k) (suc k)

  -- Exactly the first `k` migrations have been applied and recorded.
  pub record IsAt (d : D) (k : ℕ) (db : Database D) : Type 0 where
    pub recorded : db.versions ≡ up_to k
    pub applied : replay d k ≡ some db.body

  -- Another process that runs the same migrations only ever moves on.
  abbrev pub MovesOn : D → Type 0
  MovesOn d =
      (v k : ℕ) (db : Database D)
      → IsAt d k db
      → k ≤ latest_version
      → (j : ℕ) × (k ≤ j) × (j ≤ latest_version) × IsAt d j (env.others v db)

  -- All migrations are in, or one of them raised and those before it are.
  abbrev pub Ended : D → Outcome × Database D → Type 0
  Ended d r =
      ((r.0 ≡ migrated latest_version) × IsAt d latest_version r.1)
      ⊎ ((j : ℕ) × (r.0 ≡ raised (suc j))
          × (j < latest_version)
          × IsAt d j r.1
          × (env.apply (suc j) r.1.body ≡ none))

  version_of : (d : D) (k : ℕ) (db : Database D) → IsAt d k db → current_version db.versions ≡ k
  version_of d k db h = ap current_version h.recorded ∙ current_version-up_to k

  commit-IsAt :
      (d : D) (k : ℕ) (db : Database D) (body : D)
      → IsAt d k db
      → env.apply (suc k) db.body ≡ some body
      → IsAt d (suc k) (record { versions = db.versions ++ suc k ∷ []; body = body })
  commit-IsAt d k db body h e = record {
    recorded = ap (λ (versions : List ℕ). versions ++ suc k ∷ []) h.recorded;
    applied = rw h.applied e;
  }

  -- Under the lock a migration is found applied, is applied, or raises.
  under_lock-IsAt :
      (d : D) (j m : ℕ) (db : Database D)
      → IsAt d j db
      → m ≤ suc j
      → ((next : Database D) × (i : ℕ) × (under_lock env m db ≡ some next)
          × (j ≤ i)
          × (m ≤ i)
          × (i ≤ max j m)
          × IsAt d i next)
        ⊎ ((under_lock env m db ≡ none) × (m ≡ suc j) × (env.apply (suc j) db.body ≡ none))
  unfolding under_lock commit
  under_lock-IsAt d j m db at hm = elim (Bool-cases (leb m (current_version db.versions))) [
    | inl old ↦
        let reached : m ≤ j = ground (arith, version_of d j db at) in
        inl (db, j, rw old refl, omega arith, reached, omega arith, at)
    | inr new ↦
        let next : m ≡ suc j = ground (arith, version_of d j db at) in
        elim (Option-cases (env.apply m db.body)) [
          | inl raises ↦ inr (rw (new, raises) refl, next, rw next at raises)
          | inr (body, applies) ↦ inl (
            record { versions = db.versions ++ m ∷ []; body = body },
            suc j,
            rw (new, applies) refl,
            omega arith,
            omega (arith, next),
            omega (arith, next),
            rw next (commit-IsAt d j db body at (rw next at applies)),
          )
        ]
  ]

  walk-Ended :
      (d : D) (version k m n : ℕ) (db : Database D)
      → MovesOn d
      → IsAt d k db
      → version ≤ k
      → k ≤ latest_version
      → m ≤ suc k
      → m + n ≡ suc latest_version
      → Ended d (walk env version (from m n) db)
  unfolding walk
  walk-Ended d version k m zero db moves at hv hk hm e =
      let all : k ≡ latest_version = omega arith in
      inl (ap migrated (version_of d k db at ∙ all), subst (λ j. IsAt d j db) all at)
  walk-Ended d version k m (suc n) db moves at hv hk hm e = elim (Bool-cases (leb m version)) [
    | inl old ↦
        rw (walk, old)
          (walk-Ended d version k (suc m) n db moves at hv hk (ground arith) (omega arith))
    | inr new ↦
        let (j, later, bounded, there) = moves m k db at hk in
        elim (under_lock-IsAt d j m (env.others m db) there (omega arith)) [
          | inl (next, i, is_next, on, reached, most, at') ↦
              rw (walk, new, is_next)
                (walk-Ended d version i (suc m) n next moves at' (omega arith) (omega arith)
                  (omega arith) (omega arith))
          | inr (is_none, last, raises) ↦
              rw (walk, new, is_none) (inr (j, ap raised last, omega arith, there, raises))
        ]
  ]

  -- A database with exactly the first migrations in, each applied once and in order, ends with all
  -- of them in, or with a migration that raised and exactly those before it, however the same
  -- migrations run in other processes between the reads and the locks.
  pub migrate-Ended :
      (d : D) (k : ℕ) (db : Database D)
      → MovesOn d
      → IsAt d k db
      → k ≤ latest_version
      → Ended d (migrate env db)
  unfolding migrate
  migrate-Ended d k db moves at hk =
      let same : current_version db.versions ≡ k = version_of d k db at in
      let not_newer : ltb latest_version (current_version db.versions) ≡ false =
        ground (arith, same) in
      rw not_newer (
        walk-Ended d (current_version db.versions) k 1 11 db moves at (omega (arith, same)) hk
          (omega arith) refl)
