-- ===== src/Migrations.antt =====
-- storage/migrations.py: the walk over the migrations and the backfill of a hash chain. What the
-- eleven migrations do to the schema is the environment's, and so is what other processes do while
-- this one does not hold the write lock.
pub mod Backfill
pub mod Walk
mod Samples
use linux_xai_security_assis.Base.{
  ℕ, zero, suc, ◌+◌, max, Bool, true, false, Option, none, some, List, [], ◌∷◌, ◌++◌, leb, ltb,
  if◌then◌else◌, Text,
}
use linux_xai_security_assis.Chain.Json.{Value}
use linux_xai_security_assis.Chain.{Row, Link, next_link, chain_head}

-- `WHERE chain_seq IS NULL`
unfoldable pub is_pending : Row → Bool
is_pending row = elim row.chain_seq [ none ↦ true | some seq ↦ false ]

-- The three columns that `UPDATE` sets.
abbrev pub with_link : Link → Row → Row
with_link link row = record row {
  chain_seq = some link.seq;
  chain_prev_hash = some link.prev_hash;
  chain_hash = some link.hash;
}

abbrev pub head_seq : Option Row → Option ℕ
head_seq none = none
head_seq (some row) = row.chain_seq

abbrev pub head_hash : Option Row → Option Text
head_hash none = none
head_hash (some row) = row.chain_hash

module _ (sha256 : Text → Text) (columns : List Text) where
  -- One row of the table in `id` order: a chained one is skipped.
  unfoldable pub backfill_row : Bool → Option ℕ → Option Text → Row → Row
  backfill_row true prev_seq prev_hash row =
      with_link (next_link sha256 prev_seq prev_hash columns row) row
  backfill_row false prev_seq prev_hash row = row

  -- `prev_seq` and `prev_hash` after the row.
  unfoldable pub prev_seq_after : Bool → Option ℕ → Row → Option ℕ
  prev_seq_after true prev_seq row = row.chain_seq
  prev_seq_after false prev_seq row = prev_seq

  unfoldable pub prev_hash_after : Bool → Option Text → Row → Option Text
  prev_hash_after true prev_hash row = row.chain_hash
  prev_hash_after false prev_hash row = prev_hash

  -- The loop of `_backfill_chain`.
  unfoldable pub backfill_from : Option ℕ → Option Text → List Row → List Row
  unfolding is_pending backfill_row prev_seq_after prev_hash_after
  backfill_from prev_seq prev_hash [] = []
  backfill_from prev_seq prev_hash (row ∷ rows) =
      let filled = backfill_row (is_pending row) prev_seq prev_hash row in
      filled
      ∷ backfill_from (prev_seq_after (is_pending row) prev_seq filled)
          (prev_hash_after (is_pending row) prev_hash filled) rows

  -- `_backfill_chain`
  unfoldable pub backfill_chain : List Row → List Row
  backfill_chain table =
      backfill_from (head_seq (chain_head table)) (head_hash (chain_head table)) table

-- The database as the walk sees it: the rows of `schema_migrations`, and all else.
pub record Database (D : Type 0) : Type 0 where
  pub versions : List ℕ
  pub body : D

-- What a migration does to the rest of the database, `none` where it raises, and what other
-- processes do to the database before the write lock for a migration is granted.
pub record Env (D : Type 0) : Type 0 where
  pub apply : ℕ → D → Option D
  pub others : ℕ → Database D → Database D

pub data Outcome : Type 0 where
  migrated newer raised : ℕ → Outcome

-- `current_version`
abbrev pub current_version : List ℕ → ℕ
current_version [] = 0
current_version (version ∷ versions) = max version (current_version versions)

-- The versions of `MIGRATIONS`.
abbrev pub migration_versions : List ℕ
migration_versions = 1 ∷ 2 ∷ 3 ∷ 4 ∷ 5 ∷ 6 ∷ 7 ∷ 8 ∷ 9 ∷ 10 ∷ 11 ∷ []

abbrev pub latest_version : ℕ
latest_version = 11

module _ {D : Type 0} (env : Env D) where
  -- `migration.apply`, the version's row and COMMIT; where it raises, ROLLBACK.
  unfoldable pub commit : ℕ → Database D → Option D → Option (Database D)
  commit version db none = none
  commit version db (some body) =
      some (record { versions = db.versions ++ version ∷ []; body = body })

  -- One migration under the write lock.
  unfoldable pub under_lock : ℕ → Database D → Option (Database D)
  unfolding commit
  under_lock version db =
      if leb version (current_version db.versions)
      then some db
      else commit version db (env.apply version db.body)

  -- The rest of the walk, after a migration that did not raise.
  abbrev pub resume :
      ℕ
      → Database D
      → (Database D → Outcome × Database D)
      → Option (Database D)
      → Outcome × Database D
  resume version locked rest none = (raised version, locked)
  resume version locked rest (some db) = rest db

  -- The loop over `MIGRATIONS`, with the version that was read before it.
  unfoldable pub walk : ℕ → List ℕ → Database D → Outcome × Database D
  unfolding under_lock
  walk version [] db = (migrated (current_version db.versions), db)
  walk version (next ∷ more) db =
      let locked = env.others next db in
      let skipped = walk version more db in
      if leb next version
      then skipped
      else resume next locked (walk version more) (under_lock next locked)

  -- `migrate`
  unfoldable pub migrate : Database D → Outcome × Database D
  unfolding walk
  migrate db =
      let version = current_version db.versions in
      if ltb latest_version version then (newer version, db) else walk version migration_versions db
