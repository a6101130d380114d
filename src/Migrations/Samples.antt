-- ===== src/Migrations/Samples.antt =====
-- The theorems about storage/migrations.py at concrete databases.
use linux_xai_security_assis.Base.{ℕ, ◌+◌, ◌≡◌, refl, some, List, [], ◌∷◌, ◌++◌, arith, Text, codes}
use linux_xai_security_assis.Chain.Json.{Value, number, text}
use linux_xai_security_assis.Chain.Columns.{triage_chain_columns}
use linux_xai_security_assis.Chain.{Row, write_all}
use linux_xai_security_assis.Chain.Linked.{verify_chain_iff}
use linux_xai_security_assis.Chain.Writer.{write_all-IsLinked}
use linux_xai_security_assis.Chain.Toy.{toy_sha256, toy-IsHexDigest}
use linux_xai_security_assis.Migrations.{Database, Env, migrated, newer, backfill_chain, migrate}
use linux_xai_security_assis.Migrations.Backfill.{all_unchained, backfill_chain-write_all}
use linux_xai_security_assis.Migrations.Walk.{Ended, MovesOn, migrate-Ended}

abbrev acknowledged : List (Text × Value)
acknowledged =
    (codes "finding_id", number (codes "4")) ∷ (codes "action", text (codes "acknowledge")) ∷ []

abbrev table : List Row
table = write_all toy_sha256 triage_chain_columns [] (acknowledged ∷ [])

backfill_chain-write_all_example :
    backfill_chain toy_sha256 triage_chain_columns
      (table ++ all_unchained (acknowledged ∷ acknowledged ∷ []))
    ≡ write_all toy_sha256 triage_chain_columns table (acknowledged ∷ acknowledged ∷ [])
backfill_chain-write_all_example =
    backfill_chain-write_all toy_sha256 toy-IsHexDigest triage_chain_columns table
      (acknowledged ∷ acknowledged ∷ [])
      ((verify_chain_iff toy_sha256 triage_chain_columns table).1 (
        write_all-IsLinked toy_sha256 toy-IsHexDigest triage_chain_columns [] (acknowledged ∷ [])
          tt))

-- Each migration adds its number, and nobody else writes.
abbrev env : Env ℕ
env = record { apply = λ version body. some (body + version); others = λ version db. db }

abbrev third : Database ℕ
third = record { versions = 1 ∷ 2 ∷ 3 ∷ []; body = 6 }

abbrev alone : MovesOn env 0
alone v k db at hk = (k, omega arith, hk, at)

migrated_third : migrate env third ≡ (
  migrated 11,
  record { versions = 1 ∷ 2 ∷ 3 ∷ 4 ∷ 5 ∷ 6 ∷ 7 ∷ 8 ∷ 9 ∷ 10 ∷ 11 ∷ []; body = 66 },
)
unfolding migrate
migrated_third = refl

migrate-Ended_example : Ended env 0 (migrate env third)
migrate-Ended_example =
    migrate-Ended env 0 3 third alone (record { recorded = refl; applied = refl }) (omega arith)

newer_runs :
    migrate env (record { versions = 12 ∷ 11 ∷ []; body = 0 })
    ≡ (newer 12, record { versions = 12 ∷ 11 ∷ []; body = 0 })
unfolding migrate
newer_runs = refl
