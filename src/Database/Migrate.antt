-- ===== src/Database/Migrate.antt =====
-- pkgs/database/duckdb/rw_db.ts and migrations.ts: how the schema is initialised and brought up to
-- date. The database behind the connection is a parameter.
use cosmad.Prelude.{
  ℕ, zero, String, ◌<>◌, Option, none, some, List, [], ◌∷◌, ◌++◌, ltb, leb, max, keep,
  if◌then◌else◌, ◌≡◌,
}
use cosmad.Outcome.{Result, ok, err}
use cosmad.Platform.{Platform}
pub mod Order
pub mod Resume

-- A version is a decimal number, counted in tenths: 0.1 is 1.
pub record Migration : Type 0 where
  pub version : ℕ
  pub sql : List String

-- `migrations`, and `latestMigrationVersion` of such a list.
abbrev pub migrations : List Migration
migrations = record { version = 1; sql = [] } ∷ []

unfoldable pub latest_migration_version : List Migration → ℕ
latest_migration_version [] = 0
latest_migration_version (m ∷ ms) = max m.version (latest_migration_version ms)

-- What the code uses of DuckDB's connection: a call returns the message of an error, or none, and
-- the next state.
pub record Connection (S : Type 0) : Type 0 where
  pub run : String → S → Option String × S
  pub insert_version : ℕ → S → Option String × S  -- INSERT INTO cosmad_version … ON CONFLICT DO NOTHING
  pub versions : S → List ℕ  -- SELECT version FROM cosmad_version
  pub table_names : S → List String  -- SELECT table_name FROM information_schema.tables

-- `.filter((m) => m.version > from)`
abbrev pub newer : ℕ → List Migration → List Migration
newer from = keep (λ (m : Migration). ltb from m.version)

-- `.sort((a, b) => a.version - b.version)`, which is stable.
unfoldable pub insert : Migration → List Migration → List Migration
insert m [] = m ∷ []
insert m (n ∷ ns) =
    let rest = insert m ns in if leb m.version n.version then m ∷ n ∷ ns else n ∷ rest

unfoldable pub sort : List Migration → List Migration
unfolding insert
sort [] = []
sort (m ∷ ms) = insert m (sort ms)

-- `pending`
unfoldable pub pending : ℕ → List Migration → List Migration
unfolding sort
pending from ms = sort (newer from ms)

-- `versions.length === 0 ? 0 : Math.max(...versions)`
unfoldable pub highest : List ℕ → ℕ
highest [] = 0
highest (v ∷ vs) = max v (highest vs)

module _ {S : Type 0} (c : Connection S) where
  -- Statements in turn, up to the first that throws.
  unfoldable pub run_all : List String → S → Option String × S
  run_all [] s = (none, s)
  run_all (q ∷ qs) s =
      let (error, s1) = c.run q s in
      let rest = run_all qs s1 in elim error [ none ↦ rest | some e ↦ (some e, s1) ]

  -- The body of the `try`: the statements, the version and the commit.
  unfoldable pub migrate_body : Migration → S → Option String × S
  unfolding run_all
  migrate_body m s =
      let (error, s1) = run_all m.sql s in
      let (error2, s2) = c.insert_version m.version s1 in
      let committed = c.run "COMMIT" s2 in
      elim error [
        | some e ↦ (some e, s1)
        | none ↦ elim error2 [ some e ↦ (some e, s2) | none ↦ committed ]
      ]

  -- One round of the loop of `migrate`; a throw is an error. What the rollback itself throws is
  -- thrown in the place of the error.
  unfoldable pub migrate_one : (number : ℕ → String) → Migration → S → Option String × S
  unfolding migrate_body
  migrate_one number m s =
      let (error, s1) = c.run "BEGIN TRANSACTION" s in
      let (failure, s2) = migrate_body m s1 in
      let (error3, s3) = c.run "ROLLBACK" s2 in
      elim error [
        | some e ↦ (some e, s1)
        | none ↦ elim failure [
          | none ↦ (none, s2)
          | some e ↦ elim error3 [
            | some e3 ↦ (some e3, s3)
            | none ↦ (some ("Migration " <> number m.version <> " failed: " <> e), s3)
          ]
        ]
      ]

  unfoldable pub migrate_each : (ℕ → String) → List Migration → S → Option String × S
  unfolding migrate_one
  migrate_each number [] s = (none, s)
  migrate_each number (m ∷ ms) s =
      let (error, s1) = migrate_one number m s in
      let rest = migrate_each number ms s1 in elim error [ none ↦ rest | some e ↦ (some e, s1) ]

  -- `migrate`; `number` prints a version.
  unfoldable pub migrate : (ℕ → String) → List Migration → ℕ → S → Option String × S
  unfolding migrate_each pending
  migrate number ms from s = migrate_each number (pending from ms) s

  -- `currentVersion`
  unfoldable pub current_version : S → ℕ
  unfolding highest
  current_version s = highest (c.versions s)

  -- The middle of `initSchema`: a fresh database is stamped, any other is migrated.
  unfoldable pub schema_version :
      (ℕ → String) → List Migration → List String → S → Option String × S
  unfolding migrate current_version latest_migration_version
  schema_version number ms [] s = c.insert_version (latest_migration_version ms) s
  schema_version number ms (t ∷ ts) s = migrate number ms (current_version s) s

  -- `initSchema`: `version_ddl` and `table_ddl` are the generated statements of the version table
  -- and of the others.
  unfoldable pub init_schema :
      (ℕ → String) → List Migration → (version_ddl table_ddl : List String) → S → Option String × S
  unfolding run_all schema_version
  init_schema number ms version_ddl table_ddl s =
      let (error, s1) = run_all version_ddl s in
      let (error2, s2) = schema_version number ms (c.table_names s) s1 in
      let rest = run_all table_ddl s2 in
      elim error [
        | some e ↦ (some e, s1)
        | none ↦ elim error2 [ some e ↦ (some e, s2) | none ↦ rest ]
      ]
