-- ===== src/Migrations/Engine.antt =====
-- `MigrationEngine::run`, over a database that is a parameter: the driver behind `Database` runs
-- schema statements, looks for a row of `cot__migrations` and inserts one.
pub mod Runs
use flareon.Base.{
  ℕ, ◌≡◌, List, [], ◌∷◌, Option, none, some, Bool, true, false, if◌then◌else◌, Text, codes,
}
use flareon.Migrations.{
  ColumnType, integer, string, date_time_with_time_zone, Field, new_field, Operation, create_model,
  Migration,
}
use flareon.Migrations.Schema.{Statement, forwards_statement, backwards_statement}

pub data DbResult (A : Type 0) : Type 0 where
  ok : A → DbResult A
  error : DbResult A

-- A failed call leaves the state that the database is in then.
pub record Database (T : Type 0) : Type 1 where
  pub State : Type 0
  pub mapper : ColumnType → T
  pub execute_schema : Statement T → State → DbResult (Unit {0}) × State
  pub exists_applied : (app name : Text) → State → DbResult Bool
  pub insert_applied : (app name : Text) → State → DbResult (Unit {0}) × State

abbrev pub then_run :
    {S : Type 0} → DbResult (Unit {0}) × S → (S → DbResult (Unit {0}) × S) → DbResult (Unit {0}) × S
then_run (ok _, s) k = k s
then_run (error, s) k = (error, s)

-- The type of a `String` column.
abbrev pub text_column : ColumnType
text_column = ColumnType.text

unfoldable pub create_applied_migrations_migration : Operation
unfolding new_field
create_applied_migrations_migration =
    create_model (codes "cot__migrations")
      (record (new_field (codes "id") integer) { primary_key = true; auto_value = true }
        ∷ new_field (codes "app") text_column
        ∷ new_field (codes "name") text_column
        ∷ new_field (codes "applied") date_time_with_time_zone
        ∷ [])
      true

module _ {T : Type 0} (db : Database T) where
  unfoldable pub forwards : Operation → db.State → DbResult (Unit {0}) × db.State
  forwards op = db.execute_schema (forwards_statement db.mapper op)

  unfoldable pub backwards : Operation → db.State → DbResult (Unit {0}) × db.State
  backwards op = db.execute_schema (backwards_statement db.mapper op)

  unfoldable pub is_migration_applied : Migration → db.State → DbResult Bool
  is_migration_applied m = db.exists_applied m.app_name m.name

  unfoldable pub mark_migration_applied : Migration → db.State → DbResult (Unit {0}) × db.State
  mark_migration_applied m = db.insert_applied m.app_name m.name

  -- The loop over the operations of a migration.
  unfoldable pub run_operations :
      Migration → List Operation → db.State → DbResult (Unit {0}) × db.State
  run_operations m [] s = (ok tt, s)
  run_operations m (op ∷ ops) s = elim (is_migration_applied m s) [
    | error ↦ (error, s)
    | ok true ↦ run_operations m ops s
    | ok false ↦
        then_run (forwards op s)
          λ s'. then_run (mark_migration_applied m s') λ s''. run_operations m ops s''
  ]

  -- The loop over the migrations.
  unfoldable pub run_migrations : List Migration → db.State → DbResult (Unit {0}) × db.State
  unfolding run_operations
  run_migrations [] s = (ok tt, s)
  run_migrations (m ∷ ms) s = then_run (run_operations m m.operations s) (run_migrations ms)

  unfoldable pub run : List Migration → db.State → DbResult (Unit {0}) × db.State
  unfolding run_migrations
  run migrations s =
      then_run (forwards create_applied_migrations_migration s) (run_migrations migrations)
