-- ===== src/Migrations/Tests.antt =====
-- A database that keeps a log, some migrations, and instances of the theorems.
use flareon.Base.{
  ◌≡◌, refl, sym, ap, List, [], ◌∷◌, Bool, true, false, ◌&&◌, ◌||◌, Text, text_eq, text_eq_refl,
  codes, All, lookup, insert, arith,
}
use mathlib.Core.List.{Permᴰ}
use flareon.Graph.{add_edge, toposort}
use flareon.Permutation.{apply_permutation}
use flareon.Migrations.{
  ColumnType, integer, string, new_field, create_model, add_field, migration, model, Migration,
}
use flareon.Migrations.Schema.{Statement}
use flareon.Migrations.Engine.{
  DbResult, Database, run_operations, run, forwards, is_migration_applied, mark_migration_applied,
}
use flareon.Migrations.Engine.Runs.{KeepsRows, IsDone, run_operations-first_only}
use flareon.Migrations.Sorter.{
  cycle, invalid_dependency, duplicate_migration, ok, err, sort_by_graph, sort,
}
use flareon.Migrations.Sorter.Outcomes.{Sorts, sort_by_graph-Sorts}
use flareon.Migrations.{set_none, cascade, Field, add_foreign_key}
use flareon.Base.{some, none}
use flareon.Migrations.Schema.{ForeignKeyCreate}
use flareon.Migrations.Sorter.Order.{IsSorted}
use flareon.Migrations.Startup.{MigrationEngine, new_engine, new_engine-run}
use flareon.Migrations.Fields.{FieldCall, null, foreign_key, field_calls}

pub record Log : Type 0 where
  pub statements : List (Statement ColumnType)
  pub applied : List (Text × Text)

abbrev pub is_applied : Text → Text → List (Text × Text) → Bool
is_applied app name [] = false
is_applied app name ((a, n) ∷ rows) = (text_eq a app && text_eq n name) || is_applied app name rows

abbrev pub log_database : Database ColumnType
log_database = record {
  State = Log;
  mapper = λ t. t;
  execute_schema = λ st s. (DbResult.ok tt, record s { statements = st ∷ s.statements });
  exists_applied = λ app name s. DbResult.ok (is_applied app name s.applied);
  insert_applied = λ app name s. (DbResult.ok tt, record s { applied = (app, name) ∷ s.applied });
}

abbrev pub initial : Migration
initial = record {
  app_name = codes "todo";
  name = codes "m_0001";
  dependencies = [];
  operations =
      create_model (codes "item") (new_field (codes "id") integer ∷ []) false
      ∷ add_field (codes "item") (new_field (codes "title") (string 80))
      ∷ [];
}

abbrev pub second : Migration
second = record {
  app_name = codes "blog";
  name = codes "m_0001";
  dependencies =
      model (codes "todo") (codes "item") ∷ migration (codes "todo") (codes "m_0001") ∷ [];
  operations = [];
}

abbrev orphan : Migration
orphan = record second { dependencies = migration (codes "todo") (codes "m_0007") ∷ [] }

abbrev looped : Migration
looped = record initial { dependencies = migration (codes "blog") (codes "m_0001") ∷ [] }

abbrev pub fresh : Log
fresh = record { statements = []; applied = [] }

sorted :
    (sort (initial ∷ second ∷ []) ≡ ok (initial ∷ second ∷ []))
    × (sort (second ∷ initial ∷ []) ≡ ok (initial ∷ second ∷ []))
    × (sort (orphan ∷ initial ∷ [])
        ≡ err (invalid_dependency (migration (codes "todo") (codes "m_0007"))))
    × (sort (looped ∷ second ∷ []) ≡ err cycle)
    × (sort (initial ∷ initial ∷ []) ≡ err (duplicate_migration (codes "todo") (codes "m_0001")))
unfolding sort toposort add_edge apply_permutation lookup insert
sorted = (refl, refl, refl, refl, refl)

found : DbResult Bool → Bool
found (DbResult.ok b) = b
found DbResult.error = false

pub log_database-KeepsRows : KeepsRows log_database
unfolding found
log_database-KeepsRows = record {
  inserted = λ app name s s' r.
      let same : s'.applied ≡ (app, name) ∷ s.applied = ap (λ q. q.1.applied) (sym r) in
      ap DbResult.ok (rw (same, text_eq_refl app, text_eq_refl name) refl);
  insert_keeps = λ app name other other_name s s' r h.
      let same : s'.applied ≡ (app, name) ∷ s.applied = ap (λ q. q.1.applied) (sym r) in
      let h' : is_applied other other_name s.applied ≡ true = ap found h in
      ap DbResult.ok (rw same (ground arith));
  schema_keeps = λ op other other_name s s' r h.
      let same : s'.applied ≡ s.applied = ap (λ q. q.1.applied) (sym r) in
      ap DbResult.ok (rw same (ap found h));
}

run_operations-first_only_example :
    run_operations log_database initial initial.operations fresh
    ≡ run_operations log_database initial
        (create_model (codes "item") (new_field (codes "id") integer ∷ []) false ∷ [])
        fresh
unfolding is_migration_applied
run_operations-first_only_example =
    run_operations-first_only log_database log_database-KeepsRows initial
      (create_model (codes "item") (new_field (codes "id") integer ∷ []) false)
      (add_field (codes "item") (new_field (codes "title") (string 80)) ∷ []) fresh refl

-- The state that the run leaves.
abbrev after : Log
unfolding run
after = (run log_database (initial ∷ second ∷ []) fresh).1

sort_by_graph-Sorts_example : Sorts (second ∷ initial ∷ []) (sort_by_graph (second ∷ initial ∷ []))
sort_by_graph-Sorts_example = sort_by_graph-Sorts (second ∷ initial ∷ [])

abbrev engine : MigrationEngine
engine = record { migrations = initial ∷ second ∷ [] }

new_engine-run_example :
    (named : List Migration) × Permᴰ (second ∷ initial ∷ []) named
    × IsSorted named engine.migrations
    × All (IsDone log_database log_database-KeepsRows after) engine.migrations
unfolding new_engine sort toposort add_edge apply_permutation lookup insert run forwards
    is_migration_applied mark_migration_applied
new_engine-run_example =
    new_engine-run log_database log_database-KeepsRows (second ∷ initial ∷ []) engine fresh after
      refl refl

abbrev owner : Field
unfolding new_field
owner = record (new_field (codes "owner") integer) {
  null = true;
  foreign_key = some (record {
    model = codes "user";
    field = codes "id";
    on_delete = set_none;
    on_update = cascade;
  });
}

abbrev owner_calls : List FieldCall
owner_calls = null ∷ foreign_key (codes "user") (codes "id") set_none cascade ∷ []

panics_without_null :
    field_calls
      (foreign_key (codes "user") (codes "id") set_none cascade ∷ [])
      (new_field (codes "owner") integer)
    ≡ none
unfolding field_calls add_foreign_key new_field
panics_without_null = refl

abbrev owner_key : ForeignKeyCreate
owner_key = record {
  from_tbl = codes "item";
  from_col = codes "owner";
  to_tbl = codes "user";
  to_col = codes "id";
  on_delete = set_none;
  on_update = cascade;
}
