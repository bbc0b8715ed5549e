-- ===== src/Migrations/Sorter.antt =====
-- cot/src/db/migrations/sorter.rs: `MigrationSorter`, over the graph and the permutation of
-- cot/src/utils/graph.rs. Texts are compared by their code points, as UTF-8 compares by bytes.
pub mod Table
pub mod Keys
pub mod Edges
pub mod Order
pub mod Outcomes
pub mod Names
use flareon.Base.{
  ℕ, zero, suc, ◌+◌, List, [], ◌∷◌, Option, none, some, Bool, true, false, ◌&&◌, ◌||◌, ◌==◌, ltb,
  if◌then◌else◌, length, Text, text_eq, text_eq_iff, Eq, lookup, insert, ◌≡◌, ◌↔◌, arith,
}
use flareon.Graph
use flareon.Graph.{
  Outcome, done, cycle_detected, panic, out_of_fuel, Graph, new, add_edge, toposort,
}
use flareon.Permutation.{Permuting, apply_permutation}
use flareon.Migrations.{
  Migration, Operation, create_model, add_field, MigrationDependency, migration, model,
}

pub data MigrationSorterError : Type 0 where
  cycle : MigrationSorterError
  invalid_dependency : MigrationDependency → MigrationSorterError
  duplicate_migration duplicate_model : (app_name : Text) (name : Text) → MigrationSorterError

-- `panicked` is a panic of the graph.
pub data Result {ℓ} (A : Type ℓ) : Type ℓ where
  ok : A → Result A
  err : MigrationSorterError → Result A
  panicked : Result A

infixl 5 ◌>>=◌
abbrev pub ◌>>=◌ {ℓ κ} : {A : Type ℓ} {B : Type κ} → Result A → (A → Result B) → Result B
ok a >>= f = f a
err e >>= f = err e
panicked >>= f = panicked

-- `?` on the graph's `CycleDetected`.
abbrev pub from_outcome {ℓ} : {A : Type ℓ} → Outcome A → Result A
from_outcome (done a) = ok a
from_outcome cycle_detected = err cycle
from_outcome panic = panicked
from_outcome out_of_fuel = panicked

pub data MigrationLookup : Type 0 where
  by_app_and_name by_app_and_model : (app : Text) (name : Text) → MigrationLookup

abbrev pub from_dependency : MigrationDependency → MigrationLookup
from_dependency (migration app name) = by_app_and_name app name
from_dependency (model app table_name) = by_app_and_model app table_name

abbrev pub lookup_eq : MigrationLookup → MigrationLookup → Bool
lookup_eq (by_app_and_name a n) (by_app_and_name b m) = text_eq a b && text_eq n m
lookup_eq (by_app_and_model a n) (by_app_and_model b m) = text_eq a b && text_eq n m
lookup_eq (by_app_and_name a n) (by_app_and_model b m) = false
lookup_eq (by_app_and_model a n) (by_app_and_name b m) = false

pub lookup_eq_iff : (k l : MigrationLookup) → (lookup_eq k l ≡ true) ↔ (k ≡ l)
lookup_eq_iff (by_app_and_name a n) (by_app_and_name b m) =
    ground (arith, text_eq_iff a b, text_eq_iff n m)
lookup_eq_iff (by_app_and_model a n) (by_app_and_model b m) =
    ground (arith, text_eq_iff a b, text_eq_iff n m)
lookup_eq_iff (by_app_and_name a n) (by_app_and_model b m) = ground arith
lookup_eq_iff (by_app_and_model a n) (by_app_and_name b m) = ground arith

instance abbrev pub MigrationLookup-Eq : Eq MigrationLookup
MigrationLookup-Eq = record { beq = lookup_eq; beq_iff = lookup_eq_iff }

abbrev pub LookupTable : Type 0
LookupTable = List (MigrationLookup × ℕ)

-- `map.insert(key, index).is_some()` is an error.
unfoldable pub insert_new :
    MigrationLookup → ℕ → MigrationSorterError → LookupTable → Result LookupTable
insert_new key index error table = elim (lookup key table) [
  | some _ ↦ err error
  | none ↦ ok (insert key index table)
]

-- The loop over the operations of a migration.
unfoldable pub add_models : Text → List Operation → ℕ → LookupTable → Result LookupTable
unfolding insert_new
add_models app [] index table = ok table
add_models app (create_model table_name fields if_not_exists ∷ ops) index table = do
  table' ← insert_new (by_app_and_model app table_name) index (duplicate_model app table_name) table
  add_models app ops index table'
add_models app (add_field table_name field ∷ ops) index table = add_models app ops index table

-- The loop over the migrations from the position `index` on.
unfoldable pub table_from : List Migration → ℕ → LookupTable → Result LookupTable
unfolding add_models insert_new
table_from [] index table = ok table
table_from (m ∷ ms) index table = do
  table' ←
      insert_new (by_app_and_name m.app_name m.name) index (duplicate_migration m.app_name m.name)
        table
  table'' ← add_models m.app_name m.operations index table'
  table_from ms (suc index) table''

unfoldable pub create_lookup_table : List Migration → Result LookupTable
unfolding table_from
create_lookup_table ms = table_from ms 0 []

-- The loop over the dependencies of the migration at `index`.
unfoldable pub add_dependencies : LookupTable → List MigrationDependency → ℕ → Graph → Result Graph
add_dependencies table [] index g = ok g
add_dependencies table (d ∷ ds) index g = elim (lookup (from_dependency d) table) [
  | none ↦ err (invalid_dependency d)
  | some dependency_index ↦
      from_outcome (add_edge dependency_index index g) >>= λ g'. add_dependencies table ds index g'
]

unfoldable pub add_migrations : LookupTable → List Migration → ℕ → Graph → Result Graph
unfolding add_dependencies
add_migrations table [] index g = ok g
add_migrations table (m ∷ ms) index g = do
  g' ← add_dependencies table m.dependencies index g
  add_migrations table ms (suc index) g'

unfoldable pub sort_by_graph : List Migration → Result (List Migration)
unfolding create_lookup_table add_migrations
sort_by_graph ms = do
  table ← create_lookup_table ms
  g ← add_migrations table ms 0 (new (length ms))
  sorted_indices ← from_outcome (toposort g)
  permuted ← from_outcome (apply_permutation ms sorted_indices)
  ok permuted.items

abbrev pub text_le : Text → Text → Bool
text_le [] t = true
text_le (c ∷ s) [] = false
text_le (c ∷ s) (d ∷ t) = ltb c d || (c == d && text_le s t)

-- `(a.app_name(), a.name()) <= (b.app_name(), b.name())`
abbrev pub migration_le : Migration → Migration → Bool
migration_le a b =
    if text_eq a.app_name b.app_name then text_le a.name b.name else text_le a.app_name b.app_name

abbrev pub insert_sorted : Migration → List Migration → List Migration
insert_sorted m [] = m ∷ []
insert_sorted m (n ∷ ns) = if migration_le m n then m ∷ n ∷ ns else n ∷ insert_sorted m ns

-- `sort_by`, which is stable.
unfoldable pub sort_by_name : List Migration → List Migration
sort_by_name [] = []
sort_by_name (m ∷ ms) = insert_sorted m (sort_by_name ms)

unfoldable pub sort : List Migration → Result (List Migration)
unfolding sort_by_name sort_by_graph
sort ms = sort_by_graph (sort_by_name ms)
