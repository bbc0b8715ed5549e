-- ===== src/Generator/Cycles.antt =====
-- `GeneratedMigration::new`: the cycles between the operations are removed, the operations are
-- sorted, and the dependencies on models of other migrations are noted. `panic` is a panic.
pub mod Edges
pub mod Columns
pub mod Order
pub mod Unbroken
use flareon.Base.{
  ℕ, zero, suc, List, [], ◌∷◌, ◌++◌, map, Option, none, some, Bool, true, false, if◌then◌else◌,
  Text, Text-Eq, text_eq, lookup, insert, get_elem?, set, length,
}
use flareon.Graph
use flareon.Graph.{Outcome, done, panic, Graph, new, add_edge, ◌>>=◌}
use flareon.Permutation.{apply_permutation, index}
use flareon.Generator.{
  Field, DynOperation, create_model, add_field, DynDependency, model, ModelInSource,
}

-- The algorithms of the `petgraph` crate: the ends of the edges of a feedback arc set, and a
-- topological order of the nodes unless there is a cycle.
pub record Petgraph : Type 0 where
  pub greedy_feedback_arc_set : Graph → List (ℕ × ℕ)
  pub toposort : Graph → Option (List ℕ)

abbrev pub foreign_key_for_field : Field → Option Text
foreign_key_for_field f = elim f.foreign_key [ none ↦ none | some spec ↦ some spec.to_model ]

abbrev pub is_to : Text → Option Text → Bool
is_to ty none = false
is_to ty (some to_model) = text_eq to_model ty

abbrev pub is_field_foreign_key_to : Field → Text → Bool
is_field_foreign_key_to f ty = is_to ty (foreign_key_for_field f)

-- `Iterator::partition`, its two halves.
unfoldable pub fields_to_remove : Text → List Field → List Field
fields_to_remove ty [] = []
fields_to_remove ty (f ∷ fs) =
    if is_field_foreign_key_to f ty then f ∷ fields_to_remove ty fs else fields_to_remove ty fs

unfoldable pub fields_to_retain : Text → List Field → List Field
fields_to_retain ty [] = []
fields_to_retain ty (f ∷ fs) =
    if is_field_foreign_key_to f ty then fields_to_retain ty fs else f ∷ fields_to_retain ty fs

-- The changed `from` operation and the operations to add.
unfoldable pub remove_dependency :
    DynOperation → DynOperation → Outcome (DynOperation × List DynOperation)
unfolding fields_to_remove fields_to_retain
remove_dependency (create_model table_name model_ty fields) (create_model _ to_type _) = done (
  create_model table_name model_ty (fields_to_retain to_type fields),
  map (λ f. add_field table_name model_ty f) (fields_to_remove to_type fields),
)
remove_dependency (create_model table_name model_ty fields) (add_field _ _ _) = panic
remove_dependency (add_field _ _ _) to = panic

-- The loop over the operations: the position of each that creates a model, by the model's type.
unfoldable pub create_ops_from : List DynOperation → ℕ → List (Text × ℕ) → List (Text × ℕ)
create_ops_from [] i ops_map = ops_map
create_ops_from (create_model _ model_ty _ ∷ ops) i ops_map =
    create_ops_from ops (suc i) (insert model_ty i ops_map)
create_ops_from (add_field _ _ _ ∷ ops) i ops_map = create_ops_from ops (suc i) ops_map

unfoldable pub get_create_ops_map : List DynOperation → List (Text × ℕ)
unfolding create_ops_from
get_create_ops_map ops = create_ops_from ops 0 []

unfoldable pub foreign_types : List Field → List Text
foreign_types [] = []
foreign_types (f ∷ fs) = elim (foreign_key_for_field f) [
  | none ↦ foreign_types fs
  | some ty ↦ ty ∷ foreign_types fs
]

-- The types that an operation refers to.
abbrev pub types_of : DynOperation → List Text
types_of (create_model _ _ fields) = foreign_types fields
types_of (add_field _ model_ty field) = model_ty ∷ foreign_types (field ∷ [])

unfoldable pub foreign_keys_from : List DynOperation → ℕ → List (ℕ × Text)
unfolding foreign_types
foreign_keys_from [] i = []
foreign_keys_from (op ∷ ops) i = map (λ ty. (i, ty)) (types_of op) ++ foreign_keys_from ops (suc i)

unfoldable pub get_ops_adding_foreign_keys : List DynOperation → List (ℕ × Text)
unfolding foreign_keys_from
get_ops_adding_foreign_keys ops = foreign_keys_from ops 0

-- An edge from the operation that creates a model to each that refers to it.
unfoldable pub add_edges : List (Text × ℕ) → List (ℕ × Text) → Graph → Outcome Graph
add_edges create_ops [] g = done g
add_edges create_ops ((i, dependency_ty) ∷ rest) g = elim (lookup dependency_ty create_ops) [
  | none ↦ add_edges create_ops rest g
  | some dependency ↦ add_edge dependency i g >>= add_edges create_ops rest
]

unfoldable pub construct_dependency_graph : List DynOperation → Outcome Graph
unfolding add_edges get_create_ops_map get_ops_adding_foreign_keys
construct_dependency_graph ops =
    add_edges (get_create_ops_map ops) (get_ops_adding_foreign_keys ops) (new (length ops))

-- The loop over the edges of the feedback arc set.
unfoldable pub remove_edges : List (ℕ × ℕ) → List DynOperation → Outcome (List DynOperation)
unfolding remove_dependency
remove_edges [] ops = done ops
remove_edges ((from, to) ∷ rest) ops = do
  to_op ← index ops to
  from_op ← index ops from
  (from_op', to_add) ← remove_dependency from_op to_op
  remove_edges rest (set ops from from_op' ++ to_add)

-- The loop over the foreign keys, for those that point to models of other migrations.
unfoldable pub foreign_dependencies : List (Text × ℕ) → List (ℕ × Text) → List DynDependency
foreign_dependencies create_ops [] = []
foreign_dependencies create_ops ((_, dependency_ty) ∷ rest) =
    elim (lookup dependency_ty create_ops) [
      | none ↦ model dependency_ty ∷ foreign_dependencies create_ops rest
      | some _ ↦ foreign_dependencies create_ops rest
    ]

unfoldable pub get_foreign_key_dependencies : List DynOperation → List DynDependency
unfolding foreign_dependencies get_create_ops_map get_ops_adding_foreign_keys
get_foreign_key_dependencies ops =
    foreign_dependencies (get_create_ops_map ops) (get_ops_adding_foreign_keys ops)

pub record GeneratedMigration : Type 0 where
  pub migration_name : Text
  pub modified_models : List ModelInSource
  pub dependencies : List DynDependency
  pub operations : List DynOperation

-- `expect` on the order of the nodes.
abbrev pub expect_order : Option (List ℕ) → Outcome (List ℕ)
expect_order none = panic
expect_order (some order) = done order

module _ (pg : Petgraph) where
  unfoldable pub remove_cycles : List DynOperation → Outcome (List DynOperation)
  unfolding construct_dependency_graph remove_edges
  remove_cycles ops = do
    graph ← construct_dependency_graph ops
    remove_edges (pg.greedy_feedback_arc_set graph) ops

  unfoldable pub toposort_operations : List DynOperation → Outcome (List DynOperation)
  unfolding construct_dependency_graph apply_permutation
  toposort_operations ops = do
    graph ← construct_dependency_graph ops
    sorted ← expect_order (pg.toposort graph)
    permuted ← apply_permutation ops sorted
    done permuted.items

  unfoldable pub new_migration :
      Text
      → List ModelInSource
      → List DynDependency
      → List DynOperation
      → Outcome GeneratedMigration
  unfolding remove_cycles toposort_operations get_foreign_key_dependencies
  new_migration migration_name modified_models dependencies ops = do
    acyclic ← remove_cycles ops
    sorted ← toposort_operations acyclic
    done (record {
      migration_name = migration_name;
      modified_models = modified_models;
      dependencies = dependencies ++ get_foreign_key_dependencies sorted;
      operations = sorted;
    })
