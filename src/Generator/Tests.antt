-- ===== src/Generator/Tests.antt =====
-- Models that refer to one another, a concrete graph library, and instances of the theorems.
use flareon.Base.{
  ℕ, suc, ◌+◌, ◌≡◌, refl, ap, subst, List, [], ◌∷◌, ◌++◌, Option, none, some, true, false, inl, inr,
  Text, codes, Text-Eq, lookup, insert, get_elem?, mem, All, All-append, arith,
}
use mathlib.Core.List.{Memᴰ, Permᴰ}
use flareon.Graph
use flareon.Graph.{Outcome, done, cycle_detected, panic, Graph, add_edge}
use flareon.Graph.Walks.{HasEdge, HasCycle, edge, step}
use flareon.Graph.Toposort.{toposort_total, IsSortOf}
use flareon.Permutation.{apply_permutation}
use flareon.Generator.{
  Field, ModelInSource, application, DynOperation, create_model, add_field, DynDependency, model,
  field_eq, fields_eq,
}
use flareon.Generator.{ModelType}
use flareon.Generator.Changes.{model_map, field_map, Generated, generate_operations}
use flareon.Generator.Changes.Schema.{schema_of, apply_all}
use flareon.Generator.Changes.Operations.{generate_operations_lem}
use flareon.Generator.Changes.Kept.{generate_operations-keeps, generate_operations-modified}
use flareon.Generator.Cycles.{
  Petgraph, construct_dependency_graph, remove_cycles, GeneratedMigration, new_migration,
}
use flareon.Generator.Cycles.Columns.{all_columns, remove_cycles-columns}
use flareon.Generator.Cycles.Order.{SortsGraphs, IsOrdered, new_migration-IsOrdered}
use flareon.Generator.Cycles.Unbroken.{FindsArcs, new_migration-panics}
use flareon.Generator.Processor.{
  Migration, MigrationProcessor, ok, next_migration_name, migration_name, name_after, format_number,
  generate_migrations, generated,
}
use flareon.Generator.Processor.Names.{HasNumber, next_migration_name_lem}

-- All edges are a feedback arc set.
abbrev arcs_to : ℕ → List ℕ → List (ℕ × ℕ)
arcs_to i [] = []
arcs_to i (k ∷ ks) = (i, k) ∷ arcs_to i ks

abbrev arcs_from : ℕ → List (List ℕ) → List (ℕ × ℕ)
arcs_from i [] = []
arcs_from i (ts ∷ tss) = arcs_to i ts ++ arcs_from (suc i) tss

abbrev order_of : Outcome (List ℕ) → Option (List ℕ)
order_of (done xs) = some xs
order_of _ = none

abbrev library : Petgraph
library = record {
  greedy_feedback_arc_set = λ g. arcs_from 0 g.vertex_edges;
  toposort = λ g. order_of (Graph.toposort g);
}

library-SortsGraphs : SortsGraphs library
library-SortsGraphs = record {
  sound = λ g xs closed e. elim (toposort_total g closed) [
    | inl (ys, done_it, s) ↦ let same : ys ≡ xs = cc in subst (IsSortOf g) same s
    | inr (looped, _) ↦ absurd (cc)
  ];
  complete = λ g closed c. elim (toposort_total g closed) [
    | inl (ys, done_it, s) ↦ absurd (cc ((Graph.Toposort.toposort-cycle_iff g closed).1 c))
    | inr (looped, _) ↦ ap order_of looped
  ];
}

abbrev IsArc : Graph → ℕ × ℕ → Type 0
IsArc g e = HasEdge g e.0 e.1

arcs_to-IsArc :
    (g : Graph) (i : ℕ) (ts : List ℕ) (all : List ℕ)
    → get_elem? g.vertex_edges i ≡ some all
    → ((k : ℕ) → mem k ts ≡ true → mem k all ≡ true)
    → All (IsArc g) (arcs_to i ts)
arcs_to-IsArc g i [] all at sub = tt
arcs_to-IsArc g i (t ∷ ts) all at sub =
    ((all, at, sub t (ground arith)), arcs_to-IsArc g i ts all at (λ k m. sub k (ground arith)))

arcs_from-IsArc :
    (g : Graph) (i : ℕ) (tss : List (List ℕ))
    → ((d : ℕ) (ts : List ℕ)
        → get_elem? tss d ≡ some ts
        → get_elem? g.vertex_edges (i + d) ≡ some ts)
    → All (IsArc g) (arcs_from i tss)
arcs_from-IsArc g i [] h = tt
arcs_from-IsArc g i (ts ∷ tss) h =
    All-append (IsArc g) (arcs_to i ts) (arcs_from (suc i) tss)
      (arcs_to-IsArc g i ts ts
        (subst (λ k. get_elem? g.vertex_edges k ≡ some ts) (omega arith) (h 0 ts refl)) (λ k m. m))
      (arcs_from-IsArc g (suc i) tss
        λ d us e. subst (λ k. get_elem? g.vertex_edges k ≡ some us) (omega arith) (h (suc d) us e))

library-FindsArcs : FindsArcs library
library-FindsArcs = record {
  arcs = λ g.
      arcs_from-IsArc g 0 g.vertex_edges
        (λ d ts e. subst (λ k. get_elem? g.vertex_edges k ≡ some ts) (omega arith) e);
}

abbrev id_field : Field
id_field = record {
  field_name = codes "id";
  column_name = codes "id";
  ty = codes "i64";
  auto_value = true;
  primary_key = true;
  foreign_key = none;
  unique = false;
}

abbrev key_to : Text → Field
key_to to = record id_field {
  field_name = codes "key";
  column_name = codes "key";
  ty = codes "ForeignKey";
  primary_key = false;
  foreign_key = some (record { to_model = to });
}

abbrev create : Text → Text → DynOperation
create name to = create_model name name (id_field ∷ key_to to ∷ [])

abbrev pair : List DynOperation
pair = create (codes "a") (codes "b") ∷ create (codes "b") (codes "a") ∷ []

abbrev ring : List DynOperation
ring =
    create (codes "a") (codes "b")
    ∷ create (codes "b") (codes "c")
    ∷ create (codes "c") (codes "a")
    ∷ []

-- The migration of the pair: both keys are added after both models.
abbrev pair_migration : GeneratedMigration
pair_migration = record {
  migration_name = codes "m";
  modified_models = [];
  dependencies = [];
  operations =
      create_model (codes "a") (codes "a") (id_field ∷ [])
      ∷ create_model (codes "b") (codes "b") (id_field ∷ [])
      ∷ add_field (codes "a") (codes "a") (key_to (codes "b"))
      ∷ add_field (codes "b") (codes "b") (key_to (codes "a"))
      ∷ [];
}

pair_generated : new_migration library (codes "m") [] [] pair ≡ done pair_migration
unfolding new_migration Graph.toposort add_edge apply_permutation lookup insert
pair_generated = refl

new_migration-IsOrdered_example : IsOrdered pair_migration.operations pair_migration.dependencies
new_migration-IsOrdered_example =
    new_migration-IsOrdered library (codes "m") [] [] pair pair_migration library-SortsGraphs
      pair_generated

abbrev pair_acyclic : List DynOperation
pair_acyclic =
    create_model (codes "a") (codes "a") (id_field ∷ [])
    ∷ create_model (codes "b") (codes "b") (id_field ∷ [])
    ∷ add_field (codes "a") (codes "a") (key_to (codes "b"))
    ∷ add_field (codes "b") (codes "b") (key_to (codes "a"))
    ∷ []

remove_cycles-columns_example : Permᴰ (all_columns pair) (all_columns pair_acyclic)
unfolding remove_cycles add_edge lookup insert
remove_cycles-columns_example = remove_cycles-columns library pair pair_acyclic refl

abbrev ring_graph : Graph
ring_graph = record { vertex_edges = (2 ∷ []) ∷ (0 ∷ []) ∷ (1 ∷ []) ∷ [] }

ring-cycle : HasCycle ring_graph
ring-cycle = (
  0,
  step {j = 1} (step {j = 2} (edge (2 ∷ [], refl, refl)) (1 ∷ [], refl, refl)) (0 ∷ [], refl, refl),
)

new_migration-panics_example : new_migration library (codes "m") [] [] ring ≡ panic
unfolding construct_dependency_graph add_edge lookup insert
new_migration-panics_example =
    new_migration-panics library (codes "m") [] [] ring ring_graph library-FindsArcs
      library-SortsGraphs (ground arith) refl ring-cycle

abbrev item : ModelType → List Field → ModelInSource
item kind fields = record {
  model_item = [];
  model = record {
    name = codes "Item";
    vis = [];
    original_name = codes "Item";
    resolved_ty = codes "Item";
    model_type = kind;
    table_name = codes "item";
    pk_field = id_field;
    fields = fields;
  };
}

abbrev title : Field
title = record id_field {
  column_name = codes "title";
  field_name = codes "title";
  ty = codes "String";
}

abbrev newer : List ModelInSource
newer = item application (id_field ∷ title ∷ []) ∷ []

abbrev older : List ModelInSource
older = item ModelType.migration (id_field ∷ []) ∷ []

abbrev change : Generated
change = record {
  modified_models = newer;
  operations = add_field (codes "item") (codes "Item") title ∷ [];
}

changed : generate_operations newer older ≡ some change
unfolding generate_operations field_eq fields_eq lookup insert
changed = refl

-- A column that is gone from the model.
removed : generate_operations older newer ≡ none
unfolding generate_operations field_eq fields_eq lookup insert
removed = refl

generate_operations_lem_example :
    apply_all change.operations (schema_of older) (codes "item") (codes "title")
    ≡ schema_of newer (codes "item") (codes "title")
generate_operations_lem_example =
    generate_operations_lem newer older change changed (codes "item") (codes "title")

generate_operations-keeps_example : schema_of newer (codes "item") (codes "id") ≡ some id_field
unfolding model_map field_map lookup insert
generate_operations-keeps_example =
    generate_operations-keeps newer older change (codes "item") (codes "id") id_field changed refl

generate_operations-modified_example :
    Memᴰ (item application (id_field ∷ title ∷ [])) change.modified_models
unfolding model_map lookup insert
generate_operations-modified_example =
    generate_operations-modified newer older change (codes "item")
      (item application (id_field ∷ title ∷ [])) (refl, tt) (refl, tt) changed refl

abbrev tenth : Migration
tenth = record {
  app_name = codes "shop";
  name = migration_name 10 (codes "20250101_000000");
  models = older;
}

abbrev processor : MigrationProcessor
processor = record { migrations = tenth ∷ [] }

next_name : next_migration_name true processor (codes "now") ≡ ok (codes "m_0011_auto_now")
unfolding next_migration_name
next_name = refl

abbrev first : MigrationProcessor
first = record {
  migrations =
      (record { app_name = codes "shop"; name = codes "m_0001_initial"; models = [] }) ∷ [];
}

wrapped : name_after false (some 0xffffffff) (codes "now") ≡ ok (codes "m_0000_auto_now")
unfolding format_number
wrapped = refl

next_migration_name_lem_example :
    (next_migration_name true first (codes "now") ≡ ok (migration_name 2 (codes "now")))
    × HasNumber (migration_name 2 (codes "now")) 2
unfolding next_migration_name
next_migration_name_lem_example =
    next_migration_name_lem true first
      (record { app_name = codes "shop"; name = codes "m_0001_initial"; models = [] }) 1
      (codes "now") refl (codes "m", codes "initial", (refl, tt), refl) (omega arith)

generated_next :
    generate_migrations true library newer processor (codes "now")
    ≡ generated (record {
      migration_name = codes "m_0011_auto_now";
      modified_models = newer;
      dependencies =
          DynDependency.migration (codes "shop") (migration_name 10 (codes "20250101_000000"))
          ∷ model (codes "Item")
          ∷ [];
      operations = change.operations;
    })
unfolding generate_migrations field_eq fields_eq Graph.toposort add_edge apply_permutation lookup
    insert
generated_next = refl
