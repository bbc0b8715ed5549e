-- ===== src/Migrations/Sorter/Order.antt =====
-- The order that the sorter returns, and when it returns an error.
use flareon.Base.{
  ℕ, zero, suc, ◌<◌, ◌≡◌, sym, ◌∙◌, ap, subst, List, [], ◌∷◌, some, length, lookup, Option-cases,
  inl, inr, get_elem?, get_elem?-lt_length, get_elem?_of_lt, arith,
}
use mathlib.Core.List.{Memᴰ}
use flareon.Graph.{Graph, new, add_edge}
use flareon.Graph.Walks.{HasEdge}
use flareon.Graph.Toposort.{IsSortOf}
use flareon.Permutation.Laws.{IsPermutation, gather}
use flareon.Migrations.{Migration, MigrationDependency}
use flareon.Migrations.Sorter.{
  ok, from_outcome, from_dependency, MigrationLookup-Eq, LookupTable, add_dependencies,
  add_migrations,
}
use flareon.Migrations.Sorter.Table.{IsTableOf, Provides, >>=-eq-ok}
use flareon.Migrations.Sorter.Edges.{DependsOn, IsDependencyGraph, add_migrations-IsDependencyGraph}
use flareon.Permutation.Sorted.{source-before, IsPermutation-of_IsSortOf, gather-eq}

-- The migrations in another order, each behind one that provides each of its dependencies.
pub record IsSorted (ms out : List Migration) : Type 0 where
  pub order : List ℕ
  pub permutes : IsPermutation (length ms) order
  pub size : length out ≡ length ms
  pub moved : (k : ℕ) → k < length ms → get_elem? out k ≡ gather ms order k
  pub before :
      (k : ℕ) (m : Migration) (d : MigrationDependency)
      → get_elem? out k ≡ some m
      → Memᴰ d m.dependencies
      → (j : ℕ) × (p : Migration) × (j < k)
        × (get_elem? out j ≡ some p)
        × Provides p (from_dependency d)

-- A dependency that was accepted leads to a position.
dependencies-resolved :
    (table : LookupTable) (ds : List MigrationDependency) (index : ℕ) (g g' : Graph)
    (d : MigrationDependency)
    → add_dependencies table ds index g ≡ ok g'
    → Memᴰ d ds
    → (i : ℕ) × (lookup (from_dependency d) table ≡ some i) × DependsOn table ds i
unfolding add_dependencies
dependencies-resolved table [] index g g' d e listed = elim listed [ ]
dependencies-resolved table (c ∷ ds) index g g' d e (Memᴰ.head same) =
    elim (Option-cases (lookup (from_dependency c) table)) [
      | inl missing ↦ absurd (ground arith)
      | inr (j, at) ↦ (j, ap (λ x. lookup (from_dependency x) table) same ∙ at, inl at)
    ]
dependencies-resolved table (c ∷ ds) index g g' d e (Memᴰ.tail later) =
    elim (Option-cases (lookup (from_dependency c) table)) [
      | inl missing ↦ absurd (ground arith)
      | inr (j, at) ↦
          let (h, added, e') =
            >>=-eq-ok (from_outcome (add_edge j index g)) (add_dependencies table ds index)
              (rw (add_dependencies, at) at e) in
          let (i, leads, on) = dependencies-resolved table ds index h g' d e' later in
          (i, leads, inr on)
    ]

migrations-resolved :
    (table : LookupTable) (ms : List Migration) (index : ℕ) (g g' : Graph) (k : ℕ) (m : Migration)
    (d : MigrationDependency)
    → add_migrations table ms index g ≡ ok g'
    → get_elem? ms k ≡ some m
    → Memᴰ d m.dependencies
    → (i : ℕ) × (lookup (from_dependency d) table ≡ some i) × DependsOn table m.dependencies i
unfolding add_migrations
migrations-resolved table [] index g g' k m d e at listed = cc
migrations-resolved table (n ∷ ms) index g g' zero m d e at listed =
    let (h, added, _) = >>=-eq-ok (add_dependencies table n.dependencies index g) _ e in
    let same : n ≡ m = cc in
    dependencies-resolved table m.dependencies index g h d
      (subst (λ (x : Migration). add_dependencies table x.dependencies index g ≡ ok h) same added)
      listed
migrations-resolved table (n ∷ ms) index g g' (suc k) m d e at listed =
    let (h, _, e') = >>=-eq-ok (add_dependencies table n.dependencies index g) _ e in
    migrations-resolved table ms (suc index) h g' k m d e' at listed

module _ (ms : List Migration) (table : LookupTable) (g : Graph) (is_table : IsTableOf ms table)
    (built : add_migrations table ms 0 (new (length ms)) ≡ ok g) (xs : List ℕ)
    (sort_of : IsSortOf g xs) where
  graph : IsDependencyGraph ms table g
  graph = add_migrations-IsDependencyGraph ms table g is_table built

  pub order-IsPermutation : IsPermutation (length ms) xs
  order-IsPermutation = IsPermutation-of_IsSortOf g xs (length ms) sort_of graph.size

  pub permuted-IsSorted :
      (out : List Migration)
      → length out ≡ length ms
      → ((k : ℕ) → k < length ms → get_elem? out k ≡ gather ms xs k)
      → IsSorted ms out
  permuted-IsSorted out size moved = record {
    order = xs;
    permutes = order-IsPermutation;
    size = size;
    moved = moved;
    before = λ k m d at listed.
        let in_range : k < length ms = omega (arith, get_elem?-lt_length out k at, size) in
        let (v, at_k) = get_elem?_of_lt xs k (omega (arith, sort_of.size, graph.size)) in
        let origin : get_elem? ms v ≡ some m =
          sym (gather-eq ms xs k v at_k) ∙ sym (moved k in_range) ∙ at in
        let (i, leads, on) =
          migrations-resolved table ms 0 (new (length ms)) g v m d built origin listed in
        let link : HasEdge g i v = graph.edge_of i v m origin on in
        let (p, there, provides) = is_table (from_dependency d) i leads in
        let (j, lt, at_j) =
          source-before g xs i v k sort_of.sorted link
            ((sort_of.complete i).1 (omega (arith, get_elem?-lt_length ms i there, graph.size)))
            at_k in
        (j, p, lt, moved j (omega arith) ∙ gather-eq ms xs j i at_j ∙ there, provides);
  }
