-- ===== src/Migrations/Sorter/Outcomes.antt =====
-- What the sorter returns on every list of migrations.
use flareon.Base.{
  ℕ, some, get_elem?, ◌∷◌, ◌≡◌, refl, sym, subst, List, [], length, lookup, inl, inr,
  length-replicate,
}
use flareon.Graph.{Graph, new, toposort}
use flareon.Graph.Walks.{HasCycle, HasEdge}
use flareon.Graph.Toposort.{toposort_total}
use flareon.Permutation.{apply_permutation}
use flareon.Permutation.Laws.{apply_permutation_lem}
use flareon.Migrations.{Migration, MigrationDependency}
use flareon.Migrations.Sorter.{
  cycle, invalid_dependency, duplicate_migration, duplicate_model, Result, ok, err, panicked, ◌>>=◌,
  from_outcome, from_dependency, by_app_and_name, by_app_and_model, MigrationLookup-Eq, LookupTable,
  create_lookup_table, add_migrations, sort_by_graph,
}
use flareon.Migrations.Sorter.Table.{Provides, IsTableOf, create_lookup_table-IsTableOf}
use flareon.Migrations.Sorter.Keys.{
  Has, HasTwice, keys_from, keys_from-Has, Fills, create_lookup_table-Fills,
}
use flareon.Migrations.Sorter.Edges.{
  IsDependencyGraph, Adds, DependsOn, DependsAt, add_migrations-Adds,
  add_migrations-IsDependencyGraph,
}
use flareon.Migrations.Sorter.Order.{IsSorted, order-IsPermutation, permuted-IsSorted}

-- One of the migrations depends on it; and none of them provides it.
abbrev pub IsNeeded : List Migration → MigrationDependency → Type 0
IsNeeded ms d = (k : ℕ) × (m : Migration) × (get_elem? ms k ≡ some m) × Has d m.dependencies

abbrev pub IsMissing : List Migration → MigrationDependency → Type 0
IsMissing ms d =
    (k : ℕ) (m : Migration) → get_elem? ms k ≡ some m → ¬ Provides m (from_dependency d)

-- The migration at `k` has a dependency that the one at `i` provides.
abbrev pub Precedes : List Migration → ℕ → ℕ → Type 0
Precedes ms i k =
    (d : MigrationDependency) × (m : Migration) × (n : Migration) × (get_elem? ms k ≡ some m)
    × Has d m.dependencies
    × (get_elem? ms i ≡ some n)
    × Provides n (from_dependency d)

-- A cycle of a graph whose edges lead from migrations to those that depend on them.
abbrev pub IsCyclic : List Migration → Type 0
IsCyclic ms = (g : Graph) × HasCycle g × ((i k : ℕ) → HasEdge g i k → Precedes ms i k)

-- What the sorter returns: a sorted order; or an error, and the reason for it; never a panic.
abbrev pub Sorts : List Migration → Result (List Migration) → Type 0
Sorts ms (ok out) = IsSorted ms out
Sorts ms (err cycle) = IsCyclic ms
Sorts ms (err (invalid_dependency d)) = IsNeeded ms d × IsMissing ms d
Sorts ms (err (duplicate_migration app name)) = HasTwice (by_app_and_name app name) (keys_from ms)
Sorts ms (err (duplicate_model app name)) = HasTwice (by_app_and_model app name) (keys_from ms)
Sorts ms panicked = ⊥

module _ (ms : List Migration) where
  sort_graph : Graph → Result (List Migration)
  sort_graph g = do
    sorted_indices ← from_outcome (toposort g)
    permuted ← from_outcome (apply_permutation ms sorted_indices)
    ok permuted.items

  DependsOn-Has :
      (table : LookupTable) (ds : List MigrationDependency) (i : ℕ)
      → DependsOn table ds i
      → (d : MigrationDependency) × Has d ds × (lookup (from_dependency d) table ≡ some i)
  DependsOn-Has table [] i h = absurd h
  DependsOn-Has table (d ∷ ds) i (inl at) = (d, inl refl, at)
  DependsOn-Has table (d ∷ ds) i (inr h) =
      let (c, has, at) = DependsOn-Has table ds i h in (c, inr has, at)

  edge-Precedes :
      (table : LookupTable) (g : Graph)
      → IsTableOf ms table
      → IsDependencyGraph ms table g
      → (i k : ℕ) → HasEdge g i k
      → Precedes ms i k
  edge-Precedes table g is_table dg i k edge =
      let (m, at, on) = dg.of_edge i k edge in
      let (d, has, leads) = DependsOn-Has table m.dependencies i on in
      let (n, there, provides) = is_table (from_dependency d) i leads in
      (d, m, n, at, has, there, provides)

  sort_graph-Sorts :
      (table : LookupTable) (g : Graph)
      → create_lookup_table ms ≡ ok table
      → add_migrations table ms 0 (new (length ms)) ≡ ok g
      → Sorts ms (sort_graph g)
  unfolding sort_graph
  sort_graph-Sorts table g made built =
      let is_table = create_lookup_table-IsTableOf ms table made in
      let dg = add_migrations-IsDependencyGraph ms table g is_table built in
      elim (toposort_total g dg.closed) [
        | inl (xs, e, sort_of) ↦
            let (t, e', size, moved, _) =
              apply_permutation_lem ms xs
                (order-IsPermutation ms table g is_table built xs sort_of) in
            rw (e, e') (permuted-IsSorted ms table g is_table built xs sort_of t.items size moved)
        | inr (e, looped) ↦ rw e (g, looped, λ i k edge. edge-Precedes table g is_table dg i k edge)
      ]

  sort_table : LookupTable → Result (List Migration)
  unfolding sort_graph
  sort_table table = add_migrations table ms 0 (new (length ms)) >>= sort_graph

  all_migrations-Adds :
      (table : LookupTable)
      → create_lookup_table ms ≡ ok table
      → Adds
          (IsNeeded ms)
          table
          (new (length ms))
          (DependsAt table ms 0)
          (add_migrations table ms 0 (new (length ms)))
  all_migrations-Adds table made =
      add_migrations-Adds (IsNeeded ms) ms table (create_lookup_table-IsTableOf ms table made) ms 0
        (new (length ms)) (λ d k m at h. (k, m, at, h)) (length-replicate (length ms) [])

  sort_table-Sorts :
      (table : LookupTable)
      → create_lookup_table ms ≡ ok table
      → (r : Result Graph) → add_migrations table ms 0 (new (length ms)) ≡ r
      → Sorts ms (r >>= sort_graph)
  sort_table-Sorts table made (ok g) e = sort_graph-Sorts table g made e
  sort_table-Sorts table made (err x) e =
      let (d, is, needed, missing) =
        subst (Adds (IsNeeded ms) table (new (length ms)) (DependsAt table ms 0)) e
          (all_migrations-Adds table made) in
      let fills = subst (Fills [] (keys_from ms)) made (create_lookup_table-Fills ms) in
      subst (λ y. Sorts ms (err y)) (sym is)
        (
          needed,
          λ k m at provides.
              let (j, found) =
                (fills (from_dependency d)).0
                  (keys_from-Has ms k m (from_dependency d) at provides) in
              absurd (cc (missing, found)),
        )
  sort_table-Sorts table made panicked e =
      subst (Adds (IsNeeded ms) table (new (length ms)) (DependsAt table ms 0)) e
        (all_migrations-Adds table made)

  table-Sorts : (r : Result LookupTable) → create_lookup_table ms ≡ r → Sorts ms (r >>= sort_table)
  unfolding sort_table
  table-Sorts (ok table) e =
      sort_table-Sorts table e (add_migrations table ms 0 (new (length ms))) refl
  table-Sorts (err cycle) e =
      absurd (subst (Fills [] (keys_from ms)) e (create_lookup_table-Fills ms))
  table-Sorts (err (invalid_dependency d)) e =
      absurd (subst (Fills [] (keys_from ms)) e (create_lookup_table-Fills ms))
  table-Sorts (err (duplicate_migration app name)) e =
      subst (Fills [] (keys_from ms)) e (create_lookup_table-Fills ms)
  table-Sorts (err (duplicate_model app name)) e =
      subst (Fills [] (keys_from ms)) e (create_lookup_table-Fills ms)
  table-Sorts panicked e = subst (Fills [] (keys_from ms)) e (create_lookup_table-Fills ms)

-- The sorter returns the migrations in an order in which a provider of each dependency stands before the
-- migration that has it; or the error of a cycle, and there is a cycle of migrations of which each has a
-- dependency that the one before provides; or
-- the error of a dependency, which one of the migrations has and none of them provides; or the error of a
-- duplicate, whose name two migrations of the app have, or whose model is created twice by the
-- migrations of the app. It never panics.
pub sort_by_graph-Sorts : (ms : List Migration) → Sorts ms (sort_by_graph ms)
unfolding sort_by_graph sort_graph sort_table
sort_by_graph-Sorts ms = table-Sorts ms (create_lookup_table ms) refl
