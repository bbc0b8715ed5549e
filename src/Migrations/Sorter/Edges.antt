-- ===== src/Migrations/Sorter/Edges.antt =====
-- The graph of the dependencies: its edges are those of the migrations' dependencies and no others.
use flareon.Base.{
  ℕ, zero, suc, ◌+◌, ◌≡◌, ◌↔◌, refl, ◌∙◌, subst, List, [], ◌∷◌, none, some, length,
  length-replicate, lookup, Option-cases, ◌⊎◌, inl, inr, get_elem?, get_elem?-lt_length, arith,
}
use flareon.Graph.{Graph, new, vertex_num}
use flareon.Graph.Walks.{HasEdge, IsClosed}
use flareon.Graph.Edges.{add_edge_lem, new-no_edge}
use flareon.Migrations.{Migration, MigrationDependency}
use flareon.Migrations.Sorter.{
  invalid_dependency, Result, ok, err, panicked, ◌>>=◌, from_dependency, MigrationLookup-Eq,
  LookupTable, add_dependencies, add_migrations,
}
use flareon.Migrations.Sorter.Table.{IsTableOf}
use flareon.Migrations.Sorter.Keys.{Has}

-- One of the dependencies leads to `i`.
abbrev pub DependsOn : LookupTable → List MigrationDependency → ℕ → Type 0
DependsOn table [] i = ⊥
DependsOn table (d ∷ ds) i = (lookup (from_dependency d) table ≡ some i) ⊎ DependsOn table ds i

-- The migration at `k`, counted from `index` on, has a dependency that leads to `i`.
abbrev pub DependsAt : LookupTable → List Migration → ℕ → ℕ → ℕ → Type 0
DependsAt table [] index i k = ⊥
DependsAt table (m ∷ ms) index i k =
    ((k ≡ index) × DependsOn table m.dependencies i) ⊎ DependsAt table ms (suc index) i k

-- The graph with further edges, or one of certain dependencies that leads nowhere.
abbrev pub Adds :
    (MigrationDependency → Type 0) → LookupTable → Graph → (ℕ → ℕ → Type 0) → Result Graph → Type 0
Adds among table g more (ok g') =
    (vertex_num g' ≡ vertex_num g) × ((i k : ℕ) → HasEdge g' i k ↔ (HasEdge g i k ⊎ more i k))
Adds among table g more (err e) =
    (d : MigrationDependency) × (e ≡ invalid_dependency d)
    × among d
    × (lookup (from_dependency d) table ≡ none)
Adds among table g more panicked = ⊥

Adds-bind :
    (among : MigrationDependency → Type 0) (table : LookupTable) (g : Graph)
    (first later both : ℕ → ℕ → Type 0) (r : Result Graph) (f : Graph → Result Graph)
    → Adds among table g first r
    → ((g' : Graph) → vertex_num g' ≡ vertex_num g → Adds among table g' later (f g'))
    → ((i k : ℕ) → both i k ↔ (first i k ⊎ later i k))
    → Adds among table g both (r >>= f)
Adds-bind among table g first later both (ok g') f (size, edges) next iff =
    after (f g') (next g' size)
  where
    after : (q : Result Graph) → Adds among table g' later q → Adds among table g both q
    after (ok g'') (size', edges') = (
      size' ∙ size,
      λ i k. (
        λ e. elim ((edges' i k).0 e) [
          | inl old ↦ elim ((edges i k).0 old) [
            | inl oldest ↦ inl oldest
            | inr a ↦ inr ((iff i k).1 (inl a))
          ]
          | inr b ↦ inr ((iff i k).1 (inr b))
        ],
        λ h. elim h [
          | inl oldest ↦ (edges' i k).1 (inl ((edges i k).1 (inl oldest)))
          | inr new ↦ elim ((iff i k).0 new) [
            | inl a ↦ (edges' i k).1 (inl ((edges i k).1 (inr a)))
            | inr b ↦ (edges' i k).1 (inr b)
          ]
        ],
      ),
    )
    after (err e) h = h
    after panicked h = h
Adds-bind among table g first later both (err e) f h next iff = h
Adds-bind among table g first later both panicked f h next iff = h

Adds-nothing :
    (among : MigrationDependency → Type 0) (table : LookupTable) (g : Graph) (more : ℕ → ℕ → Type 0)
    → ((i k : ℕ) → ¬ more i k)
    → Adds among table g more (ok g)
Adds-nothing among table g more empty =
    (refl, λ i k. (inl, λ h. elim h [ inl old ↦ old | inr new ↦ absurd (empty i k new) ]))

module _ (among : MigrationDependency → Type 0) (all : List Migration) (table : LookupTable)
    (is_table : IsTableOf all table) where
  add_dependencies-Adds :
      (ds : List MigrationDependency) (index : ℕ) (g : Graph)
      → ((d : MigrationDependency) → Has d ds → among d)
      → vertex_num g ≡ length all
      → Adds among table g
          (λ i k. (k ≡ index) × DependsOn table ds i)
          (add_dependencies table ds index g)
  unfolding add_dependencies
  add_dependencies-Adds [] index g sub size = Adds-nothing among table g _ (λ i k h. h.1)
  add_dependencies-Adds (d ∷ ds) index g sub size =
      elim (Option-cases (lookup (from_dependency d) table)) [
        | inl missing ↦ rw (missing, add_dependencies) (d, refl, sub d (inl refl), missing)
        | inr (j, at) ↦
            let (m, there, _) = is_table (from_dependency d) j at in
            let (g', added, x) =
              add_edge_lem j index g (omega (arith, get_elem?-lt_length all j there)) in
            rw (at, add_dependencies, added)
              (Adds-bind among table g (λ i k. (i ≡ j) × (k ≡ index))
                (λ i k. (k ≡ index) × DependsOn table ds i) _ (ok g')
                (add_dependencies table ds index) (x.size, x.edges)
                (λ h hs. add_dependencies-Adds ds index h (λ x i. sub x (inr i)) (hs ∙ size))
                (λ i k. (
                  λ (c, b). elim b [
                    | inl here ↦ inl (ground arith, c)
                    | inr later ↦ inr (c, later)
                  ],
                  λ b. elim b [
                    | inl (c, c') ↦ (c', inl (ground arith))
                    | inr (c, later) ↦ (c, inr later)
                  ],
                )))
      ]

  pub add_migrations-Adds :
      (ms : List Migration) (index : ℕ) (g : Graph)
      → ((d : MigrationDependency) (k : ℕ) (m : Migration)
          → get_elem? ms k ≡ some m
          → Has d m.dependencies
          → among d)
      → vertex_num g ≡ length all
      → Adds among table g (DependsAt table ms index) (add_migrations table ms index g)
  unfolding add_migrations
  add_migrations-Adds [] index g sub size = Adds-nothing among table g _ (λ i k h. h)
  add_migrations-Adds (m ∷ ms) index g sub size =
      Adds-bind among table g (λ i k. (k ≡ index) × DependsOn table m.dependencies i)
        (DependsAt table ms (suc index)) _ (add_dependencies table m.dependencies index g)
        (add_migrations table ms (suc index))
        (add_dependencies-Adds m.dependencies index g (λ d h. sub d 0 m refl h) size)
        (λ g' e.
          add_migrations-Adds ms (suc index) g' (λ d k n at h. sub d (suc k) n at h) (e ∙ size))
        (λ i k. (λ h. h, λ h. h))

-- A dependency edge ends at a migration that has it.
DependsAt-at :
    (table : LookupTable) (ms : List Migration) (index i k : ℕ)
    → DependsAt table ms index i k
    → (j : ℕ) × (m : Migration) × (k ≡ index + j)
      × (get_elem? ms j ≡ some m)
      × DependsOn table m.dependencies i
DependsAt-at table [] index i k h = absurd h
DependsAt-at table (m ∷ ms) index i k (inl (e, d)) = (0, m, omega arith, refl, d)
DependsAt-at table (m ∷ ms) index i k (inr h) =
    let (j, n, e, at, d) = DependsAt-at table ms (suc index) i k h in (suc j, n, omega arith, at, d)

DependsAt-of :
    (table : LookupTable) (ms : List Migration) (index i j : ℕ) (m : Migration)
    → get_elem? ms j ≡ some m
    → DependsOn table m.dependencies i
    → DependsAt table ms index i (index + j)
DependsAt-of table [] index i j m at d = cc
DependsAt-of table (n ∷ ms) index i zero m at d =
    let same : m ≡ n = cc in
    inl (omega arith, subst (λ (x : Migration). DependsOn table x.dependencies i) same d)
DependsAt-of table (n ∷ ms) index i (suc j) m at d = inr (
    subst (DependsAt table ms (suc index) i) (omega arith)
      (DependsAt-of table ms (suc index) i j m at d))

-- The dependency graph of a table: an edge from the migration that a dependency leads to, to the
-- migration that has it.
pub record IsDependencyGraph (ms : List Migration) (table : LookupTable) (g : Graph) : Type 0 where
  pub size : vertex_num g ≡ length ms
  pub closed : IsClosed g
  pub edge_of :
      (i k : ℕ) (m : Migration)
      → get_elem? ms k ≡ some m
      → DependsOn table m.dependencies i
      → HasEdge g i k
  pub of_edge :
      (i k : ℕ)
      → HasEdge g i k
      → (m : Migration) × (get_elem? ms k ≡ some m) × DependsOn table m.dependencies i

pub add_migrations-IsDependencyGraph :
    (ms : List Migration) (table : LookupTable) (g : Graph)
    → IsTableOf ms table
    → add_migrations table ms 0 (new (length ms)) ≡ ok g
    → IsDependencyGraph ms table g
add_migrations-IsDependencyGraph ms table g is_table e =
    let (size, edges) = subst (Adds (λ d. Unit) table (new (length ms)) (DependsAt table ms 0)) e (
      add_migrations-Adds (λ d. Unit) ms table is_table ms 0 (new (length ms)) (λ d k m at h. tt)
        (length-replicate (length ms) [])) in
    let all_edges : (i k : ℕ)
        → HasEdge g i k
        → (m : Migration) × (get_elem? ms k ≡ some m) × DependsOn table m.dependencies i =
      (λ i k h. elim ((edges i k).0 h) [
        | inl old ↦ absurd (new-no_edge (length ms) i k old)
        | inr d ↦
            let (j, m, is, at, on) = DependsAt-at table ms 0 i k d in
            (m, subst (λ x. get_elem? ms x ≡ some m) (omega arith) at, on)
      ]) in
    let sized : vertex_num g ≡ length ms = size ∙ length-replicate (length ms) [] in
    record {
      size = sized;
      closed =
          λ i k h. let (m, at, _) = all_edges i k h in omega (arith, get_elem?-lt_length ms k at);
      edge_of = λ i k m at on. (edges i k).1 (
          inr (subst (DependsAt table ms 0 i) (omega arith) (DependsAt-of table ms 0 i k m at on)));
      of_edge = all_edges;
    }
