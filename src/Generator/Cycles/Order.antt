-- ===== src/Generator/Cycles/Order.antt =====
-- The order of the operations of a generated migration, and its dependencies.
use flareon.Base.{
  ℕ, zero, suc, ◌<◌, ◌≡◌, ◌≢◌, sym, ◌∙◌, ap, subst, List, [], ◌∷◌, ◌++◌, map, Option, none, some,
  Option-cases, ◌⊎◌, inl, inr, Text, Text-Eq, text_eq_iff, lookup, insert, lookup-insert, get_elem?,
  get_elem?-lt_length, get_elem?_of_lt, get_elem?_of_mem, length, Memᴰ-append, arith,
}
use mathlib.Core.List.{Memᴰ}
use flareon.Graph.{done, Graph}
use flareon.Graph.Walks.{HasEdge, HasCycle, IsClosed}
use flareon.Graph.Toposort.{IsSortOf}
use flareon.Permutation.{apply_permutation}
use flareon.Permutation.Laws.{gather, apply_permutation_lem}
use flareon.Permutation.Sorted.{source-before, IsPermutation-of_IsSortOf, gather-eq}
use flareon.Generator.{DynOperation, create_model, add_field, DynDependency, model, ModelInSource}
use flareon.Generator.Cycles.{
  Petgraph, create_ops_from, get_create_ops_map, types_of, foreign_keys_from,
  get_ops_adding_foreign_keys, construct_dependency_graph, foreign_dependencies,
  get_foreign_key_dependencies, expect_order, remove_cycles, toposort_operations,
  GeneratedMigration, new_migration,
}
use flareon.Generator.Cycles.Edges.{
  Creates, get_create_ops_map-some, IsGraphOf, construct_dependency_graph_lem,
}
use flareon.Generator.Cycles.Columns.{>>=-eq-done}

-- What the crate documents of `toposort`: it returns a topological order of all nodes, or an error
-- where the graph has a cycle.
pub record SortsGraphs (pg : Petgraph) : Type 0 where
  pub sound : (g : Graph) (xs : List ℕ) → IsClosed g → pg.toposort g ≡ some xs → IsSortOf g xs
  pub complete : (g : Graph) → IsClosed g → HasCycle g → pg.toposort g ≡ none

insert-keeps :
    (ty t : Text) (i : ℕ) (m : List (Text × ℕ))
    → lookup ty m ≢ none
    → lookup ty (insert t i m) ≢ none
insert-keeps ty t i m h e = h (ground (arith, lookup-insert t ty i m))

create_ops_from-keeps :
    (ops : List DynOperation) (i : ℕ) (m : List (Text × ℕ)) (ty : Text)
    → lookup ty m ≢ none
    → lookup ty (create_ops_from ops i m) ≢ none
unfolding create_ops_from
create_ops_from-keeps [] i m ty h = h
create_ops_from-keeps (add_field t y f ∷ ops) i m ty h = create_ops_from-keeps ops (suc i) m ty h
create_ops_from-keeps (create_model t y fs ∷ ops) i m ty h =
    create_ops_from-keeps ops (suc i) (insert y i m) ty (insert-keeps ty y i m h)

create_ops_from-ne-none :
    (ops : List DynOperation) (i : ℕ) (m : List (Text × ℕ)) (ty : Text) (d : ℕ) (op : DynOperation)
    → get_elem? ops d ≡ some op
    → Creates ty op
    → lookup ty (create_ops_from ops i m) ≢ none
unfolding create_ops_from
create_ops_from-ne-none [] i m ty d op at made = cc
create_ops_from-ne-none (add_field t y f ∷ ops) i m ty zero op at made =
    let same : op ≡ add_field t y f = cc in absurd (subst (Creates ty) same made)
create_ops_from-ne-none (add_field t y f ∷ ops) i m ty (suc d) op at made =
    create_ops_from-ne-none ops (suc i) m ty d op at made
create_ops_from-ne-none (create_model t y fs ∷ ops) i m ty zero op at made =
    let same : op ≡ create_model t y fs = cc in
    let is : y ≡ ty = subst (Creates ty) same made in
    create_ops_from-keeps ops (suc i) (insert y i m) ty
      (λ e. ground (arith, lookup-insert y ty i m, text_eq_iff y ty))
create_ops_from-ne-none (create_model t y fs ∷ ops) i m ty (suc d) op at made =
    create_ops_from-ne-none ops (suc i) (insert y i m) ty d op at made

foreign_dependencies-mem :
    (m : List (Text × ℕ)) (list : List (ℕ × Text)) (i : ℕ) (ty : Text)
    → Memᴰ {A = ℕ × Text} (i, ty) list
    → lookup ty m ≡ none
    → Memᴰ (model ty) (foreign_dependencies m list)
unfolding foreign_dependencies
foreign_dependencies-mem m [] i ty listed e = elim listed [ ]
foreign_dependencies-mem m ((k, t) ∷ rest) i ty (Memᴰ.head same) e =
    let is : ty ≡ t = ap (λ x. x.1) same in
    let e' : lookup t m ≡ none = subst (λ x. lookup x m ≡ none) is e in
    rw (e', foreign_dependencies) (Memᴰ.head (ap model is))
foreign_dependencies-mem m ((k, t) ∷ rest) i ty (Memᴰ.tail later) e =
    elim (Option-cases (lookup t m)) [
      | inl missing ↦
          rw (missing, foreign_dependencies)
            (Memᴰ.tail (foreign_dependencies-mem m rest i ty later e))
      | inr (j, found) ↦
          rw (found, foreign_dependencies) (foreign_dependencies-mem m rest i ty later e)
    ]

Memᴰ-pairs :
    (i : ℕ) (ty : Text) (tys : List Text)
    → Memᴰ ty tys
    → Memᴰ {A = ℕ × Text} (i, ty) (map (λ t. (i, t)) tys)
Memᴰ-pairs i ty [] m = elim m [ ]
Memᴰ-pairs i ty (t ∷ tys) (Memᴰ.head e) = Memᴰ.head (ap (λ x. (i, x)) e)
Memᴰ-pairs i ty (t ∷ tys) (Memᴰ.tail m) = Memᴰ.tail (Memᴰ-pairs i ty tys m)

foreign_keys_from-mem :
    (ops : List DynOperation) (i d : ℕ) (op : DynOperation) (ty : Text)
    → get_elem? ops d ≡ some op
    → Memᴰ ty (types_of op)
    → (k : ℕ) × Memᴰ {A = ℕ × Text} (k, ty) (foreign_keys_from ops i)
unfolding foreign_keys_from
foreign_keys_from-mem [] i d op ty at listed = cc
foreign_keys_from-mem (o ∷ ops) i zero op ty at listed =
    let same : op ≡ o = cc in
    (
      i,
      Memᴰ-append (i, ty) (map (λ t. (i, t)) (types_of o)) (foreign_keys_from ops (suc i))
          (inl (Memᴰ-pairs i ty (types_of o) (subst (λ x. Memᴰ ty (types_of x)) same listed))),
    )
foreign_keys_from-mem (o ∷ ops) i (suc d) op ty at listed =
    let (k, m) = foreign_keys_from-mem ops (suc i) d op ty at listed in
    (
      k,
      Memᴰ-append (k, ty) (map (λ t. (i, t)) (types_of o)) (foreign_keys_from ops (suc i)) (inr m),
    )

-- Each model that an operation refers to is created by an earlier one, or is among the dependencies.
abbrev pub IsOrdered : List DynOperation → List DynDependency → Type 0
IsOrdered ops dependencies =
    (k : ℕ) (op : DynOperation) (ty : Text)
    → get_elem? ops k ≡ some op
    → Memᴰ ty (types_of op)
    → ((j : ℕ) × (p : DynOperation) × (j < k) × (get_elem? ops j ≡ some p) × Creates ty p)
      ⊎ Memᴰ (model ty) dependencies

-- The order in which the operations come out, and where each came from.
record IsReordered (ops out : List DynOperation) (m : List (Text × ℕ)) : Type 0 where
  origin :
      (k : ℕ) (op : DynOperation)
      → get_elem? out k ≡ some op
      → (v : ℕ) × (get_elem? ops v ≡ some op)
  before :
      (k : ℕ) (op : DynOperation) (ty : Text) (i : ℕ)
      → get_elem? out k ≡ some op
      → Memᴰ ty (types_of op)
      → lookup ty m ≡ some i
      → (j : ℕ) × (p : DynOperation) × (j < k) × (get_elem? out j ≡ some p) × Creates ty p
  complete :
      (v : ℕ) (op : DynOperation)
      → get_elem? ops v ≡ some op
      → (k : ℕ) × (get_elem? out k ≡ some op)

module _ (ops out : List DynOperation) (g : Graph) (xs : List ℕ) (graph : IsGraphOf ops g)
    (sort_of : IsSortOf g xs) (size : length out ≡ length ops)
    (moved : (k : ℕ) → k < length ops → get_elem? out k ≡ gather ops xs k) where
  origin_of :
      (k : ℕ) (op : DynOperation)
      → get_elem? out k ≡ some op
      → (v : ℕ) × (get_elem? xs k ≡ some v) × (get_elem? ops v ≡ some op)
  origin_of k op at =
      let (v, at_k) =
        get_elem?_of_lt xs k
          (omega (arith, get_elem?-lt_length out k at, size, sort_of.size, graph.size)) in
      (
        v,
        at_k,
        sym (gather-eq ops xs k v at_k)
            ∙ sym (moved k (omega (arith, get_elem?-lt_length out k at, size)))
            ∙ at,
      )

  lands :
      (k v : ℕ) (op : DynOperation)
      → get_elem? xs k ≡ some v
      → get_elem? ops v ≡ some op
      → get_elem? out k ≡ some op
  lands k v op at there =
      moved k (omega (arith, get_elem?-lt_length xs k at, sort_of.size, graph.size))
      ∙ gather-eq ops xs k v at
      ∙ there

  reordered : IsReordered ops out (get_create_ops_map ops)
  reordered = record {
    origin = λ k op at. let (v, _, there) = origin_of k op at in (v, there);
    before = λ k op ty i at listed leads.
        let (v, at_k, there) = origin_of k op at in
        let link : HasEdge g i v = (graph.edges i v).1 (op, there, (ty, listed, leads)) in
        let (p, at_i, made) = get_create_ops_map-some ops ty i leads in
        let (j, lt, at_j) =
          source-before g xs i v k sort_of.sorted link
            ((sort_of.complete i).1 (omega (arith, get_elem?-lt_length ops i at_i, graph.size)))
            at_k in
        (j, p, lt, lands j i p at_j at_i, made);
    complete = λ v op there.
        let (k, at_k) =
          get_elem?_of_mem xs v
            ((sort_of.complete v).1 (omega (arith, get_elem?-lt_length ops v there, graph.size))) in
        (k, lands k v op at_k there);
  }

expect_some : (o : Option (List ℕ)) (ys : List ℕ) → expect_order o ≡ done ys → o ≡ some ys
expect_some none ys q = cc
expect_some (some zs) ys q = ground arith

toposort_operations-IsReordered :
    (pg : Petgraph) (ops out : List DynOperation)
    → SortsGraphs pg
    → toposort_operations pg ops ≡ done out
    → IsReordered ops out (get_create_ops_map ops)
unfolding toposort_operations
toposort_operations-IsReordered pg ops out sorts e =
    let (g, built, graph) = construct_dependency_graph_lem ops in
    let (g', built', e1) = >>=-eq-done (construct_dependency_graph ops) _ out e in
    let same : g' ≡ g = cc in
    let (xs, expected, e2) = >>=-eq-done (expect_order (pg.toposort g')) _ out e1 in
    let (t, permuted, e3) = >>=-eq-done (apply_permutation ops xs) _ out e2 in
    let s =
      sorts.sound g xs graph.closed
        (subst (λ x. pg.toposort x ≡ some xs) same (expect_some (pg.toposort g') xs expected)) in
    let (t', permuted', size, moved, _) =
      apply_permutation_lem ops xs (IsPermutation-of_IsSortOf g xs (length ops) s graph.size) in
    let items : t'.items ≡ out = ground arith in
    subst (λ l. IsReordered ops l (get_create_ops_map ops)) items
      (reordered ops t'.items g xs graph s size moved)

-- The dependencies of the operations that come out.
IsOrdered-of_IsReordered :
    (ops out : List DynOperation)
    → IsReordered ops out (get_create_ops_map ops)
    → IsOrdered out (get_foreign_key_dependencies out)
unfolding get_foreign_key_dependencies get_ops_adding_foreign_keys get_create_ops_map
IsOrdered-of_IsReordered ops out r k op ty at listed =
    elim (Option-cases (lookup ty (get_create_ops_map out))) [
      | inl missing ↦
          let (i, m) = foreign_keys_from-mem out 0 k op ty at listed in
          inr (
            foreign_dependencies-mem (get_create_ops_map out) (foreign_keys_from out 0) i ty m
              missing)
      | inr (d, found) ↦
          let (p, there, made) = get_create_ops_map-some out ty d found in
          let (v, from) = r.origin d p there in
          elim (Option-cases (lookup ty (get_create_ops_map ops))) [
            | inl missing ↦ absurd (create_ops_from-ne-none ops 0 [] ty v p from made missing)
            | inr (i, leads) ↦ inl (r.before k op ty i at listed leads)
          ]
    ]

-- Where `GeneratedMigration::new` does not panic, each model that an operation of the migration
-- refers to is created by an earlier operation, or is among the dependencies of the migration.
pub new_migration-IsOrdered :
    (pg : Petgraph) (name : Text) (models : List ModelInSource) (dependencies : List DynDependency)
    (ops : List DynOperation) (g : GeneratedMigration)
    → SortsGraphs pg
    → new_migration pg name models dependencies ops ≡ done g
    → IsOrdered g.operations g.dependencies
unfolding new_migration
new_migration-IsOrdered pg name models dependencies ops g sorts e k op ty at listed =
    let (acyclic, removed, e1) = >>=-eq-done (remove_cycles pg ops) _ g e in
    let (sorted, ordered, e2) = >>=-eq-done (toposort_operations pg acyclic) _ g e1 in
    let same : g.operations ≡ sorted = ground arith in
    let deps : g.dependencies ≡ dependencies ++ get_foreign_key_dependencies sorted =
      ground arith in
    let r = toposort_operations-IsReordered pg acyclic sorted sorts ordered in
    elim (IsOrdered-of_IsReordered acyclic sorted r k op ty
      (subst (λ l. get_elem? l k ≡ some op) same at) listed) [
        | inl (j, p, lt, there, made) ↦
            inl (j, p, lt, subst (λ l. get_elem? l j ≡ some p) (sym same) there, made)
        | inr m ↦ inr (
            subst (Memᴰ (model ty)) (sym deps)
              (Memᴰ-append (model ty) dependencies (get_foreign_key_dependencies sorted) (inr m)))
      ]
