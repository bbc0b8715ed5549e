-- ===== src/Generator/Cycles/Unbroken.antt =====
-- Cycles that `remove_cycles` does not remove: it looks for the foreign keys in the operation that
-- an edge comes from, and the key that makes the edge is in the one that it leads to.
use flareon.Base.{
  ℕ, zero, suc, ◌≡◌, refl, sym, ◌∙◌, ap, subst, List, [], ◌∷◌, ◌++◌, some, Bool, true, false, ◌&&◌,
  Option-cases, ◌⊎◌, inl, inr, Text, text_eq_iff, mem_text, get_elem?, set, All, All-weaken, arith,
}
use mathlib.Core.List.{Memᴰ, append-nil}
use flareon.Graph.{done, panic, Graph}
use flareon.Graph.Walks.{HasEdge, HasCycle, All-get_elem?}
use flareon.Permutation.{index}
use flareon.Generator.{Field, DynOperation, create_model, add_field, DynDependency, ModelInSource}
use flareon.Generator.Cycles.{
  Petgraph, fields_to_remove, fields_to_retain, remove_dependency, foreign_types, types_of,
  remove_edges, construct_dependency_graph, remove_cycles, toposort_operations, new_migration,
}
use flareon.Generator.Cycles.Edges.{
  Creates, get_create_ops_map-some, IsGraphOf, construct_dependency_graph_lem,
}
use flareon.Generator.Cycles.Order.{SortsGraphs}

-- What the crate documents of `greedy_feedback_arc_set`: it returns edges of the graph.
pub record FindsArcs (pg : Petgraph) : Type 0 where
  pub arcs : (g : Graph) → All (λ e. HasEdge g e.0 e.1) (pg.greedy_feedback_arc_set g)

-- The operation `p` refers to the model that `q` creates.
abbrev pub refers_to : DynOperation → DynOperation → Bool
refers_to p (create_model _ model_ty _) = mem_text model_ty (types_of p)
refers_to p (add_field _ _ _) = false

-- No two operations refer to each other, and none to itself.
abbrev pub IsOneWay : List DynOperation → Type 0
IsOneWay ops = All (λ p. All (λ q. (refers_to p q && refers_to q p) ≡ false) ops) ops

no_field-removed :
    (ty : Text) (fs : List Field)
    → mem_text ty (foreign_types fs) ≡ false
    → fields_to_remove ty fs ≡ []
unfolding fields_to_remove foreign_types
no_field-removed ty [] h = refl
no_field-removed ty (f ∷ fs) h = ground (arith, no_field-removed ty fs)

all_fields-retained :
    (ty : Text) (fs : List Field)
    → mem_text ty (foreign_types fs) ≡ false
    → fields_to_retain ty fs ≡ fs
unfolding fields_to_retain foreign_types
all_fields-retained ty [] h = refl
all_fields-retained ty (f ∷ fs) h = ground (arith, all_fields-retained ty fs)

set_same :
    (ops : List DynOperation) (i : ℕ) (op : DynOperation)
    → get_elem? ops i ≡ some op
    → set ops i op ≡ ops
set_same [] i op at = refl
set_same (o ∷ ops) zero op at = cc
set_same (o ∷ ops) (suc i) op at = ap (λ l. o ∷ l) (set_same ops i op at)

-- Where `from` has no key to the model of `to`, nothing is removed, or the call panics.
nothing-removed :
    (from to : DynOperation)
    → refers_to from to ≡ false
    → (remove_dependency from to ≡ done (from, [])) ⊎ (remove_dependency from to ≡ panic)
unfolding remove_dependency
nothing-removed (create_model t ty fs) (create_model t2 ty2 fs2) h =
    inl (rw (no_field-removed ty2 fs h, all_fields-retained ty2 fs h) refl)
nothing-removed (create_model t ty fs) (add_field t2 ty2 f2) h = inr refl
nothing-removed (add_field t ty f) to h = inr refl

remove_edges-idle :
    (es : List (ℕ × ℕ)) (ops : List DynOperation)
    → All
        (λ e.
          (p q : DynOperation)
          → get_elem? ops e.0 ≡ some p
          → get_elem? ops e.1 ≡ some q
          → refers_to p q ≡ false)
        es
    → (remove_edges es ops ≡ done ops) ⊎ (remove_edges es ops ≡ panic)
unfolding remove_edges
remove_edges-idle [] ops h = inl refl
remove_edges-idle ((from, to) ∷ es) ops (h, hs) = elim (Option-cases (get_elem? ops to)) [
  | inl out ↦ inr (rw (out, index) refl)
  | inr (q, at_to) ↦ elim (Option-cases (get_elem? ops from)) [
    | inl out ↦ inr (rw (at_to, index, out) refl)
    | inr (p, at_from) ↦ elim (nothing-removed p q (h p q at_from at_to)) [
      | inr stopped ↦ inr (rw (at_to, at_from, index, stopped) refl)
      | inl idle ↦
          let same : set ops from p ++ [] ≡ ops =
            append-nil (set ops from p) ∙ set_same ops from p at_from in
          rw (at_to, at_from, index, idle, same) (remove_edges-idle es ops hs)
    ]
  ]
]

Memᴰ-mem_text : (ty : Text) (tys : List Text) → Memᴰ ty tys → mem_text ty tys ≡ true
Memᴰ-mem_text ty [] m = elim m [ ]
Memᴰ-mem_text ty (t ∷ tys) (Memᴰ.head e) = ground (arith, text_eq_iff t ty)
Memᴰ-mem_text ty (t ∷ tys) (Memᴰ.tail m) = ground (arith, Memᴰ-mem_text ty tys m)

Creates-refers_to :
    (ty : Text) (p q : DynOperation) → Creates ty p → Memᴰ ty (types_of q) → refers_to q p ≡ true
Creates-refers_to ty (create_model t model_ty fs) q made listed =
    Memᴰ-mem_text model_ty (types_of q) (subst (λ x. Memᴰ x (types_of q)) (sym made) listed)
Creates-refers_to ty (add_field t model_ty f) q made listed = absurd made

-- The operation that an edge comes from does not refer to the one that it leads to.
edge-one_way :
    (ops : List DynOperation) (g : Graph) (j k : ℕ) (p q : DynOperation)
    → IsGraphOf ops g
    → IsOneWay ops
    → HasEdge g j k
    → get_elem? ops j ≡ some p
    → get_elem? ops k ≡ some q
    → refers_to p q ≡ false
edge-one_way ops g j k p q graph one_way link at_j at_k =
    let (q', there, (ty, listed, leads)) = (graph.edges j k).0 link in
    let (p', here, made) = get_create_ops_map-some ops ty j leads in
    let same_q : q' ≡ q = cc in
    let same_p : p' ≡ p = cc in
    let back =
      Creates-refers_to ty p q (subst (Creates ty) same_p made)
        (subst (λ x. Memᴰ ty (types_of x)) same_q listed) in
    let row =
      All-get_elem? (λ x. All (λ y. (refers_to x y && refers_to y x) ≡ false) ops) ops k q one_way
        at_k in
    let cell = All-get_elem? (λ y. (refers_to q y && refers_to y q) ≡ false) ops j p row at_j in
    ground arith

-- Where operations refer to one another in a cycle, but no two to each other, a migration of them
-- is not generated: `GeneratedMigration::new` panics.
pub new_migration-panics :
    (pg : Petgraph) (name : Text) (models : List ModelInSource) (dependencies : List DynDependency)
    (ops : List DynOperation) (g : Graph)
    → FindsArcs pg
    → SortsGraphs pg
    → IsOneWay ops
    → construct_dependency_graph ops ≡ done g
    → HasCycle g
    → new_migration pg name models dependencies ops ≡ panic
unfolding new_migration remove_cycles toposort_operations
new_migration-panics pg name models dependencies ops g finds sorts one_way built looped =
    let (g', built', graph') = construct_dependency_graph_lem ops in
    let same : g' ≡ g = cc in
    let graph : IsGraphOf ops g = subst (IsGraphOf ops) same graph' in
    let idle = remove_edges-idle (pg.greedy_feedback_arc_set g) ops (
      All-weaken _ _ (pg.greedy_feedback_arc_set g)
        (λ e link p q at_p at_q. edge-one_way ops g e.0 e.1 p q graph one_way link at_p at_q)
        (finds.arcs g)) in
    let stuck = sorts.complete g graph.closed looped in
    elim idle [
      | inl kept ↦ rw (built, kept, built, stuck) refl
      | inr stopped ↦ rw (built, stopped) refl
    ]
