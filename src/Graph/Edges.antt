-- ===== src/Graph/Edges.antt =====
-- What `add_edge` adds to a graph.
use flareon.Base.{
  ℕ, ◌<◌, ◌≡◌, ◌↔◌, List, [], ◌∷◌, ◌++◌, some, true, ◌⊎◌, inl, inr, length-set, get_elem?,
  get_elem?-set, get_elem?_of_lt, get_elem?-replicate, set, mem, mem-append, Bool-cases, ==_iff,
  ◌==◌, arith, subst,
}
use flareon.Graph.{done, Graph, new, vertex_num, add_edge}
use flareon.Graph.Walks.{HasEdge}

-- `g` with the edge from `from` to `to`.
pub record IsExtended (g : Graph) (from to : ℕ) (g' : Graph) : Type 0 where
  pub size : vertex_num g' ≡ vertex_num g
  pub edges : (i k : ℕ) → HasEdge g' i k ↔ (HasEdge g i k ⊎ (i ≡ from) × (k ≡ to))

module _ (g : Graph) (from to : ℕ) (targets : List ℕ)
    (found : get_elem? g.vertex_edges from ≡ some targets) (lt : from < vertex_num g) where
  abbrev extended : Graph
  extended = record g { vertex_edges = set g.vertex_edges from (targets ++ to ∷ []) }

  extended-to : (i k : ℕ) → HasEdge extended i k → HasEdge g i k ⊎ (i ≡ from) × (k ≡ to)
  extended-to i k (ts, at, m) = elim (Bool-cases (from == i)) [
    | inl same ↦
        let here : some ts ≡ some (targets ++ to ∷ []) =
          ground (arith, get_elem?-set g.vertex_edges from i (targets ++ to ∷ []) lt) in
        let m' : mem k (targets ++ to ∷ []) ≡ true = ground (arith) in
        elim (Bool-cases (mem k targets)) [
          | inl old ↦ inl (
            targets,
            subst (λ j. get_elem? g.vertex_edges j ≡ some targets) ((==_iff from i).0 same) found,
            old,
          )
          | inr new ↦ inr (ground arith, ground (arith, mem-append k targets (to ∷ [])))
        ]
    | inr other ↦
        inl (ts, ground (arith, get_elem?-set g.vertex_edges from i (targets ++ to ∷ []) lt), m)
  ]

  extended-from : (i k : ℕ) → HasEdge g i k ⊎ (i ≡ from) × (k ≡ to) → HasEdge extended i k
  extended-from i k (inl (ts, at, m)) = elim (Bool-cases (from == i)) [
    | inl same ↦ (
      targets ++ to ∷ [],
      ground (arith, get_elem?-set g.vertex_edges from i (targets ++ to ∷ []) lt),
      let e : some ts ≡ some targets = ground (arith) in
          ground (arith, mem-append k targets (to ∷ [])),
    )
    | inr other ↦
        (ts, ground (arith, get_elem?-set g.vertex_edges from i (targets ++ to ∷ []) lt), m)
  ]
  extended-from i k (inr (e, f)) = (
    targets ++ to ∷ [],
    ground (arith, get_elem?-set g.vertex_edges from i (targets ++ to ∷ []) lt),
    ground (arith, mem-append k targets (to ∷ [])),
  )

-- From a vertex, `add_edge` adds that edge and no other; the vertices stay.
pub add_edge_lem :
    (from to : ℕ) (g : Graph)
    → from < vertex_num g
    → (g' : Graph) × (add_edge from to g ≡ done g') × IsExtended g from to g'
unfolding add_edge
add_edge_lem from to g lt =
    let (targets, found) = get_elem?_of_lt g.vertex_edges from lt in
    (
      extended g from to targets found lt,
      rw (found, add_edge),
      record {
        size = length-set g.vertex_edges from (targets ++ to ∷ []);
        edges = λ i k. (
          extended-to g from to targets found lt i k,
          extended-from g from to targets found lt i k,
        );
      },
    )

pub new-no_edge : (n i k : ℕ) → ¬ HasEdge (new n) i k
new-no_edge n i k (ts, at, m) = cc (get_elem?-replicate n i [] ts at)
