-- ===== src/Generator/Cycles/Edges.antt =====
-- The graph of the operations: an edge from the operation that creates a model to each operation
-- that refers to it, and no others.
use flareon.Base.{
  ℕ, zero, suc, ◌+◌, ◌<◌, ◌≡◌, ◌↔◌, refl, sym, ◌∙◌, ap, subst, List, [], ◌∷◌, ◌++◌, map, Option,
  some, Bool-cases, Option-cases, ◌⊎◌, inl, inr, Text, Text-Eq, text_eq, text_eq_iff, lookup,
  insert, lookup-insert, get_elem?, get_elem?-lt_length, length, length-replicate, arith,
}
use mathlib.Core.List.{Memᴰ}
use flareon.Graph.{done, Graph, new, vertex_num}
use flareon.Graph.Walks.{HasEdge, IsClosed}
use flareon.Graph.Edges.{add_edge_lem, new-no_edge}
use flareon.Generator.{DynOperation, create_model, add_field}
use flareon.Generator.Cycles.{
  create_ops_from, get_create_ops_map, types_of, foreign_keys_from, get_ops_adding_foreign_keys,
  add_edges, construct_dependency_graph,
}

abbrev pub Creates : Text → DynOperation → Type 0
Creates ty (create_model _ model_ty _) = model_ty ≡ ty
Creates ty (add_field _ _ _) = ⊥

create_ops_from-some :
    (ops : List DynOperation) (i : ℕ) (m : List (Text × ℕ)) (ty : Text) (j : ℕ)
    → lookup ty (create_ops_from ops i m) ≡ some j
    → (lookup ty m ≡ some j)
      ⊎ ((d : ℕ) × (op : DynOperation) × (j ≡ i + d) × (get_elem? ops d ≡ some op) × Creates ty op)
unfolding create_ops_from
create_ops_from-some [] i m ty j e = inl e
create_ops_from-some (add_field t y f ∷ ops) i m ty j e =
    elim (create_ops_from-some ops (suc i) m ty j e) [
      | inl old ↦ inl old
      | inr (d, op, at, there, made) ↦ inr (suc d, op, omega arith, there, made)
    ]
create_ops_from-some (create_model t y fs ∷ ops) i m ty j e =
    elim (create_ops_from-some ops (suc i) (insert y i m) ty j e) [
      | inl old ↦ elim (Bool-cases (text_eq y ty)) [
        | inl same ↦ inr (
          0,
          create_model t y fs,
          ground (arith, lookup-insert y ty i m),
          refl,
          (text_eq_iff y ty).0 same,
        )
        | inr other ↦ inl (ground (arith, lookup-insert y ty i m))
      ]
      | inr (d, op, at, there, made) ↦ inr (suc d, op, omega arith, there, made)
    ]

no_entry : (ty : Text) (j : ℕ) → ¬ (◌≡◌ {A = Option ℕ} (lookup ty []) (some j))
unfolding lookup
no_entry ty j e = cc

-- The position of a type is that of an operation that creates its model.
pub get_create_ops_map-some :
    (ops : List DynOperation) (ty : Text) (j : ℕ)
    → lookup ty (get_create_ops_map ops) ≡ some j
    → (op : DynOperation) × (get_elem? ops j ≡ some op) × Creates ty op
unfolding get_create_ops_map
get_create_ops_map-some ops ty j e = elim (create_ops_from-some ops 0 [] ty j e) [
  | inl old ↦ absurd (no_entry ty j old)
  | inr (d, op, at, there, made) ↦
      (op, subst (λ k. get_elem? ops k ≡ some op) (omega arith) there, made)
]

abbrev Links : List (Text × ℕ) → List (ℕ × Text) → ℕ → ℕ → Type 0
Links m [] j k = ⊥
Links m ((i, ty) ∷ rest) j k = ((k ≡ i) × (lookup ty m ≡ some j)) ⊎ Links m rest j k

abbrev Linked : List (Text × ℕ) → List (ℕ × Text) → Graph → Graph → Type 0
Linked m list g g' =
    (vertex_num g' ≡ vertex_num g)
    × ((j k : ℕ) → HasEdge g' j k ↔ (HasEdge g j k ⊎ Links m list j k))

add_edges_lem :
    (m : List (Text × ℕ)) (list : List (ℕ × Text)) (g : Graph)
    → ((ty : Text) (j : ℕ) → lookup ty m ≡ some j → j < vertex_num g)
    → (g' : Graph) × (add_edges m list g ≡ done g') × Linked m list g g'
unfolding add_edges
add_edges_lem m [] g inside =
    (g, refl, (refl, λ j k. (inl, λ h. elim h [ inl old ↦ old | inr l ↦ absurd l ])))
add_edges_lem m ((i, ty) ∷ rest) g inside = elim (Option-cases (lookup ty m)) [
  | inl missing ↦
      let (g', made, (size, edges)) = add_edges_lem m rest g inside in
      (
        g',
        rw (missing, add_edges) made,
        (
          size,
          λ j k. (
            λ e. elim ((edges j k).0 e) [ inl old ↦ inl old | inr l ↦ inr (inr l) ],
            λ h. elim h [
              | inl old ↦ (edges j k).1 (inl old)
              | inr (inl (_, here)) ↦ absurd (cc)
              | inr (inr l) ↦ (edges j k).1 (inr l)
            ],
          ),
        ),
      )
  | inr (d, found) ↦
      let (h, added, x) = add_edge_lem d i g (inside ty d found) in
      let (g', made, (size, edges)) =
        add_edges_lem m rest h (λ t j e. omega (arith, inside t j e, x.size)) in
      (
        g',
        rw (found, add_edges, added) made,
        (
          size ∙ x.size,
          λ j k. (
            λ e. elim ((edges j k).0 e) [
              | inl old ↦ elim ((x.edges j k).0 old) [
                | inl oldest ↦ inl oldest
                | inr (from, to) ↦ inr (inl (to, found ∙ ap some (sym from)))
              ]
              | inr l ↦ inr (inr l)
            ],
            λ q. elim q [
              | inl old ↦ (edges j k).1 (inl ((x.edges j k).1 (inl old)))
              | inr (inl (to, here)) ↦
                  (edges j k).1 (inl ((x.edges j k).1 (inr (ground arith, to))))
              | inr (inr l) ↦ (edges j k).1 (inr l)
            ],
          ),
        ),
      )
]

Links-append :
    (m : List (Text × ℕ)) (xs ys : List (ℕ × Text)) (j k : ℕ)
    → Links m (xs ++ ys) j k ↔ (Links m xs j k ⊎ Links m ys j k)
Links-append m [] ys j k = (inr, λ h. elim h [ inl l ↦ absurd l | inr r ↦ r ])
Links-append m (x ∷ xs) ys j k =
    let ih = Links-append m xs ys j k in
    (
      λ h. elim h [
        | inl here ↦ inl (inl here)
        | inr l ↦ elim (ih.0 l) [ inl a ↦ inl (inr a) | inr b ↦ inr b ]
      ],
      λ h. elim h [
        | inl (inl here) ↦ inl here
        | inl (inr a) ↦ inr (ih.1 (inl a))
        | inr b ↦ inr (ih.1 (inr b))
      ],
    )

-- One of the types leads to `j`.
abbrev pub Refers : List (Text × ℕ) → List Text → ℕ → Type 0
Refers m tys j = (ty : Text) × Memᴰ ty tys × (lookup ty m ≡ some j)

Links-map :
    (m : List (Text × ℕ)) (tys : List Text) (i j k : ℕ)
    → Links m (map (λ ty. (i, ty)) tys) j k ↔ ((k ≡ i) × Refers m tys j)
Links-map m [] i j k = (λ h. absurd h, λ h. elim h.1.1 [ ])
Links-map m (ty ∷ tys) i j k =
    let ih = Links-map m tys i j k in
    (
      λ h. elim h [
        | inl (at, e) ↦ (at, (ty, Memᴰ.head refl, e))
        | inr l ↦ let (at, (t, listed, e)) = ih.0 l in (at, (t, Memᴰ.tail listed, e))
      ],
      λ (at, (t, listed, e)). elim listed [
        | Memᴰ.head same ↦ inl (at, ap (λ x. lookup x m) (sym same) ∙ e)
        | Memᴰ.tail later ↦ inr (ih.1 (at, (t, later, e)))
      ],
    )

Links-at :
    (m : List (Text × ℕ)) (ops : List DynOperation) (i j k : ℕ)
    → Links m (foreign_keys_from ops i) j k
    → (d : ℕ) × (op : DynOperation) × (k ≡ i + d)
      × (get_elem? ops d ≡ some op)
      × Refers m (types_of op) j
unfolding foreign_keys_from
Links-at m [] i j k l = absurd l
Links-at m (op ∷ ops) i j k l =
    elim ((Links-append m (map (λ ty. (i, ty)) (types_of op)) (foreign_keys_from ops (suc i)) j k).0
      l) [
        | inl here ↦
            let (at, r) = (Links-map m (types_of op) i j k).0 here in (0, op, omega arith, refl, r)
        | inr later ↦
            let (d, o, at, there, r) = Links-at m ops (suc i) j k later in
            (suc d, o, omega arith, there, r)
      ]

Links-of :
    (m : List (Text × ℕ)) (ops : List DynOperation) (i j d : ℕ) (op : DynOperation)
    → get_elem? ops d ≡ some op
    → Refers m (types_of op) j
    → Links m (foreign_keys_from ops i) j (i + d)
unfolding foreign_keys_from
Links-of m [] i j d op at r = cc
Links-of m (o ∷ ops) i j zero op at r =
    let same : op ≡ o = cc in
    (Links-append m (map (λ ty. (i, ty)) (types_of o)) (foreign_keys_from ops (suc i)) j (i + 0)).1
      (inl (
        (Links-map m (types_of o) i j (i + 0)).1
          (omega arith, subst (λ x. Refers m (types_of x) j) same r)))
Links-of m (o ∷ ops) i j (suc d) op at r =
    (Links-append m (map (λ ty. (i, ty)) (types_of o)) (foreign_keys_from ops (suc i)) j
        (i + suc d)).1
      (inr (
        subst (Links m (foreign_keys_from ops (suc i)) j) (omega arith)
          (Links-of m ops (suc i) j d op at r)))

-- The edges of the graph of the operations.
pub record IsGraphOf (ops : List DynOperation) (g : Graph) : Type 0 where
  pub size : vertex_num g ≡ length ops
  pub closed : IsClosed g
  pub edges :
      (j k : ℕ)
      → HasEdge g j k ↔ (
          (op : DynOperation) × (get_elem? ops k ≡ some op)
          × Refers (get_create_ops_map ops) (types_of op) j)

-- The graph is built without a panic.
pub construct_dependency_graph_lem :
    (ops : List DynOperation)
    → (g : Graph) × (construct_dependency_graph ops ≡ done g) × IsGraphOf ops g
unfolding construct_dependency_graph get_ops_adding_foreign_keys
construct_dependency_graph_lem ops =
    let m = get_create_ops_map ops in
    let sized : vertex_num (new (length ops)) ≡ length ops = length-replicate (length ops) [] in
    let (g, made, (size, linked)) =
      add_edges_lem m (foreign_keys_from ops 0) (new (length ops)) (λ ty j e.
        let (op, there, _) = get_create_ops_map-some ops ty j e in
        omega (arith, get_elem?-lt_length ops j there, sized)) in
    let edges : (j k : ℕ)
        → HasEdge g j k
          ↔ ((op : DynOperation) × (get_elem? ops k ≡ some op) × Refers m (types_of op) j) =
      (λ j k. (
        λ e. elim ((linked j k).0 e) [
          | inl old ↦ absurd (new-no_edge (length ops) j k old)
          | inr l ↦
              let (d, op, at, there, r) = Links-at m ops 0 j k l in
              (op, subst (λ x. get_elem? ops x ≡ some op) (omega arith) there, r)
        ],
        λ (op, there, r). (linked j k).1 (
            inr (
              subst (Links m (foreign_keys_from ops 0) j) (omega arith)
                (Links-of m ops 0 j k op there r))),
      )) in
    (
      g,
      made,
      record {
        size = size ∙ sized;
        closed = λ j k e.
            let (op, there, _) = (edges j k).0 e in
            omega (arith, get_elem?-lt_length ops k there, size, sized);
        edges = edges;
      },
    )
