-- ===== src/Graph/Tests.antt =====
-- The graphs of the unit tests, and instances of the theorems.
use flareon.Base.{ℕ, ◌≡◌, refl, List, [], ◌∷◌, ◌⊎◌, arith}
use flareon.Graph.{done, cycle_detected, ◌>>=◌, Graph, new, add_edge, toposort}
use flareon.Graph.Walks.{IsClosed, HasCycle, IsClosed-of_All}
use flareon.Graph.Toposort.{IsSortOf, toposort_total}

sorted_eight :
    ((add_edge 5 3 (new 8) >>= λ g. add_edge 1 3 g >>= λ g. add_edge 1 2 g >>= λ g.
    add_edge 4 2 g >>= λ g. add_edge 4 6 g >>= λ g.
    add_edge 3 0 g >>= λ g. add_edge 3 7 g >>= λ g. add_edge 3 6 g >>= λ g. add_edge 2 7 g)
      >>= toposort)
    ≡ done (1 ∷ 4 ∷ 2 ∷ 5 ∷ 3 ∷ 0 ∷ 6 ∷ 7 ∷ [])
unfolding toposort add_edge
sorted_eight = refl

abbrev pub triangle : Graph
triangle = record { vertex_edges = (1 ∷ []) ∷ (2 ∷ []) ∷ [] ∷ [] }

abbrev ring : Graph
ring = record { vertex_edges = (1 ∷ []) ∷ (2 ∷ []) ∷ (0 ∷ []) ∷ [] }

sorted_ring : toposort ring ≡ cycle_detected
unfolding toposort
sorted_ring = refl

triangle-IsClosed : IsClosed triangle
triangle-IsClosed = IsClosed-of_All triangle (omega arith)

ring-IsClosed : IsClosed ring
ring-IsClosed = IsClosed-of_All ring (omega arith)

toposort_total_example :
    ((xs : List ℕ) × (toposort triangle ≡ done xs) × IsSortOf triangle xs)
    ⊎ ((toposort triangle ≡ cycle_detected) × HasCycle triangle)
toposort_total_example = toposort_total triangle triangle-IsClosed
