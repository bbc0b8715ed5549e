-- ===== src/Graph.antt =====
-- cot/src/utils/graph.rs: `Graph` and its depth-first `toposort`. An index out of bounds and the
-- failed assertion are `panic`; `out_of_fuel` is the end of the model's recursion bound.
mod Tally
pub mod Walks
pub mod Visit
pub mod Vertex
pub mod Toposort
pub mod Edges
pub mod Tests
use flareon.Base.{
  ℕ, zero, suc, ◌+◌, List, [], ◌∷◌, ◌++◌, reverse, Option, none, some, length, get_elem?, set,
  replicate, if◌then◌else◌, ◌==◌,
}

pub data Outcome {ℓ} (A : Type ℓ) : Type ℓ where
  done : A → Outcome A
  cycle_detected panic out_of_fuel : Outcome A

infixl 5 ◌>>=◌
abbrev pub ◌>>=◌ {ℓ κ} : {A : Type ℓ} {B : Type κ} → Outcome A → (A → Outcome B) → Outcome B
done a >>= f = f a
cycle_detected >>= f = cycle_detected
panic >>= f = panic
out_of_fuel >>= f = out_of_fuel

pub data VisitedStatus : Type 0 where
  not_visited visiting visited : VisitedStatus

pub record Graph : Type 0 where
  pub vertex_edges : List (List ℕ)

abbrev pub new : ℕ → Graph
new vertex_num = record { vertex_edges = replicate vertex_num [] }

unfoldable pub add_edge : ℕ → ℕ → Graph → Outcome Graph
add_edge from to g = elim (get_elem? g.vertex_edges from) [
  | none ↦ panic
  | some targets ↦ done (record g { vertex_edges = set g.vertex_edges from (targets ++ to ∷ []) })
]

abbrev pub vertex_num : Graph → ℕ
vertex_num g = length g.vertex_edges

-- The two mutable vectors of `toposort`.
pub record Search : Type 0 where
  pub status : List VisitedStatus
  pub sorted_indices_stack : List ℕ

-- The `for` loop over the neighbours.
pub visit_each : (ℕ → Search → Outcome Search) → List ℕ → Search → Outcome Search
visit_each visit [] s = done s
visit_each visit (neighbor ∷ rest) s = do s' ← visit neighbor s; visit_each visit rest s'

abbrev pub mark : ℕ → VisitedStatus → Search → Search
mark index v s = record s { status = set s.status index v }

abbrev pub push : ℕ → Search → Search
push index s = record s { sorted_indices_stack = s.sorted_indices_stack ++ index ∷ [] }

-- `toposort_visit` behind its two reads, of the vertex's status and of its edges.
pub visit_vertex :
    (ℕ → Search → Outcome Search)
    → ℕ
    → Search
    → Option VisitedStatus
    → Option (List ℕ)
    → Outcome Search
visit_vertex visit index s none targets = panic
visit_vertex visit index s (some visited) targets = done s
visit_vertex visit index s (some visiting) targets = cycle_detected
visit_vertex visit index s (some not_visited) none = panic
visit_vertex visit index s (some not_visited) (some neighbors) = do
  s' ← visit_each visit neighbors (mark index visiting s)
  done (push index (mark index visited s'))

pub toposort_visit : Graph → ℕ → ℕ → Search → Outcome Search
toposort_visit g zero index s = out_of_fuel
toposort_visit g (suc fuel) index s =
    visit_vertex (toposort_visit g fuel) index s (get_elem? s.status index)
      (get_elem? g.vertex_edges index)

-- `for index in (0..k).rev()`
pub visit_down : Graph → ℕ → ℕ → Search → Outcome Search
visit_down g fuel zero s = done s
visit_down g fuel (suc k) s = do s' ← toposort_visit g fuel k s; visit_down g fuel k s'

abbrev pub start : ℕ → Search
start n = record { status = replicate n not_visited; sorted_indices_stack = [] }

-- The recursion is at most one call deeper than there are vertices.
unfoldable pub toposort : Graph → Outcome (List ℕ)
unfolding visit_down toposort_visit visit_vertex visit_each
toposort g = do
  s ← visit_down g (suc (vertex_num g)) (vertex_num g) (start (vertex_num g))
  if length s.sorted_indices_stack == vertex_num g
      then done (reverse s.sorted_indices_stack)
      else panic
