-- ===== src/Graph/Walks.antt =====
-- What a graph means: its edges, its walks, and the orders that respect them.
use flareon.Base.{
  ℕ, ◌<◌, ◌≡◌, List, [], ◌∷◌, some, true, false, get_elem?, All, mem, zero, suc, subst, All-mem,
}
use flareon.Graph.{Graph, vertex_num}

abbrev pub HasEdge : Graph → ℕ → ℕ → Type 0
HasEdge g i k =
    (targets : List ℕ) × (get_elem? g.vertex_edges i ≡ some targets) × (mem k targets ≡ true)

-- A walk along one edge at least.
pub data Walk (g : Graph) (i : ℕ) : ℕ → Type 0 where
  edge : {k : ℕ} → HasEdge g i k → Walk g i k
  step : {j k : ℕ} → Walk g i j → HasEdge g j k → Walk g i k

abbrev pub HasCycle : Graph → Type 0
HasCycle g = (v : ℕ) × Walk g v v

-- Every edge ends at a vertex, as `add_edge` between vertices keeps it.
abbrev pub IsClosed : Graph → Type 0
IsClosed g = (i : ℕ) (k : ℕ) → HasEdge g i k → k < vertex_num g

-- No vertex comes twice, and all that a vertex has an edge to comes after it.
abbrev pub IsTopological : Graph → List ℕ → Type 0
IsTopological g [] = Unit
IsTopological g (x ∷ xs) =
    (mem x xs ≡ false) × ((k : ℕ) → HasEdge g x k → mem k xs ≡ true) × IsTopological g xs

pub All-get_elem? {ℓ κ} :
    {A : Type ℓ} (P : A → Type κ) (xs : List A) (i : ℕ) (x : A)
    → All P xs
    → get_elem? xs i ≡ some x
    → P x
All-get_elem? P [] i x h e = cc
All-get_elem? P (y ∷ xs) zero x h e = let is : y ≡ x = cc in subst P is h.0
All-get_elem? P (y ∷ xs) (suc i) x h e = All-get_elem? P xs i x h.1 e

pub IsClosed-of_All :
    (g : Graph) → All (λ ts. All (λ k. k < vertex_num g) ts) g.vertex_edges → IsClosed g
IsClosed-of_All g h i k (ts, at, m) =
    All-mem (λ k. k < vertex_num g) k ts
      (All-get_elem? (λ ts. All (λ k. k < vertex_num g) ts) g.vertex_edges i ts h at) m
