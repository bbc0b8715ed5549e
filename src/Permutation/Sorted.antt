-- ===== src/Permutation/Sorted.antt =====
-- The order that a topological sort returns, as an order of positions.
use flareon.Base.{
  ℕ, zero, suc, ◌<◌, ◌≡◌, sym, ◌∙◌, ap, subst, List, [], ◌∷◌, some, true, Bool-cases, inl, inr,
  get_elem?, mem, Distinct, ◌==◌, ==_iff, arith,
}
use flareon.Graph.{Graph, vertex_num}
use flareon.Graph.Walks.{HasEdge, IsTopological}
use flareon.Graph.Toposort.{IsSortOf, mem-successor}
use flareon.Permutation.Laws.{IsPermutation, IsPermutation-of_Distinct, gather}

Distinct-of_IsTopological : (g : Graph) (xs : List ℕ) → IsTopological g xs → Distinct xs
Distinct-of_IsTopological g [] h = tt
Distinct-of_IsTopological g (x ∷ xs) (fresh, _, h) = (fresh, Distinct-of_IsTopological g xs h)

-- In a sorted order the source of an edge stands before its target.
pub source-before :
    (g : Graph) (xs : List ℕ) (i v k : ℕ)
    → IsTopological g xs
    → HasEdge g i v
    → mem i xs ≡ true
    → get_elem? xs k ≡ some v
    → (j : ℕ) × (j < k) × (get_elem? xs j ≡ some i)
source-before g [] i v k h e m at = cc
source-before g (x ∷ xs) i v zero (fresh, after, h) e m at = elim (Bool-cases (x == i)) [
  | inl same ↦
      let again = after v (subst (λ y. HasEdge g y v) (sym ((==_iff x i).0 same)) e) in absurd (cc)
  | inr other ↦ let again = mem-successor g xs i v h (ground arith) e in absurd (cc)
]
source-before g (x ∷ xs) i v (suc k) (fresh, after, h) e m at = elim (Bool-cases (x == i)) [
  | inl same ↦ (0, omega arith, ap some ((==_iff x i).0 same))
  | inr other ↦
      let (j, lt, there) = source-before g xs i v k h e (ground arith) at in
      (suc j, omega arith, there)
]

pub IsPermutation-of_IsSortOf :
    (g : Graph) (xs : List ℕ) (n : ℕ) → IsSortOf g xs → vertex_num g ≡ n → IsPermutation n xs
IsPermutation-of_IsSortOf g xs n s size =
    IsPermutation-of_Distinct n xs (s.size ∙ size) (λ r m. omega (arith, (s.complete r).0 m, size))
      (Distinct-of_IsTopological g xs s.sorted)

pub gather-eq {ℓ} :
    {A : Type ℓ} (items : List A) (xs : List ℕ) (k v : ℕ)
    → get_elem? xs k ≡ some v
    → gather items xs k ≡ get_elem? items v
gather-eq items xs k v e = ground arith
