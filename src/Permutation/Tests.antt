-- ===== src/Permutation/Tests.antt =====
-- An order with a cycle of three and a fixed position.
use flareon.Base.{ℕ, ◌<◌, ◌≡◌, refl, List, [], ◌∷◌, length, get_elem?, some, arith}
use flareon.Graph.{done}
use flareon.Permutation.{Permuting, apply_permutation}
use flareon.Permutation.Laws.{
  IsPermutation, IsPermutation-of_Distinct, gather, apply_permutation_lem,
}

abbrev names : List ℕ
names = 10 ∷ 11 ∷ 12 ∷ 13 ∷ []

abbrev order : List ℕ
order = 2 ∷ 1 ∷ 3 ∷ 0 ∷ []

permuted :
    apply_permutation names order
    ≡ done (record { items = 12 ∷ 11 ∷ 13 ∷ 10 ∷ []; order = 0 ∷ 1 ∷ 2 ∷ 3 ∷ [] })
unfolding apply_permutation
permuted = refl

order-IsPermutation : IsPermutation 4 order
order-IsPermutation =
    IsPermutation-of_Distinct 4 order refl (λ r m. ground arith) (refl, (refl, (refl, (refl, tt))))

apply_permutation_lem_example :
    (t : Permuting ℕ) × (apply_permutation names order ≡ done t)
    × (length t.items ≡ 4)
    × ((k : ℕ) → k < 4 → get_elem? t.items k ≡ gather names order k)
    × ((k : ℕ) → k < 4 → get_elem? t.order k ≡ some k)
apply_permutation_lem_example = apply_permutation_lem names order order-IsPermutation
