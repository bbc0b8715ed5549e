-- ===== src/Permutation/Onto.antt =====
-- A permutation of positions has every position: what cot/src/utils/graph.rs moves is all there.
use flareon.Base.{
  ℕ, zero, suc, ◌+◌, ◌<◌, ◌≤◌, ◌≡◌, ◌≢◌, refl, subst, List, [], ◌∷◌, some, true, false, Bool-cases,
  inl, inr, length, get_elem?, mem, mem-split, get_elem?_of_mem, Distinct, ◌==◌, ==_iff,
  if◌then◌else◌, arith,
}
use flareon.Permutation.Laws.{IsPermutation}

-- The list without a number.
abbrev without : ℕ → List ℕ → List ℕ
without n [] = []
without n (x ∷ xs) = if x == n then without n xs else x ∷ without n xs

mem-without : (n r : ℕ) (xs : List ℕ) → mem r (without n xs) ≡ true → (mem r xs ≡ true) × (r ≢ n)
mem-without n r [] m = cc
mem-without n r (x ∷ xs) m = elim (Bool-cases (x == n)) [
  | inl same ↦ let (m', ne) = mem-without n r xs (ground arith) in (ground arith, ne)
  | inr other ↦ elim (Bool-cases (x == r)) [
    | inl at ↦ (ground arith, λ e. ground (arith, (==_iff x r).0 at))
    | inr past ↦ let (m', ne) = mem-without n r xs (ground arith) in (ground arith, ne)
  ]
]

mem-without-false : (n r : ℕ) (xs : List ℕ) → mem r xs ≡ false → mem r (without n xs) ≡ false
mem-without-false n r xs m = elim (Bool-cases (mem r (without n xs))) [
  | inl found ↦ let (m', _) = mem-without n r xs found in absurd (cc)
  | inr missing ↦ missing
]

without-Distinct : (n : ℕ) (xs : List ℕ) → Distinct xs → Distinct (without n xs)
without-Distinct n [] d = tt
without-Distinct n (x ∷ xs) (fresh, d) = elim (Bool-cases (x == n)) [
  | inl same ↦ rw same (without-Distinct n xs d)
  | inr other ↦ rw other (mem-without-false n x xs fresh, without-Distinct n xs d)
]

without_of_fresh : (n : ℕ) (xs : List ℕ) → mem n xs ≡ false → length (without n xs) ≡ length xs
without_of_fresh n [] m = omega arith
without_of_fresh n (x ∷ xs) m = ground (arith, without_of_fresh n xs)

length-without : (n : ℕ) (xs : List ℕ) → Distinct xs → length xs ≤ length (without n xs) + 1
length-without n [] d = omega arith
length-without n (x ∷ xs) (fresh, d) = elim (Bool-cases (x == n)) [
  | inl same ↦
      let unseen = subst (λ y. mem y xs ≡ false) ((==_iff x n).0 same) fresh in
      let kept = without_of_fresh n xs unseen in rw same (omega arith)
  | inr other ↦ let ih = length-without n xs d in rw other (omega arith)
]

-- No more than `n` numbers are below `n`.
length_of_Distinct :
    (n : ℕ) (xs : List ℕ) → Distinct xs → ((r : ℕ) → mem r xs ≡ true → r < n) → length xs ≤ n
length_of_Distinct zero [] d below = omega arith
length_of_Distinct zero (x ∷ xs) d below = absurd (let lt = below x (ground arith) in omega arith)
length_of_Distinct (suc n) xs d below =
    let ih =
      length_of_Distinct n (without n xs) (without-Distinct n xs d)
        (λ r m. let (m', ne) = mem-without n r xs m in let lt = below r m' in omega arith) in
    let removed = length-without n xs d in omega arith

Distinct-of_injective :
    (xs : List ℕ)
    → ((j k r : ℕ) → get_elem? xs j ≡ some r → get_elem? xs k ≡ some r → j ≡ k)
    → Distinct xs
Distinct-of_injective [] inj = tt
Distinct-of_injective (x ∷ xs) inj = (
  elim (Bool-cases (mem x xs)) [
    | inl again ↦
        let (k, at) = get_elem?_of_mem xs x again in
        absurd (let e = inj 0 (suc k) x refl at in omega arith)
    | inr fresh ↦ fresh
  ],
  Distinct-of_injective xs (λ j k r e f. let s = inj (suc j) (suc k) r e f in omega arith),
)

-- A permutation has every position.
pub IsPermutation-onto :
    (n : ℕ) (order : List ℕ) (r : ℕ)
    → IsPermutation n order
    → r < n
    → (k : ℕ) × (get_elem? order k ≡ some r)
IsPermutation-onto n order r p lt = elim (Bool-cases (mem r order)) [
  | inl there ↦ get_elem?_of_mem order r there
  | inr missing ↦ absurd (
      let too_many =
        length_of_Distinct n (r ∷ order) (missing, Distinct-of_injective order p.injective)
          (λ q m. elim (mem-split q r order m) [
            | inl e ↦ subst (λ y. y < n) e lt
            | inr m' ↦ let (k, at) = get_elem?_of_mem order q m' in p.below k q at
          ]) in
      let size = p.size in omega arith)
]
