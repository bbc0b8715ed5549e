-- ===== src/Permutation/Cycle.antt =====
-- One cycle: the invariant of the `while` loop of `apply_permutation`.
use flareon.Base.{
  ℕ, zero, suc, ◌+◌, ◌≤◌, ◌<◌, ◌≡◌, ◌≢◌, sym, ◌∙◌, List, [], ◌∷◌, Option, some, false, length,
  length-set, get_elem?, get_elem?-set, get_elem?-lt_length, get_elem?_of_lt, set, ◌==◌, ==_iff,
  Bool-cases, arith, if◌then◌else◌, inl, inr, subst,
}
use native.Mathlib.Decide.{ℕ_discrete}
use flareon.Graph.{done}
use flareon.Permutation.{swap, Permuting, follow}

-- How many entries differ from their own position.
abbrev pub misplaced : ℕ → List ℕ → ℕ
misplaced from [] = 0
misplaced from (x ∷ xs) = (if x == from then 0 else 1) + misplaced (suc from) xs

pub misplaced-le_length : (from : ℕ) (xs : List ℕ) → misplaced from xs ≤ length xs
misplaced-le_length from [] = omega arith
misplaced-le_length from (x ∷ xs) = ground (arith, misplaced-le_length (suc from) xs)

misplaced-set :
    (from i x v : ℕ) (xs : List ℕ)
    → get_elem? xs i ≡ some x
    → x ≢ v
    → v ≡ from + i
    → suc (misplaced from (set xs i v)) ≡ misplaced from xs
misplaced-set from i x v [] h ne e = cc
misplaced-set from zero x v (y ∷ xs) h ne e = ground arith
misplaced-set from (suc i) x v (y ∷ xs) h ne e =
    omega (arith, misplaced-set (suc from) i x v xs h ne (omega arith))

module _ {ℓ} {A : Type ℓ} (want : ℕ → Option A) (old : List ℕ) (n i : ℕ) where
  -- `current` holds the item that left position `i`, and waits for the position that `i` closes.
  pub record IsUnderway (current next : ℕ) (s : Permuting A) : Type ℓ where
    pub items_size : length s.items ≡ n
    pub order_size : length s.order ≡ n
    pub below : (k r : ℕ) → get_elem? s.order k ≡ some r → r < n
    pub at_next : get_elem? s.order current ≡ some next
    pub closed : current ≢ i → get_elem? s.order i ≡ some i
    pub untargeted : current ≢ i → (k : ℕ) → get_elem? s.order k ≢ some current
    pub injective :
        (j k r : ℕ)
        → j ≢ i
        → k ≢ i
        → get_elem? s.order j ≡ some r
        → get_elem? s.order k ≡ some r
        → j ≡ k
    pub injective_first :
        (k r : ℕ) → r ≢ i → get_elem? s.order i ≡ some r → get_elem? s.order k ≡ some r → k ≡ i
    pub later : (k r : ℕ) → r ≢ i → get_elem? s.order k ≡ some r → get_elem? s.items r ≡ want k
    pub last : (k : ℕ) → k ≢ i → get_elem? s.order k ≡ some i → get_elem? s.items current ≡ want k
    pub kept : (j : ℕ) → get_elem? old j ≡ some j → get_elem? s.order j ≡ some j
    pub alone :
        current ≡ i
        → (j k r : ℕ) → get_elem? s.order j ≡ some r
        → get_elem? s.order k ≡ some r
        → j ≡ k
    pub first : get_elem? s.order i ≡ some i → get_elem? s.items i ≡ want i

  module _ (current next : ℕ) (s : Permuting A) (u : IsUnderway current next s) (more : next ≢ i)
      (x y : A) (at_x : get_elem? s.items current ≡ some x)
      (at_y : get_elem? s.items next ≡ some y) where
    abbrev moved : Permuting A
    moved = record {
      items = set (set s.items current y) next x;
      order = set s.order current current;
    }

    current-lt : current < length s.order
    current-lt = get_elem?-lt_length s.order current u.at_next

    next-ne : current ≢ next
    next-ne e = elim (ℕ_discrete current i) [
      | yes c ↦ more (ground arith)
      | no c ↦ u.untargeted c current (cc (u.at_next))
    ]

    order-moved :
        (k : ℕ)
        → get_elem? moved.order k ≡ (if current == k then some current else get_elem? s.order k)
    order-moved k = get_elem?-set s.order current k current current-lt

    items-moved :
        (k : ℕ)
        → get_elem? moved.items k
          ≡ (if next == k then some x else if current == k then some y else get_elem? s.items k)
    items-moved k = ground (
      arith,
      get_elem?-set (set s.items current y) next k x
          (omega (arith, length-set s.items current y, get_elem?-lt_length s.items next at_y)),
      get_elem?-set s.items current k y (get_elem?-lt_length s.items current at_x),
    )

    -- Only `current` pointed to `next`.
    next-untargeted : (k : ℕ) → current ≢ k → get_elem? s.order k ≢ some next
    next-untargeted k ne e = elim (ℕ_discrete current i) [
      | yes c ↦ ne (
          c
          ∙ sym (
              u.injective_first k next more
                (subst (λ j. get_elem? s.order j ≡ some next) c u.at_next) e))
      | no c ↦ elim (ℕ_discrete k i) [
        | yes k_is ↦ more (ground (arith, u.closed c))
        | no k_ne ↦ ne (u.injective current k next c k_ne u.at_next e)
      ]
    ]

    at_other :
        (k r : ℕ) → k ≢ current → get_elem? moved.order k ≡ some r → get_elem? s.order k ≡ some r
    at_other k r ne e = ground (arith, order-moved k)

    untargeted_value : (k r : ℕ) → r ≢ i → get_elem? s.order k ≡ some r → current ≢ r
    untargeted_value k r r_ne e c =
        u.untargeted (λ d. r_ne (sym c ∙ d)) k (subst (λ v. get_elem? s.order k ≡ some v) (sym c) e)

    moved-IsUnderway :
        (next' : ℕ) → get_elem? moved.order next ≡ some next' → IsUnderway next next' moved
    moved-IsUnderway next' at = record {
      items_size = omega (
        arith,
        length-set (set s.items current y) next x,
        length-set s.items current y,
        u.items_size,
      );
      order_size = omega (arith, length-set s.order current current, u.order_size);
      below = λ k r e. ground (arith, order-moved k, u.below k r, u.order_size, current-lt);
      at_next = at;
      closed = λ _. elim (ℕ_discrete current i) [
        | yes c ↦ ground (arith, order-moved i)
        | no c ↦ ground (arith, order-moved i, u.closed c)
      ];
      untargeted = λ _ k e. elim (ℕ_discrete k current) [
        | yes c ↦ ground (arith, order-moved k, next-ne)
        | no c ↦ next-untargeted k (λ f. c (sym f)) (at_other k next c e)
      ];
      injective = λ j k r j_ne k_ne e f. elim (ℕ_discrete j current) [
        | yes c ↦ elim (ℕ_discrete k current) [
          | yes d ↦ c ∙ sym d
          | no d ↦ absurd (
              u.untargeted (λ h. j_ne (c ∙ h)) k
                (at_other k current d (ground (arith, order-moved j))))
        ]
        | no c ↦ elim (ℕ_discrete k current) [
          | yes d ↦ absurd (
              u.untargeted (λ h. k_ne (d ∙ h)) j
                (at_other j current c (ground (arith, order-moved k))))
          | no d ↦ u.injective j k r j_ne k_ne (at_other j r c e) (at_other k r d f)
        ]
      ];
      injective_first = λ k r r_ne e f. elim (ℕ_discrete current i) [
        | yes c ↦ absurd (r_ne (ground (arith, order-moved i)))
        | no c ↦ absurd (r_ne (ground (arith, at_other i r (λ h. c (sym h)) e, u.closed c)))
      ];
      later = λ k r r_ne e. elim (ℕ_discrete k current) [
        | yes c ↦
            ground
              (arith, order-moved k, items-moved r, next-ne, u.later current next more u.at_next)
        | no c ↦
            let e' = at_other k r c e in
            ground (
              arith,
              items-moved r,
              u.later k r r_ne e',
              next-untargeted k (λ h. c (sym h)),
              untargeted_value k r r_ne e',
            )
      ];
      last = λ k k_ne e. elim (ℕ_discrete k current) [
        | yes c ↦ absurd (k_ne (ground (arith, order-moved k)))
        | no c ↦ ground (arith, items-moved next, u.last k k_ne (at_other k i c e))
      ];
      kept = λ j e. ground (arith, order-moved j, u.kept j e);
      alone = λ same. absurd (more same);
      first = λ e. elim (ℕ_discrete current i) [
        | yes c ↦ ground (arith, items-moved i, next-ne, u.later current next more u.at_next)
        | no c ↦ ground (arith, items-moved i, u.closed c, u.first)
      ];
    }

  follow-step :
      (fuel current next next' : ℕ) (s : Permuting A) (x y : A)
      → (next == i) ≡ false
      → get_elem? s.items current ≡ some x
      → get_elem? s.items next ≡ some y
      → get_elem? (set s.order current current) next ≡ some next'
      → follow (suc fuel) i current next s
        ≡ follow fuel i next next' (record {
          items = set (set s.items current y) next x;
          order = set s.order current current;
        })
  unfolding follow swap
  follow-step fuel current next next' s x y other at_x at_y at = ground arith

  -- The `while` loop ends, at the position whose item `i` has.
  pub follow_lem :
      (fuel current next : ℕ) (s : Permuting A)
      → IsUnderway current next s
      → misplaced 0 s.order < fuel
      → (last : ℕ) × (t : Permuting A) × (follow fuel i current next s ≡ done (last, t))
        × IsUnderway last i t
  unfolding follow swap
  follow_lem zero current next s u enough = absurd (omega arith)
  follow_lem (suc fuel) current next s u enough = elim (Bool-cases (next == i)) [
    | inl same ↦ (
      current,
      s,
      rw (same, follow),
      subst (λ v. IsUnderway current v s) ((==_iff next i).0 same) u,
    )
    | inr other ↦
        let more : next ≢ i = λ e. ground arith in
        let (x, at_x) = get_elem?_of_lt s.items current (
          omega
            (arith, get_elem?-lt_length s.order current u.at_next, u.items_size, u.order_size)) in
        let (y, at_y) =
          get_elem?_of_lt s.items next
            (omega (arith, u.below current next u.at_next, u.items_size)) in
        let (next', at) = get_elem?_of_lt (set s.order current current) next (
          omega (
            arith,
            length-set s.order current current,
            u.below current next u.at_next,
            u.order_size,
          )) in
        let falls =
          misplaced-set 0 current next current s.order u.at_next
            (λ e. next-ne current next s u more x y at_x at_y (sym e)) (omega arith) in
        let (last, t, e, v) =
          follow_lem fuel next next' _
            (moved-IsUnderway current next s u more x y at_x at_y next' at) (omega arith) in
        (last, t, follow-step fuel current next next' s x y other at_x at_y at ∙ e, v)
  ]
