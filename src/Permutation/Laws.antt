-- ===== src/Permutation/Laws.antt =====
-- `apply_permutation` as a whole: every item ends where the order asks for it.
use flareon.Base.{
  ℕ, zero, suc, ◌+◌, ◌<◌, ◌≡◌, ◌≢◌, refl, sym, ◌∙◌, List, Option, none, some, true, length,
  length-set, get_elem?, get_elem?-set, get_elem?-lt_length, get_elem?_of_lt, set, ◌==◌, arith,
  if◌then◌else◌, subst, mem, mem-get_elem?, Distinct, Distinct-injective,
}
use native.Mathlib.Decide.{ℕ_discrete}
use flareon.Graph.{done}
use flareon.Permutation.{Permuting, follow, permute_at, permute_from, apply_permutation}
use flareon.Permutation.Cycle.{misplaced-le_length, IsUnderway, follow_lem}

-- Every entry is a position, and no two are the same.
pub record IsPermutation (n : ℕ) (order : List ℕ) : Type 0 where
  pub size : length order ≡ n
  pub below : (k r : ℕ) → get_elem? order k ≡ some r → r < n
  pub injective : (j k r : ℕ) → get_elem? order j ≡ some r → get_elem? order k ≡ some r → j ≡ k

pub IsPermutation-of_Distinct :
    (n : ℕ) (order : List ℕ)
    → length order ≡ n
    → ((r : ℕ) → mem r order ≡ true → r < n)
    → Distinct order
    → IsPermutation n order
IsPermutation-of_Distinct n order size below distinct = record {
  size = size;
  below = λ k r e. below r (mem-get_elem? order k r e);
  injective = λ j k r. Distinct-injective order j k r distinct;
}

module _ {ℓ} {A : Type ℓ} where
  -- The item that `order` asks for at position `k`.
  abbrev pub gather : List A → List ℕ → ℕ → Option A
  gather items order k = elim (get_elem? order k) [ none ↦ none | some r ↦ get_elem? items r ]

  module _ (want : ℕ → Option A) (n : ℕ) where
    -- The positions below `i` have the items that they want.
    record IsPlaced (i : ℕ) (s : Permuting A) : Type ℓ where
      items_size : length s.items ≡ n
      permutes : IsPermutation n s.order
      value : (k r : ℕ) → get_elem? s.order k ≡ some r → get_elem? s.items r ≡ want k
      fixed : (j : ℕ) → j < i → get_elem? s.order j ≡ some j

    start-IsUnderway :
        (i next : ℕ) (s : Permuting A)
        → IsPlaced i s
        → get_elem? s.order i ≡ some next
        → IsUnderway want s.order n i i next s
    start-IsUnderway i next s p at = record {
      items_size = p.items_size;
      order_size = p.permutes.size;
      below = p.permutes.below;
      at_next = at;
      closed = λ ne. absurd (ne refl);
      untargeted = λ ne. absurd (ne refl);
      injective = λ j k r _ _ e f. p.permutes.injective j k r e f;
      injective_first = λ k r _ e f. p.permutes.injective k i r f e;
      later = λ k r _ e. p.value k r e;
      last = λ k ne e. p.value k i e ∙ refl;
      kept = λ j e. e;
      alone = λ _. p.permutes.injective;
      first = λ e. p.value i i e;
    }

    module _ (i current : ℕ) (s t : Permuting A) (p : IsPlaced i s)
        (u : IsUnderway want s.order n i current i t) where
      closed_order :
          (k : ℕ)
          → get_elem? (set t.order current current) k
            ≡ (if current == k then some current else get_elem? t.order k)
      closed_order k =
          get_elem?-set t.order current k current (get_elem?-lt_length t.order current u.at_next)

      -- Elsewhere nothing points to `i` any more.
      closed_other :
          (k r : ℕ)
          → k ≢ current
          → get_elem? (set t.order current current) k ≡ some r
          → (get_elem? t.order k ≡ some r) × (r ≢ current)
      closed_other k r ne e =
          let e' : get_elem? t.order k ≡ some r = ground (arith, closed_order k) in
          (
            e',
            λ c. elim (ℕ_discrete current i) [
              | yes d ↦ ne (
                  u.alone d k current r e'
                    (subst (λ v. get_elem? t.order current ≡ some v) (sym (c ∙ d)) u.at_next))
              | no d ↦ u.untargeted d k (subst (λ v. get_elem? t.order k ≡ some v) c e')
            ],
          )

      apart :
          (k r : ℕ)
          → k ≢ current
          → k ≢ i
          → get_elem? (set t.order current current) k ≡ some r
          → r ≢ i
      apart k r ne k_ne e d =
          let (e', r_ne) = closed_other k r ne e in
          elim (ℕ_discrete current i) [
            | yes c ↦ r_ne (d ∙ sym c)
            | no c ↦ ne (
                sym (
                  u.injective current k i c k_ne u.at_next
                    (subst (λ v. get_elem? t.order k ≡ some v) d e')))
          ]

      closed_injective :
          (j k r : ℕ)
          → get_elem? (set t.order current current) j ≡ some r
          → get_elem? (set t.order current current) k ≡ some r
          → j ≡ k
      closed_injective j k r e f = elim (ℕ_discrete j current) [
        | yes c ↦ elim (ℕ_discrete k current) [
          | yes d ↦ c ∙ sym d
          | no d ↦ absurd ((closed_other k r d f).1 (ground (arith, closed_order j)))
        ]
        | no c ↦ elim (ℕ_discrete k current) [
          | yes d ↦ absurd ((closed_other j r c e).1 (ground (arith, closed_order k)))
          | no d ↦
              let (e', _) = closed_other j r c e in
              let (f', _) = closed_other k r d f in
              elim (ℕ_discrete current i) [
                | yes start ↦ u.alone start j k r e' f'
                | no moved ↦ elim (ℕ_discrete j i) [
                  | yes a ↦ elim (ℕ_discrete k i) [
                    | yes b ↦ a ∙ sym b
                    | no b ↦ absurd (apart k r d b f (ground (arith, u.closed moved)))
                  ]
                  | no a ↦ elim (ℕ_discrete k i) [
                    | yes b ↦ absurd (apart j r c a e (ground (arith, u.closed moved)))
                    | no b ↦ u.injective j k r a b e' f'
                  ]
                ]
              ]
        ]
      ]

      close-IsPlaced : IsPlaced (suc i) (record t { order = set t.order current current })
      close-IsPlaced = record {
        items_size = u.items_size;
        permutes = record {
          size = omega (arith, length-set t.order current current, u.order_size);
          below = λ k r e. ground (
            arith,
            closed_order k,
            u.below k r,
            u.order_size,
            get_elem?-lt_length t.order current u.at_next,
          );
          injective = closed_injective;
        };
        value = λ k r e. elim (ℕ_discrete k current) [
          | yes c ↦ elim (ℕ_discrete current i) [
            | yes d ↦ ground (arith, closed_order k, u.first, u.at_next)
            | no d ↦ ground (arith, closed_order k, u.last current d)
          ]
          | no c ↦
              let (e', _) = closed_other k r c e in
              elim (ℕ_discrete r i) [
                | yes d ↦ elim (ℕ_discrete k i) [
                  | yes a ↦ ground (arith, u.first)
                  | no a ↦ absurd (apart k r c a e d)
                ]
                | no d ↦ u.later k r d e'
              ]
        ];
        fixed = λ j lt. elim (ℕ_discrete j current) [
          | yes c ↦ ground (arith, closed_order j)
          | no c ↦ elim (ℕ_discrete j i) [
            | yes d ↦ ground (arith, closed_order j, u.closed (λ h. c (d ∙ sym h)))
            | no d ↦ ground (arith, closed_order j, u.kept j (p.fixed j (omega arith)))
          ]
        ];
      }

    permute_at-step :
        (i next current : ℕ) (s t : Permuting A)
        → get_elem? s.order i ≡ some next
        → follow (suc (length s.order)) i i next s ≡ done (current, t)
        → permute_at i s ≡ done (record t { order = set t.order current current })
    unfolding permute_at
    permute_at-step i next current s t at e = ground arith

    permute_from-step :
        (rounds i : ℕ) (s t u : Permuting A)
        → permute_at i s ≡ done t
        → permute_from rounds (suc i) t ≡ done u
        → permute_from (suc rounds) i s ≡ done u
    unfolding permute_from
    permute_from-step rounds i s t u at e = ground arith

    permute_at_lem :
        (i : ℕ) (s : Permuting A)
        → i < n
        → IsPlaced i s
        → (t : Permuting A) × (permute_at i s ≡ done t) × IsPlaced (suc i) t
    permute_at_lem i s lt p =
        let (next, at) = get_elem?_of_lt s.order i (omega (arith, p.permutes.size)) in
        let (current, t, e, u) =
          follow_lem want s.order n i (suc (length s.order)) i next s
            (start-IsUnderway i next s p at) (omega (arith, misplaced-le_length 0 s.order)) in
        (
          record t { order = set t.order current current },
          permute_at-step i next current s t at e,
          close-IsPlaced i current s t p u,
        )

    permute_from_lem :
        (rounds i : ℕ) (s : Permuting A)
        → rounds + i ≡ n
        → IsPlaced i s
        → (t : Permuting A) × (permute_from rounds i s ≡ done t) × IsPlaced n t
    unfolding permute_from
    permute_from_lem zero i s e p = (s, refl, subst (λ v. IsPlaced v s) (omega arith) p)
    permute_from_lem (suc rounds) i s e p =
        let (t, at, q) = permute_at_lem i s (omega arith) p in
        let (u, from, r) = permute_from_lem rounds (suc i) t (omega arith) q in
        (u, permute_from-step rounds i s t u at from, r)

  -- For an order that permutes the positions, `apply_permutation` returns: position `k` holds the
  -- item that was at `order[k]`, and the order is left as the identity.
  pub apply_permutation_lem :
      (items : List A) (order : List ℕ)
      → IsPermutation (length items) order
      → (t : Permuting A) × (apply_permutation items order ≡ done t)
        × (length t.items ≡ length items)
        × ((k : ℕ) → k < length items → get_elem? t.items k ≡ gather items order k)
        × ((k : ℕ) → k < length items → get_elem? t.order k ≡ some k)
  unfolding apply_permutation
  apply_permutation_lem items order p =
      let (t, e, q) =
        permute_from_lem (gather items order) (length items) (length order) 0
          (record { items = items; order = order }) (omega (arith, p.size))
          (record {
            items_size = refl;
            permutes = p;
            value = λ k r at. ground arith;
            fixed = λ j lt. absurd (omega arith);
          }) in
      (t, e, q.items_size, (λ k lt. q.value k k (q.fixed k lt)), q.fixed)
