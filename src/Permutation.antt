-- ===== src/Permutation.antt =====
-- `apply_permutation` of cot/src/utils/graph.rs: both slices are rearranged in place, cycle by
-- cycle. An index out of bounds is `panic`; the `while` loop has as many rounds as there are items
-- and one more.
mod Cycle
pub mod Laws
pub mod Sorted
pub mod Onto
pub mod Tests
use flareon.Base.{
  ℕ, zero, suc, ◌≡◌, List, Option, none, some, true, false, length, get_elem?, set, ◌==◌,
}
use flareon.Graph.{Outcome, done, panic, out_of_fuel, ◌>>=◌}

-- The two slices that the loops change.
pub record Permuting {ℓ} (A : Type ℓ) : Type ℓ where
  pub items : List A
  pub order : List ℕ

module _ {ℓ} {A : Type ℓ} where
  abbrev pub index : List A → ℕ → Outcome A
  index xs i = elim (get_elem? xs i) [ none ↦ panic | some x ↦ done x ]

module _ {ℓ} {A : Type ℓ} where
  -- `slice::swap`
  pub swap : ℕ → ℕ → List A → Outcome (List A)
  swap a b xs = do x ← index xs a; y ← index xs b; done (set (set xs a y) b x)

  -- `while next != i`; the result holds the last `current`.
  pub follow : ℕ → ℕ → ℕ → ℕ → Permuting A → Outcome (ℕ × Permuting A)
  unfolding swap
  follow zero i current next s = out_of_fuel
  follow (suc fuel) i current next s = elim (next == i) [
    | true ↦ done (current, s)
    | false ↦ do
      items ← swap current next s.items
      let order = set s.order current current
      next' ← index order next
      follow fuel i next next' (record { items = items; order = order })
  ]

  -- The body of the `for` loop.
  pub permute_at : ℕ → Permuting A → Outcome (Permuting A)
  unfolding follow
  permute_at i s = do
    next ← index s.order i
    (current, s') ← follow (suc (length s.order)) i i next s
    done (record s' { order = set s'.order current current })

  -- `for i in i..i + rounds`
  pub permute_from : ℕ → ℕ → Permuting A → Outcome (Permuting A)
  unfolding permute_at
  permute_from zero i s = done s
  permute_from (suc rounds) i s = do s' ← permute_at i s; permute_from rounds (suc i) s'

  unfoldable pub apply_permutation : List A → List ℕ → Outcome (Permuting A)
  unfolding permute_from
  apply_permutation items order =
      permute_from (length order) 0 (record { items = items; order = order })
