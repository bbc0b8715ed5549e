-- ===== src/Graph/Visit.antt =====
-- What one `toposort_visit` does to the two vectors.
use flareon.Base.{
  ℕ, ◌≤◌, ◌<◌, ◌≡◌, ◌↔◌, List, [], ◌∷◌, reverse, Option, some, true, length, get_elem?, mem, All,
  arith,
}
use flareon.Graph.{
  Outcome, done, cycle_detected, panic, out_of_fuel, ◌>>=◌, VisitedStatus, visiting, visited, Graph,
  vertex_num, Search, visit_each,
}
use flareon.Graph.Tally.{is_white, is_black, tally}
use flareon.Graph.Walks.{Walk, HasCycle, IsTopological}

abbrev pub order : Search → List ℕ
order s = reverse s.sorted_indices_stack

abbrev pub status_of : Search → ℕ → Option VisitedStatus
status_of s i = get_elem? s.status i

-- The black vertices are those on the stack, and the stack is sorted.
pub record IsConsistent (g : Graph) (s : Search) : Type 0 where
  pub size : length s.status ≡ vertex_num g
  pub counted : length s.sorted_indices_stack ≡ tally is_black s.status
  pub sorted : IsTopological g (order s)
  pub black_of_mem : (i : ℕ) → mem i (order s) ≡ true → status_of s i ≡ some visited
  pub mem_of_black : (i : ℕ) → status_of s i ≡ some visited → mem i (order s) ≡ true

-- From `s` on, vertices turned black and nothing else changed.
pub record Grows (s t : Search) : Type 0 where
  pub grey : (i : ℕ) → (status_of t i ≡ some visiting) ↔ (status_of s i ≡ some visiting)
  pub black : (i : ℕ) → status_of s i ≡ some visited → status_of t i ≡ some visited
  pub white : tally is_white t.status ≤ tally is_white s.status

pub Grows-refl : (s : Search) → Grows s s
Grows-refl s = record { grey = λ i. (λ h. h, λ h. h); black = λ i h. h; white = omega arith }

pub Grows-trans : {s t u : Search} → Grows s t → Grows t u → Grows s u
Grows-trans a b = record {
  grey = λ i. (λ h. (a.grey i).0 ((b.grey i).0 h), λ h. (b.grey i).1 ((a.grey i).1 h));
  black = λ i h. b.black i (a.black i h);
  white = omega (arith, a.white, b.white);
}

-- Every vertex under visit has a walk to `k`.
abbrev pub GreysReach : Graph → Search → ℕ → Type 0
GreysReach g s k = (i : ℕ) → status_of s i ≡ some visiting → Walk g i k

-- A visit of vertices returns with them black, or has found a cycle.
abbrev pub Visits : Graph → Search → List ℕ → Outcome Search → Type 0
Visits g s ks (done t) = IsConsistent g t × Grows s t × All (λ k. status_of t k ≡ some visited) ks
Visits g s ks cycle_detected = HasCycle g
Visits g s ks panic = ⊥
Visits g s ks out_of_fuel = ⊥

module _ (g : Graph) (visit : ℕ → Search → Outcome Search) (fuel : ℕ)
    (visits : (k : ℕ) (s : Search)
      → k < vertex_num g
      → IsConsistent g s
      → tally is_white s.status < fuel
      → GreysReach g s k
      → Visits g s (k ∷ []) (visit k s)) where
  Visits-bind :
      (s : Search) (k : ℕ) (ks : List ℕ) (r : Outcome Search)
      → Visits g s (k ∷ []) r
      → ((t : Search) → IsConsistent g t → Grows s t → Visits g t ks (visit_each visit ks t))
      → Visits g s (k ∷ ks) (r >>= visit_each visit ks)
  Visits-bind s k ks (done t) (c, grown, (black, _)) next =
      after (visit_each visit ks t) (next t c grown)
    where
      after : (r : Outcome Search) → Visits g t ks r → Visits g s (k ∷ ks) r
      after (done u) (c', grown', blacks) =
          (c', Grows-trans grown grown', (grown'.black k black, blacks))
      after cycle_detected found = found
      after panic h = h
      after out_of_fuel h = h
  Visits-bind s k ks cycle_detected found next = found
  Visits-bind s k ks panic h next = h
  Visits-bind s k ks out_of_fuel h next = h

  pub visit_each-Visits :
      (ks : List ℕ) (s : Search)
      → All (λ k. k < vertex_num g) ks
      → IsConsistent g s
      → tally is_white s.status < fuel
      → All (GreysReach g s) ks
      → Visits g s ks (visit_each visit ks s)
  unfolding visit_each
  visit_each-Visits [] s _ c _ _ = (c, Grows-refl s, tt)
  visit_each-Visits (k ∷ ks) s (lt, lts) c enough (reach, reaches) =
      Visits-bind s k ks (visit k s) (visits k s lt c enough reach) λ t c' grown.
        visit_each-Visits ks t lts c' (omega (arith, grown.white)) (moved t grown ks reaches)
    where
      moved :
          (t : Search)
          → Grows s t
          → (js : List ℕ) → All (GreysReach g s) js
          → All (GreysReach g t) js
      moved t grown [] _ = tt
      moved t grown (j ∷ js) (h, hs) = (λ i e. h i ((grown.grey i).0 e), moved t grown js hs)
