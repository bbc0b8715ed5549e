-- ===== src/Graph/Toposort.antt =====
-- `toposort` against its specification: a sorted order of all vertices, or a cycle.
use flareon.Base.{
  ℕ, zero, suc, ◌≤◌, ◌<◌, ◌≡◌, ◌≢◌, ◌↔◌, refl, sym, List, [], ◌∷◌, reverse, some, true, ◌⊎◌, inl,
  inr, length, length-replicate, length-reverse, get_elem?-lt_length, get_elem?-replicate, mem,
  Bool-cases, ==_iff, ◌==◌, arith, if◌then◌else◌, subst,
}
use flareon.Graph.{
  Outcome, done, cycle_detected, panic, out_of_fuel, ◌>>=◌, VisitedStatus, not_visited, visiting,
  visited, Graph, vertex_num, Search, visit_down, start, toposort,
}
use flareon.Graph.Tally.{
  is_white, tally, tally-eq-length, tally-replicate_white, tally-replicate_black,
}
use flareon.Graph.Walks.{HasEdge, Walk, edge, step, HasCycle, IsClosed, IsTopological}
use flareon.Graph.Visit.{status_of, IsConsistent, Grows, Grows-refl, Grows-trans, Visits}
use flareon.Graph.Vertex.{toposort_visit-Visits}

-- A list of all vertices, each once, in an order that respects the edges.
pub record IsSortOf (g : Graph) (xs : List ℕ) : Type 0 where
  pub sorted : IsTopological g xs
  pub complete : (i : ℕ) → (mem i xs ≡ true) ↔ (i < vertex_num g)
  pub size : length xs ≡ vertex_num g

abbrev VisitsDown : Graph → Search → ℕ → Outcome Search → Type 0
VisitsDown g s k (done t) =
    IsConsistent g t × Grows s t × ((i : ℕ) → i < k → status_of t i ≡ some visited)
VisitsDown g s k cycle_detected = HasCycle g
VisitsDown g s k panic = ⊥
VisitsDown g s k out_of_fuel = ⊥

abbrev NoGrey : Search → Type 0
NoGrey s = (i : ℕ) → status_of s i ≢ some visiting

module _ (g : Graph) where
  VisitsDown-bind :
      (s : Search) (k : ℕ) (r : Outcome Search) (next : Search → Outcome Search)
      → Visits g s (k ∷ []) r
      → ((t : Search) → IsConsistent g t → Grows s t → VisitsDown g t k (next t))
      → VisitsDown g s (suc k) (r >>= next)
  VisitsDown-bind s k (done t) next (c, grown, (black, _)) rest = after (next t) (rest t c grown)
    where
      after : (r : Outcome Search) → VisitsDown g t k r → VisitsDown g s (suc k) r
      after (done u) (c', grown', blacks) = (
        c',
        Grows-trans grown grown',
        λ i lt. elim (Bool-cases (k == i)) [
          | inl same ↦
              subst (λ x. status_of u x ≡ some visited) ((==_iff k i).0 same) (grown'.black k black)
          | inr other ↦ blacks i (ground arith)
        ],
      )
      after cycle_detected h = h
      after panic h = h
      after out_of_fuel h = h
  VisitsDown-bind s k cycle_detected next h rest = h
  VisitsDown-bind s k panic next h rest = h
  VisitsDown-bind s k out_of_fuel next h rest = h

  visit_down-VisitsDown :
      (fuel k : ℕ) (s : Search)
      → IsClosed g
      → k ≤ vertex_num g
      → IsConsistent g s
      → tally is_white s.status < fuel
      → NoGrey s
      → VisitsDown g s k (visit_down g fuel k s)
  unfolding visit_down
  visit_down-VisitsDown fuel zero s closed le c enough clean =
      (c, Grows-refl s, λ i lt. absurd (omega arith))
  visit_down-VisitsDown fuel (suc k) s closed le c enough clean =
      VisitsDown-bind s k _ (visit_down g fuel k)
        (toposort_visit-Visits g closed fuel k s (omega arith) c enough (λ i e. absurd (clean i e)))
        λ t c' grown.
          visit_down-VisitsDown fuel k t closed (omega arith) c' (omega (arith, grown.white))
            (λ i e. clean i ((grown.grey i).0 e))

  start-status :
      (i : ℕ) (v : VisitedStatus) → status_of (start (vertex_num g)) i ≡ some v → v ≡ not_visited
  start-status i v e = get_elem?-replicate (vertex_num g) i not_visited v e

  start-IsConsistent : IsConsistent g (start (vertex_num g))
  start-IsConsistent = record {
    size = length-replicate (vertex_num g) not_visited;
    counted = omega (arith, tally-replicate_black (vertex_num g));
    sorted = tt;
    black_of_mem = λ i m. cc;
    mem_of_black = λ i e. cc (start-status i visited e);
  }

  down :
      IsClosed g
      → VisitsDown g
          (start (vertex_num g))
          (vertex_num g)
          (visit_down g (suc (vertex_num g)) (vertex_num g) (start (vertex_num g)))
  down closed =
      visit_down-VisitsDown (suc (vertex_num g)) (vertex_num g) (start (vertex_num g)) closed
        (omega arith) start-IsConsistent (omega (arith, tally-replicate_white (vertex_num g)))
        (λ i e. cc (start-status i visiting e))

  abbrev Answers : Outcome (List ℕ) → Type 0
  Answers (done xs) = IsSortOf g xs
  Answers cycle_detected = HasCycle g
  Answers panic = ⊥
  Answers out_of_fuel = ⊥

  abbrev finish : Search → Outcome (List ℕ)
  finish s =
      if length s.sorted_indices_stack == vertex_num g
      then done (reverse s.sorted_indices_stack)
      else panic

  done-Answers :
      (r : Outcome Search)
      → VisitsDown g (start (vertex_num g)) (vertex_num g) r
      → Answers (r >>= finish)
  done-Answers (done t) (c, grown, blacks) =
      let full : length t.sorted_indices_stack ≡ vertex_num g = omega (
        arith,
        tally-eq-length t.status (λ i lt. blacks i (omega (arith, c.size))),
        c.counted,
        c.size,
      ) in
      rw ((==_iff _ _).1 full) (record {
        sorted = c.sorted;
        complete = λ i. (
          λ m. omega (arith, get_elem?-lt_length t.status i (c.black_of_mem i m), c.size),
          λ lt. c.mem_of_black i (blacks i lt),
        );
        size = omega (arith, length-reverse t.sorted_indices_stack);
      })
  done-Answers cycle_detected h = h
  done-Answers panic h = h
  done-Answers out_of_fuel h = h

  toposort-Answers : IsClosed g → Answers (toposort g)
  unfolding toposort
  toposort-Answers closed = done-Answers _ (down closed)

  -- A sorted order leaves no room for a cycle.
  pub mem-successor :
      (xs : List ℕ) (j k : ℕ)
      → IsTopological g xs
      → mem j xs ≡ true
      → HasEdge g j k
      → mem k xs ≡ true
  mem-successor [] j k sorted m e = cc
  mem-successor (x ∷ xs) j k (fresh, after, sorted) m e = elim (Bool-cases (x == j)) [
    | inl same ↦
        let inside = after k (subst (λ v. HasEdge g v k) (sym ((==_iff x j).0 same)) e) in
        ground arith
    | inr other ↦ let inside = mem-successor xs j k sorted (ground arith) e in ground arith
  ]

  mem-reached :
      (x : ℕ) (xs : List ℕ) (k : ℕ) → IsTopological g (x ∷ xs) → Walk g x k → mem k xs ≡ true
  mem-reached x xs k h (edge e) = h.1 k e
  mem-reached x xs k h (step {j} w e) = mem-successor xs j k h.2 (mem-reached x xs j h w) e

  acyclic_of_IsTopological :
      (xs : List ℕ) (v : ℕ) → IsTopological g xs → mem v xs ≡ true → ¬ Walk g v v
  acyclic_of_IsTopological [] v h m w = cc
  acyclic_of_IsTopological (x ∷ xs) v h m w = elim (Bool-cases (x == v)) [
    | inl same ↦
        let back =
          mem-reached v xs v (subst (λ u. IsTopological g (u ∷ xs)) ((==_iff x v).0 same) h) w in
        cc (h.0, (==_iff x v).0 same)
    | inr other ↦ acyclic_of_IsTopological xs v h.2 (ground arith) w
  ]

  Walk-end : IsClosed g → {i k : ℕ} → Walk g i k → k < vertex_num g
  Walk-end closed {i} {k} (edge e) = closed i k e
  Walk-end closed {k} (step {j} w e) = closed j k e

  split-Answers :
      (r : Outcome (List ℕ))
      → Answers r
      → ((xs : List ℕ) × (r ≡ done xs) × IsSortOf g xs) ⊎ ((r ≡ cycle_detected) × HasCycle g)
  split-Answers (done xs) h = inl (xs, refl, h)
  split-Answers cycle_detected h = inr (refl, h)
  split-Answers panic h = elim h [ ]
  split-Answers out_of_fuel h = elim h [ ]

-- In a graph whose edges end at vertices, `toposort` returns: a list of all vertices, each once and
-- before all that it has an edge to; or it reports a cycle, and there is one. It never panics.
pub toposort_total :
    (g : Graph)
    → IsClosed g
    → ((xs : List ℕ) × (toposort g ≡ done xs) × IsSortOf g xs)
      ⊎ ((toposort g ≡ cycle_detected) × HasCycle g)
toposort_total g closed = split-Answers g (toposort g) (toposort-Answers g closed)

-- In such a graph, `toposort` reports a cycle exactly when there is one.
pub toposort-cycle_iff : (g : Graph) → IsClosed g → (toposort g ≡ cycle_detected) ↔ HasCycle g
toposort-cycle_iff g closed = elim (toposort_total g closed) [
  | inl (xs, e, sort) ↦ (
    λ e'. cc,
    λ (v, w).
        absurd (
          acyclic_of_IsTopological g xs v sort.sorted ((sort.complete v).1 (Walk-end g closed w))
            w),
  )
  | inr (e, cycle) ↦ (λ _. cycle, λ _. e)
]
