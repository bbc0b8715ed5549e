-- ===== src/Graph/Vertex.antt =====
-- One call of `toposort_visit`: the marks before and after the loop over the neighbours.
use flareon.Base.{
  ℕ, zero, suc, ◌<◌, ◌≡◌, refl, List, [], ◌∷◌, Option, none, some, true, false, inl, inr, length,
  length-append, length-set, get_elem?, get_elem?-set, get_elem?-lt_length, get_elem?_of_lt, mem,
  All, All-mem, Bool-cases, ==_iff, ◌==◌, arith, if◌then◌else◌, subst,
}
use mathlib.Core.List.{reverse-append}
use flareon.Graph.{
  Outcome, done, cycle_detected, panic, out_of_fuel, ◌>>=◌, VisitedStatus, not_visited, visiting,
  visited, Graph, vertex_num, Search, mark, push, visit_vertex, toposort_visit,
}
use flareon.Graph.Tally.{is_white, is_black, tally, tally-set}
use flareon.Graph.Walks.{HasEdge, Walk, edge, step, IsClosed}
use flareon.Graph.Visit.{
  order, status_of, IsConsistent, Grows, GreysReach, Visits, Grows-refl, visit_each-Visits,
}

status_of-mark :
    (i j : ℕ) (v : VisitedStatus) (s : Search)
    → i < length s.status
    → status_of (mark i v s) j ≡ (if i == j then some v else status_of s j)
status_of-mark i j v s lt = get_elem?-set s.status i j v lt

order-push : (i : ℕ) (s : Search) → order (push i s) ≡ i ∷ order s
order-push i s = reverse-append s.sorted_indices_stack (i ∷ [])

module _ (g : Graph) (i : ℕ) (s : Search) (c : IsConsistent g s)
    (white : status_of s i ≡ some not_visited) where
  in_range : i < length s.status
  in_range = get_elem?-lt_length s.status i white

  enter-IsConsistent : IsConsistent g (mark i visiting s)
  enter-IsConsistent = record {
    size = omega (arith, length-set s.status i visiting, c.size);
    counted = omega (arith, tally-set is_black s.status i not_visited visiting white, c.counted);
    sorted = c.sorted;
    black_of_mem =
        λ j m. ground (arith, status_of-mark i j visiting s in_range, c.black_of_mem j m);
    mem_of_black = λ j b. ground (arith, status_of-mark i j visiting s in_range, c.mem_of_black j);
  }

  enter-white : suc (tally is_white (mark i visiting s).status) ≡ tally is_white s.status
  enter-white = omega (arith, tally-set is_white s.status i not_visited visiting white)

  enter-GreysReach :
      (targets ks : List ℕ)
      → get_elem? g.vertex_edges i ≡ some targets
      → ((k : ℕ) → mem k ks ≡ true → mem k targets ≡ true)
      → GreysReach g s i
      → All (GreysReach g (mark i visiting s)) ks
  enter-GreysReach targets [] found sub reach = tt
  enter-GreysReach targets (k ∷ ks) found sub reach = (
    (λ j grey.
        let link : HasEdge g i k = (targets, found, sub k (ground arith)) in
        elim (Bool-cases (i == j)) [
          | inl same ↦ subst (λ x. Walk g x k) ((==_iff i j).0 same) (edge link)
          | inr other ↦ step (reach j (ground (arith, status_of-mark i j visiting s in_range))) link
        ]),
    enter-GreysReach targets ks found (λ j m. sub j (ground arith)) reach,
  )

  module _ (t : Search) (ct : IsConsistent g t) (grown : Grows (mark i visiting s) t) where
    still_grey : status_of t i ≡ some visiting
    still_grey = (grown.grey i).1 (ground (arith, status_of-mark i i visiting s in_range))

    t_range : i < length t.status
    t_range = get_elem?-lt_length t.status i still_grey

    not_on_stack : mem i (order t) ≡ false
    not_on_stack = elim (Bool-cases (mem i (order t))) [
      | inl m ↦ absurd (cc (ct.black_of_mem i m, still_grey))
      | inr m ↦ m
    ]

    leave-IsConsistent :
        ((k : ℕ) → HasEdge g i k → status_of t k ≡ some visited)
        → IsConsistent g (push i (mark i visited t))
    leave-IsConsistent blacks = record {
      size = omega (arith, length-set t.status i visited, ct.size);
      counted = omega (
        arith,
        length-append t.sorted_indices_stack (i ∷ []),
        tally-set is_black t.status i visiting visited still_grey,
        ct.counted,
      );
      sorted = rw order-push (not_on_stack, λ k e. ct.mem_of_black k (blacks k e), ct.sorted);
      black_of_mem = λ j m.
          let m' : mem j (i ∷ order t) ≡ true = rw order-push at m in
          ground (arith, status_of-mark i j visited t t_range, ct.black_of_mem j);
      mem_of_black = λ j b.
          rw order-push (ground (arith, status_of-mark i j visited t t_range, ct.mem_of_black j));
    }

    leave-Grows : Grows s (push i (mark i visited t))
    leave-Grows = record {
      grey = λ j. ground (
        arith,
        status_of-mark i j visited t t_range,
        status_of-mark i j visiting s in_range,
        grown.grey j,
      );
      black = λ j b. ground (
        arith,
        status_of-mark i j visited t t_range,
        status_of-mark i j visiting s in_range,
        grown.black j,
      );
      white = omega (
        arith,
        tally-set is_white t.status i visiting visited still_grey,
        enter-white,
        grown.white,
      );
    }

  -- The vertex after its neighbours were visited.
  leave-Visits :
      (targets : List ℕ) (r : Outcome Search)
      → get_elem? g.vertex_edges i ≡ some targets
      → Visits g (mark i visiting s) targets r
      → Visits g s (i ∷ []) (r >>= λ t. done (push i (mark i visited t)))
  leave-Visits targets (done t) found (ct, grown, blacks) = (
    leave-IsConsistent t ct grown
        λ k (ts, at_ts, m). All-mem (λ k. status_of t k ≡ some visited) k targets blacks (cc),
    leave-Grows t ct grown,
    (ground (arith, status_of-mark i i visited t (t_range t ct grown)), tt),
  )
  leave-Visits targets cycle_detected found h = h
  leave-Visits targets panic found h = h
  leave-Visits targets out_of_fuel found h = h

module _ (g : Graph) (closed : IsClosed g) where
  targets-below :
      (i : ℕ) (targets ks : List ℕ)
      → get_elem? g.vertex_edges i ≡ some targets
      → ((k : ℕ) → mem k ks ≡ true → mem k targets ≡ true)
      → All (λ k. k < vertex_num g) ks
  targets-below i targets [] found sub = tt
  targets-below i targets (k ∷ ks) found sub = (
    closed i k (targets, found, sub k (ground arith)),
    targets-below i targets ks found (λ j m. sub j (ground arith)),
  )

  visit_vertex-Visits :
      (visit : ℕ → Search → Outcome Search) (fuel i : ℕ) (s : Search)
      → ((k : ℕ) (s : Search)
          → k < vertex_num g
          → IsConsistent g s
          → tally is_white s.status < fuel
          → GreysReach g s k
          → Visits g s (k ∷ []) (visit k s))
      → IsConsistent g s
      → tally is_white s.status < suc fuel
      → GreysReach g s i
      → (v : Option VisitedStatus) (ts : Option (List ℕ)) → status_of s i ≡ v
      → get_elem? g.vertex_edges i ≡ ts
      → i < vertex_num g
      → Visits g s (i ∷ []) (visit_vertex visit i s v ts)
  unfolding visit_vertex
  visit_vertex-Visits visit fuel i s visits c enough reach none ts e f lt =
      let (v, e') = get_elem?_of_lt s.status i (omega (arith, c.size)) in cc
  visit_vertex-Visits visit fuel i s visits c enough reach (some visited) ts e f lt =
      (c, Grows-refl s, (e, tt))
  visit_vertex-Visits visit fuel i s visits c enough reach (some visiting) ts e f lt =
      (i, reach i e)
  visit_vertex-Visits visit fuel i s visits c enough reach (some not_visited) none e f lt =
      let (ts, f') = get_elem?_of_lt g.vertex_edges i lt in cc
  visit_vertex-Visits visit fuel i s visits c enough reach (some not_visited) (some ts) e f lt =
      leave-Visits g i s c e ts _ f (
        visit_each-Visits g visit fuel visits ts (mark i visiting s)
          (targets-below i ts ts f (λ k m. m)) (enter-IsConsistent g i s c e)
          (omega (arith, enter-white g i s c e))
          (enter-GreysReach g i s c e ts ts f (λ k m. m) reach))

  -- With more fuel than white vertices, a visit ends, and by itself or in a cycle.
  pub toposort_visit-Visits :
      (fuel i : ℕ) (s : Search)
      → i < vertex_num g
      → IsConsistent g s
      → tally is_white s.status < fuel
      → GreysReach g s i
      → Visits g s (i ∷ []) (toposort_visit g fuel i s)
  unfolding toposort_visit
  toposort_visit-Visits zero i s lt c enough reach = absurd (omega arith)
  toposort_visit-Visits (suc fuel) i s lt c enough reach =
      visit_vertex-Visits (toposort_visit g fuel) fuel i s (toposort_visit-Visits fuel) c enough
        reach (status_of s i) (get_elem? g.vertex_edges i) refl refl lt
