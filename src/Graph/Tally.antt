-- ===== src/Graph/Tally.antt =====
-- How many vertices have a status, and how a write changes that.
use flareon.Base.{
  ℕ, zero, suc, ◌+◌, ◌<◌, ◌≡◌, refl, List, [], ◌∷◌, Bool, true, false, some, length, get_elem?, set,
  replicate, arith,
}
use flareon.Graph.{VisitedStatus, not_visited, visited}

abbrev pub is_white : VisitedStatus → Bool
is_white not_visited = true
is_white _ = false

abbrev pub is_black : VisitedStatus → Bool
is_black visited = true
is_black _ = false

abbrev weight : Bool → ℕ
weight true = 1
weight false = 0

abbrev pub tally : (VisitedStatus → Bool) → List VisitedStatus → ℕ
tally p [] = 0
tally p (v ∷ vs) = weight (p v) + tally p vs

pub tally-set :
    (p : VisitedStatus → Bool) (vs : List VisitedStatus) (i : ℕ) (v w : VisitedStatus)
    → get_elem? vs i ≡ some v
    → tally p (set vs i w) + weight (p v) ≡ tally p vs + weight (p w)
tally-set p [] i v w h = ground arith
tally-set p (x ∷ vs) zero v w h = ground arith
tally-set p (x ∷ vs) (suc i) v w h = omega (arith, tally-set p vs i v w h)

pub tally-replicate_black : (n : ℕ) → tally is_black (replicate n not_visited) ≡ 0
tally-replicate_black zero = refl
tally-replicate_black (suc n) = omega (arith, tally-replicate_black n)

pub tally-replicate_white : (n : ℕ) → tally is_white (replicate n not_visited) ≡ n
tally-replicate_white zero = refl
tally-replicate_white (suc n) = omega (arith, tally-replicate_white n)

-- Once every vertex is black, the tally is their number.
pub tally-eq-length :
    (vs : List VisitedStatus)
    → ((i : ℕ) → i < length vs → get_elem? vs i ≡ some visited)
    → tally is_black vs ≡ length vs
tally-eq-length [] h = refl
tally-eq-length (v ∷ vs) h =
    let first = h 0 (omega arith) in
    let rest = tally-eq-length vs (λ i lt. h (suc i) (omega arith)) in ground arith
