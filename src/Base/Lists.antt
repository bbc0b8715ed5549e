-- ===== src/Base/Lists.antt =====
-- Lists as vectors: indexed by native numbers, with a Boolean membership test for numbers.
use Prim.Native.Nat.{ℕ, zero, suc, ◌+◌, ◌<◌}
use mathlib.Core.Path.{◌≡◌, refl, ap, subst}
use mathlib.Core.Logic.{◌≢◌, ◌⊎◌, inl, inr}
use mathlib.Core.Bool.{Bool, true, false, ◌||◌}
use mathlib.Core.List.{List, [], ◌∷◌, ◌++◌, reverse, reverse-cons, Memᴰ}
use mathlib.Core.Option.{Option, none, some}
use native.Mathlib.Omega.{arith}
use flareon.Base.Tests.{◌==◌, if◌then◌else◌, ==_iff, Bool-cases}

module _ {ℓ} {A : Type ℓ} where
  abbrev pub length : List A → ℕ
  length [] = 0
  length (x ∷ xs) = suc (length xs)

  abbrev pub get_elem? : List A → ℕ → Option A
  get_elem? [] i = none
  get_elem? (x ∷ xs) zero = some x
  get_elem? (x ∷ xs) (suc i) = get_elem? xs i

  -- A write out of bounds changes nothing.
  abbrev pub set : List A → ℕ → A → List A
  set [] i v = []
  set (x ∷ xs) zero v = v ∷ xs
  set (x ∷ xs) (suc i) v = x ∷ set xs i v

  abbrev pub replicate : ℕ → A → List A
  replicate zero a = []
  replicate (suc n) a = a ∷ replicate n a

  abbrev pub take : ℕ → List A → List A
  take zero xs = []
  take (suc n) [] = []
  take (suc n) (x ∷ xs) = x ∷ take n xs

  abbrev pub drop : ℕ → List A → List A
  drop zero xs = xs
  drop (suc n) [] = []
  drop (suc n) (x ∷ xs) = drop n xs

  abbrev pub All {κ} : (A → Type κ) → List A → Type κ
  All P [] = Unit
  All P (x ∷ xs) = P x × All P xs

module _ {ℓ} {A : Type ℓ} where
  pub length-append : (xs ys : List A) → length (xs ++ ys) ≡ length xs + length ys
  length-append [] ys = omega arith
  length-append (x ∷ xs) ys = omega (arith, length-append xs ys)

  pub length-reverse : (xs : List A) → length (reverse xs) ≡ length xs
  length-reverse [] = refl
  length-reverse (x ∷ xs) =
      rw (reverse-cons x xs) (omega (arith, length-append (reverse xs) (x ∷ []), length-reverse xs))

  pub length-set : (xs : List A) (i : ℕ) (v : A) → length (set xs i v) ≡ length xs
  length-set [] i v = refl
  length-set (x ∷ xs) zero v = refl
  length-set (x ∷ xs) (suc i) v = ap suc (length-set xs i v)

  pub length-replicate : (n : ℕ) (a : A) → length (replicate n a) ≡ n
  length-replicate zero a = refl
  length-replicate (suc n) a = ap suc (length-replicate n a)

  pub get_elem?-set_self :
      (xs : List A) (i : ℕ) (v : A) → i < length xs → get_elem? (set xs i v) i ≡ some v
  get_elem?-set_self [] i v h = elim h [ ]
  get_elem?-set_self (x ∷ xs) zero v h = refl
  get_elem?-set_self (x ∷ xs) (suc i) v h = get_elem?-set_self xs i v (omega arith)

  pub get_elem?-set_ne :
      (xs : List A) (i j : ℕ) (v : A) → i ≢ j → get_elem? (set xs i v) j ≡ get_elem? xs j
  get_elem?-set_ne [] i j v h = refl
  get_elem?-set_ne (x ∷ xs) zero zero v h = absurd (h refl)
  get_elem?-set_ne (x ∷ xs) zero (suc j) v h = refl
  get_elem?-set_ne (x ∷ xs) (suc i) zero v h = refl
  get_elem?-set_ne (x ∷ xs) (suc i) (suc j) v h = get_elem?-set_ne xs i j v (λ e. h (ap suc e))

  pub get_elem?-set :
      (xs : List A) (i j : ℕ) (v : A)
      → i < length xs
      → get_elem? (set xs i v) j ≡ (if i == j then some v else get_elem? xs j)
  get_elem?-set xs i j v lt = elim (Bool-cases (i == j)) [
    | inl same ↦ rw same (
        subst (λ k. get_elem? (set xs i v) k ≡ some v) ((==_iff i j).0 same)
          (get_elem?-set_self xs i v lt))
    | inr other ↦ rw other (get_elem?-set_ne xs i j v (λ e. ground arith))
  ]

  pub get_elem?-lt_length : (xs : List A) (i : ℕ) {v : A} → get_elem? xs i ≡ some v → i < length xs
  get_elem?-lt_length [] i h = cc
  get_elem?-lt_length (x ∷ xs) zero h = omega arith
  get_elem?-lt_length (x ∷ xs) (suc i) h = omega (arith, get_elem?-lt_length xs i h)

  pub get_elem?_of_lt : (xs : List A) (i : ℕ) → i < length xs → (v : A) × (get_elem? xs i ≡ some v)
  get_elem?_of_lt [] i h = elim h [ ]
  get_elem?_of_lt (x ∷ xs) zero h = (x, refl)
  get_elem?_of_lt (x ∷ xs) (suc i) h = get_elem?_of_lt xs i (omega arith)

  pub get_elem?-replicate : (n i : ℕ) (a v : A) → get_elem? (replicate n a) i ≡ some v → v ≡ a
  get_elem?-replicate zero i a v h = cc
  get_elem?-replicate (suc n) zero a v h = cc
  get_elem?-replicate (suc n) (suc i) a v h = get_elem?-replicate n i a v h

-- Membership of a number in a list, as a test.
abbrev pub mem : ℕ → List ℕ → Bool
mem a [] = false
mem a (x ∷ xs) = x == a || mem a xs

pub mem-append : (a : ℕ) (xs ys : List ℕ) → mem a (xs ++ ys) ≡ (mem a xs || mem a ys)
mem-append a [] ys = refl
mem-append a (x ∷ xs) ys = ground (arith, mem-append a xs ys)

abbrev pub Distinct : List ℕ → Type 0
Distinct [] = Unit
Distinct (x ∷ xs) = (mem x xs ≡ false) × Distinct xs

pub mem-split : (a x : ℕ) (xs : List ℕ) → mem a (x ∷ xs) ≡ true → (x ≡ a) ⊎ (mem a xs ≡ true)
mem-split a x xs h = ground (arith)

pub All-mem {κ} : (P : ℕ → Type κ) (a : ℕ) (xs : List ℕ) → All P xs → mem a xs ≡ true → P a
All-mem P a [] h m = cc
All-mem P a (x ∷ xs) h m = elim (mem-split a x xs m) [
  | inl e ↦ rw (← e) h.0
  | inr m' ↦ All-mem P a xs h.1 m'
]

pub mem-get_elem? : (xs : List ℕ) (k r : ℕ) → get_elem? xs k ≡ some r → mem r xs ≡ true
mem-get_elem? [] k r e = cc
mem-get_elem? (x ∷ xs) zero r e = ground arith
mem-get_elem? (x ∷ xs) (suc k) r e = ground (arith, mem-get_elem? xs k r e)

pub get_elem?_of_mem : (xs : List ℕ) (r : ℕ) → mem r xs ≡ true → (k : ℕ) × (get_elem? xs k ≡ some r)
get_elem?_of_mem [] r m = cc
get_elem?_of_mem (x ∷ xs) r m = elim (Bool-cases (x == r)) [
  | inl same ↦ (0, ap some ((==_iff x r).0 same))
  | inr other ↦ let (k, at) = get_elem?_of_mem xs r (ground arith) in (suc k, at)
]

pub Distinct-injective :
    (xs : List ℕ) (j k r : ℕ)
    → Distinct xs
    → get_elem? xs j ≡ some r
    → get_elem? xs k ≡ some r
    → j ≡ k
Distinct-injective [] j k r d e f = cc
Distinct-injective (x ∷ xs) zero zero r d e f = refl
Distinct-injective (x ∷ xs) zero (suc k) r d e f = ground (arith, mem-get_elem? xs k r f)
Distinct-injective (x ∷ xs) (suc j) zero r d e f = ground (arith, mem-get_elem? xs j r e)
Distinct-injective (x ∷ xs) (suc j) (suc k) r d e f = ap suc (Distinct-injective xs j k r d.1 e f)

module _ {ℓ κ} {A : Type ℓ} (P : A → Type κ) where
  pub All-append : (xs ys : List A) → All P xs → All P ys → All P (xs ++ ys)
  All-append [] ys h k = k
  All-append (x ∷ xs) ys (p, h) k = (p, All-append xs ys h k)

  pub All-left : (xs ys : List A) → All P (xs ++ ys) → All P xs
  All-left [] ys h = tt
  All-left (x ∷ xs) ys (p, h) = (p, All-left xs ys h)

  pub All-right : (xs ys : List A) → All P (xs ++ ys) → All P ys
  All-right [] ys h = h
  All-right (x ∷ xs) ys (p, h) = All-right xs ys h

  pub All-reverse : (xs : List A) → All P xs → All P (reverse xs)
  All-reverse [] h = tt
  All-reverse (x ∷ xs) (p, h) =
      rw (reverse-cons x xs) (All-append (reverse xs) (x ∷ []) (All-reverse xs h) (p, tt))

pub Memᴰ-append {ℓ} :
    {A : Type ℓ} (a : A) (xs ys : List A) → Memᴰ a xs ⊎ Memᴰ a ys → Memᴰ a (xs ++ ys)
Memᴰ-append a [] ys (inl m) = elim m [ ]
Memᴰ-append a [] ys (inr m) = m
Memᴰ-append a (x ∷ xs) ys (inl (Memᴰ.head e)) = Memᴰ.head e
Memᴰ-append a (x ∷ xs) ys (inl (Memᴰ.tail m)) = Memᴰ.tail (Memᴰ-append a xs ys (inl m))
Memᴰ-append a (x ∷ xs) ys (inr m) = Memᴰ.tail (Memᴰ-append a xs ys (inr m))

pub All-weaken {ℓ κ} :
    {A : Type ℓ} (P Q : A → Type κ) (xs : List A) → ((a : A) → P a → Q a) → All P xs → All Q xs
All-weaken P Q [] f h = tt
All-weaken P Q (x ∷ xs) f (p, h) = (f x p, All-weaken P Q xs f h)
