-- ===== src/Migrations/Sorter/Names.antt =====
-- The sort by name, and the engine over the sorted migrations.
use flareon.Base.{
  ◌≡◌, refl, sym, List, [], ◌∷◌, Bool, true, false, if◌then◌else◌, Bool-cases, inl, inr, Text,
  text_eq, text_eq_refl, text_eq_iff, subst, All, arith,
}
use mathlib.Core.List.{Permᴰ}
use flareon.Migrations.{Migration}
use flareon.Migrations.Sorter.{text_le, migration_le, insert_sorted, sort_by_name, sort}
use flareon.Migrations.Sorter.Outcomes.{Sorts, sort_by_graph-Sorts}

text_le-total : (s t : Text) → text_le s t ≡ false → text_le t s ≡ true
text_le-total [] t h = cc
text_le-total (c ∷ s) [] h = refl
text_le-total (c ∷ s) (d ∷ t) h = ground (arith, text_le-total s t)

text_le_trans : (s t u : Text) → text_le s t ≡ true → text_le t u ≡ true → text_le s u ≡ true
text_le_trans [] t u h k = refl
text_le_trans (c ∷ s) [] u h k = cc
text_le_trans (c ∷ s) (d ∷ t) [] h k = cc
text_le_trans (c ∷ s) (d ∷ t) (b ∷ u) h k = ground (arith, text_le_trans s t u)

text_le-antisym : (s t : Text) → text_le s t ≡ true → text_le t s ≡ true → text_eq s t ≡ true
text_le-antisym [] [] h k = refl
text_le-antisym [] (d ∷ t) h k = cc
text_le-antisym (c ∷ s) [] h k = cc
text_le-antisym (c ∷ s) (d ∷ t) h k = ground (arith, text_le-antisym s t)

text_eq-sym : (s t : Text) → text_eq s t ≡ text_eq t s
text_eq-sym [] [] = refl
text_eq-sym [] (d ∷ t) = refl
text_eq-sym (c ∷ s) [] = refl
text_eq-sym (c ∷ s) (d ∷ t) = ground (arith, text_eq-sym s t)

migration_le-total : (a b : Migration) → migration_le a b ≡ false → migration_le b a ≡ true
migration_le-total a b h = ground (
  arith,
  text_eq-sym a.app_name b.app_name,
  text_le-total a.app_name b.app_name,
  text_le-total a.name b.name,
)

pair_le : Text → Text → Text → Text → Bool
pair_le x y s t = if text_eq x y then text_le s t else text_le x y

pair_le-of_le :
    (x y z s u : Text)
    → text_eq x y ≡ false
    → text_le x y ≡ true
    → text_le y z ≡ true
    → pair_le x z s u ≡ true
unfolding pair_le
pair_le-of_le x y z s u e xy yz = elim (Bool-cases (text_eq x z)) [
  | inl g ↦
      let same = (text_eq_iff x z).0 g in
      let again = text_le-antisym x y xy (subst (λ v. text_le y v ≡ true) (sym same) yz) in cc
  | inr g ↦ rw g (text_le_trans x y z xy yz)
]

pair_le_trans :
    (x y z s t u : Text) → pair_le x y s t ≡ true → pair_le y z t u ≡ true → pair_le x z s u ≡ true
unfolding pair_le
pair_le_trans x y z s t u h k = elim (Bool-cases (text_eq x y)) [
  | inl e ↦
      let xy = (text_eq_iff x y).0 e in
      elim (Bool-cases (text_eq y z)) [
        | inl f ↦
            let yz = (text_eq_iff y z).0 f in
            rw (xy, yz, text_eq_refl z) (text_le_trans s t u (rw e at h) (rw f at k))
        | inr f ↦ rw (xy, f) (rw f at k)
      ]
  | inr e ↦
      let xy : text_le x y ≡ true = rw e at h in
      elim (Bool-cases (text_eq y z)) [
        | inl f ↦ let yz = (text_eq_iff y z).0 f in rw (sym yz, e) xy
        | inr f ↦ pair_le-of_le x y z s u e xy (rw f at k)
      ]
]

migration_le_trans :
    (a b c : Migration)
    → migration_le a b ≡ true
    → migration_le b c ≡ true
    → migration_le a c ≡ true
unfolding pair_le
migration_le_trans a b c h k =
    pair_le_trans a.app_name b.app_name c.app_name a.name b.name c.name h k

-- Each migration stands before all that are not less, by the name of the app and then by its own.
abbrev pub IsOrdered : List Migration → Type 0
IsOrdered [] = Unit {0}
IsOrdered (m ∷ ms) = All (λ n. migration_le m n ≡ true) ms × IsOrdered ms

All-trans :
    (m n : Migration) (ms : List Migration)
    → migration_le m n ≡ true
    → All (λ k. migration_le n k ≡ true) ms
    → All (λ k. migration_le m k ≡ true) ms
All-trans m n [] h all = tt
All-trans m n (k ∷ ms) h (le, all) = (migration_le_trans m n k h le, All-trans m n ms h all)

All-insert_sorted :
    (l m : Migration) (ns : List Migration)
    → migration_le l m ≡ true
    → All (λ n. migration_le l n ≡ true) ns
    → All (λ n. migration_le l n ≡ true) (insert_sorted m ns)
All-insert_sorted l m [] h all = (h, tt)
All-insert_sorted l m (n ∷ ns) h (le, all) = elim (Bool-cases (migration_le m n)) [
  | inl e ↦ rw e (h, (le, all))
  | inr e ↦ rw e (le, All-insert_sorted l m ns h all)
]

insert_sorted-IsOrdered :
    (m : Migration) (ns : List Migration) → IsOrdered ns → IsOrdered (insert_sorted m ns)
insert_sorted-IsOrdered m [] o = (tt, tt)
insert_sorted-IsOrdered m (n ∷ ns) (all, o) = elim (Bool-cases (migration_le m n)) [
  | inl e ↦ rw e ((e, All-trans m n ns e all), (all, o))
  | inr e ↦
      rw e (All-insert_sorted n m ns (migration_le-total m n e) all, insert_sorted-IsOrdered m ns o)
]

perm_refl : (ms : List Migration) → Permᴰ ms ms
perm_refl [] = Permᴰ.nil
perm_refl (m ∷ ms) = Permᴰ.cons refl (perm_refl ms)

insert_sorted-Perm : (m : Migration) (ns : List Migration) → Permᴰ (m ∷ ns) (insert_sorted m ns)
insert_sorted-Perm m [] = Permᴰ.cons refl Permᴰ.nil
insert_sorted-Perm m (n ∷ ns) = elim (Bool-cases (migration_le m n)) [
  | inl e ↦ rw e (perm_refl (m ∷ n ∷ ns))
  | inr e ↦ rw e (Permᴰ.trans (Permᴰ.swap refl refl) (Permᴰ.cons refl (insert_sorted-Perm m ns)))
]

sort_by_name-Perm : (ms : List Migration) → Permᴰ ms (sort_by_name ms)
unfolding sort_by_name
sort_by_name-Perm [] = Permᴰ.nil
sort_by_name-Perm (m ∷ ms) =
    Permᴰ.trans (Permᴰ.cons refl (sort_by_name-Perm ms)) (insert_sorted-Perm m (sort_by_name ms))

sort_by_name-IsOrdered : (ms : List Migration) → IsOrdered (sort_by_name ms)
unfolding sort_by_name
sort_by_name-IsOrdered [] = tt
sort_by_name-IsOrdered (m ∷ ms) =
    insert_sorted-IsOrdered m (sort_by_name ms) (sort_by_name-IsOrdered ms)

-- `sort` is the topological stage on the migrations in another order: that of their apps' names and
-- their own. What it returns is what `Sorts` says of the migrations in that order.
pub sort_lem :
    (ms : List Migration)
    → (named : List Migration) × Permᴰ ms named × IsOrdered named × Sorts named (sort ms)
unfolding sort
sort_lem ms = (
  sort_by_name ms,
  sort_by_name-Perm ms,
  sort_by_name-IsOrdered ms,
  sort_by_graph-Sorts (sort_by_name ms),
)
