-- ===== src/Generator/Cycles/Columns.antt =====
-- Removing cycles moves columns between operations, and loses none.
use flareon.Base.{
  ℕ, zero, suc, ◌≡◌, refl, sym, ◌∙◌, ap, subst, List, [], ◌∷◌, ◌++◌, map, some, Bool-cases, inl,
  inr, Option-cases, Text, get_elem?, set, arith,
}
use mathlib.Core.List.{append_assoc, map-append, Permᴰ}
use mathlib.Core.List.Permᴰ
use flareon.Graph.{Outcome, done, cycle_detected, panic, out_of_fuel, ◌>>=◌}
use flareon.Permutation.{index}
use flareon.Generator.{Field, DynOperation, create_model, add_field}
use flareon.Generator.Cycles.{
  Petgraph, is_field_foreign_key_to, fields_to_remove, fields_to_retain, remove_dependency,
  remove_edges, construct_dependency_graph, remove_cycles,
}

-- The columns that an operation makes, with their tables.
abbrev pub columns : DynOperation → List (Text × Field)
columns (create_model table_name _ fields) = map (λ f. (table_name, f)) fields
columns (add_field table_name _ field) = (table_name, field) ∷ []

abbrev pub all_columns : List DynOperation → List (Text × Field)
all_columns [] = []
all_columns (op ∷ ops) = columns op ++ all_columns ops

all_columns-append :
    (xs ys : List DynOperation) → all_columns (xs ++ ys) ≡ all_columns xs ++ all_columns ys
all_columns-append [] ys = refl
all_columns-append (x ∷ xs) ys =
    ap (λ t. columns x ++ t) (all_columns-append xs ys)
    ∙ sym (append_assoc (columns x) (all_columns xs) (all_columns ys))

partition-perm :
    (ty : Text) (fs : List Field) → Permᴰ fs (fields_to_retain ty fs ++ fields_to_remove ty fs)
unfolding fields_to_retain fields_to_remove
partition-perm ty [] = Permᴰ.nil
partition-perm ty (f ∷ fs) = elim (Bool-cases (is_field_foreign_key_to f ty)) [
  | inl yes_key ↦ rw yes_key (
      Permᴰ.trans (Permᴰ.cons refl (partition-perm ty fs))
        (Permᴰ.symm (Permᴰ.middle f (fields_to_retain ty fs) (fields_to_remove ty fs))))
  | inr other ↦ rw other (Permᴰ.cons refl (partition-perm ty fs))
]

all_columns-add :
    (t ty : Text) (fs : List Field)
    → all_columns (map (λ f. add_field t ty f) fs) ≡ map (λ f. (t, f)) fs
all_columns-add t ty [] = refl
all_columns-add t ty (f ∷ fs) = ap (λ x. (t, f) ∷ x) (all_columns-add t ty fs)

-- What follows from the result of an `Outcome`.
pub >>=-eq-done :
    {A B : Type 0} (r : Outcome A) (k : A → Outcome B) (b : B)
    → (r >>= k) ≡ done b
    → (a : A) × (r ≡ done a) × (k a ≡ done b)
>>=-eq-done (done a) k b e = (a, refl, e)
>>=-eq-done cycle_detected k b e = cc
>>=-eq-done panic k b e = cc
>>=-eq-done out_of_fuel k b e = cc

remove_dependency-columns :
    (from to from' : DynOperation) (added : List DynOperation)
    → remove_dependency from to ≡ done (from', added)
    → Permᴰ (columns from) (columns from' ++ all_columns added)
unfolding remove_dependency
remove_dependency-columns (create_model t ty fs) (create_model t2 to_ty fs2) from' added e =
    let left : from' ≡ create_model t ty (fields_to_retain to_ty fs) = ground arith in
    let right : added ≡ map (λ f. add_field t ty f) (fields_to_remove to_ty fs) = ground arith in
    rw (left, right, all_columns-add t ty (fields_to_remove to_ty fs))
      (subst (Permᴰ (map (λ f. (t, f)) fs))
        (map-append (λ f. (t, f)) (fields_to_retain to_ty fs) (fields_to_remove to_ty fs))
        (Permᴰ.map (λ f. (t, f)) (partition-perm to_ty fs)))
remove_dependency-columns (create_model t ty fs) (add_field t2 ty2 f2) from' added e = cc
remove_dependency-columns (add_field t ty f) to from' added e = cc

set-columns :
    (ops : List DynOperation) (i : ℕ) (op op' : DynOperation) (more : List (Text × Field))
    → get_elem? ops i ≡ some op
    → Permᴰ (columns op) (columns op' ++ more)
    → Permᴰ (all_columns ops) (all_columns (set ops i op') ++ more)
set-columns [] i op op' more at p = cc
set-columns (o ∷ ops) zero op op' more at p =
    let same : op ≡ o = cc in
    let p' : Permᴰ (columns o) (columns op' ++ more) =
      subst (λ x. Permᴰ (columns x) (columns op' ++ more)) same p in
    Permᴰ.trans (Permᴰ.append_right (all_columns ops) p') (
      subst (λ l. Permᴰ ((columns op' ++ more) ++ all_columns ops) l)
        (sym (append_assoc (columns op') (all_columns ops) more))
        (subst (λ l. Permᴰ l (columns op' ++ (all_columns ops ++ more)))
          (sym (append_assoc (columns op') more (all_columns ops)))
          (Permᴰ.append_left (columns op') (Permᴰ.append_comm more (all_columns ops)))))
set-columns (o ∷ ops) (suc i) op op' more at p =
    subst (Permᴰ (columns o ++ all_columns ops))
      (sym (append_assoc (columns o) (all_columns (set ops i op')) more))
      (Permᴰ.append_left (columns o) (set-columns ops i op op' more at p))

pub index-done :
    (ops : List DynOperation) (i : ℕ) (op : DynOperation)
    → index ops i ≡ done op
    → get_elem? ops i ≡ some op
index-done ops i op e = elim (Option-cases (get_elem? ops i)) [
  | inl out ↦ absurd (ground arith)
  | inr (o, at) ↦ ground arith
]

remove_edges-columns :
    (es : List (ℕ × ℕ)) (ops ops' : List DynOperation)
    → remove_edges es ops ≡ done ops'
    → Permᴰ (all_columns ops) (all_columns ops')
unfolding remove_edges
remove_edges-columns [] ops ops' e =
    let same : ops ≡ ops' = cc in
    subst (λ l. Permᴰ (all_columns ops) (all_columns l)) same (Permᴰ.refl (all_columns ops))
remove_edges-columns ((from, to) ∷ es) ops ops' e =
    let (to_op, at_to, e1) = >>=-eq-done (index ops to) _ ops' e in
    let (from_op, at_from, e2) = >>=-eq-done (index ops from) _ ops' e1 in
    let ((from', added), removed, e3) = >>=-eq-done (remove_dependency from_op to_op) _ ops' e2 in
    Permᴰ.trans
      (set-columns ops from from_op from' (all_columns added) (index-done ops from from_op at_from)
        (remove_dependency-columns from_op to_op from' added removed))
      (subst (λ l. Permᴰ l (all_columns ops')) (all_columns-append (set ops from from') added)
        (remove_edges-columns es (set ops from from' ++ added) ops' e3))

-- Whatever edges are taken for the feedback arc set: where `remove_cycles` does not panic, the
-- operations make the same columns in the same tables as before, each as often.
pub remove_cycles-columns :
    (pg : Petgraph) (ops ops' : List DynOperation)
    → remove_cycles pg ops ≡ done ops'
    → Permᴰ (all_columns ops) (all_columns ops')
unfolding remove_cycles
remove_cycles-columns pg ops ops' e =
    let (g, built, e') = >>=-eq-done (construct_dependency_graph ops) _ ops' e in
    remove_edges-columns (pg.greedy_feedback_arc_set g) ops ops' e'
