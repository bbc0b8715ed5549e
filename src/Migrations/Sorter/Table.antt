-- ===== src/Migrations/Sorter/Table.antt =====
-- The lookup table: each key leads to a migration that provides it.
use flareon.Base.{
  ℕ, suc, ◌+◌, ◌≡◌, refl, subst, List, [], ◌∷◌, some, get_elem?, Text, lookup, insert,
  lookup-insert, Bool-cases, Text-Eq, ◌⊎◌, inl, inr, arith,
}
use flareon.Migrations.{Migration, Operation, create_model, add_field}
use flareon.Migrations.Sorter.{
  MigrationSorterError, Result, ok, err, panicked, ◌>>=◌, MigrationLookup, by_app_and_name,
  by_app_and_model, lookup_eq, lookup_eq_iff, MigrationLookup-Eq, LookupTable, insert_new,
  add_models, table_from, create_lookup_table,
}

abbrev pub Creates : Text → List Operation → Type 0
Creates table_name [] = ⊥
Creates table_name (create_model t fields if_not_exists ∷ ops) =
    (t ≡ table_name) ⊎ Creates table_name ops
Creates table_name (add_field t field ∷ ops) = Creates table_name ops

-- The migration has the name, or creates the model.
abbrev pub Provides : Migration → MigrationLookup → Type 0
Provides m (by_app_and_name app name) = (m.app_name ≡ app) × (m.name ≡ name)
Provides m (by_app_and_model app table_name) = (m.app_name ≡ app) × Creates table_name m.operations

abbrev pub IsTableOf : List Migration → LookupTable → Type 0
IsTableOf all table =
    (key : MigrationLookup) (j : ℕ)
    → lookup key table ≡ some j
    → (m : Migration) × (get_elem? all j ≡ some m) × Provides m key

pub >>=-eq-ok {ℓ κ} :
    {A : Type ℓ} {B : Type κ} (r : Result A) (f : A → Result B) {b : B}
    → (r >>= f) ≡ ok b
    → (a : A) × (r ≡ ok a) × (f a ≡ ok b)
>>=-eq-ok (ok a) f e = (a, refl, e)
>>=-eq-ok (err x) f e = cc
>>=-eq-ok panicked f e = cc

insert_new-IsTableOf :
    (all : List Migration) (key : MigrationLookup) (index : ℕ) (x : MigrationSorterError)
    (table table' : LookupTable) (m : Migration)
    → get_elem? all index ≡ some m
    → Provides m key
    → insert_new key index x table ≡ ok table'
    → IsTableOf all table
    → IsTableOf all table'
unfolding insert_new
insert_new-IsTableOf all key index x table table' m at provides e h k j found =
    let is : insert key index table ≡ table' = ground arith in
    elim (Bool-cases (lookup_eq key k)) [
      | inl same ↦
          let here : index ≡ j = ground (arith, lookup-insert key k index table) in
          (
            m,
            subst (λ i. get_elem? all i ≡ some m) here at,
            subst (Provides m) ((lookup_eq_iff key k).0 same) provides,
          )
      | inr other ↦ h k j (ground (arith, lookup-insert key k index table))
    ]

add_models-IsTableOf :
    (all : List Migration) (ops : List Operation) (index : ℕ) (table table' : LookupTable)
    (m : Migration)
    → get_elem? all index ≡ some m
    → ((t : Text) → Creates t ops → Creates t m.operations)
    → add_models m.app_name ops index table ≡ ok table'
    → IsTableOf all table
    → IsTableOf all table'
unfolding add_models
add_models-IsTableOf all [] index table table' m at sub e h =
    let is : table ≡ table' = ground arith in subst (IsTableOf all) is h
add_models-IsTableOf all (create_model t fields if_not_exists ∷ ops) index table table' m at sub e
      h =
    let (mid, e1, e2) = >>=-eq-ok (insert_new (by_app_and_model m.app_name t) index _ table) _ e in
    add_models-IsTableOf all ops index mid table' m at (λ u c. sub u (inr c)) e2
      (insert_new-IsTableOf all (by_app_and_model m.app_name t) index _ table mid m at
        (refl, sub t (inl refl)) e1 h)
add_models-IsTableOf all (add_field t field ∷ ops) index table table' m at sub e h =
    add_models-IsTableOf all ops index table table' m at sub e h

table_from-IsTableOf :
    (all ms : List Migration) (index : ℕ) (table table' : LookupTable)
    → ((k : ℕ) (m : Migration) → get_elem? ms k ≡ some m → get_elem? all (index + k) ≡ some m)
    → table_from ms index table ≡ ok table'
    → IsTableOf all table
    → IsTableOf all table'
unfolding table_from
table_from-IsTableOf all [] index table table' sub e h =
    let is : table ≡ table' = ground arith in subst (IsTableOf all) is h
table_from-IsTableOf all (m ∷ ms) index table table' sub e h =
    let (t1, e1, r1) =
      >>=-eq-ok (insert_new (by_app_and_name m.app_name m.name) index _ table) _ e in
    let (t2, e2, r2) = >>=-eq-ok (add_models m.app_name m.operations index t1) _ r1 in
    let at : get_elem? all index ≡ some m =
      subst (λ i. get_elem? all i ≡ some m) (omega arith) (sub 0 m refl) in
    table_from-IsTableOf all ms (suc index) t2 table'
      (λ k n f. subst (λ i. get_elem? all i ≡ some n) (omega arith) (sub (suc k) n f)) r2
      (add_models-IsTableOf all m.operations index t1 t2 m at (λ t c. c) e2
        (insert_new-IsTableOf all (by_app_and_name m.app_name m.name) index _ table t1 m at
          (refl, refl) e1 h))

-- Each key of the table leads to a migration that provides it.
pub create_lookup_table-IsTableOf :
    (ms : List Migration) (table : LookupTable)
    → create_lookup_table ms ≡ ok table
    → IsTableOf ms table
unfolding create_lookup_table lookup
create_lookup_table-IsTableOf ms table e =
    table_from-IsTableOf ms ms 0 [] table
      (λ k m f. subst (λ i. get_elem? ms i ≡ some m) (omega arith) f) e (λ key j f. cc)
