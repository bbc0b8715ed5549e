-- ===== src/Migrations/Sorter/Keys.antt =====
-- The keys of the lookup table of cot/src/db/migrations/sorter.rs: the names of the migrations and the
-- models that they create, and those that are repeated.
use flareon.Base.{
  ℕ, suc, ◌≡◌, refl, sym, subst, List, [], ◌∷◌, ◌++◌, some, get_elem?, Text, lookup, lookup-insert,
  Bool-cases, Option-cases, ◌⊎◌, inl, inr, arith, ap, zero,
}
use mathlib.Core.List.{append_assoc, append-nil}
use flareon.Migrations.{Migration, Operation, create_model, add_field}
use flareon.Migrations.Sorter.{
  MigrationSorterError, cycle, invalid_dependency, duplicate_migration, duplicate_model, Result, ok,
  err, panicked, ◌>>=◌, MigrationLookup, by_app_and_name, by_app_and_model, lookup_eq,
  lookup_eq_iff, MigrationLookup-Eq, LookupTable, insert_new, add_models, table_from,
  create_lookup_table,
}
use flareon.Migrations.Sorter.Table.{Creates, Provides}

abbrev pub Has : {A : Type 0} → A → List A → Type 0
Has a [] = ⊥
Has a (b ∷ bs) = (b ≡ a) ⊎ Has a bs

abbrev pub HasTwice : {A : Type 0} → A → List A → Type 0
HasTwice a [] = ⊥
HasTwice a (b ∷ bs) = ((b ≡ a) × Has a bs) ⊎ HasTwice a bs

-- The keys of the models that the operations create, and those of the migrations with their names.
abbrev pub model_keys : Text → List Operation → List MigrationLookup
model_keys app [] = []
model_keys app (create_model t fields if_not_exists ∷ ops) =
    by_app_and_model app t ∷ model_keys app ops
model_keys app (add_field t field ∷ ops) = model_keys app ops

abbrev pub keys_from : List Migration → List MigrationLookup
keys_from [] = []
keys_from (m ∷ ms) =
    (by_app_and_name m.app_name m.name ∷ model_keys m.app_name m.operations) ++ keys_from ms

module _ {A : Type 0} (a : A) where
  Has-left : (xs ys : List A) → Has a xs → Has a (xs ++ ys)
  Has-left [] ys h = absurd h
  Has-left (x ∷ xs) ys (inl e) = inl e
  Has-left (x ∷ xs) ys (inr h) = inr (Has-left xs ys h)

  Has-right : (xs ys : List A) → Has a ys → Has a (xs ++ ys)
  Has-right [] ys h = h
  Has-right (x ∷ xs) ys h = inr (Has-right xs ys h)

  Has-either : (xs ys : List A) → Has a (xs ++ ys) → Has a xs ⊎ Has a ys
  Has-either [] ys h = inr h
  Has-either (x ∷ xs) ys (inl e) = inl (inl e)
  Has-either (x ∷ xs) ys (inr h) = elim (Has-either xs ys h) [ inl l ↦ inl (inr l) | inr r ↦ inr r ]

  HasTwice-left : (xs ys : List A) → HasTwice a xs → HasTwice a (xs ++ ys)
  HasTwice-left [] ys h = absurd h
  HasTwice-left (x ∷ xs) ys (inl (e, h)) = inl (e, Has-left xs ys h)
  HasTwice-left (x ∷ xs) ys (inr h) = inr (HasTwice-left xs ys h)

  HasTwice-of_both : (xs ys : List A) → Has a xs → Has a ys → HasTwice a (xs ++ ys)
  HasTwice-of_both [] ys h k = absurd h
  HasTwice-of_both (x ∷ xs) ys (inl e) k = inl (e, Has-right xs ys k)
  HasTwice-of_both (x ∷ xs) ys (inr h) k = inr (HasTwice-of_both xs ys h k)

-- A key of a migration is among the keys of the migrations.
Creates-Has :
    (app t : Text) (ops : List Operation)
    → Creates t ops
    → Has (by_app_and_model app t) (model_keys app ops)
Creates-Has app t [] h = absurd h
Creates-Has app t (create_model u fields if_not_exists ∷ ops) (inl e) =
    inl (ap (by_app_and_model app) e)
Creates-Has app t (create_model u fields if_not_exists ∷ ops) (inr h) =
    inr (Creates-Has app t ops h)
Creates-Has app t (add_field u field ∷ ops) h = Creates-Has app t ops h

Provides-Has :
    (m : Migration) (key : MigrationLookup)
    → Provides m key
    → Has key (by_app_and_name m.app_name m.name ∷ model_keys m.app_name m.operations)
Provides-Has m (by_app_and_name app name) (e, e') = inl (rw (e, e') refl)
Provides-Has m (by_app_and_model app t) (e, h) = inr (
    subst (λ x. Has (by_app_and_model x t) (model_keys m.app_name m.operations)) e
      (Creates-Has m.app_name t m.operations h))

pub keys_from-Has :
    (ms : List Migration) (j : ℕ) (m : Migration) (key : MigrationLookup)
    → get_elem? ms j ≡ some m
    → Provides m key
    → Has key (keys_from ms)
keys_from-Has [] j m key at h = absurd (cc)
keys_from-Has (n ∷ ms) zero m key at h =
    Has-left key (by_app_and_name n.app_name n.name ∷ model_keys n.app_name n.operations)
      (keys_from ms)
      (Provides-Has n key (subst (λ (x : Migration). Provides x key) (same n m at) h))
  where
    same : (x y : Migration) → some x ≡ some y → y ≡ x
    same x y e = cc
keys_from-Has (n ∷ ms) (suc j) m key at h =
    Has-right key (by_app_and_name n.app_name n.name ∷ model_keys n.app_name n.operations)
      (keys_from ms) (keys_from-Has ms j m key at h)

-- The table has the keys and no others.
abbrev pub IsTableWith : LookupTable → List MigrationLookup → Type 0
IsTableWith table keys =
    (key : MigrationLookup)
    → (Has key keys → (j : ℕ) × (lookup key table ≡ some j))
      × ((j : ℕ) → lookup key table ≡ some j → Has key keys)

-- The error is for a key that is repeated.
abbrev pub IsRepeated : MigrationSorterError → List MigrationLookup → Type 0
IsRepeated cycle keys = ⊥
IsRepeated (invalid_dependency d) keys = ⊥
IsRepeated (duplicate_migration app name) keys = HasTwice (by_app_and_name app name) keys
IsRepeated (duplicate_model app name) keys = HasTwice (by_app_and_model app name) keys

IsRepeated-left :
    (x : MigrationSorterError) (keys more : List MigrationLookup)
    → IsRepeated x keys
    → IsRepeated x (keys ++ more)
IsRepeated-left cycle keys more h = h
IsRepeated-left (invalid_dependency d) keys more h = h
IsRepeated-left (duplicate_migration app name) keys more h =
    HasTwice-left (by_app_and_name app name) keys more h
IsRepeated-left (duplicate_model app name) keys more h =
    HasTwice-left (by_app_and_model app name) keys more h

-- A table with the keys before and more of them, or the error for a key that is repeated among them.
abbrev pub Fills : List MigrationLookup → List MigrationLookup → Result LookupTable → Type 0
Fills seen more (ok table) = IsTableWith table (seen ++ more)
Fills seen more (err x) = IsRepeated x (seen ++ more)
Fills seen more panicked = ⊥

Fills-bind :
    (seen first later : List MigrationLookup) (r : Result LookupTable)
    (f : LookupTable → Result LookupTable)
    → Fills seen first r
    → ((table : LookupTable)
        → IsTableWith table (seen ++ first)
        → Fills (seen ++ first) later (f table))
    → Fills seen (first ++ later) (r >>= f)
Fills-bind seen first later (ok table) f h next =
    subst (λ keys. Fills [] keys (f table)) (append_assoc seen first later)
      (bare (seen ++ first) later (f table) (next table h))
  where
    bare :
        (xs ys : List MigrationLookup) (r : Result LookupTable)
        → Fills xs ys r
        → Fills [] (xs ++ ys) r
    bare xs ys (ok t) k = k
    bare xs ys (err x) k = k
    bare xs ys panicked k = k
Fills-bind seen first later (err x) f h next =
    subst (IsRepeated x) (append_assoc seen first later) (IsRepeated-left x (seen ++ first) later h)
Fills-bind seen first later panicked f h next = h

module _ (seen : List MigrationLookup) where
  insert_new-Fills :
      (key : MigrationLookup) (index : ℕ) (x : MigrationSorterError) (table : LookupTable)
      → (HasTwice key (seen ++ key ∷ []) → IsRepeated x (seen ++ key ∷ []))
      → IsTableWith table seen
      → Fills seen (key ∷ []) (insert_new key index x table)
  unfolding insert_new
  insert_new-Fills key index x table repeats h = elim (Option-cases (lookup key table)) [
    | inl free ↦
        rw (free, insert_new)
          λ k. (
            λ has. elim (Bool-cases (lookup_eq key k)) [
              | inl same ↦ (index, ground (arith, lookup-insert key k index table))
              | inr other ↦ elim (Has-either k seen (key ∷ []) has) [
                | inl old ↦
                    let (j, at) = (h k).0 old in
                    (j, ground (arith, lookup-insert key k index table))
                | inr (inl e) ↦ absurd (cc (other, (lookup_eq_iff key k).1 e))
                | inr (inr none_left) ↦ absurd none_left
              ]
            ],
            λ j at. elim (Bool-cases (lookup_eq key k)) [
              | inl same ↦ Has-right k seen (key ∷ []) (inl ((lookup_eq_iff key k).0 same))
              | inr other ↦
                  Has-left k seen (key ∷ [])
                    ((h k).1 j (ground (arith, lookup-insert key k index table)))
            ],
          )
    | inr (j, at) ↦
        rw (at, insert_new)
          (repeats (HasTwice-of_both key seen (key ∷ []) ((h key).1 j at) (inl refl)))
  ]

add_models-Fills :
    (app : Text) (ops : List Operation) (index : ℕ) (table : LookupTable)
    (seen : List MigrationLookup)
    → IsTableWith table seen
    → Fills seen (model_keys app ops) (add_models app ops index table)
unfolding add_models
add_models-Fills app [] index table seen h = subst (IsTableWith table) (sym (append-nil seen)) h
add_models-Fills app (create_model t fields if_not_exists ∷ ops) index table seen h =
    Fills-bind seen (by_app_and_model app t ∷ []) (model_keys app ops)
      (insert_new (by_app_and_model app t) index (duplicate_model app t) table)
      (add_models app ops index)
      (insert_new-Fills seen (by_app_and_model app t) index (duplicate_model app t) table
        (λ twice. twice) h)
      (λ table' h'. add_models-Fills app ops index table' _ h')
add_models-Fills app (add_field t field ∷ ops) index table seen h =
    add_models-Fills app ops index table seen h

table_from-Fills :
    (ms : List Migration) (index : ℕ) (table : LookupTable) (seen : List MigrationLookup)
    → IsTableWith table seen
    → Fills seen (keys_from ms) (table_from ms index table)
unfolding table_from
table_from-Fills [] index table seen h = subst (IsTableWith table) (sym (append-nil seen)) h
table_from-Fills (m ∷ ms) index table seen h =
    let key = by_app_and_name m.app_name m.name in
    Fills-bind seen (key ∷ []) (model_keys m.app_name m.operations ++ keys_from ms)
      (insert_new key index (duplicate_migration m.app_name m.name) table) _
      (insert_new-Fills seen key index (duplicate_migration m.app_name m.name) table
        (λ twice. twice) h)
      λ table' h'.
        Fills-bind (seen ++ key ∷ []) (model_keys m.app_name m.operations) (keys_from ms)
          (add_models m.app_name m.operations index table') (table_from ms (suc index))
          (add_models-Fills m.app_name m.operations index table' _ h')
          (λ table'' h''. table_from-Fills ms (suc index) table'' _ h'')

pub create_lookup_table-Fills :
    (ms : List Migration) → Fills [] (keys_from ms) (create_lookup_table ms)
unfolding create_lookup_table lookup
create_lookup_table-Fills ms =
    table_from-Fills ms 0 [] [] (λ key. (λ h. absurd h, λ j e. absurd (cc)))
