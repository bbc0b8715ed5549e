-- ===== src/Migrations/Fields/Nullable.antt =====
-- A foreign key that sets its column to null stands on a column that can be null.
use flareon.Base.{
  ◌≡◌, refl, sym, ◌∙◌, ap, subst, List, [], ◌∷◌, map, Option, none, some, Bool, true, false, ◌||◌,
  Text, All, arith,
}
use mathlib.Core.List.{Memᴰ}
use flareon.Migrations.{
  ColumnType, ForeignKeyPolicy, ForeignKeyReference, Field, new_field, is_set_none, add_foreign_key,
}
use flareon.Migrations.Schema.{ColumnDef, ForeignKeyCreate, foreign_keys, as_column_def}
use flareon.Migrations.Fields.{
  FieldCall, primary_key, auto, null, unique, set_null_to, foreign_key, or_panic, field_calls,
  set_primary_key, set_auto, set_nullable, set_unique,
}

abbrev pub sets_null : ForeignKeyReference → Bool
sets_null k = is_set_none k.on_delete || is_set_none k.on_update

-- The field can be null if its foreign key sets it to null.
abbrev pub IsSound : Field → Type 0
IsSound f = (k : ForeignKeyReference) → f.foreign_key ≡ some k → sets_null k ≡ true → f.null ≡ true

-- No call takes back that the field can be null.
abbrev pub KeepsNull : List FieldCall → Type 0
KeepsNull [] = Unit {0}
KeepsNull (set_null_to false ∷ calls) = ⊥
KeepsNull (_ ∷ calls) = KeepsNull calls

add_foreign_key-IsSound :
    (m n : Text) (d u : ForeignKeyPolicy) (f g : Field)
    → add_foreign_key m n d u f ≡ some g
    → IsSound g
unfolding add_foreign_key
add_foreign_key-IsSound m n d u f g e k at s = ground arith

or_panic-IsSound :
    (o : Option Field) (k : Field → Option Field) (g : Field)
    → or_panic o k ≡ some g
    → ((h : Field) → o ≡ some h → k h ≡ some g → IsSound g)
    → IsSound g
or_panic-IsSound none k g e then = cc
or_panic-IsSound (some h) k g e then = then h refl e

field_calls-keeps :
    (calls : List FieldCall) (f g : Field)
    → KeepsNull calls
    → IsSound f
    → field_calls calls f ≡ some g
    → IsSound g
unfolding field_calls
field_calls-keeps [] f g keep sound e =
    subst IsSound (ap (λ o. elim o [ some x ↦ x | none ↦ f ]) e) sound
field_calls-keeps (primary_key ∷ calls) f g keep sound e =
    field_calls-keeps calls (set_primary_key f) g keep sound e
field_calls-keeps (auto ∷ calls) f g keep sound e =
    field_calls-keeps calls (set_auto f) g keep sound e
field_calls-keeps (unique ∷ calls) f g keep sound e =
    field_calls-keeps calls (set_unique f) g keep sound e
field_calls-keeps (null ∷ calls) f g keep sound e =
    field_calls-keeps calls (set_nullable f) g keep (λ k at s. refl) e
field_calls-keeps (set_null_to true ∷ calls) f g keep sound e =
    field_calls-keeps calls (set_nullable f) g keep (λ k at s. refl) e
field_calls-keeps (set_null_to false ∷ calls) f g keep sound e = absurd keep
field_calls-keeps (foreign_key m n d u ∷ calls) f g keep sound e =
    or_panic-IsSound (add_foreign_key m n d u f) (field_calls calls) g e
      λ h at e'. field_calls-keeps calls h g keep (add_foreign_key-IsSound m n d u f h at) e'

-- A field made by a chain of calls that did not panic, none of which takes back that it can be null,
-- can be null if its foreign key sets it to null.
pub field_calls-IsSound :
    (name : Text) (ty : ColumnType) (calls : List FieldCall) (f : Field)
    → KeepsNull calls
    → field_calls calls (new_field name ty) ≡ some f
    → IsSound f
unfolding new_field
field_calls-IsSound name ty calls f keep e =
    field_calls-keeps calls (new_field name ty) f keep (λ k at s. cc) e

-- The column of a foreign key, in the table that is created of the fields.
abbrev pub ColumnOf : {T : Type 0} → (ColumnType → T) → List Field → ForeignKeyCreate → Type 0
ColumnOf {T = T} mapper fields c =
    (d : ColumnDef T) × Memᴰ d (map (as_column_def mapper) fields)
    × (d.name ≡ c.from_col)
    × (d.is_null ≡ true)

-- In the table that is created of sound fields, every foreign key that sets its column to null
-- names a column of the table that is declared as one that can be null.
pub foreign_keys-Nullable :
    {T : Type 0} (mapper : ColumnType → T) (table_name : Text) (fields : List Field)
    (c : ForeignKeyCreate)
    → All IsSound fields
    → Memᴰ c (foreign_keys table_name fields)
    → (is_set_none c.on_delete || is_set_none c.on_update) ≡ true
    → ColumnOf mapper fields c
unfolding foreign_keys as_column_def
foreign_keys-Nullable mapper t [] c sound m s = elim m [ ]
foreign_keys-Nullable mapper t (f ∷ fields) c (sound, sounds) m s = split f.foreign_key refl λ m'.
    let (d, at, named, nullable) = foreign_keys-Nullable mapper t fields c sounds m' s in
    (d, Memᴰ.tail at, named, nullable)
  where
    split :
        (o : Option ForeignKeyReference)
        → f.foreign_key ≡ o
        → (Memᴰ c (foreign_keys t fields) → ColumnOf mapper (f ∷ fields) c)
        → ColumnOf mapper (f ∷ fields) c
    split none at later = later (rw (foreign_keys, at) at m)
    split (some k) at later = elim (rw (foreign_keys, at) at m) [
      | Memᴰ.head p ↦ (
        as_column_def mapper f,
        Memᴰ.head refl,
        ap (λ q. q.from_col) (sym p),
        sound k at (ap (λ q. is_set_none q.on_delete || is_set_none q.on_update) (sym p) ∙ s),
      )
      | Memᴰ.tail m' ↦ later m'
    ]
