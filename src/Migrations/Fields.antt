-- ===== src/Migrations/Fields.antt =====
-- The methods of `Field` in cot/src/db/migrations.rs that change a field, and chains of them.
pub mod Nullable
use flareon.Base.{List, [], ◌∷◌, Option, none, some, Bool, true, false, Text}
use flareon.Migrations.{ForeignKeyPolicy, Field, add_foreign_key}

abbrev pub set_primary_key : Field → Field
set_primary_key f = record f { primary_key = true }

abbrev pub set_auto : Field → Field
set_auto f = record f { auto_value = true }

abbrev pub set_nullable : Field → Field
set_nullable f = record f { null = true }

abbrev pub set_null : Bool → Field → Field
set_null value f = record f { null = value }

abbrev pub set_unique : Field → Field
set_unique f = record f { unique = true }

pub data FieldCall : Type 0 where
  primary_key auto null unique : FieldCall
  set_null_to : Bool → FieldCall
  foreign_key : (to_model to_field : Text) (on_delete on_update : ForeignKeyPolicy) → FieldCall

abbrev pub field_call : FieldCall → Field → Option Field
field_call primary_key f = some (set_primary_key f)
field_call auto f = some (set_auto f)
field_call null f = some (set_nullable f)
field_call unique f = some (set_unique f)
field_call (set_null_to b) f = some (set_null b f)
field_call (foreign_key m n d u) f = add_foreign_key m n d u f

abbrev pub or_panic : Option Field → (Field → Option Field) → Option Field
or_panic none k = none
or_panic (some f) k = k f

-- A chain of calls, which panics (`none`) where one of them does.
unfoldable pub field_calls : List FieldCall → Field → Option Field
field_calls [] f = some f
field_calls (c ∷ calls) f = or_panic (field_call c f) (field_calls calls)
