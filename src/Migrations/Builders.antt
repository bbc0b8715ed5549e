-- ===== src/Migrations/Builders.antt =====
-- The builders of cot/src/db/migrations.rs: `CreateModelBuilder` and `AddFieldBuilder`. Each method
-- takes the builder and returns it changed; `build` panics (`none`) on a part that was not given.
pub mod Laws
use flareon.Base.{◌≡◌, List, Option, none, some, Bool, true, false, Text}
use flareon.Migrations.{Field, Operation, create_model, add_field}

-- `unwrap_builder_option!`
abbrev pub required : {A : Type 0} → Option A → (A → Option Operation) → Option Operation
required none k = none
required (some a) k = k a

pub record CreateModelBuilder : Type 0 where
  pub table_name : Option Text
  pub fields : Option (List Field)
  pub if_not_exists : Bool

abbrev pub new_create_model : CreateModelBuilder
new_create_model = record { table_name = none; fields = none; if_not_exists = false }

abbrev pub set_table_name : Text → CreateModelBuilder → CreateModelBuilder
set_table_name table_name b = record b { table_name = some table_name }

abbrev pub set_fields : List Field → CreateModelBuilder → CreateModelBuilder
set_fields fields b = record b { fields = some fields }

abbrev pub set_if_not_exists : CreateModelBuilder → CreateModelBuilder
set_if_not_exists b = record b { if_not_exists = true }

unfoldable pub build_create_model : CreateModelBuilder → Option Operation
build_create_model b =
    required b.table_name λ table_name.
      required b.fields λ fields. some (create_model table_name fields b.if_not_exists)

pub record AddFieldBuilder : Type 0 where
  pub table_name : Option Text
  pub field : Option Field

abbrev pub new_add_field : AddFieldBuilder
new_add_field = record { table_name = none; field = none }

abbrev pub set_field_table : Text → AddFieldBuilder → AddFieldBuilder
set_field_table table_name b = record b { table_name = some table_name }

abbrev pub set_field : Field → AddFieldBuilder → AddFieldBuilder
set_field field b = record b { field = some field }

unfoldable pub build_add_field : AddFieldBuilder → Option Operation
build_add_field b =
    required b.table_name λ table_name. required b.field λ field. some (add_field table_name field)
