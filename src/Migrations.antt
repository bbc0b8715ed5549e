-- ===== src/Migrations.antt =====
-- cot/src/db/migrations.rs: migrations, their operations and dependencies. An identifier is a text.
pub mod Builders
pub mod Fields
pub mod Schema
pub mod Engine
pub mod Sorter
pub mod Startup
pub mod Tests
use flareon.Base.{
  ℕ, List, [], ◌∷◌, Option, none, some, Bool, true, false, not, ◌&&◌, ◌||◌, if◌then◌else◌, Text,
}

pub data ForeignKeyPolicy : Type 0 where
  no_action restrict cascade set_none : ForeignKeyPolicy

pub data ColumnType : Type 0 where
  boolean tiny_integer small_integer integer big_integer : ColumnType
  tiny_unsigned_integer small_unsigned_integer unsigned_integer big_unsigned_integer : ColumnType
  float double time date date_time date_time_with_time_zone text blob : ColumnType
  string : ℕ → ColumnType

pub record ForeignKeyReference : Type 0 where
  pub model : Text
  pub field : Text
  pub on_delete : ForeignKeyPolicy
  pub on_update : ForeignKeyPolicy

pub record Field : Type 0 where
  pub name : Text
  pub ty : ColumnType
  pub primary_key : Bool
  pub auto_value : Bool
  pub null : Bool
  pub unique : Bool
  pub foreign_key : Option ForeignKeyReference

unfoldable pub new_field : Text → ColumnType → Field
new_field name ty = record {
  name = name;
  ty = ty;
  primary_key = false;
  auto_value = false;
  null = false;
  unique = false;
  foreign_key = none;
}

abbrev pub is_set_none : ForeignKeyPolicy → Bool
is_set_none set_none = true
is_set_none _ = false

-- `Field::foreign_key`; `none` is the failed assertion.
unfoldable pub add_foreign_key :
    Text → Text → ForeignKeyPolicy → ForeignKeyPolicy → Field → Option Field
add_foreign_key to_model to_field on_delete on_update f =
    if f.null || not (is_set_none on_delete)
    then if f.null || not (is_set_none on_update)
      then some (record f {
        foreign_key = some (record {
          model = to_model;
          field = to_field;
          on_delete = on_delete;
          on_update = on_update;
        });
      })
      else none
    else none

pub data Operation : Type 0 where
  create_model : (table_name : Text) (fields : List Field) (if_not_exists : Bool) → Operation
  add_field : (table_name : Text) (field : Field) → Operation

pub data MigrationDependency : Type 0 where
  migration model : (app : Text) (name : Text) → MigrationDependency

pub record Migration : Type 0 where
  pub app_name : Text
  pub name : Text
  pub dependencies : List MigrationDependency
  pub operations : List Operation
