-- ===== src/Migrations/Schema.antt =====
-- The schema statements of an operation, forwards and backwards. The statements are those of
-- `sea_query`, with the column types that the database's mapper gives.
use flareon.Base.{List, [], ◌∷◌, map, none, some, Bool, Text}
use flareon.Migrations.{ColumnType, Field, Operation, create_model, add_field, ForeignKeyPolicy}

pub record ColumnDef (T : Type 0) : Type 0 where
  pub name : Text
  pub ty : T
  pub is_primary_key : Bool
  pub auto_increment : Bool
  pub is_null : Bool
  pub unique_key : Bool

pub record ForeignKeyCreate : Type 0 where
  pub from_tbl : Text
  pub from_col : Text
  pub to_tbl : Text
  pub to_col : Text
  pub on_delete : ForeignKeyPolicy
  pub on_update : ForeignKeyPolicy

pub data Statement (T : Type 0) : Type 0 where
  create_table :
      Text → List (ColumnDef T) → List ForeignKeyCreate → (if_not_exists : Bool) → Statement T
  add_column : Text → ColumnDef T → Statement T
  drop_table : Text → Statement T
  drop_column : Text → Text → Statement T

-- The loop over the fields pushes a foreign key for each field that has one.
unfoldable pub foreign_keys : Text → List Field → List ForeignKeyCreate
foreign_keys table_name [] = []
foreign_keys table_name (f ∷ fields) = elim f.foreign_key [
  | none ↦ foreign_keys table_name fields
  | some k ↦
      record {
        from_tbl = table_name;
        from_col = f.name;
        to_tbl = k.model;
        to_col = k.field;
        on_delete = k.on_delete;
        on_update = k.on_update;
      }
      ∷ foreign_keys table_name fields
]

module _ {T : Type 0} (mapper : ColumnType → T) where
  unfoldable pub as_column_def : Field → ColumnDef T
  as_column_def f = record {
    name = f.name;
    ty = mapper f.ty;
    is_primary_key = f.primary_key;
    auto_increment = f.auto_value;
    is_null = f.null;
    unique_key = f.unique;
  }

  unfoldable pub forwards_statement : Operation → Statement T
  unfolding as_column_def foreign_keys
  forwards_statement (create_model table_name fields if_not_exists) =
      create_table table_name (map as_column_def fields) (foreign_keys table_name fields)
        if_not_exists
  forwards_statement (add_field table_name field) = add_column table_name (as_column_def field)

  unfoldable pub backwards_statement : Operation → Statement T
  backwards_statement (create_model table_name fields if_not_exists) = drop_table table_name
  backwards_statement (add_field table_name field) = drop_column table_name field.name
