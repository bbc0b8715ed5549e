-- ===== src/Migrations/Builders/Laws.antt =====
-- What a chain of calls on a builder builds.
use flareon.Base.{◌≡◌, refl, ap, List, [], ◌∷◌, Option, none, some, Bool, true, false, Text}
use flareon.Migrations.{Field, Operation, create_model, add_field}
use flareon.Migrations.Builders.{
  required, CreateModelBuilder, new_create_model, set_table_name, set_fields, set_if_not_exists,
  build_create_model, AddFieldBuilder, new_add_field, set_field_table, set_field, build_add_field,
}

-- The calls between the start of a builder and its `build`.
pub data CreateModelCall : Type 0 where
  table_name : Text → CreateModelCall
  fields : List Field → CreateModelCall
  if_not_exists : CreateModelCall

abbrev pub create_model_calls : List CreateModelCall → CreateModelBuilder → CreateModelBuilder
create_model_calls [] b = b
create_model_calls (table_name t ∷ calls) b = create_model_calls calls (set_table_name t b)
create_model_calls (fields fs ∷ calls) b = create_model_calls calls (set_fields fs b)
create_model_calls (if_not_exists ∷ calls) b = create_model_calls calls (set_if_not_exists b)

abbrev pub last_table : List CreateModelCall → Option Text → Option Text
last_table [] t = t
last_table (table_name t ∷ calls) _ = last_table calls (some t)
last_table (fields fs ∷ calls) t = last_table calls t
last_table (if_not_exists ∷ calls) t = last_table calls t

abbrev pub last_fields : List CreateModelCall → Option (List Field) → Option (List Field)
last_fields [] fs = fs
last_fields (table_name t ∷ calls) fs = last_fields calls fs
last_fields (fields fs ∷ calls) _ = last_fields calls (some fs)
last_fields (if_not_exists ∷ calls) fs = last_fields calls fs

abbrev pub asks_if_not_exists : List CreateModelCall → Bool → Bool
asks_if_not_exists [] b = b
asks_if_not_exists (table_name t ∷ calls) b = asks_if_not_exists calls b
asks_if_not_exists (fields fs ∷ calls) b = asks_if_not_exists calls b
asks_if_not_exists (if_not_exists ∷ calls) _ = asks_if_not_exists calls true

-- What a chain of calls asks for: the last table and the last fields, whatever the order of the
-- calls between them, and nothing where one of the two was never given.
abbrev pub asked_model : List CreateModelCall → Option Operation
asked_model calls = required (last_table calls none) λ t.
    required (last_fields calls none)
      λ fs. some (create_model t fs (asks_if_not_exists calls false))

create_model_calls_lem :
    (calls : List CreateModelCall) (b : CreateModelBuilder)
    → create_model_calls calls b ≡ record {
      table_name = last_table calls b.table_name;
      fields = last_fields calls b.fields;
      if_not_exists = asks_if_not_exists calls b.if_not_exists;
    }
create_model_calls_lem [] b = refl
create_model_calls_lem (table_name t ∷ calls) b = create_model_calls_lem calls (set_table_name t b)
create_model_calls_lem (fields fs ∷ calls) b = create_model_calls_lem calls (set_fields fs b)
create_model_calls_lem (if_not_exists ∷ calls) b =
    create_model_calls_lem calls (set_if_not_exists b)

-- For any chain of calls on a new builder of a model, `build` returns the operation with the last
-- table name and the last fields, and panics exactly where one of the two was not given.
pub build_create_model_lem :
    (calls : List CreateModelCall)
    → build_create_model (create_model_calls calls new_create_model) ≡ asked_model calls
unfolding build_create_model
build_create_model_lem calls = ap build_create_model (create_model_calls_lem calls new_create_model)

pub data AddFieldCall : Type 0 where
  field_table : Text → AddFieldCall
  field : Field → AddFieldCall

abbrev pub add_field_calls : List AddFieldCall → AddFieldBuilder → AddFieldBuilder
add_field_calls [] b = b
add_field_calls (field_table t ∷ calls) b = add_field_calls calls (set_field_table t b)
add_field_calls (field f ∷ calls) b = add_field_calls calls (set_field f b)

abbrev pub last_field_table : List AddFieldCall → Option Text → Option Text
last_field_table [] t = t
last_field_table (field_table t ∷ calls) _ = last_field_table calls (some t)
last_field_table (field f ∷ calls) t = last_field_table calls t

abbrev pub last_field : List AddFieldCall → Option Field → Option Field
last_field [] f = f
last_field (field_table t ∷ calls) f = last_field calls f
last_field (field f ∷ calls) _ = last_field calls (some f)

abbrev pub asked_field : List AddFieldCall → Option Operation
asked_field calls =
    required (last_field_table calls none)
      λ t. required (last_field calls none) λ f. some (add_field t f)

add_field_calls_lem :
    (calls : List AddFieldCall) (b : AddFieldBuilder)
    → add_field_calls calls b ≡ record {
      table_name = last_field_table calls b.table_name;
      field = last_field calls b.field;
    }
add_field_calls_lem [] b = refl
add_field_calls_lem (field_table t ∷ calls) b = add_field_calls_lem calls (set_field_table t b)
add_field_calls_lem (field f ∷ calls) b = add_field_calls_lem calls (set_field f b)

-- For any chain of calls on a new builder of an added field, `build` returns the operation with the
-- last table name and the last field, and panics exactly where one of the two was not given.
pub build_add_field_lem :
    (calls : List AddFieldCall)
    → build_add_field (add_field_calls calls new_add_field) ≡ asked_field calls
unfolding build_add_field
build_add_field_lem calls = ap build_add_field (add_field_calls_lem calls new_add_field)
