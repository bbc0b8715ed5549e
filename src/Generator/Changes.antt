-- ===== src/Generator/Changes.antt =====
-- `generate_operations`: the operations that lead from the models of the migrations to those of the
-- application. `none` is a `todo!()` of the source.
pub mod Schema
pub mod Diff
pub mod Operations
pub mod Kept
use flareon.Base.{
  List, [], ◌∷◌, ◌++◌, Option, none, some, Bool, true, false, not, if◌then◌else◌, Text, text_eq,
  Text-Eq, lookup, insert,
}
use flareon.Migrations.Sorter.{text_le}
use flareon.Generator.{
  Field, Model, ModelInSource, DynOperation, create_model, add_field, field_eq, model_eq,
}

infixl 5 ◌>>=◌
abbrev pub ◌>>=◌ : {A B : Type 0} → Option A → (A → Option B) → Option B
none >>= k = none
some a >>= k = k a

-- A `HashSet` of names, collected and sorted: each name once, in order.
unfoldable pub insert_name : Text → List Text → List Text
insert_name t [] = t ∷ []
insert_name t (u ∷ us) =
    if text_eq t u then u ∷ us else if text_le t u then t ∷ u ∷ us else u ∷ insert_name t us

unfoldable pub model_map :
    List ModelInSource → List (Text × ModelInSource) → List (Text × ModelInSource)
model_map [] map = map
model_map (m ∷ ms) map = model_map ms (insert m.model.table_name m map)

unfoldable pub model_names : List ModelInSource → List Text → List Text
unfolding insert_name
model_names [] names = names
model_names (m ∷ ms) names = model_names ms (insert_name m.model.table_name names)

unfoldable pub field_map : List Field → List (Text × Field) → List (Text × Field)
field_map [] map = map
field_map (f ∷ fs) map = field_map fs (insert f.column_name f map)

unfoldable pub field_names : List Field → List Text → List Text
unfolding insert_name
field_names [] names = names
field_names (f ∷ fs) names = field_names fs (insert_name f.column_name names)

abbrev pub make_create_model_operation : ModelInSource → DynOperation
make_create_model_operation m = create_model m.model.table_name m.model.resolved_ty m.model.fields

abbrev pub make_add_field_operation : ModelInSource → Field → DynOperation
make_add_field_operation m field = add_field m.model.table_name m.model.resolved_ty field

-- `todo!()` unless nothing is to be done.
abbrev pub make_alter_field_operation : Field → Field → Option (List DynOperation)
make_alter_field_operation app_field migration_field =
    if field_eq app_field migration_field then some [] else none

-- One round of the loop over the field names.
abbrev pub alter_field : ModelInSource → Option Field → Option Field → Option (List DynOperation)
alter_field app_model (some app_field) none =
    some (make_add_field_operation app_model app_field ∷ [])
alter_field app_model (some app_field) (some migration_field) =
    make_alter_field_operation app_field migration_field
alter_field app_model none (some migration_field) = none
alter_field app_model none none = none

unfoldable pub alter_fields :
    ModelInSource
    → List (Text × Field)
    → List (Text × Field)
    → List Text
    → Option (List DynOperation)
alter_fields app_model app_fields migration_fields [] = some []
alter_fields app_model app_fields migration_fields (name ∷ names) = do
  operations ← alter_field app_model (lookup name app_fields) (lookup name migration_fields)
  rest ← alter_fields app_model app_fields migration_fields names
  some (operations ++ rest)

unfoldable pub make_alter_model_operations :
    ModelInSource → ModelInSource → Option (List DynOperation)
unfolding alter_fields field_map field_names
make_alter_model_operations app_model migration_model =
    alter_fields app_model (field_map app_model.model.fields [])
      (field_map migration_model.model.fields [])
      (field_names migration_model.model.fields (field_names app_model.model.fields []))

-- What `generate_operations` returns: the modified models and the operations.
pub record Generated : Type 0 where
  pub modified_models : List ModelInSource
  pub operations : List DynOperation

-- One round of the loop over the model names.
abbrev pub alter_model : Option ModelInSource → Option ModelInSource → Option Generated
alter_model (some app_model) none = some (record {
  modified_models = app_model ∷ [];
  operations = make_create_model_operation app_model ∷ [];
})
alter_model (some app_model) (some migration_model) =
    if not (model_eq app_model.model migration_model.model)
    then (do
      operations ← make_alter_model_operations app_model migration_model
      some (record { modified_models = app_model ∷ []; operations = operations }))
    else some (record { modified_models = []; operations = [] })
alter_model none (some migration_model) = none
alter_model none none = none

unfoldable pub alter_models :
    List (Text × ModelInSource) → List (Text × ModelInSource) → List Text → Option Generated
unfolding make_alter_model_operations model_eq
alter_models app_models migration_models [] =
    some (record { modified_models = []; operations = [] })
alter_models app_models migration_models (name ∷ names) = do
  now ← alter_model (lookup name app_models) (lookup name migration_models)
  rest ← alter_models app_models migration_models names
  some (record {
    modified_models = now.modified_models ++ rest.modified_models;
    operations = now.operations ++ rest.operations;
  })

unfoldable pub generate_operations : List ModelInSource → List ModelInSource → Option Generated
unfolding alter_models model_map model_names
generate_operations app_models migration_models =
    alter_models (model_map app_models []) (model_map migration_models [])
      (model_names migration_models (model_names app_models []))
