-- ===== src/Generator.antt =====
-- cot-cli/src/migration_generator.rs: models and their fields (of cot-codegen/src/model.rs), and the
-- operations of a generated migration. A type, an identifier and an item of the `syn` crate are
-- their tokens as a text.
pub mod Changes
pub mod Cycles
pub mod Processor
pub mod Tests
use flareon.Base.{
  ℕ, ◌≡◌, ◌↔◌, refl, List, [], ◌∷◌, Option, none, some, Bool, true, false, ◌&&◌, Text, text_eq,
  text_eq_iff, Eq, arith,
}

pub record ForeignKeySpec : Type 0 where
  pub to_model : Text

pub record Field : Type 0 where
  pub field_name : Text
  pub column_name : Text
  pub ty : Text
  pub auto_value : Bool
  pub primary_key : Bool
  pub foreign_key : Option ForeignKeySpec
  pub unique : Bool

pub data ModelType : Type 0 where
  application migration internal : ModelType

pub record Model : Type 0 where
  pub name : Text
  pub vis : Text
  pub original_name : Text
  pub resolved_ty : Text
  pub model_type : ModelType
  pub table_name : Text
  pub pk_field : Field
  pub fields : List Field

pub record ModelInSource : Type 0 where
  pub model_item : Text
  pub model : Model

pub data DynOperation : Type 0 where
  create_model : (table_name model_ty : Text) (fields : List Field) → DynOperation
  add_field : (table_name model_ty : Text) (field : Field) → DynOperation

pub data DynDependency : Type 0 where
  migration : (app name : Text) → DynDependency
  model : (model_type : Text) → DynDependency

-- The derived equalities.
abbrev pub bool_eq : Bool → Bool → Bool
bool_eq true b = b
bool_eq false true = false
bool_eq false false = true

abbrev pub spec_eq : Option ForeignKeySpec → Option ForeignKeySpec → Bool
spec_eq none none = true
spec_eq (some k) (some l) = text_eq k.to_model l.to_model
spec_eq _ _ = false

unfoldable pub field_eq : Field → Field → Bool
field_eq a b =
    text_eq a.field_name b.field_name
    && text_eq a.column_name b.column_name
    && text_eq a.ty b.ty
    && bool_eq a.auto_value b.auto_value
    && bool_eq a.primary_key b.primary_key
    && spec_eq a.foreign_key b.foreign_key
    && bool_eq a.unique b.unique

abbrev pub model_type_eq : ModelType → ModelType → Bool
model_type_eq application application = true
model_type_eq migration migration = true
model_type_eq internal internal = true
model_type_eq _ _ = false

unfoldable pub fields_eq : List Field → List Field → Bool
fields_eq [] [] = true
fields_eq (f ∷ fs) (g ∷ gs) = field_eq f g && fields_eq fs gs
fields_eq _ _ = false

unfoldable pub model_eq : Model → Model → Bool
model_eq a b =
    text_eq a.name b.name
    && text_eq a.vis b.vis
    && text_eq a.original_name b.original_name
    && text_eq a.resolved_ty b.resolved_ty
    && model_type_eq a.model_type b.model_type
    && text_eq a.table_name b.table_name
    && field_eq a.pk_field b.pk_field
    && fields_eq a.fields b.fields

spec_eq→eq : (k l : Option ForeignKeySpec) → spec_eq k l ≡ true → k ≡ l
spec_eq→eq none none h = ground arith
spec_eq→eq none (some l) h = cc
spec_eq→eq (some k) none h = cc
spec_eq→eq (some k) (some l) h = ground (arith, text_eq_iff k.to_model l.to_model)

bool_eq→eq : (a b : Bool) → bool_eq a b ≡ true → a ≡ b
bool_eq→eq a b h = ground arith

pub field_eq→eq : (a b : Field) → field_eq a b ≡ true → a ≡ b
unfolding field_eq
field_eq→eq a b h = ground (
  arith,
  text_eq_iff a.field_name b.field_name,
  text_eq_iff a.column_name b.column_name,
  text_eq_iff a.ty b.ty,
  bool_eq→eq a.auto_value b.auto_value,
  bool_eq→eq a.primary_key b.primary_key,
  spec_eq→eq a.foreign_key b.foreign_key,
  bool_eq→eq a.unique b.unique,
)

pub fields_eq→eq : (fs gs : List Field) → fields_eq fs gs ≡ true → fs ≡ gs
unfolding fields_eq
fields_eq→eq [] [] h = refl
fields_eq→eq [] (g ∷ gs) h = cc
fields_eq→eq (f ∷ fs) [] h = cc
fields_eq→eq (f ∷ fs) (g ∷ gs) h = ground (arith, field_eq→eq f g, fields_eq→eq fs gs)
