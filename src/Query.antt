-- ===== src/Query.antt =====
-- The query expressions of cot/src/db/query.rs, and the code that the macro `query!` makes of an
-- expression of Expr, cot-macros/src/query.rs. The crate sea_query, and the values of Rust code with the
-- types of the fields of the model, are parameters.
pub mod Translation
pub mod Meaning
pub mod Tests
use flareon.Base.{
  Option, none, some, Text, List, [], ◌∷◌, Bool, true, false, ◌&&◌, ◌||◌, if◌then◌else◌,
}
use flareon.Expr as Codegen
use flareon.Expr.{
  Op, Token, Tokens, cons, nil, dot, colons, paren, append, join_args, Syn, as_tokens, field_ref,
}

-- `Expr` of cot/src/db/query.rs, over the values of the database.
pub data Expr (V : Type 0) : Type 0 where
  field : Text → Expr V
  value : V → Expr V
  and or eq ne lt lte gt gte add sub mul div : Expr V → Expr V → Expr V

-- The functions of two expressions, by the operator they stand for.
abbrev pub construct : {V : Type 0} → Op → Expr V → Expr V → Expr V
construct Op.and lhs rhs = and lhs rhs
construct Op.or lhs rhs = or lhs rhs
construct Op.eq lhs rhs = eq lhs rhs
construct Op.ne lhs rhs = ne lhs rhs
construct Op.lt lhs rhs = lt lhs rhs
construct Op.lte lhs rhs = lte lhs rhs
construct Op.gt lhs rhs = gt lhs rhs
construct Op.gte lhs rhs = gte lhs rhs
construct Op.add lhs rhs = add lhs rhs
construct Op.sub lhs rhs = sub lhs rhs
construct Op.mul lhs rhs = mul lhs rhs
construct Op.div lhs rhs = div lhs rhs

-- The crate sea_query.
pub record SeaQuery (V : Type 0) : Type 1 where
  pub SimpleExpr : Type 0
  pub column : Text → SimpleExpr
  pub constant : V → SimpleExpr
  pub binary : Op → SimpleExpr → SimpleExpr → SimpleExpr
  pub Statement : Type 0
  pub and_where : SimpleExpr → Statement → Statement

module _ {V : Type 0} (sea : SeaQuery V) where
  unfoldable pub as_sea_query_expr : Expr V → sea.SimpleExpr
  as_sea_query_expr (field identifier) = sea.column identifier
  as_sea_query_expr (value v) = sea.constant v
  as_sea_query_expr (and lhs rhs) =
      sea.binary Op.and (as_sea_query_expr lhs) (as_sea_query_expr rhs)
  as_sea_query_expr (or lhs rhs) = sea.binary Op.or (as_sea_query_expr lhs) (as_sea_query_expr rhs)
  as_sea_query_expr (eq lhs rhs) = sea.binary Op.eq (as_sea_query_expr lhs) (as_sea_query_expr rhs)
  as_sea_query_expr (ne lhs rhs) = sea.binary Op.ne (as_sea_query_expr lhs) (as_sea_query_expr rhs)
  as_sea_query_expr (lt lhs rhs) = sea.binary Op.lt (as_sea_query_expr lhs) (as_sea_query_expr rhs)
  as_sea_query_expr (lte lhs rhs) =
      sea.binary Op.lte (as_sea_query_expr lhs) (as_sea_query_expr rhs)
  as_sea_query_expr (gt lhs rhs) = sea.binary Op.gt (as_sea_query_expr lhs) (as_sea_query_expr rhs)
  as_sea_query_expr (gte lhs rhs) =
      sea.binary Op.gte (as_sea_query_expr lhs) (as_sea_query_expr rhs)
  as_sea_query_expr (add lhs rhs) =
      sea.binary Op.add (as_sea_query_expr lhs) (as_sea_query_expr rhs)
  as_sea_query_expr (sub lhs rhs) =
      sea.binary Op.sub (as_sea_query_expr lhs) (as_sea_query_expr rhs)
  as_sea_query_expr (mul lhs rhs) =
      sea.binary Op.mul (as_sea_query_expr lhs) (as_sea_query_expr rhs)
  as_sea_query_expr (div lhs rhs) =
      sea.binary Op.div (as_sea_query_expr lhs) (as_sea_query_expr rhs)

pub record Query (V : Type 0) : Type 0 where
  pub filter : Option (Expr V)

unfoldable pub new : {V : Type 0} → Query V
new = record { filter = none }

unfoldable pub set_filter : {V : Type 0} → Expr V → Query V → Query V
set_filter filter q = record { filter = some filter }

abbrev pub add_filter :
    {V : Type 0} (sea : SeaQuery V) → Option (Expr V) → sea.Statement → sea.Statement
add_filter sea none statement = statement
add_filter sea (some filter) statement = sea.and_where (as_sea_query_expr sea filter) statement

unfoldable pub add_filter_to_statement :
    {V : Type 0} (sea : SeaQuery V) → Query V → sea.Statement → sea.Statement
add_filter_to_statement sea q statement = add_filter sea q.filter statement

-- The types that `impl_num_expr!` lists.
pub data NumType : Type 0 where
  i8 i16 i32 i64 u8 u16 u32 u64 f32 f64 : NumType

-- The types of fields, as far as the traits of a `FieldRef` tell them apart: `Auto` of a type, a
-- `ForeignKey` of a model, and types of other names.
pub data FieldType : Type 0 where
  num : NumType → FieldType
  string : FieldType
  auto : FieldType → FieldType
  foreign_key named : Text → FieldType

-- The types that implement `IntoField`: the types of fields, `&str`, a model, and a reference to one.
pub data RustType : Type 0 where
  of_field : FieldType → RustType
  str_ref : RustType
  model model_ref : Text → RustType

-- `IntoField`: the types of which a value is converted to the type of a field.
unfoldable pub into_field : FieldType → List RustType
into_field (num n) = of_field (num n) ∷ []
into_field string = of_field string ∷ str_ref ∷ []
into_field (auto t) = of_field (auto t) ∷ of_field t ∷ []
into_field (foreign_key m) = of_field (foreign_key m) ∷ model m ∷ model_ref m ∷ []
into_field (named name) = of_field (named name) ∷ []

-- The values of Rust code and the fields of the model: what tokens stand for, whether a value is
-- an expression of a query, the types that a value can have, which of them the standard library
-- or the program converts to a number by `Into`, and the types that implement `Ord`; and what
-- `to_db_field_value` makes of a value as it is and as it is converted to the type of a field, where it
-- is not `DbFieldValue::Auto`.
pub record Rust (V : Type 0) : Type 1 where
  pub Value : Type 0
  pub evaluate : Tokens → Value
  pub as_query_expr : Value → Option (Expr V)
  pub field_type : Text → Option FieldType
  pub has_type : Value → RustType → Bool
  pub has_into : Value → NumType → Bool
  pub has_ord : Text → Bool
  pub own_db_field_value : Value → Option V
  pub to_db_field_value : FieldType → Value → Option V

-- `FieldRef`, with the type that it is of.
pub record FieldRef : Type 0 where
  pub identifier : Text
  pub field_type : FieldType

unfoldable pub as_expr : {V : Type 0} → FieldRef → Expr V
as_expr f = field f.identifier

-- `Ord`, which floating-point numbers, `Auto` and `ForeignKey` do not implement.
abbrev pub is_ord : {V : Type 0} (rust : Rust V) → FieldType → Bool
is_ord rust (num NumType.f32) = false
is_ord rust (num NumType.f64) = false
is_ord rust (num _) = true
is_ord rust string = true
is_ord rust (auto t) = false
is_ord rust (foreign_key m) = false
is_ord rust (named name) = rust.has_ord name

abbrev pub any_type : {V : Type 0} (rust : Rust V) → rust.Value → List RustType → Bool
any_type rust v [] = false
any_type rust v (t ∷ ts) = rust.has_type v t || any_type rust v ts

abbrev pub into_num : {V : Type 0} (rust : Rust V) → FieldType → rust.Value → Bool
into_num rust (num n) v = rust.has_into v n
into_num rust _ v = false

-- The bounds of `ExprEq`, `ExprOrd`, `ExprAdd`, `ExprSub`, `ExprMul` and `ExprDiv`, by the operator:
-- whether a field of a type has the method, and the method takes the value.
unfoldable pub takes : {V : Type 0} (rust : Rust V) → Op → FieldType → rust.Value → Bool
unfolding into_field
takes rust Op.eq t v = any_type rust v (into_field t)
takes rust Op.ne t v = any_type rust v (into_field t)
takes rust Op.lt t v = is_ord rust t && any_type rust v (into_field t)
takes rust Op.lte t v = is_ord rust t && any_type rust v (into_field t)
takes rust Op.gt t v = is_ord rust t && any_type rust v (into_field t)
takes rust Op.gte t v = is_ord rust t && any_type rust v (into_field t)
takes rust Op.add t v = into_num rust t v
takes rust Op.sub t v = into_num rust t v
takes rust Op.mul t v = into_num rust t v
takes rust Op.div t v = into_num rust t v
takes rust Op.and t v = false
takes rust Op.or t v = false

-- `Expr::value` of a converted value, which panics for a `DbFieldValue::Auto`.
abbrev pub with_converted : {V : Type 0} → Op → FieldRef → Option V → Option (Expr V)
with_converted op f (some other) = some (construct op (as_expr f) (value other))
with_converted op f none = none

-- The method of an operator, on a field and another value, where the types fit.
unfoldable pub field_method :
    {V : Type 0} (rust : Rust V) → Op → FieldRef → rust.Value → Option (Expr V)
unfolding as_expr takes
field_method rust op f other =
    if takes rust op f.field_type other
    then with_converted op f (rust.to_db_field_value f.field_type other)
    else none

-- The code that `quote!` makes: tokens as they are, `Fields::name.as_expr()`, `Expr::value(…)`, a
-- call of a function of `Expr`, a call of a trait's method on a field, and an error.
pub data Code : Type 0 where
  raw : Tokens → Code
  field_as_expr : Text → Code
  expr_value : Tokens → Code
  call : Op → Code → Code → Code
  trait_call : Op → Text → Tokens → Code
  compile_error : Code

-- Tokens are returned as they are.
abbrev pub tokens_or : Option Tokens → Code → Code
tokens_or (some ts) otherwise = raw ts
tokens_or none otherwise = otherwise

-- `Expr::value` of the tokens of a part and what follows them.
abbrev pub value_or_error : Option Tokens → Tokens → Code
value_or_error (some ts) rest = expr_value (append ts rest)
value_or_error none rest = compile_error

module _ (syn : Syn) where
  abbrev pub field_name : Codegen.Expr syn.SynExpr → Option Text
  field_name (field_ref name) = some name
  field_name _ = none

  -- The name of a field on the left, the tokens on the right, and the code of both.
  abbrev pub handle_binary_comparison : Op → Option Text → Option Tokens → Code → Code → Code
  handle_binary_comparison op (some name) (some ts) lhs rhs = trait_call op name ts
  handle_binary_comparison op (some name) none lhs rhs = call op lhs rhs
  handle_binary_comparison op none ts lhs rhs = call op lhs rhs

  unfoldable pub expr_to_tokens : Codegen.Expr syn.SynExpr → Code
  unfolding as_tokens append join_args
  expr_to_tokens (field_ref name) = tokens_or (as_tokens syn (field_ref name)) (field_as_expr name)
  expr_to_tokens (Codegen.Expr.value v) =
      tokens_or (as_tokens syn (Codegen.Expr.value v)) (expr_value (syn.to_tokens v))
  expr_to_tokens (Codegen.Expr.member_access parent member_name) =
      tokens_or (as_tokens syn (Codegen.Expr.member_access parent member_name))
        (value_or_error (as_tokens syn parent) (cons dot (cons (Token.ident member_name) nil)))
  expr_to_tokens (Codegen.Expr.path_access parent path_segment) =
      tokens_or (as_tokens syn (Codegen.Expr.path_access parent path_segment))
        (value_or_error (as_tokens syn parent) (cons colons (cons (Token.ident path_segment) nil)))
  expr_to_tokens (Codegen.Expr.function_call function args) =
      tokens_or (as_tokens syn (Codegen.Expr.function_call function args))
        (value_or_error (as_tokens syn function) (cons (paren (join_args syn args)) nil))
  expr_to_tokens (Codegen.Expr.and lhs rhs) =
      tokens_or (as_tokens syn (Codegen.Expr.and lhs rhs))
        (call Op.and (expr_to_tokens lhs) (expr_to_tokens rhs))
  expr_to_tokens (Codegen.Expr.or lhs rhs) =
      tokens_or (as_tokens syn (Codegen.Expr.or lhs rhs))
        (call Op.or (expr_to_tokens lhs) (expr_to_tokens rhs))
  expr_to_tokens (Codegen.Expr.eq lhs rhs) = tokens_or (as_tokens syn (Codegen.Expr.eq lhs rhs)) (
      handle_binary_comparison Op.eq (field_name lhs) (as_tokens syn rhs) (expr_to_tokens lhs)
        (expr_to_tokens rhs))
  expr_to_tokens (Codegen.Expr.ne lhs rhs) = tokens_or (as_tokens syn (Codegen.Expr.ne lhs rhs)) (
      handle_binary_comparison Op.ne (field_name lhs) (as_tokens syn rhs) (expr_to_tokens lhs)
        (expr_to_tokens rhs))
  expr_to_tokens (Codegen.Expr.lt lhs rhs) = tokens_or (as_tokens syn (Codegen.Expr.lt lhs rhs)) (
      handle_binary_comparison Op.lt (field_name lhs) (as_tokens syn rhs) (expr_to_tokens lhs)
        (expr_to_tokens rhs))
  expr_to_tokens (Codegen.Expr.lte lhs rhs) = tokens_or (as_tokens syn (Codegen.Expr.lte lhs rhs)) (
      handle_binary_comparison Op.lte (field_name lhs) (as_tokens syn rhs) (expr_to_tokens lhs)
        (expr_to_tokens rhs))
  expr_to_tokens (Codegen.Expr.gt lhs rhs) = tokens_or (as_tokens syn (Codegen.Expr.gt lhs rhs)) (
      handle_binary_comparison Op.gt (field_name lhs) (as_tokens syn rhs) (expr_to_tokens lhs)
        (expr_to_tokens rhs))
  expr_to_tokens (Codegen.Expr.gte lhs rhs) = tokens_or (as_tokens syn (Codegen.Expr.gte lhs rhs)) (
      handle_binary_comparison Op.gte (field_name lhs) (as_tokens syn rhs) (expr_to_tokens lhs)
        (expr_to_tokens rhs))
  expr_to_tokens (Codegen.Expr.add lhs rhs) = tokens_or (as_tokens syn (Codegen.Expr.add lhs rhs)) (
      handle_binary_comparison Op.add (field_name lhs) (as_tokens syn rhs) (expr_to_tokens lhs)
        (expr_to_tokens rhs))
  expr_to_tokens (Codegen.Expr.sub lhs rhs) = tokens_or (as_tokens syn (Codegen.Expr.sub lhs rhs)) (
      handle_binary_comparison Op.sub (field_name lhs) (as_tokens syn rhs) (expr_to_tokens lhs)
        (expr_to_tokens rhs))
  expr_to_tokens (Codegen.Expr.mul lhs rhs) = tokens_or (as_tokens syn (Codegen.Expr.mul lhs rhs)) (
      handle_binary_comparison Op.mul (field_name lhs) (as_tokens syn rhs) (expr_to_tokens lhs)
        (expr_to_tokens rhs))
  expr_to_tokens (Codegen.Expr.div lhs rhs) = tokens_or (as_tokens syn (Codegen.Expr.div lhs rhs)) (
      handle_binary_comparison Op.div (field_name lhs) (as_tokens syn rhs) (expr_to_tokens lhs)
        (expr_to_tokens rhs))

abbrev pub applied : {V : Type 0} → Op → Option (Expr V) → Option (Expr V) → Option (Expr V)
applied op (some lhs) (some rhs) = some (construct op lhs rhs)
applied op (some lhs) none = none
applied op none rhs = none

module _ {V : Type 0} (rust : Rust V) where
  abbrev pub field_expr : Text → Option FieldType → Option (Expr V)
  field_expr name (some t) = some (as_expr (record { identifier = name; field_type = t }))
  field_expr name none = none

  abbrev pub compared : Op → Text → rust.Value → Option FieldType → Option (Expr V)
  compared op name v (some t) =
      field_method rust op (record { identifier = name; field_type = t }) v
  compared op name v none = none

  abbrev pub as_value : Option V → Option (Expr V)
  as_value (some v) = some (value v)
  as_value none = none

  -- The expression that the code makes, unless the model has no such field, the types do not fit, or
  -- `Expr::value` panics.
  unfoldable pub run : Code → Option (Expr V)
  unfolding as_expr field_method
  run (raw ts) = rust.as_query_expr (rust.evaluate ts)
  run (field_as_expr name) = field_expr name (rust.field_type name)
  run (expr_value ts) = as_value (rust.own_db_field_value (rust.evaluate ts))
  run (call op lhs rhs) = applied op (run lhs) (run rhs)
  run (trait_call op name ts) = compared op name (rust.evaluate ts) (rust.field_type name)
  run compile_error = none
