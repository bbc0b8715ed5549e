-- ===== src/Query/Meaning.antt =====
-- What `query!` asks of the rows of a table: cot-macros/src/query.rs, cot/src/db/query.rs.
use flareon.Base.{none, some, true, Text, ◌≡◌, refl, sym, ◌∙◌, subst}
use flareon.Expr as Codegen
use flareon.Expr.{Op, Tokens, Syn, as_tokens, field_ref, binary, quoted}
use flareon.Query.{
  Expr, field, value, construct, SeaQuery, as_sea_query_expr, as_expr, Code, call, trait_call,
  expr_to_tokens, Rust, FieldType, takes, field_method, run,
}
use flareon.Query.Translation.{
  takes_value, as_tokens-binary, expr_to_tokens-call, expr_to_tokens-trait_call, run-trait_call,
}

-- How a database reads an expression at a row, as sea_query documents its parts.
pub record Reading {V : Type 0} (sea : SeaQuery V) : Type 1 where
  pub Row : Type 0
  pub Val : Type 0
  pub read : sea.SimpleExpr → Row → Val
  pub at_column : Text → Row → Val
  pub of_value : V → Val
  pub apply : Op → Val → Val → Val
  pub read_column : (name : Text) (row : Row) → read (sea.column name) row ≡ at_column name row
  pub read_constant : (v : V) (row : Row) → read (sea.constant v) row ≡ of_value v
  pub read_binary :
      (op : Op) (lhs rhs : sea.SimpleExpr) (row : Row)
      → read (sea.binary op lhs rhs) row ≡ apply op (read lhs row) (read rhs row)

module _ (syn : Syn) {V : Type 0} (rust : Rust V) {sea : SeaQuery V} (reading : Reading sea) where
  -- What an expression asks of a row: a field, a field and a value without fields, or two expressions.
  pub data Means : Codegen.Expr syn.SynExpr → (reading.Row → reading.Val) → Type 0 where
    is_field :
        {name : Text} {t : FieldType}
        → rust.field_type name ≡ some t
        → Means (field_ref name) (reading.at_column name)
    with_value :
        (op : Op) (name : Text) (rhs : Codegen.Expr syn.SynExpr) {t : FieldType} {ts : Tokens}
        {v : V}
        → takes_value op ≡ true
        → as_tokens syn rhs ≡ some ts
        → rust.field_type name ≡ some t
        → takes rust op t (rust.evaluate ts) ≡ true
        → rust.to_db_field_value t (rust.evaluate ts) ≡ some v
        → Means
            (binary (field_ref name) op rhs)
            (λ row. reading.apply op (reading.at_column name row) (reading.of_value v))
    with_expr :
        (op : Op) (lhs rhs : Codegen.Expr syn.SynExpr) {f g : reading.Row → reading.Val}
        → Means lhs f
        → Means rhs g
        → Means (binary lhs op rhs) (λ row. reading.apply op (f row) (g row))

  read-construct :
      (op : Op) (lhs rhs : Expr V) (row : reading.Row)
      → reading.read (as_sea_query_expr sea (construct op lhs rhs)) row
        ≡ reading.apply op
            (reading.read (as_sea_query_expr sea lhs) row)
            (reading.read (as_sea_query_expr sea rhs) row)
  unfolding as_sea_query_expr
  read-construct Op.mul lhs rhs row = reading.read_binary Op.mul _ _ row
  read-construct Op.div lhs rhs row = reading.read_binary Op.div _ _ row
  read-construct Op.add lhs rhs row = reading.read_binary Op.add _ _ row
  read-construct Op.sub lhs rhs row = reading.read_binary Op.sub _ _ row
  read-construct Op.eq lhs rhs row = reading.read_binary Op.eq _ _ row
  read-construct Op.ne lhs rhs row = reading.read_binary Op.ne _ _ row
  read-construct Op.lt lhs rhs row = reading.read_binary Op.lt _ _ row
  read-construct Op.lte lhs rhs row = reading.read_binary Op.lte _ _ row
  read-construct Op.gt lhs rhs row = reading.read_binary Op.gt _ _ row
  read-construct Op.gte lhs rhs row = reading.read_binary Op.gte _ _ row
  read-construct Op.and lhs rhs row = reading.read_binary Op.and _ _ row
  read-construct Op.or lhs rhs row = reading.read_binary Op.or _ _ row

  -- An expression that means something has a field.
  no_tokens :
      {e : Codegen.Expr syn.SynExpr} {f : reading.Row → reading.Val}
      → Means e f
      → as_tokens syn e ≡ none
  unfolding as_tokens
  no_tokens (is_field typed) = refl
  no_tokens (with_value op name rhs for at typed fits is) =
      as_tokens-binary syn (field_ref name) rhs op
  no_tokens (with_expr op lhs rhs l r) = as_tokens-binary syn lhs rhs op ∙ rw (no_tokens l) refl

  -- What the code of an expression makes, read at a row.
  record Runs (code : Code) (f : reading.Row → reading.Val) : Type 0 where
    made : Expr V
    runs : run rust code ≡ some made
    means : (row : reading.Row) → reading.read (as_sea_query_expr sea made) row ≡ f row

  call-Runs :
      (op : Op) (lhs rhs : Code) (f g : reading.Row → reading.Val)
      → Runs lhs f
      → Runs rhs g
      → Runs (call op lhs rhs) (λ row. reading.apply op (f row) (g row))
  unfolding run
  call-Runs op lhs rhs f g l r = record {
    made = construct op l.made r.made;
    runs = rw (l.runs) (rw (r.runs) refl);
    means = λ row. read-construct op l.made r.made row ∙ rw (l.means row, r.means row) refl;
  }

  field_method-eq-some :
      (op : Op) (name : Text) (t : FieldType) (w : rust.Value) (v : V)
      → takes rust op t w ≡ true
      → rust.to_db_field_value t w ≡ some v
      → field_method rust op (record { identifier = name; field_type = t }) w
        ≡ some (construct op (field name) (value v))
  unfolding field_method as_expr
  field_method-eq-some op name t w v fits is = rw fits (rw is refl)

  trait_call-Runs :
      (op : Op) (name : Text) (ts : Tokens) (t : FieldType) (v : V)
      → rust.field_type name ≡ some t
      → takes rust op t (rust.evaluate ts) ≡ true
      → rust.to_db_field_value t (rust.evaluate ts) ≡ some v
      → Runs
          (trait_call op name ts)
          (λ row. reading.apply op (reading.at_column name row) (reading.of_value v))
  unfolding as_sea_query_expr
  trait_call-Runs op name ts t v typed fits is = record {
    made = construct op (field name) (value v);
    runs =
        run-trait_call syn rust op name ts t typed
        ∙ field_method-eq-some op name t (rust.evaluate ts) v fits is;
    means = λ row.
        read-construct op (field name) (value v) row
        ∙ rw (reading.read_column name row, reading.read_constant v row) refl;
  }

  expr_to_tokens-Runs :
      {e : Codegen.Expr syn.SynExpr} {f : reading.Row → reading.Val}
      → Means e f
      → Runs (expr_to_tokens syn e) f
  unfolding run expr_to_tokens as_tokens as_expr as_sea_query_expr
  expr_to_tokens-Runs (is_field {name} typed) = record {
    made = field name;
    runs = rw typed refl;
    means = λ row. reading.read_column name row;
  }
  expr_to_tokens-Runs (with_value op name rhs {t} {ts} {v} for at typed fits is) =
      subst
        (λ c. Runs c (λ row. reading.apply op (reading.at_column name row) (reading.of_value v)))
        (sym (expr_to_tokens-trait_call syn op name rhs for at))
        (trait_call-Runs op name ts t v typed fits is)
  expr_to_tokens-Runs (with_expr op lhs rhs {f} {g} l r) =
      subst (λ c. Runs c (λ row. reading.apply op (f row) (g row)))
        (sym
          (expr_to_tokens-call syn op lhs rhs (no_tokens (with_expr op lhs rhs l r)) (no_tokens r)))
        (call-Runs op (expr_to_tokens syn lhs) (expr_to_tokens syn rhs) f g (expr_to_tokens-Runs l)
          (expr_to_tokens-Runs r))

  -- Over a database that reads the parts of an expression as sea_query documents them, take an
  -- expression that is a field of the model; or an operator other than `and` and `or` between a field of the
  -- model and an expression without fields, where the type of the field has the method of the operator,
  -- the method takes the value, and the converted value is not `DbFieldValue::Auto`; or an
  -- operator between two such expressions. Then the code that `query!` makes of it makes an
  -- expression, and the condition that it becomes reads at each row as the operators applied to the
  -- columns of the row and the converted values.
  pub expr_to_tokens-Means :
      (e : Codegen.Expr syn.SynExpr) (f : reading.Row → reading.Val)
      → Means e f
      → (q : Expr V) × (run rust (expr_to_tokens syn e) ≡ some q)
        × ((row : reading.Row) → reading.read (as_sea_query_expr sea q) row ≡ f row)
  expr_to_tokens-Means e f m = let r = expr_to_tokens-Runs m in (r.made, r.runs, r.means)
