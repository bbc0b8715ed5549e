-- ===== src/Query/Tests.antt =====
-- A query, read as a function of a row, and instances of the theorems.
use flareon.Base.{ℕ, ◌+◌, ◌*◌, ◌==◌, ltb, Bool, true, false, none, some, Text, codes, ◌≡◌, refl}
use flareon.Expr as Codegen
use flareon.Expr.{Op, Token, Tokens, nil, cons, as_tokens, binary, field_ref}
use flareon.Expr.Tests.{token_syn}
use flareon.Query.{
  Expr, field, SeaQuery, as_sea_query_expr, expr_to_tokens, Rust, NumType, num, string, auto,
  of_field, takes, field_method, run, new, set_filter, add_filter_to_statement,
}
use flareon.Query.Translation.{expr_to_tokens-value_first}
use flareon.Query.Meaning.{Reading, Means, is_field, with_value, with_expr, expr_to_tokens-Means}

abbrev Row : Type 0
Row = Text → ℕ

abbrev truth : Bool → ℕ
truth true = 1
truth false = 0

abbrev apply : Op → ℕ → ℕ → ℕ
apply Op.add x y = x + y
apply Op.mul x y = x * y
apply Op.eq x y = truth (x == y)
apply Op.lt x y = truth (ltb x y)
apply Op.and x y = x * y
apply _ x y = 0

-- Conditions are functions of a row, and a statement is the last condition.
abbrev rows : SeaQuery ℕ
rows = record {
  SimpleExpr = Row → ℕ;
  column = λ name row. row name;
  constant = λ v row. v;
  binary = λ op lhs rhs row. apply op (lhs row) (rhs row);
  Statement = Row → ℕ;
  and_where = λ condition statement row. condition row * statement row;
}

abbrev rows_reading : Reading rows
rows_reading = record {
  Row = Row;
  Val = ℕ;
  read = λ e row. e row;
  at_column = λ name row. row name;
  of_value = λ v. v;
  apply = apply;
  read_column = λ name row. refl;
  read_constant = λ v row. refl;
  read_binary = λ op lhs rhs row. refl;
}

-- Every value is the literal 5, of any type of integers, and the fields are of the type `i32`.
abbrev fives : Rust ℕ
fives = record {
  Value = Unit;
  evaluate = λ ts. tt;
  as_query_expr = λ v. none;
  field_type = λ name. some (num NumType.i32);
  has_type = λ v t. elim t [ of_field (num _) ↦ true | _ ↦ false ];
  has_into = λ v n. true;
  has_ord = λ name. false;
  own_db_field_value = λ v. some 5;
  to_db_field_value = λ t v. some 5;
}

-- Floating-point numbers have no order, and only numbers are added.
float_order : takes fives Op.lt (num NumType.f64) tt ≡ false
unfolding takes
float_order = refl

string_difference : takes fives Op.sub string tt ≡ false
unfolding takes
string_difference = refl

auto_eq : takes fives Op.eq (auto (num NumType.i32)) tt ≡ true
unfolding takes
auto_eq = refl

abbrev five : Codegen.Expr Tokens
five = Codegen.Expr.value (cons (Token.literal (codes "5")) nil)

-- `$visits == 5 && $age < $visits`.
abbrev busy : Codegen.Expr Tokens
unfolding binary
busy =
    binary (binary (field_ref (codes "visits")) Op.eq five) Op.and
      (binary (field_ref (codes "age")) Op.lt (field_ref (codes "visits")))

abbrev busy_row : Row → ℕ
busy_row row =
    truth (row (codes "visits") == 5) * truth (ltb (row (codes "age")) (row (codes "visits")))

busy-Means : Means token_syn fives rows_reading busy busy_row
unfolding as_tokens binary busy takes
busy-Means =
    with_expr Op.and _ _ (with_value Op.eq (codes "visits") five refl refl refl refl refl)
      (with_expr Op.lt _ _ (is_field refl) (is_field refl))

expr_to_tokens-Means_example :
    (q : Expr ℕ) × (run fives (expr_to_tokens token_syn busy) ≡ some q)
    × ((row : Row) → as_sea_query_expr rows q row ≡ busy_row row)
expr_to_tokens-Means_example =
    expr_to_tokens-Means token_syn fives rows_reading busy busy_row busy-Means

expr_to_tokens-value_first_example :
    (run fives (expr_to_tokens token_syn (binary (field_ref (codes "id")) Op.eq five))
      ≡ field_method fives Op.eq
          (record { identifier = codes "id"; field_type = num NumType.i32 })
          tt)
    × (run fives (expr_to_tokens token_syn (binary five Op.eq (field_ref (codes "id")))) ≡ none)
unfolding as_tokens
expr_to_tokens-value_first_example =
    expr_to_tokens-value_first token_syn fives Op.eq (codes "id") five
      (cons (Token.literal (codes "5")) nil) (num NumType.i32) refl refl refl refl

filtered :
    (row : Row)
    → add_filter_to_statement rows
        (set_filter (field (codes "age")) (set_filter (field (codes "id")) new))
        (λ _. 1)
        row
      ≡ row (codes "age") * 1
unfolding add_filter_to_statement set_filter new as_sea_query_expr
filtered row = refl
