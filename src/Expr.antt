-- ===== src/Expr.antt =====
-- The expressions of the `query!` macro, cot-codegen/src/expr.rs: their parser by binding priorities,
-- and the tokens of an expression.
pub mod Printed
pub mod Ends
pub mod Tests
use flareon.Base.{
  ℕ, zero, suc, ◌+◌, ◌-◌, ◌*◌, Text, Option, none, some, Bool, List, [], ◌∷◌, ltb, if◌then◌else◌,
  ◌≡◌, ◌⊎◌,
}

-- `OpParser`.
pub data Op : Type 0 where
  mul div add sub eq ne lt lte gt gte and or : Op

-- Token trees; punctuation is joined to the tokens that the parser asks for, and `other` is any other.
mutual
  pub data Token : Type 0 where
    dollar amp dot colons comma : Token
    ident literal other : Text → Token
    op : Op → Token
    paren : Tokens → Token

  pub data Tokens : Type 0 where
    nil : Tokens
    cons : Token → Tokens → Tokens

unfoldable pub append : Tokens → Tokens → Tokens
append nil us = us
append (cons t ts) us = cons t (append ts us)

-- The `syn` crate: its expressions, the parsing of one and of the arguments of a call, and their tokens.
pub record Syn : Type 1 where
  pub SynExpr : Type 0
  pub reference : SynExpr → SynExpr
  pub path : Text → SynExpr
  pub lit : Text → SynExpr
  pub parse_expr : Tokens → Option (SynExpr × Tokens)
  pub parse_args : Tokens → Option (List SynExpr)
  pub to_tokens : SynExpr → Tokens

-- `Expr`, over the expressions of `syn`.
pub data Expr (V : Type 0) : Type 0 where
  field_ref : Text → Expr V
  value : V → Expr V
  member_access path_access : Expr V → Text → Expr V
  function_call : Expr V → List V → Expr V
  and or eq ne lt lte gt gte add sub mul div : Expr V → Expr V → Expr V

-- `ItemToken`.
pub data Item (V : Type 0) : Type 0 where
  field literal ident member_access path_access : Text → Item V
  function_call : List V → Item V
  reference : V → Item V
  op : Op → Item V

-- A result of the parser; `error` is `syn::Error`.
pub data Parsed (A : Type 0) : Type 0 where
  ok : A → Parsed A
  error out_of_fuel : Parsed A

infixl 5 ◌>>=◌
abbrev pub ◌>>=◌ : {A B : Type 0} → Parsed A → (A → Parsed B) → Parsed B
ok a >>= f = f a
error >>= f = error
out_of_fuel >>= f = out_of_fuel

pub record BindingPriority : Type 0 where
  pub left : ℕ
  pub right : ℕ

abbrev pub left_to_right : ℕ → BindingPriority
left_to_right priority = record { left = priority * 2 - 1; right = priority * 2 }

abbrev pub right_to_left : ℕ → BindingPriority
right_to_left priority = record { left = priority * 2; right = priority * 2 - 1 }

unfoldable pub infix_binding_priority : Op → BindingPriority
infix_binding_priority Op.mul = left_to_right 9
infix_binding_priority Op.div = left_to_right 9
infix_binding_priority Op.add = left_to_right 8
infix_binding_priority Op.sub = left_to_right 8
infix_binding_priority Op.eq = right_to_left 3
infix_binding_priority Op.ne = right_to_left 3
infix_binding_priority Op.lt = right_to_left 3
infix_binding_priority Op.lte = right_to_left 3
infix_binding_priority Op.gt = right_to_left 3
infix_binding_priority Op.gte = right_to_left 3
infix_binding_priority Op.and = left_to_right 2
infix_binding_priority Op.or = left_to_right 1

unfoldable pub binary : {V : Type 0} → Expr V → Op → Expr V → Expr V
binary lhs Op.mul rhs = Expr.mul lhs rhs
binary lhs Op.div rhs = Expr.div lhs rhs
binary lhs Op.add rhs = Expr.add lhs rhs
binary lhs Op.sub rhs = Expr.sub lhs rhs
binary lhs Op.eq rhs = Expr.eq lhs rhs
binary lhs Op.ne rhs = Expr.ne lhs rhs
binary lhs Op.lt rhs = Expr.lt lhs rhs
binary lhs Op.lte rhs = Expr.lte lhs rhs
binary lhs Op.gt rhs = Expr.gt lhs rhs
binary lhs Op.gte rhs = Expr.gte lhs rhs
binary lhs Op.and rhs = Expr.and lhs rhs
binary lhs Op.or rhs = Expr.or lhs rhs

-- A token and the identifier behind it.
abbrev pub with_ident : {V : Type 0} → (Text → Item V) → Tokens → Option (Item V × Tokens)
with_ident item (cons (Token.ident name) rest) = some (item name, rest)
with_ident item _ = none

module _ (syn : Syn) where
  open syn use {SynExpr, parse_expr, parse_args, to_tokens}

  abbrev pub referenced : Option (SynExpr × Tokens) → Option (Item SynExpr × Tokens)
  referenced none = none
  referenced (some (expr, rest)) = some (Item.reference expr, rest)

  abbrev pub called : Option (List SynExpr) → Tokens → Option (Item SynExpr × Tokens)
  called none rest = none
  called (some args) rest = some (Item.function_call args, rest)

  -- `ItemToken::parse`: the item and the rest.
  unfoldable pub next_item : Tokens → Option (Item SynExpr × Tokens)
  next_item nil = none
  next_item (cons (Token.op o) rest) = some (Item.op o, rest)
  next_item (cons dollar rest) = with_ident Item.field rest
  next_item (cons amp rest) = referenced (parse_expr rest)
  next_item (cons dot rest) = with_ident Item.member_access rest
  next_item (cons colons rest) = with_ident Item.path_access rest
  next_item (cons (paren content) rest) = called (parse_args content) rest
  next_item (cons (Token.literal l) rest) = some (Item.literal l, rest)
  next_item (cons (Token.ident name) rest) = some (Item.ident name, rest)
  next_item (cons comma rest) = none
  next_item (cons (other _) rest) = none

  -- The first operand, where it is an item.
  unfoldable pub operand : Option (Item SynExpr × Tokens) → Parsed (Expr SynExpr × Tokens)
  operand none = error
  operand (some (Item.field name, rest)) = ok (field_ref name, rest)
  operand (some (Item.reference expr, rest)) = ok (value (syn.reference expr), rest)
  operand (some (Item.ident name, rest)) = ok (value (syn.path name), rest)
  operand (some (Item.literal l, rest)) = ok (value (syn.lit l), rest)
  operand (some (Item.member_access _, rest)) = error
  operand (some (Item.path_access _, rest)) = error
  operand (some (Item.function_call _, rest)) = error
  operand (some (Item.op _, rest)) = error

  -- The first operand, with the parser of what stands in parentheses.
  unfoldable pub primary :
      (Tokens → Parsed (Expr SynExpr × Tokens)) → Tokens → Parsed (Expr SynExpr × Tokens)
  unfolding operand next_item
  primary parse nil = operand (next_item nil)
  primary parse (cons (paren content) rest) = do parsed ← parse content; ok (parsed.0, rest)
  primary parse (cons t rest) = operand (next_item (cons t rest))

  -- One round of the loop, with the rounds behind it and the parser of a right operand.
  unfoldable pub after_item :
      (Expr SynExpr → Tokens → Parsed (Expr SynExpr × Tokens))
      → (Tokens → ℕ → Parsed (Expr SynExpr × Tokens))
      → Expr SynExpr
      → Tokens
      → ℕ
      → Option (Item SynExpr × Tokens)
      → Parsed (Expr SynExpr × Tokens)
  unfolding infix_binding_priority binary
  after_item loop parse lhs input min none = error
  after_item loop parse lhs input min (some (Item.member_access name, rest)) =
      loop (Expr.member_access lhs name) rest
  after_item loop parse lhs input min (some (Item.path_access name, rest)) =
      loop (Expr.path_access lhs name) rest
  after_item loop parse lhs input min (some (Item.function_call args, rest)) =
      loop (Expr.function_call lhs args) rest
  after_item loop parse lhs input min (some (Item.op o, rest)) =
      let priority = infix_binding_priority o in
      let deeper = parse rest priority.right >>= λ rhs. loop (binary lhs o rhs.0) rhs.1 in
      if ltb priority.left min then ok (lhs, input) else deeper
  after_item loop parse lhs input min (some (Item.field _, rest)) = error
  after_item loop parse lhs input min (some (Item.reference _, rest)) = error
  after_item loop parse lhs input min (some (Item.ident _, rest)) = error
  after_item loop parse lhs input min (some (Item.literal _, rest)) = error

  unfoldable mutual
    unfolding primary after_item next_item

    pub parse_impl : ℕ → Tokens → ℕ → Parsed (Expr SynExpr × Tokens)
    parse_impl zero input min = out_of_fuel
    parse_impl (suc fuel) input min =
        primary (λ content. parse_impl fuel content 0) input >>= λ lhs.
        parse_loop fuel lhs.0 lhs.1 min

    pub parse_loop : ℕ → Expr SynExpr → Tokens → ℕ → Parsed (Expr SynExpr × Tokens)
    parse_loop zero lhs input min = out_of_fuel
    parse_loop (suc fuel) lhs nil min = ok (lhs, nil)
    parse_loop (suc fuel) lhs (cons t rest) min =
        after_item (λ l r. parse_loop fuel l r min) (parse_impl fuel) lhs (cons t rest) min
          (next_item (cons t rest))

  -- `syn::parse2`, which refuses tokens that are left.
  abbrev pub all_read : Expr SynExpr × Tokens → Parsed (Expr SynExpr)
  all_read (expr, nil) = ok expr
  all_read (expr, cons _ _) = error

  unfoldable pub parse : ℕ → Tokens → Parsed (Expr SynExpr)
  unfolding parse_impl
  parse fuel input = parse_impl fuel input 0 >>= all_read

  -- `#(#args),*`.
  unfoldable pub join_args : List SynExpr → Tokens
  unfolding append
  join_args [] = nil
  join_args (x ∷ []) = to_tokens x
  join_args (x ∷ y ∷ rest) = append (to_tokens x) (cons comma (join_args (y ∷ rest)))

-- `ExprAsTokensMode`.
pub data ExprAsTokensMode : Type 0 where
  field_ref_as_none full : ExprAsTokensMode

abbrev pub field_tokens : ExprAsTokensMode → Text → Option Tokens
field_tokens field_ref_as_none name = none
field_tokens full name = some (cons dollar (cons (Token.ident name) nil))

-- `quote!` of the tokens of a part and what follows them, if it has tokens.
abbrev pub followed : Option Tokens → Tokens → Option Tokens
followed none rest = none
followed (some ts) rest = some (append ts rest)

abbrev pub quoted : Option Tokens → Op → Option Tokens → Option Tokens
quoted none o rhs = none
quoted (some lhs) o none = none
quoted (some lhs) o (some rhs) = some (append lhs (cons (Token.op o) rhs))

module _ (syn : Syn) where
  open syn use {SynExpr, to_tokens}

  unfoldable pub as_tokens_impl : ExprAsTokensMode → Expr SynExpr → Option Tokens
  unfolding append join_args
  as_tokens_impl mode (field_ref name) = field_tokens mode name
  as_tokens_impl mode (value v) = some (to_tokens v)
  as_tokens_impl mode (Expr.member_access parent name) =
      followed (as_tokens_impl mode parent) (cons dot (cons (Token.ident name) nil))
  as_tokens_impl mode (Expr.path_access parent name) =
      followed (as_tokens_impl mode parent) (cons colons (cons (Token.ident name) nil))
  as_tokens_impl mode (Expr.function_call function args) =
      followed (as_tokens_impl mode function) (cons (paren (join_args syn args)) nil)
  as_tokens_impl mode (Expr.and lhs rhs) =
      quoted (as_tokens_impl mode lhs) Op.and (as_tokens_impl mode rhs)
  as_tokens_impl mode (Expr.or lhs rhs) =
      quoted (as_tokens_impl mode lhs) Op.or (as_tokens_impl mode rhs)
  as_tokens_impl mode (Expr.eq lhs rhs) =
      quoted (as_tokens_impl mode lhs) Op.eq (as_tokens_impl mode rhs)
  as_tokens_impl mode (Expr.ne lhs rhs) =
      quoted (as_tokens_impl mode lhs) Op.ne (as_tokens_impl mode rhs)
  as_tokens_impl mode (Expr.lt lhs rhs) =
      quoted (as_tokens_impl mode lhs) Op.lt (as_tokens_impl mode rhs)
  as_tokens_impl mode (Expr.lte lhs rhs) =
      quoted (as_tokens_impl mode lhs) Op.lte (as_tokens_impl mode rhs)
  as_tokens_impl mode (Expr.gt lhs rhs) =
      quoted (as_tokens_impl mode lhs) Op.gt (as_tokens_impl mode rhs)
  as_tokens_impl mode (Expr.gte lhs rhs) =
      quoted (as_tokens_impl mode lhs) Op.gte (as_tokens_impl mode rhs)
  as_tokens_impl mode (Expr.add lhs rhs) =
      quoted (as_tokens_impl mode lhs) Op.add (as_tokens_impl mode rhs)
  as_tokens_impl mode (Expr.sub lhs rhs) =
      quoted (as_tokens_impl mode lhs) Op.sub (as_tokens_impl mode rhs)
  as_tokens_impl mode (Expr.mul lhs rhs) =
      quoted (as_tokens_impl mode lhs) Op.mul (as_tokens_impl mode rhs)
  as_tokens_impl mode (Expr.div lhs rhs) =
      quoted (as_tokens_impl mode lhs) Op.div (as_tokens_impl mode rhs)

  unfoldable pub as_tokens : Expr SynExpr → Option Tokens
  unfolding as_tokens_impl
  as_tokens expr = as_tokens_impl field_ref_as_none expr

  -- `none` is the panic of `expect`.
  unfoldable pub as_tokens_full : Expr SynExpr → Option Tokens
  unfolding as_tokens_impl
  as_tokens_full expr = as_tokens_impl full expr
