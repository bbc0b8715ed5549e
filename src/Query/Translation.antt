-- ===== src/Query/Translation.antt =====
-- The code that `query!` makes of an operator, cot-macros/src/query.rs.
use flareon.Base.{
  Option, none, some, Bool, true, false, Text, Bool-cases, inl, inr, if◌then◌else◌, ◌≡◌, refl, ap,
  ◌∙◌,
}
use flareon.Expr as Codegen
use flareon.Expr.{Op, Tokens, Syn, as_tokens, field_ref, binary, quoted}
use flareon.Query.{
  field_method, Code, raw, expr_value, call, trait_call, tokens_or, field_name,
  handle_binary_comparison, expr_to_tokens, Rust, FieldType, run,
}

-- The operators whose right side may be a value.
abbrev pub takes_value : Op → Bool
takes_value Op.and = false
takes_value Op.or = false
takes_value _ = true

module _ (syn : Syn) where
  pub as_tokens-binary :
      (lhs rhs : Codegen.Expr syn.SynExpr) (op : Op)
      → as_tokens syn (binary lhs op rhs) ≡ quoted (as_tokens syn lhs) op (as_tokens syn rhs)
  unfolding as_tokens binary
  as_tokens-binary lhs rhs Op.mul = refl
  as_tokens-binary lhs rhs Op.div = refl
  as_tokens-binary lhs rhs Op.add = refl
  as_tokens-binary lhs rhs Op.sub = refl
  as_tokens-binary lhs rhs Op.eq = refl
  as_tokens-binary lhs rhs Op.ne = refl
  as_tokens-binary lhs rhs Op.lt = refl
  as_tokens-binary lhs rhs Op.lte = refl
  as_tokens-binary lhs rhs Op.gt = refl
  as_tokens-binary lhs rhs Op.gte = refl
  as_tokens-binary lhs rhs Op.and = refl
  as_tokens-binary lhs rhs Op.or = refl

  -- The code of an operator, without tokens of its own.
  abbrev operated : Op → Codegen.Expr syn.SynExpr → Codegen.Expr syn.SynExpr → Code
  operated op lhs rhs =
      if takes_value op
      then handle_binary_comparison syn op (field_name syn lhs) (as_tokens syn rhs)
          (expr_to_tokens syn lhs) (expr_to_tokens syn rhs)
      else call op (expr_to_tokens syn lhs) (expr_to_tokens syn rhs)

  expr_to_tokens-binary :
      (lhs rhs : Codegen.Expr syn.SynExpr) (op : Op)
      → expr_to_tokens syn (binary lhs op rhs)
        ≡ tokens_or (as_tokens syn (binary lhs op rhs)) (operated op lhs rhs)
  unfolding expr_to_tokens binary
  expr_to_tokens-binary lhs rhs Op.mul = refl
  expr_to_tokens-binary lhs rhs Op.div = refl
  expr_to_tokens-binary lhs rhs Op.add = refl
  expr_to_tokens-binary lhs rhs Op.sub = refl
  expr_to_tokens-binary lhs rhs Op.eq = refl
  expr_to_tokens-binary lhs rhs Op.ne = refl
  expr_to_tokens-binary lhs rhs Op.lt = refl
  expr_to_tokens-binary lhs rhs Op.lte = refl
  expr_to_tokens-binary lhs rhs Op.gt = refl
  expr_to_tokens-binary lhs rhs Op.gte = refl
  expr_to_tokens-binary lhs rhs Op.and = refl
  expr_to_tokens-binary lhs rhs Op.or = refl

  handle_binary_comparison-call :
      (op : Op) (name : Option Text) (lhs rhs : Code)
      → handle_binary_comparison syn op name none lhs rhs ≡ call op lhs rhs
  handle_binary_comparison-call op none lhs rhs = refl
  handle_binary_comparison-call op (some name) lhs rhs = refl

  operated-call :
      (op : Op) (lhs rhs : Codegen.Expr syn.SynExpr)
      → as_tokens syn rhs ≡ none
      → operated op lhs rhs ≡ call op (expr_to_tokens syn lhs) (expr_to_tokens syn rhs)
  operated-call op lhs rhs e = elim (Bool-cases (takes_value op)) [
    | inl takes ↦ rw takes (
        rw e (
          handle_binary_comparison-call op (field_name syn lhs) (expr_to_tokens syn lhs)
            (expr_to_tokens syn rhs)))
    | inr logical ↦ rw logical refl
  ]

  pub expr_to_tokens-call :
      (op : Op) (lhs rhs : Codegen.Expr syn.SynExpr)
      → as_tokens syn (binary lhs op rhs) ≡ none
      → as_tokens syn rhs ≡ none
      → expr_to_tokens syn (binary lhs op rhs)
        ≡ call op (expr_to_tokens syn lhs) (expr_to_tokens syn rhs)
  expr_to_tokens-call op lhs rhs whole right =
      expr_to_tokens-binary lhs rhs op ∙ rw whole (operated-call op lhs rhs right)

  pub expr_to_tokens-trait_call :
      (op : Op) (name : Text) (rhs : Codegen.Expr syn.SynExpr) {ts : Tokens}
      → takes_value op ≡ true
      → as_tokens syn rhs ≡ some ts
      → expr_to_tokens syn (binary (field_ref name) op rhs) ≡ trait_call op name ts
  unfolding as_tokens
  expr_to_tokens-trait_call op name rhs takes at =
      expr_to_tokens-binary (field_ref name) rhs op
      ∙ rw (as_tokens-binary (field_ref name) rhs op) (rw takes (rw at refl))

  tokens_or-some :
      (o : Option Tokens) (c : Code) {ts : Tokens} → o ≡ some ts → tokens_or o c ≡ raw ts
  tokens_or-some o c e = rw e refl

  -- An expression with tokens is its tokens.
  expr_to_tokens-raw :
      (e : Codegen.Expr syn.SynExpr) {ts : Tokens}
      → as_tokens syn e ≡ some ts
      → expr_to_tokens syn e ≡ raw ts
  unfolding expr_to_tokens
  expr_to_tokens-raw (field_ref name) at = tokens_or-some _ _ at
  expr_to_tokens-raw (Codegen.Expr.value v) at =
      tokens_or-some (as_tokens syn (Codegen.Expr.value v)) (expr_value (syn.to_tokens v)) at
  expr_to_tokens-raw (Codegen.Expr.member_access parent name) at = tokens_or-some _ _ at
  expr_to_tokens-raw (Codegen.Expr.path_access parent name) at = tokens_or-some _ _ at
  expr_to_tokens-raw (Codegen.Expr.function_call function args) at = tokens_or-some _ _ at
  expr_to_tokens-raw (Codegen.Expr.and lhs rhs) at = tokens_or-some _ _ at
  expr_to_tokens-raw (Codegen.Expr.or lhs rhs) at = tokens_or-some _ _ at
  expr_to_tokens-raw (Codegen.Expr.eq lhs rhs) at = tokens_or-some _ _ at
  expr_to_tokens-raw (Codegen.Expr.ne lhs rhs) at = tokens_or-some _ _ at
  expr_to_tokens-raw (Codegen.Expr.lt lhs rhs) at = tokens_or-some _ _ at
  expr_to_tokens-raw (Codegen.Expr.lte lhs rhs) at = tokens_or-some _ _ at
  expr_to_tokens-raw (Codegen.Expr.gt lhs rhs) at = tokens_or-some _ _ at
  expr_to_tokens-raw (Codegen.Expr.gte lhs rhs) at = tokens_or-some _ _ at
  expr_to_tokens-raw (Codegen.Expr.add lhs rhs) at = tokens_or-some _ _ at
  expr_to_tokens-raw (Codegen.Expr.sub lhs rhs) at = tokens_or-some _ _ at
  expr_to_tokens-raw (Codegen.Expr.mul lhs rhs) at = tokens_or-some _ _ at
  expr_to_tokens-raw (Codegen.Expr.div lhs rhs) at = tokens_or-some _ _ at

module _ (syn : Syn) {V : Type 0} (rust : Rust V) where
  pub run-trait_call :
      (op : Op) (name : Text) (ts : Tokens) (t : FieldType)
      → rust.field_type name ≡ some t
      → run rust (trait_call op name ts)
        ≡ field_method rust op (record { identifier = name; field_type = t }) (rust.evaluate ts)
  unfolding run
  run-trait_call op name ts t typed = rw typed refl

  raw_call :
      (op : Op) (ts : Tokens) (rhs : Code)
      → rust.as_query_expr (rust.evaluate ts) ≡ none
      → run rust (call op (raw ts) rhs) ≡ none
  unfolding run
  raw_call op ts rhs is = rw is refl

  -- Take a field of the model, and an expression without fields whose value is not an expression of a
  -- query. It can stand on the right of the field, but not on the left: for every operator but `and` and
  -- `or`, the code of the field, the operator and the value makes what the method of the field makes of
  -- the value, and the code of the value, the operator and the field makes nothing, since its types
  -- do not fit.
  pub expr_to_tokens-value_first :
      (op : Op) (name : Text) (e : Codegen.Expr syn.SynExpr) (ts : Tokens) (t : FieldType)
      → takes_value op ≡ true
      → as_tokens syn e ≡ some ts
      → rust.field_type name ≡ some t
      → rust.as_query_expr (rust.evaluate ts) ≡ none
      → (run rust (expr_to_tokens syn (binary (field_ref name) op e))
          ≡ field_method rust op (record { identifier = name; field_type = t }) (rust.evaluate ts))
        × (run rust (expr_to_tokens syn (binary e op (field_ref name))) ≡ none)
  unfolding as_tokens
  expr_to_tokens-value_first op name e ts t takes at typed is = (
    ap (run rust) (expr_to_tokens-trait_call syn op name e takes at)
        ∙ run-trait_call op name ts t typed,
    ap (run rust) (
          expr_to_tokens-call syn op e (field_ref name)
            (as_tokens-binary syn e (field_ref name) op ∙ rw at refl) refl
          ∙ ap (λ c. call op c (expr_to_tokens syn (field_ref name))) (expr_to_tokens-raw syn e at))
        ∙ raw_call op ts (expr_to_tokens syn (field_ref name)) is,
  )
