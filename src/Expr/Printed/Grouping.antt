-- ===== src/Expr/Printed/Grouping.antt =====
-- Expressions of cot-codegen/src/expr.rs that differ in their parentheses only.
use flareon.Base.{Text, Option, none, some, ◌≡◌, refl, ap}
use flareon.Expr.{
  Op, Token, Tokens, nil, cons, append, paren, Syn, Expr, value, ok, quoted, parse, as_tokens,
  as_tokens_impl,
}
use flareon.Expr.Printed.{append_assoc}

quoted_assoc :
    (a b c : Option Tokens) (o q : Op) → quoted (quoted a o b) q c ≡ quoted a o (quoted b q c)
unfolding append
quoted_assoc none b c o q = refl
quoted_assoc (some a) none c o q = refl
quoted_assoc (some a) (some b) none o q = refl
quoted_assoc (some a) (some b) (some c) o q =
    ap some (append_assoc a (cons (Token.op o) b) (cons (Token.op q) c))

module _ (syn : Syn) where
  as_tokens-grouping :
      (a b c : Expr syn.SynExpr)
      → as_tokens syn (Expr.mul (Expr.add a b) c) ≡ as_tokens syn (Expr.add a (Expr.mul b c))
  unfolding as_tokens as_tokens_impl
  as_tokens-grouping a b c = quoted_assoc _ _ _ Op.add Op.mul

  -- `(x + y) * z` is parsed as a product and `x + y * z` as a sum, with names for `x`, `y` and `z`, but
  -- `as_tokens` makes the same tokens of them.
  pub parse-grouping :
      (x y z : Text)
      → (parse syn 9 (
            cons
              (paren (cons (Token.ident x) (cons (Token.op Op.add) (cons (Token.ident y) nil))))
              (cons (Token.op Op.mul) (cons (Token.ident z) nil)))
          ≡ ok (Expr.mul (Expr.add (value (syn.path x)) (value (syn.path y))) (value (syn.path z))))
        × (parse syn 9 (
              cons (Token.ident x) (
                cons
                  (Token.op Op.add)
                  (cons (Token.ident y) (cons (Token.op Op.mul) (cons (Token.ident z) nil)))))
            ≡ ok (
                Expr.add (value (syn.path x)) (Expr.mul (value (syn.path y)) (value (syn.path z)))))
        × (as_tokens syn
              (Expr.mul (Expr.add (value (syn.path x)) (value (syn.path y))) (value (syn.path z)))
            ≡ as_tokens syn (
                Expr.add (value (syn.path x)) (Expr.mul (value (syn.path y)) (value (syn.path z)))))
  unfolding parse
  parse-grouping x y z = (refl, refl, as_tokens-grouping _ _ _)
