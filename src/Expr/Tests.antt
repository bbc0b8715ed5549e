-- ===== src/Expr/Tests.antt =====
-- A `syn` that takes a single token for an expression, parsed expressions, and the theorems at them.
use flareon.Base.{Text, codes, Option, none, some, List, [], ◌∷◌, ◌≡◌, ◌⊎◌, inl, refl, ap, arith}
use flareon.Expr.{
  Op, Token, Tokens, nil, cons, append, dollar, amp, comma, paren, Syn, Expr, field_ref, value, ok,
  error, parse, join_args, as_tokens, as_tokens_full,
}
use flareon.Expr.Printed.{Reads, awaits, behind, IsDocumented}
use flareon.Expr.Printed.Total.{parse_total, size}
use flareon.Expr.Printed.Grouping.{parse-grouping}

abbrev first_token : Tokens → Option (Tokens × Tokens)
first_token nil = none
first_token (cons t rest) = some (cons t nil, rest)

abbrev one_argument : Tokens → Option (List Tokens)
one_argument nil = some []
one_argument (cons t rest) = some (cons t rest ∷ [])

abbrev pub token_syn : Syn
token_syn = record {
  SynExpr = Tokens;
  reference = λ x. cons amp x;
  path = λ name. cons (Token.ident name) nil;
  lit = λ l. cons (Token.literal l) nil;
  parse_expr = first_token;
  parse_args = one_argument;
  to_tokens = λ x. x;
}

some_injective : {A : Type 0} {a b : A} → some a ≡ some b → a ≡ b
some_injective h = cc

first_token-eq-some :
    (ts : Tokens) {x rest : Tokens} → first_token ts ≡ some (x, rest) → ts ≡ append x rest
unfolding append
first_token-eq-some nil h = absurd (cc)
first_token-eq-some (cons t ts) h = ap (λ (p : Tokens × Tokens). append p.0 p.1) (some_injective h)

one_argument-eq-some :
    (ts : Tokens) {args : List Tokens}
    → one_argument ts ≡ some args
    → (ts ≡ join_args token_syn args) ⊎ (ts ≡ append (join_args token_syn args) (cons comma nil))
unfolding join_args
one_argument-eq-some nil h = inl (ap (join_args token_syn) (some_injective h))
one_argument-eq-some (cons t ts) h = inl (ap (join_args token_syn) (some_injective h))

token_syn-IsDocumented : IsDocumented token_syn
token_syn-IsDocumented = record {
  to_tokens-reference = λ x. inl refl;
  to_tokens-path = λ name. refl;
  to_tokens-lit = λ l. refl;
  parse_expr-eq-some = first_token-eq-some;
  parse_args-eq-some = one_argument-eq-some;
}

-- `$age * (1 + limit(5))`.
abbrev example : Tokens
example =
    cons dollar (cons (Token.ident (codes "age")) (cons (Token.op Op.mul) (cons (paren sum) nil)))
  where
    sum : Tokens
    sum = cons (Token.literal (codes "1")) (
        cons (Token.op Op.add) (
          cons (Token.ident (codes "limit"))
            (cons (paren (cons (Token.literal (codes "5")) nil)) nil)))

parsed :
    parse token_syn 10 example
    ≡ ok (
        Expr.mul (field_ref (codes "age")) (
          Expr.add (value (cons (Token.literal (codes "1")) nil)) (
            Expr.function_call
              (value (cons (Token.ident (codes "limit")) nil))
              (cons (Token.literal (codes "5")) nil ∷ []))))
unfolding parse
parsed = refl

parse_total_example :
    ((e : Expr Tokens) × (us : Tokens) × (parse token_syn 10 example ≡ ok e)
      × (as_tokens_full token_syn e ≡ some us)
      × Reads awaits behind example us)
    ⊎ (parse token_syn 10 example ≡ error)
unfolding size
parse_total_example = parse_total token_syn-IsDocumented 10 example (omega arith)

abbrev a : Text
a = codes "a"

parse-grouping_example :
    (parse token_syn 9 (
        cons
          (paren (cons (Token.ident a) (cons (Token.op Op.add) (cons (Token.ident a) nil))))
          (cons (Token.op Op.mul) (cons (Token.ident a) nil)))
      ≡ ok (
          Expr.mul
            (Expr.add (value (token_syn.path a)) (value (token_syn.path a)))
            (value (token_syn.path a))))
    × (parse token_syn 9 (
          cons (Token.ident a) (
            cons
              (Token.op Op.add)
              (cons (Token.ident a) (cons (Token.op Op.mul) (cons (Token.ident a) nil)))))
        ≡ ok (
            Expr.add
              (value (token_syn.path a))
              (Expr.mul (value (token_syn.path a)) (value (token_syn.path a)))))
    × (as_tokens token_syn (
          Expr.mul
            (Expr.add (value (token_syn.path a)) (value (token_syn.path a)))
            (value (token_syn.path a)))
        ≡ as_tokens token_syn (
            Expr.add
              (value (token_syn.path a))
              (Expr.mul (value (token_syn.path a)) (value (token_syn.path a)))))
parse-grouping_example = parse-grouping token_syn a a a
