-- ===== src/Expr/Printed/Total.antt =====
-- The parser of cot-codegen/src/expr.rs ends: more fuel than there are tokens, inner ones counted, is
-- enough.
use flareon.Base.{
  ℕ, zero, suc, ◌+◌, ◌<◌, ◌≤◌, Option, none, some, inl, inr, ◌⊎◌, ◌≡◌, ◌≢◌, refl, sym, ap, ltb,
  arith, Bool-cases,
}
use flareon.Expr.{
  Token, Tokens, nil, cons, append, paren, Syn, Expr, Item, Parsed, ok, error, out_of_fuel, ◌>>=◌,
  next_item, after_item, infix_binding_priority, binary, parse_impl, parse_loop, parse, primary,
  all_read, as_tokens_full, operand,
}
use flareon.Expr.Ends.{>>=-eq-ok}
use flareon.Expr.Printed.{
  Reads, Piece, Position, awaits, behind, IsDocumented, next_item-ReadsItem, found_operand,
}
use flareon.Expr.Printed.Read.{parse_impl-Prints, parse-Reads}

-- The number of tokens, those in parentheses counted too.
unfoldable mutual
  pub size : Tokens → ℕ
  size nil = 0
  size (cons t ts) = size_token t + size ts

  pub size_token : Token → ℕ
  size_token (paren ts) = suc (size ts)
  size_token t = 1

size_token_pos : (t : Token) → 0 < size_token t
unfolding size_token
size_token_pos (paren ts) = omega arith
size_token_pos t = omega arith

size-append : (a b : Tokens) → size (append a b) ≡ size a + size b
unfolding size append
size-append nil b = omega arith
size-append (cons t a) b = omega (arith, size-append a b)

Piece-size : {p q : Position} {cs ds : Tokens} → Piece p q cs ds → 0 < size cs
unfolding size size_token
Piece-size (Piece.field name) = omega arith
Piece-size (Piece.literal l) = omega arith
Piece-size (Piece.ident name) = omega arith
Piece-size (Piece.reference added) = omega arith
Piece-size (Piece.member_access name) = omega arith
Piece-size (Piece.path_access name) = omega arith
Piece-size (Piece.call trimmed) = omega arith
Piece-size (Piece.op o) = omega arith

bind-ne-fuel :
    {A B : Type 0} (m : Parsed A) (f : A → Parsed B)
    → m ≢ out_of_fuel
    → ((a : A) → m ≡ ok a → f a ≢ out_of_fuel)
    → (m >>= f) ≢ out_of_fuel
bind-ne-fuel (ok a) f h k = k a refl
bind-ne-fuel error f h k = λ e. absurd (cc)
bind-ne-fuel out_of_fuel f h k = absurd (h refl)

module _ {syn : Syn} (d : IsDocumented syn) where
  next_item-lt :
      (ts : Tokens) {item : Item syn.SynExpr} {rest : Tokens}
      → next_item syn ts ≡ some (item, rest)
      → size rest < size ts
  next_item-lt ts {item} {rest} h =
      let (cs, split, read) = next_item-ReadsItem d ts h in
      omega (arith, ap size split, size-append cs rest, Piece-size read)

  operand-lt :
      (ts : Tokens) (o : Option (Item syn.SynExpr × Tokens)) (e : Expr syn.SynExpr) (rest : Tokens)
      → next_item syn ts ≡ o
      → operand syn o ≡ ok (e, rest)
      → size rest < size ts
  unfolding operand
  operand-lt ts none e rest at h = absurd (cc)
  operand-lt ts (some (Item.field n, left)) e rest at h =
      rw (sym (found_operand d _ left h).1) (next_item-lt ts at)
  operand-lt ts (some (Item.reference n, left)) e rest at h =
      rw (sym (found_operand d _ left h).1) (next_item-lt ts at)
  operand-lt ts (some (Item.ident n, left)) e rest at h =
      rw (sym (found_operand d _ left h).1) (next_item-lt ts at)
  operand-lt ts (some (Item.literal n, left)) e rest at h =
      rw (sym (found_operand d _ left h).1) (next_item-lt ts at)
  operand-lt ts (some (Item.member_access n, left)) e rest at h = absurd (cc)
  operand-lt ts (some (Item.path_access n, left)) e rest at h = absurd (cc)
  operand-lt ts (some (Item.function_call n, left)) e rest at h = absurd (cc)
  operand-lt ts (some (Item.op n, left)) e rest at h = absurd (cc)

  operand-ne-fuel : (o : Option (Item syn.SynExpr × Tokens)) → operand syn o ≢ out_of_fuel
  unfolding operand
  operand-ne-fuel none = λ e. absurd (cc)
  operand-ne-fuel (some (Item.field n, left)) = λ e. absurd (cc)
  operand-ne-fuel (some (item, left)) = λ e. absurd (cc)

  primary-lt :
      (inner : Tokens → Parsed (Expr syn.SynExpr × Tokens)) (ts : Tokens) (e : Expr syn.SynExpr)
      (rest : Tokens)
      → primary syn inner ts ≡ ok (e, rest)
      → size rest < size ts
  unfolding primary size
  primary-lt inner nil e rest h = operand-lt nil _ e rest refl h
  primary-lt inner (cons (paren content) ts) e rest h =
      let ((e', left), parsed, done) = >>=-eq-ok _ (inner content) h in
      omega (arith, ap size (found_operand d e' ts done).1, size_token_pos (paren content))
  primary-lt inner (cons t ts) e rest h = operand-lt (cons t ts) _ e rest refl h

  primary-ne-fuel :
      (inner : Tokens → Parsed (Expr syn.SynExpr × Tokens)) (ts : Tokens)
      → ((content : Tokens) → size content < size ts → inner content ≢ out_of_fuel)
      → primary syn inner ts ≢ out_of_fuel
  unfolding primary size size_token
  primary-ne-fuel inner nil h = operand-ne-fuel (next_item syn nil)
  primary-ne-fuel inner (cons (paren content) ts) h =
      bind-ne-fuel (inner content) _ (h content (omega arith)) (λ a is e. absurd (cc))
  primary-ne-fuel inner (cons t ts) h = operand-ne-fuel (next_item syn (cons t ts))

  -- The rest that a right operand leaves is no longer than its input.
  parse_impl-le :
      (fuel : ℕ) (ts : Tokens) (min : ℕ) (e : Expr syn.SynExpr) (rest : Tokens)
      → parse_impl syn fuel ts min ≡ ok (e, rest)
      → size rest ≤ size ts
  parse_impl-le fuel ts min e rest h =
      let (cs, us, split, read, shown) = parse_impl-Prints d fuel ts min e rest h in
      omega (arith, ap size split, size-append cs rest)

  after_item-ne-fuel :
      (fuel : ℕ) (lhs : Expr syn.SynExpr) (ts : Tokens) (min : ℕ)
      (o : Option (Item syn.SynExpr × Tokens))
      → next_item syn ts ≡ o
      → ((l : Expr syn.SynExpr) (r : Tokens)
          → size r < size ts
          → parse_loop syn fuel l r min ≢ out_of_fuel)
      → ((r : Tokens) (m : ℕ) → size r < size ts → parse_impl syn fuel r m ≢ out_of_fuel)
      → after_item syn (λ l r. parse_loop syn fuel l r min) (parse_impl syn fuel) lhs ts min o
        ≢ out_of_fuel
  unfolding after_item
  after_item-ne-fuel fuel lhs ts min none at loop inner = λ e. absurd (cc)
  after_item-ne-fuel fuel lhs ts min (some (Item.member_access n, left)) at loop inner =
      loop (Expr.member_access lhs n) left (next_item-lt ts at)
  after_item-ne-fuel fuel lhs ts min (some (Item.path_access n, left)) at loop inner =
      loop (Expr.path_access lhs n) left (next_item-lt ts at)
  after_item-ne-fuel fuel lhs ts min (some (Item.function_call args, left)) at loop inner =
      loop (Expr.function_call lhs args) left (next_item-lt ts at)
  after_item-ne-fuel fuel lhs ts min (some (Item.op o, left)) at loop inner =
      let right = (infix_binding_priority o).right in
      elim (Bool-cases (ltb (infix_binding_priority o).left min)) [
        | inl weaker ↦ rw weaker (λ e. absurd (cc))
        | inr tighter ↦ rw tighter (
            bind-ne-fuel (parse_impl syn fuel left right) _ (inner left right (next_item-lt ts at))
              (λ p is.
                loop (binary lhs o p.0) p.1
                  (omega (arith, parse_impl-le fuel left right p.0 p.1 is, next_item-lt ts at))))
      ]
  after_item-ne-fuel fuel lhs ts min (some (Item.field _, left)) at loop inner = λ e. absurd (cc)
  after_item-ne-fuel fuel lhs ts min (some (Item.reference _, left)) at loop inner =
      λ e. absurd (cc)
  after_item-ne-fuel fuel lhs ts min (some (Item.ident _, left)) at loop inner = λ e. absurd (cc)
  after_item-ne-fuel fuel lhs ts min (some (Item.literal _, left)) at loop inner = λ e. absurd (cc)

  mutual
    unfolding parse_impl parse_loop

    parse_impl-ne-fuel :
        (fuel : ℕ) (ts : Tokens) (min : ℕ)
        → size ts < fuel
        → parse_impl syn fuel ts min ≢ out_of_fuel
    parse_impl-ne-fuel zero ts min h = absurd (omega arith)
    parse_impl-ne-fuel (suc fuel) ts min h =
        bind-ne-fuel (primary syn (λ content. parse_impl syn fuel content 0) ts) _
          (primary-ne-fuel (λ content. parse_impl syn fuel content 0) ts
            (λ content k. parse_impl-ne-fuel fuel content 0 (omega arith)))
          (λ p is.
            parse_loop-ne-fuel fuel p.0 p.1 min
              (omega (arith, primary-lt (λ content. parse_impl syn fuel content 0) ts p.0 p.1 is)))

    parse_loop-ne-fuel :
        (fuel : ℕ) (lhs : Expr syn.SynExpr) (ts : Tokens) (min : ℕ)
        → size ts < fuel
        → parse_loop syn fuel lhs ts min ≢ out_of_fuel
    parse_loop-ne-fuel zero lhs ts min h = absurd (omega arith)
    parse_loop-ne-fuel (suc fuel) lhs nil min h = λ e. absurd (cc)
    parse_loop-ne-fuel (suc fuel) lhs (cons t ts) min h =
        after_item-ne-fuel fuel lhs (cons t ts) min (next_item syn (cons t ts)) refl
          (λ l r k. parse_loop-ne-fuel fuel l r min (omega arith))
          (λ r m k. parse_impl-ne-fuel fuel r m (omega arith))

  all_read-ne-fuel : (p : Expr syn.SynExpr × Tokens) → all_read syn p ≢ out_of_fuel
  all_read-ne-fuel (e, nil) = λ h. absurd (cc)
  all_read-ne-fuel (e, cons t ts) = λ h. absurd (cc)

  parse-ne-fuel : (fuel : ℕ) (ts : Tokens) → size ts < fuel → parse syn fuel ts ≢ out_of_fuel
  unfolding parse
  parse-ne-fuel fuel ts h =
      bind-ne-fuel (parse_impl syn fuel ts 0) _ (parse_impl-ne-fuel fuel ts 0 h)
        (λ p is. all_read-ne-fuel p)

  Parsed-cases :
      {A : Type 0} (p : Parsed A) → p ≢ out_of_fuel → ((a : A) × (p ≡ ok a)) ⊎ (p ≡ error)
  Parsed-cases (ok a) h = inl (a, refl)
  Parsed-cases error h = inr refl
  Parsed-cases out_of_fuel h = absurd (h refl)

  -- Over a `syn` that does what is documented, `parse` returns an expression or an error if it has more
  -- fuel than there are tokens, those in parentheses counted too. The tokens of an expression that it
  -- returns, by `as_tokens_full`, are the tokens that it was given, all of them and in their order,
  -- but for three things: parentheses that stand where an operand is awaited, at the start, behind an
  -- operator or inside such parentheses, are left out; the comma at the end of the
  -- arguments of a call is left out; and `syn` may put parentheses around what is behind a `&`.
  pub parse_total :
      (fuel : ℕ) (ts : Tokens)
      → size ts < fuel
      → ((e : Expr syn.SynExpr) × (us : Tokens) × (parse syn fuel ts ≡ ok e)
          × (as_tokens_full syn e ≡ some us)
          × Reads awaits behind ts us)
        ⊎ (parse syn fuel ts ≡ error)
  parse_total fuel ts h = elim (Parsed-cases (parse syn fuel ts) (parse-ne-fuel fuel ts h)) [
    | inl (e, is) ↦ let (us, shown, read) = parse-Reads d fuel ts is in inl (e, us, is, shown, read)
    | inr failed ↦ inr failed
  ]
