-- ===== src/Expr/Ends.antt =====
-- The parser of cot-codegen/src/expr.rs at the lowest priority, which reads all of its input.
use flareon.Base.{ℕ, zero, suc, Option, none, some, false, ◌≡◌, refl, ltb, arith}
use flareon.Expr.{
  Tokens, nil, cons, Syn, Expr, Item, Parsed, ok, error, out_of_fuel, ◌>>=◌, next_item, after_item,
  infix_binding_priority, binary, parse_impl, parse_loop, primary,
}

module _ {A B : Type 0} (f : A → Parsed B) {b : B} where
  pub >>=-eq-ok : (m : Parsed A) → (m >>= f) ≡ ok b → (a : A) × (m ≡ ok a) × (f a ≡ ok b)
  >>=-eq-ok out_of_fuel done = cc
  >>=-eq-ok error done = cc
  >>=-eq-ok (ok a) done = (a, refl, done)

ltb_zero : (n : ℕ) → ltb n 0 ≡ false
ltb_zero n = ground arith

module _ (syn : Syn) where
  abbrev Ends : Parsed (Expr syn.SynExpr × Tokens) → Type 0
  Ends p = (e : Expr syn.SynExpr) (rest : Tokens) → p ≡ ok (e, rest) → rest ≡ nil

  after_item-Ends :
      (loop : Expr syn.SynExpr → Tokens → Parsed (Expr syn.SynExpr × Tokens))
      (parse : Tokens → ℕ → Parsed (Expr syn.SynExpr × Tokens))
      → ((l : Expr syn.SynExpr) (ts : Tokens) → Ends (loop l ts))
      → (lhs : Expr syn.SynExpr) (ts : Tokens) (o : Option (Item syn.SynExpr × Tokens))
      → Ends (after_item syn loop parse lhs ts 0 o)
  unfolding after_item
  after_item-Ends loop parse ends lhs ts none e rest h = absurd (cc)
  after_item-Ends loop parse ends lhs ts (some (Item.member_access n, left)) e rest h =
      ends _ _ e rest h
  after_item-Ends loop parse ends lhs ts (some (Item.path_access n, left)) e rest h =
      ends _ _ e rest h
  after_item-Ends loop parse ends lhs ts (some (Item.function_call n, left)) e rest h =
      ends _ _ e rest h
  after_item-Ends loop parse ends lhs ts (some (Item.op o, left)) e rest h =
      let deeper = rw (ltb_zero (infix_binding_priority o).left) at h in
      let (rhs, _, looped) = >>=-eq-ok _ (parse left (infix_binding_priority o).right) deeper in
      ends (binary lhs o rhs.0) rhs.1 e rest looped
  after_item-Ends loop parse ends lhs ts (some (Item.field _, left)) e rest h = absurd (cc)
  after_item-Ends loop parse ends lhs ts (some (Item.reference _, left)) e rest h = absurd (cc)
  after_item-Ends loop parse ends lhs ts (some (Item.ident _, left)) e rest h = absurd (cc)
  after_item-Ends loop parse ends lhs ts (some (Item.literal _, left)) e rest h = absurd (cc)

  parse_loop-Ends :
      (fuel : ℕ) (lhs : Expr syn.SynExpr) (ts : Tokens) → Ends (parse_loop syn fuel lhs ts 0)
  unfolding parse_loop
  parse_loop-Ends zero lhs ts e rest h = absurd (cc)
  parse_loop-Ends (suc fuel) lhs nil e rest h = cc
  parse_loop-Ends (suc fuel) lhs (cons t ts) e rest h =
      after_item-Ends (λ l r. parse_loop syn fuel l r 0) (parse_impl syn fuel)
        (parse_loop-Ends fuel) lhs (cons t ts) (next_item syn (cons t ts)) e rest h

  pub parse_impl-Ends : (fuel : ℕ) (ts : Tokens) → Ends (parse_impl syn fuel ts 0)
  unfolding parse_impl
  parse_impl-Ends zero ts e rest h = absurd (cc)
  parse_impl-Ends (suc fuel) ts e rest h =
      let (lhs, _, looped) =
        >>=-eq-ok _ (primary syn (λ content. parse_impl syn fuel content 0) ts) h in
      parse_loop-Ends fuel lhs.0 lhs.1 e rest looped
