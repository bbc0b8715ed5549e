-- ===== src/Expr/Printed/Read.antt =====
-- The recursion of the parser of cot-codegen/src/expr.rs: each call reads the tokens of its result.
use flareon.Base.{
  ℕ, zero, suc, Option, none, some, inl, inr, ◌≡◌, refl, sym, subst, ap, ◌∙◌, ltb, Bool-cases,
}
use flareon.Expr.{
  Op, Token, Tokens, nil, cons, append, paren, dollar, Syn, Expr, Item, Parsed, ok, next_item,
  after_item, infix_binding_priority, binary, parse_impl, parse_loop, parse, primary, all_read,
  full, as_tokens_impl, as_tokens_full, quoted, followed,
}
use flareon.Expr.Ends.{>>=-eq-ok, parse_impl-Ends}
use flareon.Expr.Printed.{
  Reads, awaits, behind, item_from, item_to, Reads-of_Piece, Reads-append, append_assoc, append-nil,
  IsDocumented, item_tokens, ReadsExpr, next_item-ReadsItem, operand-ReadsExpr, found_operand,
}

module _ {syn : Syn} (d : IsDocumented syn) where
  -- What the loop reads is printed behind what it had.
  abbrev pub Extends : Expr syn.SynExpr → Tokens → Expr syn.SynExpr → Tokens → Type 0
  Extends lhs ts e rest =
      (cs us : Tokens) × (ts ≡ append cs rest)
      × Reads behind behind cs us
      × ((vs : Tokens)
          → as_tokens_impl syn full lhs ≡ some vs
          → as_tokens_impl syn full e ≡ some (append vs us))

  binary-quoted :
      (lhs : Expr syn.SynExpr) (o : Op) (rhs : Expr syn.SynExpr)
      → as_tokens_impl syn full (binary lhs o rhs)
        ≡ quoted (as_tokens_impl syn full lhs) o (as_tokens_impl syn full rhs)
  unfolding binary as_tokens_impl
  binary-quoted lhs Op.mul rhs = refl
  binary-quoted lhs o rhs = refl

  -- An item that is printed behind an expression, and what the loop reads after it.
  item-Extends :
      (lhs lhs' : Expr syn.SynExpr) (ts : Tokens) (item : Item syn.SynExpr) (left : Tokens)
      (e : Expr syn.SynExpr) (rest : Tokens)
      → next_item syn ts ≡ some (item, left)
      → as_tokens_impl syn full lhs' ≡ followed (as_tokens_impl syn full lhs) (item_tokens d item)
      → item_from d item ≡ behind
      → item_to d item ≡ behind
      → Extends lhs' left e rest
      → Extends lhs ts e rest
  item-Extends lhs lhs' ts item left e rest at shown from to (cs, us, split, read, prints) =
      let (cs', split', read') = next_item-ReadsItem d ts at in
      (
        append cs' cs,
        append (item_tokens d item) us,
        split' ∙ (ap (append cs') split ∙ sym (append_assoc cs' cs _)),
        Reads-append
            (subst (λ p. Reads p behind cs' (item_tokens d item)) from
              (subst (λ p. Reads (item_from d item) p cs' (item_tokens d item)) to
                (Reads-of_Piece read')))
            read,
        λ vs is.
            prints (append vs (item_tokens d item))
              (shown ∙ ap (λ o. followed o (item_tokens d item)) is)
            ∙ ap some (append_assoc vs (item_tokens d item) us),
      )

  op-Extends :
      (lhs rhs : Expr syn.SynExpr) (o : Op) (ts left left' : Tokens) (e : Expr syn.SynExpr)
      (rest : Tokens)
      → next_item syn ts ≡ some (Item.op o, left)
      → ReadsExpr d left rhs left'
      → Extends (binary lhs o rhs) left' e rest
      → Extends lhs ts e rest
  unfolding append
  op-Extends lhs rhs o ts left left' e rest at (cs, us, split, read, prints)
        (cs'', us'', split'', read'', prints'') =
      let (cs', split', read') = next_item-ReadsItem d ts at in
      (
        append cs' (append cs cs''),
        cons (Token.op o) (append us us''),
        split'
            ∙ (ap (append cs') (split ∙ (ap (append cs) split'' ∙ sym (append_assoc cs cs'' _)))
                ∙ sym (append_assoc cs' (append cs cs'') _)),
        Reads-append (Reads-of_Piece read') (Reads-append read read''),
        λ vs is.
            prints'' (append vs (cons (Token.op o) us)) (
              binary-quoted lhs o rhs
              ∙ (ap (λ x. quoted x o (as_tokens_impl syn full rhs)) is
                  ∙ ap (quoted (some vs) o) prints))
            ∙ ap some (append_assoc vs (cons (Token.op o) us) us''),
      )

  abbrev pub Prints : Tokens → Parsed (Expr syn.SynExpr × Tokens) → Type 0
  Prints ts p = (e : Expr syn.SynExpr) (rest : Tokens) → p ≡ ok (e, rest) → ReadsExpr d ts e rest

  abbrev pub Continues : Expr syn.SynExpr → Tokens → Parsed (Expr syn.SynExpr × Tokens) → Type 0
  Continues lhs ts p =
      (e : Expr syn.SynExpr) (rest : Tokens) → p ≡ ok (e, rest) → Extends lhs ts e rest

  stop-Continues : (lhs : Expr syn.SynExpr) (ts : Tokens) → Continues lhs ts (ok (lhs, ts))
  unfolding append
  stop-Continues lhs ts e rest h =
      let (same_expr, same_rest) = found_operand d lhs ts h in
      (
        nil,
        nil,
        same_rest,
        Reads.end,
        λ vs is.
            subst (λ (x : Expr syn.SynExpr). as_tokens_impl syn full x ≡ some vs) same_expr is
            ∙ ap some (sym (append-nil vs)),
      )

  after_item-Continues :
      (loop : Expr syn.SynExpr → Tokens → Parsed (Expr syn.SynExpr × Tokens))
      (parse : Tokens → ℕ → Parsed (Expr syn.SynExpr × Tokens))
      → ((l : Expr syn.SynExpr) (ts : Tokens) → Continues l ts (loop l ts))
      → ((ts : Tokens) (min : ℕ) → Prints ts (parse ts min))
      → (lhs : Expr syn.SynExpr) (ts : Tokens) (min : ℕ) (o : Option (Item syn.SynExpr × Tokens))
      → next_item syn ts ≡ o
      → Continues lhs ts (after_item syn loop parse lhs ts min o)
  unfolding after_item as_tokens_impl
  after_item-Continues loop parse more right lhs ts min none at e rest h = absurd (cc)
  after_item-Continues loop parse more right lhs ts min (some (Item.member_access n, left)) at e
        rest h =
      item-Extends lhs (Expr.member_access lhs n) ts (Item.member_access n) left e rest at refl refl
        refl (more _ left e rest h)
  after_item-Continues loop parse more right lhs ts min (some (Item.path_access n, left)) at e rest
        h =
      item-Extends lhs (Expr.path_access lhs n) ts (Item.path_access n) left e rest at refl refl
        refl (more _ left e rest h)
  after_item-Continues loop parse more right lhs ts min (some (Item.function_call args, left)) at e
        rest h =
      item-Extends lhs (Expr.function_call lhs args) ts (Item.function_call args) left e rest at
        refl refl refl (more _ left e rest h)
  after_item-Continues loop parse more right lhs ts min (some (Item.op o, left)) at e rest h =
      elim (Bool-cases (ltb (infix_binding_priority o).left min)) [
        | inl weaker ↦ stop-Continues lhs ts e rest (rw weaker at h)
        | inr tighter ↦
            let ((rhs, left'), parsed, looped) =
              >>=-eq-ok _ (parse left (infix_binding_priority o).right) (rw tighter at h) in
            op-Extends lhs rhs o ts left left' e rest at (right left _ rhs left' parsed)
              (more (binary lhs o rhs) left' e rest looped)
      ]
  after_item-Continues loop parse more right lhs ts min (some (Item.field _, left)) at e rest h =
      absurd (cc)
  after_item-Continues loop parse more right lhs ts min (some (Item.reference _, left)) at e rest
        h =
      absurd (cc)
  after_item-Continues loop parse more right lhs ts min (some (Item.ident _, left)) at e rest h =
      absurd (cc)
  after_item-Continues loop parse more right lhs ts min (some (Item.literal _, left)) at e rest h =
      absurd (cc)

  primary-Prints :
      (inner : Tokens → Parsed (Expr syn.SynExpr × Tokens))
      → ((ts : Tokens) → Prints ts (inner ts))
      → ((ts : Tokens) (e : Expr syn.SynExpr) (rest : Tokens)
          → inner ts ≡ ok (e, rest)
          → rest ≡ nil)
      → (ts : Tokens) → Prints ts (primary syn inner ts)
  unfolding primary append
  primary-Prints inner prints ends nil e rest h = operand-ReadsExpr d nil _ refl h
  primary-Prints inner prints ends (cons (paren content) ts) e rest h =
      let ((e', left), parsed, done) = >>=-eq-ok _ (inner content) h in
      let (same_expr, same_rest) = found_operand d e' ts done in
      let (cs, us, split, read, shown) = prints content e' left parsed in
      let whole = split ∙ (ap (append cs) (ends content e' left parsed) ∙ append-nil cs) in
      (
        cons (paren content) nil,
        us,
        ap (cons (paren content)) same_rest,
        Reads.ungroup (subst (λ (x : Tokens). Reads awaits behind x us) (sym whole) read) Reads.end
            (sym (append-nil us)),
        subst (λ (x : Expr syn.SynExpr). as_tokens_impl syn full x ≡ some us) same_expr shown,
      )
  primary-Prints inner prints ends (cons dollar ts) e rest h = operand-ReadsExpr d _ _ refl h
  primary-Prints inner prints ends (cons t ts) e rest h = operand-ReadsExpr d _ _ refl h

  mutual
    unfolding parse_impl parse_loop append

    pub parse_impl-Prints :
        (fuel : ℕ) (ts : Tokens) (min : ℕ) → Prints ts (parse_impl syn fuel ts min)
    parse_impl-Prints zero ts min e rest h = absurd (cc)
    parse_impl-Prints (suc fuel) ts min e rest h =
        let ((lhs, left), first, looped) =
          >>=-eq-ok _ (primary syn (λ content. parse_impl syn fuel content 0) ts) h in
        let (cs, us, split, read, shown) =
          primary-Prints (λ content. parse_impl syn fuel content 0)
            (λ content. parse_impl-Prints fuel content 0) (parse_impl-Ends syn fuel) ts lhs left
            first in
        let (cs', us', split', read', prints) =
          parse_loop-Continues fuel lhs left min e rest looped in
        (
          append cs cs',
          append us us',
          split ∙ (ap (append cs) split' ∙ sym (append_assoc cs cs' rest)),
          Reads-append read read',
          prints us shown,
        )

    pub parse_loop-Continues :
        (fuel : ℕ) (lhs : Expr syn.SynExpr) (ts : Tokens) (min : ℕ)
        → Continues lhs ts (parse_loop syn fuel lhs ts min)
    parse_loop-Continues zero lhs ts min e rest h = absurd (cc)
    parse_loop-Continues (suc fuel) lhs nil min e rest h = stop-Continues lhs nil e rest h
    parse_loop-Continues (suc fuel) lhs (cons t ts) min e rest h =
        after_item-Continues (λ l r. parse_loop syn fuel l r min) (parse_impl syn fuel)
          (λ l r. parse_loop-Continues fuel l r min) (parse_impl-Prints fuel) lhs (cons t ts) min
          (next_item syn (cons t ts)) refl e rest h

  all_read-eq-ok :
      (e' : Expr syn.SynExpr) (left : Tokens) {e : Expr syn.SynExpr}
      → all_read syn (e', left) ≡ ok e
      → (e' ≡ e) × (left ≡ nil)
  all_read-eq-ok e' nil h = (cc, refl)
  all_read-eq-ok e' (cons t ts) h = absurd (cc)

  pub parse-Reads :
      (fuel : ℕ) (ts : Tokens) {e : Expr syn.SynExpr}
      → parse syn fuel ts ≡ ok e
      → (us : Tokens) × (as_tokens_full syn e ≡ some us) × Reads awaits behind ts us
  unfolding parse as_tokens_full
  parse-Reads fuel ts {e} h =
      let ((e', left), parsed, all) = >>=-eq-ok _ (parse_impl syn fuel ts 0) h in
      let (same_expr, no_rest) = all_read-eq-ok e' left all in
      let (cs, us, split, read, shown) = parse_impl-Prints fuel ts 0 e' left parsed in
      let whole = split ∙ (ap (append cs) no_rest ∙ append-nil cs) in
      (
        us,
        subst (λ (x : Expr syn.SynExpr). as_tokens_impl syn full x ≡ some us) same_expr shown,
        subst (λ (x : Tokens). Reads awaits behind x us) (sym whole) read,
      )
