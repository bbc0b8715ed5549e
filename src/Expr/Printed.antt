-- ===== src/Expr/Printed.antt =====
-- The parser of cot-codegen/src/expr.rs against `as_tokens_full`: what is read is printed again, less
-- its grouping parentheses.
pub mod Read
pub mod Total
pub mod Grouping
use flareon.Base.{
  ℕ, zero, suc, Text, Option, none, some, Bool, true, false, List, [], ◌∷◌, ◌≡◌, ◌⊎◌, inl, inr,
  refl, sym, subst, ap, ◌∙◌, arith,
}
use flareon.Expr.{
  Op, Token, Tokens, nil, cons, append, dollar, amp, dot, colons, comma, paren, other, Syn, Expr,
  Item, Parsed, ok, error, out_of_fuel, ◌>>=◌, next_item, operand, join_args, full, as_tokens_impl,
  binary, followed, quoted, field_ref, value, with_ident, referenced, called,
}

-- Where the parser is: an operand is awaited, or one stands before.
pub data Position : Type 0 where
  awaits behind : Position

-- The tokens of an item, and as which they are printed: as they are, but that `syn` may put
-- parentheses around a referenced expression, and that the comma at the end of arguments is left out.
pub data Piece : Position → Position → Tokens → Tokens → Type 0 where
  field :
      (name : Text)
      → Piece awaits behind
          (cons dollar (cons (Token.ident name) nil))
          (cons dollar (cons (Token.ident name) nil))
  literal :
      (l : Text) → Piece awaits behind (cons (Token.literal l) nil) (cons (Token.literal l) nil)
  ident :
      (name : Text)
      → Piece awaits behind (cons (Token.ident name) nil) (cons (Token.ident name) nil)
  reference :
      {cs ds : Tokens}
      → (ds ≡ cs) ⊎ (ds ≡ cons (paren cs) nil)
      → Piece awaits behind (cons amp cs) (cons amp ds)
  member_access :
      (name : Text)
      → Piece behind behind
          (cons dot (cons (Token.ident name) nil))
          (cons dot (cons (Token.ident name) nil))
  path_access :
      (name : Text)
      → Piece behind behind
          (cons colons (cons (Token.ident name) nil))
          (cons colons (cons (Token.ident name) nil))
  call :
      {content cs : Tokens}
      → (content ≡ cs) ⊎ (content ≡ append cs (cons comma nil))
      → Piece behind behind (cons (paren content) nil) (cons (paren cs) nil)
  op : (o : Op) → Piece behind awaits (cons (Token.op o) nil) (cons (Token.op o) nil)

-- `Reads from to ts us`: from one position to the other, `us` is `ts` as its items are printed, and
-- without the parentheses where an operand is awaited, in parentheses that are taken away too.
pub data Reads : Position → Position → Tokens → Tokens → Type 0 where
  end : {p : Position} → Reads p p nil nil
  piece :
      {p q r : Position} {cs ds ts us vs ws : Tokens}
      → Piece p q cs ds
      → Reads q r ts us
      → vs ≡ append cs ts
      → ws ≡ append ds us
      → Reads p r vs ws
  ungroup :
      {r : Position} {cs ds ts us ws : Tokens}
      → Reads awaits behind cs ds
      → Reads behind r ts us
      → ws ≡ append ds us
      → Reads awaits r (cons (paren cs) ts) ws

pub append_assoc : (a b c : Tokens) → append (append a b) c ≡ append a (append b c)
unfolding append
append_assoc nil b c = refl
append_assoc (cons t a) b c = ap (cons t) (append_assoc a b c)

pub append-nil : (a : Tokens) → append a nil ≡ a
unfolding append
append-nil nil = refl
append-nil (cons t a) = ap (cons t) (append-nil a)

pub Reads-of_Piece : {p q : Position} {cs ds : Tokens} → Piece p q cs ds → Reads p q cs ds
Reads-of_Piece {cs = cs} {ds = ds} x = piece x end (sym (append-nil cs)) (sym (append-nil ds))

pub Reads-append :
    {p q r : Position} {ts us ts' us' : Tokens}
    → Reads p q ts us
    → Reads q r ts' us'
    → Reads p r (append ts ts') (append us us')
unfolding append
Reads-append end x = x
Reads-append {ts' = ts'} {us' = us'} (piece {cs = cs} {ds = ds} {ts = ts} {us = us} i y eq eq') x =
    piece i (Reads-append y x) (ap (λ v. append v ts') eq ∙ append_assoc cs ts ts')
      (ap (λ v. append v us') eq' ∙ append_assoc ds us us')
Reads-append {us' = us'} (ungroup {ds = ds} {us = us} inner y eq) x =
    ungroup inner (Reads-append y x) (ap (λ v. append v us') eq ∙ append_assoc ds us us')

-- What is documented of `syn`: the tokens of an expression that it parsed are those that it was parsed
-- from, and those of arguments too, but for a comma behind the last one; around an expression of
-- lower precedence, the tokens of a reference have parentheses.
pub record IsDocumented (syn : Syn) : Type 0 where
  pub to_tokens-reference :
      (x : syn.SynExpr)
      → (syn.to_tokens (syn.reference x) ≡ cons amp (syn.to_tokens x))
        ⊎ (syn.to_tokens (syn.reference x) ≡ cons amp (cons (paren (syn.to_tokens x)) nil))
  pub to_tokens-path : (name : Text) → syn.to_tokens (syn.path name) ≡ cons (Token.ident name) nil
  pub to_tokens-lit : (l : Text) → syn.to_tokens (syn.lit l) ≡ cons (Token.literal l) nil
  pub parse_expr-eq-some :
      (ts : Tokens) {x : syn.SynExpr} {rest : Tokens}
      → syn.parse_expr ts ≡ some (x, rest)
      → ts ≡ append (syn.to_tokens x) rest
  pub parse_args-eq-some :
      (ts : Tokens) {args : List syn.SynExpr}
      → syn.parse_args ts ≡ some args
      → (ts ≡ join_args syn args) ⊎ (ts ≡ append (join_args syn args) (cons comma nil))

module _ {syn : Syn} (d : IsDocumented syn) where
  abbrev pub item_tokens : Item syn.SynExpr → Tokens
  item_tokens (Item.field name) = cons dollar (cons (Token.ident name) nil)
  item_tokens (Item.literal l) = cons (Token.literal l) nil
  item_tokens (Item.ident name) = cons (Token.ident name) nil
  item_tokens (Item.member_access name) = cons dot (cons (Token.ident name) nil)
  item_tokens (Item.path_access name) = cons colons (cons (Token.ident name) nil)
  item_tokens (Item.function_call args) = cons (paren (join_args syn args)) nil
  item_tokens (Item.reference x) = syn.to_tokens (syn.reference x)
  item_tokens (Item.op o) = cons (Token.op o) nil

  abbrev pub item_from : Item syn.SynExpr → Position
  item_from (Item.field _) = awaits
  item_from (Item.literal _) = awaits
  item_from (Item.ident _) = awaits
  item_from (Item.reference _) = awaits
  item_from (Item.member_access _) = behind
  item_from (Item.path_access _) = behind
  item_from (Item.function_call _) = behind
  item_from (Item.op _) = behind

  abbrev pub item_to : Item syn.SynExpr → Position
  item_to (Item.op _) = awaits
  item_to (Item.field _) = behind
  item_to (Item.literal _) = behind
  item_to (Item.ident _) = behind
  item_to (Item.reference _) = behind
  item_to (Item.member_access _) = behind
  item_to (Item.path_access _) = behind
  item_to (Item.function_call _) = behind

  abbrev pub PieceOf : Tokens → Item syn.SynExpr → Type 0
  PieceOf cs item = Piece (item_from item) (item_to item) cs (item_tokens item)

  -- The tokens in front of the rest are those of the item.
  abbrev pub ReadsItem : Tokens → Item syn.SynExpr → Tokens → Type 0
  ReadsItem ts item rest = (cs : Tokens) × (ts ≡ append cs rest) × PieceOf cs item

  found_item :
      {V : Type 0} (i : Item V) (ts : Tokens) {item : Item V} {rest : Tokens}
      → ◌≡◌ {A = Option (Item V × Tokens)} (some (i, ts)) (some (item, rest))
      → (i ≡ item) × (ts ≡ rest)
  found_item i ts h = (cc, cc)

  read_item :
      (cs ts : Tokens) (i : Item syn.SynExpr) {item : Item syn.SynExpr} {rest : Tokens}
      → ◌≡◌ {A = Option (Item syn.SynExpr × Tokens)} (some (i, ts)) (some (item, rest))
      → PieceOf cs i
      → ReadsItem (append cs ts) item rest
  read_item cs ts i h r =
      let (is, left) = found_item i ts h in
      (cs, ap (append cs) left, subst (λ (j : Item syn.SynExpr). PieceOf cs j) is r)

  with_ident-ReadsItem :
      (t : Token) (f : Text → Item syn.SynExpr) (ts : Tokens) {item : Item syn.SynExpr}
      {rest : Tokens}
      → ((name : Text) → PieceOf (cons t (cons (Token.ident name) nil)) (f name))
      → with_ident f ts ≡ some (item, rest)
      → ReadsItem (cons t ts) item rest
  unfolding append
  with_ident-ReadsItem t f (cons (Token.ident name) ts) shape h =
      read_item (cons t (cons (Token.ident name) nil)) ts (f name) h (shape name)
  with_ident-ReadsItem t f nil shape h = absurd (cc)
  with_ident-ReadsItem t f (cons u ts) shape h = absurd (cc)

  referenced-ReadsItem :
      (ts : Tokens) (o : Option (syn.SynExpr × Tokens)) {item : Item syn.SynExpr} {rest : Tokens}
      → syn.parse_expr ts ≡ o
      → referenced syn o ≡ some (item, rest)
      → ReadsItem (cons amp ts) item rest
  unfolding append
  referenced-ReadsItem ts none at h = absurd (cc)
  referenced-ReadsItem ts (some (x, left)) at h = rw (d.parse_expr-eq-some ts at) (
      read_item (cons amp (syn.to_tokens x)) left (Item.reference x) h
        (elim (d.to_tokens-reference x) [
          | inl plain ↦ rw plain (Piece.reference (inl refl))
          | inr added ↦ rw added (Piece.reference (inr refl))
        ]))

  called-ReadsItem :
      (content ts : Tokens) (o : Option (List syn.SynExpr)) {item : Item syn.SynExpr}
      {rest : Tokens}
      → syn.parse_args content ≡ o
      → called syn o ts ≡ some (item, rest)
      → ReadsItem (cons (paren content) ts) item rest
  unfolding append
  called-ReadsItem content ts none at h = absurd (cc)
  called-ReadsItem content ts (some args) at h =
      read_item (cons (paren content) nil) ts (Item.function_call args) h
        (Piece.call (d.parse_args-eq-some content at))

  pub next_item-ReadsItem :
      (ts : Tokens) {item : Item syn.SynExpr} {rest : Tokens}
      → next_item syn ts ≡ some (item, rest)
      → ReadsItem ts item rest
  unfolding next_item append
  next_item-ReadsItem nil h = absurd (cc)
  next_item-ReadsItem (cons (Token.op o) ts) h =
      read_item (cons (Token.op o) nil) ts (Item.op o) h (Piece.op o)
  next_item-ReadsItem (cons dollar ts) h = with_ident-ReadsItem dollar Item.field ts Piece.field h
  next_item-ReadsItem (cons amp ts) h = referenced-ReadsItem ts (syn.parse_expr ts) refl h
  next_item-ReadsItem (cons dot ts) h =
      with_ident-ReadsItem dot Item.member_access ts Piece.member_access h
  next_item-ReadsItem (cons colons ts) h =
      with_ident-ReadsItem colons Item.path_access ts Piece.path_access h
  next_item-ReadsItem (cons (paren content) ts) h =
      called-ReadsItem content ts (syn.parse_args content) refl h
  next_item-ReadsItem (cons (Token.literal l) ts) h =
      read_item (cons (Token.literal l) nil) ts (Item.literal l) h (Piece.literal l)
  next_item-ReadsItem (cons (Token.ident name) ts) h =
      read_item (cons (Token.ident name) nil) ts (Item.ident name) h (Piece.ident name)
  next_item-ReadsItem (cons comma ts) h = absurd (cc)
  next_item-ReadsItem (cons (other t) ts) h = absurd (cc)

  -- The tokens in front of the rest are those of the expression, less grouping parentheses.
  abbrev pub ReadsExpr : Tokens → Expr syn.SynExpr → Tokens → Type 0
  ReadsExpr ts e rest =
      (cs us : Tokens) × (ts ≡ append cs rest)
      × Reads awaits behind cs us
      × (as_tokens_impl syn full e ≡ some us)

  pub found_operand :
      (e0 : Expr syn.SynExpr) (ts : Tokens) {e : Expr syn.SynExpr} {rest : Tokens}
      → ◌≡◌ {A = Parsed (Expr syn.SynExpr × Tokens)} (ok (e0, ts)) (ok (e, rest))
      → (e0 ≡ e) × (ts ≡ rest)
  found_operand e0 ts h = (cc, cc)

  read_operand :
      (ts : Tokens) (e0 : Expr syn.SynExpr) (item : Item syn.SynExpr) (left : Tokens)
      {e : Expr syn.SynExpr} {rest : Tokens}
      → next_item syn ts ≡ some (item, left)
      → ◌≡◌ {A = Parsed (Expr syn.SynExpr × Tokens)} (ok (e0, left)) (ok (e, rest))
      → as_tokens_impl syn full e0 ≡ some (item_tokens item)
      → item_from item ≡ awaits
      → item_to item ≡ behind
      → ReadsExpr ts e rest
  read_operand ts e0 item left at h shown from to =
      let (is, same_rest) = found_operand e0 left h in
      let (cs, split, read) = next_item-ReadsItem ts at in
      (
        cs,
        item_tokens item,
        split ∙ ap (append cs) same_rest,
        subst (λ p. Reads p behind cs (item_tokens item)) from
            (subst (λ p. Reads (item_from item) p cs (item_tokens item)) to (Reads-of_Piece read)),
        subst (λ (x : Expr syn.SynExpr). as_tokens_impl syn full x ≡ some (item_tokens item)) is
            shown,
      )

  pub operand-ReadsExpr :
      (ts : Tokens) (o : Option (Item syn.SynExpr × Tokens)) {e : Expr syn.SynExpr} {rest : Tokens}
      → next_item syn ts ≡ o
      → operand syn o ≡ ok (e, rest)
      → ReadsExpr ts e rest
  unfolding operand as_tokens_impl
  operand-ReadsExpr ts none at h = absurd (cc)
  operand-ReadsExpr ts (some (Item.field name, left)) at h =
      read_operand ts (field_ref name) (Item.field name) left at h refl refl refl
  operand-ReadsExpr ts (some (Item.reference x, left)) at h =
      read_operand ts (value (syn.reference x)) (Item.reference x) left at h refl refl refl
  operand-ReadsExpr ts (some (Item.ident name, left)) at h =
      read_operand ts (value (syn.path name)) (Item.ident name) left at h
        (ap some (d.to_tokens-path name)) refl refl
  operand-ReadsExpr ts (some (Item.literal l, left)) at h =
      read_operand ts (value (syn.lit l)) (Item.literal l) left at h (ap some (d.to_tokens-lit l))
        refl refl
  operand-ReadsExpr ts (some (Item.member_access _, left)) at h = absurd (cc)
  operand-ReadsExpr ts (some (Item.path_access _, left)) at h = absurd (cc)
  operand-ReadsExpr ts (some (Item.function_call _, left)) at h = absurd (cc)
  operand-ReadsExpr ts (some (Item.op _, left)) at h = absurd (cc)
