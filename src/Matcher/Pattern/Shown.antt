-- ===== src/Matcher/Pattern/Shown.antt =====
-- What a matcher and a state show of the pattern that was read so far.
use flareon.Base.{
  ℕ, ◌+◌, ◌<◌, ◌≡◌, refl, sym, ◌∙◌, ap, subst, List, [], ◌∷◌, ◌++◌, some, Bool, true, false, ◌==◌,
  Text, length, length-append, All-left, All-right, Bool-cases, inl, inr, arith,
}
use mathlib.Core.List.{append_assoc, append-nil}
use flareon.Matcher.{PathPart, literal, param, escape, show_part, display}
use flareon.Matcher.Unicode.{Unicode}
use flareon.Matcher.Slices.{byte_slice, IsAscii, byte_slice-append}
use flareon.Matcher.Pattern.{
  State, in_literal, in_param, Move, move, stop, is_param_name_valid, end_literal, end_param,
}

pub escape-append : (s t : Text) → escape (s ++ t) ≡ escape s ++ escape t
unfolding escape
escape-append [] t = refl
escape-append (c ∷ s) t = ground (arith, escape-append s t)

pub display-snoc :
    (parts : List PathPart) (part : PathPart)
    → display (parts ++ part ∷ []) ≡ display parts ++ show_part part
unfolding display
display-snoc [] part = append-nil (show_part part)
display-snoc (q ∷ parts) part = simp (display-snoc parts part, append_assoc)

-- The part of the pattern before the current position is what the parts and the state show.
abbrev pub Shows : Text → Bool → Text → State → List PathPart → Type 0
Shows before false rest (in_literal start) parts =
    (a : Text) × (w : Text) × (before ≡ a ++ w)
    × (start ≡ length a)
    × (display parts ++ escape w ≡ before)
Shows before false rest (in_param start) parts =
    (a : Text) × (w : Text) × (before ≡ a ++ w)
    × (start ≡ length a)
    × (display parts ++ b'{' ∷ [] ≡ a)
Shows before true rest (in_literal start) parts =
    (rest' : Text) × (rest ≡ b'}' ∷ rest')
    × (start ≡ length before + 1)
    × (display parts ≡ before ++ b'}' ∷ [])
Shows before true rest (in_param start) parts = ⊥

abbrev pub MoveShows : Text → Text → Move → Type 0
MoveShows before rest (move skip st parts) = Shows before skip rest st parts
MoveShows before rest (stop e) = Unit

pub slice_at :
    (p a w rest : Text) (start end : ℕ)
    → p ≡ (a ++ w) ++ rest
    → IsAscii p
    → start ≡ length a
    → end ≡ length (a ++ w)
    → byte_slice p start end ≡ some w
slice_at p a w rest start end split plain e f =
    let flat : p ≡ a ++ (w ++ rest) = split ∙ append_assoc a w rest in
    let plain' = subst IsAscii flat plain in
    subst (λ q. byte_slice q start end ≡ some w) (sym flat)
      (byte_slice-append a w rest start end (All-left (λ c. c < 0x80) a (w ++ rest) plain')
        (All-left (λ c. c < 0x80) w rest (All-right (λ c. c < 0x80) a (w ++ rest) plain')) e
        (omega (arith, length-append a w)))

pub length-snoc : (s : Text) (c : ℕ) → length s + 1 ≡ length (s ++ c ∷ [])
length-snoc s c = omega (arith, length-append s (c ∷ []))

module _ (u : Unicode) (before rest : Text) (parts : List PathPart) where
  pub open_brace-Shows :
      (w : Text) (allowed : Bool)
      → display parts ++ escape w ≡ before
      → MoveShows (before ++ b'{' ∷ []) rest (end_literal u w allowed (length before) parts)
  unfolding end_literal escape
  open_brace-Shows [] true e = (
    before ++ b'{' ∷ [],
    [],
    sym (append-nil _),
    length-snoc before b'{',
    ap (λ t. t ++ b'{' ∷ []) (sym (append-nil (display parts)) ∙ e),
  )
  open_brace-Shows [] false e = tt
  open_brace-Shows (c ∷ w) allowed e = (
    before ++ b'{' ∷ [],
    [],
    sym (append-nil _),
    length-snoc before b'{',
    ap (λ t. t ++ b'{' ∷ []) (display-snoc parts (literal (c ∷ w)) ∙ e),
  )

  pub plain-Shows :
      (w : Text) (c : ℕ)
      → (c == b'{') ≡ false
      → (c == b'}') ≡ false
      → display parts ++ escape w ≡ before
      → display parts ++ escape (w ++ c ∷ []) ≡ before ++ c ∷ []
  unfolding escape
  plain-Shows w c ne ne' e =
      let one : escape (c ∷ []) ≡ c ∷ [] = ground arith in
      ap (λ t. display parts ++ t) (escape-append w (c ∷ []) ∙ ap (λ t. escape w ++ t) one)
      ∙ sym (append_assoc (display parts) (escape w) (c ∷ []))
      ∙ ap (λ t. t ++ c ∷ []) e

  pub close_brace-Shows :
      (w : Text)
      → display parts ++ escape w ≡ before
      → display (parts ++ literal (w ++ b'}' ∷ []) ∷ []) ≡ (before ++ b'}' ∷ []) ++ b'}' ∷ []
  unfolding escape
  close_brace-Shows w e =
      display-snoc parts (literal (w ++ b'}' ∷ []))
      ∙ ap (λ t. display parts ++ t) (escape-append w (b'}' ∷ []))
      ∙ sym (append_assoc (display parts) (escape w) (b'}' ∷ b'}' ∷ []))
      ∙ ap (λ t. t ++ b'}' ∷ b'}' ∷ []) e
      ∙ sym (append_assoc before (b'}' ∷ []) (b'}' ∷ []))

  pub param-Shows :
      (a w : Text)
      → before ≡ a ++ w
      → display parts ++ b'{' ∷ [] ≡ a
      → MoveShows (before ++ b'}' ∷ []) rest (end_param u w (length before) parts)
  unfolding end_param escape
  param-Shows a w e f = elim (Bool-cases (is_param_name_valid u w)) [
    | inl valid ↦
        rw (valid, end_param)
          (
            before ++ b'}' ∷ [],
            [],
            sym (append-nil _),
            length-snoc before b'}',
            append-nil _
                ∙ display-snoc parts (param w)
                ∙ sym (append_assoc (display parts) (b'{' ∷ []) (w ++ b'}' ∷ []))
                ∙ ap (λ t. t ++ (w ++ b'}' ∷ [])) f
                ∙ sym (append_assoc a w (b'}' ∷ []))
                ∙ ap (λ t. t ++ b'}' ∷ []) (sym e),
          )
    | inr bad ↦ rw (bad, end_param) tt
  ]

pub nothing_pending : (a w s : Text) → s ≡ a ++ w → length a ≡ length s → a ≡ s
nothing_pending a [] s e f = sym (e ∙ append-nil a)
nothing_pending a (c ∷ w) s e f = absurd (omega (arith, ap length e, length-append a (c ∷ w)))
