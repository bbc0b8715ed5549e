-- ===== src/Matcher/Pattern/Printing.antt =====
-- A pattern and the matcher that `new` reads from it: `Display` gives the pattern back.
use flareon.Base.{
  ℕ, ◌+◌, ◌≡◌, refl, sym, ◌∙◌, ap, subst, List, [], ◌∷◌, ◌++◌, reverse, Bool, true, false, ◌==◌,
  ==_iff, Text, length, All, All-left, All-right, All-reverse, Bool-cases, inl, inr, arith,
}
use mathlib.Core.List.{append_assoc, append-nil, reverse-reverse}
use flareon.Matcher.{PathPart, literal, escape, display}
use flareon.Matcher.Unicode.{Unicode, trim_start, trim}
use flareon.Matcher.Slices.{IsAscii}
use flareon.Matcher.Pattern.{
  State, in_literal, in_param, Move, move, stop, Parsed, ok, err, end_literal, next_is, settle,
  advance, finish, parse, new,
}
use flareon.Matcher.Pattern.Shown.{
  display-snoc, slice_at, length-snoc, nothing_pending, open_brace-Shows, plain-Shows,
  close_brace-Shows, param-Shows, Shows, MoveShows,
}

module _ (u : Unicode) where
  abbrev pub NoSpace : Text → Type 0
  NoSpace s = All (λ c. u.is_whitespace c ≡ false) s

  trim_start_of_NoSpace : (s : Text) → NoSpace s → trim_start u s ≡ s
  unfolding trim_start
  trim_start_of_NoSpace [] h = refl
  trim_start_of_NoSpace (c ∷ s) (h, hs) = rw h

  trim_of_NoSpace : (s : Text) → NoSpace s → trim u s ≡ s
  unfolding trim
  trim_of_NoSpace s h =
      rw
        (
          trim_start_of_NoSpace s h,
          trim_start_of_NoSpace (reverse s) (All-reverse (λ c. u.is_whitespace c ≡ false) s h),
        )
        (reverse-reverse s)

  module _ (p before rest : Text) (plain : IsAscii p) (start : ℕ) (parts : List PathPart) where
    literal_open-Shows :
        p ≡ before ++ b'{' ∷ rest
        → Shows before false (b'{' ∷ rest) (in_literal start) parts
        → MoveShows
            (before ++ b'{' ∷ [])
            rest
            (advance u p b'{' rest (length before) (in_literal start) parts)
    unfolding advance
    literal_open-Shows split (a, w, eq, at, shown) =
        rw
          (slice_at p a w (b'{' ∷ rest) start (length before)
            (split ∙ ap (λ t. t ++ b'{' ∷ rest) eq) plain at (ap length eq))
          (open_brace-Shows u before rest parts w (length before == 0) shown)

    literal_close-Shows :
        p ≡ before ++ b'}' ∷ rest
        → Shows before false (b'}' ∷ rest) (in_literal start) parts
        → (r : Bool) → next_is u b'}' rest ≡ r
        → MoveShows
            (before ++ b'}' ∷ [])
            rest
            (advance u p b'}' rest (length before) (in_literal start) parts)
    unfolding advance next_is
    literal_close-Shows split (a, w, eq, at, shown) false e = rw (e, advance) tt
    literal_close-Shows split (a, w, eq, at, shown) true e =
        rw
          (
            e,
            advance,
            slice_at p a (w ++ b'}' ∷ []) rest start (length before + 1)
                (split
                  ∙ ap (λ t. t ++ b'}' ∷ rest) eq
                  ∙ sym (append_assoc (a ++ w) (b'}' ∷ []) rest)
                  ∙ ap (λ t. t ++ rest) (append_assoc a w (b'}' ∷ [])))
                plain at
                (length-snoc before b'}'
                  ∙ ap (λ t. length (t ++ b'}' ∷ [])) eq
                  ∙ ap length (append_assoc a w (b'}' ∷ []))),
          )
          (skips rest e)
      where
        skips :
            (r : Text)
            → next_is u b'}' r ≡ true
            → Shows
                (before ++ b'}' ∷ [])
                true
                r
                (in_literal (length before + 2))
                (parts ++ literal (w ++ b'}' ∷ []) ∷ [])
        skips [] e = cc
        skips (d ∷ r) e = (
          r,
          ap (λ k. k ∷ r) ((==_iff d b'}').0 e),
          omega (arith, length-snoc before b'}'),
          close_brace-Shows u before rest parts w shown,
        )

    param_close-Shows :
        p ≡ before ++ b'}' ∷ rest
        → NoSpace p
        → Shows before false (b'}' ∷ rest) (in_param start) parts
        → MoveShows
            (before ++ b'}' ∷ [])
            rest
            (advance u p b'}' rest (length before) (in_param start) parts)
    unfolding advance
    param_close-Shows split spaceless (a, w, eq, at, shown) =
        let whole : p ≡ (a ++ w) ++ b'}' ∷ rest = split ∙ ap (λ t. t ++ b'}' ∷ rest) eq in
        rw
          (
            slice_at p a w (b'}' ∷ rest) start (length before) whole plain at (ap length eq),
            trim_of_NoSpace w (
                All-right (λ c. u.is_whitespace c ≡ false) a w
                  (All-left (λ c. u.is_whitespace c ≡ false) (a ++ w) (b'}' ∷ rest)
                    (subst NoSpace whole spaceless))),
          )
          (param-Shows u before rest parts a w eq shown)

    param_open-Shows :
        p ≡ before ++ b'{' ∷ rest
        → Shows before false (b'{' ∷ rest) (in_param start) parts
        → MoveShows
            (before ++ b'{' ∷ [])
            rest
            (advance u p b'{' rest (length before) (in_param start) parts)
    unfolding advance escape
    param_open-Shows split (a, w, eq, at, shown) = elim (Bool-cases (start == length before)) [
      | inl escaped ↦
          rw (escaped, advance)
            (
              before,
              b'{' ∷ [],
              refl,
              refl,
              sym (append_assoc (display parts) (b'{' ∷ []) (b'{' ∷ []))
                  ∙ ap (λ t. t ++ b'{' ∷ [])
                      (shown
                        ∙ nothing_pending a w before eq
                            (sym at ∙ (==_iff start (length before)).0 escaped)),
            )
      | inr unclosed ↦ rw (unclosed, advance) tt
    ]

  abbrev Advances : Text → Text → Text → State → List PathPart → ℕ → Type 0
  Advances p before rest st parts d =
      p ≡ before ++ d ∷ rest
      → Shows before false (d ∷ rest) st parts
      → MoveShows (before ++ d ∷ []) rest (advance u p d rest (length before) st parts)

  module _ (p before : Text) (c : ℕ) (rest : Text) (split : p ≡ before ++ c ∷ rest)
      (plain : IsAscii p) (spaceless : NoSpace p) where
    advance-Shows :
        (st : State) (parts : List PathPart)
        → Shows before false (c ∷ rest) st parts
        → MoveShows (before ++ c ∷ []) rest (advance u p c rest (length before) st parts)
    unfolding advance
    advance-Shows (in_literal start) parts h = elim (Bool-cases (c == b'{')) [
      | inl opened ↦
          subst (Advances p before rest (in_literal start) parts) (sym ((==_iff c b'{').0 opened))
            (literal_open-Shows p before rest plain start parts) split h
      | inr not_opened ↦ elim (Bool-cases (c == b'}')) [
        | inl closed ↦
            subst (Advances p before rest (in_literal start) parts) (sym ((==_iff c b'}').0 closed))
              (λ s k.
                literal_close-Shows p before rest plain start parts s k (next_is u b'}' rest) refl)
              split h
        | inr not_closed ↦
            let (a, w, eq, at, shown) = h in
            rw (not_opened, not_closed, advance)
              (
                a,
                w ++ c ∷ [],
                ap (λ t. t ++ c ∷ []) eq ∙ append_assoc a w (c ∷ []),
                at,
                plain-Shows u before rest parts w c not_opened not_closed shown,
              )
      ]
    ]
    advance-Shows (in_param start) parts h = elim (Bool-cases (c == b'{')) [
      | inl opened ↦
          subst (Advances p before rest (in_param start) parts) (sym ((==_iff c b'{').0 opened))
            (param_open-Shows p before rest plain start parts) split h
      | inr not_opened ↦ elim (Bool-cases (c == b'}')) [
        | inl closed ↦
            subst (Advances p before rest (in_param start) parts) (sym ((==_iff c b'}').0 closed))
              (λ s k. param_close-Shows p before rest plain start parts s spaceless k) split h
        | inr not_closed ↦ elim (Bool-cases (c == b'/')) [
          | inl slash ↦ rw (not_opened, not_closed, slash, advance) tt
          | inr other ↦
              let (a, w, eq, at, shown) = h in
              rw (not_opened, not_closed, other, advance)
                (a, w ++ c ∷ [], ap (λ t. t ++ c ∷ []) eq ∙ append_assoc a w (c ∷ []), at, shown)
        ]
      ]
    ]

  module _ (p : Text) (plain : IsAscii p) (spaceless : NoSpace p) where
    ending-display :
        (before w : Text) (index : ℕ) (parts parts' : List PathPart)
        → p ≡ before
        → display parts ++ escape w ≡ before
        → settle (end_literal u w true index parts) ≡ ok parts'
        → display parts' ≡ p
    unfolding end_literal escape
    ending-display before [] index parts parts' split shown e =
        subst (λ q. display q ≡ p) (ground arith)
          (sym (append-nil (display parts)) ∙ shown ∙ sym split)
    ending-display before (c ∷ w) index parts parts' split shown e =
        let last : parts ++ literal (c ∷ w) ∷ [] ≡ parts' = ground arith in
        subst (λ q. display q ≡ p) last (display-snoc parts (literal (c ∷ w)) ∙ shown ∙ sym split)

    finish-display :
        (before : Text) (st : State) (parts parts' : List PathPart)
        → p ≡ before
        → Shows before false [] st parts
        → finish u p (length before) st parts ≡ ok parts'
        → display parts' ≡ p
    unfolding finish
    finish-display before (in_literal start) parts parts' split (a, w, eq, at, shown) e =
        let cut =
          slice_at p a w [] start (length before) (split ∙ eq ∙ sym (append-nil (a ++ w))) plain at
            (ap length eq) in
        ending-display before w (length before) parts parts' split shown (rw (finish, cut) at e)
    finish-display before (in_param start) parts parts' split h e = cc

    parse-display :
        (skip : Bool) (before rest : Text) (st : State) (parts parts' : List PathPart)
        → p ≡ before ++ rest
        → Shows before skip rest st parts
        → parse u p skip rest (length before) st parts ≡ ok parts'
        → display parts' ≡ p
    unfolding parse escape
    parse-display true before [] (in_literal start) parts parts' split h e = cc (h.1)
    parse-display true before [] (in_param start) parts parts' split h e = absurd h
    parse-display false before [] st parts parts' split h e =
        finish-display before st parts parts' (split ∙ append-nil before) h e
    parse-display true before (c ∷ rest) (in_param start) parts parts' split h e = absurd h
    parse-display true before (c ∷ rest) (in_literal start) parts parts' split (r, is, at, shown)
          e =
        parse-display false (before ++ c ∷ []) rest (in_literal start) parts parts'
          (split ∙ sym (append_assoc before (c ∷ []) rest))
          (
            before ++ c ∷ [],
            [],
            sym (append-nil _),
            at ∙ length-snoc before c,
            let same : b'}' ≡ c = cc in append-nil _ ∙ shown ∙ ap (λ k. before ++ k ∷ []) same,
          )
          (subst (λ i. parse u p false rest i (in_literal start) parts ≡ ok parts')
            (length-snoc before c) e)
    parse-display false before (c ∷ rest) st parts parts' split h e =
        after (advance u p c rest (length before) st parts)
          (advance-Shows p before c rest split plain spaceless st parts h) e
          (λ skip st' q.
            parse-display skip (before ++ c ∷ []) rest st' q parts'
              (split ∙ sym (append_assoc before (c ∷ []) rest)))
      where
        after :
            (m : Move)
            → MoveShows (before ++ c ∷ []) rest m
            → (elim m as (λ _. Parsed) [
              | move skip st' q ↦ parse u p skip rest (length before + 1) st' q
              | stop x ↦ err x
            ])
              ≡ ok parts'
            → ((skip : Bool) (st' : State) (q : List PathPart)
                → Shows (before ++ c ∷ []) skip rest st' q
                → parse u p skip rest (length (before ++ c ∷ [])) st' q ≡ ok parts'
                → display parts' ≡ p)
            → display parts' ≡ p
        after (move skip st' q) shows f ih =
            ih skip st' q shows
              (subst (λ i. parse u p skip rest i st' q ≡ ok parts') (length-snoc before c) f)
        after (stop x) shows f ih = cc

  -- Where an ASCII pattern without spaces is read, `Display` of the matcher is the pattern.
  pub display-new :
      (p : Text) (parts : List PathPart)
      → IsAscii p
      → NoSpace p
      → new u p ≡ ok parts
      → display parts ≡ p
  unfolding new escape display
  display-new p parts plain spaceless e =
      parse-display p plain spaceless false [] p (in_literal 0) [] parts refl
        ([], [], refl, refl, refl) e
