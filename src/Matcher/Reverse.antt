-- ===== src/Matcher/Reverse.antt =====
-- `reverse_path` and `capture` undo one another.
use flareon.Base.{
  ◌≡◌, ◌≢◌, refl, sym, ◌∙◌, ap, subst, List, [], ◌∷◌, ◌++◌, map, some, false, length, drop, Text,
  Text-Eq, text_eq, text_eq_iff, text_eq_refl, lookup, All, Bool-cases, Option-cases, inl, inr,
  arith,
}
use mathlib.Core.List.{append_assoc}
use flareon.Matcher.{
  PathPart, literal, param, PathMatcher, PathParam, CaptureResult, captured, is_empty,
  capture_parts, capture, ReverseParamMap, ok, reverse_path,
}
use flareon.Matcher.Capture.{
  IsValue, Stops, until_slash-append, starts_with-append, drop-length-append, fill, names, pairs,
  capture-IsCapture,
}
use flareon.Matcher.Filling.{Given, reverse_parts-IsFilled, reverse_parts_of_fill}

abbrev OpensWithSlash : List PathPart → Type 0
OpensWithSlash [] = Unit
OpensWithSlash (literal [] ∷ parts) = ⊥
OpensWithSlash (literal (c ∷ s) ∷ parts) = c ≡ b'/'
OpensWithSlash (param name ∷ parts) = ⊥

-- Each parameter stands at the end or in front of a literal that begins with `/`.
abbrev pub IsDelimited : List PathPart → Type 0
IsDelimited [] = Unit
IsDelimited (literal s ∷ parts) = IsDelimited parts
IsDelimited (param name ∷ parts) = OpensWithSlash parts × IsDelimited parts

fill-Stops :
    (parts : List PathPart) (ps : List PathParam) (t rest : Text)
    → OpensWithSlash parts
    → Stops rest
    → fill parts ps ≡ some t
    → Stops (t ++ rest)
fill-Stops [] [] t rest _ stops e =
    let nothing : [] ≡ t = ground arith in subst (λ u. Stops (u ++ rest)) nothing stops
fill-Stops [] (p ∷ ps) t rest _ stops e = cc
fill-Stops (literal [] ∷ parts) ps t rest opens stops e = absurd opens
fill-Stops (literal (c ∷ s) ∷ parts) ps t rest opens stops e = elim (Option-cases (fill parts ps)) [
  | inl missing ↦ absurd (ground arith)
  | inr (t', found) ↦
      let eq_t : (c ∷ s) ++ t' ≡ t = ground arith in subst (λ u. Stops (u ++ rest)) eq_t opens
]
fill-Stops (param name ∷ parts) ps t rest opens stops e = absurd opens

capture-literal :
    (s u : Text) (parts : List PathPart) (r : CaptureResult)
    → capture_parts parts u ≡ some r
    → capture_parts (literal s ∷ parts) (s ++ u) ≡ some r
unfolding capture_parts
capture-literal s u parts r e = rw (starts_with-append s u, drop-length-append s u) e

is_empty_of_ne : (v : Text) → v ≢ [] → is_empty v ≡ false
is_empty_of_ne [] ne = absurd (ne refl)
is_empty_of_ne (c ∷ v) ne = refl

capture-param :
    (name v u : Text) (parts : List PathPart) (r : CaptureResult)
    → IsValue v
    → Stops u
    → capture_parts parts u ≡ some r
    → capture_parts (param name ∷ parts) (v ++ u)
      ≡ some (captured (record { name = name; value = v }) r)
unfolding capture_parts
capture-param name v u parts r (ne, plain) stops e = ground (
  arith,
  until_slash-append v u plain stops,
  drop-length-append v u,
  is_empty_of_ne v ne,
  ap (λ k. capture_parts parts (drop (length k) (v ++ u))) (until_slash-append v u plain stops),
)

capture_parts_of_fill :
    (parts : List PathPart) (ps : List PathParam) (t rest : Text)
    → IsDelimited parts
    → Stops rest
    → All (λ p. IsValue p.value) ps
    → map (λ p. p.name) ps ≡ names parts
    → fill parts ps ≡ some t
    → capture_parts parts (t ++ rest) ≡ some (record { params = ps; remaining_path = rest })
unfolding capture_parts
capture_parts_of_fill [] [] t rest d stops vs named e = ground arith
capture_parts_of_fill [] (p ∷ ps) t rest d stops vs named e = cc
capture_parts_of_fill (literal s ∷ parts) ps t rest d stops vs named e =
    elim (Option-cases (fill parts ps)) [
      | inl missing ↦ absurd (ground arith)
      | inr (t', found) ↦
          let ih = capture_parts_of_fill parts ps t' rest d stops vs named found in
          let whole : s ++ t' ≡ t = ground arith in
          subst
            (λ u.
              capture_parts (literal s ∷ parts) u
              ≡ some (record { params = ps; remaining_path = rest }))
            (sym (append_assoc s t' rest) ∙ ap (λ u. u ++ rest) whole)
            (capture-literal s (t' ++ rest) parts _ ih)
    ]
capture_parts_of_fill (param name ∷ parts) [] t rest d stops vs named e = cc
capture_parts_of_fill (param name ∷ parts) (p ∷ ps) t rest d stops vs named e =
    elim (Option-cases (fill parts ps)) [
      | inl missing ↦ absurd (ground arith)
      | inr (t', found) ↦
          let ih = capture_parts_of_fill parts ps t' rest d.1 stops vs.1 (cc) found in
          let whole : p.value ++ t' ≡ t = ground arith in
          let same : p.name ≡ name = cc in
          subst
            (λ u.
              capture_parts (param name ∷ parts) u
              ≡ some (record { params = p ∷ ps; remaining_path = rest }))
            (sym (append_assoc p.value t' rest) ∙ ap (λ u. u ++ rest) whole)
            (capture-param name p.value (t' ++ rest) parts _ vs.0
                (fill-Stops parts ps t' rest d.0 stops found) ih
              ∙ ap
                  (λ k. some (
                    captured (record { name = k; value = p.value })
                      (record { params = ps; remaining_path = rest })))
                  (sym same))
    ]

All-Given :
    (P : Text → Type 0) (params : ReverseParamMap) (ps : List PathParam)
    → All (λ kv. P kv.1) params
    → Given params ps
    → All (λ p. P p.value) ps
unfolding lookup
All-Given P params [] h g = tt
All-Given P params (p ∷ ps) h g = (here p.name params h g.0, All-Given P params ps h g.1)
  where
    here :
        (k : Text) (m : ReverseParamMap) {v : Text}
        → All (λ kv. P kv.1) m
        → lookup k m ≡ some v
        → P v
    here k [] h e = cc
    here k ((j, w) ∷ m) h e = elim (Bool-cases (text_eq j k)) [
      | inl same ↦ subst P (ground arith) h.0
      | inr other ↦ here k m h.1 (ground arith)
    ]

-- In a matcher whose parameters are delimited, with a map whose values are not empty and hold no
-- `/`, `capture` reads a path that `reverse_path` made: it returns the map's values under the
-- matcher's names, and what follows the path where that is nothing or begins with `/`.
pub capture-reverse_path :
    (m : PathMatcher) (params : ReverseParamMap) (path rest : Text)
    → IsDelimited m.parts
    → All (λ kv. IsValue kv.1) params
    → Stops rest
    → reverse_path m params ≡ ok path
    → (r : CaptureResult) × (capture m (path ++ rest) ≡ some r)
      × (r.remaining_path ≡ rest)
      × (map (λ p. p.name) r.params ≡ names m.parts)
      × Given params r.params
unfolding capture reverse_path
capture-reverse_path m params path rest d values stops e =
    let (t, eq, f) = reverse_parts-IsFilled params m.parts [] path e in
    (
      record { params = f.chosen; remaining_path = rest },
      subst
          (λ u.
            capture_parts m.parts (u ++ rest)
            ≡ some (record { params = f.chosen; remaining_path = rest }))
          (sym eq)
          (capture_parts_of_fill m.parts f.chosen t rest d stops
            (All-Given IsValue params f.chosen values f.given) f.named f.filled),
      refl,
      f.named,
      f.given,
    )

abbrev pub DistinctNames : List Text → Type 0
DistinctNames [] = Unit
DistinctNames (n ∷ ns) = All (λ k. k ≢ n) ns × DistinctNames ns

Given-pairs : (ps : List PathParam) → DistinctNames (map (λ p. p.name) ps) → Given (pairs ps) ps
unfolding lookup
Given-pairs [] d = tt
Given-pairs (p ∷ ps) d =
    (ground (arith, text_eq_refl p.name), under p ps (pairs ps) d.0 (Given-pairs ps d.1))
  where
    under :
        (p : PathParam) (qs : List PathParam) (m : ReverseParamMap)
        → All (λ k. k ≢ p.name) (map (λ q. q.name) qs)
        → Given m qs
        → Given ((p.name, p.value) ∷ m) qs
    under p [] m ne g = tt
    under p (q ∷ qs) m ne g = (ground (arith, text_eq_iff p.name q.name), under p qs m ne.1 g.1)

-- Where a matcher's names are distinct, reversing with the parameters captured from a path gives
-- that path up to the remaining path.
pub reverse_path-capture :
    (m : PathMatcher) (path : Text) (r : CaptureResult)
    → DistinctNames (names m.parts)
    → capture m path ≡ some r
    → (consumed : Text) × (reverse_path m (pairs r.params) ≡ ok consumed)
      × (consumed ++ r.remaining_path ≡ path)
unfolding reverse_path
reverse_path-capture m path r d e =
    let c = capture-IsCapture m path r e in
    (
      c.consumed,
      reverse_parts_of_fill (pairs r.params) m.parts r.params [] c.consumed c.named
          (Given-pairs r.params (subst DistinctNames (sym c.named) d)) c.filled,
      c.split,
    )
