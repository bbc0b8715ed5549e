-- ===== src/Matcher/Filling.antt =====
-- Reversing fills the parts of a matcher with the values of the map.
use flareon.Base.{
  ◌≡◌, refl, ◌∙◌, ap, subst, List, [], ◌∷◌, ◌++◌, map, some, Text, Text-Eq, lookup, All,
  Option-cases, inl, inr, arith,
}
use mathlib.Core.List.{append_assoc, append-nil}
use flareon.Matcher.{PathPart, literal, param, PathParam, ReverseParamMap, ok, reverse_parts}
use flareon.Matcher.Capture.{fill, names}

-- The map has each parameter's value under its name.
abbrev pub Given : ReverseParamMap → List PathParam → Type 0
Given params ps = All (λ p. lookup p.name params ≡ some p.value) ps

pub record IsFilled (params : ReverseParamMap) (parts : List PathPart) (t : Text) : Type 0 where
  pub chosen : List PathParam
  pub named : map (λ p. p.name) chosen ≡ names parts
  pub given : Given params chosen
  pub filled : fill parts chosen ≡ some t

pub reverse_parts-IsFilled :
    (params : ReverseParamMap) (parts : List PathPart) (acc path : Text)
    → reverse_parts params parts acc ≡ ok path
    → (t : Text) × (path ≡ acc ++ t) × IsFilled params parts t
unfolding reverse_parts
reverse_parts-IsFilled params [] acc path e = (
  [],
  ground (arith, append-nil acc),
  record { chosen = []; named = refl; given = tt; filled = refl },
)
reverse_parts-IsFilled params (literal s ∷ parts) acc path e =
    let (t, eq, f) = reverse_parts-IsFilled params parts (acc ++ s) path e in
    (
      s ++ t,
      eq ∙ append_assoc acc s t,
      record { chosen = f.chosen; named = f.named; given = f.given; filled = rw (f.filled) },
    )
reverse_parts-IsFilled params (param name ∷ parts) acc path e =
    elim (Option-cases (lookup name params)) [
      | inl missing ↦ absurd (ground arith)
      | inr (value, found) ↦
          let (t, eq, f) = reverse_parts-IsFilled params parts (acc ++ value) path (ground arith) in
          (
            value ++ t,
            eq ∙ append_assoc acc value t,
            record {
              chosen = record { name = name; value = value } ∷ f.chosen;
              named = ap (λ ns. name ∷ ns) f.named;
              given = (found, f.given);
              filled = rw (f.filled);
            },
          )
    ]

pub reverse_parts_of_fill :
    (params : ReverseParamMap) (parts : List PathPart) (ps : List PathParam) (acc t : Text)
    → map (λ p. p.name) ps ≡ names parts
    → Given params ps
    → fill parts ps ≡ some t
    → reverse_parts params parts acc ≡ ok (acc ++ t)
unfolding reverse_parts
reverse_parts_of_fill params [] [] acc t named given e = ground (arith, append-nil acc)
reverse_parts_of_fill params [] (p ∷ ps) acc t named given e = cc
reverse_parts_of_fill params (literal s ∷ parts) ps acc t named given e =
    elim (Option-cases (fill parts ps)) [
      | inl missing ↦ absurd (ground arith)
      | inr (t', found) ↦
          reverse_parts_of_fill params parts ps (acc ++ s) t' named given found
          ∙ ap ok (append_assoc acc s t')
          ∙ ap (λ u. ok (acc ++ u)) (ground arith)
    ]
reverse_parts_of_fill params (param name ∷ parts) [] acc t named given e = cc
reverse_parts_of_fill params (param name ∷ parts) (p ∷ ps) acc t named given e =
    elim (Option-cases (fill parts ps)) [
      | inl missing ↦ absurd (ground arith)
      | inr (t', found) ↦
          let same : p.name ≡ name = cc in
          rw (subst (λ k. lookup k params ≡ some p.value) same given.0, reverse_parts)
            (reverse_parts_of_fill params parts ps (acc ++ p.value) t' (cc) given.1 found
              ∙ ap ok (append_assoc acc p.value t')
              ∙ ap (λ u. ok (acc ++ u)) (ground arith))
    ]
