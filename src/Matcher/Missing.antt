-- ===== src/Matcher/Missing.antt =====
-- When `reverse_path` reports a missing parameter, and which.
use flareon.Base.{
  ◌≡◌, ◌≢◌, refl, ap, List, [], ◌∷◌, ◌++◌, none, some, Text, Text-Eq, lookup, All, Option-cases,
  inl, inr,
}
use flareon.Matcher.{
  PathPart, literal, param, PathMatcher, ReverseParamMap, Reversed, ok, err, missing_param,
  reverse_parts, reverse_path,
}
use flareon.Matcher.Capture.{names}

-- What the result of `reverse_path` says of the map: all names have values, or the first one
-- that has none is reported.
abbrev pub Explains : ReverseParamMap → List PathPart → Reversed → Type 0
Explains params parts (ok path) = All (λ n. lookup n params ≢ none) (names parts)
Explains params parts (err (missing_param n)) =
    (before : List Text) × (after : List Text) × (names parts ≡ before ++ n ∷ after)
    × All (λ k. lookup k params ≢ none) before
    × (lookup n params ≡ none)

Explains-param :
    (params : ReverseParamMap) (name value : Text) (parts : List PathPart) (r : Reversed)
    → lookup name params ≡ some value
    → Explains params parts r
    → Explains params (param name ∷ parts) r
Explains-param params name value parts (ok path) found h = ((λ e. cc), h)
Explains-param params name value parts (err (missing_param n)) found
      (before, after, eq, given, missing) =
    (name ∷ before, after, ap (λ ns. name ∷ ns) eq, ((λ e. cc), given), missing)

reverse_parts-Explains :
    (params : ReverseParamMap) (parts : List PathPart) (acc : Text)
    → Explains params parts (reverse_parts params parts acc)
unfolding reverse_parts
reverse_parts-Explains params [] acc = tt
reverse_parts-Explains params (literal s ∷ parts) acc =
    Explains-literal (reverse_parts params parts (acc ++ s))
      (reverse_parts-Explains params parts (acc ++ s))
  where
    Explains-literal :
        (r : Reversed) → Explains params parts r → Explains params (literal s ∷ parts) r
    Explains-literal (ok path) h = h
    Explains-literal (err (missing_param n)) h = h
reverse_parts-Explains params (param name ∷ parts) acc = elim (Option-cases (lookup name params)) [
  | inl missing ↦ rw (missing, reverse_parts) ([], names parts, refl, tt, missing)
  | inr (value, found) ↦
      rw (found, reverse_parts)
        (Explains-param params name value parts (reverse_parts params parts (acc ++ value)) found
          (reverse_parts-Explains params parts (acc ++ value)))
]

-- `reverse_path` returns a path only if every parameter has a value, and else the error names the
-- first parameter that has none.
pub reverse_path-Explains :
    (m : PathMatcher) (params : ReverseParamMap) → Explains params m.parts (reverse_path m params)
unfolding reverse_path
reverse_path-Explains m params = reverse_parts-Explains params m.parts []
