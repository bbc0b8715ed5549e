-- ===== src/Matcher/Capture.antt =====
-- What `capture` finds, and that it undoes `reverse_path`.
use flareon.Base.{
  suc, ◌≡◌, ◌≢◌, refl, sym, ◌∙◌, ap, List, [], ◌∷◌, ◌++◌, map, Option, none, some, true, length,
  drop, Text, All, Option-cases, inl, inr, arith,
}
use mathlib.Core.List.{append_assoc}
use flareon.Matcher.{
  PathPart, literal, param, PathMatcher, PathParam, CaptureResult, captured, starts_with,
  until_slash, capture_parts, capture, ReverseParamMap, param_len,
}

abbrev pub NoSlash : Text → Type 0
NoSlash s = All (λ c. c ≢ b'/') s

-- A value that a parameter can take.
abbrev pub IsValue : Text → Type 0
IsValue s = (s ≢ []) × NoSlash s

-- A text at whose start a parameter's value ends.
abbrev pub Stops : Text → Type 0
Stops [] = Unit
Stops (c ∷ s) = c ≡ b'/'

until_slash-NoSlash : (s : Text) → NoSlash (until_slash s)
unfolding until_slash
until_slash-NoSlash [] = tt
until_slash-NoSlash (c ∷ s) = ground (arith, until_slash-NoSlash s)

until_slash-append-drop : (s : Text) → until_slash s ++ drop (length (until_slash s)) s ≡ s
unfolding until_slash
until_slash-append-drop [] = refl
until_slash-append-drop (c ∷ s) = ground (arith, until_slash-append-drop s)

pub until_slash-Stops : (s : Text) → Stops (drop (length (until_slash s)) s)
unfolding until_slash
until_slash-Stops [] = tt
until_slash-Stops (c ∷ s) = ground (arith, until_slash-Stops s)

pub until_slash-append : (v rest : Text) → NoSlash v → Stops rest → until_slash (v ++ rest) ≡ v
unfolding until_slash
until_slash-append [] [] _ _ = refl
until_slash-append [] (c ∷ rest) _ h = ground arith
until_slash-append (c ∷ v) rest (ne, h) k = ground (arith, until_slash-append v rest h k)

pub drop-length-append : (s t : Text) → drop (length s) (s ++ t) ≡ t
drop-length-append [] t = refl
drop-length-append (c ∷ s) t = drop-length-append s t

pub starts_with-append : (s t : Text) → starts_with (s ++ t) s ≡ true
unfolding starts_with
starts_with-append [] [] = refl
starts_with-append [] (d ∷ t) = refl
starts_with-append (c ∷ s) t = ground (arith, starts_with-append s t)

append-drop_of_starts_with : (s t : Text) → starts_with s t ≡ true → t ++ drop (length t) s ≡ s
unfolding starts_with
append-drop_of_starts_with s [] h = refl
append-drop_of_starts_with [] (d ∷ t) h = cc
append-drop_of_starts_with (c ∷ s) (d ∷ t) h = ground (arith, append-drop_of_starts_with s t)

-- The path that parts make with the values of a list of parameters, one for each parameter in turn.
abbrev pub fill : List PathPart → List PathParam → Option Text
fill [] [] = some []
fill [] (_ ∷ _) = none
fill (literal s ∷ parts) ps = elim (fill parts ps) [ none ↦ none | some t ↦ some (s ++ t) ]
fill (param name ∷ parts) [] = none
fill (param name ∷ parts) (p ∷ ps) = elim (fill parts ps) [
  | none ↦ none
  | some t ↦ some (p.value ++ t)
]

abbrev pub names : List PathPart → List Text
names [] = []
names (literal _ ∷ parts) = names parts
names (param name ∷ parts) = name ∷ names parts

abbrev pub pairs : List PathParam → ReverseParamMap
pairs [] = []
pairs (p ∷ ps) = (p.name, p.value) ∷ pairs ps

-- The parameters have the matcher's names in its order and values that are not empty and hold no
-- `/`; filled in, they give the path up to the remaining path.
pub record IsCapture (parts : List PathPart) (path : Text) (r : CaptureResult) : Type 0 where
  pub named : map (λ p. p.name) r.params ≡ names parts
  pub values : All (λ p. IsValue p.value) r.params
  pub consumed : Text
  pub filled : fill parts r.params ≡ some consumed
  pub split : consumed ++ r.remaining_path ≡ path

-- A parameter was captured: its value, and the capture behind it.
capture_parts-param :
    (name : Text) (parts : List PathPart) (path : Text) (r : CaptureResult)
    → capture_parts (param name ∷ parts) path ≡ some r
    → (rest : CaptureResult) × (capture_parts parts (drop (length (until_slash path)) path)
        ≡ some rest)
      × (captured (record { name = name; value = until_slash path }) rest ≡ r)
      × (until_slash path ≢ [])
unfolding capture_parts
capture_parts-param name parts path r e =
    elim (Option-cases (capture_parts parts (drop (length (until_slash path)) path))) [
      | inl missed ↦ absurd (ground arith)
      | inr (rest, found) ↦ (rest, found, ground arith, λ empty. ground arith)
    ]

pub capture_parts-IsCapture :
    (parts : List PathPart) (path : Text) (r : CaptureResult)
    → capture_parts parts path ≡ some r
    → IsCapture parts path r
unfolding capture_parts
capture_parts-IsCapture [] path r e = record {
  named = ground arith;
  values = ground arith;
  consumed = [];
  filled = ground arith;
  split = ground arith;
}
capture_parts-IsCapture (literal s ∷ parts) path r e =
    let starts : starts_with path s ≡ true = ground arith in
    let c = capture_parts-IsCapture parts (drop (length s) path) r (ground arith) in
    record {
      named = c.named;
      values = c.values;
      consumed = s ++ c.consumed;
      filled = rw (c.filled);
      split =
          append_assoc s c.consumed r.remaining_path
          ∙ ap (λ t. s ++ t) c.split
          ∙ append-drop_of_starts_with path s starts;
    }
capture_parts-IsCapture (param name ∷ parts) path r e =
    let (rest, found, is_rest, nonempty) = capture_parts-param name parts path r e in
    let value = until_slash path in
    let c = capture_parts-IsCapture parts (drop (length value) path) rest found in
    record {
      named = rw (sym is_rest) (ap (λ ns. name ∷ ns) c.named);
      values = rw (sym is_rest) ((nonempty, until_slash-NoSlash path), c.values);
      consumed = value ++ c.consumed;
      filled = rw (sym is_rest) (rw (c.filled));
      split = rw (sym is_rest) (
          append_assoc value c.consumed rest.remaining_path
          ∙ ap (λ t. value ++ t) c.split
          ∙ until_slash-append-drop path);
    }

-- Whatever `capture` returns reads the path from its start: see `IsCapture`.
pub capture-IsCapture :
    (m : PathMatcher) (path : Text) (r : CaptureResult)
    → capture m path ≡ some r
    → IsCapture m.parts path r
unfolding capture
capture-IsCapture m path r e = capture_parts-IsCapture m.parts path r e

-- A capture has as many parameters as `param_len` counts.
pub length-params :
    (m : PathMatcher) (path : Text) (r : CaptureResult)
    → capture m path ≡ some r
    → length r.params ≡ param_len m.parts
unfolding param_len
length-params m path r e =
    let c = capture-IsCapture m path r e in
    length-map-name r.params ∙ ap length c.named ∙ length-names m.parts
  where
    length-map-name : (ps : List PathParam) → length ps ≡ length (map (λ p. p.name) ps)
    length-map-name [] = refl
    length-map-name (p ∷ ps) = ap suc (length-map-name ps)

    length-names : (parts : List PathPart) → length (names parts) ≡ param_len parts
    length-names [] = refl
    length-names (literal s ∷ parts) = length-names parts
    length-names (param n ∷ parts) = ap suc (length-names parts)
