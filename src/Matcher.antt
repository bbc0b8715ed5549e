-- ===== src/Matcher.antt =====
-- cot/src/router/path.rs: a matcher is a list of literals and parameters; it captures parameters
-- from a path, and builds a path from parameters. A text is the list of its code points: all slices
-- of `capture` are cut where a prefix or a `/` was found, so on a boundary of characters. (The
-- slices of `new` are not: see Pattern.)
pub mod Slices
pub mod Pattern
pub mod Capture
pub mod Filling
pub mod Missing
pub mod Reverse
pub mod Unicode
pub mod Tests
use flareon.Base.{
  ℕ, zero, suc, ◌+◌, List, [], ◌∷◌, ◌++◌, Option, none, some, Bool, true, false, ◌&&◌, ◌==◌,
  if◌then◌else◌, length, drop, Text, Text-Eq, lookup,
}

pub data PathPart : Type 0 where
  literal : Text → PathPart
  param : Text → PathPart

pub record PathMatcher : Type 0 where
  pub parts : List PathPart

pub record PathParam : Type 0 where
  pub name : Text
  pub value : Text

pub record CaptureResult : Type 0 where
  pub params : List PathParam
  pub remaining_path : Text

abbrev pub is_empty : Text → Bool
is_empty [] = true
is_empty (_ ∷ _) = false

unfoldable pub matches_fully : CaptureResult → Bool
matches_fully r = is_empty r.remaining_path

unfoldable pub starts_with : Text → Text → Bool
starts_with s [] = true
starts_with [] (d ∷ t) = false
starts_with (c ∷ s) (d ∷ t) = c == d && starts_with s t

-- The text before the first `/`, or all of it.
unfoldable pub until_slash : Text → Text
until_slash [] = []
until_slash (c ∷ s) = if c == b'/' then [] else c ∷ until_slash s

abbrev captured : PathParam → CaptureResult → CaptureResult
captured p r = record r { params = p ∷ r.params }

-- The loop of `capture`: a parameter is followed by those that the loop pushes after it.
unfoldable pub capture_parts : List PathPart → Text → Option CaptureResult
unfolding starts_with until_slash
capture_parts [] path = some (record { params = []; remaining_path = path })
capture_parts (literal s ∷ parts) path =
    let rest = capture_parts parts (drop (length s) path) in
    if starts_with path s then rest else none
capture_parts (param name ∷ parts) path =
    let value = until_slash path in
    let rest = capture_parts parts (drop (length value) path) in
    if is_empty value then none else elim rest [
      | none ↦ none
      | some r ↦ some (captured (record { name = name; value = value }) r)
    ]

unfoldable pub capture : PathMatcher → Text → Option CaptureResult
unfolding capture_parts
capture m path = capture_parts m.parts path

abbrev pub ReverseParamMap : Type 0
ReverseParamMap = List (Text × Text)

pub data ReverseError : Type 0 where
  missing_param : Text → ReverseError

pub data Reversed : Type 0 where
  ok : Text → Reversed
  err : ReverseError → Reversed

-- The loop of `reverse`, over the text pushed so far.
unfoldable pub reverse_parts : ReverseParamMap → List PathPart → Text → Reversed
reverse_parts params [] result = ok result
reverse_parts params (literal s ∷ parts) result = reverse_parts params parts (result ++ s)
reverse_parts params (param name ∷ parts) result = elim (lookup name params) [
  | none ↦ err (missing_param name)
  | some value ↦ reverse_parts params parts (result ++ value)
]

unfoldable pub reverse_path : PathMatcher → ReverseParamMap → Reversed
unfolding reverse_parts
reverse_path m params = reverse_parts params m.parts []

unfoldable pub param_len : List PathPart → ℕ
param_len [] = 0
param_len (literal _ ∷ parts) = param_len parts
param_len (param _ ∷ parts) = suc (param_len parts)

-- `s.replace('{', "{{").replace('}', "}}")`
unfoldable pub escape : Text → Text
escape [] = []
escape (c ∷ s) =
    if c == b'{'
    then b'{' ∷ b'{' ∷ escape s
    else if c == b'}'
    then b'}' ∷ b'}' ∷ escape s
    else c ∷ escape s

abbrev pub show_part : PathPart → Text
show_part (literal s) = escape s
show_part (param name) = b'{' ∷ name ++ b'}' ∷ []

-- `Display` of a matcher.
unfoldable pub display : List PathPart → Text
unfolding escape
display [] = []
display (part ∷ parts) = show_part part ++ display parts
