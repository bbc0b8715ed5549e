-- ===== src/Matcher/Tests.antt =====
-- The matcher on the patterns and paths of the unit tests, and instances of the theorems.
use flareon.Base.{◌≡◌, refl, [], ◌∷◌, ◌++◌, map, some, none, Text, codes, lookup, arith}
use flareon.Matcher.{
  literal, param, PathMatcher, CaptureResult, capture, ReverseParamMap, ok, reverse_path, display,
}
use flareon.Matcher.Unicode.{ascii, trim}
use flareon.Matcher.Slices.{byte_slice}
use flareon.Matcher.Pattern
use flareon.Matcher.Pattern.{new}
use flareon.Matcher.Pattern.Printing.{display-new}
use flareon.Matcher.Pattern.Rejections.{new-non_ascii, new-escaped_close}
use flareon.Matcher.Capture.{names, pairs}
use flareon.Matcher.Filling.{Given}
use flareon.Matcher.Missing.{Explains, reverse_path-Explains}
use flareon.Matcher.Reverse.{capture-reverse_path, reverse_path-capture}

abbrev pub todos : PathMatcher
todos = record {
  parts =
      literal (codes "/users/")
      ∷ param (codes "id")
      ∷ literal (codes "/todos/")
      ∷ param (codes "n")
      ∷ [];
}

abbrev result : CaptureResult
result = record {
  params =
      record { name = codes "id"; value = codes "7" }
      ∷ record { name = codes "n"; value = codes "a" }
      ∷ [];
  remaining_path = codes "/x";
}

abbrev given : ReverseParamMap
given = (codes "id", codes "7") ∷ (codes "n", codes "a") ∷ []

new-todos : new ascii (codes "/users/{id}/todos/{n}") ≡ Pattern.ok todos.parts
unfolding new byte_slice trim Pattern.is_param_name_valid
new-todos = refl

new-escapes :
    new ascii (codes "/{{{a}}}")
    ≡ Pattern.ok
        (literal (codes "/") ∷ literal (codes "{") ∷ param (codes "a") ∷ literal (codes "}") ∷ [])
unfolding new byte_slice trim Pattern.is_param_name_valid
new-escapes = refl

capture-todos : capture todos (codes "/users/7/todos/a/x") ≡ some result
unfolding capture
capture-todos = refl

capture-missed : capture todos (codes "/users//todos/a/x") ≡ none
unfolding capture
capture-missed = refl

reverse_path-todos : reverse_path todos given ≡ ok (codes "/users/7/todos/a")
unfolding reverse_path lookup
reverse_path-todos = refl

capture-reverse_path_example :
    (r : CaptureResult) × (capture todos (codes "/users/7/todos/a" ++ codes "/x") ≡ some r)
    × (r.remaining_path ≡ codes "/x")
    × (map (λ p. p.name) r.params ≡ names todos.parts)
    × Given given r.params
capture-reverse_path_example =
    capture-reverse_path todos given (codes "/users/7/todos/a") (codes "/x") (refl, (tt, tt))
      (ground arith) refl reverse_path-todos

reverse_path-capture_example :
    (consumed : Text) × (reverse_path todos (pairs result.params) ≡ ok consumed)
    × (consumed ++ result.remaining_path ≡ codes "/users/7/todos/a/x")
reverse_path-capture_example =
    reverse_path-capture todos (codes "/users/7/todos/a/x") result (ground arith) capture-todos

reverse_path-Explains_example : Explains given todos.parts (reverse_path todos given)
reverse_path-Explains_example = reverse_path-Explains todos given

display-new_example : display todos.parts ≡ codes "/users/{id}/todos/{n}"
display-new_example =
    display-new ascii (codes "/users/{id}/todos/{n}") todos.parts (omega arith) (ground arith)
      new-todos

new-non_ascii_example : new ascii (codes "é{id}") ≡ Pattern.err Pattern.slice_error
new-non_ascii_example = new-non_ascii ascii 233 (codes "id}") (omega arith)

new-escaped_close_example : new ascii (codes "}}{id}") ≡ Pattern.err Pattern.consecutive_parameters
new-escaped_close_example = new-escaped_close ascii (codes "id}")
