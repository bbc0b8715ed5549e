-- ===== src/Matcher/Pattern/Rejections.antt =====
-- Patterns that `new` refuses although the language of patterns has a meaning for them.
use flareon.Base.{ℕ, ◌≤◌, ◌≡◌, ◌∷◌, Text, arith}
use flareon.Matcher.Unicode.{Unicode}
use flareon.Matcher.Slices.{byte_slice}
use flareon.Matcher.Pattern.{consecutive_parameters, slice_error, err, new}

-- A character outside ASCII in front of a parameter: the slice ends inside the character.
pub new-non_ascii :
    (u : Unicode) (c : ℕ) (rest : Text) → 0x80 ≤ c → new u (c ∷ b'{' ∷ rest) ≡ err slice_error
unfolding new byte_slice
new-non_ascii u c rest h = ground arith

-- An escaped closing brace in front of a parameter or of an escaped opening brace is taken for a
-- parameter in front of a parameter.
pub new-escaped_close :
    (u : Unicode) (rest : Text) → new u (b'}' ∷ b'}' ∷ b'{' ∷ rest) ≡ err consecutive_parameters
unfolding new byte_slice
new-escaped_close u rest = ground arith
