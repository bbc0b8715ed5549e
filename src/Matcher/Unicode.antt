-- ===== src/Matcher/Unicode.antt =====
-- The character tests of the Rust standard library that `PathMatcher::new` uses, as a parameter, with what is
-- used of them; and the trimming that is built on one of them.
use flareon.Base.{ℕ, [], ◌∷◌, reverse, Bool, ◌||◌, ◌==◌, leb, ◌&&◌, if◌then◌else◌, Text}

pub record Unicode : Type 0 where
  pub is_alphabetic : ℕ → Bool
  pub is_alphanumeric : ℕ → Bool
  pub is_whitespace : ℕ → Bool

module _ (u : Unicode) where
  unfoldable pub trim_start : Text → Text
  trim_start [] = []
  trim_start (c ∷ s) = if u.is_whitespace c then trim_start s else c ∷ s

  -- `str::trim`
  unfoldable pub trim : Text → Text
  unfolding trim_start
  trim s = reverse (trim_start (reverse (trim_start s)))

-- The tests on the ASCII characters.
abbrev pub ascii_letter : ℕ → Bool
ascii_letter c = (leb b'a' c && leb c b'z') || (leb b'A' c && leb c b'Z')

abbrev pub ascii : Unicode
ascii = record {
  is_alphabetic = ascii_letter;
  is_alphanumeric = λ c. ascii_letter c || (leb b'0' c && leb c b'9');
  is_whitespace = λ c. c == b' ' || (leb 9 c && leb c 13);
}
