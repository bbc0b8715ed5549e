-- ===== src/Matcher/Pattern.antt =====
-- `PathMatcher::new`: a loop over the characters of a pattern, with a state and byte slices of the
-- pattern at the indices of the characters. Each way to panic is an error.
mod Shown
pub mod Printing
pub mod Rejections
use flareon.Base.{
  ℕ, zero, suc, ◌+◌, ◌≡◌, List, [], ◌∷◌, ◌++◌, Option, none, some, Bool, true, false, not, ◌&&◌,
  ◌||◌, ◌==◌, if◌then◌else◌, Text,
}
use flareon.Matcher.{PathPart, literal, param, PathMatcher, is_empty}
use flareon.Matcher.Unicode.{Unicode, trim}
use flareon.Matcher.Slices.{byte_slice}

pub data PatternError : Type 0 where
  consecutive_parameters unclosed_parameter closing_brace slice_error : PatternError
  invalid_name : Text → PatternError

pub data State : Type 0 where
  in_literal in_param : (start : ℕ) → State

-- What one character does: the next state and parts, with whether the next character is skipped.
pub data Move : Type 0 where
  move : (skip : Bool) → State → List PathPart → Move
  stop : PatternError → Move

pub data Parsed : Type 0 where
  ok : List PathPart → Parsed
  err : PatternError → Parsed

abbrev pub settle : Move → Parsed
settle (move skip st parts) = ok parts
settle (stop e) = err e

module _ (u : Unicode) where
  pub all_name_chars : Text → Bool
  all_name_chars [] = true
  all_name_chars (c ∷ s) = (u.is_alphanumeric c || c == b'_') && all_name_chars s

  unfoldable pub is_param_name_valid : Text → Bool
  unfolding all_name_chars
  is_param_name_valid [] = false
  is_param_name_valid (c ∷ s) =
      if u.is_alphabetic c || c == b'_' then all_name_chars (c ∷ s) else false

  -- `{` or the end after a literal. An empty literal is passed over at the start and at the end.
  pub end_literal : Text → Bool → ℕ → List PathPart → Move
  end_literal [] allowed index parts =
      if allowed then move false (in_param (index + 1)) parts else stop consecutive_parameters
  end_literal (c ∷ s) allowed index parts =
      move false (in_param (index + 1)) (parts ++ literal (c ∷ s) ∷ [])

  pub next_is : ℕ → Text → Bool
  next_is c [] = false
  next_is c (d ∷ rest) = d == c

  pub end_param : Text → ℕ → List PathPart → Move
  end_param name index parts =
      if is_param_name_valid name
      then move false (in_literal (index + 1)) (parts ++ param name ∷ [])
      else stop (invalid_name name)

  abbrev pub sliced : Option Text → (Text → Move) → Move
  sliced none k = stop slice_error
  sliced (some s) k = k s

  -- One round of the loop at the character `c`, with the characters behind it.
  pub advance : Text → ℕ → Text → ℕ → State → List PathPart → Move
  unfolding end_literal next_is end_param trim
  advance p c rest index (in_literal start) parts =
      if c == b'{'
      then sliced (byte_slice p start index) (λ s. end_literal s (index == 0) index parts)
      else if c == b'}'
      then if next_is b'}' rest
        then sliced (byte_slice p start (index + 1))
            (λ s. move true (in_literal (index + 2)) (parts ++ literal s ∷ []))
        else stop closing_brace
      else move false (in_literal start) parts
  advance p c rest index (in_param start) parts =
      if c == b'{'
      then if start == index then move false (in_literal index) parts else stop unclosed_parameter
      else if c == b'}'
      then sliced (byte_slice p start index) (λ s. end_param (trim u s) index parts)
      else if c == b'/'
      then stop unclosed_parameter
      else move false (in_param start) parts

  -- The round after the last character.
  pub finish : Text → ℕ → State → List PathPart → Parsed
  unfolding end_literal
  finish p index (in_literal start) parts =
      settle (sliced (byte_slice p start index) (λ s. end_literal s true index parts))
  finish p index (in_param start) parts = err unclosed_parameter

  pub parse : Text → Bool → Text → ℕ → State → List PathPart → Parsed
  unfolding advance finish
  parse p skip [] index st parts = finish p index st parts
  parse p true (c ∷ rest) index st parts = parse p false rest (index + 1) st parts
  parse p false (c ∷ rest) index st parts = elim (advance p c rest index st parts) [
    | move skip st' parts' ↦ parse p skip rest (index + 1) st' parts'
    | stop e ↦ err e
  ]

  unfoldable pub new : Text → Parsed
  unfolding parse
  new p = parse p false p 0 (in_literal 0) []
