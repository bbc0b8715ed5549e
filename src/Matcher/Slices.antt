-- ===== src/Matcher/Slices.antt =====
-- Slices of a text by byte offsets in UTF-8: `&s[start..end]` panics, here `none`, where an offset
-- is past the end or inside a character, or the end stands before the start.
use flareon.Base.{
  ℕ, ◌+◌, ◌-◌, ◌<◌, ◌≡◌, refl, [], ◌∷◌, ◌++◌, Option, none, some, ◌==◌, ltb, leb, if◌then◌else◌,
  length, Text, All, arith,
}

unfoldable pub utf8_len : ℕ → ℕ
utf8_len c = if ltb c 0x80 then 1 else if ltb c 0x800 then 2 else if ltb c 0x10000 then 3 else 4

-- The text behind the first `n` bytes.
unfoldable pub byte_drop : ℕ → Text → Option Text
unfolding utf8_len
byte_drop n [] = if n == 0 then some [] else none
byte_drop n (c ∷ s) =
    let rest = byte_drop (n - utf8_len c) s in
    if n == 0 then some (c ∷ s) else if leb (utf8_len c) n then rest else none

abbrev cons? : ℕ → Option Text → Option Text
cons? c none = none
cons? c (some s) = some (c ∷ s)

-- The first `n` bytes.
unfoldable pub byte_take : ℕ → Text → Option Text
unfolding utf8_len
byte_take n [] = if n == 0 then some [] else none
byte_take n (c ∷ s) =
    let rest = byte_take (n - utf8_len c) s in
    if n == 0 then some [] else if leb (utf8_len c) n then cons? c rest else none

unfoldable pub byte_slice : Text → ℕ → ℕ → Option Text
unfolding byte_drop byte_take
byte_slice s start end =
    if leb start end
    then elim (byte_drop start s) [ none ↦ none | some t ↦ byte_take (end - start) t ]
    else none

abbrev pub IsAscii : Text → Type 0
IsAscii s = All (λ c. c < 0x80) s

byte_drop-length : (s t : Text) → IsAscii s → byte_drop (length s) (s ++ t) ≡ some t
unfolding byte_drop
byte_drop-length [] [] _ = refl
byte_drop-length [] (c ∷ t) _ = refl
byte_drop-length (c ∷ s) t (small, h) = ground (arith, byte_drop-length s t h)

byte_take-length : (s t : Text) → IsAscii s → byte_take (length s) (s ++ t) ≡ some s
unfolding byte_take
byte_take-length [] [] _ = refl
byte_take-length [] (c ∷ t) _ = refl
byte_take-length (c ∷ s) t (small, h) = ground (arith, byte_take-length s t h)

-- In ASCII text the byte offsets are the positions.
pub byte_slice-append :
    (s t rest : Text) (start end : ℕ)
    → IsAscii s
    → IsAscii t
    → start ≡ length s
    → end ≡ length s + length t
    → byte_slice (s ++ (t ++ rest)) start end ≡ some t
unfolding byte_slice
byte_slice-append s t rest start end hs ht e f =
    let size : end - start ≡ length t = omega arith in
    ground (arith, byte_drop-length s (t ++ rest) hs, byte_take-length t rest ht)
