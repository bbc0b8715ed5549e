-- ===== src/Generator/Processor/Names.antt =====
-- The name of the next migration.
use flareon.Base.{
  ℕ, zero, suc, ◌+◌, ◌-◌, ◌*◌, ◌/◌, ◌%◌, ◌<◌, ◌≤◌, ◌≡◌, ◌≢◌, refl, ◌∙◌, ap, [], ◌∷◌, ◌++◌, Option,
  some, false, ltb, leb, ◌&&◌, Bool, ◌==◌, if◌then◌else◌, Bool-cases, inl, inr, length,
  length-append, length-replicate, get_elem?, replicate, Text, codes, All, All-append, arith,
}
use flareon.Generator.Processor.{
  Migration, MigrationProcessor, last, ok, overflow, split, push_digit, parse_digits, parse_u32,
  digits, format_number, migration_name, next_migration_name, u32_limit,
}

abbrev IsDigit : ℕ → Type 0
IsDigit c = (b'0' ≤ c) × (c ≤ b'9')

digits-IsDigit : (fuel n : ℕ) → All IsDigit (digits fuel n)
unfolding digits
digits-IsDigit zero n = tt
digits-IsDigit (suc fuel) n = elim (Bool-cases (ltb n 10)) [
  | inl small ↦ rw small (ground arith)
  | inr large ↦
      rw large
        (All-append IsDigit (digits fuel (n / 10)) _ (digits-IsDigit fuel (n / 10)) (ground arith))
]

replicate-IsDigit : (k : ℕ) → All IsDigit (replicate k b'0')
replicate-IsDigit zero = tt
replicate-IsDigit (suc k) = (omega arith, replicate-IsDigit k)

format_number-IsDigit : (n : ℕ) → All IsDigit (format_number n)
unfolding format_number
format_number-IsDigit n =
    All-append IsDigit _ (digits 10 n) (replicate-IsDigit _) (digits-IsDigit 10 n)

parse_digits-append :
    (n : Option ℕ) (s t : Text) → parse_digits n (s ++ t) ≡ parse_digits (parse_digits n s) t
unfolding parse_digits
parse_digits-append n [] t = refl
parse_digits-append n (c ∷ s) t = parse_digits-append (push_digit n c) s t

parse_digits-zeros : (k : ℕ) → parse_digits (some 0) (replicate k b'0') ≡ some 0
unfolding parse_digits
parse_digits-zeros zero = refl
parse_digits-zeros (suc k) = parse_digits-zeros k

abbrev power_of_ten : ℕ → ℕ
power_of_ten zero = 1
power_of_ten (suc n) = 10 * power_of_ten n

parse_digits-digits :
    (fuel n : ℕ)
    → n < power_of_ten fuel
    → n < u32_limit
    → parse_digits (some 0) (digits fuel n) ≡ some n
unfolding parse_digits digits
parse_digits-digits zero n h small = ap some (omega arith)
parse_digits-digits (suc fuel) n h small = elim (Bool-cases (ltb n 10)) [
  | inl one ↦ rw one (ground arith)
  | inr more ↦
      rw
        (
          more,
          parse_digits-append (some 0) (digits fuel (n / 10)) ((b'0' + n % 10) ∷ []),
          parse_digits-digits fuel (n / 10) (omega arith) (omega arith),
        )
        (ground arith)
]

parse_u32-digits :
    (s : Text) (n : ℕ)
    → All IsDigit s
    → s ≢ []
    → parse_digits (some 0) s ≡ some n
    → parse_u32 s ≡ some n
unfolding parse_u32
parse_u32-digits [] n all ne e = absurd (ne refl)
parse_u32-digits (c ∷ []) n all ne e = e
parse_u32-digits (c ∷ d ∷ s) n all ne e = rw (not_plus c all.0) e
  where
    not_plus : (k : ℕ) → IsDigit k → (k == b'+') ≡ false
    not_plus k h = ground arith

format_number-ne-nil : (n : ℕ) → format_number n ≢ []
unfolding format_number
format_number-ne-nil n e = absurd (
    omega (
      arith,
      ap length e,
      length-append (replicate (4 - length (digits 10 n)) b'0') (digits 10 n),
      length-replicate {A = ℕ} (4 - length (digits 10 n)) b'0',
    ))

-- A number that is written into a name is read back.
pub parse_u32-format_number : (n : ℕ) → n < u32_limit → parse_u32 (format_number n) ≡ some n
unfolding format_number
parse_u32-format_number n small =
    parse_u32-digits (format_number n) n (format_number-IsDigit n) (format_number-ne-nil n) (
      parse_digits-append (some 0) (replicate (4 - length (digits 10 n)) b'0') (digits 10 n)
      ∙ ap (λ m. parse_digits m (digits 10 n)) (parse_digits-zeros (4 - length (digits 10 n)))
      ∙ parse_digits-digits 10 n (omega arith) small)

All-map : {P Q : ℕ → Type 0} (to : (c : ℕ) → P c → Q c) (s : Text) → All P s → All Q s
All-map to [] all = tt
All-map to (c ∷ s) (h, all) = (to c h, All-map to s all)

abbrev IsNotUnderscore : ℕ → Type 0
IsNotUnderscore c = (c == b'_') ≡ false

split-word :
    (s rest : Text) → All IsNotUnderscore s → split b'_' (s ++ b'_' ∷ rest) ≡ s ∷ split b'_' rest
unfolding split
split-word [] rest all = refl
split-word (c ∷ s) rest (h, all) = rw (h, split-word s rest all)

-- The second word of a name is a number, as it is written into names, and a third one follows.
abbrev pub HasNumber : Text → ℕ → Type 0
HasNumber name n =
    (before rest : Text) × All IsNotUnderscore before
    × (name ≡ before ++ b'_' ∷ (format_number n ++ b'_' ∷ rest))

split-HasNumber :
    (name : Text) (n : ℕ)
    → HasNumber name n
    → get_elem? (split b'_' name) 1 ≡ some (format_number n)
split-HasNumber name n (before, rest, all, is) =
    rw
      (
        is,
        split-word before (format_number n ++ b'_' ∷ rest) all,
        split-word (format_number n) rest
            (All-map (λ c h. not_underscore c h) (format_number n) (format_number-IsDigit n)),
      )
      refl
  where
    not_underscore : (c : ℕ) → IsDigit c → IsNotUnderscore c
    not_underscore c h = ground arith

migration_name-HasNumber : (n : ℕ) (date_time : Text) → HasNumber (migration_name n date_time) n
migration_name-HasNumber n date_time = (codes "m", codes "auto_" ++ date_time, (refl, tt), refl)

-- After a last migration whose name has as its second word the number `n`, of 32 bits, as it is
-- written into names, followed by a third word, the next one is named with the number `n + 1`, and its
-- name has this number in the same way. If `n + 1` does not fit into 32 bits, the addition panics where
-- overflow checks are on, and otherwise the number is 0.
pub next_migration_name_lem :
    (overflow_checks : Bool) (p : MigrationProcessor) (m : Migration) (n : ℕ) (date_time : Text)
    → last p.migrations ≡ some m
    → HasNumber m.name n
    → n < u32_limit
    → let next = (n + 1) % u32_limit in
      (next_migration_name overflow_checks p date_time ≡ (
        if overflow_checks && leb u32_limit (n + 1)
        then overflow
        else ok (migration_name next date_time)))
      × HasNumber (migration_name next date_time) next
unfolding next_migration_name
next_migration_name_lem overflow_checks p m n date_time at named small = (
  rw (at, next_migration_name, split-HasNumber m.name n named, parse_u32-format_number n small)
      refl,
  migration_name-HasNumber ((n + 1) % u32_limit) date_time,
)
