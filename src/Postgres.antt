-- ===== src/Postgres.antt =====
-- Integers on their way into PostgreSQL and back: `prepare_values` of cot/src/db/impl_postgres.rs
-- and the integer casts of cot/src/db/fields.rs. An unsigned integer of Rust is a number, a signed
-- one an integer; a cast keeps the bits, which the functions below write out.
pub mod Casts
pub mod Tests
use flareon.Base.{ℕ, ◌+◌, ◌-◌, ◌*◌, ◌%◌, List, map, Option, Bool, ltb, if◌then◌else◌}
use mathlib.Core.Option as Options

-- `negsuc n` is `-1 - n`.
pub data ℤ : Type 0 where
  pos negsuc : ℕ → ℤ

-- `as iN` of an unsigned integer of as many bits, of which there are `2 * half`.
abbrev pub as_signed : ℕ → ℕ → ℤ
as_signed half v = if ltb v half then pos v else negsuc (2 * half - 1 - v)

-- `as uN`, for the `full` values of that type.
abbrev pub as_unsigned : ℕ → ℤ → ℕ
as_unsigned full (pos n) = n % full
as_unsigned full (negsuc n) = full - 1 - n % full

-- The variants of `sea_query::Value` that the conversions read or write; `other` is any other.
pub data Value : Type 0 where
  tiny_int small_int int big_int : Option ℤ → Value
  tiny_unsigned small_unsigned unsigned big_unsigned : Option ℕ → Value
  other : ℕ → Value

unfoldable pub tinyint_to_smallint : Value → Value
tinyint_to_smallint (tiny_int num) = small_int num
tinyint_to_smallint (tiny_unsigned num) = small_int (Options.map pos num)
tinyint_to_smallint v = v

unfoldable pub unsigned_to_signed : Value → Value
unsigned_to_signed (small_unsigned num) = small_int (Options.map (as_signed 0x8000) num)
unsigned_to_signed (unsigned num) = int (Options.map (as_signed 0x80000000) num)
unsigned_to_signed (big_unsigned num) = big_int (Options.map (as_signed 0x8000000000000000) num)
unsigned_to_signed v = v

unfoldable pub prepare_values : List Value → List Value
unfolding tinyint_to_smallint unsigned_to_signed
prepare_values values = map (λ v. unsigned_to_signed (tinyint_to_smallint v)) values

-- The types whose fields are cast when they are read.
pub data CastType : Type 0 where
  u8 u16 u32 u64 : CastType

abbrev pub full_of : CastType → ℕ
full_of u8 = 0x100
full_of u16 = 0x10000
full_of u32 = 0x100000000
full_of u64 = 0x10000000000000000

-- The value that `to_db_value` makes of a field.
abbrev pub to_db_value : CastType → Option ℕ → Value
to_db_value u8 = tiny_unsigned
to_db_value u16 = small_unsigned
to_db_value u32 = unsigned
to_db_value u64 = big_unsigned

-- `from_postgres` on the integer that the column holds.
unfoldable pub from_postgres : CastType → Option ℤ → Option ℕ
from_postgres t num = Options.map (as_unsigned (full_of t)) num
