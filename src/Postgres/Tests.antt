-- ===== src/Postgres/Tests.antt =====
-- Values at the ends of their types, and an instance of the theorem.
use flareon.Base.{◌≡◌, refl, [], ◌∷◌, some, none, arith}
use flareon.Postgres.{
  pos, negsuc, small_int, int, tiny_int, unsigned, small_unsigned, other, prepare_values, u32,
}
use flareon.Postgres.Casts.{RoundTrips, from_postgres-prepare_values}

prepared :
    prepare_values (
      unsigned (some 0xFFFFFFFF)
      ∷ small_unsigned (some 0x7FFF)
      ∷ tiny_int (some (negsuc 0))
      ∷ unsigned none
      ∷ other 3
      ∷ [])
    ≡ int (some (negsuc 0))
      ∷ small_int (some (pos 0x7FFF))
      ∷ small_int (some (negsuc 0))
      ∷ int none
      ∷ other 3
      ∷ []
unfolding prepare_values
prepared = refl

from_postgres-prepare_values_example : RoundTrips u32 0xEE6B2800
from_postgres-prepare_values_example = from_postgres-prepare_values u32 0xEE6B2800 (omega arith)
