-- ===== src/Postgres/Casts.antt =====
-- An unsigned field that was written is read back.
use flareon.Base.{
  ℕ, ◌-◌, ◌<◌, ◌≡◌, refl, ap, [], ◌∷◌, Option, some, ltb, Bool-cases, inl, inr, arith,
}
use flareon.Postgres.{
  ℤ, pos, negsuc, Value, small_int, int, big_int, prepare_values, CastType, u8, u16, u32, u64,
  full_of, to_db_value, from_postgres,
}

-- The column of each type, signed.
abbrev pub column : CastType → Option ℤ → Value
column u8 = small_int
column u16 = small_int
column u32 = int
column u64 = big_int

-- Half of the values of the column's type.
abbrev pub limit : CastType → ℕ
limit u8 = 0x8000
limit u16 = 0x8000
limit u32 = 0x80000000
limit u64 = 0x8000000000000000

abbrev pub Fits : CastType → ℤ → Type 0
Fits t (pos n) = n < limit t
Fits t (negsuc n) = n < limit t

abbrev pub RoundTrips : CastType → ℕ → Type 0
RoundTrips t v =
    (z : ℤ) × (prepare_values (to_db_value t (some v) ∷ []) ≡ column t (some z) ∷ [])
    × Fits t z
    × (from_postgres t (some z) ≡ some v)

-- A field of an unsigned type that is written becomes a signed integer in the range of its column,
-- and the field that is read from there is the one that was written.
pub from_postgres-prepare_values : (t : CastType) (v : ℕ) → v < full_of t → RoundTrips t v
unfolding prepare_values from_postgres
from_postgres-prepare_values u8 v h = (pos v, refl, omega arith, ap some (omega arith))
from_postgres-prepare_values u16 v h = elim (Bool-cases (ltb v 0x8000)) [
  | inl e ↦ (pos v, rw e refl, ground arith, ap some (omega arith))
  | inr e ↦ (negsuc (0xFFFF - v), rw e refl, ground arith, ap some (omega arith))
]
from_postgres-prepare_values u32 v h = elim (Bool-cases (ltb v 0x80000000)) [
  | inl e ↦ (pos v, rw e refl, ground arith, ap some (omega arith))
  | inr e ↦ (negsuc (0xFFFFFFFF - v), rw e refl, ground arith, ap some (omega arith))
]
from_postgres-prepare_values u64 v h = elim (Bool-cases (ltb v 0x8000000000000000)) [
  | inl e ↦ (pos v, rw e refl, ground arith, ap some (omega arith))
  | inr e ↦ (negsuc (0xFFFFFFFFFFFFFFFF - v), rw e refl, ground arith, ap some (omega arith))
]
