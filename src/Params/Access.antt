-- ===== src/Params/Access.antt =====
-- The accesses that the deserializers of cot/src/request/path_params_deserializer.rs hand to a visitor.
-- A seed is what it does with the deserializer that it is given.
use flareon.Base.{ℕ, ◌+◌, List, Option, none, some, Text, codes, get_elem?}
use flareon.Params.{
  IndexMap, PathParams, get_index, key_at_index, Outcome, ok, err, panic, ◌>>=◌, unsupported_type,
  Deserializer, of_value, SeqAccess, sequence, array, MapAccess, EnumAccess,
}

abbrev pub Seed : IndexMap → Type 0 → Type 0
Seed im A = Deserializer im → Outcome A

-- An element that is read, with the access behind it.
abbrev pub found : {A S : Type 0} → Outcome A → S → Outcome (Option A) × S
found o s = (o >>= λ a. ok (some a), s)

-- The key of a value that was found.
abbrev pub at_key :
    {im : IndexMap} {A : Type 0}
    → Seed im A
    → Option Text
    → Text
    → PathParams im
    → ℕ
    → Outcome (Option A) × SeqAccess im
at_key seed none value p index = (panic, sequence p index)
at_key seed (some key) value p index =
    found (seed (of_value (some key) value)) (sequence p (index + 1))

abbrev pub at_value :
    {im : IndexMap} {A : Type 0}
    → Seed im A
    → Option Text
    → PathParams im
    → ℕ
    → Outcome (Option A) × SeqAccess im
at_value seed none p index = (ok none, sequence p index)
at_value seed (some value) p index = at_key seed (key_at_index index p) value p index

abbrev pub at_item :
    {im : IndexMap} {A : Type 0}
    → Seed im A
    → Option Text
    → List Text
    → ℕ
    → Outcome (Option A) × SeqAccess im
at_item seed none items index = (ok none, array items index)
at_item seed (some value) items index = found (seed (of_value none value)) (array items (index + 1))

unfoldable pub next_element_seed :
    {im : IndexMap} {A : Type 0} → Seed im A → SeqAccess im → Outcome (Option A) × SeqAccess im
next_element_seed seed (sequence p index) = at_value seed (get_index index p) p index
next_element_seed seed (array items index) = at_item seed (get_elem? items index) items index

abbrev pub key_seed : {im : IndexMap} {A : Type 0} → Seed im A → Option Text → Outcome (Option A)
key_seed seed none = ok none
key_seed seed (some key) = seed (of_value none key) >>= λ a. ok (some a)

unfoldable pub next_key_seed :
    {im : IndexMap} {A : Type 0} → Seed im A → MapAccess im → Outcome (Option A) × MapAccess im
next_key_seed seed m = (key_seed seed (key_at_index m.index m.path_params), m)

-- What `next_value_seed` does with the key and the value at its index.
abbrev pub value_seed :
    {im : IndexMap} {A : Type 0}
    → Seed im A
    → Option Text
    → Option Text
    → MapAccess im
    → Outcome A × MapAccess im
value_seed seed none value m = (panic, m)
value_seed seed (some key) none m = (panic, m)
value_seed seed (some key) (some value) m =
    (seed (of_value (some key) value), record m { index = m.index + 1 })

unfoldable pub next_value_seed :
    {im : IndexMap} {A : Type 0} → Seed im A → MapAccess im → Outcome A × MapAccess im
next_value_seed seed m =
    value_seed seed (key_at_index m.index m.path_params) (get_index m.index m.path_params) m

-- `UnitVariant`, and its four methods.
pub data UnitVariant : Type 0 where
  unit_variant_access : UnitVariant

unfoldable pub variant_seed :
    {im : IndexMap} {A : Type 0} → Seed im A → EnumAccess → Outcome (A × UnitVariant)
variant_seed seed access = seed (of_value none access.value) >>= λ a. ok (a, unit_variant_access)

unfoldable pub unit_variant : UnitVariant → Outcome (Unit {0})
unit_variant _ = ok tt

unfoldable pub newtype_variant_seed :
    {im : IndexMap} {A : Type 0} → UnitVariant → Seed im A → Outcome A
newtype_variant_seed _ _ = err (unsupported_type (codes "newtype enum variant"))

unfoldable pub tuple_variant : {A : Type 0} → UnitVariant → ℕ → Outcome A
tuple_variant _ _ = err (unsupported_type (codes "tuple enum variant"))

unfoldable pub struct_variant : {A : Type 0} → UnitVariant → List Text → Outcome A
struct_variant _ _ = err (unsupported_type (codes "struct enum variant"))
