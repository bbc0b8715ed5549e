-- ===== src/Params.antt =====
-- Path parameters, cot/src/request.rs, and reading values from them with serde,
-- cot/src/request/path_params_deserializer.rs. `IndexMap` of the crate indexmap is a
-- parameter.
pub mod Access
pub mod Reads
pub mod Routed
pub mod Tests
use flareon.Base.{
  ℕ, zero, suc, ◌+◌, ◌==◌, List, [], ◌∷◌, Option, none, some, Bool, if◌then◌else◌, Text, Text-Eq,
  codes, length, get_elem?, lookup, insert, ◌≡◌,
}
use mathlib.Core.Option as Options

-- `IndexMap` of the crate indexmap, with texts as keys and values.
pub record IndexMap : Type 1 where
  pub Map : Type 0
  pub new : Map
  pub insert : Text → Text → Map → Map
  pub len : Map → ℕ
  pub get : Text → Map → Option Text
  pub get_index : ℕ → Map → Option (Text × Text)

-- What is documented of `IndexMap`: the entries have an order; a new key is put at the end, and the
-- value of a key that is there is replaced at its position.
pub record IsIndexMap (im : IndexMap) : Type 0 where
  pub entries : im.Map → List (Text × Text)
  pub entries-new : entries im.new ≡ []
  pub entries-insert :
      (key value : Text) (m : im.Map)
      → entries (im.insert key value m) ≡ insert key value (entries m)
  pub len_lem : (m : im.Map) → im.len m ≡ length (entries m)
  pub get_lem : (key : Text) (m : im.Map) → im.get key m ≡ lookup key (entries m)
  pub get_index_lem : (i : ℕ) (m : im.Map) → im.get_index i m ≡ get_elem? (entries m) i

pub record PathParams (im : IndexMap) : Type 0 where
  pub params : im.Map

unfoldable pub new : {im : IndexMap} → PathParams im
new {im} = record { params = im.new }

unfoldable pub insert_param : {im : IndexMap} → Text → Text → PathParams im → PathParams im
insert_param {im} name value p = record { params = im.insert name value p.params }

abbrev pub len : {im : IndexMap} → PathParams im → ℕ
len {im} p = im.len p.params

unfoldable pub is_empty : {im : IndexMap} → PathParams im → Bool
is_empty p = len p == 0

unfoldable pub get : {im : IndexMap} → Text → PathParams im → Option Text
get {im} name p = im.get name p.params

abbrev pub get_index : {im : IndexMap} → ℕ → PathParams im → Option Text
get_index {im} index p =
    Options.map (λ (entry : Text × Text). entry.1) (im.get_index index p.params)

abbrev pub key_at_index : {im : IndexMap} → ℕ → PathParams im → Option Text
key_at_index {im} index p =
    Options.map (λ (entry : Text × Text). entry.0) (im.get_index index p.params)

pub data PathParamsDeserializerError : Type 0 where
  invalid_param_number : ℕ → ℕ → PathParamsDeserializerError
  parse_error : Text → Text → PathParamsDeserializerError
  unsupported_type custom : Text → PathParamsDeserializerError

-- A `Result` of the deserializer, or a panic.
pub data Outcome (A : Type 0) : Type 0 where
  ok : A → Outcome A
  err : PathParamsDeserializerError → Outcome A
  panic : Outcome A

infixl 5 ◌>>=◌ ◌>>◌
abbrev pub ◌>>=◌ : {A B : Type 0} → Outcome A → (A → Outcome B) → Outcome B
ok a >>= f = f a
err x >>= f = err x
panic >>= f = panic

abbrev pub ◌>>◌ : {A B : Type 0} → Outcome A → Outcome B → Outcome B
m >> k = m >>= λ _. k

abbrev pub expect : {A : Type 0} → Option A → Outcome A
expect none = panic
expect (some a) = ok a

-- The types that are read by `deserialize_value!`, and their names.
pub data Scalar : Type 0 where
  bool i8 i16 i32 i64 i128 u8 u16 u32 u64 u128 f32 f64 char string : Scalar

abbrev pub type_name : Scalar → Text
type_name bool = codes "bool"
type_name i8 = codes "i8"
type_name i16 = codes "i16"
type_name i32 = codes "i32"
type_name i64 = codes "i64"
type_name i128 = codes "i128"
type_name u8 = codes "u8"
type_name u16 = codes "u16"
type_name u32 = codes "u32"
type_name u64 = codes "u64"
type_name u128 = codes "u128"
type_name f32 = codes "f32"
type_name f64 = codes "f64"
type_name char = codes "char"
type_name string = codes "String"

-- `str::parse` of the standard library, the values that it reads, and the bytes of a text.
pub record Std : Type 1 where
  pub Value : Scalar → Type 0
  pub parse : (s : Scalar) → Text → Option (Value s)
  pub as_bytes : Text → List ℕ

-- `PathParamsDeserializer`, and `ValueDeserializer` of a value that may have a key.
pub data Deserializer (im : IndexMap) : Type 0 where
  of_params : PathParams im → Deserializer im
  of_value : Option Text → Text → Deserializer im

-- `SequenceDeserializer` and `ArrayDeserializer`, at an index.
pub data SeqAccess (im : IndexMap) : Type 0 where
  sequence : PathParams im → ℕ → SeqAccess im
  array : List Text → ℕ → SeqAccess im

-- `MapDeserializer`.
pub record MapAccess (im : IndexMap) : Type 0 where
  pub path_params : PathParams im
  pub index : ℕ

-- `EnumDeserializer`.
pub record EnumAccess : Type 0 where
  pub value : Text

-- A `Visitor` of serde: the name of its value's type, and its methods.
pub record Visitor (im : IndexMap) (std : Std) (A : Type 0) : Type 0 where
  pub value_name : Text
  pub visit : (s : Scalar) → std.Value s → Outcome A
  pub visit_borrowed_str : Text → Outcome A
  pub visit_bytes : List ℕ → Outcome A
  pub visit_borrowed_bytes : List ℕ → Outcome A
  pub visit_byte_buf : List ℕ → Outcome A
  pub visit_unit : Outcome A
  pub visit_some : Deserializer im → Outcome A
  pub visit_newtype_struct : Deserializer im → Outcome A
  pub visit_seq : SeqAccess im → Outcome A
  pub visit_map : MapAccess im → Outcome A
  pub visit_enum : EnumAccess → Outcome A

-- The methods of serde's `Deserializer`, with the arguments that are used.
pub data Method : Type 0 where
  scalar : Scalar → Method
  any str bytes byte_buf option unit unit_struct newtype_struct seq map enum identifier
        ignored_any :
      Method
  tuple tuple_struct : ℕ → Method
  struct : List Text → Method

abbrev pub check_param_num : {im : IndexMap} → PathParams im → ℕ → Outcome (Unit {0})
check_param_num p expected =
    if len p == expected then ok tt else err (invalid_param_number expected (len p))

abbrev pub single_param : {im : IndexMap} → PathParams im → Outcome Text
single_param p = check_param_num p 1 >> expect (get_index 0 p)

-- Of a value it is the value.
unfoldable pub get_single_value : {im : IndexMap} → Deserializer im → Outcome Text
get_single_value (of_params p) = single_param p
get_single_value (of_value key value) = ok value

module _ {im : IndexMap} {std : Std} {A : Type 0} where
  abbrev pub unsupported : Visitor im std A → Outcome A
  unsupported visitor = err (unsupported_type visitor.value_name)

  abbrev pub parsed : Visitor im std A → (s : Scalar) → Text → Option (std.Value s) → Outcome A
  parsed visitor s value none = err (parse_error value (type_name s))
  parsed visitor s value (some v) = visitor.visit s v

  unfoldable pub deserialize_value : Visitor im std A → Deserializer im → Scalar → Outcome A
  unfolding get_single_value
  deserialize_value visitor d s = do
    value ← get_single_value d
    parsed visitor s value (std.parse s value)

  unfoldable pub deserialize_params : PathParams im → Method → Visitor im std A → Outcome A
  unfolding deserialize_value get_single_value
  deserialize_params p any visitor = single_param p >>= visitor.visit_borrowed_str
  deserialize_params p (scalar s) visitor = deserialize_value visitor (of_params p) s
  deserialize_params p str visitor = single_param p >>= visitor.visit_borrowed_str
  deserialize_params p bytes visitor =
      single_param p >>= λ value. visitor.visit_bytes (std.as_bytes value)
  deserialize_params p byte_buf visitor =
      single_param p >>= λ value. visitor.visit_byte_buf (std.as_bytes value)
  deserialize_params p option visitor = unsupported visitor
  deserialize_params p unit visitor = visitor.visit_unit
  deserialize_params p unit_struct visitor = visitor.visit_unit
  deserialize_params p newtype_struct visitor = visitor.visit_newtype_struct (of_params p)
  deserialize_params p seq visitor = visitor.visit_seq (sequence p 0)
  deserialize_params p (tuple n) visitor = check_param_num p n >> visitor.visit_seq (sequence p 0)
  deserialize_params p (tuple_struct n) visitor =
      check_param_num p n >> visitor.visit_seq (sequence p 0)
  deserialize_params p map visitor = visitor.visit_map (record { path_params = p; index = 0 })
  deserialize_params p (struct fields) visitor =
      check_param_num p (length fields) >> visitor.visit_map (record { path_params = p; index = 0 })
  deserialize_params p enum visitor =
      single_param p >>= λ value. visitor.visit_enum (record { value = value })
  deserialize_params p identifier visitor = unsupported visitor
  deserialize_params p ignored_any visitor = single_param p >>= visitor.visit_borrowed_str

  -- A pair of a key and a value, or nothing else.
  abbrev pub value_tuple : Option Text → Text → ℕ → Visitor im std A → Outcome A
  value_tuple none value n visitor = unsupported visitor
  value_tuple (some key) value n visitor =
      if n == 2 then visitor.visit_seq (array (key ∷ value ∷ []) 0) else unsupported visitor

  unfoldable pub deserialize_one : Option Text → Text → Method → Visitor im std A → Outcome A
  unfolding deserialize_value
  deserialize_one key value any visitor = visitor.visit_borrowed_str value
  deserialize_one key value (scalar s) visitor = deserialize_value visitor (of_value key value) s
  deserialize_one key value str visitor = visitor.visit_borrowed_str value
  deserialize_one key value bytes visitor = visitor.visit_borrowed_bytes (std.as_bytes value)
  deserialize_one key value byte_buf visitor = visitor.visit_byte_buf (std.as_bytes value)
  deserialize_one key value option visitor = visitor.visit_some (of_value key value)
  deserialize_one key value unit visitor = visitor.visit_unit
  deserialize_one key value unit_struct visitor = visitor.visit_unit
  deserialize_one key value newtype_struct visitor =
      visitor.visit_newtype_struct (of_value key value)
  deserialize_one key value seq visitor = unsupported visitor
  deserialize_one key value (tuple n) visitor = value_tuple key value n visitor
  deserialize_one key value (tuple_struct n) visitor = unsupported visitor
  deserialize_one key value map visitor = unsupported visitor
  deserialize_one key value (struct fields) visitor = unsupported visitor
  deserialize_one key value enum visitor = visitor.visit_enum (record { value = value })
  deserialize_one key value identifier visitor = visitor.visit_borrowed_str value
  deserialize_one key value ignored_any visitor = visitor.visit_unit

  unfoldable pub deserialize : Deserializer im → Method → Visitor im std A → Outcome A
  unfolding deserialize_params deserialize_one
  deserialize (of_params p) method visitor = deserialize_params p method visitor
  deserialize (of_value key value) method visitor = deserialize_one key value method visitor
