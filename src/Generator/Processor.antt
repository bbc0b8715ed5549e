-- ===== src/Generator/Processor.antt =====
-- `MigrationProcessor` over the migrations that are there, in the order in which they are applied,
-- and `generate_migrations`. The time in a migration's name is a parameter.
pub mod Names
use flareon.Base.{
  ℕ, zero, suc, ◌+◌, ◌-◌, ◌*◌, ◌/◌, ◌%◌, List, [], ◌∷◌, ◌++◌, Option, none, some, Bool, true, false,
  ◌&&◌, ltb, leb, ◌==◌, if◌then◌else◌, length, get_elem?, replicate, Text, codes, insert, Text-Eq,
}
use flareon.Graph.{Outcome, done, panic}
use flareon.Generator.{ModelInSource, DynDependency, migration}
use flareon.Generator.Changes.{generate_operations, Generated}
use flareon.Generator.Cycles.{Petgraph, GeneratedMigration, new_migration}

pub record Migration : Type 0 where
  pub app_name : Text
  pub name : Text
  pub models : List ModelInSource

pub record MigrationProcessor : Type 0 where
  pub migrations : List Migration

-- `Vec::last`
unfoldable pub last : List Migration → Option Migration
last [] = none
last (m ∷ []) = some m
last (m ∷ n ∷ ms) = last (n ∷ ms)

unfoldable pub note_models :
    List ModelInSource → List (Text × ModelInSource) → List (Text × ModelInSource)
note_models [] models = models
note_models (m ∷ ms) models = note_models ms (insert m.model.table_name m models)

unfoldable pub note_migrations :
    List Migration → List (Text × ModelInSource) → List (Text × ModelInSource)
unfolding note_models
note_migrations [] models = models
note_migrations (m ∷ ms) models = note_migrations ms (note_models m.models models)

abbrev pub into_values : List (Text × ModelInSource) → List ModelInSource
into_values [] = []
into_values ((_, m) ∷ models) = m ∷ into_values models

-- The order of the values is that of the first insertions; in the source it is unspecified.
unfoldable pub latest_models : MigrationProcessor → List ModelInSource
unfolding note_migrations
latest_models p = into_values (note_migrations p.migrations [])

-- The two ways of `with_context`.
pub data NameError : Type 0 where
  number_not_found unable_to_parse : NameError

-- The addition panics on an overflow where the program is compiled with overflow checks.
pub data NameResult : Type 0 where
  ok : Text → NameResult
  err : NameError → NameResult
  overflow : NameResult

abbrev u32_limit : ℕ
u32_limit = 0x100000000

-- `str::split`, for a character.
abbrev put_first : ℕ → List Text → List Text
put_first c [] = (c ∷ []) ∷ []
put_first c (word ∷ words) = (c ∷ word) ∷ words

unfoldable pub split : ℕ → Text → List Text
split separator [] = [] ∷ []
split separator (c ∷ s) =
    if c == separator then [] ∷ split separator s else put_first c (split separator s)

-- `str::parse::<u32>`
abbrev pub push_digit : Option ℕ → ℕ → Option ℕ
push_digit none c = none
push_digit (some n) c =
    if leb b'0' c && leb c b'9'
    then if ltb (n * 10 + (c - b'0')) u32_limit then some (n * 10 + (c - b'0')) else none
    else none

unfoldable pub parse_digits : Option ℕ → Text → Option ℕ
parse_digits n [] = n
parse_digits n (c ∷ s) = parse_digits (push_digit n c) s

unfoldable pub parse_u32 : Text → Option ℕ
unfolding parse_digits
parse_u32 [] = none
parse_u32 (c ∷ []) = parse_digits (some 0) (c ∷ [])
parse_u32 (c ∷ d ∷ s) =
    if c == b'+' then parse_digits (some 0) (d ∷ s) else parse_digits (some 0) (c ∷ d ∷ s)

-- The decimal digits of a number, on fuel for as many of them.
unfoldable pub digits : ℕ → ℕ → Text
digits zero n = []
digits (suc fuel) n =
    let more = digits fuel (n / 10) ++ (b'0' + n % 10) ∷ [] in
    if ltb n 10 then (b'0' + n) ∷ [] else more

-- `{:04}` of a `u32`, which has ten digits at most.
unfoldable pub format_number : ℕ → Text
unfolding digits
format_number n = let ds = digits 10 n in replicate (4 - length ds) b'0' ++ ds

abbrev pub migration_name : ℕ → Text → Text
migration_name number date_time =
    codes "m_" ++ (format_number number ++ (codes "_auto_" ++ date_time))

-- The number after the last one, of a `u32`: without overflow checks the addition wraps around.
abbrev pub name_after : Bool → Option ℕ → Text → NameResult
name_after overflow_checks none date_time = err unable_to_parse
name_after overflow_checks (some number) date_time =
    if overflow_checks && leb u32_limit (number + 1)
    then overflow
    else ok (migration_name ((number + 1) % u32_limit) date_time)

abbrev pub name_from : Bool → Option Text → Text → NameResult
name_from overflow_checks none date_time = err number_not_found
name_from overflow_checks (some word) date_time =
    name_after overflow_checks (parse_u32 word) date_time

unfoldable pub next_migration_name : Bool → MigrationProcessor → Text → NameResult
unfolding last split parse_u32 format_number
next_migration_name overflow_checks p date_time = elim (last p.migrations) [
  | none ↦ ok (codes "m_0001_initial")
  | some m ↦ name_from overflow_checks (get_elem? (split b'_' m.name) 1) date_time
]

unfoldable pub base_dependencies : MigrationProcessor → List DynDependency
unfolding last
base_dependencies p = elim (last p.migrations) [
  | none ↦ []
  | some m ↦ migration m.app_name m.name ∷ []
]

pub data GenerateResult : Type 0 where
  nothing_to_do : GenerateResult
  generated : GeneratedMigration → GenerateResult
  name_error : NameError → GenerateResult
  panicked : GenerateResult

abbrev pub from_outcome : Outcome GeneratedMigration → GenerateResult
from_outcome (done g) = generated g
from_outcome _ = panicked

abbrev pub with_name : Petgraph → NameResult → List DynDependency → Generated → GenerateResult
with_name pg (err e) dependencies gen = name_error e
with_name pg overflow dependencies gen = panicked
with_name pg (ok name) dependencies gen =
    from_outcome (new_migration pg name gen.modified_models dependencies gen.operations)

abbrev pub from_generated :
    Petgraph → NameResult → List DynDependency → Option Generated → GenerateResult
from_generated pg name dependencies none = panicked
from_generated pg name dependencies (some gen) = elim gen.operations [
  | [] ↦ nothing_to_do
  | _ ∷ _ ↦ with_name pg name dependencies gen
]

-- `generate_migrations`, from the models of the application and the sorted migrations, compiled with
-- overflow checks or without.
unfoldable pub generate_migrations :
    Bool → Petgraph → List ModelInSource → MigrationProcessor → Text → GenerateResult
unfolding latest_models next_migration_name base_dependencies generate_operations new_migration
generate_migrations overflow_checks pg models p date_time =
    from_generated pg (next_migration_name overflow_checks p date_time) (base_dependencies p)
      (generate_operations models (latest_models p))
