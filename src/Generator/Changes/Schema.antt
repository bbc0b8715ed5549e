-- ===== src/Generator/Changes/Schema.antt =====
-- What the operations of a generated migration do to a schema: the columns of each table.
use flareon.Base.{
  ◌≡◌, ◌≢◌, refl, sym, ◌∙◌, ap, List, [], ◌∷◌, ◌++◌, Option, none, some, false, ◌&&◌, ◌||◌,
  if◌then◌else◌, Bool-cases, inl, inr, Text, Text-Eq, text_eq, text_eq_iff, mem_text, lookup,
  insert, lookup-insert, arith,
}
use flareon.Generator.{Field, ModelInSource, DynOperation, create_model, add_field}
use flareon.Generator.Changes.{◌>>=◌, insert_name, model_map, model_names, field_map, field_names}

-- The field of a table's column.
abbrev pub Schema : Type 0
Schema = Text → Text → Option Field

abbrev pub columns_of : Option ModelInSource → Text → Option Field
columns_of none c = none
columns_of (some m) c = lookup c (field_map m.model.fields [])

abbrev pub schema_in : List (Text × ModelInSource) → Schema
schema_in models t c = columns_of (lookup t models) c

abbrev pub schema_of : List ModelInSource → Schema
schema_of models = schema_in (model_map models [])

abbrev pub apply : DynOperation → Schema → Schema
apply (create_model table_name _ fields) s t c =
    if text_eq table_name t then lookup c (field_map fields []) else s t c
apply (add_field table_name _ field) s t c =
    if text_eq table_name t && text_eq field.column_name c then some field else s t c

abbrev pub apply_all : List DynOperation → Schema → Schema
apply_all [] s = s
apply_all (op ∷ ops) s = apply_all ops (apply op s)

pub apply_all-append :
    (xs ys : List DynOperation) (s : Schema)
    → apply_all (xs ++ ys) s ≡ apply_all ys (apply_all xs s)
apply_all-append [] ys s = refl
apply_all-append (x ∷ xs) ys s = apply_all-append xs ys (apply x s)

pub mem_text-insert_name :
    (t u : Text) (us : List Text) → mem_text t (insert_name u us) ≡ (text_eq u t || mem_text t us)
unfolding insert_name
mem_text-insert_name t u [] = refl
mem_text-insert_name t u (v ∷ us) = elim (Bool-cases (text_eq u v)) [
  | inl e ↦ let same = (text_eq_iff u v).0 e in rw e (rw same (ground arith))
  | inr e ↦ rw e (ground (arith, mem_text-insert_name t u us))
]

pub >>=-eq-some :
    {A B : Type 0} (o : Option A) (k : A → Option B) (b : B)
    → (o >>= k) ≡ some b
    → (a : A) × (o ≡ some a) × (k a ≡ some b)
>>=-eq-some none k b e = cc
>>=-eq-some (some a) k b e = (a, refl, e)

-- A name that is not listed is not in the map.
pub field_map-unlisted :
    (fs : List Field) (map : List (Text × Field)) (names : List Text) (c : Text)
    → mem_text c (field_names fs names) ≡ false
    → (lookup c (field_map fs map) ≡ lookup c map) × (mem_text c names ≡ false)
unfolding field_map field_names
field_map-unlisted [] map names c h = (refl, h)
field_map-unlisted (f ∷ fs) map names c h =
    let (same, out) =
      field_map-unlisted fs (insert f.column_name f map) (insert_name f.column_name names) c h in
    (
      same
          ∙ ground (
            arith,
            lookup-insert f.column_name c f map,
            mem_text-insert_name c f.column_name names,
          ),
      ground (arith, mem_text-insert_name c f.column_name names),
    )

pub model_map-unlisted :
    (ms : List ModelInSource) (map : List (Text × ModelInSource)) (names : List Text) (t : Text)
    → mem_text t (model_names ms names) ≡ false
    → (lookup t (model_map ms map) ≡ lookup t map) × (mem_text t names ≡ false)
unfolding model_map model_names
model_map-unlisted [] map names t h = (refl, h)
model_map-unlisted (m ∷ ms) map names t h =
    let (same, out) =
      model_map-unlisted ms (insert m.model.table_name m map) (insert_name m.model.table_name names)
        t h in
    (
      same
          ∙ ground (
            arith,
            lookup-insert m.model.table_name t m map,
            mem_text-insert_name t m.model.table_name names,
          ),
      ground (arith, mem_text-insert_name t m.model.table_name names),
    )

-- Each value stands under its own name.
abbrev pub FieldKeys : List (Text × Field) → Type 0
FieldKeys map = (c : Text) (f : Field) → lookup c map ≡ some f → f.column_name ≡ c

abbrev pub ModelKeys : List (Text × ModelInSource) → Type 0
ModelKeys map = (t : Text) (m : ModelInSource) → lookup t map ≡ some m → m.model.table_name ≡ t

pub field_map-FieldKeys :
    (fs : List Field) (map : List (Text × Field)) → FieldKeys map → FieldKeys (field_map fs map)
unfolding field_map
field_map-FieldKeys [] map keys = keys
field_map-FieldKeys (f ∷ fs) map keys = field_map-FieldKeys fs (insert f.column_name f map) λ c g e.
    elim (Bool-cases (text_eq f.column_name c)) [
      | inl same ↦
          let is : f ≡ g = ground (arith, lookup-insert f.column_name c f map) in
          ap (λ x. x.column_name) (sym is) ∙ (text_eq_iff f.column_name c).0 same
      | inr other ↦ keys c g (ground (arith, lookup-insert f.column_name c f map))
    ]

pub model_map-ModelKeys :
    (ms : List ModelInSource) (map : List (Text × ModelInSource))
    → ModelKeys map
    → ModelKeys (model_map ms map)
unfolding model_map
model_map-ModelKeys [] map keys = keys
model_map-ModelKeys (m ∷ ms) map keys =
    model_map-ModelKeys ms (insert m.model.table_name m map) λ t n e.
      elim (Bool-cases (text_eq m.model.table_name t)) [
        | inl same ↦
            let is : m ≡ n = ground (arith, lookup-insert m.model.table_name t m map) in
            ap (λ x. x.model.table_name) (sym is) ∙ (text_eq_iff m.model.table_name t).0 same
        | inr other ↦ keys t n (ground (arith, lookup-insert m.model.table_name t m map))
      ]

lookup-nil : {V : Type 0} (t : Text) → ◌≡◌ {A = Option V} (lookup t []) none
unfolding lookup
lookup-nil t = refl

pub nil-FieldKeys : FieldKeys []
nil-FieldKeys c f e = cc (lookup-nil {V = Field} c)

pub nil-ModelKeys : ModelKeys []
nil-ModelKeys t m e = cc (lookup-nil {V = ModelInSource} t)

-- A name that is listed in neither of two lists of fields stands in neither map.
pub fields-unlisted :
    (fs gs : List Field) (c : Text)
    → mem_text c (field_names gs (field_names fs [])) ≡ false
    → (lookup c (field_map fs []) ≡ none) × (lookup c (field_map gs []) ≡ none)
fields-unlisted fs gs c h =
    let (right, out) = field_map-unlisted gs [] (field_names fs []) c h in
    let (left, _) = field_map-unlisted fs [] [] c out in (left ∙ lookup-nil c, right ∙ lookup-nil c)

pub models-unlisted :
    (ms ns : List ModelInSource) (t : Text)
    → mem_text t (model_names ns (model_names ms [])) ≡ false
    → (lookup t (model_map ms []) ≡ none) × (lookup t (model_map ns []) ≡ none)
models-unlisted ms ns t h =
    let (right, out) = model_map-unlisted ns [] (model_names ms []) t h in
    let (left, _) = model_map-unlisted ms [] [] t out in (left ∙ lookup-nil t, right ∙ lookup-nil t)

pub nothing : (t : Text) (m : ModelInSource) → lookup t [] ≢ some m
nothing t m e = cc (lookup-nil {V = ModelInSource} t)
