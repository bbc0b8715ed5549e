-- ===== src/Generator/Changes/Kept.antt =====
-- What `generate_operations` keeps, and which models it says are modified.
use flareon.Base.{
  ◌≡◌, refl, sym, ap, subst, List, [], ◌∷◌, ◌++◌, Option, none, some, true, false, Bool-cases, inl,
  inr, Text, Text-Eq, text_eq, text_eq_iff, mem_text, lookup, insert, lookup-insert, All,
  Memᴰ-append, arith,
}
use mathlib.Core.List.{Memᴰ}
use flareon.Generator.{
  DynOperation, Field, ModelInSource, application, migration, field_eq→eq, model_eq, fields_eq→eq,
}
use flareon.Generator.Changes.{
  model_map, model_names, field_map, field_names, alter_field, alter_fields,
  make_alter_model_operations, Generated, alter_model, alter_models, generate_operations,
}
use flareon.Generator.Changes.Schema.{
  columns_of, schema_in, schema_of, >>=-eq-some, models-unlisted, fields-unlisted, nothing,
}
use flareon.Generator.Changes.Operations.{model_eq-fields}

alter_fields-keeps :
    (m : ModelInSource) (af mf : List (Text × Field)) (names : List Text) {ops : List DynOperation}
    (c : Text) (f : Field)
    → alter_fields m af mf names ≡ some ops
    → mem_text c names ≡ true
    → lookup c mf ≡ some f
    → lookup c af ≡ some f
unfolding alter_fields
alter_fields-keeps m af mf [] c f e listed at = cc
alter_fields-keeps m af mf (name ∷ names) {ops = ops} c f e listed at =
    let (now, e1, e') = >>=-eq-some (alter_field m (lookup name af) (lookup name mf)) _ ops e in
    let (rest, e2, e'') = >>=-eq-some (alter_fields m af mf names) _ ops e' in
    elim (Bool-cases (text_eq name c)) [
      | inl same ↦
          let is = (text_eq_iff name c).0 same in
          subst (λ n. lookup n af ≡ some f) is
            (kept m (lookup name af) f now (
              subst (λ o. alter_field m (lookup name af) o ≡ some now)
                (subst (λ n. lookup n mf ≡ some f) (sym is) at) e1))
      | inr other ↦ alter_fields-keeps m af mf names c f e2 (ground arith) at
    ]
  where
    kept :
        (m : ModelInSource) (o : Option Field) (g : Field) (ops : List DynOperation)
        → alter_field m o (some g) ≡ some ops
        → o ≡ some g
    kept m none g ops h = cc
    kept m (some a) g ops h = ground (arith, field_eq→eq a g)

alter_model-keeps :
    (a b : Option ModelInSource) (gen : Generated) (c : Text) (f : Field)
    → alter_model a b ≡ some gen
    → columns_of b c ≡ some f
    → columns_of a c ≡ some f
unfolding make_alter_model_operations
alter_model-keeps a none gen c f e at = cc
alter_model-keeps none (some b) gen c f e at = cc
alter_model-keeps (some a) (some b) gen c f e at = elim (Bool-cases (model_eq a.model b.model)) [
  | inl same ↦
      let fields = fields_eq→eq a.model.fields b.model.fields (model_eq-fields a b same) in
      subst (λ fs. lookup c (field_map fs []) ≡ some f) (sym fields) at
  | inr differ ↦
      let (ops, made, is) =
        >>=-eq-some (make_alter_model_operations a b)
          (λ ops. some (record { modified_models = a ∷ []; operations = ops })) gen
          (ground arith) in
      let names = field_names b.model.fields (field_names a.model.fields []) in
      elim (Bool-cases (mem_text c names)) [
        | inl listed ↦
            alter_fields-keeps a (field_map a.model.fields []) (field_map b.model.fields []) names c
              f made listed at
        | inr unlisted ↦
            let (_, no_old) = fields-unlisted a.model.fields b.model.fields c unlisted in
            absurd (cc)
      ]
]

alter_models-keeps :
    (am mm : List (Text × ModelInSource)) (names : List Text) (gen : Generated) (t c : Text)
    (f : Field)
    → alter_models am mm names ≡ some gen
    → mem_text t names ≡ true
    → schema_in mm t c ≡ some f
    → schema_in am t c ≡ some f
unfolding alter_models
alter_models-keeps am mm [] gen t c f e listed at = cc
alter_models-keeps am mm (name ∷ names) gen t c f e listed at =
    let (now, e1, e') = >>=-eq-some (alter_model (lookup name am) (lookup name mm)) _ gen e in
    let (rest, e2, e'') = >>=-eq-some (alter_models am mm names) _ gen e' in
    elim (Bool-cases (text_eq name t)) [
      | inl same ↦
          let is = (text_eq_iff name t).0 same in
          subst (λ x. schema_in am x c ≡ some f) is
            (alter_model-keeps (lookup name am) (lookup name mm) now c f e1
              (subst (λ x. schema_in mm x c ≡ some f) (sym is) at))
      | inr other ↦ alter_models-keeps am mm names rest t c f e2 (ground arith) at
    ]

-- Where `generate_operations` does not run into a `todo!()`, every column of the migrations is a
-- column of the application, with the same field: none is removed or altered.
pub generate_operations-keeps :
    (app_models migration_models : List ModelInSource) (gen : Generated) (t c : Text) (f : Field)
    → generate_operations app_models migration_models ≡ some gen
    → schema_of migration_models t c ≡ some f
    → schema_of app_models t c ≡ some f
unfolding generate_operations
generate_operations-keeps app mig gen t c f e at =
    elim (Bool-cases (mem_text t (model_names mig (model_names app [])))) [
      | inl listed ↦
          alter_models-keeps (model_map app []) (model_map mig []) _ gen t c f e listed at
      | inr unlisted ↦
          let (_, no_old) = models-unlisted app mig t unlisted in
          absurd (cc (ap (λ o. columns_of o c) no_old))
    ]

-- The models of the two sources are of different types.
abbrev pub Apart : List (Text × ModelInSource) → List (Text × ModelInSource) → Type 0
Apart am mm =
    (t : Text) (a b : ModelInSource)
    → lookup t am ≡ some a
    → lookup t mm ≡ some b
    → (a.model.model_type ≡ application) × (b.model.model_type ≡ migration)

alter_model-modified :
    (a : ModelInSource) (b : Option ModelInSource) (gen : Generated)
    → ((n : ModelInSource)
        → b ≡ some n
        → (a.model.model_type ≡ application) × (n.model.model_type ≡ migration))
    → alter_model (some a) b ≡ some gen
    → gen.modified_models ≡ a ∷ []
unfolding model_eq
alter_model-modified a none gen apart e = ground arith
alter_model-modified a (some b) gen apart e =
    let (ta, tb) = apart b refl in
    let differ : model_eq a.model b.model ≡ false = ground arith in
    let (ops, made, is) =
      >>=-eq-some (make_alter_model_operations a b)
        (λ ops. some (record { modified_models = a ∷ []; operations = ops })) gen (ground arith) in
    ground arith

alter_models-modified :
    (am mm : List (Text × ModelInSource)) (names : List Text) (gen : Generated) (t : Text)
    (a : ModelInSource)
    → Apart am mm
    → alter_models am mm names ≡ some gen
    → mem_text t names ≡ true
    → lookup t am ≡ some a
    → Memᴰ a gen.modified_models
unfolding alter_models
alter_models-modified am mm [] gen t a apart e listed at = cc
alter_models-modified am mm (name ∷ names) gen t a apart e listed at =
    let (now, e1, e') = >>=-eq-some (alter_model (lookup name am) (lookup name mm)) _ gen e in
    let (rest, e2, e'') = >>=-eq-some (alter_models am mm names) _ gen e' in
    let is : gen.modified_models ≡ now.modified_models ++ rest.modified_models = ground arith in
    rw is (
      Memᴰ-append a now.modified_models rest.modified_models (elim (Bool-cases (text_eq name t)) [
        | inl same ↦
            let here = subst (λ x. lookup x am ≡ some a) (sym ((text_eq_iff name t).0 same)) at in
            let only =
              alter_model-modified a (lookup name mm) now (λ n found. apart name a n here found)
                (subst (λ o. alter_model o (lookup name mm) ≡ some now) here e1) in
            inl (rw only (Memᴰ.head refl))
        | inr other ↦ inr (alter_models-modified am mm names rest t a apart e2 (ground arith) at)
      ]))

model_map-All :
    (P : ModelInSource → Type 0) (ms : List ModelInSource) (map : List (Text × ModelInSource))
    → All P ms
    → ((t : Text) (m : ModelInSource) → lookup t map ≡ some m → P m)
    → (t : Text) (m : ModelInSource) → lookup t (model_map ms map) ≡ some m
    → P m
unfolding model_map
model_map-All P [] map all old t m e = old t m e
model_map-All P (n ∷ ms) map all old t m e =
    model_map-All P ms (insert n.model.table_name n map) all.1
      (λ u k found. elim (Bool-cases (text_eq n.model.table_name u)) [
        | inl same ↦
            let is : n ≡ k = ground (arith, lookup-insert n.model.table_name u n map) in
            subst P is all.0
        | inr other ↦ old u k (ground (arith, lookup-insert n.model.table_name u n map))
      ])
      t m e

-- Every model of the application is returned as modified, whether it differs from that of the
-- migrations or not: the models that are compared are of different types.
pub generate_operations-modified :
    (app_models migration_models : List ModelInSource) (gen : Generated) (t : Text)
    (a : ModelInSource)
    → All (λ m. m.model.model_type ≡ application) app_models
    → All (λ m. m.model.model_type ≡ migration) migration_models
    → generate_operations app_models migration_models ≡ some gen
    → lookup t (model_map app_models []) ≡ some a
    → Memᴰ a gen.modified_models
unfolding generate_operations
generate_operations-modified app mig gen t a of_app of_mig e at =
    elim (Bool-cases (mem_text t (model_names mig (model_names app [])))) [
      | inl listed ↦
          alter_models-modified (model_map app []) (model_map mig []) _ gen t a
            (λ u x y here there. (
              model_map-All (λ m. m.model.model_type ≡ application) app [] of_app
                  (λ v m f. absurd (nothing v m f)) u x here,
              model_map-All (λ m. m.model.model_type ≡ migration) mig [] of_mig
                  (λ v m f. absurd (nothing v m f)) u y there,
            ))
            e listed at
      | inr unlisted ↦ let (no_new, _) = models-unlisted app mig t unlisted in absurd (cc)
    ]
