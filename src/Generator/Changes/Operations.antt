-- ===== src/Generator/Changes/Operations.antt =====
-- The operations of `generate_operations`, on a schema, and the models that it says are modified.
use flareon.Base.{
  ◌≡◌, refl, sym, ◌∙◌, ap, subst, List, [], ◌∷◌, ◌++◌, Option, none, some, true, false,
  if◌then◌else◌, Bool-cases, inl, inr, Text, Text-Eq, text_eq, text_eq_iff, text_eq_refl, mem_text,
  lookup, arith,
}
use flareon.Generator.{ModelInSource, DynOperation, create_model, model_eq, fields_eq, fields_eq→eq}
use flareon.Generator.Changes.{
  model_map, model_names, field_map, field_names, make_alter_model_operations, Generated,
  alter_model, alter_models, generate_operations,
}
use flareon.Generator.Changes.Schema.{
  Schema, columns_of, schema_in, schema_of, apply_all, apply_all-append, >>=-eq-some, ModelKeys,
  field_map-FieldKeys, model_map-ModelKeys, nil-FieldKeys, nil-ModelKeys, fields-unlisted,
  models-unlisted,
}
use flareon.Generator.Changes.Diff.{Between, Renews, alter_fields-Renews}

-- The operations make one table new, and leave all others.
record Replaces (table : Text) (new s s' : Schema) : Type 0 where
  here : (c : Text) → s' table c ≡ new table c
  there : (t c : Text) → text_eq table t ≡ false → s' t c ≡ s t c

pub model_eq-fields :
    (a b : ModelInSource)
    → model_eq a.model b.model ≡ true
    → fields_eq a.model.fields b.model.fields ≡ true
unfolding model_eq
model_eq-fields a b h = ground arith

module _ (am mm : List (Text × ModelInSource)) (keys : ModelKeys am) where
  altered-Replaces :
      (name : Text) (a b : ModelInSource) (ops : List DynOperation) (s : Schema)
      → lookup name am ≡ some a
      → lookup name mm ≡ some b
      → Between (schema_in mm name) (schema_in am name) (s name)
      → make_alter_model_operations a b ≡ some ops
      → Replaces name (schema_in am) s (apply_all ops s)
  unfolding make_alter_model_operations
  altered-Replaces name a b ops s ea eb between e =
      let named : a.model.table_name ≡ name = keys name a ea in
      let new_at : (c : Text) → schema_in am name c ≡ lookup c (field_map a.model.fields []) =
        (λ c. ap (λ o. columns_of o c) ea) in
      let old_at : (c : Text) → schema_in mm name c ≡ lookup c (field_map b.model.fields []) =
        (λ c. ap (λ o. columns_of o c) eb) in
      let names = field_names b.model.fields (field_names a.model.fields []) in
      let r : Renews name (λ c. lookup c (field_map a.model.fields [])) names s (apply_all ops s) =
        subst
          (λ t. Renews t (λ c. lookup c (field_map a.model.fields [])) names s (apply_all ops s))
          named
          (alter_fields-Renews a (field_map a.model.fields []) (field_map b.model.fields []) names
            ops s (field_map-FieldKeys a.model.fields [] nil-FieldKeys)
            (subst
              (λ t.
                Between (λ c. lookup c (field_map b.model.fields []))
                  (λ c. lookup c (field_map a.model.fields [])) (s t))
              (sym named)
              (λ c. elim (between c) [ inl o ↦ inl (o ∙ old_at c) | inr o ↦ inr (o ∙ new_at c) ]))
            e) in
      record {
        here = λ c. elim (Bool-cases (mem_text c names)) [
          | inl listed ↦ ground (arith, r.here c, new_at c)
          | inr unlisted ↦
              let (no_new, no_old) = fields-unlisted a.model.fields b.model.fields c unlisted in
              let was : s name c ≡ none = elim (between c) [
                | inl o ↦ o ∙ old_at c ∙ no_old
                | inr o ↦ o ∙ new_at c ∙ no_new
              ] in
              ground (arith, r.here c, new_at c)
        ];
        there = r.there;
      }

  alter_model-Replaces :
      (name : Text) (oa ob : Option ModelInSource) (gen : Generated) (s : Schema)
      → lookup name am ≡ oa
      → lookup name mm ≡ ob
      → Between (schema_in mm name) (schema_in am name) (s name)
      → alter_model oa ob ≡ some gen
      → Replaces name (schema_in am) s (apply_all gen.operations s)
  alter_model-Replaces name (some a) none gen s ea eb between e =
      let is : gen.operations
          ≡ create_model a.model.table_name a.model.resolved_ty a.model.fields ∷ [] =
        ground arith in
      let named = keys name a ea in
      rw is (record {
        here = λ c. ground (arith, ap (λ o. columns_of o c) ea, text_eq_refl name);
        there = λ t c other. ground arith;
      })
  alter_model-Replaces name (some a) (some b) gen s ea eb between e =
      elim (Bool-cases (model_eq a.model b.model)) [
        | inl same ↦
            let is : gen.operations ≡ [] = ground arith in
            let fields = fields_eq→eq a.model.fields b.model.fields (model_eq-fields a b same) in
            rw is (record {
              here = λ c. elim (between c) [
                | inl o ↦
                    o
                    ∙ ap (λ q. columns_of q c) eb
                    ∙ ap (λ fs. lookup c (field_map fs [])) (sym fields)
                    ∙ sym (ap (λ q. columns_of q c) ea)
                | inr o ↦ o
              ];
              there = λ t c other. refl;
            })
        | inr differ ↦
            let (ops, made, is) =
              >>=-eq-some (make_alter_model_operations a b)
                (λ ops. some (record { modified_models = a ∷ []; operations = ops })) gen
                (ground arith) in
            let same : gen.operations ≡ ops = ground arith in
            rw same (altered-Replaces name a b ops s ea eb between made)
      ]
  alter_model-Replaces name none (some b) gen s ea eb between e = cc
  alter_model-Replaces name none none gen s ea eb between e = cc

-- The operations make the listed tables new, and leave all others.
record ReplacesAll (new : Schema) (names : List Text) (s s' : Schema) : Type 0 where
  each : (t c : Text) → s' t c ≡ (if mem_text t names then new t c else s t c)

Replaces-Between :
    (old new : Schema) (name : Text) (s s' : Schema)
    → Replaces name new s s'
    → ((t : Text) → Between (old t) (new t) (s t))
    → (t : Text) → Between (old t) (new t) (s' t)
Replaces-Between old new name s s' r between t c = elim (Bool-cases (text_eq name t)) [
  | inl same ↦ inr (subst (λ x. s' x c ≡ new x c) ((text_eq_iff name t).0 same) (r.here c))
  | inr other ↦ elim (between t c) [
    | inl o ↦ inl (r.there t c other ∙ o)
    | inr o ↦ inr (r.there t c other ∙ o)
  ]
]

Replaces-cons :
    (new : Schema) (name : Text) (names : List Text) (s s' s'' : Schema)
    → Replaces name new s s'
    → ReplacesAll new names s' s''
    → ReplacesAll new (name ∷ names) s s''
Replaces-cons new name names s s' s'' r all = record {
  each = λ t c. elim (Bool-cases (text_eq name t)) [
    | inl same ↦
        let at : s' t c ≡ new t c =
          subst (λ x. s' x c ≡ new x c) ((text_eq_iff name t).0 same) (r.here c) in
        ground (arith, all.each t c)
    | inr other ↦ ground (arith, all.each t c, r.there t c)
  ];
}

alter_models-ReplacesAll :
    (am mm : List (Text × ModelInSource)) (names : List Text) (gen : Generated) (s : Schema)
    → ModelKeys am
    → ((t : Text) → Between (schema_in mm t) (schema_in am t) (s t))
    → alter_models am mm names ≡ some gen
    → ReplacesAll (schema_in am) names s (apply_all gen.operations s)
unfolding alter_models
alter_models-ReplacesAll am mm [] gen s keys between e =
    let is : gen.operations ≡ [] = ground arith in rw is (record { each = λ t c. refl })
alter_models-ReplacesAll am mm (name ∷ names) gen s keys between e =
    let (now, e1, e') = >>=-eq-some (alter_model (lookup name am) (lookup name mm)) _ gen e in
    let (rest, e2, e'') = >>=-eq-some (alter_models am mm names) _ gen e' in
    let is : gen.operations ≡ now.operations ++ rest.operations = ground arith in
    let s' = apply_all now.operations s in
    let first =
      alter_model-Replaces am mm keys name (lookup name am) (lookup name mm) now s refl refl
        (between name) e1 in
    rw (is, apply_all-append now.operations rest.operations s)
      (Replaces-cons (schema_in am) name names s s' (apply_all rest.operations s') first (
        alter_models-ReplacesAll am mm names rest s' keys
          (Replaces-Between (schema_in mm) (schema_in am) name s s' first between) e2))

-- Where `generate_operations` does not run into a `todo!()`, its operations turn the schema of the
-- migrations into that of the application: in every table, every column.
pub generate_operations_lem :
    (app_models migration_models : List ModelInSource) (gen : Generated)
    → generate_operations app_models migration_models ≡ some gen
    → (t c : Text)
    → apply_all gen.operations (schema_of migration_models) t c ≡ schema_of app_models t c
unfolding generate_operations
generate_operations_lem app mig gen e t c =
    let am = model_map app [] in
    let mm = model_map mig [] in
    let names = model_names mig (model_names app []) in
    let r =
      alter_models-ReplacesAll am mm names gen (schema_of mig)
        (model_map-ModelKeys app [] nil-ModelKeys) (λ t' c'. inl refl) e in
    elim (Bool-cases (mem_text t names)) [
      | inl listed ↦ ground (arith, r.each t c)
      | inr unlisted ↦
          let (no_new, no_old) = models-unlisted app mig t unlisted in
          ground
            (arith, r.each t c, ap (λ o. columns_of o c) no_new, ap (λ o. columns_of o c) no_old)
    ]
