-- ===== src/Generator/Changes/Diff.antt =====
-- The operations that alter one model, on the table of the model.
use flareon.Base.{
  ◌≡◌, refl, sym, ◌∙◌, ap, subst, List, [], ◌∷◌, ◌++◌, Option, none, some, false, if◌then◌else◌,
  Bool-cases, ◌⊎◌, inl, inr, Text, Text-Eq, text_eq, text_eq_iff, text_eq_refl, mem_text, lookup,
  arith,
}
use flareon.Generator.{Field, ModelInSource, DynOperation, add_field, field_eq, field_eq→eq}
use flareon.Generator.Changes.{alter_field, alter_fields}
use flareon.Generator.Changes.Schema.{Schema, apply_all, apply_all-append, >>=-eq-some, FieldKeys}

-- Each column is that of one of two schemas.
abbrev pub Between : (Text → Option Field) → (Text → Option Field) → (Text → Option Field) → Type 0
Between old new now = (c : Text) → (now c ≡ old c) ⊎ (now c ≡ new c)

-- The operations make the listed columns of the table new, and leave all others.
pub record Renews (table : Text) (new : Text → Option Field) (names : List Text) (s s' : Schema)
    : Type 0 where
  pub here : (c : Text) → s' table c ≡ (if mem_text c names then new c else s table c)
  pub there : (t c : Text) → text_eq table t ≡ false → s' t c ≡ s t c

module _ (m : ModelInSource) (app_fields migration_fields : List (Text × Field))
    (keys : FieldKeys app_fields) where
  abbrev new : Text → Option Field
  new c = lookup c app_fields

  abbrev old : Text → Option Field
  old c = lookup c migration_fields

  alter_field-Renews :
      (name : Text) (a b : Option Field) (ops : List DynOperation) (s : Schema)
      → new name ≡ a
      → old name ≡ b
      → Between old new (s m.model.table_name)
      → alter_field m a b ≡ some ops
      → Renews m.model.table_name new (name ∷ []) s (apply_all ops s)
  alter_field-Renews name (some a) none ops s ea eb between e =
      let is : ops ≡ add_field m.model.table_name m.model.resolved_ty a ∷ [] = cc in
      rw is (record {
        here = λ c. ground (
          arith,
          text_eq_refl m.model.table_name,
          keys name a ea,
          text_eq_iff name c,
          text_eq_iff a.column_name c,
        );
        there = λ t c other. rw other refl;
      })
  alter_field-Renews name (some a) (some b) ops s ea eb between e =
      elim (Bool-cases (field_eq a b)) [
        | inl same ↦
            let is : ops ≡ [] = ground arith in
            let equal = field_eq→eq a b same in
            rw is (record {
              here = λ c. elim (Bool-cases (text_eq name c)) [
                | inl n ↦
                    let now : s m.model.table_name name ≡ new name = elim (between name) [
                      | inl o ↦ o ∙ eb ∙ ap some (sym equal) ∙ sym ea
                      | inr o ↦ o
                    ] in
                    rw n
                      (subst (λ x. s m.model.table_name x ≡ new x) ((text_eq_iff name c).0 n) now)
                | inr n ↦ rw n refl
              ];
              there = λ t c other. refl;
            })
        | inr differ ↦ absurd (ground arith)
      ]
  alter_field-Renews name none (some b) ops s ea eb between e = cc
  alter_field-Renews name none none ops s ea eb between e = cc

Renews-cons :
    (table : Text) (new : Text → Option Field) (name : Text) (names : List Text) (s s' s'' : Schema)
    → Renews table new (name ∷ []) s s'
    → Renews table new names s' s''
    → Renews table new (name ∷ names) s s''
Renews-cons table new name names s s' s'' first later = record {
  here = λ c. ground (arith, first.here c, later.here c);
  there = λ t c other. later.there t c other ∙ first.there t c other;
}

Renews-Between :
    (table : Text) (old new : Text → Option Field) (names : List Text) (s s' : Schema)
    → Renews table new names s s'
    → Between old new (s table)
    → Between old new (s' table)
Renews-Between table old new names s s' r between c = elim (Bool-cases (mem_text c names)) [
  | inl listed ↦ inr (ground (arith, r.here c))
  | inr unlisted ↦
      let same : s' table c ≡ s table c = ground (arith, r.here c) in
      elim (between c) [ inl o ↦ inl (same ∙ o) | inr o ↦ inr (same ∙ o) ]
]

pub alter_fields-Renews :
    (m : ModelInSource) (app_fields migration_fields : List (Text × Field)) (names : List Text)
    (ops : List DynOperation) (s : Schema)
    → FieldKeys app_fields
    → Between (λ c. lookup c migration_fields) (λ c. lookup c app_fields) (s m.model.table_name)
    → alter_fields m app_fields migration_fields names ≡ some ops
    → Renews m.model.table_name (λ c. lookup c app_fields) names s (apply_all ops s)
unfolding alter_fields
alter_fields-Renews m af mf [] ops s keys between e =
    let is : ops ≡ [] = cc in rw is (record { here = λ c. refl; there = λ t c other. refl })
alter_fields-Renews m af mf (name ∷ names) ops s keys between e =
    let (now, e1, e') = >>=-eq-some (alter_field m (lookup name af) (lookup name mf)) _ ops e in
    let (rest, e2, e'') = >>=-eq-some (alter_fields m af mf names) _ ops e' in
    let is : ops ≡ now ++ rest = cc in
    let first =
      alter_field-Renews m af mf keys name (lookup name af) (lookup name mf) now s refl refl between
        e1 in
    let between' =
      Renews-Between m.model.table_name (λ c. lookup c mf) (λ c. lookup c af) (name ∷ []) s
        (apply_all now s) first between in
    rw (is, apply_all-append now rest s)
      (Renews-cons m.model.table_name (λ c. lookup c af) name names s (apply_all now s)
        (apply_all rest (apply_all now s)) first
        (alter_fields-Renews m af mf names rest (apply_all now s) keys between' e2))
