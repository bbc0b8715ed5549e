-- ===== src/Project/Startup.antt =====
-- Before a server starts, cot/src/project.rs: the migrations of all apps, and then their `init`.
use flareon.Base.{
  ℕ, zero, suc, ◌<◌, List, [], ◌∷◌, Option, none, some, All, All-left, All-right, length, get_elem?,
  get_elem?-lt_length, ◌≡◌, refl, sym, ap, subst, ◌∙◌, arith,
}
use mathlib.Core.List.{Permᴰ}
use flareon.Permutation.Sorted.{gather-eq}
use flareon.Permutation.Onto.{IsPermutation-onto}
use flareon.Migrations.{Migration}
use flareon.Migrations.Engine.{DbResult, ok, error, Database, run}
use flareon.Migrations.Engine.Runs.{KeepsRows, IsDone, Returns}
use flareon.Migrations.Sorter.{Result}
use flareon.Migrations.Sorter.Order.{IsSorted}
use flareon.Migrations.Startup.{MigrationEngine, new_engine, new_engine-run}
use flareon.Project.{
  Parts, BootResult, booted, failed, panicked, initialized, ProjectContext, Bootstrapper,
}
use flareon.Project.Results.{booted_injective}
use flareon.Project.Server.{
  and_then, from_db_result, all_migrations, run_engine, migrate, Init, init_apps, start,
}

All-get_elem? :
    {A : Type 0} (P : A → Type 0) (xs : List A) (k : ℕ) {a : A}
    → All P xs
    → get_elem? xs k ≡ some a
    → P a
All-get_elem? P [] k h e = absurd (cc)
All-get_elem? P (x ∷ xs) zero {a} (p, h) e = let same : x ≡ a = cc in subst P same p
All-get_elem? P (x ∷ xs) (suc k) (p, h) e = All-get_elem? P xs k h e

All-of_get_elem? :
    {A : Type 0} (P : A → Type 0) (xs : List A)
    → ((k : ℕ) (a : A) → get_elem? xs k ≡ some a → P a)
    → All P xs
All-of_get_elem? P [] h = tt
All-of_get_elem? P (x ∷ xs) h = (h 0 x refl, All-of_get_elem? P xs (λ k a e. h (suc k) a e))

All-of_perm : {A : Type 0} (P : A → Type 0) (xs ys : List A) → Permᴰ xs ys → All P ys → All P xs
All-of_perm P xs ys Permᴰ.nil h = tt
All-of_perm P (x ∷ xs) (y ∷ ys) (Permᴰ.cons e p) (h, hs) =
    (subst P (sym e) h, All-of_perm P xs ys p hs)
All-of_perm P (a ∷ b ∷ xs) (b' ∷ a' ∷ ys) (Permᴰ.swap e f) (h, (k, hs)) =
    (subst P (sym e) k, (subst P (sym f) h, hs))
All-of_perm P xs zs (Permᴰ.trans {l₂ = ys} p q) h = All-of_perm P xs ys p (All-of_perm P ys zs q h)

-- What holds of all sorted migrations holds of all that were sorted.
All-of_IsSorted :
    (P : Migration → Type 0) (ms out : List Migration) → IsSorted ms out → All P out → All P ms
All-of_IsSorted P ms out s h = All-of_get_elem? P ms (λ r m at.
    let (k, from) =
      IsPermutation-onto (length ms) s.order r s.permutes (get_elem?-lt_length ms r at) in
    let k_in : k < length ms = omega (arith, get_elem?-lt_length s.order k from, s.permutes.size) in
    All-get_elem? P out k h (s.moved k k_in ∙ gather-eq ms s.order k r from ∙ at))

-- The apps are initialised one after another, each from the context and the state that the one
-- before it has left.
pub data Initialises (parts : Parts) {T : Type 0} (db : Database T) (init : Init parts db)
    : List parts.App
      → ProjectContext parts initialized
      → db.State
      → ProjectContext parts initialized
      → db.State
      → Type 0 where
  no_apps :
      {context : ProjectContext parts initialized} {s : db.State}
      → Initialises parts db init [] context s context s
  then_app :
      {app : parts.App} {apps : List parts.App} {c c' c'' : ProjectContext parts initialized}
      {s s' s'' : db.State}
      → init app c s ≡ (booted c', s')
      → Initialises parts db init apps c' s' c'' s''
      → Initialises parts db init (app ∷ apps) c s c'' s''

and_then-booted :
    {A B S : Type 0} (r : BootResult A × S) (k : A → S → BootResult B × S) {b : B} {s' : S}
    → and_then r k ≡ (booted b, s')
    → (a : A) × (s : S) × (r ≡ (booted a, s)) × (k a s ≡ (booted b, s'))
and_then-booted (booted a, s) k e = (a, s, refl, e)
and_then-booted (failed x, s) k e = absurd (cc)
and_then-booted (panicked, s) k e = absurd (cc)

module _ (parts : Parts) {T : Type 0} (db : Database T) (rows : KeepsRows db) where
  -- With a database, all migrations of all apps are done; without one, nothing has changed.
  abbrev pub Migrated : Option parts.Database → List parts.App → db.State → db.State → Type 0
  Migrated none apps s s₁ = s ≡ s₁
  Migrated (some d) apps s s₁ = All (λ app. All (IsDone db rows s₁) (parts.app_migrations app)) apps

  each_app :
      (apps : List parts.App) (s₁ : db.State)
      → All (IsDone db rows s₁) (all_migrations parts db apps)
      → All (λ app. All (IsDone db rows s₁) (parts.app_migrations app)) apps
  each_app [] s₁ h = tt
  each_app (app ∷ apps) s₁ h =
      let ms = parts.app_migrations app in
      (
        All-left (IsDone db rows s₁) ms (all_migrations parts db apps) h,
        each_app apps s₁ (All-right (IsDone db rows s₁) ms (all_migrations parts db apps) h),
      )

  from_db_result-booted :
      (r : DbResult (Unit {0}) × db.State) (s₁ : db.State)
      → ◌≡◌ {A = BootResult (Unit {0}) × db.State} (from_db_result r.0, r.1) (booted tt, s₁)
      → Returns r s₁
  from_db_result-booted (ok u, s) s₁ e = ap (λ q. (ok u, q.1)) e
  from_db_result-booted (error, s) s₁ e = absurd (cc)

  run_engine-IsDone :
      (o : Result MigrationEngine) (ms : List Migration) (s s₁ : db.State)
      → new_engine ms ≡ o
      → run_engine parts db o s ≡ (booted tt, s₁)
      → All (IsDone db rows s₁) ms
  run_engine-IsDone (Result.ok engine) ms s s₁ made e =
      let returned = from_db_result-booted (run db engine.migrations s) s₁ e in
      let (named, moved, sorted, done) = new_engine-run db rows ms engine s s₁ made returned in
      All-of_perm (IsDone db rows s₁) ms named moved
        (All-of_IsSorted (IsDone db rows s₁) named engine.migrations sorted done)
  run_engine-IsDone (Result.err x) ms s s₁ made e = absurd (cc)
  run_engine-IsDone Result.panicked ms s s₁ made e = absurd (cc)

  migrate-Migrated :
      (database : Option parts.Database) (apps : List parts.App) (s s₁ : db.State)
      → migrate parts db database apps s ≡ (booted tt, s₁)
      → Migrated database apps s s₁
  unfolding migrate
  migrate-Migrated none apps s s₁ e = ap (λ q. q.1) e
  migrate-Migrated (some d) apps s s₁ e =
      each_app apps s₁ (run_engine-IsDone (new_engine (all_migrations parts db apps)) _ s s₁ refl e)

  init_apps-Initialises :
      (init : Init parts db) (apps : List parts.App) (c c' : ProjectContext parts initialized)
      (s s' : db.State)
      → init_apps parts db init apps c s ≡ (booted c', s')
      → Initialises parts db init apps c s c' s'
  unfolding init_apps
  init_apps-Initialises init [] c c' s s' e =
      let (same, at) = booted_injective c c' s s' e in
      subst (λ x. Initialises parts db init [] c s x s') same
        (subst (λ t. Initialises parts db init [] c s c t) at no_apps)
  init_apps-Initialises init (app ∷ apps) c c' s s' e =
      let (c₁, s₁, first, rest) = and_then-booted (init app c s) (init_apps parts db init apps) e in
      then_app first (init_apps-Initialises init apps c₁ c' s₁ s' rest)

  -- Where the server is about to start, there was a state, reached before any app was initialised, in
  -- which all migrations of all apps were done, those that have an operation being recorded as
  -- applied, or which was the first state if there is no database; from there the apps were initialised in
  -- their order, with a context that shows no apps at first; and the context of the requests is the
  -- one that the last of them left, with all apps.
  pub start-Migrated :
      (init : Init parts db) (b : Bootstrapper parts initialized)
      (c : ProjectContext parts initialized) (s s' : db.State)
      → start parts db init b s ≡ (booted c, s')
      → (s₁ : db.State) × (c₀ : ProjectContext parts initialized) × Migrated b.context.database
          b.context.apps s s₁
        × Initialises parts db init b.context.apps (record (b.context) { apps = [] }) s₁ c₀ s'
        × (c ≡ record c₀ { apps = b.context.apps })
  unfolding start
  start-Migrated init b c s s' e =
      let (u, s₁, migrated, e₁) =
        and_then-booted (migrate parts db b.context.database b.context.apps s) _ e in
      let (c₀, s₂, inits, e₂) =
        and_then-booted
          (init_apps parts db init b.context.apps (record (b.context) { apps = [] }) s₁) _ e₁ in
      let (made, at) = booted_injective (record c₀ { apps = b.context.apps }) c s₂ s' e₂ in
      (
        s₁,
        c₀,
        migrate-Migrated b.context.database b.context.apps s s₁ migrated,
        subst (Initialises parts db init b.context.apps (record (b.context) { apps = [] }) s₁ c₀) at
            (init_apps-Initialises init b.context.apps (record (b.context) { apps = [] }) c₀ s₁ s₂
              inits),
        sym made,
      )
