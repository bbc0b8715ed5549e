-- ===== src/Migrations/Engine/Runs.antt =====
-- What a run of the engine leaves in the database.
use flareon.Base.{
  ◌≡◌, refl, sym, ◌∙◌, ap, subst, List, [], ◌∷◌, Bool, true, false, Text, All, ◌⊎◌, inl, inr,
}
use flareon.Migrations.{Operation, Migration}
use flareon.Migrations.Schema.{forwards_statement}
use flareon.Migrations.Engine.{
  DbResult, ok, error, Database, then_run, forwards, create_applied_migrations_migration,
  is_migration_applied, mark_migration_applied, run_operations, run_migrations, run,
}

abbrev pub Returns : {S : Type 0} → DbResult (Unit {0}) × S → S → Type 0
Returns r s' = r ≡ (ok tt, s')

-- What the engine relies on of SQL: an inserted row is found, and neither another insert nor a
-- statement that creates a table or adds a column takes a row away.
pub record KeepsRows {T : Type 0} (db : Database T) : Type 0 where
  pub inserted :
      (app name : Text) (s s' : db.State)
      → Returns (db.insert_applied app name s) s'
      → db.exists_applied app name s' ≡ ok true
  pub insert_keeps :
      (app name other other_name : Text) (s s' : db.State)
      → Returns (db.insert_applied app name s) s'
      → db.exists_applied other other_name s ≡ ok true
      → db.exists_applied other other_name s' ≡ ok true
  pub schema_keeps :
      (op : Operation) (other other_name : Text) (s s' : db.State)
      → Returns (db.execute_schema (forwards_statement db.mapper op) s) s'
      → db.exists_applied other other_name s ≡ ok true
      → db.exists_applied other other_name s' ≡ ok true

then_run-Returns :
    {S : Type 0} (r : DbResult (Unit {0}) × S) (k : S → DbResult (Unit {0}) × S) (s' : S)
    → Returns (then_run r k) s'
    → (t : S) × Returns r t × Returns (k t) s'
then_run-Returns (ok u, t) k s' e = (t, refl, e)
then_run-Returns (error, t) k s' e = cc

then_run-eq :
    {S : Type 0} (r : DbResult (Unit {0}) × S) (k j : S → DbResult (Unit {0}) × S)
    → ((t : S) → Returns r t → k t ≡ j t)
    → then_run r k ≡ then_run r j
then_run-eq (ok u, t) k j h = h t refl
then_run-eq (error, t) k j h = refl

module _ {T : Type 0} (db : Database T) (rows : KeepsRows db) where
  -- The operations of an applied migration are skipped.
  run_operations_of_applied :
      (m : Migration) (ops : List Operation) (s : db.State)
      → is_migration_applied db m s ≡ ok true
      → run_operations db m ops s ≡ (ok tt, s)
  unfolding run_operations
  run_operations_of_applied m [] s e = refl
  run_operations_of_applied m (op ∷ ops) s e =
      rw (e, run_operations) (run_operations_of_applied m ops s e)

  mark-applied :
      (m : Migration) (s s' : db.State)
      → Returns (mark_migration_applied db m s) s'
      → is_migration_applied db m s' ≡ ok true
  unfolding mark_migration_applied is_migration_applied
  mark-applied m s s' e = rows.inserted m.app_name m.name s s' e

  -- Of a migration that is not applied yet, only the first operation runs: whatever operations
  -- follow it, the run is the same as without them.
  pub run_operations-first_only :
      (m : Migration) (op : Operation) (ops : List Operation) (s : db.State)
      → is_migration_applied db m s ≡ ok false
      → run_operations db m (op ∷ ops) s ≡ run_operations db m (op ∷ []) s
  unfolding run_operations
  run_operations-first_only m op ops s e =
      rw (e, run_operations)
        (then_run-eq (forwards db op s) _ _ λ t _.
          then_run-eq (mark_migration_applied db m t) _ _
            λ t' marked. run_operations_of_applied m ops t' (mark-applied m t t' marked))

  same-state :
      (m : Migration) (ops : List Operation) (s s' : db.State)
      → is_migration_applied db m s ≡ ok true
      → Returns (run_operations db m ops s) s'
      → s ≡ s'
  same-state m ops s s' e r = ap (λ q. q.1) (sym (run_operations_of_applied m ops s e) ∙ r)

  -- A run over operations that returns either skipped them, or ran the first and marked.
  RanFirst : Migration → Operation → db.State → db.State → Type 0
  RanFirst m op s s' =
      (t : db.State) × Returns (forwards db op s) t × Returns (mark_migration_applied db m t) s'

  run_operations-cases :
      (m : Migration) (op : Operation) (ops : List Operation) (s s' : db.State)
      → Returns (run_operations db m (op ∷ ops) s) s'
      → ((is_migration_applied db m s ≡ ok true) × (s ≡ s')) ⊎ RanFirst m op s s'
  unfolding run_operations RanFirst
  run_operations-cases m op ops s s' r = split (is_migration_applied db m s) refl
    where
      split :
          (b : DbResult Bool)
          → is_migration_applied db m s ≡ b
          → ((is_migration_applied db m s ≡ ok true) × (s ≡ s')) ⊎ RanFirst m op s s'
      split error at =
          let stopped : ◌≡◌ {A = DbResult (Unit {0}) × db.State} (error, s) (ok tt, s') =
            rw (run_operations, at) at r in
          let impossible = ap (λ q. q.0) stopped in cc
      split (ok true) at = inl (at, same-state m (op ∷ ops) s s' at r)
      split (ok false) at =
          let (t, ran, r') =
            then_run-Returns (forwards db op s) _ s' (rw (run_operations, at) at r) in
          let (t', marked, r'') = then_run-Returns (mark_migration_applied db m t) _ s' r' in
          let ended = same-state m ops t' s' (mark-applied m t t' marked) r'' in
          inr (t, ran, subst (Returns (mark_migration_applied db m t)) ended marked)

  -- An applied migration stays applied.
  run_operations-keeps :
      (m : Migration) (ops : List Operation) (app name : Text) (s s' : db.State)
      → Returns (run_operations db m ops s) s'
      → db.exists_applied app name s ≡ ok true
      → db.exists_applied app name s' ≡ ok true
  unfolding run_operations RanFirst forwards mark_migration_applied
  run_operations-keeps m [] app name s s' r e =
      let same : s ≡ s' = ap (λ q. q.1) r in
      subst (λ t. db.exists_applied app name t ≡ ok true) same e
  run_operations-keeps m (op ∷ ops) app name s s' r e =
      elim (run_operations-cases m op ops s s' r) [
        | inl (_, same) ↦ subst (λ t. db.exists_applied app name t ≡ ok true) same e
        | inr (t, ran, marked) ↦
            rows.insert_keeps m.app_name m.name app name t s' marked
              (rows.schema_keeps op app name s t ran e)
      ]

  run_migrations-keeps :
      (ms : List Migration) (app name : Text) (s s' : db.State)
      → Returns (run_migrations db ms s) s'
      → db.exists_applied app name s ≡ ok true
      → db.exists_applied app name s' ≡ ok true
  unfolding run_migrations
  run_migrations-keeps [] app name s s' r e =
      let same : s ≡ s' = ap (λ q. q.1) r in
      subst (λ t. db.exists_applied app name t ≡ ok true) same e
  run_migrations-keeps (m ∷ ms) app name s s' r e =
      let (t, ran, r') = then_run-Returns (run_operations db m m.operations s) _ s' r in
      run_migrations-keeps ms app name t s' r'
        (run_operations-keeps m m.operations app name s t ran e)

  -- A migration is done if it has no operation or is applied.
  abbrev pub IsDone : db.State → Migration → Type 0
  IsDone s m = (m.operations ≡ []) ⊎ (is_migration_applied db m s ≡ ok true)

  run_operations-IsDone :
      (m : Migration) (ops : List Operation) (s s' : db.State)
      → Returns (run_operations db m ops s) s'
      → (ops ≡ []) ⊎ (is_migration_applied db m s' ≡ ok true)
  unfolding RanFirst
  run_operations-IsDone m [] s s' r = inl refl
  run_operations-IsDone m (op ∷ ops) s s' r = elim (run_operations-cases m op ops s s' r) [
    | inl (applied, same) ↦ inr (subst (λ t. is_migration_applied db m t ≡ ok true) same applied)
    | inr (t, ran, marked) ↦ inr (mark-applied m t s' marked)
  ]

  run_migrations-IsDone :
      (ms : List Migration) (s s' : db.State)
      → Returns (run_migrations db ms s) s'
      → All (IsDone s') ms
  unfolding run_migrations is_migration_applied
  run_migrations-IsDone [] s s' r = tt
  run_migrations-IsDone (m ∷ ms) s s' r =
      let (t, ran, r') = then_run-Returns (run_operations db m m.operations s) _ s' r in
      (
        elim (run_operations-IsDone m m.operations s t ran) [
          | inl none ↦ inl none
          | inr applied ↦ inr (run_migrations-keeps ms m.app_name m.name t s' r' applied)
        ],
        run_migrations-IsDone ms t s' r',
      )

  run_migrations_of_IsDone :
      (ms : List Migration) (s : db.State) → All (IsDone s) ms → Returns (run_migrations db ms s) s
  unfolding run_migrations run_operations
  run_migrations_of_IsDone [] s d = refl
  run_migrations_of_IsDone (m ∷ ms) s (d, ds) =
      let skipped : Returns (run_operations db m m.operations s) s = elim d [
        | inl none ↦ ap (λ ops. run_operations db m ops s) none
        | inr applied ↦ run_operations_of_applied m m.operations s applied
      ] in
      ap (λ q. then_run q (run_migrations db ms)) skipped ∙ run_migrations_of_IsDone ms s ds

  -- After a run that returns, every migration with an operation is recorded as applied.
  pub run-IsDone :
      (ms : List Migration) (s s' : db.State) → Returns (run db ms s) s' → All (IsDone s') ms
  unfolding run
  run-IsDone ms s s' r =
      let (t, created, r') =
        then_run-Returns (forwards db create_applied_migrations_migration s) _ s' r in
      run_migrations-IsDone ms t s' r'

  -- After a run that returns, a second run does nothing but create the table of applied migrations
  -- if it does not exist.
  pub run_again :
      (ms : List Migration) (s s' t : db.State)
      → Returns (run db ms s) s'
      → Returns (forwards db create_applied_migrations_migration s') t
      → Returns (run db ms s') t
  unfolding run forwards is_migration_applied
  run_again ms s s' t r created =
      ap (λ q. then_run q (run_migrations db ms)) created
      ∙ run_migrations_of_IsDone ms t (moved ms (run-IsDone ms s s' r))
    where
      moved : (ns : List Migration) → All (IsDone s') ns → All (IsDone t) ns
      moved [] h = tt
      moved (n ∷ ns) (inl none, hs) = (inl none, moved ns hs)
      moved (n ∷ ns) (inr applied, hs) = (
        inr (
            rows.schema_keeps create_applied_migrations_migration n.app_name n.name s' t created
              applied),
        moved ns hs,
      )
