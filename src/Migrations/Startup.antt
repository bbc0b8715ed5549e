-- ===== src/Migrations/Startup.antt =====
-- `MigrationEngine::new` and then `run`: what a program does with the migrations of its apps.
use flareon.Base.{◌≡◌, ap, subst, List, All}
use mathlib.Core.List.{Permᴰ}
use flareon.Migrations.{Migration}
use flareon.Migrations.Engine.{Database, run}
use flareon.Migrations.Engine.Runs.{Returns, KeepsRows, IsDone, run-IsDone}
use flareon.Migrations.Sorter.{Result, ok, err, panicked, ◌>>=◌, sort}
use flareon.Migrations.Sorter.Order.{IsSorted}
use flareon.Migrations.Sorter.Names.{sort_lem}
use flareon.Migrations.Sorter.Outcomes.{Sorts}

pub record MigrationEngine : Type 0 where
  pub migrations : List Migration

unfoldable pub sort_migrations : List Migration → Result (List Migration)
sort_migrations ms = sort ms

unfoldable pub new_engine : List Migration → Result MigrationEngine
unfolding sort_migrations
new_engine ms = do migrations ← sort_migrations ms; ok (record { migrations = migrations })

-- The migrations of an engine are those that it was made of, in an order in which a provider of
-- each dependency stands before the migration that has it; after a run of the engine that returns,
-- over a database that finds and keeps its rows, each that has an operation is recorded as applied.
pub new_engine-run :
    {T : Type 0} (db : Database T) (rows : KeepsRows db) (ms : List Migration) (e : MigrationEngine)
    (s s' : db.State)
    → new_engine ms ≡ ok e
    → Returns (run db e.migrations s) s'
    → (named : List Migration) × Permᴰ ms named
      × IsSorted named e.migrations
      × All (IsDone db rows s') e.migrations
unfolding new_engine sort_migrations
new_engine-run db rows ms e s s' made r =
    let (named, moved, _, sorted) = sort_lem ms in
    (named, moved, of_sort named (sort ms) sorted made, run-IsDone db rows e.migrations s s' r)
  where
    of_sort :
        (named : List Migration) (o : Result (List Migration))
        → Sorts named o
        → (o >>= λ migrations. ok (record { migrations = migrations })) ≡ ok e
        → IsSorted named e.migrations
    of_sort named (ok out) sorted q =
        subst (IsSorted named)
          (ap (λ o. elim o [ ok e' ↦ e'.migrations | err _ ↦ out | panicked ↦ out ]) q) sorted
    of_sort named (err x) sorted q = cc
    of_sort named panicked sorted q = cc
