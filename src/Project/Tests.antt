-- ===== src/Project/Tests.antt =====
-- A project of two apps, one of them with views, and instances of the theorems.
use flareon.Base.{
  ℕ, zero, suc, List, [], ◌∷◌, Option, none, some, Text, codes, true, false, ◌≡◌, refl, ◌↔◌,
}
use flareon.Matcher.{literal}
use flareon.Matcher.Unicode.{ascii, trim}
use flareon.Matcher.Slices.{byte_slice}
use flareon.Matcher.Pattern.{new, is_param_name_valid}
use flareon.Router.{Router, router, Routes, no_routes, route, handler, with_urls}
use flareon.Router.Flat.{flatten, serve}
use flareon.Router.Named.{BuiltRouter, built, no_more, to_handler}
use flareon.Migrations.{Migration}
use flareon.Migrations.Tests.{Log, log_database, log_database-KeepsRows, initial, second, fresh}
use flareon.Graph.{toposort, add_edge}
use flareon.Permutation.{apply_permutation}
use flareon.Migrations.Engine.{run, forwards, is_migration_applied, mark_migration_applied}
use flareon.Router.Route.{with_router}
use flareon.Migrations.Sorter.{sort}
use flareon.Migrations.Startup.{new_engine}
use flareon.Base.{lookup, insert}
use flareon.ErrorPage.{RequestData, PanicCells, str}
use flareon.ErrorPage.Tests.{broken}
use flareon.Project.{
  ProjectConfig, Parts, BootResult, booted, with_config, initialized, ProjectContext, register_call,
  register_with_views_call, Project, Bootstrapper,
}
use flareon.Project.Boot.{
  boot, boot_with_apps, bootstrapper_with_config, with_config_name, register_all,
}
use flareon.Project.Boot as Boot
use flareon.Project.Server.{
  Init, start, Called, panicking, page_error, page_panics, escaped, answer, response_of,
  router_service,
}
use flareon.Project.Served.{IsBooted, boot-IsBooted}
use flareon.Project.Startup.{Migrated, Initialises, start-Migrated}
use flareon.Project.Answers.{PageFails, answer-escaped, expected, answer-serve}

abbrev todo_routes : Routes
todo_routes = route (record { parts = literal (codes "/") ∷ [] }) (handler 3) none no_routes

abbrev routes_for : ℕ → Routes
routes_for zero = todo_routes
routes_for (suc n) = no_routes

abbrev router_for : ℕ → Router
router_for app = with_urls (routes_for app)

abbrev migrations_for : ℕ → List Migration
migrations_for zero = initial ∷ []
migrations_for (suc n) = second ∷ []

abbrev parts : Parts
parts = record {
  App = ℕ;
  AuthBackend = Unit;
  BoxedHandler = Router;
  Database = Text;
  app_router = router_for;
  app_migrations = migrations_for;
}

router_for-BuiltRouter : (app : ℕ) → BuiltRouter (router_for app)
unfolding with_urls
router_for-BuiltRouter zero = built refl (to_handler no_more)
router_for-BuiltRouter (suc n) = built refl no_more

abbrev config : ProjectConfig
config = record { debug = false; register_panic_hook = true; database_url = some (codes "sqlite") }

abbrev todo_project : Project parts
todo_project = record {
  config = λ _. booted config;
  register_apps = λ _. register_with_views_call 0 (codes "/todo") ∷ register_call 1 ∷ [];
  middlewares = λ r _. r;
  auth_backend = λ _. tt;
}

abbrev configured : Bootstrapper parts with_config
configured = bootstrapper_with_config config (Boot.new todo_project)

abbrev connect : Text → Log → BootResult Text × Log
connect url s = (booted url, s)

abbrev site : Router
site =
    with_urls (
      route (record { parts = literal (codes "/todo") ∷ [] }) (router (router_for 0)) none
        no_routes)

abbrev ready_context : ProjectContext parts initialized
ready_context = record {
  config = config;
  apps = 0 ∷ 1 ∷ [];
  router = site;
  auth_backend = tt;
  database = some (codes "sqlite");
}

abbrev ready : Bootstrapper parts initialized
ready = record { project = todo_project; context = ready_context; handler = site }

boots : boot ascii connect configured fresh ≡ (booted ready, fresh)
unfolding boot with_urls with_router Boot.new bootstrapper_with_config new byte_slice trim
    is_param_name_valid
boots = refl

boot-IsBooted_example : IsBooted parts ascii router_for-BuiltRouter configured ready
boot-IsBooted_example =
    boot-IsBooted parts ascii router_for-BuiltRouter connect configured ready fresh fresh boots

-- Notes in the table that an app was initialised.
abbrev init : Init parts log_database
init app context s =
    (booted context, record s { applied = (codes "init", codes "app") ∷ s.applied })

abbrev ready_state : Log
unfolding start
ready_state = (start parts log_database init ready fresh).1

starts : start parts log_database init ready fresh ≡ (booted ready_context, ready_state)
unfolding start new_engine run sort toposort add_edge apply_permutation lookup insert forwards
    is_migration_applied mark_migration_applied
starts = refl

start-Migrated_example :
    (s₁ : Log) × (c₀ : ProjectContext parts initialized) × Migrated parts log_database
      log_database-KeepsRows
      (some (codes "sqlite"))
      (0 ∷ 1 ∷ [])
      fresh
      s₁
    × Initialises parts log_database init
        (0 ∷ 1 ∷ [])
        (record ready_context { apps = [] })
        s₁
        c₀
        ready_state
    × (ready_context ≡ record c₀ { apps = 0 ∷ 1 ∷ [] })
start-Migrated_example =
    start-Migrated parts log_database log_database-KeepsRows init ready ready_context fresh
      ready_state starts

abbrev request : RequestData
request = record {
  method = codes "GET";
  url = codes "/todo/";
  protocol_version = codes "HTTP/1.1";
  headers = [];
}

abbrev cells : PanicCells
cells = record { panic_location = none; panic_backtrace = none }

abbrev handlers : ℕ → List (Text × Text) → Option Text → Called
handlers h path_params name = panicking (str (codes "oops")) none (codes "trace")

answer-escaped_example :
    ((answer broken page_error page_panics ready_context
        (codes "config")
        request
        (handlers 3 [] none)
        cells).0
      ≡ escaped)
    ↔ ((false ≡ false) × PageFails page_error page_panics (response_of (handlers 3 [] none)))
answer-escaped_example =
    answer-escaped broken page_error page_panics ready_context (codes "config") request
      (handlers 3 [] none) cells

answer-serve_example :
    answer broken page_error page_panics ready_context
      (codes "config")
      request
      (router_service handlers site (codes "/todo"))
      cells
    ≡ expected broken page_error page_panics handlers ready_context
        (codes "config")
        request
        cells
        (serve (flatten site) (codes "/todo"))
answer-serve_example =
    answer-serve broken page_error page_panics handlers ready_context (codes "config") request
      (codes "/todo") cells
