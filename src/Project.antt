-- ===== src/Project.antt =====
-- cot/src/project.rs: registering apps, and the phases of the bootstrapper, whose contexts hold what
-- is known in each phase. What a project, its apps and the server are made of are parameters.
pub mod Server
pub mod Boot
pub mod Results
pub mod Served
pub mod Startup
pub mod Answers
pub mod Tests
use flareon.Base.{ℕ, List, [], ◌∷◌, ◌++◌, Option, none, some, Bool, Text}
use flareon.Router.{Router}
use flareon.Migrations.{Migration}
use flareon.Migrations.Sorter.{MigrationSorterError}

-- What the bootstrapper reads of the configuration.
pub record ProjectConfig : Type 0 where
  pub debug : Bool
  pub register_panic_hook : Bool
  pub database_url : Option Text

-- The types that a project brings along: its apps, back ends and handlers, and connected databases.
pub record Parts : Type 1 where
  pub App : Type 0
  pub AuthBackend : Type 0
  pub BoxedHandler : Type 0
  pub Database : Type 0
  pub app_router : App → Router
  pub app_migrations : App → List Migration

-- The errors on the way to a running server; an error of an app or of the configuration is a number.
pub data BootError : Type 0 where
  config_error app_error : ℕ → BootError
  migration_sorter_error : MigrationSorterError → BootError
  database_error : BootError

-- A `Result` on this way, or a panic.
pub data BootResult {ℓ} (A : Type ℓ) : Type ℓ where
  booted : A → BootResult A
  failed : BootError → BootResult A
  panicked : BootResult A

infixl 5 ◌>>=◌
abbrev pub ◌>>=◌ {ℓ κ} :
    {A : Type ℓ} {B : Type κ} → BootResult A → (A → BootResult B) → BootResult B
booted a >>= f = f a
failed e >>= f = failed e
panicked >>= f = panicked

pub data BootstrapPhase : Type 0 where
  uninitialized with_config with_apps initialized : BootstrapPhase

module _ (parts : Parts) where
  -- The associated types of the phases.
  abbrev pub Config : BootstrapPhase → Type 0
  Config uninitialized = Unit
  Config with_config = ProjectConfig
  Config with_apps = ProjectConfig
  Config initialized = ProjectConfig

  abbrev pub Apps : BootstrapPhase → Type 0
  Apps uninitialized = Unit
  Apps with_config = Unit
  Apps with_apps = List parts.App
  Apps initialized = List parts.App

  abbrev pub RouterOf : BootstrapPhase → Type 0
  RouterOf uninitialized = Unit
  RouterOf with_config = Unit
  RouterOf with_apps = Router
  RouterOf initialized = Router

  abbrev pub AuthBackendOf : BootstrapPhase → Type 0
  AuthBackendOf uninitialized = Unit
  AuthBackendOf with_config = Unit
  AuthBackendOf with_apps = Unit
  AuthBackendOf initialized = parts.AuthBackend

  abbrev pub DatabaseOf : BootstrapPhase → Type 0
  DatabaseOf uninitialized = Unit
  DatabaseOf with_config = Unit
  DatabaseOf with_apps = Unit
  DatabaseOf initialized = Option parts.Database

  abbrev pub RequestHandler : BootstrapPhase → Type 0
  RequestHandler uninitialized = Unit
  RequestHandler with_config = Unit
  RequestHandler with_apps = Unit
  RequestHandler initialized = parts.BoxedHandler

pub record ProjectContext (parts : Parts) (S : BootstrapPhase) : Type 0 where
  pub config : Config parts S
  pub apps : Apps parts S
  pub router : RouterOf parts S
  pub auth_backend : AuthBackendOf parts S
  pub database : DatabaseOf parts S

-- A call of a method of `AppBuilder`.
pub data Registration (parts : Parts) : Type 0 where
  register_call : parts.App → Registration parts
  register_with_views_call : parts.App → (url_prefix : Text) → Registration parts

-- The methods of `Project` that the bootstrapper calls. `register_apps` is the calls that it makes.
pub record Project (parts : Parts) : Type 0 where
  pub config : Text → BootResult ProjectConfig
  pub register_apps : ProjectContext parts with_config → List (Registration parts)
  pub middlewares : Router → ProjectContext parts with_apps → parts.BoxedHandler
  pub auth_backend : ProjectContext parts with_apps → parts.AuthBackend

pub record Bootstrapper (parts : Parts) (S : BootstrapPhase) : Type 0 where
  pub project : Project parts
  pub context : ProjectContext parts S
  pub handler : RequestHandler parts S
