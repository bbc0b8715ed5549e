-- ===== src/Project/Boot.antt =====
-- `AppBuilder`, `ProjectContext` and `Bootstrapper` of cot/src/project.rs.
use flareon.Base.{List, [], ◌∷◌, ◌++◌, Option, none, some, Text}
use flareon.Matcher.Unicode.{Unicode}
use flareon.Router.{Router, with_urls}
use flareon.Router.Route.{Route, RouteResult, made, panics, with_router, routes_of}
use flareon.Project.{
  ProjectConfig, Parts, BootResult, booted, failed, panicked, ◌>>=◌, uninitialized, with_config,
  with_apps, initialized, ProjectContext, Registration, register_call, register_with_views_call,
  Project, Bootstrapper,
}

abbrev pub init_database :
    {S Db : Type 0} → (Text → S → BootResult Db × S) → Option Text → S → BootResult (Option Db) × S
init_database connect none s = (booted none, s)
init_database connect (some url) s =
    let (database, s') = connect url s in (database >>= λ d. booted (some d), s')

pub record AppBuilder (parts : Parts) : Type 0 where
  pub apps : List parts.App
  pub urls : List Route

module _ {parts : Parts} where
  abbrev pub new_builder : AppBuilder parts
  new_builder = record { apps = []; urls = [] }

  unfoldable pub register : parts.App → AppBuilder parts → AppBuilder parts
  register app b = record b { apps = b.apps ++ app ∷ [] }

  -- `PathMatcher::new` may panic at the prefix.
  abbrev pub pushed : RouteResult → AppBuilder parts → BootResult (AppBuilder parts)
  pushed (made r) b = booted (record b { urls = b.urls ++ r ∷ [] })
  pushed (panics e) b = panicked

  unfoldable pub register_with_views :
      Unicode → parts.App → Text → AppBuilder parts → BootResult (AppBuilder parts)
  unfolding register
  register_with_views u app url_prefix b =
      pushed (with_router u url_prefix (parts.app_router app)) b >>= λ b'. booted (register app b')

  unfoldable pub register_all :
      Unicode → List (Registration parts) → AppBuilder parts → BootResult (AppBuilder parts)
  unfolding register register_with_views
  register_all u [] b = booted b
  register_all u (register_call app ∷ calls) b = register_all u calls (register app b)
  register_all u (register_with_views_call app url_prefix ∷ calls) b =
      register_with_views u app url_prefix b >>= register_all u calls

  unfoldable pub new_context : ProjectContext parts uninitialized
  new_context = record { config = tt; apps = tt; router = tt; auth_backend = tt; database = tt }

  unfoldable pub context_with_config :
      ProjectConfig → ProjectContext parts uninitialized → ProjectContext parts with_config
  context_with_config config c = record {
    config = config;
    apps = c.apps;
    router = c.router;
    auth_backend = c.auth_backend;
    database = c.database;
  }

  unfoldable pub context_with_apps :
      List parts.App → Router → ProjectContext parts with_config → ProjectContext parts with_apps
  context_with_apps apps router c = record {
    config = c.config;
    apps = apps;
    router = router;
    auth_backend = c.auth_backend;
    database = c.database;
  }

  unfoldable pub with_auth_and_db :
      parts.AuthBackend
      → Option parts.Database
      → ProjectContext parts with_apps
      → ProjectContext parts initialized
  with_auth_and_db auth_backend database c = record {
    config = c.config;
    apps = c.apps;
    router = c.router;
    auth_backend = auth_backend;
    database = database;
  }

  unfoldable pub new : Project parts → Bootstrapper parts uninitialized
  new project = record { project = project; context = new_context; handler = tt }

  unfoldable pub bootstrapper_with_config :
      ProjectConfig → Bootstrapper parts uninitialized → Bootstrapper parts with_config
  unfolding context_with_config
  bootstrapper_with_config config b = record {
    project = b.project;
    context = context_with_config config b.context;
    handler = b.handler;
  }

  unfoldable pub with_config_name :
      Text → Bootstrapper parts uninitialized → BootResult (Bootstrapper parts with_config)
  unfolding bootstrapper_with_config
  with_config_name config_name b = do
    config ← b.project.config config_name
    booted (bootstrapper_with_config config b)

  unfoldable pub bootstrapper_with_apps :
      Unicode → Bootstrapper parts with_config → BootResult (Bootstrapper parts with_apps)
  unfolding register_all with_urls context_with_apps
  bootstrapper_with_apps u b = do
    builder ← register_all u (b.project.register_apps b.context) new_builder
    booted (record {
      project = b.project;
      context = context_with_apps builder.apps (with_urls (routes_of builder.urls)) b.context;
      handler = b.handler;
    })

  unfoldable pub boot_with_apps :
      {S : Type 0}
      → (Text → S → BootResult parts.Database × S)
      → Bootstrapper parts with_apps
      → S
      → BootResult (Bootstrapper parts initialized) × S
  unfolding with_auth_and_db
  boot_with_apps connect b s =
      let handler = b.project.middlewares b.context.router b.context in
      let auth_backend = b.project.auth_backend b.context in
      let (database, s') = init_database connect b.context.config.database_url s in
      (
        database >>= λ d. booted (record {
          project = b.project;
          context = with_auth_and_db auth_backend d b.context;
          handler = handler;
        }),
        s',
      )

  abbrev pub boot_apps :
      {S : Type 0}
      → (Text → S → BootResult parts.Database × S)
      → BootResult (Bootstrapper parts with_apps)
      → S
      → BootResult (Bootstrapper parts initialized) × S
  boot_apps connect (booted b) s = boot_with_apps connect b s
  boot_apps connect (failed e) s = (failed e, s)
  boot_apps connect panicked s = (panicked, s)

  unfoldable pub boot :
      {S : Type 0}
      → Unicode
      → (Text → S → BootResult parts.Database × S)
      → Bootstrapper parts with_config
      → S
      → BootResult (Bootstrapper parts initialized) × S
  unfolding boot_with_apps bootstrapper_with_apps
  boot u connect b s = boot_apps connect (bootstrapper_with_apps u b) s
