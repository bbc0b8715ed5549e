-- ===== src/Project/Server.antt =====
-- `run_at` of cot/src/project.rs: what happens before the server starts, and the answer to a request.
-- Sending bytes and the futures are left out.
use flareon.Base.{
  ℕ, List, [], ◌∷◌, ◌++◌, Option, none, some, Bool, if◌then◌else◌, Text, codes, ◌⊎◌, inl, inr,
}
use flareon.Migrations.{Migration}
use flareon.Migrations.Engine.{DbResult, ok, error, Database, run}
use flareon.Migrations.Sorter.{Result}
use flareon.Migrations.Startup.{MigrationEngine, new_engine}
use flareon.Router.{Router, Routed, handled, route_request}
use flareon.ErrorPage.{
  ErrorPageTrigger, Response, Error, PanicPayload, RequestData, Diagnostics, PanicCells, Assets,
  error_page_panic_hook, handle_not_found, handle_response_error, handle_response_panic,
  build_cot_not_found_page, build_cot_server_error_page,
}
use flareon.Project.{
  Parts, BootResult, booted, failed, panicked, database_error, migration_sorter_error, initialized,
  ProjectContext, Bootstrapper,
}

abbrev pub and_then {ℓ} :
    {A B : Type ℓ} {S : Type 0} → BootResult A × S → (A → S → BootResult B × S) → BootResult B × S
and_then (booted a, s) k = k a s
and_then (failed e, s) k = (failed e, s)
and_then (panicked, s) k = (panicked, s)

abbrev pub from_db_result : DbResult (Unit {0}) → BootResult (Unit {0})
from_db_result (ok _) = booted tt
from_db_result error = failed database_error

module _ (parts : Parts) {T : Type 0} (db : Database T) where
  -- The loop that collects the migrations of the apps.
  abbrev pub all_migrations : List parts.App → List Migration
  all_migrations [] = []
  all_migrations (app ∷ apps) = parts.app_migrations app ++ all_migrations apps

  abbrev pub run_engine : Result MigrationEngine → db.State → BootResult (Unit {0}) × db.State
  run_engine (Result.ok engine) s =
      let (result, s') = run db engine.migrations s in (from_db_result result, s')
  run_engine (Result.err e) s = (failed (migration_sorter_error e), s)
  run_engine Result.panicked s = (panicked, s)

  unfoldable pub migrate :
      Option parts.Database → List parts.App → db.State → BootResult (Unit {0}) × db.State
  unfolding new_engine
  migrate none apps s = (booted tt, s)
  migrate (some database) apps s = run_engine (new_engine (all_migrations apps)) s

  -- `init` of an app, which changes the context, and the state that the database and all else is in.
  abbrev pub Init : Type 0
  Init =
      parts.App
      → ProjectContext parts initialized
      → db.State
      → BootResult (ProjectContext parts initialized) × db.State

  unfoldable pub init_apps :
      Init
      → List parts.App
      → ProjectContext parts initialized
      → db.State
      → BootResult (ProjectContext parts initialized) × db.State
  init_apps init [] context s = (booted context, s)
  init_apps init (app ∷ apps) context s = and_then (init app context s) (init_apps init apps)

  abbrev pub restored :
      List parts.App
      → ProjectContext parts initialized
      → db.State
      → BootResult (ProjectContext parts initialized) × db.State
  restored apps context s = (booted (record context { apps = apps }), s)

  -- The start of `run_at`, up to the context of the requests.
  unfoldable pub start :
      Init
      → Bootstrapper parts initialized
      → db.State
      → BootResult (ProjectContext parts initialized) × db.State
  unfolding migrate init_apps
  start init b s = and_then (migrate b.context.database b.context.apps s) (λ _ s₁.
      and_then (init_apps init b.context.apps (record (b.context) { apps = [] }) s₁)
        (restored b.context.apps))

-- What comes back from the project's handler: a response, an error, or a panic at a location with
-- a backtrace.
pub data Called : Type 0 where
  responded : Response → Called
  errored : Error → Called
  panicking : PanicPayload → (location : Option Text) → (backtrace : Text) → Called

pub data ErrorResponse : Type 0 where
  error_page_trigger : ErrorPageTrigger → ErrorResponse
  error_returned : Error → ErrorResponse
  panic : PanicPayload → ErrorResponse

-- What a page handler of the project does.
pub data PageHandled : Type 0 where
  page : Response → PageHandled
  page_error : PageHandled
  page_panics : PageHandled

-- The answer to a request, unless a panic escapes.
pub data Answer : Type 0 where
  sent : Response → Answer
  escaped : Answer

abbrev pub triggered : Response → Option ErrorPageTrigger → Response ⊎ ErrorResponse
triggered response none = inl response
triggered response (some trigger) = inr (error_page_trigger trigger)

abbrev pub response_of : Called → Response ⊎ ErrorResponse
response_of (responded response) = triggered response response.error_page_trigger
response_of (errored e) = inr (error_returned e)
response_of (panicking payload location backtrace) = inr (panic payload)

-- The panic hook, if it is registered, has run before the panic is caught.
abbrev pub hooked : Bool → Called → PanicCells → PanicCells
hooked register_panic_hook (panicking payload location backtrace) cells =
    if register_panic_hook then error_page_panic_hook location backtrace cells else cells
hooked register_panic_hook (responded response) cells = cells
hooked register_panic_hook (errored e) cells = cells

abbrev pub page_or_else : PageHandled → Response → Answer
page_or_else (page response) fallback = sent response
page_or_else page_error fallback = sent fallback
page_or_else page_panics fallback = escaped

abbrev pub request_parts_for_diagnostics : Bool → RequestData → Option RequestData
request_parts_for_diagnostics debug request = if debug then some request else none

module _ (assets : Assets) where
  unfoldable pub build_cot_error_page :
      ErrorResponse → Diagnostics → PanicCells → Response × PanicCells
  build_cot_error_page (error_page_trigger ErrorPageTrigger.not_found) d cells =
      (handle_not_found assets d, cells)
  build_cot_error_page (error_returned e) d cells = (handle_response_error assets e d, cells)
  build_cot_error_page (panic payload) d cells = handle_response_panic assets payload d cells

  unfoldable pub build_custom_error_page : PageHandled → PageHandled → ErrorResponse → Answer
  build_custom_error_page not_found_handler server_error_handler
        (error_page_trigger ErrorPageTrigger.not_found) =
      page_or_else not_found_handler (build_cot_not_found_page assets)
  build_custom_error_page not_found_handler server_error_handler (error_returned e) =
      page_or_else server_error_handler (build_cot_server_error_page assets)
  build_custom_error_page not_found_handler server_error_handler (panic payload) =
      page_or_else server_error_handler (build_cot_server_error_page assets)

  module _ {parts : Parts} (not_found_handler server_error_handler : PageHandled) where
    unfoldable pub error_answer :
        ProjectContext parts initialized
        → (shown : Text) → RequestData
        → ErrorResponse
        → PanicCells
        → Answer × PanicCells
    unfolding build_cot_error_page build_custom_error_page
    error_answer context shown request e cells =
        let d : Diagnostics = record {
          project_config = shown;
          diagnosed_router = context.router;
          request_parts = request_parts_for_diagnostics context.config.debug request;
        } in
        if context.config.debug
        then (let (response, cells') = build_cot_error_page e d cells in (sent response, cells'))
        else (build_custom_error_page not_found_handler server_error_handler e, cells)

    abbrev pub answer_of :
        ProjectContext parts initialized
        → Text
        → RequestData
        → Response ⊎ ErrorResponse
        → PanicCells
        → Answer × PanicCells
    answer_of context shown request (inl response) cells = (sent response, cells)
    answer_of context shown request (inr e) cells = error_answer context shown request e cells

    -- The handler that is served, after the project's handler.
    unfoldable pub answer :
        ProjectContext parts initialized
        → Text
        → RequestData
        → Called
        → PanicCells
        → Answer × PanicCells
    unfolding error_answer
    answer context shown request called cells =
        answer_of context shown request (response_of called)
          (hooked context.config.register_panic_hook called cells)

-- `handle_not_found` of cot/src/router.rs.
abbrev pub router_not_found : Response
router_not_found = record {
  status = 404;
  body = codes "404 Not Found";
  error_page_trigger = some ErrorPageTrigger.not_found;
}

-- A handler takes the path parameters and the route's name from the request.
abbrev pub call_of : (ℕ → List (Text × Text) → Option Text → Called) → Routed → Called
call_of handlers (handled h path_params name) = handlers h path_params name
call_of handlers Routed.not_found = responded router_not_found

-- `Router::handle`, and so the handler of a project without middlewares.
unfoldable pub router_service :
    (ℕ → List (Text × Text) → Option Text → Called) → Router → Text → Called
router_service handlers r path = call_of handlers (route_request r path)
