-- ===== src/StaticFiles/Tests.antt =====
-- Two apps with a file at the same path, and an instance of the theorem.
use flareon.Base.{ℕ, zero, suc, List, [], ◌∷◌, Text, codes, none, lookup, insert, ◌≡◌, refl}
use flareon.Matcher.{starts_with}
use flareon.Router.{no_routes, with_urls}
use flareon.Project.{Parts, ProjectContext, with_apps}
use flareon.StaticFiles.{
  Bytes, from_app_context, call, static_file_response, inner_call, strip_prefix, static_path,
  get_file, as_response, add_file,
}
use flareon.StaticFiles.Last.{all_files, served, call-from_app_context}
use flareon.Base.{false}

abbrev parts : Parts
parts = record {
  App = ℕ;
  AuthBackend = Unit;
  BoxedHandler = Unit;
  Database = Unit;
  app_router = λ _. with_urls no_routes;
  app_migrations = λ _. [];
}

abbrev files_of : ℕ → List (Text × Bytes)
files_of zero = (codes "a.css", 1 ∷ []) ∷ (codes "b.css", 2 ∷ []) ∷ []
files_of (suc n) = (codes "a.css", 3 ∷ []) ∷ []

abbrev text_css : Text → Text
text_css path = codes "text/css"

abbrev context : ProjectContext parts with_apps
context = record {
  config = record { debug = false; register_panic_hook = false; database_url = none };
  apps = 0 ∷ 1 ∷ [];
  router = with_urls no_routes;
  auth_backend = tt;
  database = tt;
}

call-from_app_context_example :
    call (from_app_context text_css parts files_of context) (codes "/static/a.css")
    ≡ served text_css parts files_of
        (all_files parts files_of (0 ∷ 1 ∷ []))
        (strip_prefix static_path (codes "/static/a.css"))
call-from_app_context_example =
    call-from_app_context text_css parts files_of context (codes "/static/a.css")

answers :
    (call (from_app_context text_css parts files_of context) (codes "/static/a.css")
      ≡ static_file_response (record { content_type = codes "text/css"; body = 3 ∷ [] }))
    × (call (from_app_context text_css parts files_of context) (codes "/static/c.css") ≡ inner_call)
    × (call (from_app_context text_css parts files_of context) (codes "/a.css") ≡ inner_call)
unfolding call from_app_context get_file as_response add_file lookup insert starts_with
answers = (refl, refl, refl)
