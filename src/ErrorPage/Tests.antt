-- ===== src/ErrorPage/Tests.antt =====
-- A page for a path that leads nowhere, and an instance of the theorem.
use flareon.Base.{[], ◌∷◌, map, none, some, Text, codes, ◌+◌, ◌≡◌, refl}
use flareon.Matcher
use flareon.Matcher.{literal, param}
use flareon.Router.{Router, handler, router, no_routes, route, with_urls}
use flareon.Router.Flat.{flatten}
use flareon.ErrorPage.{
  Assets, Diagnostics, not_found_template, diagnostics, handle_not_found, build_cot_failure_page,
  RouteData, build_route_data,
}
use flareon.ErrorPage.Listing.{listed, view_rows, diagnostics-flatten}

-- The template engine fails.
abbrev pub broken : Assets
broken = record {
  to_string = λ n. (n + 48) ∷ [];
  render = λ t. none;
  default_server_error_page = codes "500";
  default_not_found_page = codes "404";
  failure_page = codes "fail";
}

abbrev inner : Router
inner = with_urls (
    route (record { parts = literal (codes "/") ∷ [] }) (handler 1) (some (codes "list")) no_routes)

abbrev pub site : Router
site = with_urls (
    route (record { parts = literal (codes "/") ∷ [] }) (handler 0) none
      (route (record { parts = literal (codes "/u/") ∷ param (codes "user") ∷ [] }) (router inner)
        none no_routes))

abbrev at_site : Diagnostics
at_site = record { project_config = codes "config"; diagnosed_router = site; request_parts = none }

diagnostics-flatten_example :
    view_rows (diagnostics broken not_found_template at_site).route_data
    ≡ map (listed []) (flatten site)
diagnostics-flatten_example = diagnostics-flatten broken not_found_template at_site

abbrev row : Text → Text → Text → Text → RouteData
row index path kind name = record { index = index; path = path; kind = kind; name = name }

shown_routes :
    (diagnostics broken not_found_template at_site).route_data
    ≡ row (codes "0") (codes "/") (codes "View") []
      ∷ row (codes "1") (codes "/u/{user}") (codes "Router") []
      ∷ row (codes "1.0") (codes "/u/{user}/") (codes "View") (codes "list")
      ∷ []
unfolding diagnostics build_route_data with_urls Matcher.display
shown_routes = refl

-- A page that cannot be rendered is replaced, with another status.
failed_page : handle_not_found broken at_site ≡ build_cot_failure_page broken
unfolding handle_not_found
failed_page = refl
