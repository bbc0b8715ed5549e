-- ===== src/Router/Tests.antt =====
-- A router with an inner router, and instances of the theorems.
use flareon.Base.{◌≡◌, ◌≢◌, refl, [], ◌∷◌, some, none, codes, insert, lookup, All, arith}
use flareon.Matcher.{literal, param, capture, ReverseParamMap, reverse_path, missing_param}
use flareon.Matcher.Reverse.{IsDelimited}
use flareon.Router.{
  handler, router, Router, Routes, no_routes, route, with_urls, get_handler, handled, not_found,
  route_request, reverse_option, url, url_error, no_view_to_reverse, reverse_error, reverse_url,
}
use flareon.Router.Flat.{flatten, serve, route_request-flatten}
use flareon.Router.Named.{BuiltRouter, built, no_more, to_handler, to_router, Reverses}
use flareon.Router.Reversal.{reverse_option-Reverses}
use flareon.Router.Served.{route_request-reverse_url}
use flareon.Router.Route.{Route}

abbrev inner_routes : Routes
inner_routes =
    route (record { parts = literal (codes "/") ∷ [] }) (handler 1) (some (codes "list"))
      (route (record { parts = literal (codes "/") ∷ param (codes "id") ∷ [] }) (handler 2)
        (some (codes "todo")) no_routes)

abbrev outer_routes : Routes
outer_routes =
    route (record { parts = literal (codes "/") ∷ [] }) (handler 0) (some (codes "index"))
      (route (record { parts = literal (codes "/u/") ∷ param (codes "user") ∷ [] })
        (router (with_urls inner_routes)) none no_routes)

abbrev site : Router
site = with_urls outer_routes

abbrev given : ReverseParamMap
given = (codes "user", codes "ann") ∷ (codes "id", codes "7") ∷ []

served :
    (route_request site (codes "/u/ann/7") ≡ handled 2 given (some (codes "todo")))
    × (route_request site (codes "/u/ann") ≡ not_found)
    × (route_request site (codes "/") ≡ handled 0 [] (some (codes "index")))
unfolding route_request get_handler with_urls capture insert
served = (refl, refl, refl)

reversed :
    (reverse_url site (codes "todo") given ≡ url (codes "/u/ann/7"))
    × (reverse_url site (codes "todo") [] ≡ url_error (reverse_error (missing_param (codes "id"))))
    × (reverse_url site (codes "none") given ≡ url_error (no_view_to_reverse (codes "none")))
unfolding reverse_url reverse_option with_urls reverse_path lookup insert
reversed = (refl, refl, refl)

site-BuiltRouter : BuiltRouter site
unfolding with_urls
site-BuiltRouter =
    built refl (to_handler (to_router (built refl (to_handler (to_handler no_more))) no_more))

delimited : All (λ e. IsDelimited e.parts) (flatten site)
unfolding flatten with_urls
delimited = ground arith

route_request-flatten_example :
    route_request site (codes "/u/ann/7") ≡ serve (flatten site) (codes "/u/ann/7")
route_request-flatten_example = route_request-flatten site (codes "/u/ann/7")

reverse_option-Reverses_example :
    Reverses (flatten site) (codes "todo") given (reverse_option site (codes "todo") given)
reverse_option-Reverses_example = reverse_option-Reverses site (codes "todo") given site-BuiltRouter

route_request-reverse_url_example : route_request site (codes "/u/ann/7") ≢ not_found
route_request-reverse_url_example =
    route_request-reverse_url site (codes "todo") given (codes "/u/ann/7") site-BuiltRouter
      delimited (ground arith) (reversed.0)

abbrev todo_route : Route
todo_route = record {
  url = record { parts = literal (codes "/") ∷ param (codes "id") ∷ [] };
  view = handler 2;
  name = some (codes "todo");
}
