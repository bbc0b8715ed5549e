-- ===== src/Router.antt =====
-- cot/src/router.rs: a router tries its routes in turn; a route leads to a handler, here its
-- number, or to a router for the remaining path.
pub mod Route
pub mod Flat
pub mod Named
pub mod Reversal
pub mod Served
pub mod Tests
use flareon.Base.{
  ℕ, List, [], ◌∷◌, ◌++◌, map, reverse, Option, none, some, Bool, true, false, if◌then◌else◌, Text,
  Text-Eq, lookup, insert,
}
use flareon.Matcher.{
  PathMatcher, PathParam, CaptureResult, matches_fully, capture, ReverseParamMap, Reversed,
  ReverseError, missing_param, reverse_path,
}
use flareon.Matcher.Capture.{pairs}

abbrev pub Names : Type 0
Names = List (Text × PathMatcher)

mutual
  pub data RouteInner : Type 0 where
    handler : ℕ → RouteInner
    router : Router → RouteInner

  pub data Router : Type 0 where
    router_of : Routes → Names → Router

  pub data Routes : Type 0 where
    no_routes : Routes
    route : PathMatcher → RouteInner → Option Text → Routes → Routes

abbrev note_name : Option Text → PathMatcher → Names → Names
note_name none url names = names
note_name (some name) url names = insert name url names

-- The loop of `with_urls`.
unfoldable pub collect_names : Routes → Names → Names
collect_names no_routes names = names
collect_names (route url view name rest) names = collect_names rest (note_name name url names)

unfoldable pub with_urls : Routes → Router
unfolding collect_names
with_urls urls = router_of urls (collect_names urls [])

abbrev pub urls_of : Router → Routes
urls_of (router_of urls names) = urls

abbrev pub names_of : Router → Names
names_of (router_of urls names) = names

pub record HandlerFound : Type 0 where
  pub handler_id : ℕ
  pub name : Option Text
  pub params : List (Text × Text)

-- Pushed in reverse order behind those of the inner router.
unfoldable pub matches_to_path_params : CaptureResult → List (Text × Text) → List (Text × Text)
matches_to_path_params m path_params = path_params ++ reverse (pairs m.params)

abbrev handler_found : ℕ → Option Text → CaptureResult → Option HandlerFound
handler_found h name m =
    if matches_fully m
    then some (record { handler_id = h; name = name; params = matches_to_path_params m [] })
    else none

abbrev router_found : CaptureResult → Option HandlerFound → Option HandlerFound
router_found m none = none
router_found m (some result) =
    some (record result { params = matches_to_path_params m result.params })

abbrev pub or_else {ℓ} : {A : Type ℓ} → Option A → Option A → Option A
or_else none later = later
or_else (some a) later = some a

unfoldable mutual
  unfolding matches_fully matches_to_path_params

  pub get_handler : Router → Text → Option HandlerFound
  get_handler (router_of urls names) request_path = find_route urls request_path

  -- The loop over the routes.
  pub find_route : Routes → Text → Option HandlerFound
  find_route no_routes request_path = none
  find_route (route url view name rest) request_path =
      let later = find_route rest request_path in
      elim (capture url request_path) [
        | none ↦ later
        | some m ↦ or_else (find_view view m name) later
      ]

  pub find_view : RouteInner → CaptureResult → Option Text → Option HandlerFound
  find_view (handler h) m name = handler_found h name m
  find_view (router r) m name = router_found m (get_handler r m.remaining_path)

-- What `route` and `handle` do with a request path: a handler runs with the path parameters and the
-- route's name in the request, or the answer is 404.
pub data Routed : Type 0 where
  handled : ℕ → List (Text × Text) → Option Text → Routed
  not_found : Routed

-- `PathParams::insert` for each pair in turn.
unfoldable pub insert_all : List (Text × Text) → List (Text × Text) → List (Text × Text)
insert_all [] path_params = path_params
insert_all ((key, value) ∷ rest) path_params = insert_all rest (insert key value path_params)

unfoldable pub route_request : Router → Text → Routed
unfolding insert_all
route_request r request_path = elim (get_handler r request_path) [
  | none ↦ not_found
  | some result ↦ handled result.handler_id (insert_all (reverse result.params) []) result.name
]

-- `Result<Option<String>>` of `reverse_option`.
pub data ReverseOption : Type 0 where
  found : Text → ReverseOption
  absent : ReverseOption
  failed : ReverseError → ReverseOption

abbrev pub from_reversed : Reversed → ReverseOption
from_reversed (Reversed.ok url) = found url
from_reversed (Reversed.err e) = failed e

-- The inner router's result, behind the prefix of the route that leads there.
abbrev pub prefixed : Reversed → Text → ReverseOption
prefixed (Reversed.ok prefix) url = found (prefix ++ url)
prefixed (Reversed.err e) url = failed e

unfoldable mutual
  pub reverse_option : Router → Text → ReverseParamMap → ReverseOption
  reverse_option (router_of urls names) name params =
      let inner = reverse_routes urls name params in
      elim (lookup name names) [
        | some matcher ↦ from_reversed (reverse_path matcher params)
        | none ↦ inner
      ]

  -- The loop over the routes that lead to routers.
  pub reverse_routes : Routes → Text → ReverseParamMap → ReverseOption
  reverse_routes no_routes name params = absent
  reverse_routes (route url view _ rest) name params =
      let later = reverse_routes rest name params in
      elim (reverse_view view name params) [
        | found inner ↦ prefixed (reverse_path url params) inner
        | absent ↦ later
        | failed e ↦ failed e
      ]

  pub reverse_view : RouteInner → Text → ReverseParamMap → ReverseOption
  reverse_view (handler h) name params = absent
  reverse_view (router r) name params = reverse_option r name params

pub data RouterError : Type 0 where
  no_view_to_reverse : Text → RouterError
  reverse_error : ReverseError → RouterError

pub data UrlResult : Type 0 where
  url : Text → UrlResult
  url_error : RouterError → UrlResult

unfoldable pub reverse_url : Router → Text → ReverseParamMap → UrlResult
reverse_url r name params = elim (reverse_option r name params) [
  | found u ↦ url u
  | absent ↦ url_error (no_view_to_reverse name)
  | failed e ↦ url_error (reverse_error e)
]

unfoldable pub is_empty_router : Router → Bool
is_empty_router (router_of no_routes names) = true
is_empty_router (router_of (route _ _ _ _) names) = false
