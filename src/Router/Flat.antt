-- ===== src/Router/Flat.antt =====
-- A router of routers serves what one flat list of routes serves, whose patterns are the joined
-- patterns on the way to each handler.
use flareon.Base.{
  ℕ, ◌≡◌, refl, sym, ◌∙◌, ap, List, [], ◌∷◌, ◌++◌, map, reverse, Option, none, some, if◌then◌else◌,
  Text, Option-cases, drop, length, inl, inr, arith,
}
use mathlib.Core.List.{reverse-append, reverse-reverse}
use flareon.Matcher.{
  PathPart, literal, param, PathMatcher, PathParam, CaptureResult, matches_fully, until_slash,
  capture_parts, capture,
}
use flareon.Matcher.Capture.{pairs}
use flareon.Router.{
  RouteInner, handler, router, Router, router_of, Routes, no_routes, route, HandlerFound,
  matches_to_path_params, handler_found, router_found, or_else, get_handler, find_route, find_view,
  Routed, handled, not_found, insert_all, route_request,
}

-- A handler with all the parts in front of it.
pub record Entry : Type 0 where
  pub parts : List PathPart
  pub handler_id : ℕ
  pub name : Option Text

abbrev pub behind : List PathPart → Entry → Entry
behind prefix e = record e { parts = prefix ++ e.parts }

unfoldable mutual
  pub flatten : Router → List Entry
  flatten (router_of urls names) = flatten_routes urls

  pub flatten_routes : Routes → List Entry
  flatten_routes no_routes = []
  flatten_routes (route url view name rest) = flatten_view view url name ++ flatten_routes rest

  pub flatten_view : RouteInner → PathMatcher → Option Text → List Entry
  flatten_view (handler h) url name = record { parts = url.parts; handler_id = h; name = name } ∷ []
  flatten_view (router r) url name = map (behind url.parts) (flatten r)

-- The first entry whose pattern captures the whole path.
abbrev pub first_entry : List Entry → Text → Option HandlerFound
first_entry [] path = none
first_entry (e ∷ es) path =
    let later = first_entry es path in
    elim (capture_parts e.parts path) [
      | none ↦ later
      | some m ↦ or_else (handler_found e.handler_id e.name m) later
    ]

first_entry-append :
    (xs ys : List Entry) (path : Text)
    → first_entry (xs ++ ys) path ≡ or_else (first_entry xs path) (first_entry ys path)
first_entry-append [] ys path = refl
first_entry-append (x ∷ xs) ys path = ground (arith, first_entry-append xs ys path)

-- The parameters of a first capture in front of those of a second.
abbrev joined : List PathParam → Option CaptureResult → Option CaptureResult
joined ps none = none
joined ps (some r) = some (record r { params = ps ++ r.params })

abbrev capture_after : Option CaptureResult → List PathPart → Option CaptureResult
capture_after none parts = none
capture_after (some m) parts = joined m.params (capture_parts parts m.remaining_path)

capture_parts-append :
    (parts later : List PathPart) (path : Text)
    → capture_parts (parts ++ later) path ≡ capture_after (capture_parts parts path) later
unfolding capture_parts
capture_parts-append [] later path = ground arith
capture_parts-append (literal s ∷ parts) later path =
    ground (arith, capture_parts-append parts later (drop (length s) path))
capture_parts-append (param name ∷ parts) later path =
    ground (arith, capture_parts-append parts later (drop (length (until_slash path)) path))

pairs-append : (ps qs : List PathParam) → pairs (ps ++ qs) ≡ pairs ps ++ pairs qs
pairs-append [] qs = refl
pairs-append (p ∷ ps) qs = ap (λ t. (p.name, p.value) ∷ t) (pairs-append ps qs)

abbrev behind_found : Option CaptureResult → List Entry → Option HandlerFound
behind_found none es = none
behind_found (some m) es = router_found m (first_entry es m.remaining_path)

first_entry-behind :
    (parts : List PathPart) (es : List Entry) (path : Text)
    → first_entry (map (behind parts) es) path ≡ behind_found (capture_parts parts path) es
unfolding matches_to_path_params matches_fully
first_entry-behind parts [] path = ground arith
first_entry-behind parts (e ∷ es) path = elim (Option-cases (capture_parts parts path)) [
  | inl missed ↦
      ground (arith, capture_parts-append parts e.parts path, first_entry-behind parts es path)
  | inr (m, hit) ↦ elim (Option-cases (capture_parts e.parts m.remaining_path)) [
    | inl missed ↦
        ground (arith, capture_parts-append parts e.parts path, first_entry-behind parts es path)
    | inr (m', hit') ↦ ground (
      arith,
      capture_parts-append parts e.parts path,
      first_entry-behind parts es path,
      ap reverse (pairs-append m.params m'.params),
      reverse-append (pairs m.params) (pairs m'.params),
    )
  ]
]

abbrev try_view : RouteInner → Option CaptureResult → Option Text → Option HandlerFound
try_view view none name = none
try_view view (some m) name = find_view view m name

find_view-router :
    (r : Router) (m : Option CaptureResult) (name : Option Text)
    → ((path : Text) → get_handler r path ≡ first_entry (flatten r) path)
    → try_view (router r) m name ≡ behind_found m (flatten r)
unfolding find_view
find_view-router r none name ih = refl
find_view-router r (some m) name ih = ap (router_found m) (ih m.remaining_path)

mutual
  unfolding get_handler find_route find_view flatten flatten_routes flatten_view capture

  flatten-router : (r : Router) (path : Text) → get_handler r path ≡ first_entry (flatten r) path
  flatten-router (router_of urls names) path = flatten-routes urls path

  flatten-routes :
      (urls : Routes) (path : Text) → find_route urls path ≡ first_entry (flatten_routes urls) path
  flatten-routes no_routes path = refl
  flatten-routes (route url view name rest) path = ground (
    arith,
    first_entry-append (flatten_view view url name) (flatten_routes rest) path,
    flatten-view view url name path,
    flatten-routes rest path,
  )

  flatten-view :
      (view : RouteInner) (url : PathMatcher) (name : Option Text) (path : Text)
      → try_view view (capture url path) name ≡ first_entry (flatten_view view url name) path
  flatten-view (handler h) url name path = ground arith
  flatten-view (router r) url name path =
      find_view-router r (capture_parts url.parts path) name (flatten-router r)
      ∙ sym (first_entry-behind url.parts (flatten r) path)

-- The specification: the first entry that captures the whole path handles it, with the captured
-- values in the order of the path.
unfoldable pub serve : List Entry → Text → Routed
serve [] path = not_found
serve (e ∷ es) path =
    let later = serve es path in
    elim (capture_parts e.parts path) [
      | none ↦ later
      | some m ↦
          if matches_fully m
          then handled e.handler_id (insert_all (pairs m.params) []) e.name
          else later
    ]

abbrev request_of : Option HandlerFound → Routed
request_of none = not_found
request_of (some result) =
    handled result.handler_id (insert_all (reverse result.params) []) result.name

request_of-first_entry :
    (es : List Entry) (path : Text) → request_of (first_entry es path) ≡ serve es path
unfolding serve matches_to_path_params
request_of-first_entry [] path = refl
request_of-first_entry (e ∷ es) path = elim (Option-cases (capture_parts e.parts path)) [
  | inl missed ↦ ground (arith, request_of-first_entry es path)
  | inr (m, hit) ↦ ground (
    arith,
    request_of-first_entry es path,
    ap (λ t. insert_all t []) (reverse-reverse (pairs m.params)),
  )
]

-- A router, of routers to any depth, routes each path as its flat list of entries serves it.
pub route_request-flatten :
    (r : Router) (path : Text) → route_request r path ≡ serve (flatten r) path
unfolding route_request
route_request-flatten r path =
    expand (get_handler r path)
    ∙ ap request_of (flatten-router r path)
    ∙ request_of-first_entry (flatten r) path
  where
    expand :
        (found : Option HandlerFound)
        → (elim found as (λ _. Routed) [
          | none ↦ not_found
          | some result ↦
              handled result.handler_id (insert_all (reverse result.params) []) result.name
        ])
          ≡ request_of found
    expand none = refl
    expand (some result) = refl
