-- ===== src/Router/Route.antt =====
-- `Route` of cot/src/router.rs: its constructors, which read the pattern and panic where it is
-- refused, and its accessors.
pub mod Url
use flareon.Base.{ℕ, List, [], ◌∷◌, Option, none, some, Text}
use flareon.Matcher.{PathPart, PathMatcher, display}
use flareon.Matcher.Unicode.{Unicode}
use flareon.Matcher.Pattern.{PatternError, Parsed, new}
use flareon.Router.{RouteInner, handler, router, Router, Routes, no_routes, route, with_urls}

pub record Route : Type 0 where
  pub url : PathMatcher
  pub view : RouteInner
  pub name : Option Text

pub data RouteResult : Type 0 where
  made : Route → RouteResult
  panics : PatternError → RouteResult

-- The record around the pattern that was read.
abbrev pub from_parsed : Parsed → RouteInner → Option Text → RouteResult
from_parsed (Parsed.ok parts) view name =
    made (record { url = record { parts = parts }; view = view; name = name })
from_parsed (Parsed.err e) view name = panics e

module _ (u : Unicode) where
  unfoldable pub with_handler : Text → ℕ → RouteResult
  with_handler url view = from_parsed (new u url) (handler view) none

  unfoldable pub with_handler_and_name : Text → ℕ → Text → RouteResult
  with_handler_and_name url view name = from_parsed (new u url) (handler view) (some name)

  unfoldable pub with_router : Text → Router → RouteResult
  with_router url r = from_parsed (new u url) (router r) none

unfoldable pub url_of : Route → Text
url_of r = display r.url.parts

pub data RouteKind : Type 0 where
  handler_kind router_kind : RouteKind

unfoldable pub kind : Route → RouteKind
kind r = elim r.view [ handler _ ↦ handler_kind | router _ ↦ router_kind ]

unfoldable pub router_in : Route → Option Router
router_in r = elim r.view [ router inner ↦ some inner | handler _ ↦ none ]

-- The vector of routes that `with_urls` takes.
abbrev pub routes_of : List Route → Routes
routes_of [] = no_routes
routes_of (r ∷ rs) = route r.url r.view r.name (routes_of rs)

unfoldable pub empty : Router
unfolding with_urls
empty = with_urls no_routes
