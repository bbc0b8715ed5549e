-- ===== src/Router/Route/Url.antt =====
-- What the accessors of a route return of what it was made of.
use flareon.Base.{ℕ, ◌≡◌, refl, ap, subst, Option, none, some, Text}
use flareon.Matcher.Unicode.{Unicode}
use flareon.Matcher.Slices.{IsAscii}
use flareon.Matcher.Pattern.{Parsed, new}
use flareon.Matcher.Pattern.Printing.{NoSpace, display-new}
use flareon.Router.{RouteInner, handler, router, Router}
use flareon.Router.Route.{
  Route, RouteResult, made, panics, from_parsed, with_handler, with_handler_and_name, with_router,
  url_of, handler_kind, router_kind, kind, router_in,
}

-- A call of a constructor.
pub data RouteCall : Type 0 where
  handler_call : (url : Text) → ℕ → RouteCall
  named_call : (url : Text) → ℕ → (name : Text) → RouteCall
  router_call : (url : Text) → Router → RouteCall

abbrev pub pattern_of : RouteCall → Text
pattern_of (handler_call url h) = url
pattern_of (named_call url h name) = url
pattern_of (router_call url r) = url

module _ (u : Unicode) where
  abbrev pub route_call : RouteCall → RouteResult
  route_call (handler_call url h) = with_handler u url h
  route_call (named_call url h name) = with_handler_and_name u url h name
  route_call (router_call url r) = with_router u url r

  -- The accessors other than `url` give back the arguments.
  abbrev pub Holds : RouteCall → Route → Type 0
  Holds (handler_call url h) r = (kind r ≡ handler_kind) × (r.name ≡ none) × (router_in r ≡ none)
  Holds (named_call url h name) r =
      (kind r ≡ handler_kind) × (r.name ≡ some name) × (router_in r ≡ none)
  Holds (router_call url inner) r =
      (kind r ≡ router_kind) × (r.name ≡ none) × (router_in r ≡ some inner)

  from_parsed-url :
      (p : Text) (o : Parsed) (view : RouteInner) (name : Option Text) (r : Route)
      → IsAscii p
      → NoSpace u p
      → new u p ≡ o
      → from_parsed o view name ≡ made r
      → (url_of r ≡ p) × (r.view ≡ view) × (r.name ≡ name)
  unfolding url_of
  from_parsed-url p (Parsed.ok parts) view name r plain spaceless e made_it =
      let fallback : Route = record { url = record { parts = parts }; view = view; name = name } in
      let same = ap (λ o. elim o [ made x ↦ x | panics _ ↦ fallback ]) made_it in
      subst (λ x. (url_of x ≡ p) × (x.view ≡ view) × (x.name ≡ name)) same
        (display-new u p parts plain spaceless e, refl, refl)
  from_parsed-url p (Parsed.err x) view name r plain spaceless e made_it = cc

  -- A route that a constructor makes of an ASCII pattern without spaces has that pattern as its
  -- `url`, the name that was given, and the kind and the inner router of its view.
  pub route_call-url :
      (c : RouteCall) (r : Route)
      → IsAscii (pattern_of c)
      → NoSpace u (pattern_of c)
      → route_call c ≡ made r
      → (url_of r ≡ pattern_of c) × Holds c r
  unfolding with_handler with_handler_and_name with_router kind router_in
  route_call-url (handler_call url h) r plain spaceless e =
      let (shown, viewed, named) =
        from_parsed-url url (new u url) (handler h) none r plain spaceless refl e in
      (shown, (rw viewed refl, named, rw viewed refl))
  route_call-url (named_call url h name) r plain spaceless e =
      let (shown, viewed, named) =
        from_parsed-url url (new u url) (handler h) (some name) r plain spaceless refl e in
      (shown, (rw viewed refl, named, rw viewed refl))
  route_call-url (router_call url inner) r plain spaceless e =
      let (shown, viewed, named) =
        from_parsed-url url (new u url) (router inner) none r plain spaceless refl e in
      (shown, (rw viewed refl, named, rw viewed refl))
