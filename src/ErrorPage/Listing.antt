-- ===== src/ErrorPage/Listing.antt =====
-- The routes that a page of cot/src/error_page.rs shows, and those that the router serves.
use flareon.Base.{
  ℕ, ◌+◌, List, [], ◌∷◌, ◌++◌, map, Text, codes, text_eq, if◌then◌else◌, ◌≡◌, refl, sym, ap, ◌∙◌,
  arith,
}
use mathlib.Core.List.{append_assoc, append-nil, map-append}
use flareon.Matcher.{PathPart, display, show_part}
use flareon.Router.{handler, router, Router, router_of, Routes, no_routes, route}
use flareon.Router.Flat.{Entry, behind, flatten, flatten_routes, flatten_view}
use flareon.ErrorPage.{
  RouteData, Assets, Diagnostics, ErrorPageTemplate, kind_name, name_or_default, build_route_data,
  route_rows, inner_rows, diagnostics,
}

-- The paths and names of the rows that are views.
abbrev pub view_rows : List RouteData → List (Text × Text)
view_rows [] = []
view_rows (row ∷ rows) =
    if text_eq row.kind (codes "View")
    then (row.path, row.name) ∷ view_rows rows
    else view_rows rows

-- How an entry is listed, behind a prefix.
abbrev pub listed : Text → Entry → Text × Text
listed prefix e = (prefix ++ display e.parts, name_or_default e.name)

view_rows-append : (xs ys : List RouteData) → view_rows (xs ++ ys) ≡ view_rows xs ++ view_rows ys
view_rows-append [] ys = refl
view_rows-append (x ∷ xs) ys = ground (arith, view_rows-append xs ys)

display-append :
    (parts later : List PathPart) → display (parts ++ later) ≡ display parts ++ display later
unfolding display
display-append [] later = refl
display-append (part ∷ parts) later =
    rw (display-append parts later)
      (sym (append_assoc (show_part part) (display parts) (display later)))

listed-behind :
    (prefix : Text) (parts : List PathPart) (es : List Entry)
    → map (listed (prefix ++ display parts)) es ≡ map (listed prefix) (map (behind parts) es)
listed-behind prefix parts [] = refl
listed-behind prefix parts (e ∷ es) =
    rw
      (
        listed-behind prefix parts es,
        display-append parts e.parts,
        append_assoc prefix (display parts) (display e.parts),
      )
      refl

view_rows-view :
    (rows : List RouteData) (index path name : Text)
    → view_rows
        (rows ++ record { index = index; path = path; kind = codes "View"; name = name } ∷ [])
      ≡ view_rows rows ++ (path, name) ∷ []
view_rows-view rows index path name = view_rows-append rows _

view_rows-router :
    (r : Router) (rows before : List RouteData) (index path name : Text)
    → view_rows (
        rows
        ++ record { index = index; path = path; kind = kind_name (router r) before; name = name }
          ∷ [])
      ≡ view_rows rows
view_rows-router r rows [] index path name = view_rows-append rows _ ∙ append-nil (view_rows rows)
view_rows-router r rows (row ∷ before) index path name =
    view_rows-append rows _ ∙ append-nil (view_rows rows)

module _ (assets : Assets) where
  mutual
    unfolding build_route_data route_rows inner_rows flatten flatten_routes flatten_view

    rows-router :
        (r : Router) (rows : List RouteData) (prefix index_prefix : Text)
        → view_rows (build_route_data assets rows r prefix index_prefix)
          ≡ view_rows rows ++ map (listed prefix) (flatten r)
    rows-router (router_of urls names) rows prefix index_prefix =
        rows-routes urls rows prefix index_prefix 0

    rows-routes :
        (urls : Routes) (rows : List RouteData) (prefix index_prefix : Text) (index : ℕ)
        → view_rows (route_rows assets rows urls prefix index_prefix index)
          ≡ view_rows rows ++ map (listed prefix) (flatten_routes urls)
    rows-routes no_routes rows prefix index_prefix index = sym (append-nil (view_rows rows))
    rows-routes (route url (handler h) name rest) rows prefix index_prefix index =
        let path = prefix ++ display url.parts in
        rows-routes rest _ prefix index_prefix (index + 1)
        ∙ ap (λ xs. xs ++ map (listed prefix) (flatten_routes rest))
            (view_rows-view rows (index_prefix ++ assets.to_string index) path
              (name_or_default name))
        ∙ append_assoc (view_rows rows) ((path, name_or_default name) ∷ [])
            (map (listed prefix) (flatten_routes rest))
    rows-routes (route url (router r) name rest) rows prefix index_prefix index =
        let path = prefix ++ display url.parts in
        let at = index_prefix ++ assets.to_string index in
        rows-routes rest _ prefix index_prefix (index + 1)
        ∙ ap (λ xs. xs ++ map (listed prefix) (flatten_routes rest))
            (rows-router r _ path (at ++ codes ".")
              ∙ ap (λ xs. xs ++ map (listed path) (flatten r))
                  (view_rows-router r rows rows at path (name_or_default name))
              ∙ ap (λ xs. view_rows rows ++ xs) (listed-behind prefix url.parts (flatten r)))
        ∙ append_assoc (view_rows rows) (map (listed prefix) (map (behind url.parts) (flatten r)))
            (map (listed prefix) (flatten_routes rest))
        ∙ ap (λ xs. view_rows rows ++ xs)
            (sym (
              map-append (listed prefix) (map (behind url.parts) (flatten r))
                (flatten_routes rest)))

  -- Whatever page is built, the rows of its routes that are views are, in their order, the handlers
  -- that the router serves, as its flat list of entries has them: each is shown with the joined
  -- patterns on the way to it, and with its name, if it has one.
  pub diagnostics-flatten :
      (t : ErrorPageTemplate) (d : Diagnostics)
      → view_rows (diagnostics assets t d).route_data ≡ map (listed []) (flatten d.diagnosed_router)
  unfolding diagnostics
  diagnostics-flatten t d = rows-router d.diagnosed_router [] [] []
