-- ===== src/Params/Routed.antt =====
-- From a URL that `reverse` made to the value of its parameter: cot/src/router.rs and
-- cot/src/request/path_params_deserializer.rs.
use flareon.Base.{
  ℕ, List, [], ◌∷◌, reverse, map, Option, some, Text, All, lookup, insert, ◌≡◌, refl, sym, ap, ◌∙◌,
  subst, arith, Text-Eq,
}
use mathlib.Core.List.{append-nil}
use flareon.Matcher.{
  Reversed, PathMatcher, PathParam, CaptureResult, ReverseParamMap, reverse_path, capture,
  matches_fully,
}
use flareon.Matcher.Capture.{IsValue, names, pairs}
use flareon.Matcher.Filling.{Given}
use flareon.Matcher.Reverse.{IsDelimited, capture-reverse_path}
use flareon.Router.{
  Routes, Names, router_of, route, handler, handled, route_request, insert_all, get_handler,
  matches_to_path_params,
}
use flareon.Params.{
  IndexMap, IsIndexMap, PathParams, new, insert_param, Std, Visitor, Scalar, parsed, scalar,
  of_params, deserialize,
}

some_injective : {v w : Text} → ◌≡◌ {A = Option Text} (some v) (some w) → v ≡ w
some_injective e = cc

found_first :
    (m : PathMatcher) (h : ℕ) (route_name : Option Text) (rest : Routes) (url_names : Names)
    (path : Text) {r : CaptureResult} {ps : List (Text × Text)}
    → capture m path ≡ some r
    → r.remaining_path ≡ []
    → pairs r.params ≡ ps
    → get_handler (router_of (route m (handler h) route_name rest) url_names) path
      ≡ some (record { handler_id = h; name = route_name; params = reverse ps })
unfolding get_handler matches_fully matches_to_path_params
found_first m h route_name rest url_names path hit behind taken = ground arith

one_param :
    (ps : List PathParam) (name : Text) (params : ReverseParamMap) {value : Text}
    → map (λ p. p.name) ps ≡ name ∷ []
    → Given params ps
    → lookup name params ≡ some value
    → pairs ps ≡ (name, value) ∷ []
one_param [] name params e g at = absurd (cc)
one_param (p ∷ []) name params {value} e g at =
    let same : p.name ≡ name = cc in
    let held : ◌≡◌ {A = Option Text} (some p.value) (some value) =
      sym g.0 ∙ ap (λ n. lookup n params) same ∙ at in
    rw same (ap (λ v. (name, v) ∷ []) (some_injective held))
one_param (p ∷ q ∷ ps) name params e g at = absurd (cc)

-- The parameters of a request, inserted one by one.
abbrev pub insert_params : {im : IndexMap} → List (Text × Text) → PathParams im → PathParams im
insert_params [] p = p
insert_params ((name, value) ∷ rest) p = insert_params rest (insert_param name value p)

-- A route at the front of a router leads to a handler, its pattern has one parameter, which is
-- delimited, and is given a value that is not empty and holds no `/`: then the URL that `reverse`
-- makes of it is routed to that handler, and reading a scalar from the parameters of the request,
-- in an `IndexMap` that does what is documented, hands the visitor what `str::parse` reads from the
-- given value.
pub deserialize-route_request :
    {im : IndexMap} (d : IsIndexMap im) {A : Type 0} {std : Std} (visitor : Visitor im std A)
    (s : Scalar) (v : std.Value s) (m : PathMatcher) (params : ReverseParamMap)
    (path name value : Text) (h : ℕ) (route_name : Option Text) (rest : Routes) (url_names : Names)
    → IsDelimited m.parts
    → All (λ kv. IsValue kv.1) params
    → names m.parts ≡ name ∷ []
    → lookup name params ≡ some value
    → std.parse s value ≡ some v
    → reverse_path m params ≡ Reversed.ok path
    → (ps : List (Text × Text)) × (route_request
          (router_of (route m (handler h) route_name rest) url_names)
          path
        ≡ handled h ps route_name)
      × (deserialize (of_params (insert_params ps new)) (scalar s) visitor ≡ visitor.visit s v)
unfolding route_request insert_all insert insert_param new deserialize
deserialize-route_request {im = im} d visitor s v m params path name value h route_name rest
      url_names delimited valued one at read e =
    let (r, hit, behind, named, given) =
      capture-reverse_path m params path [] delimited valued tt e in
    let ps = one_param r.params name params (named ∙ one) given at in
    let exact = subst (λ (t : Text). capture m t ≡ some r) (append-nil path) hit in
    (
      (name, value) ∷ [],
      rw (found_first m h route_name rest url_names path exact behind ps, route_request) refl,
      rw
          (
            d.len_lem (im.insert name value im.new),
            d.get_index_lem 0 (im.insert name value im.new),
            d.entries-insert name value im.new,
            d.entries-new,
            read,
            parsed,
          )
          refl,
    )
