-- ===== src/Router/Served.antt =====
-- The URLs that `reverse` makes are routed.
use flareon.Base.{◌≡◌, ◌≢◌, sym, ◌∙◌, subst, List, [], ◌∷◌, some, Text, Text-Eq, All, arith}
use mathlib.Core.List.{append-nil, Memᴰ}
use flareon.Matcher.{
  CaptureResult, matches_fully, capture_parts, capture, ReverseParamMap, ok, reverse_path,
}
use flareon.Matcher.Capture.{IsValue}
use flareon.Matcher.Reverse.{IsDelimited, capture-reverse_path}
use flareon.Router.{Router, found, reverse_option, url, reverse_url, not_found, route_request}
use flareon.Router.Flat.{Entry, flatten, serve, route_request-flatten}
use flareon.Router.Named.{BuiltRouter, IsNamed, Reverses}
use flareon.Router.Reversal.{reverse_option-Reverses}

serve-ne-not_found :
    (es : List Entry) (e : Entry) (path : Text) (m : CaptureResult)
    → Memᴰ e es
    → capture_parts e.parts path ≡ some m
    → m.remaining_path ≡ []
    → serve es path ≢ not_found
unfolding serve matches_fully
serve-ne-not_found [] e path m listed hit whole = elim listed [ ]
serve-ne-not_found (x ∷ es) e path m (Memᴰ.head p) hit whole =
    let hit' : capture_parts x.parts path ≡ some m =
      subst (λ y. capture_parts y.parts path ≡ some m) p hit in
    λ h. ground arith
serve-ne-not_found (x ∷ es) e path m (Memᴰ.tail listed) hit whole =
    λ h. ground (arith, serve-ne-not_found es e path m listed hit whole)

url-eq :
    (r : Router) (name : Text) (params : ReverseParamMap) (u : Text)
    → reverse_url r name params ≡ url u
    → reverse_option r name params ≡ found u
unfolding reverse_url
url-eq r name params u e = ground arith

mem-All : (P : Entry → Type 0) (e : Entry) (es : List Entry) → All P es → Memᴰ e es → P e
mem-All P e [] h m = elim m [ ]
mem-All P e (x ∷ es) h (Memᴰ.head p) = subst P (sym p) h.0
mem-All P e (x ∷ es) h (Memᴰ.tail m) = mem-All P e es h.1 m

-- In a built router whose patterns are delimited, with values that are not empty and hold no `/`,
-- a URL that `reverse` makes is routed to a handler: it is never answered by 404.
pub route_request-reverse_url :
    (r : Router) (name : Text) (params : ReverseParamMap) (u : Text)
    → BuiltRouter r
    → All (λ e. IsDelimited e.parts) (flatten r)
    → All (λ kv. IsValue kv.1) params
    → reverse_url r name params ≡ url u
    → route_request r u ≢ not_found
unfolding capture reverse_path
route_request-reverse_url r name params u b delimited values e =
    let n : IsNamed (flatten r) name params (ok u) =
      subst (Reverses (flatten r) name params) (url-eq r name params u e)
        (reverse_option-Reverses r name params b) in
    let (m, hit, rest, _, _) =
      capture-reverse_path (record { parts = n.entry.parts }) params u []
        (mem-All (λ e. IsDelimited e.parts) n.entry (flatten r) delimited n.listed) values tt
        n.reversed in
    λ h.
      serve-ne-not_found (flatten r) n.entry u m n.listed
        (subst (λ t. capture_parts n.entry.parts t ≡ some m) (append-nil u) hit) rest
        (sym (route_request-flatten r u) ∙ h)
