-- ===== src/Router/Named.antt =====
-- Routers as `with_urls` builds them, and the entries that a name stands for.
use flareon.Base.{
  ℕ, ◌≡◌, ◌≢◌, refl, sym, ◌∙◌, ap, List, [], ◌∷◌, ◌++◌, map, Option, none, some, Text, Text-Eq,
  text_eq, text_eq_iff, lookup, insert, lookup-insert, All, Option-cases, Bool-cases, ◌⊎◌, inl, inr,
  arith,
}
use mathlib.Core.List.{append_assoc, append-nil, Memᴰ}
use flareon.Matcher.{
  PathPart, literal, param, PathMatcher, ReverseParamMap, ReverseError, Reversed, ok, err,
  reverse_parts,
}
use flareon.Router.{
  handler, router, Router, router_of, Routes, no_routes, route, Names, collect_names, ReverseOption,
  found, absent, failed,
}
use flareon.Router.Flat.{Entry, behind, flatten, flatten_routes, flatten_view}

-- A router that `with_urls` made of routes to handlers, named or not, and routes to such routers.
mutual
  pub data BuiltRouter : Router → Type 0 where
    built :
        {urls : Routes} {names : Names}
        → names ≡ collect_names urls []
        → BuiltRoutes urls
        → BuiltRouter (router_of urls names)

  pub data BuiltRoutes : Routes → Type 0 where
    no_more : BuiltRoutes no_routes
    to_handler :
        {m : PathMatcher} {h : ℕ} {name : Option Text} {rest : Routes}
        → BuiltRoutes rest
        → BuiltRoutes (route m (handler h) name rest)
    to_router :
        {m : PathMatcher} {r : Router} {rest : Routes}
        → BuiltRouter r
        → BuiltRoutes rest
        → BuiltRoutes (route m (router r) none rest)

abbrev pub reversed_after : ReverseParamMap → Reversed → List PathPart → Reversed
reversed_after params (ok s) later = reverse_parts params later s
reversed_after params (err e) later = err e

pub reverse_parts-append :
    (params : ReverseParamMap) (parts later : List PathPart) (acc : Text)
    → reverse_parts params (parts ++ later) acc
      ≡ reversed_after params (reverse_parts params parts acc) later
unfolding reverse_parts
reverse_parts-append params [] later acc = refl
reverse_parts-append params (literal s ∷ parts) later acc =
    reverse_parts-append params parts later (acc ++ s)
reverse_parts-append params (param n ∷ parts) later acc = elim (Option-cases (lookup n params)) [
  | inl missing ↦ ground arith
  | inr (v, at) ↦ ground (arith, reverse_parts-append params parts later (acc ++ v))
]

abbrev pub after_text : Text → Reversed → Reversed
after_text acc (ok t) = ok (acc ++ t)
after_text acc (err e) = err e

pub after_text-append :
    (a b : Text) (r : Reversed) → after_text (a ++ b) r ≡ after_text a (after_text b r)
after_text-append a b (ok t) = ap ok (append_assoc a b t)
after_text-append a b (err e) = refl

pub reverse_parts-acc :
    (params : ReverseParamMap) (parts : List PathPart) (acc : Text)
    → reverse_parts params parts acc ≡ after_text acc (reverse_parts params parts [])
unfolding reverse_parts
reverse_parts-acc params [] acc = ap ok (sym (append-nil acc))
reverse_parts-acc params (literal s ∷ parts) acc =
    reverse_parts-acc params parts (acc ++ s)
    ∙ after_text-append acc s (reverse_parts params parts [])
    ∙ ap (after_text acc) (sym (reverse_parts-acc params parts s))
reverse_parts-acc params (param n ∷ parts) acc = elim (Option-cases (lookup n params)) [
  | inl missing ↦ ground arith
  | inr (v, at) ↦ ground (
    arith,
    reverse_parts-acc params parts (acc ++ v),
    after_text-append acc v (reverse_parts params parts []),
    reverse_parts-acc params parts v,
  )
]

-- An entry with the name, and what its parts give.
pub record IsNamed (es : List Entry) (name : Text) (params : ReverseParamMap) (r : Reversed)
    : Type 0 where
  pub entry : Entry
  pub listed : Memᴰ entry es
  pub named : entry.name ≡ some name
  pub reversed : reverse_parts params entry.parts [] ≡ r

-- What `reverse_option` says of the entries: it found the text of one with the name, there is none,
-- or one with the name lacks a value.
abbrev pub Reverses : List Entry → Text → ReverseParamMap → ReverseOption → Type 0
Reverses es name params (found u) = IsNamed es name params (ok u)
Reverses es name params absent = All (λ e. e.name ≢ some name) es
Reverses es name params (failed _) = (e : ReverseError) × IsNamed es name params (err e)

pub Memᴰ-left : {e : Entry} {xs : List Entry} (ys : List Entry) → Memᴰ e xs → Memᴰ e (xs ++ ys)
Memᴰ-left ys (Memᴰ.head p) = Memᴰ.head p
Memᴰ-left ys (Memᴰ.tail m) = Memᴰ.tail (Memᴰ-left ys m)

pub Memᴰ-right : {e : Entry} (xs : List Entry) {ys : List Entry} → Memᴰ e ys → Memᴰ e (xs ++ ys)
Memᴰ-right [] m = m
Memᴰ-right (x ∷ xs) m = Memᴰ.tail (Memᴰ-right xs m)

pub Memᴰ-map : (f : Entry → Entry) {e : Entry} {xs : List Entry} → Memᴰ e xs → Memᴰ (f e) (map f xs)
Memᴰ-map f (Memᴰ.head p) = Memᴰ.head (ap f p)
Memᴰ-map f (Memᴰ.tail m) = Memᴰ.tail (Memᴰ-map f m)

-- The entry that a level's name leads to.
pub record IsListed (es : List Entry) (name : Text) (m : PathMatcher) : Type 0 where
  pub entry : Entry
  pub listed : Memᴰ entry es
  pub named : entry.name ≡ some name
  pub same : entry.parts ≡ m.parts

pub collect_names-none :
    (urls : Routes) (name : Text) (acc : Names)
    → lookup name (collect_names urls acc) ≡ none
    → lookup name acc ≡ none
unfolding collect_names
collect_names-none no_routes name acc e = e
collect_names-none (route m view none rest) name acc e = collect_names-none rest name acc e
collect_names-none (route m view (some k) rest) name acc e =
    ground (arith, collect_names-none rest name (insert k m acc) e, lookup-insert k name m acc)

pub collect_names-some :
    {urls : Routes} (name : Text) (acc : Names) (m : PathMatcher)
    → BuiltRoutes urls
    → lookup name (collect_names urls acc) ≡ some m
    → (lookup name acc ≡ some m) ⊎ IsListed (flatten_routes urls) name m
unfolding collect_names flatten_routes flatten_view
collect_names-some name acc m no_more e = inl e
collect_names-some name acc m (to_handler {m = here} {h} {name = none} b) e =
    elim (collect_names-some name acc m b e) [
      | inl old ↦ inl old
      | inr l ↦
          inr (record {
            entry = l.entry;
            listed = Memᴰ.tail l.listed;
            named = l.named;
            same = l.same;
          })
    ]
collect_names-some name acc m (to_handler {m = here} {h} {name = some k} b) e =
    elim (collect_names-some name (insert k here acc) m b e) [
      | inl at ↦ elim (Bool-cases (text_eq k name)) [
        | inl same ↦
            let is : here ≡ m = ground (arith, lookup-insert k name here acc) in
            inr (record {
              entry = record { parts = here.parts; handler_id = h; name = some k };
              listed = Memᴰ.head refl;
              named = ap some ((text_eq_iff k name).0 same);
              same = ap (λ q. q.parts) is;
            })
        | inr other ↦ inl (ground (arith, lookup-insert k name here acc))
      ]
      | inr l ↦
          inr (record {
            entry = l.entry;
            listed = Memᴰ.tail l.listed;
            named = l.named;
            same = l.same;
          })
    ]
collect_names-some name acc m (to_router {m = here} {r} built_r b) e =
    elim (collect_names-some name acc m b e) [
      | inl old ↦ inl old
      | inr l ↦ inr (record {
        entry = l.entry;
        listed = Memᴰ-right (map (behind here.parts) (flatten r)) l.listed;
        named = l.named;
        same = l.same;
      })
    ]
