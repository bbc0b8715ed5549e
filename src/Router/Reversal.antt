-- ===== src/Router/Reversal.antt =====
-- `reverse_option` against the flat entries of a router.
use flareon.Base.{
  ℕ, ◌≡◌, ◌≢◌, refl, sym, ◌∙◌, ap, subst, List, [], ◌∷◌, ◌++◌, map, Option, none, some, Text,
  Text-Eq, text_eq_refl, lookup, lookup-insert, All, All-append, Option-cases, inl, inr, arith,
}
use flareon.Matcher.{
  PathMatcher, ReverseParamMap, ReverseError, Reversed, ok, err, reverse_parts, reverse_path,
}
use flareon.Router.{
  Router, router_of, Routes, Names, note_name, collect_names, ReverseOption, found, absent, failed,
  from_reversed, prefixed, reverse_option, reverse_routes, reverse_view,
}
use flareon.Router.Flat.{Entry, behind, flatten, flatten_routes, flatten_view}
use flareon.Router.Named.{
  BuiltRouter, BuiltRoutes, IsListed, IsNamed, Memᴰ-left, Memᴰ-map, Memᴰ-right, Reverses,
  after_text, built, collect_names-none, collect_names-some, no_more, reverse_parts-acc,
  reverse_parts-append, reversed_after, to_handler, to_router,
}

module _ (name : Text) (params : ReverseParamMap) where
  listed-Reverses :
      (es : List Entry) (m : PathMatcher)
      → IsListed es name m
      → Reverses es name params (from_reversed (reverse_path m params))
  unfolding reverse_path
  listed-Reverses es m l = split (reverse_parts params m.parts []) refl
    where
      split :
          (r : Reversed)
          → reverse_parts params m.parts [] ≡ r
          → Reverses es name params (from_reversed r)
      split (ok u) e = record {
        entry = l.entry;
        listed = l.listed;
        named = l.named;
        reversed = ap (λ ps. reverse_parts params ps []) l.same ∙ e;
      }
      split (err x) e = (
        x,
        record {
          entry = l.entry;
          listed = l.listed;
          named = l.named;
          reversed = ap (λ ps. reverse_parts params ps []) l.same ∙ e;
        },
      )

  IsNamed-left :
      {xs : List Entry} (ys : List Entry) {r : Reversed}
      → IsNamed xs name params r
      → IsNamed (xs ++ ys) name params r
  IsNamed-left ys n = record {
    entry = n.entry;
    listed = Memᴰ-left ys n.listed;
    named = n.named;
    reversed = n.reversed;
  }

  IsNamed-right :
      (xs : List Entry) {ys : List Entry} {r : Reversed}
      → IsNamed ys name params r
      → IsNamed (xs ++ ys) name params r
  IsNamed-right xs n = record {
    entry = n.entry;
    listed = Memᴰ-right xs n.listed;
    named = n.named;
    reversed = n.reversed;
  }

  -- The same entry behind a prefix, from what the prefix and the entry give.
  IsNamed-behind :
      (m : PathMatcher) (es : List Entry) (prefix r : Reversed)
      → reverse_path m params ≡ prefix
      → (n : IsNamed es name params r)
      → IsNamed (map (behind m.parts) es) name params (reversed_after params prefix n.entry.parts)
  unfolding reverse_path
  IsNamed-behind m es prefix r e n = record {
    entry = behind m.parts n.entry;
    listed = Memᴰ-map (behind m.parts) n.listed;
    named = n.named;
    reversed =
        reverse_parts-append params m.parts n.entry.parts []
        ∙ ap (λ q. reversed_after params q n.entry.parts) e;
  }

  behind-found :
      (m : PathMatcher) (es : List Entry) (u : Text) (prefix : Reversed)
      → reverse_path m params ≡ prefix
      → IsNamed es name params (ok u)
      → Reverses (map (behind m.parts) es) name params (prefixed prefix u)
  behind-found m es u (ok s) e n =
      subst (IsNamed (map (behind m.parts) es) name params)
        (reverse_parts-acc params n.entry.parts s ∙ ap (after_text s) n.reversed)
        (IsNamed-behind m es (ok s) (ok u) e n)
  behind-found m es u (err x) e n = (x, IsNamed-behind m es (err x) (ok u) e n)

  behind-failed :
      (m : PathMatcher) (es : List Entry) (x : ReverseError) (prefix : Reversed)
      → reverse_path m params ≡ prefix
      → IsNamed es name params (err x)
      → (y : ReverseError) × IsNamed (map (behind m.parts) es) name params (err y)
  behind-failed m es x (ok s) e n = (
    x,
    subst (IsNamed (map (behind m.parts) es) name params)
        (reverse_parts-acc params n.entry.parts s ∙ ap (after_text s) n.reversed)
        (IsNamed-behind m es (ok s) (err x) e n),
  )
  behind-failed m es x (err y) e n = (y, IsNamed-behind m es (err y) (err x) e n)

  All-behind :
      (m : PathMatcher) (es : List Entry)
      → All (λ e. e.name ≢ some name) es
      → All (λ e. e.name ≢ some name) (map (behind m.parts) es)
  All-behind m [] h = tt
  All-behind m (e ∷ es) (p, h) = (p, All-behind m es h)

  -- One round of the loop: the inner router's result, or that of the later routes.
  abbrev round : PathMatcher → ReverseOption → ReverseOption → ReverseOption
  round m inner later = elim inner [
    | found u ↦ prefixed (reverse_path m params) u
    | absent ↦ later
    | failed e ↦ failed e
  ]

  round-Reverses :
      (m : PathMatcher) (es later_es : List Entry) (inner later : ReverseOption)
      → Reverses es name params inner
      → Reverses later_es name params later
      → Reverses (map (behind m.parts) es ++ later_es) name params (round m inner later)
  round-Reverses m es later_es (found u) later h k =
      widen (prefixed (reverse_path m params) u) (not_absent (reverse_path m params))
        (behind-found m es u (reverse_path m params) refl h)
    where
      not_absent : (prefix : Reversed) → prefixed prefix u ≢ absent
      not_absent (ok s) = cc
      not_absent (err x) = cc

      widen :
          (r : ReverseOption)
          → r ≢ absent
          → Reverses (map (behind m.parts) es) name params r
          → Reverses (map (behind m.parts) es ++ later_es) name params r
      widen (found v) ne n = IsNamed-left later_es n
      widen absent ne n = absurd (ne refl)
      widen (failed x) ne (y, n) = (y, IsNamed-left later_es n)
  round-Reverses m es later_es absent (found u) h k = IsNamed-right (map (behind m.parts) es) k
  round-Reverses m es later_es absent absent h k =
      All-append (λ e. e.name ≢ some name) (map (behind m.parts) es) later_es (All-behind m es h) k
  round-Reverses m es later_es absent (failed x) h (y, n) =
      (y, IsNamed-right (map (behind m.parts) es) n)
  round-Reverses m es later_es (failed x) later (y, n) k =
      let (z, n') = behind-failed m es y (reverse_path m params) refl n in
      (z, IsNamed-left later_es n')

  handler-ne :
      (m : PathMatcher) (k : Option Text) (acc : Names)
      → lookup name (note_name k m acc) ≡ none
      → k ≢ some name
  handler-ne m none acc e h = cc
  handler-ne m (some k) acc e h = ground (arith, lookup-insert k name m acc, text_eq_refl name)

  handler-Reverses :
      (m : PathMatcher) (h : ℕ) (k : Option Text) (es : List Entry) (r : ReverseOption)
      → k ≢ some name
      → Reverses es name params r
      → Reverses (record { parts = m.parts; handler_id = h; name = k } ∷ es) name params r
  handler-Reverses m h k es (found u) ne n =
      IsNamed-right (record { parts = m.parts; handler_id = h; name = k } ∷ []) n
  handler-Reverses m h k es absent ne n = (ne, n)
  handler-Reverses m h k es (failed x) ne (y, n) =
      (y, IsNamed-right (record { parts = m.parts; handler_id = h; name = k } ∷ []) n)

  top-Reverses :
      {urls : Routes} (m : PathMatcher)
      → BuiltRoutes urls
      → lookup name (collect_names urls []) ≡ some m
      → Reverses (flatten_routes urls) name params (from_reversed (reverse_path m params))
  unfolding lookup
  top-Reverses {urls} m b at = elim (collect_names-some name [] m b at) [
    | inl none_at_start ↦ cc
    | inr l ↦ listed-Reverses (flatten_routes urls) m l
  ]

  option-none :
      (urls : Routes) (names : Names)
      → lookup name names ≡ none
      → reverse_option (router_of urls names) name params ≡ reverse_routes urls name params
  unfolding reverse_option
  option-none urls names e = ground arith

  option-some :
      (urls : Routes) (names : Names) (m : PathMatcher)
      → lookup name names ≡ some m
      → reverse_option (router_of urls names) name params ≡ from_reversed (reverse_path m params)
  unfolding reverse_option
  option-some urls names m e = ground arith

  mutual
    unfolding reverse_option reverse_routes reverse_view flatten flatten_routes flatten_view
        collect_names

    option-Reverses :
        {r : Router}
        → BuiltRouter r
        → Reverses (flatten r) name params (reverse_option r name params)
    option-Reverses (built {urls} {names} eq b) = elim (Option-cases (lookup name names)) [
      | inl missing ↦
          subst (Reverses (flatten_routes urls) name params) (sym (option-none urls names missing))
            (routes-Reverses [] b (subst (λ ns. lookup name ns ≡ none) eq missing))
      | inr (m, at) ↦
          subst (Reverses (flatten_routes urls) name params) (sym (option-some urls names m at))
            (top-Reverses m b (subst (λ ns. lookup name ns ≡ some m) eq at))
    ]

    routes-Reverses :
        {urls : Routes} (acc : Names)
        → BuiltRoutes urls
        → lookup name (collect_names urls acc) ≡ none
        → Reverses (flatten_routes urls) name params (reverse_routes urls name params)
    routes-Reverses acc no_more e = tt
    routes-Reverses acc (to_handler {m} {h} {name = k} {rest} b) e =
        handler-Reverses m h k (flatten_routes rest) (reverse_routes rest name params)
          (handler-ne m k acc (collect_names-none rest name (note_name k m acc) e))
          (routes-Reverses (note_name k m acc) b e)
    routes-Reverses acc (to_router {m} {r} {rest} c b) e =
        round-Reverses m (flatten r) (flatten_routes rest) (reverse_option r name params)
          (reverse_routes rest name params) (option-Reverses c) (routes-Reverses acc b e)

-- For a built router, `reverse_option` returns a URL only as the reversal of an entry of that name,
-- returns none only if no entry has that name, and fails only if such an entry lacks a value.
pub reverse_option-Reverses :
    (r : Router) (name : Text) (params : ReverseParamMap)
    → BuiltRouter r
    → Reverses (flatten r) name params (reverse_option r name params)
reverse_option-Reverses r name params b = option-Reverses name params b
