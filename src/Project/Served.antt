-- ===== src/Project/Served.antt =====
-- What a project that was booted serves, cot/src/project.rs: the views of its apps under their
-- prefixes.
use flareon.Base.{
  List, [], ◌∷◌, ◌++◌, map, Option, none, some, Text, ◌≡◌, refl, sym, ap, subst, ◌∙◌, ◌↔◌,
}
use mathlib.Core.List.{append_assoc, append-nil}
use flareon.Matcher.{PathPart}
use flareon.Matcher.Unicode.{Unicode}
use flareon.Matcher.Pattern.{Parsed}
use flareon.Matcher.Pattern as Pattern
use flareon.Router.{router, Router, Routes, no_routes, route, with_urls}
use flareon.Router.Flat.{Entry, behind, flatten, flatten_routes, flatten_view}
use flareon.Router.Named.{BuiltRouter, built, BuiltRoutes, no_more, to_handler, to_router}
use flareon.Router.Route.{Route, from_parsed, with_router, routes_of}
use flareon.Project.{
  Parts, BootResult, booted, failed, panicked, ◌>>=◌, with_config, with_apps, initialized,
  Registration, register_call, register_with_views_call, Bootstrapper,
}
use flareon.Project.Results.{booted_injective}
use flareon.Project.Boot.{
  context_with_apps, with_auth_and_db, AppBuilder, new_builder, register, pushed,
  register_with_views, register_all, init_database, bootstrapper_with_apps, boot_with_apps,
  boot_apps, boot,
}

-- The apps of the calls in their order, and the entries of those with views, each behind the
-- pattern that its prefix is read as.
pub data Registers (parts : Parts) (u : Unicode)
    : List (Registration parts) → List parts.App → List Entry → Type 0 where
  no_calls : Registers parts u [] [] []
  without_views :
      {app : parts.App} {calls : List (Registration parts)} {apps : List parts.App}
      {es : List Entry}
      → Registers parts u calls apps es
      → Registers parts u (register_call app ∷ calls) (app ∷ apps) es
  with_views :
      {app : parts.App} {url_prefix : Text} {prefix : List PathPart}
      {calls : List (Registration parts)} {apps : List parts.App} {es : List Entry}
      → Pattern.new u url_prefix ≡ Parsed.ok prefix
      → Registers parts u calls apps es
      → Registers parts u
          (register_with_views_call app url_prefix ∷ calls)
          (app ∷ apps)
          (map (behind prefix) (flatten (parts.app_router app)) ++ es)

routes_of-append :
    (rs more : List Route)
    → flatten_routes (routes_of (rs ++ more))
      ≡ flatten_routes (routes_of rs) ++ flatten_routes (routes_of more)
unfolding flatten_routes
routes_of-append [] more = refl
routes_of-append (r ∷ rs) more = rw (routes_of-append rs more) (
    sym (
      append_assoc (flatten_view r.view r.url r.name) (flatten_routes (routes_of rs))
        (flatten_routes (routes_of more))))

-- Routes with another route behind them.
abbrev snoc : Routes → Route → Routes
snoc no_routes r = routes_of (r ∷ [])
snoc (route url view name rest) r = route url view name (snoc rest r)

routes_of-snoc : (rs : List Route) (r : Route) → routes_of (rs ++ r ∷ []) ≡ snoc (routes_of rs) r
routes_of-snoc [] r = refl
routes_of-snoc (q ∷ rs) r = ap (route q.url q.view q.name) (routes_of-snoc rs r)

abbrev to_app : List PathPart → Router → Route
to_app prefix r = record { url = record { parts = prefix }; view = router r; name = none }

snoc-BuiltRoutes :
    (urls : Routes) (prefix : List PathPart) (r : Router)
    → BuiltRoutes urls
    → BuiltRouter r
    → BuiltRoutes (snoc urls (to_app prefix r))
snoc-BuiltRoutes no_routes prefix r no_more b = to_router b no_more
snoc-BuiltRoutes (route m view name rest) prefix r (to_handler bs) b =
    to_handler (snoc-BuiltRoutes rest prefix r bs b)
snoc-BuiltRoutes (route m view name rest) prefix r (to_router b' bs) b =
    to_router b' (snoc-BuiltRoutes rest prefix r bs b)

module _ (parts : Parts) (u : Unicode)
    (built_apps : (app : parts.App) → BuiltRouter (parts.app_router app)) where
  -- What a run of the calls adds to a builder.
  record Adds (calls : List (Registration parts)) (b b' : AppBuilder parts) : Type 0 where
    added_apps : List parts.App
    added : List Entry
    all_apps : b'.apps ≡ b.apps ++ added_apps
    entries : flatten_routes (routes_of b'.urls) ≡ flatten_routes (routes_of b.urls) ++ added
    registers : Registers parts u calls added_apps added
    well_built : BuiltRoutes (routes_of b.urls) → BuiltRoutes (routes_of b'.urls)

  -- The builder after a registration with views.
  abbrev viewed : parts.App → List PathPart → AppBuilder parts → AppBuilder parts
  viewed app prefix b = record {
    apps = b.apps ++ app ∷ [];
    urls = b.urls ++ to_app prefix (parts.app_router app) ∷ [];
  }

  views-Adds :
      (app : parts.App) (url_prefix : Text) (prefix : List PathPart)
      (calls : List (Registration parts)) (b b' : AppBuilder parts)
      → Pattern.new u url_prefix ≡ Parsed.ok prefix
      → Adds calls (viewed app prefix b) b'
      → Adds (register_with_views_call app url_prefix ∷ calls) b b'
  unfolding flatten_routes
  views-Adds app url_prefix prefix calls b b' parsed rest =
      let es = map (behind prefix) (flatten (parts.app_router app)) in
      record {
        added_apps = app ∷ rest.added_apps;
        added = es ++ rest.added;
        all_apps = rest.all_apps ∙ append_assoc b.apps (app ∷ []) rest.added_apps;
        entries =
            rest.entries
            ∙ ap (λ xs. xs ++ rest.added)
                (routes_of-append b.urls (to_app prefix (parts.app_router app) ∷ [])
                  ∙ ap (λ xs. flatten_routes (routes_of b.urls) ++ xs) (append-nil es))
            ∙ append_assoc (flatten_routes (routes_of b.urls)) es rest.added;
        registers = with_views parsed rest.registers;
        well_built = λ bs. rest.well_built (
            subst BuiltRoutes (sym (routes_of-snoc b.urls (to_app prefix (parts.app_router app)))) (
              snoc-BuiltRoutes (routes_of b.urls) prefix (parts.app_router app) bs
                (built_apps app)));
      }

  views-step :
      (o : Parsed) (app : parts.App) (url_prefix : Text) (calls : List (Registration parts))
      (b b' : AppBuilder parts)
      → Pattern.new u url_prefix ≡ o
      → ((pushed (from_parsed o (router (parts.app_router app)) none) b >>= λ b₁.
            booted (register app b₁))
          >>= register_all u calls)
        ≡ booted b'
      → ((b₁ : AppBuilder parts) → register_all u calls b₁ ≡ booted b' → Adds calls b₁ b')
      → Adds (register_with_views_call app url_prefix ∷ calls) b b'
  unfolding register
  views-step (Parsed.ok prefix) app url_prefix calls b b' parsed e ih =
      views-Adds app url_prefix prefix calls b b' parsed (ih (viewed app prefix b) e)
  views-step (Parsed.err x) app url_prefix calls b b' parsed e ih = absurd (cc)

  nothing-Adds : (b : AppBuilder parts) → Adds [] b b
  nothing-Adds b = record {
    added_apps = [];
    added = [];
    all_apps = sym (append-nil b.apps);
    entries = sym (append-nil (flatten_routes (routes_of b.urls)));
    registers = no_calls;
    well_built = λ bs. bs;
  }

  register_all-Adds :
      (calls : List (Registration parts)) (b b' : AppBuilder parts)
      → register_all u calls b ≡ booted b'
      → Adds calls b b'
  unfolding register_all register register_with_views with_router
  register_all-Adds [] b b' e =
      subst (Adds [] b) (booted_injective b b' tt tt (ap (λ o. (o, tt)) e)).0 (nothing-Adds b)
  register_all-Adds (register_call app ∷ calls) b b' e =
      let ih = register_all-Adds calls (register app b) b' e in
      record {
        added_apps = app ∷ ih.added_apps;
        added = ih.added;
        all_apps = ih.all_apps ∙ append_assoc b.apps (app ∷ []) ih.added_apps;
        entries = ih.entries;
        registers = without_views ih.registers;
        well_built = ih.well_built;
      }
  register_all-Adds (register_with_views_call app url_prefix ∷ calls) b b' e =
      views-step (Pattern.new u url_prefix) app url_prefix calls b b' refl e
        (λ b₁. register_all-Adds calls b₁ b')

  -- The bootstrapper of the last phase but one, around a builder.
  abbrev with_builder :
      Bootstrapper parts with_config → AppBuilder parts → Bootstrapper parts with_apps
  with_builder b builder = record {
    project = b.project;
    context = context_with_apps builder.apps (with_urls (routes_of builder.urls)) b.context;
    handler = b.handler;
  }

  -- What a booted project has.
  pub record IsBooted (b : Bootstrapper parts with_config) (b' : Bootstrapper parts initialized)
      : Type 0 where
    pub registers :
        Registers parts u
          (b.project.register_apps b.context)
          b'.context.apps
          (flatten b'.context.router)
    pub well_built : BuiltRouter b'.context.router
    pub configured : b'.context.config ≡ b.context.config
    pub connected : (b.context.config.database_url ≡ none) ↔ (b'.context.database ≡ none)
    pub handled :
        b'.handler
        ≡ b.project.middlewares b'.context.router (record {
          config = b.context.config;
          apps = b'.context.apps;
          router = b'.context.router;
          auth_backend = tt;
          database = tt;
        })

  some_database :
      {S B : Type 0} (r : BootResult parts.Database) (s₁ : S) (f : Option parts.Database → B)
      {b' : B} {s' : S}
      → ◌≡◌ {A = BootResult B × S}
          ((r >>= λ d. booted (some d)) >>= λ d. booted (f d), s₁)
          (booted b', s')
      → (d : parts.Database) × (f (some d) ≡ b')
  some_database (booted d) s₁ f {b'} {s'} e = (d, (booted_injective (f (some d)) b' s₁ s' e).0)
  some_database (failed x) s₁ f e = absurd (cc)
  some_database panicked s₁ f e = absurd (cc)

  init_database-connected :
      {S B : Type 0} (connect : Text → S → BootResult parts.Database × S) (url : Option Text)
      (s : S) (f : Option parts.Database → B) {b' : B} {s' : S}
      → (let (database, s₁) = init_database connect url s in
          ◌≡◌ {A = BootResult B × S} (database >>= λ d. booted (f d), s₁) (booted b', s'))
      → (d : Option parts.Database) × (f d ≡ b') × ((url ≡ none) ↔ (d ≡ none))
  init_database-connected connect none s f {b'} {s'} e =
      (none, (booted_injective (f none) b' s s' e).0, (λ _. refl, λ _. refl))
  init_database-connected connect (some url) s f e =
      let (d, same) = some_database (connect url s).0 (connect url s).1 f e in
      (some d, same, (λ h. absurd (cc), λ h. absurd (cc)))

  builder-IsBooted :
      {S : Type 0} (connect : Text → S → BootResult parts.Database × S)
      (o : BootResult (AppBuilder parts)) (b : Bootstrapper parts with_config)
      (b' : Bootstrapper parts initialized) (s s' : S)
      → register_all u (b.project.register_apps b.context) new_builder ≡ o
      → boot_apps connect (o >>= λ builder. booted (with_builder b builder)) s ≡ (booted b', s')
      → IsBooted b b'
  unfolding boot_with_apps with_auth_and_db context_with_apps with_urls flatten
  builder-IsBooted connect (booted builder) b b' s s' registered e =
      let adds =
        register_all-Adds (b.project.register_apps b.context) new_builder builder registered in
      let (d, same, connected) =
        init_database-connected connect b.context.config.database_url s _ e in
      subst (IsBooted b) same (record {
        registers =
            subst
              (λ apps.
                Registers parts u (b.project.register_apps b.context) apps
                  (flatten_routes (routes_of builder.urls)))
              (sym adds.all_apps)
              (subst (Registers parts u (b.project.register_apps b.context) adds.added_apps)
                (sym adds.entries) adds.registers);
        well_built = built refl (adds.well_built no_more);
        configured = refl;
        connected = connected;
        handled = refl;
      })
  builder-IsBooted connect (failed x) b b' s s' registered e = absurd (cc)
  builder-IsBooted connect panicked b b' s s' registered e = absurd (cc)

  -- A project whose apps have routers that `with_urls` made, booted without an error: its apps are
  -- those of the calls of `register_apps`, in their order; its router serves exactly the entries of the
  -- apps with views, in the order of the calls, each behind the pattern of its prefix, and is
  -- itself as `with_urls` makes it; the configuration is the one that was given, there is a
  -- database exactly if it has a URL for one, and the handler is what `middlewares` makes of the
  -- router, in the context that has the apps but no database yet.
  pub boot-IsBooted :
      {S : Type 0} (connect : Text → S → BootResult parts.Database × S)
      (b : Bootstrapper parts with_config) (b' : Bootstrapper parts initialized) (s s' : S)
      → boot u connect b s ≡ (booted b', s')
      → IsBooted b b'
  unfolding boot bootstrapper_with_apps
  boot-IsBooted connect b b' s s' e =
      builder-IsBooted connect (register_all u (b.project.register_apps b.context) new_builder) b b'
        s s' refl e
