-- ===== src/ErrorPage.antt =====
-- cot/src/error_page.rs: the pages for errors, panics and paths that lead nowhere. The template
-- engine, the files that are included and what the standard library prints are parameters; an
-- error, a request and a configuration are what is shown of them.
pub mod Listing
pub mod Tests
use flareon.Base.{
  ℕ, zero, suc, ◌+◌, List, [], ◌∷◌, ◌++◌, Option, none, some, Bool, true, false, Text, codes, map,
}
use mathlib.Core.Option as Options
use flareon.Matcher.{display}
use flareon.Router.{RouteInner, handler, router, Router, router_of, Routes, no_routes, route}

pub data ErrorPageTrigger : Type 0 where
  not_found : ErrorPageTrigger

-- The status, the body and the trigger among the extensions.
pub record Response : Type 0 where
  pub status : ℕ
  pub body : Text
  pub error_page_trigger : Option ErrorPageTrigger

-- `std::error::Error`: its `Display`, its `Debug`, whether it is an error of Cot, and its source.
pub data ErrorValue : Type 0 where
  cause : Text → Text → Bool → ErrorValue
  caused_by : Text → Text → Bool → ErrorValue → ErrorValue

pub record Error : Type 0 where
  pub value : ErrorValue
  pub backtrace : Text

-- What a panic carries.
pub data PanicPayload : Type 0 where
  str string : Text → PanicPayload
  other : PanicPayload

pub record RequestData : Type 0 where
  pub method : Text
  pub url : Text
  pub protocol_version : Text
  pub headers : List (Text × Text)

pub record Diagnostics : Type 0 where
  pub project_config : Text
  pub diagnosed_router : Router
  pub request_parts : Option RequestData

pub data Kind : Type 0 where
  not_found_kind error_kind panic_kind : Kind

pub record ErrorData : Type 0 where
  pub description : Text
  pub debug_str : Text
  pub is_cot_error : Bool

pub record RouteData : Type 0 where
  pub index : Text
  pub path : Text
  pub kind : Text
  pub name : Text

pub record ErrorPageTemplate : Type 0 where
  pub kind : Kind
  pub panic_string : Option Text
  pub panic_location : Option Text
  pub backtrace : Option Text
  pub error_data : List ErrorData
  pub route_data : List RouteData
  pub request_data : Option RequestData
  pub project_config : Text

-- The two thread-local cells.
pub record PanicCells : Type 0 where
  pub panic_location : Option Text
  pub panic_backtrace : Option Text

pub record Assets : Type 0 where
  pub to_string : ℕ → Text
  pub render : ErrorPageTemplate → Option Text
  pub default_server_error_page : Text
  pub default_not_found_page : Text
  pub failure_page : Text

abbrev default_template : ErrorPageTemplate
default_template = record {
  kind = error_kind;
  panic_string = none;
  panic_location = none;
  backtrace = none;
  error_data = [];
  route_data = [];
  request_data = none;
  project_config = [];
}

unfoldable pub build_error_data : List ErrorData → ErrorValue → List ErrorData
build_error_data vec (cause shown debug cot) =
    vec ++ record { description = shown; debug_str = debug; is_cot_error = cot } ∷ []
build_error_data vec (caused_by shown debug cot source) =
    build_error_data
      (vec ++ record { description = shown; debug_str = debug; is_cot_error = cot } ∷ []) source

abbrev pub get_panic_string : PanicPayload → Option Text
get_panic_string (str t) = some t
get_panic_string (string t) = some t
get_panic_string other = none

unfoldable pub not_found_template : ErrorPageTemplate
not_found_template = record default_template { kind = not_found_kind }

unfoldable pub error_template : Error → ErrorPageTemplate
error_template e = record default_template {
  kind = error_kind;
  error_data = build_error_data [] e.value;
  backtrace = some e.backtrace;
}

unfoldable pub panic_template : PanicPayload → PanicCells → ErrorPageTemplate × PanicCells
panic_template payload cells = (
  record default_template {
    kind = panic_kind;
    panic_string = get_panic_string payload;
    panic_location = cells.panic_location;
    backtrace = cells.panic_backtrace;
  },
  record { panic_location = none; panic_backtrace = none },
)

unfoldable pub error_page_panic_hook : Option Text → Text → PanicCells → PanicCells
error_page_panic_hook location backtrace cells = record {
  panic_location = location;
  panic_backtrace = some backtrace;
}

-- A router's kind, which depends on whether there are rows in front of it.
abbrev kind_name : RouteInner → List RouteData → Text
kind_name (handler h) rows = codes "View"
kind_name (router r) [] = codes "Root Router"
kind_name (router r) (_ ∷ _) = codes "Router"

abbrev name_or_default : Option Text → Text
name_or_default none = []
name_or_default (some name) = name

module _ (assets : Assets) where
  unfoldable mutual
    pub build_route_data : List RouteData → Router → Text → Text → List RouteData
    build_route_data rows (router_of urls names) url_prefix index_prefix =
        route_rows rows urls url_prefix index_prefix 0

    -- The loop over the routes, from an index on.
    pub route_rows : List RouteData → Routes → Text → Text → ℕ → List RouteData
    route_rows rows no_routes url_prefix index_prefix index = rows
    route_rows rows (route url view name rest) url_prefix index_prefix index =
        let path = url_prefix ++ display url.parts in
        let at = index_prefix ++ assets.to_string index in
        let pushed =
          rows
          ++ record {
            index = at;
            path = path;
            kind = kind_name view rows;
            name = name_or_default name;
          }
            ∷ [] in
        route_rows (inner_rows pushed view path (at ++ codes ".")) rest url_prefix index_prefix
          (index + 1)

    pub inner_rows : List RouteData → RouteInner → Text → Text → List RouteData
    inner_rows rows (handler h) url_prefix index_prefix = rows
    inner_rows rows (router r) url_prefix index_prefix =
        build_route_data rows r url_prefix index_prefix

  unfoldable pub diagnostics : ErrorPageTemplate → Diagnostics → ErrorPageTemplate
  unfolding build_route_data
  diagnostics t d = record t {
    project_config = d.project_config;
    route_data = build_route_data [] d.diagnosed_router [] [];
    request_data = d.request_parts;
  }

  abbrev plain_response : ℕ → Text → Response
  plain_response status body = record { status = status; body = body; error_page_trigger = none }

  unfoldable pub build_cot_server_error_page : Response
  build_cot_server_error_page = plain_response 500 assets.default_server_error_page

  unfoldable pub build_cot_not_found_page : Response
  build_cot_not_found_page = plain_response 404 assets.default_not_found_page

  unfoldable pub build_cot_failure_page : Response
  build_cot_failure_page = plain_response 500 assets.failure_page

  unfoldable pub build_response : Option Text → ℕ → Response
  unfolding build_cot_failure_page
  build_response (some page) status = plain_response status page
  build_response none status = build_cot_failure_page

  unfoldable pub handle_not_found : Diagnostics → Response
  unfolding build_response diagnostics not_found_template
  handle_not_found d = build_response (assets.render (diagnostics not_found_template d)) 404

  unfoldable pub handle_response_error : Error → Diagnostics → Response
  unfolding build_response diagnostics error_template
  handle_response_error e d = build_response (assets.render (diagnostics (error_template e) d)) 500

  unfoldable pub handle_response_panic :
      PanicPayload → Diagnostics → PanicCells → Response × PanicCells
  unfolding build_response diagnostics panic_template
  handle_response_panic payload d cells =
      let (t, cells') = panic_template payload cells in
      (build_response (assets.render (diagnostics t d)) 500, cells')
