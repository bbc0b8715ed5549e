-- ===== src/Project/Answers.antt =====
-- What is sent for a request, cot/src/project.rs and cot/src/router.rs.
use flareon.Base.{
  ℕ, List, Option, some, false, Bool-cases, if◌then◌else◌, Text, ◌≡◌, refl, ap, ◌∙◌, ◌⊎◌, inl, inr,
  ◌↔◌, arith,
}
use flareon.Router.{handled, Routed}
use flareon.Router.Flat.{flatten, serve, route_request-flatten}
use flareon.ErrorPage.{
  ErrorPageTrigger, Response, RequestData, PanicCells, Assets, handle_not_found,
  build_cot_not_found_page,
}
use flareon.Project.{Parts, initialized, ProjectContext}
use flareon.Project.Server.{
  Called, ErrorResponse, error_page_trigger, error_returned, panic, PageHandled, page, page_error,
  page_panics, Answer, sent, escaped, response_of, answer_of, hooked, page_or_else, answer,
  error_answer, router_service, call_of, build_cot_error_page, build_custom_error_page,
}

-- Which of the project's page handlers is asked for an error.
abbrev page_for : PageHandled → PageHandled → ErrorResponse → PageHandled
page_for not_found server_error (error_page_trigger trigger) = not_found
page_for not_found server_error (error_returned e) = server_error
page_for not_found server_error (panic payload) = server_error

-- The page handler for the error behind a call panics.
abbrev pub PageFails : PageHandled → PageHandled → Response ⊎ ErrorResponse → Type 0
PageFails not_found server_error o =
    (e : ErrorResponse) × (o ≡ inr e) × (page_for not_found server_error e ≡ page_panics)

page_or_else-escaped :
    (h : PageHandled) (fallback : Response)
    → (page_or_else h fallback ≡ escaped) ↔ (h ≡ page_panics)
page_or_else-escaped (page r) fallback = (λ h. absurd (cc), λ h. absurd (cc))
page_or_else-escaped page_error fallback = (λ h. absurd (cc), λ h. absurd (cc))
page_or_else-escaped page_panics fallback = (λ _. refl, λ _. refl)

custom-escaped :
    (assets : Assets) (not_found server_error : PageHandled) (e : ErrorResponse)
    → (build_custom_error_page assets not_found server_error e ≡ escaped)
      ↔ (page_for not_found server_error e ≡ page_panics)
unfolding build_custom_error_page
custom-escaped assets not_found server_error (error_page_trigger ErrorPageTrigger.not_found) =
    page_or_else-escaped not_found _
custom-escaped assets not_found server_error (error_returned e) =
    page_or_else-escaped server_error _
custom-escaped assets not_found server_error (panic payload) = page_or_else-escaped server_error _

module _ (assets : Assets) {parts : Parts}
    (not_found_handler server_error_handler : PageHandled) where
  answer_of-escaped :
      (context : ProjectContext parts initialized) (shown : Text) (request : RequestData)
      (o : Response ⊎ ErrorResponse) (cells : PanicCells)
      → ((answer_of assets not_found_handler server_error_handler context shown request o cells).0
          ≡ escaped)
        ↔ ((context.config.debug ≡ false) × PageFails not_found_handler server_error_handler o)
  unfolding error_answer
  answer_of-escaped context shown request (inl response) cells =
      (λ h. absurd (cc), λ (off, (e, at, fails)). absurd (cc))
  answer_of-escaped context shown request (inr e) cells = elim (Bool-cases context.config.debug) [
    | inl on ↦ (λ h. absurd (ground arith), λ (off, _). absurd (cc))
    | inr off ↦ (
      λ h. (
        off,
        (
          e,
          refl,
          (custom-escaped assets not_found_handler server_error_handler e).0 (ground arith),
        ),
      ),
      λ (_, (e', at, fails)).
          let same : e ≡ e' = cc in
          let escapes =
            (custom-escaped assets not_found_handler server_error_handler e).1
              (ap (page_for not_found_handler server_error_handler) same ∙ fails) in
          ground arith,
    )
  ]

  -- Whatever the project's handler does, also where it panics, a response is sent; a panic escapes
  -- exactly if the project is not in debug mode, the call ended in an error, a panic or a response
  -- that triggers the not found page, and the page handler that is asked for it panics in turn.
  pub answer-escaped :
      (context : ProjectContext parts initialized) (shown : Text) (request : RequestData)
      (called : Called) (cells : PanicCells)
      → ((answer assets not_found_handler server_error_handler context shown request called cells).0
          ≡ escaped)
        ↔ ((context.config.debug ≡ false)
            × PageFails not_found_handler server_error_handler (response_of called))
  unfolding answer
  answer-escaped context shown request called cells =
      answer_of-escaped context shown request (response_of called)
        (hooked context.config.register_panic_hook called cells)

  -- What is sent for a path that is routed to a handler, or that nothing is found for.
  abbrev pub expected :
      (ℕ → List (Text × Text) → Option Text → Called)
      → ProjectContext parts initialized
      → Text
      → RequestData
      → PanicCells
      → Routed
      → Answer × PanicCells
  expected handlers context shown request cells (handled h path_params name) =
      answer assets not_found_handler server_error_handler context shown request
        (handlers h path_params name) cells
  expected handlers context shown request cells Routed.not_found =
      if context.config.debug
      then (
        sent (
            handle_not_found assets (record {
              project_config = shown;
              diagnosed_router = context.router;
              request_parts = some request;
            })),
        cells,
      )
      else (page_or_else not_found_handler (build_cot_not_found_page assets), cells)

  -- What a project without middlewares answers at a path: where an entry of the router's flat list
  -- captures the whole path, what the handler of the first such entry does decides, with the values
  -- of the path and the entry's name; otherwise the page for a path that is not found is sent, in debug
  -- mode the one with the diagnostics of the request, and else the project's own, or Cot's page if the
  -- project's handler for it returns an error.
  pub answer-serve :
      (handlers : ℕ → List (Text × Text) → Option Text → Called)
      (context : ProjectContext parts initialized) (shown : Text) (request : RequestData)
      (path : Text) (cells : PanicCells)
      → answer assets not_found_handler server_error_handler context shown request
          (router_service handlers context.router path)
          cells
        ≡ expected handlers context shown request cells (serve (flatten context.router) path)
  unfolding router_service answer error_answer build_cot_error_page build_custom_error_page
  answer-serve handlers context shown request path cells =
      ap
        (λ q.
          answer assets not_found_handler server_error_handler context shown request
            (call_of handlers q) cells)
        (route_request-flatten context.router path)
      ∙ routed (serve (flatten context.router) path)
    where
      routed :
          (q : Routed)
          → answer assets not_found_handler server_error_handler context shown request
              (call_of handlers q)
              cells
            ≡ expected handlers context shown request cells q
      routed (handled h path_params name) = refl
      routed Routed.not_found = ground arith
