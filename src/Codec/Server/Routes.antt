-- ===== src/Codec/Server/Routes.antt =====
-- Which handler a request reaches, and the header that lets a browser read the reply.
use samples_python.Base.{
  Bool, true, false, Option, none, some, List, [], ◌∷◌, ◌≡◌, refl, ◌∙◌, ap, inl, inr, arith,
  if◌then◌else◌, ◌==◌, get, set_item, get-set_item, Bool-cases,
}
use samples_python.Base.Text.{Text, text, text_eq}
use samples_python.Codec.{is_field}
use samples_python.Codec.Server.{
  route_eq, Request, Reply, response, http_exception, web_ui_origin, allow_origin_header,
  headers_of, with_header, cors_middleware, RouteDef, HandlerTable, handlers_from, handler_map,
  dispatch_by_namespace, look_up, run_handler, or_blank,
}

module _ {Body : Type 0} (blank : Body) where
  -- A handler found further on, or else this one if it fits.
  abbrev later_or :
      Option (Request → Reply Body) → Bool → (Request → Reply Body) → Option (Request → Reply Body)
  later_or (some later) fits handler = some later
  later_or none true handler = some handler
  later_or none false handler = none

  -- The last route of a list for a method and a path.
  abbrev pub last_route : (Text × Text) → List (RouteDef blank) → Option (Request → Reply Body)
  last_route key [] = none
  last_route key (r ∷ routes) =
      later_or (last_route key routes) (key == (r.method, r.path)) r.handler

  -- The routes of a namespace; the mapping names each once.
  abbrev pub routes_of : Text → List (Text × List (RouteDef blank)) → List (RouteDef blank)
  routes_of namespace [] = []
  routes_of namespace ((other, routes) ∷ rest) =
      if namespace == other then routes else routes_of namespace rest

  abbrev or_else :
      Option (Request → Reply Body) → Option (Request → Reply Body) → Option (Request → Reply Body)
  or_else (some f) g = some f
  or_else none g = g

  or_else-later_or :
      (later here : Option (Request → Reply Body)) (fits : Bool) (handler : Request → Reply Body)
      → or_else later (if fits then some handler else here)
        ≡ or_else (later_or later fits handler) here
  or_else-later_or (some f) here fits handler = refl
  or_else-later_or none here true handler = refl
  or_else-later_or none here false handler = refl

  get-handlers_from :
      (table : HandlerTable blank) (routes : List (RouteDef blank)) (key : Text × Text)
      → get key (handlers_from blank table routes) ≡ or_else (last_route key routes) (get key table)
  unfolding handlers_from
  get-handlers_from table [] key = refl
  get-handlers_from table (r ∷ routes) key =
      get-handlers_from (set_item (r.method, r.path) r.handler table) routes key
      ∙ ap (or_else (last_route key routes)) (get-set_item (r.method, r.path) key r.handler table)
      ∙ or_else-later_or (last_route key routes) (get key table) (key == (r.method, r.path))
          r.handler

  or_else-none : (o : Option (Request → Reply Body)) → or_else o none ≡ o
  or_else-none none = refl
  or_else-none (some f) = refl

  get-handlers :
      (routes : List (RouteDef blank)) (key : Text × Text)
      → get key (handlers_from blank [] routes) ≡ last_route key routes
  unfolding get
  get-handlers routes key = get-handlers_from [] routes key ∙ or_else-none (last_route key routes)

  look_up-handler_map :
      (namespace : Text) (routes : List (Text × List (RouteDef blank))) (request : Request)
      → look_up blank (get namespace (handler_map blank routes)) request
        ≡ run_handler blank
            (last_route (request.method, request.path) (routes_of namespace routes))
            request
  unfolding get handler_map
  look_up-handler_map namespace [] request = refl
  look_up-handler_map namespace ((other, routes) ∷ rest) request =
      elim (Bool-cases (namespace == other)) [
        | inl here ↦ rw here (
            ap (λ o. run_handler blank o request)
              (get-handlers routes (request.method, request.path)))
        | inr away ↦ rw away (look_up-handler_map namespace rest request)
      ]

  -- The request reaches the last route for its method and path among those of the namespace that
  -- its header names, the empty text if it has none; where there is no such namespace or route, the
  -- reply is a 404. So the nested table that is built beforehand finds what a search of the routes
  -- would.
  pub dispatch_by_namespace-last_route :
      (routes : List (Text × List (RouteDef blank))) (request : Request)
      → dispatch_by_namespace blank routes request
        ≡ run_handler blank
            (last_route
              (request.method, request.path)
              (routes_of (or_blank blank request.namespace) routes))
            request
  unfolding dispatch_by_namespace
  dispatch_by_namespace-last_route routes request =
      look_up-handler_map (or_blank blank request.namespace) routes request

  headers_of-with_header :
      (name value : Text) (reply : Reply Body)
      → get name (headers_of (with_header name value reply)) ≡ some value
  headers_of-with_header name value (response headers body) =
      ground (arith, get-set_item name name value headers, text_eq.same_iff name name)
  headers_of-with_header name value (http_exception status headers) =
      ground (arith, get-set_item name name value headers, text_eq.same_iff name name)

  -- Every reply of the server, a 404 too, lets a browser at the address of the Web UI read it. To a
  -- request from elsewhere no reply does, unless the handler that it reaches sets the header itself.
  pub cors_middleware-allow_origin :
      (request : Request) (handler : Request → Reply Body)
      → (is_field request.origin web_ui_origin ≡ true
          → get allow_origin_header (headers_of (cors_middleware blank request handler))
            ≡ some web_ui_origin)
        × (is_field request.origin web_ui_origin ≡ false
            → get allow_origin_header (headers_of (handler request)) ≡ none
            → get allow_origin_header (headers_of (cors_middleware blank request handler)) ≡ none)
  unfolding cors_middleware get
  cors_middleware-allow_origin request handler = (
    (λ own. rw own (headers_of-with_header allow_origin_header web_ui_origin _)),
    (λ other unset. elim (Bool-cases (request.method == text "OPTIONS")) [
      | inl preflighted ↦ rw (other, preflighted) refl
      | inr handled ↦ rw (other, handled) unset
    ]),
  )
