-- ===== src/Codec/Server.antt =====
-- external_storage/codec_server.py: the CORS middleware and the dispatch by namespace. A handler is
-- a function of the request; raising an HTTPException is a reply of its own.
pub mod Routes
use samples_python.Base.{
  ℕ, Bool, true, false, Option, none, some, List, [], ◌∷◌, if◌then◌else◌, ◌==◌, get, set_item,
  Hashable, ◌&&◌, arith, ◌≡◌, ◌↔◌,
}
use samples_python.Base.Text.{Text, text, text_beq, text_eq}
use samples_python.Codec.{is_field}

pub route_beq_iff : (j k : Text × Text) → ((j.0 == k.0 && j.1 == k.1) ≡ true) ↔ (j ≡ k)
route_beq_iff j k = ground (arith, text_eq.same_iff j.0 k.0, text_eq.same_iff j.1 k.1)

instance abbrev pub route_eq : Hashable (Text × Text)
route_eq = record { same = λ j k. j.0 == k.0 && j.1 == k.1; same_iff = route_beq_iff }

pub record Request : Type 0 where
  pub method : Text
  pub path : Text
  pub namespace : Option Text
  pub origin : Option Text

abbrev pub Headers : Type 0
Headers = List (Text × Text)

pub data Reply (Body : Type 0) : Type 0 where
  response : Headers → Body → Reply Body
  http_exception : (status : ℕ) → Headers → Reply Body

abbrev pub web_ui_origin : Text
web_ui_origin = text "http://localhost:8233"

abbrev pub allow_origin_header : Text
allow_origin_header = text "Access-Control-Allow-Origin"

abbrev pub headers_of : {Body : Type 0} → Reply Body → Headers
headers_of (response headers body) = headers
headers_of (http_exception status headers) = headers

abbrev pub with_header : {Body : Type 0} → (name value : Text) → Reply Body → Reply Body
with_header name value (response headers body) = response (set_item name value headers) body
with_header name value (http_exception status headers) =
    http_exception status (set_item name value headers)

module _ {Body : Type 0} (blank : Body) where
  abbrev preflight : Bool → Reply Body
  preflight false = response [] blank
  preflight true =
      response
        ((text "Access-Control-Allow-Methods", text "POST")
          ∷ (text "Access-Control-Allow-Headers", text "content-type,x-namespace")
          ∷ [])
        blank

  unfoldable pub cors_middleware : Request → (Request → Reply Body) → Reply Body
  cors_middleware request handler =
      let allow_origin = is_field request.origin web_ui_origin in
      let reply =
        if request.method == text "OPTIONS" then preflight allow_origin else handler request in
      if allow_origin then with_header allow_origin_header web_ui_origin reply else reply

  pub record RouteDef : Type 0 where
    pub method : Text
    pub path : Text
    pub handler : Request → Reply Body

  -- `{(r.method, r.path): r.handler for r in routes}`
  abbrev pub HandlerTable : Type 0
  HandlerTable = List ((Text × Text) × (Request → Reply Body))

  unfoldable pub handlers_from : HandlerTable → List RouteDef → HandlerTable
  handlers_from table [] = table
  handlers_from table (r ∷ routes) =
      handlers_from (set_item (r.method, r.path) r.handler table) routes

  -- `handler_map`
  unfoldable pub handler_map : List (Text × List RouteDef) → List (Text × HandlerTable)
  unfolding handlers_from
  handler_map [] = []
  handler_map ((namespace, routes) ∷ rest) = (namespace, handlers_from [] routes) ∷ handler_map rest

  abbrev or_blank : Option Text → Text
  or_blank none = []
  or_blank (some s) = s

  abbrev pub not_found : Reply Body
  not_found = http_exception 404 []

  abbrev run_handler : Option (Request → Reply Body) → Request → Reply Body
  run_handler none request = not_found
  run_handler (some handler) request = handler request

  abbrev look_up : Option HandlerTable → Request → Reply Body
  look_up none request = not_found
  look_up (some handlers) request =
      run_handler (get (request.method, request.path) handlers) request

  -- `dispatch_by_namespace`
  unfoldable pub dispatch_by_namespace : List (Text × List RouteDef) → Request → Reply Body
  unfolding handler_map
  dispatch_by_namespace routes_by_namespace request =
      look_up (get (or_blank request.namespace) (handler_map routes_by_namespace)) request
