-- ===== src/Generate/OpenApi/Complete.antt =====
-- When the whole document is generated.
use go_http_mqtt_boilerplate.Prelude.{
  ℕ, ◌≡◌, refl, sym, ◌∙◌, Bool, true, false, not, ◌&&◌, ◌||◌, Bool-cases, inl, inr, Option, none,
  some, List, [], ◌∷◌, all, Text, codes, Map, lookup, insert, has_key, text_eq_inst, ◌==◌, wrap,
  is_ok, is_ok-wrap, is_ok-bind, is_ok-last, arith,
}
use go_http_mqtt_boilerplate.Mqtt.Topic.{is_empty}
use go_http_mqtt_boilerplate.Generate.Values.{Value}
use go_http_mqtt_boilerplate.Generate.DocTypes.{
  TypeInfo, RouteInfo, RequestInfo, ResponseInfo, ParameterInfo,
}
use go_http_mqtt_boilerplate.Generate.Marks.{Types}
use go_http_mqtt_boilerplate.Generate.Collector.{OpenApiCollector}
use go_http_mqtt_boilerplate.Generate.OpenApi.Schema.{SchemaRef, value}
use go_http_mqtt_boilerplate.Generate.OpenApi.Types.{to_open_api_schema}
use go_http_mqtt_boilerplate.Generate.OpenApi.Document.{
  in_parameter, in_component, in_request, in_response, in_operation, Response, Operation, PathItem,
  is_primitive_type, add_component_schemas, build_component_schemas, build_json_content,
  schema_of_type, parameter_schema, build_parameters, build_request_body, response_content,
  add_responses, build_operation,
}
use go_http_mqtt_boilerplate.Generate.OpenApi.Paths.{
  ApiInfo, or_empty, set_operation, add_paths, generate_open_api_spec, generate_spec,
}
use go_http_mqtt_boilerplate.Generate.OpenApi.Buildable.{
  is_type_buildable, to_open_api_schema-is_ok,
}

-- The types that HTTP uses are buildable.
abbrev pub components_buildable : Types → Bool
components_buildable types =
    all (λ (e : Text × TypeInfo). not e.1.used_by_http || is_type_buildable e.1) types

add_component_schemas-is_ok :
    (types : Types) (schemas : Map SchemaRef)
    → is_ok (add_component_schemas types schemas) ≡ components_buildable types
unfolding add_component_schemas
add_component_schemas-is_ok [] schemas = refl
add_component_schemas-is_ok ((name, info) ∷ types) schemas = elim (Bool-cases info.used_by_http) [
  | inl used ↦ ground (
    arith,
    used,
    is_ok-bind (wrap (in_component name) (to_open_api_schema info))
        (λ s. add_component_schemas types (insert name (value s) schemas))
        (is_ok-wrap (in_component name) (to_open_api_schema info) ∙ to_open_api_schema-is_ok info)
        (λ s _. add_component_schemas-is_ok types (insert name (value s) schemas)),
  )
  | inr unused ↦ ground (arith, unused, add_component_schemas-is_ok types schemas)
]

-- the name of a known type, or of a primitive type of the document
abbrev pub is_named : Types → Text → Bool
is_named types name = has_key name types || is_primitive_type name

abbrev pub type_found : Option TypeInfo → Text → Bool
type_found (some info) name = is_type_buildable info
type_found none name = is_primitive_type name

abbrev pub is_request_named : Types → Option RequestInfo → Bool
is_request_named types none = true
is_request_named types (some request) = is_named types request.type_name

abbrev pub is_supported : Text → Bool
is_supported method =
    method == codes "GET"
    || (method == codes "POST"
        || (method == codes "PUT" || (method == codes "PATCH" || method == codes "DELETE")))

-- A route whose parameters have buildable types, whose bodies have types that are known or
-- primitive, and whose method is one of five.
abbrev pub is_route_documentable : Types → RouteInfo → Bool
is_route_documentable types route =
    (all (λ (p : ParameterInfo). type_found (lookup p.type_name types) p.type_name) route.parameters
      && (is_request_named types route.request
          && all (λ (e : ℕ × ResponseInfo). is_empty e.1.type_name || is_named types e.1.type_name)
              route.responses))
    && is_supported route.method

build_json_content-is_ok :
    (name : Text) (examples : Map Value) (types : Types)
    → is_ok (build_json_content name examples types) ≡ is_named types name
unfolding build_json_content
build_json_content-is_ok name examples types = ground arith

schema_of_type-is_ok :
    (o : Option TypeInfo) (param : ParameterInfo)
    → is_ok (schema_of_type o param) ≡ type_found o param.type_name
unfolding schema_of_type
schema_of_type-is_ok none param = ground arith
schema_of_type-is_ok (some info) param =
    is_ok-last (wrap (in_parameter param.name) (to_open_api_schema info)) _
      (is_ok-wrap (in_parameter param.name) (to_open_api_schema info)
        ∙ to_open_api_schema-is_ok info)
      (λ s _. refl)

build_parameters-is_ok :
    (params : List ParameterInfo) (types : Types)
    → is_ok (build_parameters params types)
      ≡ all (λ (p : ParameterInfo). type_found (lookup p.type_name types) p.type_name) params
unfolding build_parameters parameter_schema
build_parameters-is_ok [] types = refl
build_parameters-is_ok (param ∷ params) types =
    is_ok-bind (parameter_schema param types) _
      (schema_of_type-is_ok (lookup param.type_name types) param)
      (λ s _.
        is_ok-last (build_parameters params types) _ (build_parameters-is_ok params types)
          (λ rest _. refl))

build_request_body-is_ok :
    (request : Option RequestInfo) (types : Types)
    → is_ok (build_request_body request types) ≡ is_request_named types request
unfolding build_request_body
build_request_body-is_ok none types = refl
build_request_body-is_ok (some request) types =
    is_ok-last (wrap in_request (build_json_content request.type_name request.examples types)) _
      (is_ok-wrap in_request _ ∙ build_json_content-is_ok request.type_name request.examples types)
      (λ content _. refl)

response_content-is_ok :
    (resp : ResponseInfo) (types : Types)
    → is_ok (response_content resp types)
      ≡ (is_empty resp.type_name || is_named types resp.type_name)
unfolding response_content
response_content-is_ok resp types =
    ground (arith, build_json_content-is_ok resp.type_name resp.examples types)

and_assoc : (a b c : Bool) → ((a && b) && c) ≡ (a && (b && c))
and_assoc true b c = refl
and_assoc false b c = refl

module _ (itoa : ℕ → Text) where
  add_responses-is_ok :
      (resps : List (ℕ × ResponseInfo)) (types : Types) (responses : Map Response)
      → is_ok (add_responses itoa resps types responses)
        ≡ all
            (λ (e : ℕ × ResponseInfo). is_empty e.1.type_name || is_named types e.1.type_name)
            resps
  unfolding add_responses
  add_responses-is_ok [] types responses = refl
  add_responses-is_ok ((status_code, resp) ∷ resps) types responses =
      is_ok-bind (wrap (in_response status_code) (response_content resp types)) _
        (is_ok-wrap (in_response status_code) (response_content resp types)
          ∙ response_content-is_ok resp types)
        (λ content _. add_responses-is_ok resps types _)

  build_operation-is_ok :
      (route : RouteInfo) (types : Types)
      → is_ok (build_operation itoa route types) ≡ (
          all
            (λ (p : ParameterInfo). type_found (lookup p.type_name types) p.type_name)
            route.parameters
          && (is_request_named types route.request
              && all
                  (λ (e : ℕ × ResponseInfo). is_empty e.1.type_name || is_named types e.1.type_name)
                  route.responses))
  unfolding build_operation
  build_operation-is_ok route types =
      is_ok-bind (build_parameters route.parameters types) _
        (build_parameters-is_ok route.parameters types)
        (λ parameters _.
          is_ok-bind (build_request_body route.request types) _
            (build_request_body-is_ok route.request types)
            (λ body _.
              is_ok-last (add_responses itoa route.responses types []) _
                (add_responses-is_ok route.responses types []) (λ responses _. refl)))

  set_operation-is_ok :
      (method : Text) (op : Operation) (item : PathItem)
      → is_ok (set_operation method op item) ≡ is_supported method
  unfolding set_operation
  set_operation-is_ok method op item = ground arith

  add_paths-is_ok :
      (routes : Map RouteInfo) (types : Types) (items : Map PathItem)
      → is_ok (add_paths itoa routes types items)
        ≡ all (λ (e : Text × RouteInfo). is_route_documentable types e.1) routes
  unfolding add_paths
  add_paths-is_ok [] types items = refl
  add_paths-is_ok ((id, route) ∷ routes) types items =
      is_ok-bind (wrap (in_operation route.method route.path) (build_operation itoa route types)) _
        (is_ok-wrap (in_operation route.method route.path) (build_operation itoa route types)
          ∙ build_operation-is_ok route types)
        (λ op _.
          is_ok-bind (set_operation route.method op (or_empty (lookup route.path items))) _
            (set_operation-is_ok route.method op (or_empty (lookup route.path items)))
            (λ item _. add_paths-is_ok routes types (insert route.path item items)))
      ∙ sym (and_assoc _ (is_supported route.method) _)

  -- The document of a collector is generated exactly if the types that HTTP uses are buildable and
  -- each route has buildable parameters, bodies of known or primitive types, and a method of the
  -- five that a path item has.
  pub generate_spec-is_ok :
      (info : ApiInfo) (g : OpenApiCollector)
      → is_ok (generate_spec itoa info g) ≡ (
          components_buildable g.types
          && all (λ (e : Text × RouteInfo). is_route_documentable g.types e.1) g.http_ops)
  unfolding generate_spec generate_open_api_spec build_component_schemas
  generate_spec-is_ok info g =
      is_ok-last (generate_open_api_spec itoa g.types g.http_ops) _
        (is_ok-bind (build_component_schemas g.types) _ (add_component_schemas-is_ok g.types [])
          (λ schemas _.
            is_ok-last (add_paths itoa g.http_ops g.types []) _
              (add_paths-is_ok g.http_ops g.types []) (λ paths _. refl)))
        (λ spec _. refl)
