-- ===== src/Generate/OpenApi/Operations.antt =====
-- The `$ref`s of the operations of the document are those of its components.
use go_http_mqtt_boilerplate.Prelude.{
  ℕ, ◌≡◌, refl, true, Bool-cases, inl, inr, Option, none, some, List, [], ◌∷◌, All, All-insert,
  Text, Map, lookup, has_key, text_eq_inst, ok, wrap, bind-ok_inv, wrap-ok_inv, ok-inj, arith,
}
use mathlib.Core.Path.{subst}
use go_http_mqtt_boilerplate.Mqtt.Topic.{is_empty}
use go_http_mqtt_boilerplate.Generate.Values.{Value}
use go_http_mqtt_boilerplate.Generate.DocTypes.{
  TypeInfo, RouteInfo, RequestInfo, ResponseInfo, ParameterInfo,
}
use go_http_mqtt_boilerplate.Generate.Marks.{Types, http}
use go_http_mqtt_boilerplate.Generate.Marks.Growth.{IsReached}
use go_http_mqtt_boilerplate.Generate.OpenApi.Schema.{SchemaRef, ref_text, create_schema_ref}
use go_http_mqtt_boilerplate.Generate.OpenApi.Types.{to_open_api_schema}
use go_http_mqtt_boilerplate.Generate.OpenApi.Refs.{schema_refs, refs_in}
use go_http_mqtt_boilerplate.Generate.OpenApi.Closed.{type_refs, to_open_api_schema-All}
use go_http_mqtt_boilerplate.Generate.OpenApi.Document.{
  in_parameter, in_request, in_response, Content, Parameter, RequestBody, Response, Operation,
  inline, json_content, is_primitive_type, create_json_content, build_json_content, schema_of_type,
  parameter_schema, build_parameters, build_request_body, response_content, add_responses,
  build_operation,
}

-- of the value, if there is one
abbrev pub When : {A : Type 0} → (A → Type 0) → Option A → Type 0
When P none = Unit
When P (some a) = P a

-- The known types that a route names have the mark of HTTP.
pub record IsRouteReached (types : Types) (route : RouteInfo) : Type 0 where
  pub request : When (λ r. IsReached http types r.type_name) route.request
  pub parameters : All (λ p. IsReached http types p.type_name) route.parameters
  pub responses : All (λ e. IsReached http types e.1.type_name) route.responses

module _ (P : Text → Type 0) where
  abbrev pub ContentRefs : Content → Type 0
  ContentRefs content = All (λ e. All P (refs_in e.1.media_schema)) content

  -- All `$ref`s of an operation have the property.
  pub record OperationRefs (op : Operation) : Type 0 where
    pub parameters : All (λ p. All P (refs_in p.schema_of)) op.parameters
    pub request_body : When (λ b. ContentRefs b.content) op.request_body
    pub responses : All (λ e. ContentRefs e.1.content) op.responses

  module _ (types : Types)
      (at_name : (n : Text) → IsReached http types n → has_key n types ≡ true → P (ref_text n))
      (inside : (n : Text) (info : TypeInfo)
        → IsReached http types n
        → lookup n types ≡ some info
        → All (λ m. P (ref_text m)) (type_refs info)) where
    build_json_content-refs :
        (name : Text) (examples : Map Value) (content : Content)
        → IsReached http types name
        → build_json_content name examples types ≡ ok content
        → ContentRefs content
    unfolding build_json_content create_json_content create_schema_ref ref_text schema_refs
    build_json_content-refs name examples content reached h =
        elim (Bool-cases (has_key name types)) [
          | inl here ↦
              let e : create_json_content name examples ≡ content = ground (arith, h, here) in
              subst ContentRefs e ((at_name name reached here, tt), tt)
          | inr unknown ↦ elim (Bool-cases (is_primitive_type name)) [
            | inl primitive ↦
                let e : json_content (inline name) examples ≡ content =
                  ground (arith, h, unknown, primitive) in
                subst ContentRefs e (tt, tt)
            | inr other ↦ ground (arith, h, unknown, other)
          ]
        ]

    schema_of_type-refs :
        (o : Option TypeInfo) (param : ParameterInfo) (s : SchemaRef)
        → lookup param.type_name types ≡ o
        → IsReached http types param.type_name
        → schema_of_type o param ≡ ok s
        → All P (refs_in s)
    unfolding schema_of_type schema_refs
    schema_of_type-refs none param s e reached h =
        elim (Bool-cases (is_primitive_type param.type_name)) [
          | inl primitive ↦
              let e : inline param.type_name ≡ s = ground (arith, h, primitive) in
              subst (λ r. All P (refs_in r)) e tt
          | inr other ↦ ground (arith, h, other)
        ]
    schema_of_type-refs (some info) param s e reached h =
        let (t, built, made) =
          bind-ok_inv (wrap (in_parameter param.name) (to_open_api_schema info)) _ s h in
        subst (λ r. All P (refs_in r)) (ok-inj made)
          (to_open_api_schema-All P info t (wrap-ok_inv _ _ t built)
            (inside param.type_name info reached e))

    build_parameters-refs :
        (params : List ParameterInfo) (built : List Parameter)
        → All (λ p. IsReached http types p.type_name) params
        → build_parameters params types ≡ ok built
        → All (λ p. All P (refs_in p.schema_of)) built
    unfolding build_parameters parameter_schema
    build_parameters-refs [] built reached h =
        subst (All (λ p. All P (refs_in p.schema_of))) (ok-inj h) tt
    build_parameters-refs (param ∷ params) built (reached, others) h =
        let (s, first, after) = bind-ok_inv (parameter_schema param types) _ built h in
        let (rest, built_rest, made) = bind-ok_inv (build_parameters params types) _ built after in
        subst (All (λ p. All P (refs_in p.schema_of))) (ok-inj made) (
          schema_of_type-refs (lookup param.type_name types) param s refl reached first,
          build_parameters-refs params rest others built_rest,
        )

    build_request_body-refs :
        (request : Option RequestInfo) (built : Option RequestBody)
        → When (λ r. IsReached http types r.type_name) request
        → build_request_body request types ≡ ok built
        → When (λ b. ContentRefs b.content) built
    unfolding build_request_body
    build_request_body-refs none built reached h =
        subst (When (λ b. ContentRefs b.content)) (ok-inj h) tt
    build_request_body-refs (some request) built reached h =
        let (content, first, made) =
          bind-ok_inv
            (wrap in_request (build_json_content request.type_name request.examples types)) _ built
            h in
        subst (When (λ b. ContentRefs b.content)) (ok-inj made) (
          build_json_content-refs request.type_name request.examples content reached
            (wrap-ok_inv _ _ content first))

    response_content-refs :
        (resp : ResponseInfo) (content : Content)
        → IsReached http types resp.type_name
        → response_content resp types ≡ ok content
        → ContentRefs content
    unfolding response_content
    response_content-refs resp content reached h = elim (Bool-cases (is_empty resp.type_name)) [
      | inl empty ↦ let e : [] ≡ content = ground (arith, h, empty) in subst ContentRefs e tt
      | inr typed ↦
          build_json_content-refs resp.type_name resp.examples content reached
            (ground (arith, h, typed))
    ]

    add_responses-refs :
        (itoa : ℕ → Text) (resps : List (ℕ × ResponseInfo)) (responses built : Map Response)
        → All (λ e. IsReached http types e.1.type_name) resps
        → add_responses itoa resps types responses ≡ ok built
        → All (λ e. ContentRefs e.1.content) responses
        → All (λ e. ContentRefs e.1.content) built
    unfolding add_responses
    add_responses-refs itoa [] responses built reached h all =
        subst (All (λ e. ContentRefs e.1.content)) (ok-inj h) all
    add_responses-refs itoa ((status_code, resp) ∷ resps) responses built (reached, others) h all =
        let (content, first, rest) =
          bind-ok_inv (wrap (in_response status_code) (response_content resp types)) _ built h in
        add_responses-refs itoa resps _ built others rest (
          All-insert (λ r. ContentRefs r.content) (itoa status_code) _ responses
            (response_content-refs resp content reached (wrap-ok_inv _ _ content first)) all)

    pub build_operation-refs :
        (itoa : ℕ → Text) (route : RouteInfo) (op : Operation)
        → IsRouteReached types route
        → build_operation itoa route types ≡ ok op
        → OperationRefs op
    unfolding build_operation
    build_operation-refs itoa route op reached h =
        let (parameters, a, h1) = bind-ok_inv (build_parameters route.parameters types) _ op h in
        let (body, b, h2) = bind-ok_inv (build_request_body route.request types) _ op h1 in
        let (responses, c, h3) =
          bind-ok_inv (add_responses itoa route.responses types []) _ op h2 in
        subst OperationRefs (ok-inj h3) (record {
          parameters = build_parameters-refs route.parameters parameters reached.parameters a;
          request_body = build_request_body-refs route.request body reached.request b;
          responses = add_responses-refs itoa route.responses [] responses reached.responses c tt;
        })
