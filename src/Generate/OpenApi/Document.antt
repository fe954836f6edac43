-- ===== src/Generate/OpenApi/Document.antt =====
-- The document of backend/pkg/generate/openapi.go, and `generateOpenAPISpec` of
-- backend/pkg/generate/collector.go. Of kin-openapi there are the fields that the code sets; a nil map
-- or slice is an empty one. `strconv.Itoa` is a parameter.
use go_http_mqtt_boilerplate.Prelude.{
  ℕ, Bool, true, not, ◌||◌, Option, none, some, List, [], ◌∷◌, Text, codes, Map, lookup, insert,
  has_key, text_eq_inst, ◌==◌, if◌then◌else◌, Result, ok, err, ◌>>=◌, wrap,
}
use go_http_mqtt_boilerplate.Mqtt.Topic.{is_empty}
use go_http_mqtt_boilerplate.Generate.Values.{Value}
use go_http_mqtt_boilerplate.Generate.DocTypes.{
  TypeInfo, RouteInfo, RequestInfo, ResponseInfo, ParameterInfo,
}
use go_http_mqtt_boilerplate.Generate.Marks.{Types}
use go_http_mqtt_boilerplate.Generate.OpenApi.Schema.{
  SchemaRef, value, schema, plain, header, SchemaError, type_string, type_integer, type_number,
  type_boolean, is_deprecated, create_schema_ref,
}
use go_http_mqtt_boilerplate.Generate.OpenApi.Types.{to_open_api_schema}

pub record MediaType : Type 0 where
  pub media_schema : SchemaRef
  pub media_examples : Map Value

abbrev pub Content : Type 0
Content = Map MediaType

pub record Parameter : Type 0 where
  pub name : Text
  pub place : Text
  pub required : Bool
  pub description : Text
  pub schema_of : SchemaRef

pub record RequestBody : Type 0 where
  pub required : Bool
  pub description : Text
  pub content : Content

pub record Response : Type 0 where
  pub description : Text
  pub content : Content

pub record Operation : Type 0 where
  pub operation_id : Text
  pub summary : Text
  pub description : Text
  pub tags : List Text
  pub deprecated : Bool
  pub parameters : List Parameter
  pub request_body : Option RequestBody
  pub responses : Map Response

pub record PathItem : Type 0 where
  pub get : Option Operation
  pub post : Option Operation
  pub put : Option Operation
  pub patch : Option Operation
  pub delete : Option Operation

pub data DocumentError : Type 0 where
  unknown_type unsupported_method : Text → DocumentError
  unregistered_parameter : Text → Text → DocumentError
  in_parameter in_component : Text → SchemaError → DocumentError
  in_request : DocumentError → DocumentError
  in_response : ℕ → DocumentError → DocumentError
  in_operation : Text → Text → DocumentError → DocumentError

unfoldable pub is_primitive_type : Text → Bool
is_primitive_type type_name =
    type_name == type_string
    || (type_name == type_number || (type_name == type_integer || type_name == type_boolean))

-- `buildComponentSchemas`, from the schemas so far
unfoldable pub add_component_schemas : Types → Map SchemaRef → Result DocumentError (Map SchemaRef)
add_component_schemas [] schemas = ok schemas
add_component_schemas ((name, info) ∷ types) schemas =
    let skipped = add_component_schemas types schemas in
    let built = wrap (in_component name) (to_open_api_schema info) >>= λ s.
    add_component_schemas types (insert name (value s) schemas) in
    if not info.used_by_http then skipped else built

unfoldable pub build_component_schemas : Types → Result DocumentError (Map SchemaRef)
unfolding add_component_schemas
build_component_schemas types = add_component_schemas types []

unfoldable pub convert_examples : Map Value → Map Value → Map Value
convert_examples [] result = result
convert_examples ((name, example) ∷ examples) result =
    convert_examples examples (insert name example result)

abbrev pub application_json : Text
application_json = codes "application/json"

abbrev pub json_content : SchemaRef → Map Value → Content
json_content s examples =
    (application_json, record { media_schema = s; media_examples = convert_examples examples [] })
    ∷ []

unfoldable pub create_json_content : Text → Map Value → Content
unfolding create_schema_ref convert_examples
create_json_content type_name examples = json_content (create_schema_ref type_name) examples

-- an inline schema with only a type
abbrev pub inline : Text → SchemaRef
inline type_name = value (schema (header type_name []) plain)

unfoldable pub build_json_content : Text → Map Value → Types → Result DocumentError Content
unfolding is_primitive_type create_json_content convert_examples
build_json_content type_name examples types =
    if has_key type_name types
    then ok (create_json_content type_name examples)
    else if is_primitive_type type_name
    then ok (json_content (inline type_name) examples)
    else err (unknown_type type_name)

-- the schema of a parameter, from the type that is registered under its name
unfoldable pub schema_of_type : Option TypeInfo → ParameterInfo → Result DocumentError SchemaRef
unfolding is_primitive_type
schema_of_type (some info) param =
    wrap (in_parameter param.name) (to_open_api_schema info) >>= λ s. ok (value s)
schema_of_type none param =
    if is_primitive_type param.type_name
    then ok (inline param.type_name)
    else err (unregistered_parameter param.name param.type_name)

unfoldable pub parameter_schema : ParameterInfo → Types → Result DocumentError SchemaRef
unfolding schema_of_type
parameter_schema param types = schema_of_type (lookup param.type_name types) param

unfoldable pub build_parameters : List ParameterInfo → Types → Result DocumentError (List Parameter)
build_parameters [] types = ok []
build_parameters (param ∷ params) types = do
  s ← parameter_schema param types
  rest ← build_parameters params types
  ok (
      record {
        name = param.name;
        place = param.place;
        required = param.required;
        description = param.description;
        schema_of = s;
      }
      ∷ rest)

unfoldable pub build_request_body :
    Option RequestInfo → Types → Result DocumentError (Option RequestBody)
build_request_body none types = ok none
build_request_body (some request) types = do
  content ← wrap in_request (build_json_content request.type_name request.examples types)
  ok (some (record { required = true; description = request.description; content = content }))

-- a response without a type has no content
unfoldable pub response_content : ResponseInfo → Types → Result DocumentError Content
response_content resp types =
    if is_empty resp.type_name then ok [] else build_json_content resp.type_name resp.examples types

module _ (itoa : ℕ → Text) where
  unfoldable pub add_responses :
      List (ℕ × ResponseInfo) → Types → Map Response → Result DocumentError (Map Response)
  add_responses [] types responses = ok responses
  add_responses ((status_code, resp) ∷ rest) types responses = do
    content ← wrap (in_response status_code) (response_content resp types)
    add_responses rest types (
        insert (itoa status_code) (record { description = resp.description; content = content })
          responses)

  unfoldable pub build_operation : RouteInfo → Types → Result DocumentError Operation
  build_operation route types = do
    parameters ← build_parameters route.parameters types
    request_body ← build_request_body route.request types
    responses ← add_responses route.responses types []
    ok (record {
      operation_id = route.operation_id;
      summary = route.summary;
      description = route.description;
      tags = route.group ∷ [];
      deprecated = is_deprecated route.deprecated;
      parameters = parameters;
      request_body = request_body;
      responses = responses;
    })
