-- ===== src/Router/Spec.antt =====
-- `RouteSpec` of backend/pkg/router/route_builder.go and its validation in
-- backend/pkg/router/helpers.go. A handler is `none` for nil, else a number for the function. The
-- unexported fields that `add` fills are fields here too.
use go_http_mqtt_boilerplate.Prelude.{
  ℕ, Bool, ◌&&◌, Option, List, Text, codes, Map, is_none, is_some, text_eq_inst, ◌==◌, Result, ◌>>◌,
  fail_if,
}
use go_http_mqtt_boilerplate.Generate.Values.{Value}
use go_http_mqtt_boilerplate.Mqtt.Topic.{is_empty}

abbrev pub parameter_in_path : Text
parameter_in_path = codes "path"

abbrev pub parameter_in_query : Text
parameter_in_query = codes "query"

abbrev pub parameter_in_header : Text
parameter_in_header = codes "header"

-- net/http's method names
abbrev pub method_get : Text
method_get = codes "GET"

abbrev pub method_post : Text
method_post = codes "POST"

abbrev pub method_put : Text
method_put = codes "PUT"

abbrev pub method_patch : Text
method_patch = codes "PATCH"

abbrev pub method_delete : Text
method_delete = codes "DELETE"

-- `place` is the field `In`.
pub record ParameterSpec : Type 0 where
  pub place : Text
  pub description : Text
  pub required : Bool
  pub type : Value

pub record RequestBodySpec : Type 0 where
  pub type : Value
  pub examples : Map Value

pub record ResponseSpec : Type 0 where
  pub description : Text
  pub type : Value
  pub examples : Map Value

pub record RouteSpec : Type 0 where
  pub operation_id : Text
  pub handler : Option ℕ
  pub summary : Text
  pub description : Text
  pub group : Text
  pub deprecated : Text
  pub request_type : Option RequestBodySpec
  pub responses : List (ℕ × ResponseSpec)
  pub parameters : Map ParameterSpec
  pub local_path : Text
  pub full_path : Text
  pub method : Text

pub data RouteSpecError : Type 0 where
  operation_id_required summary_required description_required group_required : RouteSpecError
  handler_required get_with_body : RouteSpecError

unfoldable pub validate_route_spec : RouteSpec → Result RouteSpecError (Unit {0})
validate_route_spec spec = do
  fail_if (is_empty spec.operation_id) operation_id_required
  fail_if (is_empty spec.summary) summary_required
  fail_if (is_empty spec.description) description_required
  fail_if (is_empty spec.group) group_required
  fail_if (is_none spec.handler) handler_required
  fail_if (spec.method == method_get && is_some spec.request_type) get_with_body
