-- ===== src/Generate/Collector.antt =====
-- `OpenAPICollector` as far as the builders use it: the registration of routes, publications and
-- subscriptions of backend/pkg/generate/collector_register.go. The prefixes that wrap an error's text
-- are left out.
pub mod Ids
use go_http_mqtt_boilerplate.Prelude.{
  ℕ, ◌≡◌, ◌↔◌, Bool, true, false, not, ◌&&◌, ◌||◌, Option, none, some, List, [], ◌∷◌, Text, Map,
  lookup, insert, has_key, if◌then◌else◌, Result, ok, err, ◌>>=◌, ◌>>◌, fail_if, arith,
}
use go_http_mqtt_boilerplate.Mqtt.Topic.{is_empty}
use go_http_mqtt_boilerplate.Generate.Params.{is_ascii_letter_string}
use go_http_mqtt_boilerplate.Generate.Values.{Value, is_nil_or_nil_pointer, is_zero_value_struct}
use go_http_mqtt_boilerplate.Generate.DocTypes.{
  TypeInfo, RouteInfo, RequestInfo, ResponseInfo, ParameterInfo, MqttTopicParameter,
  MqttPublicationInfo, MqttSubscriptionInfo,
}
use go_http_mqtt_boilerplate.Generate.Interface.{MetadataCollector}
use go_http_mqtt_boilerplate.Generate.Marks.{
  Types, CollectorError, empty_operation_id, bad_operation_id, duplicate_publication,
  duplicate_subscription, duplicate_http, request_nil, response_nil, response_not_zero, Outcome,
  next, process_http_type, process_mqtt_message_type, process_mqtt_topic_parameter,
}

pub record OpenApiCollector : Type 0 where
  pub types : Types
  pub http_ops : Map RouteInfo
  pub mqtt_publications : Map MqttPublicationInfo
  pub mqtt_subscriptions : Map MqttSubscriptionInfo

unfoldable pub validate_operation_id_format : Text → Result CollectorError (Unit {0})
validate_operation_id_format operation_id = do
  fail_if (is_empty operation_id) empty_operation_id
  fail_if (not (is_ascii_letter_string operation_id)) (bad_operation_id operation_id)

unfoldable pub validate_unique_operation_id :
    Text → OpenApiCollector → Result CollectorError (Unit {0})
validate_unique_operation_id operation_id g = do
  fail_if (has_key operation_id g.mqtt_publications) (duplicate_publication operation_id)
  fail_if (has_key operation_id g.mqtt_subscriptions) (duplicate_subscription operation_id)
  fail_if (has_key operation_id g.http_ops) (duplicate_http operation_id)

unfoldable pub process_request : Option RequestInfo → Types → Outcome (Option RequestInfo)
process_request none types = (types, ok none)
process_request (some request) types =
    if is_nil_or_nil_pointer request.type_value
    then (types, err request_nil)
    else next (process_http_type request.type_value request.examples types) (λ named now.
      (now, ok (some (record request { type_name = named.0; examples_stringified = named.1 }))))

unfoldable pub process_responses :
    List (ℕ × ResponseInfo) → Types → Outcome (List (ℕ × ResponseInfo))
process_responses [] types = (types, ok [])
process_responses ((status_code, response) ∷ responses) types =
    let processed =
      next (process_http_type response.type_value response.examples types) (λ named now.
        next (process_responses responses now) (λ rest after. (
          after,
          ok (
              (status_code, record response { type_name = named.0; examples_stringified = named.1 })
              ∷ rest),
        ))) in
    if is_nil_or_nil_pointer response.type_value
    then (types, err (response_nil status_code))
    else if not (is_zero_value_struct response.type_value)
    then (types, err (response_not_zero status_code))
    else processed

unfoldable pub process_parameters : List ParameterInfo → Types → Outcome (List ParameterInfo)
process_parameters [] types = (types, ok [])
process_parameters (parameter ∷ parameters) types =
    next (process_http_type parameter.type_value [] types) (λ named now.
      next (process_parameters parameters now)
        (λ rest after. (after, ok (record parameter { type_name = named.0 } ∷ rest))))

unfoldable pub process_route : RouteInfo → Types → Outcome RouteInfo
process_route route types = next (process_request route.request types) (λ request requested.
    next (process_responses route.responses requested) (λ responses responded.
      next (process_parameters route.parameters responded) (λ parameters after. (
        after,
        ok (record route { request = request; responses = responses; parameters = parameters }),
      ))))

unfoldable pub process_topic_parameters :
    List MqttTopicParameter → Types → Outcome (List MqttTopicParameter)
process_topic_parameters [] types = (types, ok [])
process_topic_parameters (parameter ∷ parameters) types =
    next (process_mqtt_topic_parameter parameter.type_value types) (λ name now.
      next (process_topic_parameters parameters now)
        (λ rest after. (after, ok (record parameter { type_name = name } ∷ rest))))

unfoldable pub process_publication : MqttPublicationInfo → Types → Outcome MqttPublicationInfo
process_publication info types =
    next (process_mqtt_message_type info.type_value info.examples types) (λ named now.
      next (process_topic_parameters info.topic_parameters now) (λ parameters after. (
        after,
        ok (record info {
          type_name = named.0;
          examples_stringified = named.1;
          topic_parameters = parameters;
        }),
      )))

unfoldable pub process_subscription : MqttSubscriptionInfo → Types → Outcome MqttSubscriptionInfo
process_subscription info types =
    next (process_mqtt_message_type info.type_value info.examples types) (λ named now.
      next (process_topic_parameters info.topic_parameters now) (λ parameters after. (
        after,
        ok (record info {
          type_name = named.0;
          examples_stringified = named.1;
          topic_parameters = parameters;
        }),
      )))

-- both validations of an operation id
unfoldable pub check_operation_id : Text → OpenApiCollector → Result CollectorError (Unit {0})
check_operation_id operation_id g = do
  validate_operation_id_format operation_id
  validate_unique_operation_id operation_id g

-- the last statement of a registration, after the types have been processed
abbrev pub stored :
    {A : Type 0}
    → (A → OpenApiCollector → OpenApiCollector)
    → OpenApiCollector
    → Outcome A
    → OpenApiCollector × Result CollectorError (Unit {0})
stored store g (types, ok info) = (store info (record g { types = types }), ok tt)
stored store g (types, err e) = (record g { types = types }, err e)

-- g.httpOps[id] = route, and the same of the other tables
abbrev pub keep_route : Text → RouteInfo → OpenApiCollector → OpenApiCollector
keep_route id info g = record g { http_ops = insert id info g.http_ops }

abbrev pub keep_publication : Text → MqttPublicationInfo → OpenApiCollector → OpenApiCollector
keep_publication id info g = record g { mqtt_publications = insert id info g.mqtt_publications }

abbrev pub keep_subscription : Text → MqttSubscriptionInfo → OpenApiCollector → OpenApiCollector
keep_subscription id info g = record g { mqtt_subscriptions = insert id info g.mqtt_subscriptions }

unfoldable pub register_route :
    RouteInfo → OpenApiCollector → OpenApiCollector × Result CollectorError (Unit {0})
register_route route g = elim (check_operation_id route.operation_id g) [
  | err e ↦ (g, err e)
  | ok _ ↦ stored (keep_route route.operation_id) g (process_route route g.types)
]

unfoldable pub register_mqtt_publication :
    MqttPublicationInfo → OpenApiCollector → OpenApiCollector × Result CollectorError (Unit {0})
register_mqtt_publication info g = elim (check_operation_id info.operation_id g) [
  | err e ↦ (g, err e)
  | ok _ ↦ stored (keep_publication info.operation_id) g (process_publication info g.types)
]

unfoldable pub register_mqtt_subscription :
    MqttSubscriptionInfo → OpenApiCollector → OpenApiCollector × Result CollectorError (Unit {0})
register_mqtt_subscription info g = elim (check_operation_id info.operation_id g) [
  | err e ↦ (g, err e)
  | ok _ ↦ stored (keep_subscription info.operation_id) g (process_subscription info g.types)
]

-- The collector behind the interface that the builders take.
abbrev pub open_api_collector : MetadataCollector
open_api_collector = record {
  State = OpenApiCollector;
  Error = CollectorError;
  register_route = register_route;
  register_mqtt_publication = register_mqtt_publication;
  register_mqtt_subscription = register_mqtt_subscription;
}
