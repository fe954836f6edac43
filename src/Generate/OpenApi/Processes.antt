-- ===== src/Generate/OpenApi/Processes.antt =====
-- What the processing of the operations by backend/pkg/generate/collector_register.go does with
-- types that are sound for the document.
use go_http_mqtt_boilerplate.Prelude.{
  ℕ, not, Option, none, some, List, [], ◌∷◌, All, All-imp, text_eq_inst,
}
use go_http_mqtt_boilerplate.Generate.Values.{is_nil_or_nil_pointer, is_zero_value_struct}
use go_http_mqtt_boilerplate.Generate.DocTypes.{
  RouteInfo, RequestInfo, ResponseInfo, ParameterInfo, MqttTopicParameter, MqttPublicationInfo,
  MqttSubscriptionInfo,
}
use go_http_mqtt_boilerplate.Generate.Marks.{
  Types, http, request_nil, response_nil, response_not_zero, process_http_type,
  process_mqtt_message_type, process_mqtt_topic_parameter,
}
use go_http_mqtt_boilerplate.Generate.Marks.Growth.{IsReached, Grows, IsReached-Grows}
use go_http_mqtt_boilerplate.Generate.Collector.{
  process_request, process_responses, process_parameters, process_route, process_topic_parameters,
  process_publication, process_subscription,
}
use go_http_mqtt_boilerplate.Generate.OpenApi.Operations.{When, IsRouteReached}
use go_http_mqtt_boilerplate.Generate.OpenApi.Sound.{IsSound}
use go_http_mqtt_boilerplate.Generate.OpenApi.Runs.{
  Runs, Done, next-Runs, ok-Runs, guarded-Runs, process_http_type-Runs,
  process_mqtt_message_type-Runs, process_mqtt_topic_parameter-Runs,
}

abbrev RequestReached : Option RequestInfo → Types → Type 0
RequestReached request types = When (λ r. IsReached http types r.type_name) request

abbrev ResponsesReached : List (ℕ × ResponseInfo) → Types → Type 0
ResponsesReached responses types = All (λ e. IsReached http types e.1.type_name) responses

abbrev ParametersReached : List ParameterInfo → Types → Type 0
ParametersReached parameters types = All (λ p. IsReached http types p.type_name) parameters

RequestReached-Grows :
    {a b : Types} (request : Option RequestInfo)
    → Grows http a b
    → RequestReached request a
    → RequestReached request b
RequestReached-Grows none g r = tt
RequestReached-Grows (some request) g r = IsReached-Grows http request.type_name g r

ResponsesReached-Grows :
    {a b : Types} (responses : List (ℕ × ResponseInfo))
    → Grows http a b
    → ResponsesReached responses a
    → ResponsesReached responses b
ResponsesReached-Grows responses g r =
    All-imp _ _ (λ e reached. IsReached-Grows http e.1.type_name g reached) responses r

ParametersReached-Grows :
    {a b : Types} (parameters : List ParameterInfo)
    → Grows http a b
    → ParametersReached parameters a
    → ParametersReached parameters b
ParametersReached-Grows parameters g r =
    All-imp _ _ (λ p reached. IsReached-Grows http p.type_name g reached) parameters r

pub IsRouteReached-Grows :
    {a b : Types} (info : RouteInfo)
    → Grows http a b
    → IsRouteReached a info
    → IsRouteReached b info
IsRouteReached-Grows info g r = record {
  request = RequestReached-Grows info.request g r.request;
  parameters = ParametersReached-Grows info.parameters g r.parameters;
  responses = ResponsesReached-Grows info.responses g r.responses;
}

process_request-Runs :
    (request : Option RequestInfo) (types : Types)
    → IsSound types
    → Runs types RequestReached (process_request request types)
unfolding process_request
process_request-Runs none types s = ok-Runs types s RequestReached none tt
process_request-Runs (some request) types s =
    guarded-Runs types s RequestReached (is_nil_or_nil_pointer request.type_value) request_nil _ (
      next-Runs types _ RequestReached _
        (process_http_type request.type_value request.examples types)
        (process_http_type-Runs request.type_value request.examples types s)
        (λ named now m reached. ok-Runs now m.sound RequestReached _ reached))

process_responses-Runs :
    (responses : List (ℕ × ResponseInfo)) (types : Types)
    → IsSound types
    → Runs types ResponsesReached (process_responses responses types)
unfolding process_responses
process_responses-Runs [] types s = ok-Runs types s ResponsesReached [] tt
process_responses-Runs ((status_code, response) ∷ responses) types s =
    guarded-Runs types s ResponsesReached (is_nil_or_nil_pointer response.type_value)
      (response_nil status_code) _
      (guarded-Runs types s ResponsesReached (not (is_zero_value_struct response.type_value))
        (response_not_zero status_code) _
        (next-Runs types _ ResponsesReached _
          (process_http_type response.type_value response.examples types)
          (process_http_type-Runs response.type_value response.examples types s)
          (λ named now m reached.
            next-Runs now ResponsesReached ResponsesReached _ (process_responses responses now)
              (process_responses-Runs responses now m.sound)
              (λ rest after n others.
                ok-Runs after n.sound ResponsesReached _
                  (IsReached-Grows http named.0 n.grows reached, others)))))

process_parameters-Runs :
    (parameters : List ParameterInfo) (types : Types)
    → IsSound types
    → Runs types ParametersReached (process_parameters parameters types)
unfolding process_parameters
process_parameters-Runs [] types s = ok-Runs types s ParametersReached [] tt
process_parameters-Runs (parameter ∷ parameters) types s =
    next-Runs types _ ParametersReached _ (process_http_type parameter.type_value [] types)
      (process_http_type-Runs parameter.type_value [] types s)
      (λ named now m reached.
        next-Runs now ParametersReached ParametersReached _ (process_parameters parameters now)
          (process_parameters-Runs parameters now m.sound)
          (λ rest after n others.
            ok-Runs after n.sound ParametersReached _
              (IsReached-Grows http named.0 n.grows reached, others)))

abbrev pub RouteReached : RouteInfo → Types → Type 0
RouteReached info types = IsRouteReached types info

pub process_route-Runs :
    (info : RouteInfo) (types : Types)
    → IsSound types
    → Runs types RouteReached (process_route info types)
unfolding process_route
process_route-Runs info types s =
    next-Runs types RequestReached RouteReached _ (process_request info.request types)
      (process_request-Runs info.request types s)
      (λ request requested m a.
        next-Runs requested ResponsesReached RouteReached _
          (process_responses info.responses requested)
          (process_responses-Runs info.responses requested m.sound)
          (λ responses responded n b.
            next-Runs responded ParametersReached RouteReached _
              (process_parameters info.parameters responded)
              (process_parameters-Runs info.parameters responded n.sound)
              (λ parameters after o c. ok-Runs after o.sound RouteReached _ (record {
                request =
                    RequestReached-Grows request o.grows (RequestReached-Grows request n.grows a);
                parameters = c;
                responses = ResponsesReached-Grows responses o.grows b;
              }))))

process_topic_parameters-Runs :
    (parameters : List MqttTopicParameter) (types : Types)
    → IsSound types
    → Runs types Done (process_topic_parameters parameters types)
unfolding process_topic_parameters
process_topic_parameters-Runs [] types s = ok-Runs types s Done [] tt
process_topic_parameters-Runs (parameter ∷ parameters) types s =
    next-Runs types Done Done _ (process_mqtt_topic_parameter parameter.type_value types)
      (process_mqtt_topic_parameter-Runs parameter.type_value types s)
      (λ name now m _.
        next-Runs now Done Done _ (process_topic_parameters parameters now)
          (process_topic_parameters-Runs parameters now m.sound)
          (λ rest after n _. ok-Runs after n.sound Done _ tt))

pub process_publication-Runs :
    (info : MqttPublicationInfo) (types : Types)
    → IsSound types
    → Runs types Done (process_publication info types)
unfolding process_publication
process_publication-Runs info types s =
    next-Runs types Done Done _ (process_mqtt_message_type info.type_value info.examples types)
      (process_mqtt_message_type-Runs info.type_value info.examples types s)
      (λ named now m _.
        next-Runs now Done Done _ (process_topic_parameters info.topic_parameters now)
          (process_topic_parameters-Runs info.topic_parameters now m.sound)
          (λ rest after n _. ok-Runs after n.sound Done _ tt))

pub process_subscription-Runs :
    (info : MqttSubscriptionInfo) (types : Types)
    → IsSound types
    → Runs types Done (process_subscription info types)
unfolding process_subscription
process_subscription-Runs info types s =
    next-Runs types Done Done _ (process_mqtt_message_type info.type_value info.examples types)
      (process_mqtt_message_type-Runs info.type_value info.examples types s)
      (λ named now m _.
        next-Runs now Done Done _ (process_topic_parameters info.topic_parameters now)
          (process_topic_parameters-Runs info.topic_parameters now m.sound)
          (λ rest after n _. ok-Runs after n.sound Done _ tt))
