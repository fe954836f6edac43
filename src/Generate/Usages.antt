-- ===== src/Generate/Usages.antt =====
-- `buildUsedBy` and `addUsage` of backend/pkg/generate/collector_relations.go. The loops over the
-- operations are one loop over what they hand to `addUsage`, in their order.
pub mod Users
pub mod Laws
use go_http_mqtt_boilerplate.Prelude.{
  ℕ, ◌≡◌, ◌≢◌, refl, ◌∙◌, Option-cases, inl, inr, Bool, true, false, not, ◌&&◌, ◌||◌, Option, none,
  some, List, [], ◌∷◌, ◌++◌, Text, codes, lookup, insert, has_key, lookup-insert, member,
  text_eq_iff, text_eq_inst, ◌==◌, if◌then◌else◌, map, Map, arith,
}
use go_http_mqtt_boilerplate.Generate.DocTypes.{
  TypeInfo, UsageInfo, RouteInfo, RequestInfo, ResponseInfo, ParameterInfo, MqttPublicationInfo,
  MqttSubscriptionInfo,
}
use go_http_mqtt_boilerplate.Generate.Marks.{Types}
use go_http_mqtt_boilerplate.Generate.Collector.{OpenApiCollector}

unfoldable pub clear_used : Types → Types
clear_used [] = []
clear_used ((name, info) ∷ types) = (name, record info { used_by = [] }) ∷ clear_used types

abbrev pub append_usage : UsageInfo → TypeInfo → TypeInfo
append_usage usage info = record info { used_by = info.used_by ++ usage ∷ [] }

unfoldable pub add_usage : Text → UsageInfo → Types → Types
add_usage [] usage types = types
add_usage (c ∷ name) usage types = elim (lookup (c ∷ name) types) [
  | none ↦ types
  | some info ↦ insert (c ∷ name) (append_usage usage info) types
]

unfoldable pub add_usages : List (Text × UsageInfo) → Types → Types
add_usages [] types = types
add_usages ((name, usage) ∷ usages) types = add_usages usages (add_usage name usage types)

abbrev pub in_role : Text → Text → UsageInfo
in_role operation_id role = record { operation_id = operation_id; role = role }

abbrev pub request_usages : Text → Option RequestInfo → List (Text × UsageInfo)
request_usages id none = []
request_usages id (some request) = (request.type_name, in_role id (codes "request")) ∷ []

abbrev pub response_usages : Text → List (ℕ × ResponseInfo) → List (Text × UsageInfo)
response_usages id [] = []
response_usages id ((code, response) ∷ responses) =
    (response.type_name, in_role id (codes "response")) ∷ response_usages id responses

abbrev pub parameter_usages : Text → List ParameterInfo → List (Text × UsageInfo)
parameter_usages id [] = []
parameter_usages id (parameter ∷ parameters) =
    (parameter.type_name, in_role id (codes "parameter")) ∷ parameter_usages id parameters

unfoldable pub route_usages : Map RouteInfo → List (Text × UsageInfo)
route_usages [] = []
route_usages ((k, route) ∷ routes) =
    request_usages route.operation_id route.request
    ++ response_usages route.operation_id route.responses
    ++ parameter_usages route.operation_id route.parameters
    ++ route_usages routes

unfoldable pub publication_usages : Map MqttPublicationInfo → List (Text × UsageInfo)
publication_usages [] = []
publication_usages ((k, info) ∷ infos) =
    (info.type_name, in_role info.operation_id (codes "mqtt_publication"))
    ∷ publication_usages infos

unfoldable pub subscription_usages : Map MqttSubscriptionInfo → List (Text × UsageInfo)
subscription_usages [] = []
subscription_usages ((k, info) ∷ infos) =
    (info.type_name, in_role info.operation_id (codes "mqtt_subscription"))
    ∷ subscription_usages infos

unfoldable pub all_usages : OpenApiCollector → List (Text × UsageInfo)
all_usages g =
    route_usages g.http_ops
    ++ publication_usages g.mqtt_publications
    ++ subscription_usages g.mqtt_subscriptions

-- fmt.Sprintf("%s:%s", usage.OperationID, usage.Role)
unfoldable pub usage_key : UsageInfo → Text
usage_key usage = usage.operation_id ++ codes ":" ++ usage.role

-- the last loop at one type: the first usage of each key stays
unfoldable pub dedupe : List Text → List UsageInfo → List UsageInfo
dedupe seen [] = []
dedupe seen (usage ∷ usages) =
    let skipped = dedupe seen usages in
    let kept = usage ∷ dedupe (usage_key usage ∷ seen) usages in
    if member (usage_key usage) seen then skipped else kept

unfoldable pub dedupe_each : Types → Types
dedupe_each [] = []
dedupe_each ((name, info) ∷ types) =
    (name, record info { used_by = dedupe [] info.used_by }) ∷ dedupe_each types

unfoldable pub build_used_by : OpenApiCollector → OpenApiCollector
build_used_by g = record g { types = dedupe_each (add_usages (all_usages g) (clear_used g.types)) }
