-- ===== src/Generate/Interface.antt =====
-- The interface `MetadataCollector` of backend/pkg/generate/generator.go, through which the builders
-- report what they register, and its `NoopCollector`. A collector is a state with operations that
-- return the next state, also beside an error.
use go_http_mqtt_boilerplate.Prelude.{Result, ok}
use go_http_mqtt_boilerplate.Generate.DocTypes.{
  RouteInfo, MqttPublicationInfo, MqttSubscriptionInfo,
}

pub record MetadataCollector : Type 1 where
  pub State : Type 0
  pub Error : Type 0
  pub register_route : RouteInfo → State → State × Result Error (Unit {0})
  pub register_mqtt_publication : MqttPublicationInfo → State → State × Result Error (Unit {0})
  pub register_mqtt_subscription : MqttSubscriptionInfo → State → State × Result Error (Unit {0})

abbrev pub noop_collector : MetadataCollector
noop_collector = record {
  State = Unit;
  Error = ⊥;
  register_route = λ route s. (s, ok tt);
  register_mqtt_publication = λ info s. (s, ok tt);
  register_mqtt_subscription = λ info s. (s, ok tt);
}
