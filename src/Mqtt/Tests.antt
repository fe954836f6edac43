-- ===== src/Mqtt/Tests.antt =====
-- The MQTT builder and client on concrete registrations: a device publishes its status, and the
-- server subscribes to it.
mod Runs
use go_http_mqtt_boilerplate.Prelude.{
  ◌&&◌, text_eq, insert, ◌≡◌, ◌↔◌, refl, true, false, none, some, List, [], ◌∷◌, map, lookup, Text,
  codes, split, has_prefix, has_suffix, contains, Result, ok, All, arith,
}
use go_http_mqtt_boilerplate.Generate.Values.{Value, plain}
use go_http_mqtt_boilerplate.Generate.Sanitize.{sanitize_path}
use go_http_mqtt_boilerplate.Generate.Params.{
  is_ascii_digit, AgreesOnAscii, is_valid_parameter_name, extract_param_name,
}
use go_http_mqtt_boilerplate.Generate.Interface.{noop_collector}
use go_http_mqtt_boilerplate.Mqtt.Topic.{
  validate_topic_pattern, validate_segment, convert_topic_to_mqtt,
}
use go_http_mqtt_boilerplate.Mqtt.Topic.Levels.{
  IsLevel, validate_topic_pattern_iff, validate_topic_pattern-sanitize_path,
}
use go_http_mqtt_boilerplate.Mqtt.Topic.Filters.{
  filter_matches, Instance, is_placed_first, starts_with, convert_topic_to_mqtt-matches_iff,
}
use go_http_mqtt_boilerplate.Mqtt.Specs.{
  TopicParameter, PublicationSpec, SubscriptionSpec, validate_publication_spec,
  validate_subscription_spec,
}
use go_http_mqtt_boilerplate.Mqtt.Parameters.{
  parameter_info, generate_parameters, topic_names, document, document_all, check_documented,
}
use go_http_mqtt_boilerplate.Mqtt.Parameters.Laws.{
  placeholder_names, IsDocumented, generate_parameters-pattern_iff,
}
use go_http_mqtt_boilerplate.Mqtt.Builder.{
  ClientOptions, Builder, new_builder, register_publish, register_subscribe, already_connecting,
  check_publish, check_subscribe, store_publication, store_subscription,
}
use go_http_mqtt_boilerplate.Mqtt.Builder.Invariant.{IsConsistent, IsPublishable, IsSubscribable}
use go_http_mqtt_boilerplate.Mqtt.Builder.Preserve.{
  new_builder-IsConsistent, register_subscribe-IsConsistent,
}
use go_http_mqtt_boilerplate.Mqtt.Builder.Outcomes.{
  IsPublished, IsSubscribed, register_publish-ok, register_subscribe-ok, register_publish-err,
}
use go_http_mqtt_boilerplate.Mqtt.Builder.History.{
  Registration, publish, subscribe, register_all, Extends, register_all-completed,
  register_all-IsConsistent, register_all-Extends,
}
use go_http_mqtt_boilerplate.Mqtt.Builder.Acceptance.{register_publish_iff, register_subscribe_iff}
use go_http_mqtt_boilerplate.Mqtt.Client
use go_http_mqtt_boilerplate.Mqtt.Client.{Packet, Answer, accepted, SubscribeOptions}
use go_http_mqtt_boilerplate.Mqtt.Client.Laws.{
  IsPacketOf, IsRequested, publish-packet_iff, subscribe_all-IsRequested,
}
use go_http_mqtt_boilerplate.Mqtt.Connection.{
  close_registrations, store_manager, on_connect, System, Reach, here, next, begins, opens, stores,
  goes_up,
}
use go_http_mqtt_boilerplate.Mqtt.Connection.Requests.{IsOrdered, Reach-IsOrdered}
use go_http_mqtt_boilerplate.Mqtt.Connection.Race.{IsSilent, Reach-IsSilent}

abbrev pub status : Value
status =
    plain
      (record { name = codes "DeviceStatus"; is_struct = true; is_zero = true; json = codes "{}" })

abbrev pub pattern_ : Text
pattern_ = codes "devices/{deviceID}/status"

abbrev pub device : TopicParameter
device = record { name = codes "deviceID"; description = codes "The device"; type = status }

abbrev pub publication : PublicationSpec
publication = record {
  operation_id = codes "publishStatus";
  topic_mqtt = [];
  summary = codes "Publish";
  description = codes "Publishes the status";
  group = codes "Control";
  deprecated = [];
  topic_parameters = device ∷ [];
  message_type = status;
  qos = 1;
  retained = true;
  examples = [];
}

abbrev pub subscription : SubscriptionSpec
subscription = record {
  operation_id = codes "subscribeStatus";
  topic_mqtt = [];
  summary = codes "Subscribe";
  description = codes "Receives the status";
  group = codes "Control";
  deprecated = [];
  topic_parameters = device ∷ [];
  message_type = status;
  handler = some 7;
  qos = 2;
  examples = [];
}

abbrev pub options : ClientOptions
options = record {
  broker_url = codes "mqtt://localhost";
  client_id = codes "server";
  username = [];
  password = [];
}

abbrev pub fresh : Builder noop_collector
fresh = record {
  conn_mgr = none;
  client_conn_mgr = none;
  collector = tt;
  router = [];
  operation_ids = [];
  publications = [];
  subscriptions = [];
  connected = false;
  opts = options;
  registrations_completed = false;
}

agrees : AgreesOnAscii is_ascii_digit
agrees r h = refl

pattern_valid : validate_topic_pattern is_ascii_digit pattern_ ≡ ok tt
unfolding validate_topic_pattern has_prefix has_suffix split validate_segment contains
    is_valid_parameter_name
pattern_valid = refl

pub fresh-IsConsistent : IsConsistent noop_collector is_ascii_digit fresh
unfolding new_builder
fresh-IsConsistent = new_builder-IsConsistent noop_collector is_ascii_digit tt options fresh refl

register_publish-accepts :
    (register_publish noop_collector is_ascii_digit pattern_ publication fresh).1 ≡ ok tt
unfolding register_publish check_publish validate_publication_spec store_publication
    validate_topic_pattern has_prefix has_suffix split validate_segment contains
    is_valid_parameter_name generate_parameters topic_names extract_param_name document_all document
    text_eq check_documented
register_publish-accepts = refl

register_subscribe-accepts :
    (register_subscribe noop_collector is_ascii_digit pattern_ subscription fresh).1 ≡ ok tt
unfolding register_subscribe check_subscribe validate_subscription_spec store_subscription
    sanitize_path validate_topic_pattern has_prefix has_suffix split validate_segment contains
    is_valid_parameter_name generate_parameters topic_names extract_param_name document_all document
    text_eq check_documented
register_subscribe-accepts = refl

validate_topic_pattern_iff_example :
    (validate_topic_pattern is_ascii_digit pattern_ ≡ ok tt)
    ↔ All (IsLevel is_ascii_digit) (split b'/' pattern_)
validate_topic_pattern_iff_example = validate_topic_pattern_iff is_ascii_digit agrees pattern_

convert_topic_to_mqtt-matches_iff_example :
    (filter_matches (convert_topic_to_mqtt pattern_) (codes "devices/lamp/status") ≡ true) ↔ (
      Instance (split b'/' pattern_) (split b'/' (codes "devices/lamp/status"))
      × ((is_placed_first (split b'/' pattern_) && starts_with b'$' (codes "devices/lamp/status"))
          ≡ false))
convert_topic_to_mqtt-matches_iff_example =
    convert_topic_to_mqtt-matches_iff is_ascii_digit agrees pattern_ (codes "devices/lamp/status")
      pattern_valid

generate_parameters-pattern_iff_example :
    (generate_parameters pattern_ (device ∷ []) ≡ ok (parameter_info device ∷ [])) ↔ (
      IsDocumented (placeholder_names (split b'/' pattern_)) (device ∷ [])
      × (parameter_info device ∷ [] ≡ map parameter_info (device ∷ [])))
generate_parameters-pattern_iff_example =
    generate_parameters-pattern_iff is_ascii_digit agrees pattern_ (device ∷ [])
      (parameter_info device ∷ []) pattern_valid

register_publish-ok_example :
    IsPublished noop_collector is_ascii_digit fresh pattern_ publication
      (register_publish noop_collector is_ascii_digit pattern_ publication fresh).0
register_publish-ok_example =
    register_publish-ok noop_collector is_ascii_digit pattern_ publication fresh
      register_publish-accepts

register_subscribe-ok_example :
    IsSubscribed noop_collector is_ascii_digit fresh pattern_ subscription
      (register_subscribe noop_collector is_ascii_digit pattern_ subscription fresh).0
register_subscribe-ok_example =
    register_subscribe-ok noop_collector is_ascii_digit pattern_ subscription fresh
      register_subscribe-accepts

abbrev closed : Builder noop_collector
closed = record fresh { registrations_completed = true }

register_publish_iff_example :
    ((register_publish noop_collector is_ascii_digit pattern_ publication fresh).1 ≡ ok tt) ↔ (
      IsPublishable noop_collector is_ascii_digit fresh pattern_ publication
      × IsDocumented (placeholder_names (split b'/' pattern_)) publication.topic_parameters)
register_publish_iff_example = register_publish_iff is_ascii_digit agrees fresh pattern_ publication

register_subscribe_iff_example :
    ((register_subscribe noop_collector is_ascii_digit pattern_ subscription fresh).1 ≡ ok tt) ↔ (
      IsSubscribable noop_collector is_ascii_digit fresh pattern_ subscription
      × IsDocumented (placeholder_names (split b'/' pattern_)) subscription.topic_parameters)
register_subscribe_iff_example =
    register_subscribe_iff is_ascii_digit agrees fresh pattern_ subscription

abbrev registrations : List Registration
registrations = publish pattern_ publication ∷ subscribe pattern_ subscription ∷ []

register_all-IsConsistent_example :
    IsConsistent noop_collector is_ascii_digit
      (register_all noop_collector is_ascii_digit registrations fresh)
register_all-IsConsistent_example =
    register_all-IsConsistent noop_collector is_ascii_digit registrations fresh fresh-IsConsistent

register_all-Extends_example :
    Extends noop_collector is_ascii_digit fresh
      (register_all noop_collector is_ascii_digit registrations fresh)
register_all-Extends_example =
    register_all-Extends noop_collector is_ascii_digit registrations fresh fresh-IsConsistent
