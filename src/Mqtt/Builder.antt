-- ===== src/Mqtt/Builder.antt =====
-- `MQTTBuilder` of backend/pkg/mqtt/mqtt_builder.go: its state and the registration of operations.
-- A method returns the next builder beside its result. `conn_mgr` and `client_conn_mgr` are the
-- connection managers that the builder and its client point to, by a number, `none` for nil; the
-- router is the list of the handlers registered with it, the newest first. Logging is left out.
pub mod Invariant
pub mod Preserve
pub mod Outcomes
pub mod History
pub mod Acceptance
use go_http_mqtt_boilerplate.Prelude.{
  ℕ, Bool, true, false, not, Option, none, some, List, [], ◌∷◌, Text, Map, insert, member,
  text_eq_inst, ◌==◌, if◌then◌else◌, Result, ok, err, ◌>>=◌, ◌>>◌, fail_if, wrap,
}
use go_http_mqtt_boilerplate.Generate.Sanitize.{sanitize_path}
use go_http_mqtt_boilerplate.Generate.DocTypes.{
  MqttTopicParameter, MqttPublicationInfo, MqttSubscriptionInfo,
}
use go_http_mqtt_boilerplate.Generate.Interface.{MetadataCollector}
use go_http_mqtt_boilerplate.Mqtt.Topic.{
  TopicError, is_empty, validate_topic_pattern, convert_topic_to_mqtt,
}
use go_http_mqtt_boilerplate.Mqtt.Specs.{
  PublicationSpec, SubscriptionSpec, SpecError, validate_publication_spec,
  validate_subscription_spec,
}
use go_http_mqtt_boilerplate.Mqtt.Parameters.{ParameterError, generate_parameters}

pub record ClientOptions : Type 0 where
  pub broker_url : Text
  pub client_id : Text
  pub username : Text
  pub password : Text

pub data OptionsError : Type 0 where
  broker_url_required client_id_required : OptionsError

pub data RegisterError (E : Type 0) : Type 0 where
  already_connecting : RegisterError E
  not_sanitized : (topic sanitized : Text) → RegisterError E
  invalid_topic : TopicError → RegisterError E
  invalid_spec : SpecError → RegisterError E
  duplicate_operation_id : Text → RegisterError E
  invalid_parameters : ParameterError → RegisterError E
  rejected_by_collector : E → RegisterError E

module _ (c : MetadataCollector) where
  open c use {State, Error, register_mqtt_publication, register_mqtt_subscription}

  pub record Builder : Type 0 where
    pub conn_mgr : Option ℕ
    pub client_conn_mgr : Option ℕ
    pub collector : State
    pub router : List (Text × Option ℕ)
    pub operation_ids : List Text
    pub publications : Map PublicationSpec
    pub subscriptions : Map SubscriptionSpec
    pub connected : Bool
    pub opts : ClientOptions
    pub registrations_completed : Bool

  unfoldable pub new_builder : State → ClientOptions → Result OptionsError Builder
  new_builder collector opts = do
    fail_if (is_empty opts.broker_url) broker_url_required
    fail_if (is_empty opts.client_id) client_id_required
    ok (record {
      conn_mgr = none;
      client_conn_mgr = none;
      collector = collector;
      router = [];
      operation_ids = [];
      publications = [];
      subscriptions = [];
      connected = false;
      opts = opts;
      registrations_completed = false;
    })

  module _ (is_digit : ℕ → Bool) where
    -- the checks of `RegisterPublish`, up to the call of the collector
    unfoldable pub check_publish :
        Builder → Text → PublicationSpec → Result (RegisterError Error) (List MqttTopicParameter)
    check_publish mb topic spec = do
      fail_if mb.registrations_completed already_connecting
      wrap invalid_topic (validate_topic_pattern is_digit topic)
      wrap invalid_spec (validate_publication_spec spec)
      fail_if (member spec.operation_id mb.operation_ids) (duplicate_operation_id spec.operation_id)
      wrap invalid_parameters (generate_parameters topic spec.topic_parameters)

    abbrev pub publication_info :
        Text → PublicationSpec → List MqttTopicParameter → MqttPublicationInfo
    publication_info topic spec params = record {
      operation_id = spec.operation_id;
      topic = topic;
      topic_mqtt = convert_topic_to_mqtt topic;
      topic_parameters = params;
      summary = spec.summary;
      description = spec.description;
      group = spec.group;
      deprecated = spec.deprecated;
      qos = spec.qos;
      retained = spec.retained;
      type_name = [];
      type_value = spec.message_type;
      examples_stringified = [];
      examples = spec.examples;
    }

    -- the rest of `RegisterPublish`, on what the collector returned
    unfoldable pub store_publication :
        Builder
        → Text
        → PublicationSpec
        → State × Result Error (Unit {0})
        → Builder × Result (RegisterError Error) (Unit {0})
    store_publication mb topic spec (s, err e) =
        (record mb { collector = s }, err (rejected_by_collector e))
    store_publication mb topic spec (s, ok _) =
        let stored = record spec { topic_mqtt = convert_topic_to_mqtt topic } in
        (
          record mb {
            collector = s;
            operation_ids = spec.operation_id ∷ mb.operation_ids;
            publications = insert spec.operation_id stored mb.publications;
          },
          ok tt,
        )

    unfoldable pub register_publish :
        Text → PublicationSpec → Builder → Builder × Result (RegisterError Error) (Unit {0})
    register_publish topic spec mb = elim (check_publish mb topic spec) [
      | err e ↦ (mb, err e)
      | ok params ↦
          store_publication mb topic spec
            (register_mqtt_publication (publication_info topic spec params) mb.collector)
    ]

    -- the checks of `RegisterSubscribe`
    unfoldable pub check_subscribe :
        Builder → Text → SubscriptionSpec → Result (RegisterError Error) (List MqttTopicParameter)
    check_subscribe mb topic spec = do
      fail_if mb.registrations_completed already_connecting
      fail_if (not (topic == sanitize_path topic)) (not_sanitized topic (sanitize_path topic))
      wrap invalid_topic (validate_topic_pattern is_digit topic)
      wrap invalid_spec (validate_subscription_spec spec)
      fail_if (member spec.operation_id mb.operation_ids) (duplicate_operation_id spec.operation_id)
      wrap invalid_parameters (generate_parameters topic spec.topic_parameters)

    abbrev pub subscription_info :
        Text → SubscriptionSpec → List MqttTopicParameter → MqttSubscriptionInfo
    subscription_info topic spec params = record {
      operation_id = spec.operation_id;
      topic = topic;
      topic_mqtt = convert_topic_to_mqtt topic;
      topic_parameters = params;
      summary = spec.summary;
      description = spec.description;
      group = spec.group;
      deprecated = spec.deprecated;
      qos = spec.qos;
      type_name = [];
      type_value = spec.message_type;
      examples_stringified = [];
      examples = spec.examples;
    }

    unfoldable pub store_subscription :
        Builder
        → Text
        → SubscriptionSpec
        → State × Result Error (Unit {0})
        → Builder × Result (RegisterError Error) (Unit {0})
    store_subscription mb topic spec (s, err e) =
        (record mb { collector = s }, err (rejected_by_collector e))
    store_subscription mb topic spec (s, ok _) =
        let filter = convert_topic_to_mqtt topic in
        let stored = record spec { topic_mqtt = filter } in
        (
          record mb {
            collector = s;
            operation_ids = spec.operation_id ∷ mb.operation_ids;
            subscriptions = insert spec.operation_id stored mb.subscriptions;
            router = (filter, spec.handler) ∷ mb.router;
          },
          ok tt,
        )

    unfoldable pub register_subscribe :
        Text → SubscriptionSpec → Builder → Builder × Result (RegisterError Error) (Unit {0})
    register_subscribe topic spec mb = elim (check_subscribe mb topic spec) [
      | err e ↦ (mb, err e)
      | ok params ↦
          store_subscription mb topic spec
            (register_mqtt_subscription (subscription_info topic spec params) mb.collector)
    ]

    -- `MustRegisterPublish` and `MustRegisterSubscribe`: `none` is the end of the program
    abbrev or_exit : Builder × Result (RegisterError Error) (Unit {0}) → Option Builder
    or_exit (mb, ok _) = some mb
    or_exit (mb, err e) = none

    unfoldable pub must_register_publish : Text → PublicationSpec → Builder → Option Builder
    must_register_publish topic spec mb = or_exit (register_publish topic spec mb)

    unfoldable pub must_register_subscribe : Text → SubscriptionSpec → Builder → Option Builder
    must_register_subscribe topic spec mb = or_exit (register_subscribe topic spec mb)
