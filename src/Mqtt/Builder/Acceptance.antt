-- ===== src/Mqtt/Builder/Acceptance.antt =====
-- With the no-op collector, which the programs use unless they generate documentation, exactly
-- which registrations succeed.
use go_http_mqtt_boilerplate.Prelude.{
  ℕ, ◌≡◌, refl, ◌↔◌, inl, inr, Bool, Text, text_eq_iff, text_eq_inst, split, map, List, ok,
  Result-cases, arith,
}
use go_http_mqtt_boilerplate.Generate.Params.{AgreesOnAscii}
use go_http_mqtt_boilerplate.Generate.Sanitize.{sanitize_path}
use go_http_mqtt_boilerplate.Generate.DocTypes.{MqttTopicParameter}
use go_http_mqtt_boilerplate.Generate.Interface.{noop_collector}
use go_http_mqtt_boilerplate.Mqtt.Topic.Levels.{validate_topic_pattern-sanitize_path}
use go_http_mqtt_boilerplate.Mqtt.Specs.{PublicationSpec, SubscriptionSpec}
use go_http_mqtt_boilerplate.Mqtt.Parameters.{parameter_info, generate_parameters}
use go_http_mqtt_boilerplate.Mqtt.Parameters.Laws.{
  IsDocumented, placeholder_names, generate_parameters-pattern_iff,
}
use go_http_mqtt_boilerplate.Mqtt.Builder.{
  Builder, check_publish, store_publication, register_publish, check_subscribe, store_subscription,
  register_subscribe,
}
use go_http_mqtt_boilerplate.Mqtt.Builder.Invariant.{IsPublishable, IsSubscribable}

module _ (is_digit : ℕ → Bool) (agrees : AgreesOnAscii is_digit) where
  module _ (mb : Builder noop_collector) (topic : Text) where
    check_publish_iff :
        (spec : PublicationSpec) (infos : List MqttTopicParameter)
        → (check_publish noop_collector is_digit mb topic spec ≡ ok infos) ↔ (
            IsPublishable noop_collector is_digit mb topic spec
            × (generate_parameters topic spec.topic_parameters ≡ ok infos))
    unfolding check_publish
    check_publish_iff spec infos = ground arith

    -- With the collector that accepts everything, `RegisterPublish` succeeds exactly before
    -- `Connect`, for an accepted pattern, a valid specification, an operation id not in use, and
    -- documented parameters that are complete and are the placeholders of the pattern.
    pub register_publish_iff :
        (spec : PublicationSpec)
        → ((register_publish noop_collector is_digit topic spec mb).1 ≡ ok tt) ↔ (
            IsPublishable noop_collector is_digit mb topic spec
            × IsDocumented (placeholder_names (split b'/' topic)) spec.topic_parameters)
    unfolding register_publish store_publication
    register_publish_iff spec = (sound, complete)
      where
        sound :
            (register_publish noop_collector is_digit topic spec mb).1 ≡ ok tt
            → IsPublishable noop_collector is_digit mb topic spec
              × IsDocumented (placeholder_names (split b'/' topic)) spec.topic_parameters
        sound h = elim (Result-cases (check_publish noop_collector is_digit mb topic spec)) [
          | inl (infos, e) ↦
              let (allowed, generated) = (check_publish_iff spec infos).0 e in
              let documented =
                generate_parameters-pattern_iff is_digit agrees topic spec.topic_parameters infos
                  allowed.accepted in
              (allowed, (documented.0 generated).0)
          | inr (error, e) ↦ ground arith
        ]

        complete :
            IsPublishable noop_collector is_digit mb topic spec
              × IsDocumented (placeholder_names (split b'/' topic)) spec.topic_parameters
            → (register_publish noop_collector is_digit topic spec mb).1 ≡ ok tt
        complete (allowed, documented) =
            let infos = map parameter_info spec.topic_parameters in
            let generated =
              (generate_parameters-pattern_iff is_digit agrees topic spec.topic_parameters infos
                  allowed.accepted).1
                (documented, refl) in
            ground (arith, (check_publish_iff spec infos).1 (allowed, generated))

    check_subscribe_iff :
        (spec : SubscriptionSpec) (infos : List MqttTopicParameter)
        → (check_subscribe noop_collector is_digit mb topic spec ≡ ok infos) ↔ (
            IsSubscribable noop_collector is_digit mb topic spec
            × (generate_parameters topic spec.topic_parameters ≡ ok infos))
    unfolding check_subscribe
    check_subscribe_iff spec infos = ground (
      arith,
      validate_topic_pattern-sanitize_path is_digit agrees topic,
      text_eq_iff topic (sanitize_path topic),
    )

    -- `RegisterSubscribe` succeeds exactly before `Connect`, for an accepted pattern, a valid
    -- specification, an operation id not in use, and documented parameters that are complete and
    -- are the placeholders of the pattern. So its check of the sanitized form refuses nothing more.
    -- The collector is the one that accepts everything.
    pub register_subscribe_iff :
        (spec : SubscriptionSpec)
        → ((register_subscribe noop_collector is_digit topic spec mb).1 ≡ ok tt) ↔ (
            IsSubscribable noop_collector is_digit mb topic spec
            × IsDocumented (placeholder_names (split b'/' topic)) spec.topic_parameters)
    unfolding register_subscribe store_subscription
    register_subscribe_iff spec = (sound, complete)
      where
        sound :
            (register_subscribe noop_collector is_digit topic spec mb).1 ≡ ok tt
            → IsSubscribable noop_collector is_digit mb topic spec
              × IsDocumented (placeholder_names (split b'/' topic)) spec.topic_parameters
        sound h = elim (Result-cases (check_subscribe noop_collector is_digit mb topic spec)) [
          | inl (infos, e) ↦
              let (allowed, generated) = (check_subscribe_iff spec infos).0 e in
              let documented =
                generate_parameters-pattern_iff is_digit agrees topic spec.topic_parameters infos
                  allowed.accepted in
              (allowed, (documented.0 generated).0)
          | inr (error, e) ↦ ground arith
        ]

        complete :
            IsSubscribable noop_collector is_digit mb topic spec
              × IsDocumented (placeholder_names (split b'/' topic)) spec.topic_parameters
            → (register_subscribe noop_collector is_digit topic spec mb).1 ≡ ok tt
        complete (allowed, documented) =
            let infos = map parameter_info spec.topic_parameters in
            let generated =
              (generate_parameters-pattern_iff is_digit agrees topic spec.topic_parameters infos
                  allowed.accepted).1
                (documented, refl) in
            ground (arith, (check_subscribe_iff spec infos).1 (allowed, generated))
