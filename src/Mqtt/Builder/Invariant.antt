-- ===== src/Mqtt/Builder/Invariant.antt =====
-- The invariant of the builder: its tables agree with its set of operation ids.
use go_http_mqtt_boilerplate.Prelude.{
  ℕ, ◌≤◌, ◌≡◌, ◌⊎◌, Bool, false, ◌&&◌, ◌||◌, Option, some, List, [], ◌∷◌, Text, text_eq_inst,
  lookup, has_key, is_none, member, ok, arith,
}
use go_http_mqtt_boilerplate.Generate.DocTypes.{MqttTopicParameter}
use go_http_mqtt_boilerplate.Generate.Interface.{MetadataCollector}
use go_http_mqtt_boilerplate.Mqtt.Topic.{validate_topic_pattern, convert_topic_to_mqtt}
use go_http_mqtt_boilerplate.Mqtt.Specs.{
  PublicationSpec, SubscriptionSpec, validate_publication_spec, validate_subscription_spec,
}
use go_http_mqtt_boilerplate.Mqtt.Builder.{Builder, check_publish, check_subscribe}

abbrev pub Has : {A : Type 0} → A → List A → Type 0
Has a [] = ⊥
Has a (x ∷ xs) = (x ≡ a) ⊎ Has a xs

module _ (c : MetadataCollector) (is_digit : ℕ → Bool) where
  -- a filter that comes from an accepted pattern
  abbrev pub IsFilter : Text → Type 0
  IsFilter filter =
      (pattern : Text) × (validate_topic_pattern is_digit pattern ≡ ok tt)
      × (filter ≡ convert_topic_to_mqtt pattern)

  pub record IsPublication (id : Text) (s : PublicationSpec) : Type 0 where
    pub keyed : s.operation_id ≡ id
    pub qos : s.qos ≤ 2
    pub filter : IsFilter s.topic_mqtt

  pub record IsSubscription (router : List (Text × Option ℕ)) (id : Text) (s : SubscriptionSpec)
      : Type 0 where
    pub keyed : s.operation_id ≡ id
    pub qos : s.qos ≤ 2
    pub filter : IsFilter s.topic_mqtt
    pub handled : is_none s.handler ≡ false
    pub routed : Has (s.topic_mqtt, s.handler) router

  -- The operation ids are the keys of the two tables, which share no key; each stored operation
  -- stands under its id with a legal QoS and the filter of an accepted pattern; and each stored
  -- subscription has a handler, registered with the router for that filter.
  pub record IsConsistent (mb : Builder c) : Type 0 where
    pub ids :
        (k : Text)
        → member k mb.operation_ids ≡ (has_key k mb.publications || has_key k mb.subscriptions)
    pub disjoint : (k : Text) → (has_key k mb.publications && has_key k mb.subscriptions) ≡ false
    pub published :
        (k : Text) (s : PublicationSpec) → lookup k mb.publications ≡ some s → IsPublication k s
    pub subscribed :
        (k : Text) (s : SubscriptionSpec)
        → lookup k mb.subscriptions ≡ some s
        → IsSubscription mb.router k s

  -- What the checks of `RegisterPublish` guarantee.
  pub record IsPublishable (mb : Builder c) (topic : Text) (spec : PublicationSpec) : Type 0 where
    pub open_for_registration : mb.registrations_completed ≡ false
    pub accepted : validate_topic_pattern is_digit topic ≡ ok tt
    pub valid : validate_publication_spec spec ≡ ok tt
    pub fresh : member spec.operation_id mb.operation_ids ≡ false

  pub check_publish-IsPublishable :
      (mb : Builder c) (topic : Text) (spec : PublicationSpec) (params : List MqttTopicParameter)
      → check_publish c is_digit mb topic spec ≡ ok params
      → IsPublishable mb topic spec
  unfolding check_publish
  check_publish-IsPublishable mb topic spec params h = ground arith

  pub record IsSubscribable (mb : Builder c) (topic : Text) (spec : SubscriptionSpec) : Type 0 where
    pub open_for_registration : mb.registrations_completed ≡ false
    pub accepted : validate_topic_pattern is_digit topic ≡ ok tt
    pub valid : validate_subscription_spec spec ≡ ok tt
    pub fresh : member spec.operation_id mb.operation_ids ≡ false

  pub check_subscribe-IsSubscribable :
      (mb : Builder c) (topic : Text) (spec : SubscriptionSpec) (params : List MqttTopicParameter)
      → check_subscribe c is_digit mb topic spec ≡ ok params
      → IsSubscribable mb topic spec
  unfolding check_subscribe
  check_subscribe-IsSubscribable mb topic spec params h = ground arith
