-- ===== src/Mqtt/Builder/Outcomes.antt =====
-- What a registration returns, what it stores, and what it leaves alone.
use go_http_mqtt_boilerplate.Prelude.{
  ℕ, ◌≡◌, refl, inl, inr, Bool, true, some, ◌∷◌, Text, text_eq_inst, ◌==◌, lookup, lookup-insert,
  Result, ok, err, Result-cases, if◌then◌else◌, arith,
}
use go_http_mqtt_boilerplate.Generate.Interface.{MetadataCollector}
use go_http_mqtt_boilerplate.Mqtt.Topic.{convert_topic_to_mqtt}
use go_http_mqtt_boilerplate.Mqtt.Specs.{PublicationSpec, SubscriptionSpec}
use go_http_mqtt_boilerplate.Mqtt.Builder.{
  Builder, RegisterError, already_connecting, check_publish, store_publication, register_publish,
  check_subscribe, store_subscription, register_subscribe, publication_info, subscription_info,
}
use go_http_mqtt_boilerplate.Mqtt.Builder.Invariant.{
  IsPublishable, IsSubscribable, check_publish-IsPublishable, check_subscribe-IsSubscribable,
}

module _ (c : MetadataCollector) (is_digit : ℕ → Bool) where
  open c use {State, Error, register_mqtt_publication, register_mqtt_subscription}

  -- A `RegisterPublish` that returns an error changes nothing in the builder but the state of the
  -- collector.
  pub register_publish-err :
      (topic : Text) (spec : PublicationSpec) (mb : Builder c) (e : RegisterError Error)
      → (register_publish c is_digit topic spec mb).1 ≡ err e
      → (register_publish c is_digit topic spec mb).0
        ≡ record mb { collector = (register_publish c is_digit topic spec mb).0.collector }
  unfolding register_publish store_publication
  register_publish-err topic spec mb e h = ground arith

  pub register_subscribe-err :
      (topic : Text) (spec : SubscriptionSpec) (mb : Builder c) (e : RegisterError Error)
      → (register_subscribe c is_digit topic spec mb).1 ≡ err e
      → (register_subscribe c is_digit topic spec mb).0
        ≡ record mb { collector = (register_subscribe c is_digit topic spec mb).0.collector }
  unfolding register_subscribe store_subscription
  register_subscribe-err topic spec mb e h = ground arith

  pub register_publish-completed :
      (topic : Text) (spec : PublicationSpec) (mb : Builder c)
      → mb.registrations_completed ≡ true
      → register_publish c is_digit topic spec mb ≡ (mb, err already_connecting)
  unfolding register_publish check_publish
  register_publish-completed topic spec mb h = rw h refl

  pub register_subscribe-completed :
      (topic : Text) (spec : SubscriptionSpec) (mb : Builder c)
      → mb.registrations_completed ≡ true
      → register_subscribe c is_digit topic spec mb ≡ (mb, err already_connecting)
  unfolding register_subscribe check_subscribe
  register_subscribe-completed topic spec mb h = rw h refl

  -- What a successful `RegisterPublish` has checked and stored.
  pub record IsPublished (mb : Builder c) (topic : Text) (spec : PublicationSpec) (mb' : Builder c)
      : Type 0 where
    pub allowed : IsPublishable c is_digit mb topic spec
    pub stored :
        (k : Text)
        → lookup k mb'.publications ≡ (
            if spec.operation_id == k
            then some (record spec { topic_mqtt = convert_topic_to_mqtt topic })
            else lookup k mb.publications)
    pub subscriptions : mb'.subscriptions ≡ mb.subscriptions
    pub router : mb'.router ≡ mb.router

  store_publication-ok :
      (topic : Text) (spec : PublicationSpec) (mb : Builder c)
      (out : State × Result Error (Unit {0}))
      → IsPublishable c is_digit mb topic spec
      → (store_publication c is_digit mb topic spec out).1 ≡ ok tt
      → IsPublished mb topic spec (store_publication c is_digit mb topic spec out).0
  unfolding store_publication
  store_publication-ok topic spec mb (s, err e) allowed h = cc
  store_publication-ok topic spec mb (s, ok _) allowed h = record {
    allowed = allowed;
    stored = λ k.
        lookup-insert spec.operation_id k (record spec { topic_mqtt = convert_topic_to_mqtt topic })
          mb.publications;
    subscriptions = refl;
    router = refl;
  }

  -- A successful `RegisterPublish` was made before `Connect`, for an accepted pattern, a valid
  -- specification and an operation id that was not in use. It stores the specification with its
  -- wildcard filter under the id; the other publications, the subscriptions and the router stay.
  pub register_publish-ok :
      (topic : Text) (spec : PublicationSpec) (mb : Builder c)
      → (register_publish c is_digit topic spec mb).1 ≡ ok tt
      → IsPublished mb topic spec (register_publish c is_digit topic spec mb).0
  register_publish-ok topic spec mb h =
      elim (Result-cases (check_publish c is_digit mb topic spec)) [
        | inl (params, e) ↦
            let info = publication_info c is_digit topic spec params in
            let out = register_mqtt_publication info mb.collector in
            let same : register_publish c is_digit topic spec mb
                ≡ store_publication c is_digit mb topic spec out =
              unfold register_publish in rw (e, register_publish) refl in
            let allowed = check_publish-IsPublishable c is_digit mb topic spec params e in
            rw same (store_publication-ok topic spec mb out allowed (rw same at h))
        | inr (error, e) ↦ unfold register_publish in ground arith
      ]

  pub record IsSubscribed (mb : Builder c) (topic : Text) (spec : SubscriptionSpec)
      (mb' : Builder c) : Type 0 where
    pub allowed : IsSubscribable c is_digit mb topic spec
    pub stored :
        (k : Text)
        → lookup k mb'.subscriptions ≡ (
            if spec.operation_id == k
            then some (record spec { topic_mqtt = convert_topic_to_mqtt topic })
            else lookup k mb.subscriptions)
    pub publications : mb'.publications ≡ mb.publications
    pub router : mb'.router ≡ (convert_topic_to_mqtt topic, spec.handler) ∷ mb.router

  store_subscription-ok :
      (topic : Text) (spec : SubscriptionSpec) (mb : Builder c)
      (out : State × Result Error (Unit {0}))
      → IsSubscribable c is_digit mb topic spec
      → (store_subscription c is_digit mb topic spec out).1 ≡ ok tt
      → IsSubscribed mb topic spec (store_subscription c is_digit mb topic spec out).0
  unfolding store_subscription
  store_subscription-ok topic spec mb (s, err e) allowed h = cc
  store_subscription-ok topic spec mb (s, ok _) allowed h = record {
    allowed = allowed;
    stored = λ k.
        lookup-insert spec.operation_id k (record spec { topic_mqtt = convert_topic_to_mqtt topic })
          mb.subscriptions;
    publications = refl;
    router = refl;
  }

  -- A successful `RegisterSubscribe` was made before `Connect`, for an accepted pattern, a valid
  -- specification and an operation id that was not in use. It stores the specification with its
  -- wildcard filter under the id and registers the handler for the filter with the router; the
  -- other subscriptions and the publications stay.
  pub register_subscribe-ok :
      (topic : Text) (spec : SubscriptionSpec) (mb : Builder c)
      → (register_subscribe c is_digit topic spec mb).1 ≡ ok tt
      → IsSubscribed mb topic spec (register_subscribe c is_digit topic spec mb).0
  register_subscribe-ok topic spec mb h =
      elim (Result-cases (check_subscribe c is_digit mb topic spec)) [
        | inl (params, e) ↦
            let info = subscription_info c is_digit topic spec params in
            let out = register_mqtt_subscription info mb.collector in
            let same : register_subscribe c is_digit topic spec mb
                ≡ store_subscription c is_digit mb topic spec out =
              unfold register_subscribe in rw (e, register_subscribe) refl in
            let allowed = check_subscribe-IsSubscribable c is_digit mb topic spec params e in
            rw same (store_subscription-ok topic spec mb out allowed (rw same at h))
        | inr (error, e) ↦ unfold register_subscribe in ground arith
      ]
