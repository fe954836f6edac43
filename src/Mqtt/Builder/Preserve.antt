-- ===== src/Mqtt/Builder/Preserve.antt =====
-- Every registration, accepted or refused, keeps the invariant of the builder.
use go_http_mqtt_boilerplate.Prelude.{
  ℕ, ◌≡◌, refl, inl, inr, Bool, Option, [], ◌∷◌, Text, text_eq_iff, text_eq_inst, lookup,
  lookup-insert, lookup-insert_inv, ap, Result, ok, err, Result-cases, arith,
}
use mathlib.Core.Path.{subst₂}
use go_http_mqtt_boilerplate.Generate.Interface.{MetadataCollector}
use go_http_mqtt_boilerplate.Mqtt.Topic.{convert_topic_to_mqtt}
use go_http_mqtt_boilerplate.Mqtt.Specs.{
  PublicationSpec, SubscriptionSpec, validate_publication_spec-qos, validate_subscription_spec-qos,
}
use go_http_mqtt_boilerplate.Mqtt.Builder.{
  Builder, new_builder, ClientOptions, check_publish, store_publication, register_publish,
  check_subscribe, store_subscription, register_subscribe, publication_info, subscription_info,
}
use go_http_mqtt_boilerplate.Mqtt.Builder.Invariant.{
  IsPublication, IsSubscription, IsConsistent, IsPublishable, IsSubscribable,
  check_publish-IsPublishable, check_subscribe-IsSubscribable,
}

module _ (c : MetadataCollector) (is_digit : ℕ → Bool) where
  open c use {State, Error, register_mqtt_publication, register_mqtt_subscription}

  empty-IsConsistent :
      (mb : Builder c)
      → mb.operation_ids ≡ []
      → mb.publications ≡ []
      → mb.subscriptions ≡ []
      → IsConsistent c is_digit mb
  unfolding lookup
  empty-IsConsistent mb i p s = record {
    ids = λ k. rw (i, p, s) refl;
    disjoint = λ k. rw p refl;
    published = λ k spec e. cc (ap (lookup k) p);
    subscribed = λ k spec e. cc (ap (lookup k) s);
  }

  -- A builder that `NewMQTTBuilder` returns is consistent.
  pub new_builder-IsConsistent :
      (s : State) (opts : ClientOptions) (mb : Builder c)
      → new_builder c s opts ≡ ok mb
      → IsConsistent c is_digit mb
  unfolding new_builder
  new_builder-IsConsistent s opts mb h =
      empty-IsConsistent mb (ground arith) (ground arith) (ground arith)

  module _ (mb : Builder c) (v : IsConsistent c is_digit mb) (topic : Text) where
    store_publication-IsConsistent :
        (spec : PublicationSpec) (out : State × Result Error (Unit {0}))
        → IsPublishable c is_digit mb topic spec
        → IsConsistent c is_digit (store_publication c is_digit mb topic spec out).0
    unfolding store_publication
    store_publication-IsConsistent spec (s, err e) checked = record {
      ids = v.ids;
      disjoint = v.disjoint;
      published = v.published;
      subscribed = v.subscribed;
    }
    store_publication-IsConsistent spec (s, ok _) checked =
        let id = spec.operation_id in
        let stored = record spec { topic_mqtt = convert_topic_to_mqtt topic } in
        let found = λ (k : Text). lookup-insert id k stored mb.publications in
        record {
          ids = λ k. ground (arith, v.ids k, found k);
          disjoint =
              λ k. ground (arith, v.ids k, v.disjoint k, found k, checked.fresh, text_eq_iff id k);
          published = λ k s e. elim (lookup-insert_inv id k stored s mb.publications e) [
            | inl (same, new) ↦ subst₂ (IsPublication c is_digit) same new (record {
              keyed = refl;
              qos = validate_publication_spec-qos spec checked.valid;
              filter = (topic, checked.accepted, refl);
            })
            | inr old ↦ v.published k s old
          ];
          subscribed = v.subscribed;
        }

    weaken :
        (entry : Text × Option ℕ) (k : Text) (s : SubscriptionSpec)
        → IsSubscription c is_digit mb.router k s
        → IsSubscription c is_digit (entry ∷ mb.router) k s
    weaken entry k s h = record {
      keyed = h.keyed;
      qos = h.qos;
      filter = h.filter;
      handled = h.handled;
      routed = inr h.routed;
    }

    store_subscription-IsConsistent :
        (spec : SubscriptionSpec) (out : State × Result Error (Unit {0}))
        → IsSubscribable c is_digit mb topic spec
        → IsConsistent c is_digit (store_subscription c is_digit mb topic spec out).0
    unfolding store_subscription
    store_subscription-IsConsistent spec (s, err e) checked = record {
      ids = v.ids;
      disjoint = v.disjoint;
      published = v.published;
      subscribed = v.subscribed;
    }
    store_subscription-IsConsistent spec (s, ok _) checked =
        let id = spec.operation_id in
        let filter = convert_topic_to_mqtt topic in
        let stored = record spec { topic_mqtt = filter } in
        let found = λ (k : Text). lookup-insert id k stored mb.subscriptions in
        let valid = validate_subscription_spec-qos spec checked.valid in
        record {
          ids = λ k. ground (arith, v.ids k, found k);
          disjoint =
              λ k. ground (arith, v.ids k, v.disjoint k, found k, checked.fresh, text_eq_iff id k);
          published = v.published;
          subscribed = λ k s e. elim (lookup-insert_inv id k stored s mb.subscriptions e) [
            | inl (same, new) ↦
                subst₂ (IsSubscription c is_digit ((filter, spec.handler) ∷ mb.router)) same new
                  (record {
                    keyed = refl;
                    qos = valid.0;
                    filter = (topic, checked.accepted, refl);
                    handled = valid.1;
                    routed = inl refl;
                  })
            | inr old ↦ weaken (filter, spec.handler) k s (v.subscribed k s old)
          ];
        }

    -- `RegisterPublish` keeps the invariant, whatever it returns.
    pub register_publish-IsConsistent :
        (spec : PublicationSpec)
        → IsConsistent c is_digit (register_publish c is_digit topic spec mb).0
    unfolding register_publish
    register_publish-IsConsistent spec =
        elim (Result-cases (check_publish c is_digit mb topic spec)) [
          | inl (params, e) ↦
              rw (e, register_publish)
                (store_publication-IsConsistent spec
                  (register_mqtt_publication (publication_info c is_digit topic spec params)
                    mb.collector)
                  (check_publish-IsPublishable c is_digit mb topic spec params e))
          | inr (error, e) ↦ rw (e, register_publish) v
        ]

    -- `RegisterSubscribe` keeps the invariant, whatever it returns.
    pub register_subscribe-IsConsistent :
        (spec : SubscriptionSpec)
        → IsConsistent c is_digit (register_subscribe c is_digit topic spec mb).0
    unfolding register_subscribe
    register_subscribe-IsConsistent spec =
        elim (Result-cases (check_subscribe c is_digit mb topic spec)) [
          | inl (params, e) ↦
              rw (e, register_subscribe)
                (store_subscription-IsConsistent spec
                  (register_mqtt_subscription (subscription_info c is_digit topic spec params)
                    mb.collector)
                  (check_subscribe-IsSubscribable c is_digit mb topic spec params e))
          | inr (error, e) ↦ rw (e, register_subscribe) v
        ]
