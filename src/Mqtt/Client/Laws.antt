-- ===== src/Mqtt/Client/Laws.antt =====
-- What the client hands to the connection manager.
use go_http_mqtt_boilerplate.Prelude.{
  ℕ, ◌≤◌, ◌≡◌, ◌↔◌, inl, inr, Bool, true, some, List, [], ◌∷◌, Text, Map, lookup, is_some, Result,
  Option-cases, ok, arith,
}
use go_http_mqtt_boilerplate.Generate.Values.{Value}
use go_http_mqtt_boilerplate.Generate.Interface.{MetadataCollector}
use go_http_mqtt_boilerplate.Mqtt.Specs.{PublicationSpec, SubscriptionSpec}
use go_http_mqtt_boilerplate.Mqtt.Builder.{Builder}
use go_http_mqtt_boilerplate.Mqtt.Builder.Invariant.{Has, IsConsistent}
use go_http_mqtt_boilerplate.Mqtt.Client.{
  Packet, Answer, SubscribeOptions, subscribe_options, publish, publish_found, send_encoded,
  subscribe_some, subscribe_all,
}

pub subscribe_options-Has :
    (k : Text) (s : SubscriptionSpec) (m : Map SubscriptionSpec)
    → lookup k m ≡ some s
    → Has (record { topic = s.topic_mqtt; qos = s.qos }) (subscribe_options m)
unfolding lookup subscribe_options
subscribe_options-Has k s [] h = cc
subscribe_options-Has k s ((j, t) ∷ m) h = ground (arith, subscribe_options-Has k s m)

module _ (c : MetadataCollector) (is_digit : ℕ → Bool) where
  module _ {J F : Type 0} (encode : Value → Result J Text) (send : Packet → Answer F) where
    -- What stands behind a packet that `Publish` hands over.
    pub record IsPacketOf (mb : Builder c) (id topic : Text) (payload : Value) (p : Packet)
        : Type 0 where
      pub manager : is_some mb.client_conn_mgr ≡ true
      pub spec : PublicationSpec
      pub found : lookup id mb.publications ≡ some spec
      pub encoded : encode payload ≡ ok p.payload
      pub topic_given : p.topic ≡ topic
      pub qos_registered : p.qos ≡ spec.qos
      pub retain_registered : p.retain ≡ spec.retained

    -- `Publish` hands over a packet exactly when a connection manager is set, the operation id names
    -- a publication and the payload can be encoded. The packet has the given topic, the encoded
    -- payload, and the QoS and the retain flag of the publication.
    pub publish-packet_iff :
        (mb : Builder c) (id topic : Text) (payload : Value) (p : Packet)
        → ((publish c encode send mb id topic payload).0 ≡ p ∷ [])
          ↔ IsPacketOf mb id topic payload p
    unfolding publish publish_found send_encoded
    publish-packet_iff mb id topic payload p = (sound, complete)
      where
        sound :
            (publish c encode send mb id topic payload).0 ≡ p ∷ []
            → IsPacketOf mb id topic payload p
        sound h = elim (Option-cases (lookup id mb.publications)) [
          | inl missing ↦ absurd (ground arith)
          | inr (spec, e) ↦ record {
            manager = ground arith;
            spec = spec;
            found = e;
            encoded = ground arith;
            topic_given = ground arith;
            qos_registered = ground arith;
            retain_registered = ground arith;
          }
        ]

        complete :
            IsPacketOf mb id topic payload p
            → (publish c encode send mb id topic payload).0 ≡ p ∷ []
        complete h = ground (
          arith, h.manager, h.found, h.encoded, h.topic_given, h.qos_registered,
          h.retain_registered,
        )

  module _ {F : Type 0} (request : List SubscribeOptions → Answer F) where
    -- What `SubscribeAll` asks for one registered subscription.
    pub record IsRequested (mb : Builder c) (s : SubscriptionSpec) : Type 0 where
      pub options : List SubscribeOptions
      pub one_call : (subscribe_all c {J = ⊥} request mb).0 ≡ options ∷ []
      pub asked : Has (record { topic = s.topic_mqtt; qos = s.qos }) options
      pub qos : s.qos ≤ 2
      pub handled : Has (s.topic_mqtt, s.handler) mb.router

    subscribe_all-call :
        (mb : Builder c) (m : ℕ) (o : SubscribeOptions)
        → mb.client_conn_mgr ≡ some m
        → Has o (subscribe_options mb.subscriptions)
        → (subscribe_all c {J = ⊥} request mb).0 ≡ subscribe_options mb.subscriptions ∷ []
    unfolding subscribe_all subscribe_some
    subscribe_all-call mb m o h k = ground arith

    -- In a consistent builder with a connection manager, `SubscribeAll` makes one call, which asks
    -- for the filter of every registered subscription, at its legal QoS; and the router has the
    -- handler of the subscription for that filter.
    pub subscribe_all-IsRequested :
        (mb : Builder c) (m : ℕ) (id : Text) (s : SubscriptionSpec)
        → IsConsistent c is_digit mb
        → mb.client_conn_mgr ≡ some m
        → lookup id mb.subscriptions ≡ some s
        → IsRequested mb s
    subscribe_all-IsRequested mb m id s v h e =
        let asked = subscribe_options-Has id s mb.subscriptions e in
        let stored = v.subscribed id s e in
        record {
          options = subscribe_options mb.subscriptions;
          one_call = subscribe_all-call mb m _ h asked;
          asked = asked;
          qos = stored.qos;
          handled = stored.routed;
        }
