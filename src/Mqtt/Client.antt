-- ===== src/Mqtt/Client.antt =====
-- `MQTTClient` of backend/pkg/mqtt/client.go. The client reads the builder that it belongs to. What
-- the connection manager answers is a parameter, as is the JSON encoder; a method returns the
-- packets that it has handed to the connection manager beside its result.
pub mod Laws
use go_http_mqtt_boilerplate.Prelude.{
  ℕ, Bool, Option, none, some, List, [], ◌∷◌, Text, Map, lookup, Result, ok, err,
}
use go_http_mqtt_boilerplate.Generate.Values.{Value}
use go_http_mqtt_boilerplate.Generate.Interface.{MetadataCollector}
use go_http_mqtt_boilerplate.Mqtt.Specs.{PublicationSpec, SubscriptionSpec}
use go_http_mqtt_boilerplate.Mqtt.Builder.{Builder}

pub record Packet : Type 0 where
  pub topic : Text
  pub qos : ℕ
  pub retain : Bool
  pub payload : Text

-- `context.DeadlineExceeded` is told apart from the other errors of the connection manager.
pub data Answer (F : Type 0) : Type 0 where
  accepted : Answer F
  deadline_exceeded : Answer F
  failed : F → Answer F

pub data ClientError (J F : Type 0) : Type 0 where
  not_connected : ClientError J F
  unknown_operation : Text → ClientError J F
  bad_payload : J → ClientError J F
  timed_out : ClientError J F
  refused : F → ClientError J F

-- paho.SubscribeOptions
pub record SubscribeOptions : Type 0 where
  pub topic : Text
  pub qos : ℕ

abbrev answered : {J F : Type 0} → Answer F → Result (ClientError J F) (Unit {0})
answered accepted = ok tt
answered deadline_exceeded = err timed_out
answered (failed e) = err (refused e)

-- the options for all subscriptions, in the order of the map
unfoldable pub subscribe_options : Map SubscriptionSpec → List SubscribeOptions
subscribe_options [] = []
subscribe_options ((k, s) ∷ m) = record { topic = s.topic_mqtt; qos = s.qos } ∷ subscribe_options m

module _ (c : MetadataCollector) where
  unfoldable pub is_connected : Builder c → Bool
  is_connected mb = mb.connected

  module _ {J F : Type 0} (encode : Value → Result J Text) (send : Packet → Answer F) where
    abbrev packet : PublicationSpec → Text → Text → Packet
    packet pub_spec topic bytes = record {
      topic = topic;
      qos = pub_spec.qos;
      retain = pub_spec.retained;
      payload = bytes;
    }

    unfoldable pub send_encoded :
        PublicationSpec → Text → Result J Text → List Packet × Result (ClientError J F) (Unit {0})
    send_encoded pub_spec topic (err e) = ([], err (bad_payload e))
    send_encoded pub_spec topic (ok bytes) =
        let p = packet pub_spec topic bytes in (p ∷ [], answered (send p))

    unfoldable pub publish_found :
        Option PublicationSpec
        → Text
        → Text
        → Value
        → List Packet × Result (ClientError J F) (Unit {0})
    publish_found none id topic payload = ([], err (unknown_operation id))
    publish_found (some pub_spec) id topic payload = send_encoded pub_spec topic (encode payload)

    unfoldable pub publish :
        Builder c → Text → Text → Value → List Packet × Result (ClientError J F) (Unit {0})
    publish mb id topic payload = elim mb.client_conn_mgr [
      | none ↦ ([], err not_connected)
      | some m ↦ publish_found (lookup id mb.publications) id topic payload
    ]

  module _ {J F : Type 0} (request : List SubscribeOptions → Answer F) where
    -- the call of the connection manager, unless there is nothing to subscribe to
    unfoldable pub subscribe_some :
        List SubscribeOptions → List (List SubscribeOptions) × Result (ClientError J F) (Unit {0})
    subscribe_some [] = ([], ok tt)
    subscribe_some (o ∷ os) = ((o ∷ os) ∷ [], answered (request (o ∷ os)))

    unfoldable pub subscribe_all :
        Builder c → List (List SubscribeOptions) × Result (ClientError J F) (Unit {0})
    subscribe_all mb = elim mb.client_conn_mgr [
      | none ↦ ([], err not_connected)
      | some m ↦ subscribe_some (subscribe_options mb.subscriptions)
    ]
