-- ===== src/Mqtt/Tests/Runs.antt =====
-- Runs of the client and of the connection, on the registrations of the parent.
use go_http_mqtt_boilerplate.Prelude.{
  text_eq, insert, ◌≡◌, ◌↔◌, refl, true, false, some, List, [], ◌∷◌, lookup, Text, codes, split,
  has_prefix, has_suffix, contains, Result, ok, arith,
}
use go_http_mqtt_boilerplate.Generate.Values.{Value}
use go_http_mqtt_boilerplate.Generate.Sanitize.{sanitize_path}
use go_http_mqtt_boilerplate.Generate.Params.{
  is_ascii_digit, is_valid_parameter_name, extract_param_name,
}
use go_http_mqtt_boilerplate.Generate.Interface.{noop_collector}
use go_http_mqtt_boilerplate.Mqtt.Topic.{
  validate_topic_pattern, validate_segment, convert_topic_to_mqtt,
}
use go_http_mqtt_boilerplate.Mqtt.Specs.{SubscriptionSpec, validate_subscription_spec}
use go_http_mqtt_boilerplate.Mqtt.Parameters.{
  generate_parameters, topic_names, document, document_all, check_documented,
}
use go_http_mqtt_boilerplate.Mqtt.Builder.{
  Builder, register_subscribe, check_subscribe, store_subscription,
}
use go_http_mqtt_boilerplate.Mqtt.Builder.Invariant.{IsConsistent}
use go_http_mqtt_boilerplate.Mqtt.Builder.Preserve.{register_subscribe-IsConsistent}
use go_http_mqtt_boilerplate.Mqtt.Client
use go_http_mqtt_boilerplate.Mqtt.Client.{Packet, Answer, accepted, SubscribeOptions}
use go_http_mqtt_boilerplate.Mqtt.Client.Laws.{
  IsPacketOf, IsRequested, publish-packet_iff, subscribe_all-IsRequested,
}
use go_http_mqtt_boilerplate.Mqtt.Connection.{
  close_registrations, store_manager, on_connect, System, Reach, here, next, opens, stores, goes_up,
  subscribes, run_subscribe,
}
use go_http_mqtt_boilerplate.Mqtt.Connection.Requests.{IsOrdered, IsSettled, Reach-IsSettled}
use go_http_mqtt_boilerplate.Mqtt.Connection.Race.{IsSilent, Reach-IsSilent}
use go_http_mqtt_boilerplate.Mqtt.Tests.{
  status, pattern_, publication, subscription, fresh, fresh-IsConsistent,
}

abbrev managed : Builder noop_collector
managed = record fresh { client_conn_mgr = some 1 }

managed-IsConsistent : IsConsistent noop_collector is_ascii_digit managed
managed-IsConsistent =
    let v = fresh-IsConsistent in
    record {
      ids = v.ids;
      disjoint = v.disjoint;
      published = v.published;
      subscribed = v.subscribed;
    }

abbrev subscribed : Builder noop_collector
subscribed = (register_subscribe noop_collector is_ascii_digit pattern_ subscription managed).0

abbrev stored_subscription : SubscriptionSpec
stored_subscription = record subscription { topic_mqtt = convert_topic_to_mqtt pattern_ }

subscribed-lookup :
    (lookup subscription.operation_id subscribed.subscriptions ≡ some stored_subscription)
    × (subscribed.client_conn_mgr ≡ some 1)
unfolding register_subscribe check_subscribe validate_subscription_spec store_subscription
    sanitize_path validate_topic_pattern has_prefix has_suffix split validate_segment contains
    is_valid_parameter_name generate_parameters topic_names extract_param_name document_all document
    text_eq check_documented insert lookup
subscribed-lookup = (refl, refl)

abbrev answers : List SubscribeOptions → Answer Text
answers _ = accepted

subscribe_all-IsRequested_example :
    IsRequested noop_collector is_ascii_digit answers subscribed stored_subscription
subscribe_all-IsRequested_example =
    subscribe_all-IsRequested noop_collector is_ascii_digit answers subscribed 1
      subscription.operation_id stored_subscription
      (register_subscribe-IsConsistent noop_collector is_ascii_digit managed managed-IsConsistent
        pattern_ subscription)
      subscribed-lookup.1 subscribed-lookup.0

abbrev encodes : Value → Result Text Text
encodes v = ok (codes "{}")

abbrev sends : Packet → Answer Text
sends p = accepted

abbrev packet : Packet
packet = record {
  topic = codes "devices/lamp/status";
  qos = 1;
  retain = true;
  payload = codes "{}";
}

abbrev publisher : Builder noop_collector
publisher = record managed { publications = (codes "publishStatus", publication) ∷ [] }

publish-packet_iff_example :
    ((Client.publish noop_collector encodes sends publisher
        (codes "publishStatus")
        (codes "devices/lamp/status")
        status).0
      ≡ packet ∷ [])
    ↔ IsPacketOf noop_collector is_ascii_digit encodes sends publisher
        (codes "publishStatus")
        (codes "devices/lamp/status")
        status
        packet
publish-packet_iff_example =
    publish-packet_iff noop_collector is_ascii_digit encodes sends publisher (codes "publishStatus")
      (codes "devices/lamp/status") status packet

abbrev started : System noop_collector is_ascii_digit
started = record { builder = fresh; loaded = []; opened = false; pending = 0; requests = [] }

-- Connect has begun, with one subscription.
abbrev begun : System noop_collector is_ascii_digit
begun = record started {
  builder = record fresh {
    registrations_completed = true;
    subscriptions = (codes "subscribeStatus", subscription) ∷ [];
  };
}

begun-IsOrdered : IsOrdered noop_collector is_ascii_digit begun
begun-IsOrdered = record {
  opened = λ h. refl;
  connected = λ h. ground arith;
  managed = λ h. ground arith;
  unsent = λ h. refl;
}

abbrev up : System noop_collector is_ascii_digit
up = record begun {
  builder = record begun.builder { client_conn_mgr = some 1; conn_mgr = some 1; connected = true };
  opened = true;
  pending = 1;
}

begun_up : Reach noop_collector is_ascii_digit answers begun up
unfolding close_registrations store_manager on_connect
begun_up = next (next (next here (opens refl)) (stores 1 refl)) (goes_up refl)

abbrev requested : System noop_collector is_ascii_digit
requested = run_subscribe noop_collector is_ascii_digit answers 0 up

begun_requested : Reach noop_collector is_ascii_digit answers begun requested
begun_requested = next begun_up (subscribes 0 refl)

Reach-IsSettled_example :
    IsSettled noop_collector is_ascii_digit begun.builder.subscriptions requested
    × IsOrdered noop_collector is_ascii_digit requested
Reach-IsSettled_example =
    Reach-IsSettled noop_collector is_ascii_digit answers begun-IsOrdered refl refl refl
      begun_requested

Reach-IsSilent_example :
    (t : System noop_collector is_ascii_digit) × Reach noop_collector is_ascii_digit answers started
      t
    × IsSilent noop_collector is_ascii_digit t
    × (t.builder.subscriptions ≡ started.builder.subscriptions)
Reach-IsSilent_example =
    Reach-IsSilent noop_collector is_ascii_digit answers 1 started refl refl refl
