-- ===== src/Mqtt/Specs.antt =====
-- The specifications of backend/pkg/mqtt/specs.go, and their validation in
-- backend/pkg/mqtt/helpers.go. A handler is `none` for nil, else a number that stands for the
-- function. A `QoS` is a byte.
use go_http_mqtt_boilerplate.Prelude.{
  ℕ, ◌≤◌, ◌≡◌, Bool, not, ◌&&◌, Option, List, Text, Map, is_none, ◌==◌, nat_eq, Result, ok, ◌>>◌,
  fail_if, arith,
}
use go_http_mqtt_boilerplate.Generate.Values.{Value, is_nil}
use go_http_mqtt_boilerplate.Mqtt.Topic.{is_empty}

abbrev pub qos_at_most_once : ℕ
qos_at_most_once = 0

abbrev pub qos_at_least_once : ℕ
qos_at_least_once = 1

abbrev pub qos_exactly_once : ℕ
qos_exactly_once = 2

pub record TopicParameter : Type 0 where
  pub name : Text
  pub description : Text
  pub type : Value

pub record PublicationSpec : Type 0 where
  pub operation_id : Text
  pub topic_mqtt : Text
  pub summary : Text
  pub description : Text
  pub group : Text
  pub deprecated : Text
  pub topic_parameters : List TopicParameter
  pub message_type : Value
  pub qos : ℕ
  pub retained : Bool
  pub examples : Map Value

pub record SubscriptionSpec : Type 0 where
  pub operation_id : Text
  pub topic_mqtt : Text
  pub summary : Text
  pub description : Text
  pub group : Text
  pub deprecated : Text
  pub topic_parameters : List TopicParameter
  pub message_type : Value
  pub handler : Option ℕ
  pub qos : ℕ
  pub examples : Map Value

pub data SpecError : Type 0 where
  operation_id_required summary_required description_required group_required : SpecError
  message_type_required handler_required bad_qos : SpecError

unfoldable pub validate_qos : ℕ → Result SpecError (Unit {0})
validate_qos qos =
    fail_if
      (not (qos == qos_at_most_once)
        && not (qos == qos_at_least_once)
        && not (qos == qos_exactly_once))
      bad_qos

unfoldable pub validate_publication_spec : PublicationSpec → Result SpecError (Unit {0})
unfolding validate_qos is_nil
validate_publication_spec spec = do
  fail_if (is_empty spec.operation_id) operation_id_required
  fail_if (is_empty spec.summary) summary_required
  fail_if (is_empty spec.description) description_required
  fail_if (is_empty spec.group) group_required
  fail_if (is_nil spec.message_type) message_type_required
  validate_qos spec.qos

unfoldable pub validate_subscription_spec : SubscriptionSpec → Result SpecError (Unit {0})
unfolding validate_qos is_nil
validate_subscription_spec spec = do
  fail_if (is_empty spec.operation_id) operation_id_required
  fail_if (is_empty spec.summary) summary_required
  fail_if (is_empty spec.description) description_required
  fail_if (is_empty spec.group) group_required
  fail_if (is_nil spec.message_type) message_type_required
  fail_if (is_none spec.handler) handler_required
  validate_qos spec.qos

pub validate_publication_spec-qos :
    (spec : PublicationSpec) → validate_publication_spec spec ≡ ok tt → spec.qos ≤ 2
unfolding validate_publication_spec
validate_publication_spec-qos spec h = ground arith

pub validate_subscription_spec-qos :
    (spec : SubscriptionSpec)
    → validate_subscription_spec spec ≡ ok tt
    → (spec.qos ≤ 2) × (is_none spec.handler ≡ Bool.false)
unfolding validate_subscription_spec
validate_subscription_spec-qos spec h = ground arith
