-- ===== src/Mqtt/Parameters.antt =====
-- `generateParameters` of backend/pkg/mqtt/helpers.go. The set `params` of names is a list, in the
-- order in which its `range` visits it.
pub mod Laws
use go_http_mqtt_boilerplate.Prelude.{
  Bool, not, List, [], ◌∷◌, ◌++◌, Text, split, member, text_eq_inst, Result, ok, err, ◌>>=◌, ◌>>◌,
  fail_if, wrap,
}
use go_http_mqtt_boilerplate.Generate.Params.{ParamError, extract_param_name}
use go_http_mqtt_boilerplate.Generate.Values.{is_nil}
use go_http_mqtt_boilerplate.Generate.DocTypes.{MqttTopicParameter}
use go_http_mqtt_boilerplate.Mqtt.Topic.{is_empty}
use go_http_mqtt_boilerplate.Mqtt.Specs.{TopicParameter}

pub data ParameterError : Type 0 where
  invalid_topic : ParamError → ParameterError
  name_required description_required type_required : ParameterError
  not_in_topic not_documented : Text → ParameterError

-- the first loop: the names in the sections of the topic
unfoldable pub topic_names : List Text → Result ParameterError (List Text)
topic_names [] = ok []
topic_names (section ∷ sections) = do
  names ← wrap invalid_topic (extract_param_name section)
  rest ← topic_names sections
  ok (names ++ rest)

abbrev pub parameter_info : TopicParameter → MqttTopicParameter
parameter_info p = record {
  name = p.name;
  description = p.description;
  type_name = [];
  type_value = p.type;
}

-- one round of the second loop
unfoldable pub document : List Text → TopicParameter → Result ParameterError MqttTopicParameter
unfolding is_nil
document params p = do
  fail_if (is_empty p.name) name_required
  fail_if (is_empty p.description) description_required
  fail_if (is_nil p.type) type_required
  fail_if (not (member p.name params)) (not_in_topic p.name)
  ok (parameter_info p)

unfoldable pub document_all :
    List Text → List TopicParameter → Result ParameterError (List MqttTopicParameter)
document_all params [] = ok []
document_all params (p ∷ ps) = do
  info ← document params p
  rest ← document_all params ps
  ok (info ∷ rest)

abbrev pub documented_names : List TopicParameter → List Text
documented_names [] = []
documented_names (p ∷ ps) = p.name ∷ documented_names ps

-- the last loop
unfoldable pub check_documented : List Text → List Text → Result ParameterError (Unit {0})
check_documented documented [] = ok tt
check_documented documented (name ∷ names) = do
  fail_if (not (member name documented)) (not_documented name)
  check_documented documented names

unfoldable pub generate_parameters :
    Text → List TopicParameter → Result ParameterError (List MqttTopicParameter)
generate_parameters topic topic_params = do
  params ← topic_names (split b'/' topic)
  parameters ← document_all params topic_params
  check_documented (documented_names topic_params) params
  ok parameters
