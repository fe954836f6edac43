-- ===== src/Mqtt/Parameters/Laws.antt =====
-- When `generateParameters` accepts the documented parameters of a topic.
use go_http_mqtt_boilerplate.Prelude.{
  ℕ, ◌≡◌, ◌≢◌, refl, ◌↔◌, inl, inr, Bool, true, false, List, [], ◌∷◌, append-nil, map, Text, split,
  member, text_eq_inst, All, ok, Result-cases, if◌then◌else◌, arith,
}
use go_http_mqtt_boilerplate.Generate.Params.{
  AgreesOnAscii, extract_param_name, is_ascii_letter, is_valid_parameter_name,
}
use go_http_mqtt_boilerplate.Generate.Params.Laws.{
  literal, placeholder, extract_param_name-render, is_valid_parameter_name-Lacks,
  is_valid_parameter_name-ne-nil, IsName,
}
use go_http_mqtt_boilerplate.Generate.Values.{is_nil}
use go_http_mqtt_boilerplate.Generate.DocTypes.{MqttTopicParameter}
use go_http_mqtt_boilerplate.Mqtt.Topic.{is_braced, inner, validate_topic_pattern}
use go_http_mqtt_boilerplate.Mqtt.Topic.Levels.{
  is_braced-braced, inner-braced, is_braced_literal, IsLevel, validate_topic_pattern_iff,
}
use go_http_mqtt_boilerplate.Mqtt.Specs.{TopicParameter}
use go_http_mqtt_boilerplate.Mqtt.Parameters.{
  topic_names, parameter_info, document, document_all, documented_names, check_documented,
  generate_parameters,
}

-- The names between the braces of the placeholder levels.
abbrev pub placeholder_names : List Text → List Text
placeholder_names [] = []
placeholder_names (s ∷ ss) =
    let rest = placeholder_names ss in if is_braced s then inner s ∷ rest else rest

abbrev pub IsComplete : TopicParameter → Type 0
IsComplete p = (p.name ≢ []) × (p.description ≢ []) × (is_nil p.type ≡ false)

abbrev pub IsIn : List Text → Text → Type 0
IsIn names name = member name names ≡ true

-- Every parameter is complete and stands in the topic, and every name of the topic is documented.
pub record IsDocumented (names : List Text) (ps : List TopicParameter) : Type 0 where
  pub complete : All IsComplete ps
  pub known : All (IsIn names) (documented_names ps)
  pub covered : All (IsIn (documented_names ps)) names

document_iff :
    (names : List Text) (p : TopicParameter) (info : MqttTopicParameter)
    → (document names p ≡ ok info) ↔ (IsComplete p × IsIn names p.name × (info ≡ parameter_info p))
unfolding document
document_iff names p info = ground arith

module _ (names : List Text) where
  document_all_sound :
      (ps : List TopicParameter) (infos : List MqttTopicParameter)
      → document_all names ps ≡ ok infos
      → All IsComplete ps × All (IsIn names) (documented_names ps) × (infos ≡ map parameter_info ps)
  unfolding document_all
  document_all_sound [] infos h = ground arith
  document_all_sound (p ∷ ps) infos h = elim (Result-cases (document names p)) [
    | inl (info, e) ↦ elim (Result-cases (document_all names ps)) [
      | inl (rest, f) ↦ ground (arith, document_iff names p info, document_all_sound ps rest f)
      | inr (error, f) ↦ ground arith
    ]
    | inr (error, e) ↦ ground arith
  ]

  document_all_complete :
      (ps : List TopicParameter)
      → All IsComplete ps
      → All (IsIn names) (documented_names ps)
      → document_all names ps ≡ ok (map parameter_info ps)
  unfolding document_all
  document_all_complete [] h k = refl
  document_all_complete (p ∷ ps) h k =
      ground (arith, document_iff names p (parameter_info p), document_all_complete ps h.1 k.1)

check_documented_iff :
    (documented names : List Text)
    → (check_documented documented names ≡ ok tt) ↔ All (IsIn documented) names
unfolding check_documented
check_documented_iff documented [] = ground arith
check_documented_iff documented (n ∷ ns) = ground (arith, check_documented_iff documented ns)

-- For a topic whose sections have balanced braces, the parameters are accepted exactly when each is
-- complete and stands in the topic and each name of the topic is documented; then the result has
-- them in their order.
generate_parameters_iff :
    (topic : Text) (names : List Text) (ps : List TopicParameter) (infos : List MqttTopicParameter)
    → topic_names (split b'/' topic) ≡ ok names
    → (generate_parameters topic ps ≡ ok infos)
      ↔ (IsDocumented names ps × (infos ≡ map parameter_info ps))
unfolding generate_parameters
generate_parameters_iff topic names ps infos e = (sound, complete)
  where
    sound :
        generate_parameters topic ps ≡ ok infos
        → IsDocumented names ps × (infos ≡ map parameter_info ps)
    sound h = elim (Result-cases (document_all names ps)) [
      | inl (rest, f) ↦ ground (
        arith,
        document_all_sound names ps rest f,
        check_documented_iff (documented_names ps) names,
      )
      | inr (error, f) ↦ ground arith
    ]

    complete :
        IsDocumented names ps × (infos ≡ map parameter_info ps)
        → generate_parameters topic ps ≡ ok infos
    complete h = ground (
      arith,
      document_all_complete names ps h.0.complete h.0.known,
      check_documented_iff (documented_names ps) names,
    )

module _ (is_digit : ℕ → Bool) (agrees : AgreesOnAscii is_digit) where
  valid-IsName : (name : Text) → is_valid_parameter_name is_digit name ≡ true → IsName name
  unfolding is_ascii_letter
  valid-IsName name valid =
      let lacks = λ (c : ℕ). is_valid_parameter_name-Lacks is_digit c name in
      (
        is_valid_parameter_name-ne-nil is_digit name valid,
        lacks b'{' refl (agrees _ (omega arith)) (omega arith) valid,
        lacks b'}' refl (agrees _ (omega arith)) (omega arith) valid,
        lacks b':' refl (agrees _ (omega arith)) (omega arith) valid,
      )

  extract_param_name_level :
      (s : Text) → IsLevel is_digit s → extract_param_name s ≡ ok (placeholder_names (s ∷ []))
  extract_param_name_level s (inl (name, e, valid)) =
      let extracted =
        extract_param_name-render (placeholder name ∷ []) (valid-IsName name valid, tt) in
      rw (e, is_braced-braced name, inner-braced name) extracted
  extract_param_name_level s (inr h) =
      let extracted = extract_param_name-render (literal s ∷ []) ((h.3, h.4), tt) in
      rw (is_braced_literal s h.3) (rw append-nil at extracted)

  topic_names_levels :
      (ss : List Text) → All (IsLevel is_digit) ss → topic_names ss ≡ ok (placeholder_names ss)
  unfolding topic_names
  topic_names_levels [] h = refl
  topic_names_levels (s ∷ ss) (l, h) =
      ground (arith, extract_param_name_level s l, topic_names_levels ss h)

  -- For an accepted pattern, `generateParameters` succeeds exactly when each documented parameter
  -- has a name, a description and a type and is a placeholder of the pattern, and each placeholder
  -- of the pattern is documented. The result then lists the parameters in their order.
  pub generate_parameters-pattern_iff :
      (pattern : Text) (ps : List TopicParameter) (infos : List MqttTopicParameter)
      → validate_topic_pattern is_digit pattern ≡ ok tt
      → (generate_parameters pattern ps ≡ ok infos) ↔ (
          IsDocumented (placeholder_names (split b'/' pattern)) ps
          × (infos ≡ map parameter_info ps))
  generate_parameters-pattern_iff pattern ps infos h =
      let levels = (validate_topic_pattern_iff is_digit agrees pattern).0 h in
      generate_parameters_iff pattern _ ps infos (topic_names_levels (split b'/' pattern) levels)
