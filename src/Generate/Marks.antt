-- ===== src/Generate/Marks.antt =====
-- The extracted types of `OpenAPICollector` and the operations on them of
-- backend/pkg/generate/collector_register.go: the marks of the types that a protocol uses, and the
-- JSON representations. The recursion along the references takes fuel: one more than the number of
-- types, since each call that goes on marks one type more. `TypeInfo` values are shared by pointers,
-- so a change is an update of the map.
pub mod Growth
pub mod Closure
use go_http_mqtt_boilerplate.Prelude.{
  ℕ, zero, suc, ◌+◌, ◌≡◌, Bool, true, false, ◌||◌, text_eq_inst, Option, none, some, List, [], ◌∷◌,
  length, ltb, Text, Map, lookup, insert, if◌then◌else◌, is_some, codes, member, Result, ok, err,
  arith,
}
use go_http_mqtt_boilerplate.Mqtt.Topic.{is_empty}
use go_http_mqtt_boilerplate.Generate.Values.{
  Value, ValueError, is_nil_or_nil_pointer, extract_type_name, to_json_indent,
}
use go_http_mqtt_boilerplate.Generate.DocTypes.{TypeInfo, Representations}

abbrev pub Types : Type 0
Types = Map TypeInfo

pub data ProtocolType : Type 0 where
  http mqtt : ProtocolType

unfoldable pub is_used_by : ProtocolType → TypeInfo → Bool
is_used_by http info = info.used_by_http
is_used_by mqtt info = info.used_by_mqtt

unfoldable pub use_by : ProtocolType → TypeInfo → TypeInfo
use_by http info = record info { used_by_http = true }
use_by mqtt info = record info { used_by_mqtt = true }

-- `markTypeAsUsedBy` up to its recursion: the type that is to be marked, if there is one
unfoldable pub unmarked : ProtocolType → Text → Types → Option TypeInfo
unfolding is_used_by
unmarked protocol [] types = none
unmarked protocol (c ∷ name) types = elim (lookup (c ∷ name) types) [
  | none ↦ none
  | some info ↦ if is_used_by protocol info then none else some info
]

-- the loop over the references, with the recursive call as an argument
unfoldable pub mark_each : (Text → Types → Types) → List Text → Types → Types
mark_each mark [] types = types
mark_each mark (reference ∷ references) types = mark_each mark references (mark reference types)

unfoldable pub mark_found :
    (Text → Types → Types) → ProtocolType → Text → Option TypeInfo → Types → Types
unfolding use_by mark_each
mark_found mark protocol name none types = types
mark_found mark protocol name (some info) types =
    mark_each mark info.references (insert name (use_by protocol info) types)

unfoldable pub mark_within : ℕ → ProtocolType → Text → Types → Types
unfolding mark_found unmarked
mark_within zero protocol name types = types
mark_within (suc fuel) protocol name types =
    mark_found (mark_within fuel protocol) protocol name (unmarked protocol name types) types

unfoldable pub mark_type_as_used_by : ProtocolType → Text → Types → Types
unfolding mark_within
mark_type_as_used_by protocol name types = mark_within (suc (length types)) protocol name types

pub data CollectorError : Type 0 where
  empty_operation_id request_nil message_nil parameter_nil : CollectorError
  bad_operation_id duplicate_publication duplicate_subscription duplicate_http :
      Text → CollectorError
  unknown_type example_nil : Text → CollectorError
  response_nil response_not_zero : ℕ → CollectorError
  bad_value : ValueError → CollectorError

-- the types after an operation, beside its result: they may have changed before an error
abbrev pub Outcome : Type 0 → Type 0
Outcome A = Types × Result CollectorError A

abbrev pub next : {A B : Type 0} → Outcome A → (A → Types → Outcome B) → Outcome B
next (types, ok a) rest = rest a types
next (types, err e) rest = (types, err e)

abbrev pub name_of : Value → Types → Outcome Text
name_of value types = elim (extract_type_name value) [
  | ok name ↦ (types, ok name)
  | err e ↦ (types, err (bad_value e))
]

-- the keys of `getPrimitiveTypeMappings`
abbrev pub primitive_names : List Text
primitive_names =
    codes "string"
    ∷ codes "byte"
    ∷ codes "rune"
    ∷ codes "bool"
    ∷ codes "int"
    ∷ codes "int8"
    ∷ codes "int16"
    ∷ codes "uint"
    ∷ codes "uint8"
    ∷ codes "uint16"
    ∷ codes "int32"
    ∷ codes "uint32"
    ∷ codes "int64"
    ∷ codes "uint64"
    ∷ codes "float32"
    ∷ codes "float64"
    ∷ []

-- len of a string: the bytes of its UTF-8 form
abbrev pub byte_length : Text → ℕ
byte_length [] = 0
byte_length (c ∷ s) =
    let rest = byte_length s in
    if ltb c 128
    then 1 + rest
    else if ltb c 2048
    then 2 + rest
    else if ltb c 65536
    then 3 + rest
    else 4 + rest

-- the larger representation is kept
unfoldable pub with_representation : Text → TypeInfo → TypeInfo
with_representation json info =
    if is_empty info.representations.json
      || ltb (byte_length info.representations.json) (byte_length json)
    then record info { representations = record info.representations { json = json } }
    else info

unfoldable pub register_json_representation : Value → Types → Outcome (Unit {0})
register_json_representation value types = next (name_of value types) (λ name now.
    if member name primitive_names then (now, ok tt) else elim (lookup name now) [
      | none ↦ (now, err (unknown_type name))
      | some info ↦ (insert name (with_representation (to_json_indent value) info) now, ok tt)
    ])

unfoldable pub register_examples : Map Value → Types → Outcome (Unit {0})
register_examples [] types = (types, ok tt)
register_examples ((name, example) ∷ examples) types =
    let registered =
      next (register_json_representation example types) (λ _ now. register_examples examples now) in
    if is_nil_or_nil_pointer example then (types, err (example_nil name)) else registered

unfoldable pub stringify_examples : Map Value → Map Text
stringify_examples [] = []
stringify_examples ((name, example) ∷ examples) =
    (name, to_json_indent example) ∷ stringify_examples examples

-- the common part of `processHTTPType`, `processMQTTMessageType` and `processMQTTTopicParameter`:
-- the name, with the type marked and the representation registered
unfoldable pub process_value : ProtocolType → Value → Types → Outcome Text
process_value protocol value types = next (name_of value types) (λ name now.
    next (register_json_representation value (mark_type_as_used_by protocol name now))
      (λ _ after. (after, ok name)))

-- a nil map of examples is an empty one here
unfoldable pub process_http_type : Value → Map Value → Types → Outcome (Text × Map Text)
process_http_type value examples types = next (process_value http value types) (λ name now.
    next (register_examples examples now)
      (λ _ after. (after, ok (name, stringify_examples examples))))

unfoldable pub process_mqtt_message_type : Value → Map Value → Types → Outcome (Text × Map Text)
process_mqtt_message_type value examples types =
    if is_nil_or_nil_pointer value
    then (types, err message_nil)
    else next (process_value mqtt value types) (λ name now.
      next (register_examples examples now)
        (λ _ after. (after, ok (name, stringify_examples examples))))

unfoldable pub process_mqtt_topic_parameter : Value → Types → Outcome Text
process_mqtt_topic_parameter value types =
    if is_nil_or_nil_pointer value
    then (types, err parameter_nil)
    else process_value mqtt value types
