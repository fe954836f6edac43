-- ===== src/Generate/DocTypes.antt =====
-- The documentation records of backend/pkg/generate/doctypes.go. A pointer that may be nil is an
-- `Option`; a kind is a constructor for each constant of backend/pkg/generate/generator.go, and
-- `other` for any other text.
use go_http_mqtt_boilerplate.Prelude.{ℕ, Bool, Option, List, Text, Map}
use go_http_mqtt_boilerplate.Generate.Values.{Value}

pub data TypeKind : Type 0 where
  object string_enum number_enum alias : TypeKind
  other : Text → TypeKind

pub data FieldKind : Type 0 where
  primitive array reference enum object : FieldKind
  other : Text → FieldKind

mutual
  -- the fields of Go's `FieldType` in their order
  pub data FieldType : Type 0 where
    field_type :
        (kind : FieldKind) (type format : Text) (required nullable : Bool)
        (items_type additional_properties map_key_type : FieldRef)
        → FieldType

  -- `*FieldType`
  pub data FieldRef : Type 0 where
    null : FieldRef
    ref : FieldType → FieldRef

pub record FieldInfo : Type 0 where
  pub name : Text
  pub display_type : Text
  pub type_info : FieldType
  pub description : Text
  pub deprecated : Text

-- the constant of a string enum, or of a number enum by its decimal digits
pub data EnumConst : Type 0 where
  string : Text → EnumConst
  int64 : (digits : Text) → EnumConst

pub record EnumValue : Type 0 where
  pub value : EnumConst
  pub description : Text
  pub deprecated : Text

pub record UsageInfo : Type 0 where
  pub operation_id : Text
  pub role : Text

pub record Representations : Type 0 where
  pub json : Text
  pub json_schema : Text
  pub yaml_schema : Text
  pub go : Text
  pub ts : Text

pub record TypeInfo : Type 0 where
  pub name : Text
  pub kind : TypeKind
  pub description : Text
  pub deprecated : Text
  pub fields : List FieldInfo
  pub enum_values : List EnumValue
  pub references : List Text
  pub referenced_by : List Text
  pub used_by : List UsageInfo
  pub representations : Representations
  pub used_by_http : Bool
  pub used_by_mqtt : Bool
  pub underlying_type : Option FieldType

pub record RequestInfo : Type 0 where
  pub type_name : Text
  pub type_value : Value
  pub description : Text
  pub examples_stringified : Map Text
  pub examples : Map Value

pub record ParameterInfo : Type 0 where
  pub name : Text
  pub place : Text
  pub type_name : Text
  pub type_value : Value
  pub description : Text
  pub required : Bool

pub record ResponseInfo : Type 0 where
  pub status_code : ℕ
  pub type_name : Text
  pub type_value : Value
  pub description : Text
  pub examples_stringified : Map Text
  pub examples : Map Value

-- `responses` is keyed by the status code.
pub record RouteInfo : Type 0 where
  pub operation_id : Text
  pub method : Text
  pub path : Text
  pub summary : Text
  pub description : Text
  pub group : Text
  pub deprecated : Text
  pub request : Option RequestInfo
  pub parameters : List ParameterInfo
  pub responses : List (ℕ × ResponseInfo)

pub record MqttTopicParameter : Type 0 where
  pub name : Text
  pub description : Text
  pub type_name : Text
  pub type_value : Value

pub record MqttPublicationInfo : Type 0 where
  pub operation_id : Text
  pub topic : Text
  pub topic_mqtt : Text
  pub topic_parameters : List MqttTopicParameter
  pub summary : Text
  pub description : Text
  pub group : Text
  pub deprecated : Text
  pub qos : ℕ
  pub retained : Bool
  pub type_name : Text
  pub type_value : Value
  pub examples_stringified : Map Text
  pub examples : Map Value

pub record MqttSubscriptionInfo : Type 0 where
  pub operation_id : Text
  pub topic : Text
  pub topic_mqtt : Text
  pub topic_parameters : List MqttTopicParameter
  pub summary : Text
  pub description : Text
  pub group : Text
  pub deprecated : Text
  pub qos : ℕ
  pub type_name : Text
  pub type_value : Value
  pub examples_stringified : Map Text
  pub examples : Map Value
