-- ===== src/Generate/OpenApi/Types.antt =====
-- The schemas of types of backend/pkg/generate/openapi.go: objects, enums and aliases.
use go_http_mqtt_boilerplate.Prelude.{
  Bool, false, Option, none, some, List, [], ◌∷◌, ◌++◌, Text, codes, text_eq_inst, ◌==◌,
  if◌then◌else◌, Result, ok, err, ◌>>=◌, wrap,
}
use go_http_mqtt_boilerplate.Mqtt.Topic.{is_empty}
use go_http_mqtt_boilerplate.Generate.DocTypes.{
  TypeKind, FieldType, field_type, FieldInfo, EnumConst, EnumValue, TypeInfo, string, int64,
}
use go_http_mqtt_boilerplate.Generate.OpenApi.Schema.{
  Schema, schema, plain, all_of, object, Properties, no_properties, property, SchemaRef, reference,
  value, SchemaError, invalid_schema_ref, alias_untyped, enum_kind, type_kind, in_field, in_alias,
  build_field_schema, build_schema, header, is_deprecated, set_deprecated, type_integer,
  type_string,
}

-- schema.Properties[name] = s
unfoldable pub set_property : Text → SchemaRef → Properties → Properties
set_property name s no_properties = property name s no_properties
set_property name s (property n t rest) =
    let others = set_property name s rest in
    if n == name then property name s rest else property n t others

abbrev pub is_required : FieldType → Bool
is_required (field_type kind type format required n i a k) = required

-- the loop over the fields, on the properties and the required names so far
unfoldable pub add_fields :
    List FieldInfo → Properties → List Text → Result SchemaError (Properties × List Text)
add_fields [] properties required = ok (properties, required)
add_fields (field ∷ fields) properties required = do
  s ← wrap (in_field field.name) (build_field_schema field)
  add_fields fields (set_property field.name s properties)
      (if is_required field.type_info then required ++ field.name ∷ [] else required)

unfoldable pub build_object_schema : TypeInfo → Result SchemaError Schema
build_object_schema info = do
  added ← add_fields info.fields no_properties []
  ok (
      schema
        (record (header (codes "object") info.description) {
          deprecated = is_deprecated info.deprecated;
        })
        (object added.0 added.1))

abbrev pub const_text : EnumConst → Text
const_text (string s) = s
const_text (int64 digits) = digits

unfoldable pub format_enum_value_description : EnumValue → Text
format_enum_value_description ev =
    let shown = const_text ev.value in
    if is_deprecated ev.deprecated
    then codes "- `"
      ++ shown
      ++ codes "`: **[DEPRECATED]** "
      ++ ev.deprecated
      ++ (if is_empty ev.description then [] else codes " - " ++ ev.description)
      ++ b'\n' ∷ []
    else if is_empty ev.description
    then codes "- `" ++ shown ++ codes "`" ++ b'\n' ∷ []
    else codes "- `" ++ shown ++ codes "`: " ++ ev.description ++ b'\n' ∷ []

abbrev pub descriptions : List EnumValue → Text
descriptions [] = []
descriptions (ev ∷ evs) = format_enum_value_description ev ++ descriptions evs

abbrev pub values_of : List EnumValue → List EnumConst
values_of [] = []
values_of (ev ∷ evs) = ev.value ∷ values_of evs

unfoldable pub enum_schema_type : TypeKind → Result SchemaError Text
enum_schema_type TypeKind.string_enum = ok type_string
enum_schema_type TypeKind.number_enum = ok type_integer
enum_schema_type kind = err (enum_kind kind)

unfoldable pub build_enum_schema : TypeInfo → Result SchemaError Schema
build_enum_schema info = do
  type ← enum_schema_type info.kind
  ok (
      schema
        (record {
          type = type;
          format = [];
          description =
              (if is_empty info.description then [] else info.description ++ b'\n' ∷ b'\n' ∷ [])
              ++ codes "Possible values:"
              ++ b'\n' ∷ descriptions info.enum_values;
          nullable = false;
          deprecated = is_deprecated info.deprecated;
          enum = values_of info.enum_values;
        })
        plain)

-- the schema of an alias, from that of its underlying type
unfoldable pub alias_schema : TypeInfo → SchemaRef → Result SchemaError Schema
alias_schema info (value s) = ok (if is_deprecated info.deprecated then set_deprecated s else s)
alias_schema info (reference []) = err invalid_schema_ref
alias_schema info (reference (c ∷ r)) = ok (
    schema (record (header [] info.description) { deprecated = is_deprecated info.deprecated })
      (all_of (reference (c ∷ r))))

unfoldable pub alias_of : Option FieldType → TypeInfo → Result SchemaError Schema
alias_of none info = err alias_untyped
alias_of (some ft) info =
    wrap (in_alias info.name) (build_schema ft info.description) >>= λ s. alias_schema info s

unfoldable pub build_alias_schema : TypeInfo → Result SchemaError Schema
unfolding alias_of
build_alias_schema info = alias_of info.underlying_type info

unfoldable pub schema_of_kind : TypeKind → TypeInfo → Result SchemaError Schema
schema_of_kind TypeKind.object info = build_object_schema info
schema_of_kind TypeKind.string_enum info = build_enum_schema info
schema_of_kind TypeKind.number_enum info = build_enum_schema info
schema_of_kind TypeKind.alias info = build_alias_schema info
schema_of_kind (TypeKind.other kind) info = err (type_kind (TypeKind.other kind))

unfoldable pub to_open_api_schema : TypeInfo → Result SchemaError Schema
unfolding schema_of_kind
to_open_api_schema info = schema_of_kind info.kind info
