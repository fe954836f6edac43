-- ===== src/Generate/OpenApi/Schema.antt =====
-- The schemas of backend/pkg/generate/openapi.go. Of kin-openapi's `Schema` and `SchemaRef` there are
-- the fields that the code sets, and nil is not told from empty in the properties and the required
-- names: a `SchemaRef` has a schema, or else the text of its `$ref`.
use go_http_mqtt_boilerplate.Prelude.{
  Bool, true, false, not, List, [], ◌∷◌, ◌++◌, Text, codes, text_eq_inst, ◌==◌, Result, ok, err,
  ◌>>=◌, ◌>>◌, fail_if, wrap,
}
use go_http_mqtt_boilerplate.Mqtt.Topic.{is_empty}
use go_http_mqtt_boilerplate.Generate.DocTypes.{
  TypeKind, FieldKind, FieldType, FieldRef, field_type, null, ref, FieldInfo, EnumConst,
}

-- the fields of a schema that hold no other schema
pub record Header : Type 0 where
  pub type : Text
  pub format : Text
  pub description : Text
  pub nullable : Bool
  pub deprecated : Bool
  pub enum : List EnumConst

mutual
  pub data Schema : Type 0 where
    schema : Header → Body → Schema

  -- `object` and `values` are the two uses of AdditionalProperties: false, and a schema.
  pub data Body : Type 0 where
    plain : Body
    items : SchemaRef → Body
    all_of : SchemaRef → Body
    object : Properties → List Text → Body
    values : SchemaRef → Body

  pub data Properties : Type 0 where
    no_properties : Properties
    property : Text → SchemaRef → Properties → Properties

  pub data SchemaRef : Type 0 where
    reference : Text → SchemaRef
    value : Schema → SchemaRef

pub data SchemaError : Type 0 where
  invalid_schema_ref items_missing key_missing alias_untyped : SchemaError
  key_not_string key_reference : Text → SchemaError
  key_kind field_kind : FieldKind → SchemaError
  enum_kind type_kind : TypeKind → SchemaError
  in_field in_alias : Text → SchemaError → SchemaError
  in_items in_values : SchemaError → SchemaError

abbrev pub header : Text → Text → Header
header type description = record {
  type = type;
  format = [];
  description = description;
  nullable = false;
  deprecated = false;
  enum = [];
}

abbrev pub set_nullable : Schema → Schema
set_nullable (schema h body) = schema (record h { nullable = true }) body

abbrev pub set_deprecated : Schema → Schema
set_deprecated (schema h body) = schema (record h { deprecated = true }) body

abbrev pub is_deprecated : Text → Bool
is_deprecated deprecated = not (is_empty deprecated)

-- a schema around a reference, which takes no further fields itself
abbrev pub wrapping : SchemaRef → Schema
wrapping s = schema (header [] []) (all_of s)

unfoldable pub apply_nullable : SchemaRef → Bool → Result SchemaError SchemaRef
apply_nullable s false = ok s
apply_nullable (value s) true = ok (value (set_nullable s))
apply_nullable (reference []) true = err invalid_schema_ref
apply_nullable (reference (c ∷ r)) true = ok (value (set_nullable (wrapping (reference (c ∷ r)))))

unfoldable pub apply_deprecated : SchemaRef → Bool → Result SchemaError SchemaRef
apply_deprecated s false = ok s
apply_deprecated (value s) true = ok (value (set_deprecated s))
apply_deprecated (reference []) true = err invalid_schema_ref
apply_deprecated (reference (c ∷ r)) true =
    ok (value (set_deprecated (wrapping (reference (c ∷ r)))))

abbrev pub type_string : Text
type_string = codes "string"

abbrev pub type_integer : Text
type_integer = codes "integer"

abbrev pub type_number : Text
type_number = codes "number"

abbrev pub type_boolean : Text
type_boolean = codes "boolean"

unfoldable pub ref_text : Text → Text
ref_text type_name = codes "#/components/schemas/" ++ type_name

unfoldable pub create_schema_ref : Text → SchemaRef
unfolding ref_text
create_schema_ref type_name = reference (ref_text type_name)

unfoldable pub build_primitive_schema : Text → Text → Bool → Text → Result SchemaError SchemaRef
build_primitive_schema type format nullable description =
    apply_nullable (value (schema (record (header type description) { format = format }) plain))
      nullable

unfoldable pub validate_map_key_is_string : FieldRef → Result SchemaError (Unit {0})
validate_map_key_is_string null = err key_missing
validate_map_key_is_string (ref (field_type FieldKind.primitive type f r n i a k)) =
    fail_if (not (type == type_string)) (key_not_string type)
validate_map_key_is_string (ref (field_type FieldKind.reference type f r n i a k)) =
    err (key_reference type)
validate_map_key_is_string (ref (field_type kind type f r n i a k)) = err (key_kind kind)

-- `buildSchemaFromFieldType` with the functions for each kind
unfoldable pub build_schema : FieldType → Text → Result SchemaError SchemaRef
unfolding create_schema_ref build_primitive_schema
build_schema (field_type FieldKind.primitive type format r nullable i a k) description =
    build_primitive_schema type format nullable description
build_schema (field_type FieldKind.array type f r nullable null a k) description = err items_missing
build_schema (field_type FieldKind.array type f r nullable (ref item) a k) description = do
  s ← wrap in_items (build_schema item [])
  apply_nullable (value (schema (header (codes "array") description) (items s))) nullable
build_schema (field_type FieldKind.reference type f r nullable i a k) description =
    apply_nullable (create_schema_ref type) nullable
build_schema (field_type FieldKind.enum type f r nullable i a k) description =
    apply_nullable (create_schema_ref type) nullable
build_schema (field_type FieldKind.object type f r nullable i null k) description =
    apply_nullable (value (schema (header (codes "object") description) (object no_properties [])))
      nullable
build_schema (field_type FieldKind.object type f r nullable i (ref v) k) description = do
  validate_map_key_is_string k
  s ← wrap in_values (build_schema v [])
  apply_nullable (value (schema (header (codes "object") description) (values s))) nullable
build_schema (field_type (FieldKind.other kind) type f r nullable i a k) description =
    err (field_kind (FieldKind.other kind))

unfoldable pub build_field_schema : FieldInfo → Result SchemaError SchemaRef
build_field_schema field = do
  s ← build_schema field.type_info field.description
  apply_deprecated s (is_deprecated field.deprecated)
