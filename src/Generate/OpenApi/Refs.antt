-- ===== src/Generate/OpenApi/Refs.antt =====
-- The `$ref`s of a schema, and that they are those that the types of the fields name.
use go_http_mqtt_boilerplate.Prelude.{
  ◌≡◌, ◌∙◌, Bool, true, false, List, [], ◌∷◌, ◌++◌, map, Text, text_eq_inst, ok, wrap, bind-ok_inv,
  wrap-ok_inv, arith,
}
use go_http_mqtt_boilerplate.Generate.DocTypes.{FieldKind, FieldType, field_type, null, ref}
use go_http_mqtt_boilerplate.Generate.OpenApi.Schema.{
  Schema, schema, Body, plain, items, all_of, object, values, Properties, no_properties, property,
  SchemaRef, reference, value, SchemaError, apply_nullable, apply_deprecated, ref_text,
  create_schema_ref, build_primitive_schema, validate_map_key_is_string, build_schema,
}

unfoldable mutual
  pub schema_refs : Schema → List Text
  schema_refs (schema h body) = body_refs body

  pub body_refs : Body → List Text
  body_refs plain = []
  body_refs (items s) = refs_in s
  body_refs (all_of s) = refs_in s
  body_refs (object properties required) = properties_refs properties
  body_refs (values s) = refs_in s

  pub properties_refs : Properties → List Text
  properties_refs no_properties = []
  properties_refs (property name s rest) = refs_in s ++ properties_refs rest

  pub refs_in : SchemaRef → List Text
  refs_in (reference t) = t ∷ []
  refs_in (value s) = schema_refs s

-- the names of types in the type of a field
unfoldable pub field_refs : FieldType → List Text
field_refs (field_type FieldKind.primitive type f r n i a k) = []
field_refs (field_type FieldKind.array type f r n null a k) = []
field_refs (field_type FieldKind.array type f r n (ref item) a k) = field_refs item
field_refs (field_type FieldKind.reference type f r n i a k) = type ∷ []
field_refs (field_type FieldKind.enum type f r n i a k) = type ∷ []
field_refs (field_type FieldKind.object type f r n i null k) = []
field_refs (field_type FieldKind.object type f r n i (ref v) k) = field_refs v
field_refs (field_type (FieldKind.other kind) type f r n i a k) = []

apply_nullable-refs :
    (s t : SchemaRef) (b : Bool) → apply_nullable s b ≡ ok t → refs_in t ≡ refs_in s
unfolding apply_nullable schema_refs
apply_nullable-refs s t false h = ground arith
apply_nullable-refs (value (schema h body)) t true e = ground arith
apply_nullable-refs (reference []) t true h = ground arith
apply_nullable-refs (reference (c ∷ r)) t true h = ground arith

pub apply_deprecated-refs :
    (s t : SchemaRef) (b : Bool) → apply_deprecated s b ≡ ok t → refs_in t ≡ refs_in s
unfolding apply_deprecated schema_refs
apply_deprecated-refs s t false h = ground arith
apply_deprecated-refs (value (schema h body)) t true e = ground arith
apply_deprecated-refs (reference []) t true h = ground arith
apply_deprecated-refs (reference (c ∷ r)) t true h = ground arith

-- A schema that is built for the type of a field refers to the types that this type names, in order.
pub build_schema-refs :
    (ft : FieldType) (description : Text) (s : SchemaRef)
    → build_schema ft description ≡ ok s
    → refs_in s ≡ map ref_text (field_refs ft)
unfolding build_schema field_refs build_primitive_schema create_schema_ref ref_text schema_refs
build_schema-refs (field_type FieldKind.primitive type f r n i a k) d s h =
    apply_nullable-refs _ s n h
build_schema-refs (field_type FieldKind.array type f r n null a k) d s h = ground arith
build_schema-refs (field_type FieldKind.array type f r n (ref item) a k) d s h =
    let (t, built, made) = bind-ok_inv (wrap SchemaError.in_items (build_schema item [])) _ s h in
    apply_nullable-refs _ s n made ∙ build_schema-refs item [] t (wrap-ok_inv _ _ t built)
build_schema-refs (field_type FieldKind.reference type f r n i a k) d s h =
    apply_nullable-refs _ s n h
build_schema-refs (field_type FieldKind.enum type f r n i a k) d s h = apply_nullable-refs _ s n h
build_schema-refs (field_type FieldKind.object type f r n i null k) d s h =
    apply_nullable-refs _ s n h
build_schema-refs (field_type FieldKind.object type f r n i (ref v) k) d s h =
    let (tt', checked, rest) = bind-ok_inv (validate_map_key_is_string k) _ s h in
    let (t, built, made) = bind-ok_inv (wrap SchemaError.in_values (build_schema v [])) _ s rest in
    apply_nullable-refs _ s n made ∙ build_schema-refs v [] t (wrap-ok_inv _ _ t built)
build_schema-refs (field_type (FieldKind.other kind) type f r n i a k) d s h = ground arith
