-- ===== src/Generate/OpenApi/Buildable.antt =====
-- When the schema of a type is built.
use go_http_mqtt_boilerplate.Prelude.{
  ◌≡◌, refl, ◌∙◌, Bool, true, false, Option, none, some, List, [], ◌∷◌, all, Text, text_eq_inst,
  wrap, is_ok, is_ok-wrap, is_ok-bind, is_ok-last, wrap-ok_inv, arith,
}
use go_http_mqtt_boilerplate.Generate.DocTypes.{TypeKind, FieldType, FieldInfo, TypeInfo}
use go_http_mqtt_boilerplate.Generate.OpenApi.Schema.{
  in_field, in_alias, Properties, no_properties, is_deprecated, build_schema, build_field_schema,
}
use go_http_mqtt_boilerplate.Generate.OpenApi.Types.{
  add_fields, build_object_schema, enum_schema_type, build_enum_schema, build_alias_schema,
  alias_of, schema_of_kind, to_open_api_schema,
}
use go_http_mqtt_boilerplate.Generate.OpenApi.Success.{
  is_buildable, build_schema-is_ok, build_schema-IsProper, apply_deprecated-is_ok,
  alias_schema-is_ok,
}

abbrev pub underlying_buildable : Option FieldType → Bool
underlying_buildable none = false
underlying_buildable (some ft) = is_buildable ft

abbrev pub fields_buildable : List FieldInfo → Bool
fields_buildable fields = all (λ (f : FieldInfo). is_buildable f.type_info) fields

abbrev pub kind_buildable : TypeKind → TypeInfo → Bool
kind_buildable TypeKind.object info = fields_buildable info.fields
kind_buildable TypeKind.string_enum info = true
kind_buildable TypeKind.number_enum info = true
kind_buildable TypeKind.alias info = underlying_buildable info.underlying_type
kind_buildable (TypeKind.other kind) info = false

-- An object all of whose fields are buildable, an enum, or an alias of a buildable type.
unfoldable pub is_type_buildable : TypeInfo → Bool
is_type_buildable info = kind_buildable info.kind info

build_field_schema-is_ok :
    (field : FieldInfo) → is_ok (build_field_schema field) ≡ is_buildable field.type_info
unfolding build_field_schema
build_field_schema-is_ok field =
    is_ok-last (build_schema field.type_info field.description) _
      (build_schema-is_ok field.type_info field.description)
      (λ s h.
        apply_deprecated-is_ok s (is_deprecated field.deprecated)
          (build_schema-IsProper field.type_info field.description s h))

add_fields-is_ok :
    (fields : List FieldInfo) (ps : Properties) (required : List Text)
    → is_ok (add_fields fields ps required) ≡ fields_buildable fields
unfolding add_fields
add_fields-is_ok [] ps required = refl
add_fields-is_ok (field ∷ fields) ps required =
    is_ok-bind (wrap (in_field field.name) (build_field_schema field)) _
      (is_ok-wrap (in_field field.name) (build_field_schema field) ∙ build_field_schema-is_ok field)
      (λ s _. add_fields-is_ok fields _ _)

alias_of-is_ok :
    (o : Option FieldType) (info : TypeInfo) → is_ok (alias_of o info) ≡ underlying_buildable o
unfolding alias_of
alias_of-is_ok none info = refl
alias_of-is_ok (some ft) info =
    is_ok-last (wrap (in_alias info.name) (build_schema ft info.description)) _
      (is_ok-wrap (in_alias info.name) (build_schema ft info.description)
        ∙ build_schema-is_ok ft info.description)
      (λ s h.
        alias_schema-is_ok info s
          (build_schema-IsProper ft info.description s (wrap-ok_inv _ _ s h)))

of_kind-is_ok :
    (kind : TypeKind) (info : TypeInfo)
    → info.kind ≡ kind
    → is_ok (schema_of_kind kind info) ≡ kind_buildable kind info
unfolding schema_of_kind build_object_schema build_enum_schema enum_schema_type build_alias_schema
of_kind-is_ok TypeKind.object info e =
    is_ok-last (add_fields info.fields no_properties []) _ (add_fields-is_ok info.fields _ _)
      (λ a _. refl)
of_kind-is_ok TypeKind.string_enum info e = ground (arith, e)
of_kind-is_ok TypeKind.number_enum info e = ground (arith, e)
of_kind-is_ok TypeKind.alias info e = alias_of-is_ok info.underlying_type info
of_kind-is_ok (TypeKind.other kind) info e = refl

pub to_open_api_schema-is_ok :
    (info : TypeInfo) → is_ok (to_open_api_schema info) ≡ is_type_buildable info
unfolding to_open_api_schema is_type_buildable
to_open_api_schema-is_ok info = of_kind-is_ok info.kind info refl
