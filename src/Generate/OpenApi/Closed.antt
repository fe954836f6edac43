-- ===== src/Generate/OpenApi/Closed.antt =====
-- The `$ref`s of the schema of a type come from the types that it names.
use go_http_mqtt_boilerplate.Prelude.{
  ◌≡◌, refl, sym, true, false, Bool-cases, inl, inr, Option, none, some, List, [], ◌∷◌, ◌++◌, map,
  All, All-append, All-append_inv, Text, text_eq_inst, ◌==◌, if◌then◌else◌, ok, wrap, bind-ok_inv,
  wrap-ok_inv, ok-inj, arith,
}
use mathlib.Core.Path.{subst}
use go_http_mqtt_boilerplate.Generate.DocTypes.{TypeKind, FieldType, FieldInfo, TypeInfo}
use go_http_mqtt_boilerplate.Generate.OpenApi.Schema.{
  Schema, schema, Properties, no_properties, property, is_deprecated, set_deprecated, SchemaRef,
  reference, value, SchemaError, ref_text, build_schema, build_field_schema,
}
use go_http_mqtt_boilerplate.Generate.OpenApi.Types.{
  set_property, add_fields, build_object_schema, enum_schema_type, build_enum_schema, alias_schema,
  build_alias_schema, alias_of, schema_of_kind, to_open_api_schema,
}
use go_http_mqtt_boilerplate.Generate.OpenApi.Refs.{
  schema_refs, properties_refs, refs_in, field_refs, build_schema-refs, apply_deprecated-refs,
}

abbrev pub fields_refs : List FieldInfo → List Text
fields_refs [] = []
fields_refs (field ∷ fields) = field_refs field.type_info ++ fields_refs fields

abbrev pub underlying_refs : Option FieldType → List Text
underlying_refs none = []
underlying_refs (some ft) = field_refs ft

abbrev pub refs_of_kind : TypeKind → List FieldInfo → Option FieldType → List Text
refs_of_kind TypeKind.object fields underlying = fields_refs fields
refs_of_kind TypeKind.string_enum fields underlying = []
refs_of_kind TypeKind.number_enum fields underlying = []
refs_of_kind TypeKind.alias fields underlying = underlying_refs underlying
refs_of_kind (TypeKind.other kind) fields underlying = []

-- the names of types in the declaration of a type
unfoldable pub type_refs : TypeInfo → List Text
type_refs info = refs_of_kind info.kind info.fields info.underlying_type

module _ (P : Text → Type 0) where
  All-map : (names : List Text) → All (λ n. P (ref_text n)) names → All P (map ref_text names)
  All-map [] h = tt
  All-map (n ∷ names) (p, h) = (p, All-map names h)

  build_schema-All :
      (ft : FieldType) (d : Text) (s : SchemaRef)
      → build_schema ft d ≡ ok s
      → All (λ n. P (ref_text n)) (field_refs ft)
      → All P (refs_in s)
  build_schema-All ft d s h known =
      subst (All P) (sym (build_schema-refs ft d s h)) (All-map (field_refs ft) known)

  set_property-All :
      (name : Text) (s : SchemaRef) (ps : Properties)
      → All P (refs_in s)
      → All P (properties_refs ps)
      → All P (properties_refs (set_property name s ps))
  unfolding set_property schema_refs
  set_property-All name s no_properties h k = All-append P (refs_in s) [] h tt
  set_property-All name s (property n t rest) h k =
      let (first, others) = All-append_inv P (refs_in t) (properties_refs rest) k in
      let set = set_property-All name s rest h others in
      elim (n == name)
        as (λ b. All P (
          properties_refs
            (if b then property name s rest else property n t (set_property name s rest)))) [
              | true ↦ All-append P (refs_in s) (properties_refs rest) h others
              | false ↦ All-append P (refs_in t) _ first set
            ]

  build_field_schema-All :
      (field : FieldInfo) (s : SchemaRef)
      → build_field_schema field ≡ ok s
      → All (λ n. P (ref_text n)) (field_refs field.type_info)
      → All P (refs_in s)
  unfolding build_field_schema
  build_field_schema-All field s h known =
      let (t, built, made) = bind-ok_inv (build_schema field.type_info field.description) _ s h in
      subst (All P) (sym (apply_deprecated-refs t s (is_deprecated field.deprecated) made))
        (build_schema-All field.type_info field.description t built known)

  add_fields-All :
      (fields : List FieldInfo) (ps : Properties) (required : List Text)
      (added : Properties × List Text)
      → add_fields fields ps required ≡ ok added
      → All (λ n. P (ref_text n)) (fields_refs fields)
      → All P (properties_refs ps)
      → All P (properties_refs added.0)
  unfolding add_fields
  add_fields-All [] ps required added h known k =
      subst (λ a. All P (properties_refs a.0)) (ok-inj h) k
  add_fields-All (field ∷ fields) ps required added h known k =
      let (s, built, rest) =
        bind-ok_inv (wrap (SchemaError.in_field field.name) (build_field_schema field)) _ added h in
      let (here, others) =
        All-append_inv _ (field_refs field.type_info) (fields_refs fields) known in
      add_fields-All fields (set_property field.name s ps) _ added rest others (
        set_property-All field.name s ps
          (build_field_schema-All field s (wrap-ok_inv _ _ s built) here) k)

  set_deprecated-refs : (s : Schema) → schema_refs (set_deprecated s) ≡ schema_refs s
  unfolding schema_refs
  set_deprecated-refs (schema h body) = refl

  alias_schema-All :
      (info : TypeInfo) (r : SchemaRef) (s : Schema)
      → alias_schema info r ≡ ok s
      → All P (refs_in r)
      → All P (schema_refs s)
  unfolding alias_schema schema_refs
  alias_schema-All info (value t) s h k = elim (Bool-cases (is_deprecated info.deprecated)) [
    | inl old ↦
        let e : set_deprecated t ≡ s = ground (arith, h, old) in
        subst (λ u. All P (schema_refs u)) e (subst (All P) (sym (set_deprecated-refs t)) k)
    | inr new ↦ let e : t ≡ s = ground (arith, h, new) in subst (λ u. All P (schema_refs u)) e k
  ]
  alias_schema-All info (reference []) s h k = ground arith
  alias_schema-All info (reference (c ∷ r)) s h k = subst (λ u. All P (schema_refs u)) (ok-inj h) k

  alias_of-All :
      (o : Option FieldType) (info : TypeInfo) (s : Schema)
      → alias_of o info ≡ ok s
      → All (λ n. P (ref_text n)) (underlying_refs o)
      → All P (schema_refs s)
  unfolding alias_of
  alias_of-All none info s h known = ground (arith, h)
  alias_of-All (some ft) info s h known =
      let (r, built, made) =
        bind-ok_inv (wrap (SchemaError.in_alias info.name) (build_schema ft info.description))
          (alias_schema info) s h in
      alias_schema-All info r s made
        (build_schema-All ft info.description r (wrap-ok_inv _ _ r built) known)

  build_enum_schema-All :
      (info : TypeInfo) (s : Schema) → build_enum_schema info ≡ ok s → All P (schema_refs s)
  unfolding build_enum_schema schema_refs
  build_enum_schema-All info s h =
      let (t, typed, made) = bind-ok_inv (enum_schema_type info.kind) _ s h in
      subst (λ u. All P (schema_refs u)) (ok-inj made) tt

  build_object_schema-All :
      (info : TypeInfo) (s : Schema)
      → build_object_schema info ≡ ok s
      → All (λ n. P (ref_text n)) (fields_refs info.fields)
      → All P (schema_refs s)
  unfolding build_object_schema schema_refs
  build_object_schema-All info s h known =
      let (a, added, made) = bind-ok_inv (add_fields info.fields no_properties []) _ s h in
      subst (λ u. All P (schema_refs u)) (ok-inj made)
        (add_fields-All info.fields no_properties [] a added known tt)

  schema_of_kind-All :
      (kind : TypeKind) (info : TypeInfo) (s : Schema)
      → schema_of_kind kind info ≡ ok s
      → All (λ n. P (ref_text n)) (refs_of_kind kind info.fields info.underlying_type)
      → All P (schema_refs s)
  unfolding schema_of_kind build_alias_schema
  schema_of_kind-All TypeKind.object info s h known = build_object_schema-All info s h known
  schema_of_kind-All TypeKind.string_enum info s h known = build_enum_schema-All info s h
  schema_of_kind-All TypeKind.number_enum info s h known = build_enum_schema-All info s h
  schema_of_kind-All TypeKind.alias info s h known =
      alias_of-All info.underlying_type info s h known
  schema_of_kind-All (TypeKind.other kind) info s h known = ground (arith, h)

  -- If all names of types in the declaration of a type are names that a document knows, then its
  -- schema refers only to such names.
  pub to_open_api_schema-All :
      (info : TypeInfo) (s : Schema)
      → to_open_api_schema info ≡ ok s
      → All (λ n. P (ref_text n)) (type_refs info)
      → All P (schema_refs s)
  unfolding to_open_api_schema type_refs
  to_open_api_schema-All info s h known = schema_of_kind-All info.kind info s h known
