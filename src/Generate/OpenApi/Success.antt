-- ===== src/Generate/OpenApi/Success.antt =====
-- When the document is generated: a Boolean description of the types and routes that have no error.
use go_http_mqtt_boilerplate.Prelude.{
  ◌≡◌, ◌≢◌, refl, ◌∙◌, Bool, true, false, ◌&&◌, [], ◌∷◌, Text, text_eq_inst, ◌==◌, ok, wrap, is_ok,
  is_ok-wrap, is_ok-bind, is_ok-last, bind-ok_inv, ok-inj, arith,
}
use mathlib.Core.Path.{subst}
use go_http_mqtt_boilerplate.Generate.DocTypes.{
  FieldKind, FieldType, FieldRef, field_type, null, ref, TypeInfo,
}
use go_http_mqtt_boilerplate.Generate.OpenApi.Schema.{
  Schema, SchemaRef, reference, value, in_items, in_values, apply_nullable, apply_deprecated,
  ref_text, create_schema_ref, type_string, build_primitive_schema, validate_map_key_is_string,
  build_schema,
}
use go_http_mqtt_boilerplate.Generate.OpenApi.Types.{alias_schema}

-- the primitive type string
abbrev pub is_string_key : FieldRef → Bool
is_string_key null = false
is_string_key (ref (field_type FieldKind.primitive type f r n i a k)) = type == type_string
is_string_key (ref (field_type kind type f r n i a k)) = false

-- Arrays have a type of items, maps have keys of the primitive type string, and no kind is unknown.
unfoldable pub is_buildable : FieldType → Bool
is_buildable (field_type FieldKind.primitive type f r n i a k) = true
is_buildable (field_type FieldKind.array type f r n null a k) = false
is_buildable (field_type FieldKind.array type f r n (ref item) a k) = is_buildable item
is_buildable (field_type FieldKind.reference type f r n i a k) = true
is_buildable (field_type FieldKind.enum type f r n i a k) = true
is_buildable (field_type FieldKind.object type f r n i null k) = true
is_buildable (field_type FieldKind.object type f r n i (ref v) k) =
    is_string_key k && is_buildable v
is_buildable (field_type (FieldKind.other kind) type f r n i a k) = false

apply_nullable-value : (s : Schema) (b : Bool) → is_ok (apply_nullable (value s) b) ≡ true
unfolding apply_nullable
apply_nullable-value s true = refl
apply_nullable-value s false = refl

apply_nullable-create_schema_ref :
    (name : Text) (b : Bool) → is_ok (apply_nullable (create_schema_ref name) b) ≡ true
unfolding apply_nullable create_schema_ref ref_text
apply_nullable-create_schema_ref name true = refl
apply_nullable-create_schema_ref name false = refl

validate_map_key_is_string-is_ok :
    (k : FieldRef) → is_ok (validate_map_key_is_string k) ≡ is_string_key k
unfolding validate_map_key_is_string
validate_map_key_is_string-is_ok null = refl
validate_map_key_is_string-is_ok (ref (field_type FieldKind.primitive type f r n i a k)) =
    ground arith
validate_map_key_is_string-is_ok (ref (field_type FieldKind.reference type f r n i a k)) = refl
validate_map_key_is_string-is_ok (ref (field_type FieldKind.array type f r n i a k)) = refl
validate_map_key_is_string-is_ok (ref (field_type FieldKind.enum type f r n i a k)) = refl
validate_map_key_is_string-is_ok (ref (field_type FieldKind.object type f r n i a k)) = refl
validate_map_key_is_string-is_ok (ref (field_type (FieldKind.other kind) type f r n i a k)) = refl

-- The schema of a field is built exactly if in its type each array has a type of items, each map
-- has keys of the primitive type string, and no kind is unknown.
pub build_schema-is_ok : (ft : FieldType) (d : Text) → is_ok (build_schema ft d) ≡ is_buildable ft
unfolding build_schema is_buildable build_primitive_schema
build_schema-is_ok (field_type FieldKind.primitive type f r n i a k) d = apply_nullable-value _ n
build_schema-is_ok (field_type FieldKind.array type f r n null a k) d = refl
build_schema-is_ok (field_type FieldKind.array type f r n (ref item) a k) d =
    is_ok-last (wrap in_items (build_schema item [])) _
      (is_ok-wrap in_items (build_schema item []) ∙ build_schema-is_ok item [])
      (λ s _. apply_nullable-value _ n)
build_schema-is_ok (field_type FieldKind.reference type f r n i a k) d =
    apply_nullable-create_schema_ref type n
build_schema-is_ok (field_type FieldKind.enum type f r n i a k) d =
    apply_nullable-create_schema_ref type n
build_schema-is_ok (field_type FieldKind.object type f r n i null k) d = apply_nullable-value _ n
build_schema-is_ok (field_type FieldKind.object type f r n i (ref v) k) d =
    is_ok-bind (validate_map_key_is_string k) _ (validate_map_key_is_string-is_ok k) (λ _ _.
      is_ok-last (wrap in_values (build_schema v [])) _
        (is_ok-wrap in_values (build_schema v []) ∙ build_schema-is_ok v [])
        (λ s _. apply_nullable-value _ n))
build_schema-is_ok (field_type (FieldKind.other kind) type f r n i a k) d = refl

-- a reference that is not empty, or a schema
abbrev pub IsProper : SchemaRef → Type 0
IsProper (value s) = Unit
IsProper (reference t) = t ≢ []

-- The references of the schemas that are built are not empty, so that nothing fails at them later.
apply_nullable-IsProper :
    (s t : SchemaRef) (b : Bool) → IsProper s → apply_nullable s b ≡ ok t → IsProper t
unfolding apply_nullable
apply_nullable-IsProper s t false p h = subst IsProper (ok-inj h) p
apply_nullable-IsProper (value s) t true p h = subst IsProper (ok-inj h) tt
apply_nullable-IsProper (reference []) t true p h = ground (arith, h)
apply_nullable-IsProper (reference (c ∷ r)) t true p h = subst IsProper (ok-inj h) tt

create_schema_ref-IsProper : (name : Text) → IsProper (create_schema_ref name)
unfolding create_schema_ref ref_text
create_schema_ref-IsProper name = λ e. ground (arith, e)

pub build_schema-IsProper :
    (ft : FieldType) (d : Text) (s : SchemaRef) → build_schema ft d ≡ ok s → IsProper s
unfolding build_schema build_primitive_schema
build_schema-IsProper (field_type FieldKind.primitive type f r n i a k) d s h =
    apply_nullable-IsProper _ s n tt h
build_schema-IsProper (field_type FieldKind.array type f r n null a k) d s h = ground (arith, h)
build_schema-IsProper (field_type FieldKind.array type f r n (ref item) a k) d s h =
    let (t, built, made) = bind-ok_inv (wrap in_items (build_schema item [])) _ s h in
    apply_nullable-IsProper _ s n tt made
build_schema-IsProper (field_type FieldKind.reference type f r n i a k) d s h =
    apply_nullable-IsProper _ s n (create_schema_ref-IsProper type) h
build_schema-IsProper (field_type FieldKind.enum type f r n i a k) d s h =
    apply_nullable-IsProper _ s n (create_schema_ref-IsProper type) h
build_schema-IsProper (field_type FieldKind.object type f r n i null k) d s h =
    apply_nullable-IsProper _ s n tt h
build_schema-IsProper (field_type FieldKind.object type f r n i (ref v) k) d s h =
    let (u, checked, rest) = bind-ok_inv (validate_map_key_is_string k) _ s h in
    let (t, built, made) = bind-ok_inv (wrap in_values (build_schema v [])) _ s rest in
    apply_nullable-IsProper _ s n tt made
build_schema-IsProper (field_type (FieldKind.other kind) type f r n i a k) d s h = ground (arith, h)

pub apply_deprecated-is_ok :
    (s : SchemaRef) (b : Bool) → IsProper s → is_ok (apply_deprecated s b) ≡ true
unfolding apply_deprecated
apply_deprecated-is_ok s false p = refl
apply_deprecated-is_ok (value s) true p = refl
apply_deprecated-is_ok (reference []) true p = elim (p refl) [ ]
apply_deprecated-is_ok (reference (c ∷ r)) true p = refl

pub alias_schema-is_ok :
    (info : TypeInfo) (s : SchemaRef) → IsProper s → is_ok (alias_schema info s) ≡ true
unfolding alias_schema
alias_schema-is_ok info (value s) p = refl
alias_schema-is_ok info (reference []) p = elim (p refl) [ ]
alias_schema-is_ok info (reference (c ∷ r)) p = refl
