-- ===== src/Generate/Extract/Primitives.antt =====
-- What the analysis of one name, of this package or of another one, gives to the document.
use go_http_mqtt_boilerplate.Prelude.{
  ◌≡◌, refl, sym, Bool, true, false, ◌&&◌, Option-cases, inl, inr, Option, none, some, List, [],
  ◌∷◌, ◌++◌, All, All-lookup, text_eq_iff, text_eq, Text, codes, Map, lookup, text_eq_inst, member,
  ok, ok-inj, arith,
}
use mathlib.Core.Path.{subst}
use go_http_mqtt_boilerplate.Generate.DocTypes.{FieldKind, FieldType, field_type, null, ref}
use go_http_mqtt_boilerplate.Generate.OpenApi.Schema.{type_string}
use go_http_mqtt_boilerplate.Generate.OpenApi.Refs.{field_refs}
use go_http_mqtt_boilerplate.Generate.OpenApi.Success.{is_string_key, is_buildable}
use go_http_mqtt_boilerplate.Generate.Extract.Ast.{
  Expr, ident, star, array_type, map_type, selector,
}
use go_http_mqtt_boilerplate.Generate.Extract.Analyze.{
  AnalyzeError, bare, primitive, with_nullable, primitive_type_mappings, analyze_ident,
  analyze_external,
}

-- Go's names of the types that are strings in the document
abbrev pub string_names : List Text
string_names = codes "string" ∷ codes "byte" ∷ codes "rune" ∷ []

-- an expression for a string: one of these names, or a type of another package
abbrev pub is_string_expr : Expr → Bool
is_string_expr (ident name) = member name string_names
is_string_expr (star x) = is_string_expr x
is_string_expr (selector x name) = true
is_string_expr _ = false

-- Every map in the expression has a key that is a string.
unfoldable pub has_string_keys : Expr → Bool
has_string_keys (star x) = has_string_keys x
has_string_keys (array_type element) = has_string_keys element
has_string_keys (map_type key element) = is_string_expr key && has_string_keys element
has_string_keys _ = true

-- What the types of the primitive names are.
record IsMapping (name : Text) (ft : FieldType) : Type 0 where
  buildable : is_buildable ft ≡ true
  refs : field_refs ft ≡ []
  key : is_string_key (ref ft) ≡ member name string_names

mappings-All : All (λ e. IsMapping e.0 e.1) primitive_type_mappings
unfolding primitive_type_mappings is_buildable field_refs text_eq
mappings-All = (
  record { buildable = refl; refs = refl; key = refl },
  (
    record { buildable = refl; refs = refl; key = refl },
    (
      record { buildable = refl; refs = refl; key = refl },
      (
        record { buildable = refl; refs = refl; key = refl },
        (
          record { buildable = refl; refs = refl; key = refl },
          (
            record { buildable = refl; refs = refl; key = refl },
            (
              record { buildable = refl; refs = refl; key = refl },
              (
                record { buildable = refl; refs = refl; key = refl },
                (
                  record { buildable = refl; refs = refl; key = refl },
                  (
                    record { buildable = refl; refs = refl; key = refl },
                    (
                      record { buildable = refl; refs = refl; key = refl },
                      (
                        record { buildable = refl; refs = refl; key = refl },
                        (
                          record { buildable = refl; refs = refl; key = refl },
                          (
                            record { buildable = refl; refs = refl; key = refl },
                            (
                              record { buildable = refl; refs = refl; key = refl },
                              (record { buildable = refl; refs = refl; key = refl }, tt),
                            ),
                          ),
                        ),
                      ),
                    ),
                  ),
                ),
              ),
            ),
          ),
        ),
      ),
    ),
  ),
)

primitive-IsMapping :
    (name : Text) (ft : FieldType)
    → lookup name primitive_type_mappings ≡ some ft
    → IsMapping name ft
primitive-IsMapping name ft h = All-lookup IsMapping primitive_type_mappings name ft mappings-All h

-- an expression that is not of a primitive name is not of a string's
unmapped-string :
    (name : Text) → lookup name primitive_type_mappings ≡ none → member name string_names ≡ false
unfolding primitive_type_mappings lookup
unmapped-string name h = ground (arith, h)

-- What a successful analysis gives: its references are those of the type, where maps have string
-- keys, and the type can be built and is a string exactly as the expression says.
pub record IsAnalysis (x : Expr) (ft : FieldType) (refs : List Text) : Type 0 where
  pub buildable : is_buildable ft ≡ has_string_keys x
  pub key : is_string_key (ref ft) ≡ is_string_expr x
  pub listed : All (λ n. member n refs ≡ true) (field_refs ft)
  pub exact : is_buildable ft ≡ true → refs ≡ field_refs ft
  pub string_refs : is_string_key (ref ft) ≡ true → refs ≡ []

member_self : (name : Text) → member name (name ∷ []) ≡ true
member_self name = ground (arith, text_eq_iff name name)

pub analyze_ident-IsAnalysis :
    (name : Text) (o : Option FieldType) (ft : FieldType) (refs : List Text)
    → lookup name primitive_type_mappings ≡ o
    → analyze_ident name o ≡ ok (ft, refs)
    → IsAnalysis (ident name) ft refs
unfolding analyze_ident is_buildable has_string_keys field_refs
analyze_ident-IsAnalysis name (some p) ft refs e h =
    let m = primitive-IsMapping name p e in
    let same : Path (FieldType × List Text) (p, []) (ft, refs) = ok-inj h in
    subst (λ r. IsAnalysis (ident name) r.0 r.1) same
      (record {
        buildable = m.buildable;
        key = m.key;
        listed = subst (All (λ n. member n [] ≡ true)) (sym m.refs) tt;
        exact = λ b. sym m.refs;
        string_refs = λ b. refl;
      })
analyze_ident-IsAnalysis name none ft refs e h =
    let same : Path (FieldType × List Text) (bare FieldKind.reference name, name ∷ []) (ft, refs) =
      ok-inj {E = AnalyzeError} (ground (arith, h)) in
    subst (λ r. IsAnalysis (ident name) r.0 r.1) same
      (record {
        buildable = refl;
        key = sym (unmapped-string name e);
        listed = (member_self name, tt);
        exact = λ b. refl;
        string_refs = λ b. ground (arith, b);
      })

-- `Nullable` is of no matter to the schema's success and references.
pub with_nullable-same :
    (ft : FieldType)
    → (is_buildable (with_nullable ft) ≡ is_buildable ft)
      × (is_string_key (ref (with_nullable ft)) ≡ is_string_key (ref ft))
      × (field_refs (with_nullable ft) ≡ field_refs ft)
unfolding is_buildable field_refs
with_nullable-same (field_type FieldKind.primitive t f r n i a k) = (refl, refl, refl)
with_nullable-same (field_type FieldKind.array t f r n null a k) = (refl, refl, refl)
with_nullable-same (field_type FieldKind.array t f r n (ref x) a k) = (refl, refl, refl)
with_nullable-same (field_type FieldKind.reference t f r n i a k) = (refl, refl, refl)
with_nullable-same (field_type FieldKind.enum t f r n i a k) = (refl, refl, refl)
with_nullable-same (field_type FieldKind.object t f r n i null k) = (refl, refl, refl)
with_nullable-same (field_type FieldKind.object t f r n i (ref v) k) = (refl, refl, refl)
with_nullable-same (field_type (FieldKind.other kind) t f r n i a k) = (refl, refl, refl)

pub analyze_external-IsAnalysis :
    (alias name : Text) (formats : Map Text) (o : Option Text) (ft : FieldType) (refs : List Text)
    → analyze_external alias name formats o ≡ ok (ft, refs)
    → IsAnalysis (selector (ident alias) name) ft refs
unfolding analyze_external is_buildable has_string_keys field_refs text_eq
analyze_external-IsAnalysis alias name formats none ft refs h = ground (arith, h)
analyze_external-IsAnalysis alias name formats (some path) ft refs h =
    elim (Option-cases (lookup (path ++ b'.' ∷ name) formats)) [
      | inl missing ↦ ground (arith, h, missing)
      | inr (format, found) ↦
          let same : Path (FieldType × List Text) (primitive type_string format, []) (ft, refs) =
            ok-inj {E = AnalyzeError} (ground (arith, h, found)) in
          subst (λ r. IsAnalysis (selector (ident alias) name) r.0 r.1) same
            (record {
              buildable = refl;
              key = refl;
              listed = tt;
              exact = λ b. refl;
              string_refs = λ b. refl;
            })
    ]
