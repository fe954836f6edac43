-- ===== src/Generate/Extract/Analyze.antt =====
-- `analyzeGoType` of backend/pkg/generate/collector_ast.go with the functions for each expression.
use go_http_mqtt_boilerplate.Prelude.{
  true, false, Option, none, some, List, [], ◌∷◌, ◌++◌, Text, codes, Map, lookup, text_eq_inst,
  ◌==◌, if◌then◌else◌, Result, ok, err, ◌>>=◌, wrap,
}
use go_http_mqtt_boilerplate.Generate.DocTypes.{FieldKind, FieldType, field_type, null, ref}
use go_http_mqtt_boilerplate.Generate.OpenApi.Schema.{
  type_string, type_integer, type_number, type_boolean,
}
use go_http_mqtt_boilerplate.Generate.Extract.Ast.{
  Expr, ident, star, array_type, map_type, selector, other_expr,
}

pub data AnalyzeError : Type 0 where
  any_type unsupported_expression unsupported_selector : AnalyzeError
  unknown_alias unknown_external : Text → AnalyzeError
  in_key : AnalyzeError → AnalyzeError

-- a type of the kind and name, the other fields at their zero values
abbrev pub bare : FieldKind → Text → FieldType
bare kind type = field_type kind type [] false false null null null

abbrev pub primitive : Text → Text → FieldType
primitive type format = field_type FieldKind.primitive type format false false null null null

-- `getPrimitiveTypeMappings`
unfoldable pub primitive_type_mappings : Map FieldType
primitive_type_mappings =
    (codes "string", primitive type_string [])
    ∷ (codes "byte", primitive type_string [])
    ∷ (codes "rune", primitive type_string [])
    ∷ (codes "bool", primitive type_boolean [])
    ∷ (codes "int", primitive type_integer [])
    ∷ (codes "int8", primitive type_integer [])
    ∷ (codes "int16", primitive type_integer [])
    ∷ (codes "uint", primitive type_integer [])
    ∷ (codes "uint8", primitive type_integer [])
    ∷ (codes "uint16", primitive type_integer [])
    ∷ (codes "int32", primitive type_integer (codes "int32"))
    ∷ (codes "uint32", primitive type_integer (codes "int32"))
    ∷ (codes "int64", primitive type_integer (codes "int64"))
    ∷ (codes "uint64", primitive type_integer (codes "int64"))
    ∷ (codes "float32", primitive type_number (codes "float"))
    ∷ (codes "float64", primitive type_number (codes "double"))
    ∷ []

-- The keys and formats of `getExternalTypeMappings`.
abbrev pub external_type_formats : Map Text
external_type_formats =
    (codes "time.Time", codes "date-time")
    ∷ (codes "http-mqtt-boilerplate/backend/pkg/utils.URL", codes "uri")
    ∷ []

abbrev pub Analyzed : Type 0
Analyzed = Result AnalyzeError (FieldType × List Text)

-- an identifier, with its primitive type if it has one
unfoldable pub analyze_ident : Text → Option FieldType → Analyzed
analyze_ident type_name (some primitive_type) = ok (primitive_type, [])
analyze_ident type_name none =
    if type_name == codes "any"
    then err any_type
    else ok (bare FieldKind.reference type_name, type_name ∷ [])

abbrev pub with_nullable : FieldType → FieldType
with_nullable (field_type kind type f r n i a k) = field_type kind type f r true i a k

-- a type of another package, by the import path of its alias and the format of its full name
unfoldable pub analyze_external : Text → Text → Map Text → Option Text → Analyzed
analyze_external alias type_name formats none = err (unknown_alias alias)
analyze_external alias type_name formats (some path) =
    elim (lookup (path ++ b'.' ∷ type_name) formats) [
      | none ↦ err (unknown_external (path ++ b'.' ∷ type_name))
      | some format ↦ ok (primitive type_string format, [])
    ]

-- `imports` is `currentFileImports`.
unfoldable pub analyze_go_type : (imports formats : Map Text) → Expr → Analyzed
unfolding analyze_ident analyze_external
analyze_go_type imports formats (ident type_name) =
    analyze_ident type_name (lookup type_name primitive_type_mappings)
analyze_go_type imports formats (star x) = do
  inner ← analyze_go_type imports formats x
  ok (with_nullable inner.0, inner.1)
analyze_go_type imports formats (array_type element) = do
  elem ← analyze_go_type imports formats element
  ok (field_type FieldKind.array (codes "array") [] false false (ref elem.0) null null, elem.1)
analyze_go_type imports formats (map_type key element) = do
  k ← wrap in_key (analyze_go_type imports formats key)
  v ← analyze_go_type imports formats element
  ok (
    field_type FieldKind.object (codes "object") [] false false null (ref v.0) (ref k.0),
    k.1 ++ v.1,
  )
analyze_go_type imports formats (selector (ident alias) type_name) =
    analyze_external alias type_name formats (lookup alias imports)
analyze_go_type imports formats (selector x type_name) = err unsupported_selector
analyze_go_type imports formats other_expr = err unsupported_expression
