-- ===== src/Generate/Extract/Fields.antt =====
-- The structs and aliases of backend/pkg/generate/collector_ast.go: from the declaration of a type to
-- its fields and references. The prefixes that wrap an error's text are left out.
use go_http_mqtt_boilerplate.Prelude.{
  Bool, true, false, not, ◌&&◌, Option, none, some, List, [], ◌∷◌, ◌++◌, Text, Map, text_eq_inst,
  if◌then◌else◌, Result, ok, err, ◌>>=◌, wrap,
}
use go_http_mqtt_boilerplate.Generate.DocTypes.{
  TypeKind, FieldKind, FieldType, field_type, FieldInfo, TypeInfo,
}
use go_http_mqtt_boilerplate.Generate.Extract.Ast.{
  Expr, ident, array_type, map_type, Field, TypeExpr, struct_type, plain_type,
}
use go_http_mqtt_boilerplate.Generate.Extract.Analyze.{AnalyzeError, analyze_go_type}
use go_http_mqtt_boilerplate.Generate.Extract.Comments.{
  Library, CommentError, extract_comments_from_doc, parse_deprecation, generate_display_type,
  JsonTagInfo, parse_json_tag,
}

pub data ExtractError : Type 0 where
  embedded_field unsupported_type : ExtractError
  bad_type : AnalyzeError → ExtractError
  bad_comment : CommentError → ExtractError
  bad_display : FieldKind → ExtractError

abbrev pub set_required : Bool → FieldType → FieldType
set_required required (field_type kind type f r n i a k) = field_type kind type f required n i a k

abbrev pub is_nullable : FieldType → Bool
is_nullable (field_type kind type f r n i a k) = n

abbrev pub is_field_required : JsonTagInfo → FieldType → Bool
is_field_required tag ft = not (is_nullable ft) && not tag.omitempty

unfoldable pub is_enum_kind : TypeKind → Bool
is_enum_kind TypeKind.string_enum = true
is_enum_kind TypeKind.number_enum = true
is_enum_kind _ = false

module _ (lib : Library) (imports formats : Map Text) where
  -- a field that is not to be skipped
  unfoldable pub analyze_field : JsonTagInfo → Field → Result ExtractError (FieldInfo × List Text)
  analyze_field tag field = do
    analyzed ← wrap bad_type (analyze_go_type imports formats field.type)
    doc ← wrap bad_comment (parse_deprecation lib.to_lower (extract_comments_from_doc field.doc))
    display_type ← wrap bad_display (
        generate_display_type lib.title
          (set_required (is_field_required tag analyzed.0) analyzed.0))
    ok (
      record {
        name = tag.name;
        display_type = display_type;
        type_info = set_required (is_field_required tag analyzed.0) analyzed.0;
        description = doc.1;
        deprecated = doc.0;
      },
      analyzed.1,
    )

  -- none for `ErrFieldSkipped`
  unfoldable pub extract_field_info :
      Text → Field → Option (Result ExtractError (FieldInfo × List Text))
  unfolding analyze_field
  extract_field_info field_name field =
      let tag = parse_json_tag lib.json_tag field.tag field_name in
      if tag.skip then none else some (analyze_field tag field)

  -- the fields and references so far
  abbrev pub Extracted : Type 0
  Extracted = List FieldInfo × List Text

  -- one more field, unless it was skipped
  abbrev pub add_found :
      Option (Result ExtractError (FieldInfo × List Text))
      → Extracted
      → Result ExtractError Extracted
  add_found none done = ok done
  add_found (some result) done = result >>= λ found. ok (done.0 ++ found.0 ∷ [], done.1 ++ found.1)

  -- the loop over the names of a field
  unfoldable pub extract_names : List Text → Field → Extracted → Result ExtractError Extracted
  extract_names [] field done = ok done
  extract_names (name ∷ names) field done =
      (if not (lib.is_exported name)
        then ok done
        else add_found (extract_field_info name field) done)
      >>= λ now. extract_names names field now

  -- embedded fields have no names
  unfoldable pub extract_field : Field → Extracted → Result ExtractError Extracted
  unfolding extract_names
  extract_field field done = elim field.names [
    | [] ↦ err embedded_field
    | name ∷ names ↦ extract_names (name ∷ names) field done
  ]

  unfoldable pub extract_fields : List Field → Extracted → Result ExtractError Extracted
  unfolding extract_field
  extract_fields [] done = ok done
  extract_fields (field ∷ fields) done =
      extract_field field done >>= λ now. extract_fields fields now

  -- The set of the references is kept as a list; `sorted_keys` gives the sorted keys of the set.
  unfoldable pub extract_struct_type : List Field → TypeInfo → Result ExtractError TypeInfo
  unfolding extract_fields
  extract_struct_type fields info = do
    extracted ← extract_fields fields ([], [])
    ok (record info {
      kind = TypeKind.object;
      fields = extracted.0;
      references = lib.sorted_keys extracted.1;
    })

  unfoldable pub extract_alias : Expr → TypeInfo → Result ExtractError TypeInfo
  unfolding is_enum_kind
  extract_alias expr info = do
    analyzed ← wrap bad_type (analyze_go_type imports formats expr)
    ok (record info {
      kind = (if is_enum_kind info.kind then info.kind else TypeKind.alias);
      underlying_type = some analyzed.0;
      references = analyzed.1;
    })

  unfoldable pub extract_type_expr : TypeExpr → TypeInfo → Result ExtractError TypeInfo
  extract_type_expr (struct_type fields) info = extract_struct_type fields info
  extract_type_expr (plain_type (ident name)) info = extract_alias (ident name) info
  extract_type_expr (plain_type (array_type element)) info = extract_alias (array_type element) info
  extract_type_expr (plain_type (map_type key element)) info =
      extract_alias (map_type key element) info
  extract_type_expr (plain_type expr) info = err unsupported_type
