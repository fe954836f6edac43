-- ===== src/Generate/Tests/Sources.antt =====
-- The extraction from a file with two structs and an enum.
use go_http_mqtt_boilerplate.Prelude.{
  ◌≡◌, refl, true, false, none, some, List, [], ◌∷◌, map, All, All-lookup, Text, codes, lookup,
  has_key, text_eq_inst, text_eq, member, Result, ok, err, join, split, insert, is_ok,
}
use go_http_mqtt_boilerplate.Generate.DocTypes.{FieldKind, FieldType, field_type, null, ref}
use go_http_mqtt_boilerplate.Generate.Marks.{Types}
use go_http_mqtt_boilerplate.Generate.OpenApi.Schema.{SchemaRef, build_schema, ref_text}
use go_http_mqtt_boilerplate.Generate.OpenApi.Refs.{refs_in, field_refs}
use go_http_mqtt_boilerplate.Generate.OpenApi.Closed.{type_refs}
use go_http_mqtt_boilerplate.Generate.Extract.Ast.{
  Expr, ident, star, array_type, map_type, Field, struct_type, plain_type, TypeSpec, string_literal,
  basic_lit, ValueSpec, Decl, type_decl, const_decl, File,
}
use go_http_mqtt_boilerplate.Generate.Extract.Analyze.{
  primitive_type_mappings, analyze_external, analyze_ident, analyze_go_type, external_type_formats,
  primitive,
}
use go_http_mqtt_boilerplate.Generate.Extract.Comments.{
  Library, parse_deprecation, extract_comments_from_doc, parse_json_tag, generate_display_type,
  comment_line, index, strip_prefix, tag_info, trim_left, trim_right, trim_space, trim_text,
}
use go_http_mqtt_boilerplate.Generate.Extract.Enums.{
  spec_type, process_value_spec, process_enum_value, collect_specs, const_value,
  extract_enums_from_const_block, process_names, store_enum_type, no_values,
  extract_const_declarations,
}
use go_http_mqtt_boilerplate.Generate.Extract.Files.{
  add_type_names, build_import_alias_map, extract_type_fields, first_pass, imported_name,
  package_identifier, process_specs, process_type_spec_fields, second_pass, trim_left_quotes,
  trim_right_quotes, extract_type_names, extract_all_types_from_go,
}
use go_http_mqtt_boilerplate.Generate.Extract.Fields.{
  extract_type_expr, extract_struct_type, extract_field_info, analyze_field, extract_alias,
  extract_field, extract_fields, extract_names, is_enum_kind,
}
use go_http_mqtt_boilerplate.Generate.Extract.Fields.{
  extract_type_expr, extract_struct_type, extract_field_info, analyze_field, extract_alias,
  extract_field, extract_fields, extract_names, is_enum_kind,
}
use go_http_mqtt_boilerplate.Generate.Extract.Primitives.{has_string_keys}
use go_http_mqtt_boilerplate.Generate.Extract.Schemas.{analyze_go_type-build_schema}
use go_http_mqtt_boilerplate.Generate.Extract.Names.{AreExtracted}
use go_http_mqtt_boilerplate.Generate.Extract.Passes.{extract_all_types_from_go-AreExtracted}
use go_http_mqtt_boilerplate.Generate.Extract.Documented.{IsComplete}
use go_http_mqtt_boilerplate.Generate.Extract.Order.{IsBlank, extract_const_declarations-unexported}
use go_http_mqtt_boilerplate.Generate.Extract.Lost.{first_names, first_pass-IsBlank}

abbrev pub library : Library
library = record {
  is_exported = λ s. true;
  to_lower = λ s. s;
  title = λ s. s;
  json_tag = λ s. none;
  sorted_keys = λ names. names;
  unquote = λ s. some s;
  parse_int = λ s. some s;
}

abbrev field : Text → Expr → Field
field name type = record { names = name ∷ []; type = type; tag = none; doc = [] }

abbrev lead : Expr
lead = map_type (ident (codes "string")) (array_type (star (ident (codes "Member"))))

abbrev team_spec : TypeSpec
team_spec = record {
  name = codes "Team";
  type =
      struct_type (field (codes "Leads") lead ∷ field (codes "Kind") (ident (codes "Kind")) ∷ []);
  doc = none;
}

abbrev member_spec : TypeSpec
member_spec = record {
  name = codes "Member";
  type = struct_type (field (codes "Name") (ident (codes "string")) ∷ []);
  doc = none;
}

abbrev kind_spec : TypeSpec
kind_spec = record { name = codes "Kind"; type = plain_type (ident (codes "string")); doc = none }

abbrev kind_values : ValueSpec
kind_values = record {
  names = codes "KindA" ∷ [];
  type = some (ident (codes "Kind"));
  values = basic_lit string_literal (codes "a") ∷ [];
  doc = none;
  comment = none;
}

abbrev pub file : File
file = record {
  imports = [];
  decls =
      type_decl (team_spec ∷ member_spec ∷ kind_spec ∷ []) none
      ∷ const_decl (kind_values ∷ [])
      ∷ [];
}

abbrev pub or_else : {E A : Type 0} → A → Result E A → A
or_else a (ok b) = b
or_else a (err e) = a

unfoldable pub types : Types
types = or_else [] (extract_all_types_from_go library [] external_type_formats (file ∷ []))

pub types-ok : extract_all_types_from_go library [] external_type_formats (file ∷ []) ≡ ok types
unfolding extract_all_types_from_go parse_deprecation extract_comments_from_doc join
    extract_const_declarations spec_type process_value_spec process_enum_value lookup insert text_eq
    extract_type_expr extract_struct_type extract_field_info parse_json_tag analyze_go_type
    primitive_type_mappings generate_display_type analyze_external analyze_ident comment_line index
    strip_prefix tag_info trim_left trim_right trim_space trim_text collect_specs const_value
    extract_enums_from_const_block process_names store_enum_type analyze_field extract_alias
    extract_field extract_fields extract_names is_enum_kind add_type_names build_import_alias_map
    extract_type_fields extract_type_names first_pass imported_name package_identifier process_specs
    process_type_spec_fields second_pass trim_left_quotes trim_right_quotes split types
types-ok = refl

types_complete : All (λ e. All (λ n. has_key n types ≡ true) (type_refs e.1)) types
unfolding extract_all_types_from_go parse_deprecation extract_comments_from_doc join
    extract_const_declarations spec_type process_value_spec process_enum_value lookup insert text_eq
    extract_type_expr extract_struct_type extract_field_info parse_json_tag analyze_go_type
    primitive_type_mappings generate_display_type analyze_external analyze_ident comment_line index
    strip_prefix tag_info trim_left trim_right trim_space trim_text collect_specs const_value
    extract_enums_from_const_block process_names store_enum_type analyze_field extract_alias
    extract_field extract_fields extract_names is_enum_kind add_type_names build_import_alias_map
    extract_type_fields extract_type_names first_pass imported_name package_identifier process_specs
    process_type_spec_fields second_pass trim_left_quotes trim_right_quotes split types type_refs
    field_refs
types_complete = ((refl, (refl, tt)), (tt, (tt, tt)))

pub complete : IsComplete types
complete name info h =
    All-lookup (λ k i. All (λ n. has_key n types ≡ true) (type_refs i)) types name info
      types_complete h

pub types-unnamed : has_key [] types ≡ false
unfolding extract_all_types_from_go parse_deprecation extract_comments_from_doc join
    extract_const_declarations spec_type process_value_spec process_enum_value lookup insert text_eq
    extract_type_expr extract_struct_type extract_field_info parse_json_tag analyze_go_type
    primitive_type_mappings generate_display_type analyze_external analyze_ident comment_line index
    strip_prefix tag_info trim_left trim_right trim_space trim_text collect_specs const_value
    extract_enums_from_const_block process_names store_enum_type analyze_field extract_alias
    extract_field extract_fields extract_names is_enum_kind add_type_names build_import_alias_map
    extract_type_fields extract_type_names first_pass imported_name package_identifier process_specs
    process_type_spec_fields second_pass trim_left_quotes trim_right_quotes split types
types-unnamed = refl

extract_all_types_from_go-AreExtracted_example : AreExtracted types
extract_all_types_from_go-AreExtracted_example =
    extract_all_types_from_go-AreExtracted library (λ n names h. h) [] external_type_formats
      (file ∷ []) types types-ok

abbrev lead_type : FieldType × List Text
lead_type = (
  field_type FieldKind.object (codes "object") [] false false null
      (ref (
        field_type FieldKind.array (codes "array") [] false false
          (ref (field_type FieldKind.reference (codes "Member") [] false true null null null)) null
          null))
      (ref (primitive (codes "string") [])),
  codes "Member" ∷ [],
)

lead-ok : analyze_go_type [] [] lead ≡ ok (lead_type.0, lead_type.1)
unfolding analyze_go_type analyze_ident primitive_type_mappings lookup text_eq
lead-ok = refl

analyze_go_type-build_schema_example :
    (is_ok (build_schema lead_type.0 []) ≡ has_string_keys lead)
    × ((s : SchemaRef) → build_schema lead_type.0 [] ≡ ok s → refs_in s ≡ map ref_text lead_type.1)
analyze_go_type-build_schema_example =
    analyze_go_type-build_schema [] [] lead lead_type.0 lead_type.1 [] lead-ok

-- a later file that declares the type of constants of an earlier one
abbrev later_decls : List Decl
later_decls = type_decl (kind_spec ∷ []) none ∷ []

abbrev later_file : File
later_file = record { imports = []; decls = later_decls }

later_types : Types
later_types = or_else [] (first_pass library [] [] (later_file ∷ []) types)

later_types-ok : first_pass library [] [] (later_file ∷ []) types ≡ ok later_types
unfolding later_types first_pass extract_type_names add_type_names parse_deprecation
    extract_comments_from_doc trim_space trim_left trim_right join build_import_alias_map
    extract_const_declarations
later_types-ok = refl

kind-declared : member (codes "Kind") (first_names (later_file ∷ [])) ≡ true
unfolding text_eq
kind-declared = refl

first_pass-IsBlank_example : IsBlank (codes "Kind") later_types
first_pass-IsBlank_example =
    first_pass-IsBlank library [] [] (later_file ∷ []) types later_types (codes "Kind") (λ e. cc e)
      kind-declared (tt, tt) later_types-ok

abbrev hidden : Library
hidden = record library { is_exported = λ s. false }

extract_const_declarations-unexported_example :
    extract_const_declarations hidden (const_decl (kind_values ∷ []) ∷ []) [] ≡ err no_values
extract_const_declarations-unexported_example =
    extract_const_declarations-unexported hidden kind_values [] [] [] (refl, tt)
