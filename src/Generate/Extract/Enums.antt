-- ===== src/Generate/Extract/Enums.antt =====
-- backend/pkg/generate/collector_enum.go: the enums of the const blocks.
use go_http_mqtt_boilerplate.Prelude.{
  ℕ, zero, suc, Bool, true, false, not, ◌||◌, all, Option, none, some, List, [], ◌∷◌, ◌++◌, Text,
  lookup, insert, text_eq_inst, ◌==◌, if◌then◌else◌, Result, ok, err, ◌>>=◌, wrap,
}
use go_http_mqtt_boilerplate.Mqtt.Topic.{is_empty}
use go_http_mqtt_boilerplate.Generate.DocTypes.{
  TypeKind, EnumConst, string, int64, EnumValue, TypeInfo,
}
use go_http_mqtt_boilerplate.Generate.Marks.{Types}
use go_http_mqtt_boilerplate.Generate.Extract.Ast.{
  Expr, ident, CommentGroup, int_literal, string_literal, other_literal, ConstValue, basic_lit,
  no_literal, ValueSpec, Decl, const_decl,
}
use go_http_mqtt_boilerplate.Generate.Extract.Comments.{
  Library, CommentError, extract_comments_from_doc, parse_deprecation,
}

pub data EnumError : Type 0 where
  empty_const_block no_enum_type untyped bad_const_type unexported missing_value : EnumError
  not_literal bad_string bad_integer bad_literal no_values : EnumError
  mixed_types : Text → Text → EnumError
  bad_doc : CommentError → EnumError

abbrev nth : {A : Type 0} → ℕ → List A → Option A
nth n [] = none
nth zero (x ∷ xs) = some x
nth (suc n) (x ∷ xs) = nth n xs

abbrev or_fail : {A : Type 0} → EnumError → Option A → Result EnumError A
or_fail e none = err e
or_fail e (some a) = ok a

-- the comment in front of the constant, or else that behind it
abbrev pub spec_comment : ValueSpec → CommentGroup
spec_comment spec = elim spec.doc [
  | some doc ↦ doc
  | none ↦ elim spec.comment [ some comment ↦ comment | none ↦ [] ]
]

-- a new type with a name, all else at the zero values
abbrev pub stub : Text → Text → Text → TypeInfo
stub name description deprecated = record {
  name = name;
  kind = TypeKind.other [];
  description = description;
  deprecated = deprecated;
  fields = [];
  enum_values = [];
  references = [];
  referenced_by = [];
  used_by = [];
  representations = record { json = []; json_schema = []; yaml_schema = []; go = []; ts = [] };
  used_by_http = false;
  used_by_mqtt = false;
  underlying_type = none;
}

module _ (lib : Library) where
  -- the switch over the value
  unfoldable pub const_value : Option ConstValue → Result EnumError EnumConst
  const_value none = err missing_value
  const_value (some no_literal) = err not_literal
  const_value (some (basic_lit string_literal text)) =
      or_fail bad_string (lib.unquote text) >>= λ s. ok (string s)
  const_value (some (basic_lit int_literal text)) =
      or_fail bad_integer (lib.parse_int text) >>= λ digits. ok (int64 digits)
  const_value (some (basic_lit other_literal text)) = err bad_literal

  unfoldable pub process_enum_value : ValueSpec → ℕ → Result EnumError EnumValue
  unfolding const_value
  process_enum_value spec i = do
    value ← const_value (nth i spec.values)
    doc ←
        wrap bad_doc
          (parse_deprecation lib.to_lower (extract_comments_from_doc (spec_comment spec)))
    ok (record { value = value; description = doc.1; deprecated = doc.0 })

  -- the loop over the names, from the index of the first
  unfoldable pub process_names : ValueSpec → ℕ → List Text → Result EnumError (List EnumValue)
  process_names spec i [] = ok []
  process_names spec i (name ∷ names) =
      let rest = process_names spec (suc i) names in
      if not (lib.is_exported name)
      then rest
      else do value ← process_enum_value spec i; values ← rest; ok (value ∷ values)

  unfoldable pub process_value_spec : ValueSpec → Result EnumError (List EnumValue)
  unfolding process_names
  process_value_spec spec = process_names spec 0 spec.names

  -- the name of the type of the constants, where the enum so far has the given name
  unfoldable pub spec_type : Text → Option Expr → Result EnumError Text
  spec_type enum_type_name none = err (if is_empty enum_type_name then no_enum_type else untyped)
  spec_type enum_type_name (some (ident name)) =
      if is_empty enum_type_name || name == enum_type_name
      then ok name
      else err (mixed_types enum_type_name name)
  spec_type enum_type_name (some expr) = err bad_const_type

  -- the loop over the specs, with the name of the enum and the values so far
  unfoldable pub collect_specs :
      List ValueSpec → Text → List EnumValue → Result EnumError (Text × List EnumValue)
  collect_specs [] enum_type_name values = ok (enum_type_name, values)
  collect_specs (spec ∷ specs) enum_type_name values =
      let skipped = collect_specs specs enum_type_name values in
      let collected = spec_type enum_type_name spec.type >>= λ name.
      process_value_spec spec >>= λ more. collect_specs specs name (values ++ more) in
      if all lib.is_exported spec.names
      then collected
      else if is_empty enum_type_name
      then skipped
      else err unexported

abbrev pub enum_kind : EnumConst → TypeKind
enum_kind (int64 digits) = TypeKind.number_enum
enum_kind (string s) = TypeKind.string_enum

unfoldable pub store_enum_type : Text → List EnumValue → Types → Result EnumError Types
store_enum_type enum_type_name [] types = err no_values
store_enum_type enum_type_name (first ∷ rest) types = ok (elim (lookup enum_type_name types) [
  | some info ↦
      insert enum_type_name
        (record info { kind = enum_kind first.value; enum_values = first ∷ rest }) types
  | none ↦
      insert enum_type_name
        (record (stub enum_type_name [] []) {
          kind = enum_kind first.value;
          enum_values = first ∷ rest;
        })
        types
])

-- errors.Is(err, ErrEmptyConstBlock) || errors.Is(err, ErrNoEnumType)
abbrev pub is_no_enum : EnumError → Bool
is_no_enum empty_const_block = true
is_no_enum no_enum_type = true
is_no_enum _ = false

-- the blocks that are not of an enum are skipped
abbrev pub or_skip : Types → Result EnumError Types → Result EnumError Types
or_skip types (ok now) = ok now
or_skip types (err e) = if is_no_enum e then ok types else err e

module _ (lib : Library) where
  unfoldable pub extract_enums_from_const_block : List ValueSpec → Types → Result EnumError Types
  unfolding collect_specs store_enum_type
  extract_enums_from_const_block [] types = err empty_const_block
  extract_enums_from_const_block (spec ∷ specs) types =
      collect_specs lib (spec ∷ specs) [] [] >>= λ collected.
      store_enum_type collected.0 collected.1 types

  unfoldable pub extract_const_declarations : List Decl → Types → Result EnumError Types
  unfolding extract_enums_from_const_block
  extract_const_declarations [] types = ok types
  extract_const_declarations (const_decl specs ∷ decls) types =
      or_skip types (extract_enums_from_const_block specs types) >>= λ now.
      extract_const_declarations decls now
  extract_const_declarations (decl ∷ decls) types = extract_const_declarations decls types
