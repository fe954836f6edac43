-- ===== src/Generate/Extract/Files.antt =====
-- The two passes over the files of backend/pkg/generate/collector_ast.go. The declarations that are kept
-- for the printing of sources are left out. An import's path is a literal with its quotes.
use go_http_mqtt_boilerplate.Prelude.{
  Option, none, some, List, [], ◌∷◌, Text, Map, lookup, insert, text_eq_inst, nat_eq, ◌==◌, ◌&&◌,
  if◌then◌else◌, Result, ok, err, ◌>>=◌, wrap,
}
use go_http_mqtt_boilerplate.Mqtt.Topic.{is_empty}
use go_http_mqtt_boilerplate.Generate.DocTypes.{TypeInfo}
use go_http_mqtt_boilerplate.Generate.Marks.{Types}
use go_http_mqtt_boilerplate.Generate.Extract.Ast.{
  CommentGroup, TypeSpec, Decl, type_decl, ImportSpec, File,
}
use go_http_mqtt_boilerplate.Generate.Extract.Comments.{
  Library, CommentError, extract_comments_from_doc, parse_deprecation,
}
use go_http_mqtt_boilerplate.Generate.Extract.Fields.{ExtractError, extract_type_expr}
use go_http_mqtt_boilerplate.Generate.Extract.Enums.{EnumError, stub, extract_const_declarations}

-- `nil_type` stands for the panic at a type that the first pass has not seen.
pub data FileError : Type 0 where
  unknown_import unnamed_package : Text → FileError
  nil_type : Text → FileError
  bad_description : CommentError → FileError
  bad_declaration : ExtractError → FileError
  bad_enum : EnumError → FileError

unfoldable pub trim_left_quotes : Text → Text
trim_left_quotes [] = []
trim_left_quotes (c ∷ s) = let rest = trim_left_quotes s in if c == b'"' then rest else c ∷ s

unfoldable pub trim_right_quotes : Text → Text
trim_right_quotes [] = []
trim_right_quotes (c ∷ s) =
    let rest = trim_right_quotes s in if c == b'"' && is_empty rest then [] else c ∷ rest

-- The name of an imported package, in the first loaded package that has the import. A loaded package
-- is the map from its imports' paths to their packages' names.
unfoldable pub imported_name : List (Map Text) → Text → Option Text
imported_name [] path = none
imported_name (loaded ∷ packages) path =
    let later = imported_name packages path in
    elim (lookup path loaded) [ none ↦ later | some name ↦ some name ]

unfoldable pub package_identifier : List (Map Text) → Text → Option Text → Result FileError Text
unfolding imported_name
package_identifier packages path (some alias) = ok alias
package_identifier packages path none = elim (imported_name packages path) [
  | none ↦ err (unknown_import path)
  | some [] ↦ err (unnamed_package path)
  | some (c ∷ name) ↦ ok (c ∷ name)
]

unfoldable pub build_import_alias_map :
    List (Map Text) → List ImportSpec → Map Text → Result FileError (Map Text)
unfolding package_identifier trim_left_quotes trim_right_quotes
build_import_alias_map packages [] imports = ok imports
build_import_alias_map packages (imp ∷ imps) imports = do
  identifier ← package_identifier packages (trim_right_quotes (trim_left_quotes imp.path)) imp.name
  build_import_alias_map packages imps
      (insert identifier (trim_right_quotes (trim_left_quotes imp.path)) imports)

-- the comment of the type, or else that of the whole declaration
abbrev pub type_comment : Option CommentGroup → Option CommentGroup → CommentGroup
type_comment (some doc) whole = doc
type_comment none (some doc) = doc
type_comment none none = []

module _ (lib : Library) where
  unfoldable pub add_type_names :
      List TypeSpec → Option CommentGroup → Types → Result FileError Types
  add_type_names [] doc types = ok types
  add_type_names (spec ∷ specs) doc types = do
    parsed ←
        wrap bad_description
          (parse_deprecation lib.to_lower (extract_comments_from_doc (type_comment spec.doc doc)))
    add_type_names specs doc (insert spec.name (stub spec.name parsed.1 parsed.0) types)

  unfoldable pub extract_type_names : List Decl → Types → Result FileError Types
  unfolding add_type_names
  extract_type_names [] types = ok types
  extract_type_names (type_decl specs doc ∷ decls) types =
      add_type_names specs doc types >>= λ now. extract_type_names decls now
  extract_type_names (decl ∷ decls) types = extract_type_names decls types

  module _ (imports formats : Map Text) where
    -- the declaration of a type that the first pass has stored
    abbrev pub process_found : TypeSpec → Types → Option TypeInfo → Result FileError Types
    process_found spec types none = err (nil_type spec.name)
    process_found spec types (some info) =
        wrap bad_declaration (extract_type_expr lib imports formats spec.type info) >>= λ done.
        ok (insert spec.name done types)

    unfoldable pub process_type_spec_fields : TypeSpec → Types → Result FileError Types
    process_type_spec_fields spec types = process_found spec types (lookup spec.name types)

    unfoldable pub process_specs : List TypeSpec → Types → Result FileError Types
    unfolding process_type_spec_fields
    process_specs [] types = ok types
    process_specs (spec ∷ specs) types =
        process_type_spec_fields spec types >>= λ now. process_specs specs now

    unfoldable pub extract_type_fields : List Decl → Types → Result FileError Types
    unfolding process_specs
    extract_type_fields [] types = ok types
    extract_type_fields (type_decl specs doc ∷ decls) types =
        process_specs specs types >>= λ now. extract_type_fields decls now
    extract_type_fields (decl ∷ decls) types = extract_type_fields decls types

  module _ (packages : List (Map Text)) (formats : Map Text) where
    -- The first pass needs no imports, but fails where they do.
    unfoldable pub first_pass : List File → Types → Result FileError Types
    unfolding build_import_alias_map extract_type_names
    first_pass [] types = ok types
    first_pass (file ∷ files) types = do
      imports ← build_import_alias_map packages file.imports []
      named ← extract_type_names file.decls types
      now ← wrap bad_enum (extract_const_declarations lib file.decls named)
      first_pass files now

    unfoldable pub second_pass : List File → Types → Result FileError Types
    unfolding build_import_alias_map extract_type_fields
    second_pass [] types = ok types
    second_pass (file ∷ files) types = do
      imports ← build_import_alias_map packages file.imports []
      now ← extract_type_fields imports formats file.decls types
      second_pass files now

    unfoldable pub extract_all_types_from_go : List File → Result FileError Types
    unfolding first_pass second_pass
    extract_all_types_from_go files = first_pass files [] >>= λ types. second_pass files types
