-- ===== src/Generate/Extract/Passes.antt =====
-- What the two passes over the files give to the collector, and so to the document.
use go_http_mqtt_boilerplate.Prelude.{
  ◌≡◌, refl, ◌∙◌, Option, none, some, List, [], ◌∷◌, Text, Map, lookup, text_eq_inst, ok, wrap,
  bind-ok_inv, wrap-ok_inv, ok-inj, arith,
}
use mathlib.Core.Path.{subst}
use go_http_mqtt_boilerplate.Generate.DocTypes.{TypeInfo}
use go_http_mqtt_boilerplate.Generate.Marks.{Types}
use go_http_mqtt_boilerplate.Generate.Extract.Ast.{
  Expr, ident, star, array_type, map_type, selector, other_expr, TypeExpr, struct_type, plain_type,
  TypeSpec, Decl, type_decl, const_decl, other_decl, File,
}
use go_http_mqtt_boilerplate.Generate.Extract.Analyze.{analyze_go_type}
use go_http_mqtt_boilerplate.Generate.Extract.Comments.{Library}
use go_http_mqtt_boilerplate.Generate.Extract.Fields.{
  bad_type, extract_fields, extract_struct_type, extract_alias, extract_type_expr,
}
use go_http_mqtt_boilerplate.Generate.Extract.Enums.{extract_const_declarations}
use go_http_mqtt_boilerplate.Generate.Extract.Files.{
  bad_declaration, bad_enum, build_import_alias_map, extract_type_names, process_found,
  process_type_spec_fields, process_specs, extract_type_fields, first_pass, second_pass,
  extract_all_types_from_go,
}
use go_http_mqtt_boilerplate.Generate.Extract.Listed.{extract_type_expr-IsListed, IsIn}
use go_http_mqtt_boilerplate.Generate.Extract.Names.{
  AreExtracted, found-IsExtracted, insert-AreExtracted, extract_const_declarations-AreExtracted,
  extract_type_names-AreExtracted,
}

module _ (lib : Library) where
  module _ (imports formats : Map Text) where
    extract_alias-unused :
        (expr : Expr) (info done : TypeInfo)
        → extract_alias lib imports formats expr info ≡ ok done
        → done.used_by_http ≡ info.used_by_http
    unfolding extract_alias
    extract_alias-unused expr info done h =
        let (r, analyzed, made) =
          bind-ok_inv (wrap bad_type (analyze_go_type imports formats expr)) _ done h in
        subst (λ i. i.used_by_http ≡ info.used_by_http) (ok-inj made) refl

    extract_type_expr-unused :
        (type : TypeExpr) (info done : TypeInfo)
        → extract_type_expr lib imports formats type info ≡ ok done
        → done.used_by_http ≡ info.used_by_http
    unfolding extract_type_expr extract_struct_type
    extract_type_expr-unused (struct_type fields) info done h =
        let (x, extracted, made) =
          bind-ok_inv (extract_fields lib imports formats fields ([], [])) _ done h in
        subst (λ i. i.used_by_http ≡ info.used_by_http) (ok-inj made) refl
    extract_type_expr-unused (plain_type (ident n)) info done h =
        extract_alias-unused (ident n) info done h
    extract_type_expr-unused (plain_type (array_type x)) info done h =
        extract_alias-unused (array_type x) info done h
    extract_type_expr-unused (plain_type (map_type k x)) info done h =
        extract_alias-unused (map_type k x) info done h
    extract_type_expr-unused (plain_type (star x)) info done h = ground (arith, h)
    extract_type_expr-unused (plain_type (selector x n)) info done h = ground (arith, h)
    extract_type_expr-unused (plain_type other_expr) info done h = ground (arith, h)

  -- `sorted_keys` loses no name.
  module _
      (keeps : (n : Text) (names : List Text) → IsIn names n → IsIn (lib.sorted_keys names) n) where
    process_found-AreExtracted :
        (imports formats : Map Text) (spec : TypeSpec) (types after : Types) (o : Option TypeInfo)
        → AreExtracted types
        → lookup spec.name types ≡ o
        → process_found lib imports formats spec types o ≡ ok after
        → AreExtracted after
    process_found-AreExtracted imports formats spec types after none a e h = ground (arith, h)
    process_found-AreExtracted imports formats spec types after (some info) a e h =
        let (done, made, stored) =
          bind-ok_inv (wrap bad_declaration (extract_type_expr lib imports formats spec.type info))
            _ after h in
        let extracted = wrap-ok_inv _ _ done made in
        subst AreExtracted (ok-inj stored) (
          insert-AreExtracted spec.name done types
            (record {
              listed =
                  extract_type_expr-IsListed lib imports formats keeps spec.type info done
                    extracted;
              unused =
                  extract_type_expr-unused imports formats spec.type info done extracted
                  ∙ (found-IsExtracted spec.name info types a e).unused;
            })
            a)

    process_specs-AreExtracted :
        (imports formats : Map Text) (specs : List TypeSpec) (types after : Types)
        → AreExtracted types
        → process_specs lib imports formats specs types ≡ ok after
        → AreExtracted after
    unfolding process_specs process_type_spec_fields
    process_specs-AreExtracted imports formats [] types after a h = subst AreExtracted (ok-inj h) a
    process_specs-AreExtracted imports formats (spec ∷ specs) types after a h =
        let (now, first, rest) =
          bind-ok_inv (process_type_spec_fields lib imports formats spec types) _ after h in
        process_specs-AreExtracted imports formats specs now after
          (process_found-AreExtracted imports formats spec types now (lookup spec.name types) a refl
            first)
          rest

    extract_type_fields-AreExtracted :
        (imports formats : Map Text) (decls : List Decl) (types after : Types)
        → AreExtracted types
        → extract_type_fields lib imports formats decls types ≡ ok after
        → AreExtracted after
    unfolding extract_type_fields
    extract_type_fields-AreExtracted imports formats [] types after a h =
        subst AreExtracted (ok-inj h) a
    extract_type_fields-AreExtracted imports formats (type_decl specs d ∷ decls) types after a h =
        let (now, first, rest) =
          bind-ok_inv (process_specs lib imports formats specs types) _ after h in
        extract_type_fields-AreExtracted imports formats decls now after
          (process_specs-AreExtracted imports formats specs types now a first) rest
    extract_type_fields-AreExtracted imports formats (const_decl s ∷ decls) types after a h =
        extract_type_fields-AreExtracted imports formats decls types after a h
    extract_type_fields-AreExtracted imports formats (other_decl ∷ decls) types after a h =
        extract_type_fields-AreExtracted imports formats decls types after a h

    module _ (packages : List (Map Text)) (formats : Map Text) where
      first_pass-AreExtracted :
          (files : List File) (types after : Types)
          → AreExtracted types
          → first_pass lib packages formats files types ≡ ok after
          → AreExtracted after
      unfolding first_pass
      first_pass-AreExtracted [] types after a h = subst AreExtracted (ok-inj h) a
      first_pass-AreExtracted (file ∷ files) types after a h =
          let (imports, i, h1) =
            bind-ok_inv (build_import_alias_map packages file.imports []) _ after h in
          let (named, n, h2) = bind-ok_inv (extract_type_names lib file.decls types) _ after h1 in
          let (now, c, rest) =
            bind-ok_inv (wrap bad_enum (extract_const_declarations lib file.decls named)) _ after
              h2 in
          first_pass-AreExtracted files now after
            (extract_const_declarations-AreExtracted lib file.decls named now
              (extract_type_names-AreExtracted lib file.decls types named a n)
              (wrap-ok_inv _ _ now c))
            rest

      second_pass-AreExtracted :
          (files : List File) (types after : Types)
          → AreExtracted types
          → second_pass lib packages formats files types ≡ ok after
          → AreExtracted after
      unfolding second_pass
      second_pass-AreExtracted [] types after a h = subst AreExtracted (ok-inj h) a
      second_pass-AreExtracted (file ∷ files) types after a h =
          let (imports, i, h1) =
            bind-ok_inv (build_import_alias_map packages file.imports []) _ after h in
          let (now, f, rest) =
            bind-ok_inv (extract_type_fields lib imports formats file.decls types) _ after h1 in
          second_pass-AreExtracted files now after
            (extract_type_fields-AreExtracted imports formats file.decls types now a f) rest

      -- Where the sorting of the references loses no name, the types of a successful extraction have
      -- distinct names, each has references that list all types that its declaration names, and
      -- none has the mark of HTTP.
      pub extract_all_types_from_go-AreExtracted :
          (files : List File) (types : Types)
          → extract_all_types_from_go lib packages formats files ≡ ok types
          → AreExtracted types
      unfolding extract_all_types_from_go
      extract_all_types_from_go-AreExtracted files types h =
          let (named, first, second) =
            bind-ok_inv (first_pass lib packages formats files []) _ types h in
          second_pass-AreExtracted files named types
            (first_pass-AreExtracted files [] named (record { distinct = tt; each = tt }) first)
            second
