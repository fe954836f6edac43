-- ===== src/Generate/Extract/Lost.antt =====
-- Enums whose constants stand in a file in front of that of their type, in the whole first pass.
use go_http_mqtt_boilerplate.Prelude.{
  ◌≡◌, ◌≢◌, ap, sym, ◌∙◌, ◌⊎◌, inl, inr, true, Bool-cases, Option, none, some, Option-cases, List,
  [], ◌∷◌, ◌++◌, all, All, Text, Map, lookup, insert, lookup-insert, text_eq_iff, text_eq_inst,
  member, Result, ok, err, ◌>>=◌, wrap, wrap-ok_inv, bind-ok_inv, ok-inj, arith,
}
use mathlib.Core.Path.{subst}
use go_http_mqtt_boilerplate.Generate.DocTypes.{TypeInfo, EnumValue}
use go_http_mqtt_boilerplate.Generate.Marks.{Types}
use go_http_mqtt_boilerplate.Generate.Extract.Ast.{
  Expr, ident, ValueSpec, Decl, type_decl, const_decl, other_decl, File,
}
use go_http_mqtt_boilerplate.Generate.Extract.Comments.{Library}
use go_http_mqtt_boilerplate.Generate.Extract.Enums.{
  EnumError, spec_type, process_value_spec, collect_specs, store_enum_type, or_skip,
  extract_enums_from_const_block, extract_const_declarations,
}
use go_http_mqtt_boilerplate.Generate.Extract.Files.{
  bad_enum, build_import_alias_map, extract_type_names, first_pass,
}
use go_http_mqtt_boilerplate.Generate.Extract.Order.{
  IsBlank, declared_names, declared_names-IsBlank, member-append,
}

-- the names of the types that the files declare
abbrev pub first_names : List File → List Text
first_names [] = []
first_names (file ∷ files) = declared_names file.decls ++ first_names files

module _ (name : Text) where
  -- No constant of the declarations has the named type.
  abbrev pub HasNoConstants : List Decl → Type 0
  HasNoConstants [] = Unit
  HasNoConstants (const_decl specs ∷ decls) =
      All (λ (s : ValueSpec). s.type ≢ some (ident name)) specs × HasNoConstants decls
  HasNoConstants (type_decl specs doc ∷ decls) = HasNoConstants decls
  HasNoConstants (other_decl ∷ decls) = HasNoConstants decls

  insert_other-IsBlank :
      (key : Text) (info : TypeInfo) (types : Types)
      → key ≢ name
      → IsBlank name types
      → IsBlank name (insert key info types)
  insert_other-IsBlank key info types n b = record {
    info = b.info;
    found = ground (arith, lookup-insert key name info types, text_eq_iff key name, b.found);
    kind = b.kind;
    values = b.values;
  }

  store_enum_type-IsBlank :
      (key : Text) (values : List EnumValue) (types after : Types)
      → key ≢ name
      → store_enum_type key values types ≡ ok after
      → IsBlank name types
      → IsBlank name after
  unfolding store_enum_type
  store_enum_type-IsBlank key [] types after n h b = absurd (ground (arith, h))
  store_enum_type-IsBlank key (v ∷ values) types after n h b =
      elim (Option-cases (lookup key types)) [
        | inl new ↦
            subst (IsBlank name) (ok-inj (rw (new, store_enum_type) at h))
              (insert_other-IsBlank key _ types n b)
        | inr (info, old) ↦
            subst (IsBlank name) (ok-inj (rw (old, store_enum_type) at h))
              (insert_other-IsBlank key _ types n b)
      ]

  module _ (lib : Library) where
    spec_type-ident :
        (e : Text) (type : Option Expr) (n : Text)
        → spec_type lib e type ≡ ok n
        → type ≡ some (ident n)
    unfolding spec_type
    spec_type-ident e none n h = ground arith
    spec_type-ident e (some (ident m)) n h = ground arith
    spec_type-ident e (some expr) n h = ground arith

    collect_specs-ne :
        (specs : List ValueSpec) (start : Text) (values : List EnumValue)
        (found : Text × List EnumValue)
        → start ≢ name
        → All (λ (s : ValueSpec). s.type ≢ some (ident name)) specs
        → collect_specs lib specs start values ≡ ok found
        → found.0 ≢ name
    unfolding collect_specs
    collect_specs-ne [] start values found n without h = λ e. n (ap (λ f. f.0) (ok-inj h) ∙ e)
    collect_specs-ne (spec ∷ specs) start values found n (here, later) h =
        elim (Bool-cases (all lib.is_exported spec.names)) [
          | inl exported ↦
              let (t, typed, rest) =
                bind-ok_inv (spec_type lib start spec.type)
                  (λ t. process_value_spec lib spec >>= λ more.
                    collect_specs lib specs t (values ++ more))
                  found (ground (arith, h, exported)) in
              let (more, valued, last) =
                bind-ok_inv (process_value_spec lib spec)
                  (λ more. collect_specs lib specs t (values ++ more)) found rest in
              collect_specs-ne specs t (values ++ more) found
                (λ e. here (spec_type-ident start spec.type t typed ∙ ap (λ x. some (ident x)) e))
                later last
          | inr hidden ↦
              collect_specs-ne specs start values found n later (ground (arith, h, hidden))
        ]

    extract_enums-IsBlank :
        (specs : List ValueSpec) (types after : Types)
        → name ≢ []
        → All (λ (s : ValueSpec). s.type ≢ some (ident name)) specs
        → extract_enums_from_const_block lib specs types ≡ ok after
        → IsBlank name types
        → IsBlank name after
    unfolding extract_enums_from_const_block
    extract_enums-IsBlank [] types after nonempty without h b = absurd (ground (arith, h))
    extract_enums-IsBlank (spec ∷ specs) types after nonempty without h b =
        let (found, collected, stored) =
          bind-ok_inv (collect_specs lib (spec ∷ specs) [] []) _ after h in
        store_enum_type-IsBlank found.0 found.1 types after
          (collect_specs-ne (spec ∷ specs) [] [] found (λ e. nonempty (sym e)) without collected)
          stored b

    or_skip-IsBlank :
        (types now : Types) (r : Result EnumError Types)
        → or_skip types r ≡ ok now
        → ((after : Types) → r ≡ ok after → IsBlank name after)
        → IsBlank name types
        → IsBlank name now
    or_skip-IsBlank types now (ok after) h stored b = stored now (h)
    or_skip-IsBlank types now (err e) h stored b = subst (IsBlank name) (ground (arith, h)) b

    extract_const_declarations-IsBlank :
        (decls : List Decl) (types after : Types)
        → name ≢ []
        → HasNoConstants decls
        → extract_const_declarations lib decls types ≡ ok after
        → IsBlank name types
        → IsBlank name after
    unfolding extract_const_declarations
    extract_const_declarations-IsBlank [] types after nonempty without h b =
        subst (IsBlank name) (ok-inj h) b
    extract_const_declarations-IsBlank (const_decl specs ∷ decls) types after nonempty without h b =
        let (now, skipped, rest) =
          bind-ok_inv (or_skip types (extract_enums_from_const_block lib specs types)) _ after h in
        extract_const_declarations-IsBlank decls now after nonempty without.1 rest (
          or_skip-IsBlank types now (extract_enums_from_const_block lib specs types) skipped
            (λ done e. extract_enums-IsBlank specs types done nonempty without.0 e b) b)
    extract_const_declarations-IsBlank (type_decl specs doc ∷ decls) types after nonempty without h
          b =
        extract_const_declarations-IsBlank decls types after nonempty without h b
    extract_const_declarations-IsBlank (other_decl ∷ decls) types after nonempty without h b =
        extract_const_declarations-IsBlank decls types after nonempty without h b

    module _ (packages : List (Map Text)) (formats : Map Text) where
      first_pass_from-IsBlank :
          (files : List File) (types after : Types)
          → name ≢ []
          → All (λ (f : File). HasNoConstants f.decls) files
          → IsBlank name types ⊎ (member name (first_names files) ≡ true)
          → first_pass lib packages formats files types ≡ ok after
          → IsBlank name after
      unfolding first_pass
      first_pass_from-IsBlank [] types after nonempty without (inl b) h =
          subst (IsBlank name) (ok-inj h) b
      first_pass_from-IsBlank [] types after nonempty without (inr m) h = absurd (ground (arith, m))
      first_pass_from-IsBlank (file ∷ files) types after nonempty without d h =
          let (imports, built, named_then) =
            bind-ok_inv (build_import_alias_map packages file.imports []) _ after h in
          let (named, extracted, wrapped_then) =
            bind-ok_inv (extract_type_names lib file.decls types) _ after named_then in
          let (now, wrapped, rest) =
            bind-ok_inv (wrap bad_enum (extract_const_declarations lib file.decls named)) _ after
              wrapped_then in
          let stored =
            wrap-ok_inv bad_enum (extract_const_declarations lib file.decls named) now wrapped in
          first_pass_from-IsBlank files now after nonempty without.1
            (next_file named now extracted stored d) rest
        where
          next_file :
              (named now : Types)
              → extract_type_names lib file.decls types ≡ ok named
              → extract_const_declarations lib file.decls named ≡ ok now
              → IsBlank name types ⊎ (member name (first_names (file ∷ files)) ≡ true)
              → IsBlank name now ⊎ (member name (first_names files) ≡ true)
          next_file named now e f (inl b) = inl (
              extract_const_declarations-IsBlank file.decls named now nonempty without.0 f
                (declared_names-IsBlank name lib file.decls types named e (inl b)))
          next_file named now e f (inr m) =
              elim (Bool-cases (member name (declared_names file.decls))) [
                | inl here ↦ inl (
                    extract_const_declarations-IsBlank file.decls named now nonempty without.0 f
                      (declared_names-IsBlank name lib file.decls types named e (inr here)))
                | inr other ↦ inr (
                    ground (
                      arith,
                      m,
                      other,
                      member-append name (declared_names file.decls) (first_names files),
                    ))
              ]

-- The first pass over files, from any types that it has stored for the files in front of them: a type
-- with a name that some of the files declares is left without the kind and the values of an enum if
-- no constant in these files has the type, also where the constants in a file in front of them had
-- given it both.
pub first_pass-IsBlank :
    (lib : Library) (packages : List (Map Text)) (formats : Map Text) (files : List File)
    (types after : Types) (name : Text)
    → name ≢ []
    → member name (first_names files) ≡ true
    → All (λ (f : File). HasNoConstants name f.decls) files
    → first_pass lib packages formats files types ≡ ok after
    → IsBlank name after
first_pass-IsBlank lib packages formats files types after name nonempty declared without h =
    first_pass_from-IsBlank name lib packages formats files types after nonempty without
      (inr declared) h
