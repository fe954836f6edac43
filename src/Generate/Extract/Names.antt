-- ===== src/Generate/Extract/Names.antt =====
-- What the first pass over the files gives to the collector.
use go_http_mqtt_boilerplate.Prelude.{
  ◌≡◌, refl, false, Bool-cases, Option-cases, inl, inr, Option, some, List, [], ◌∷◌, All,
  All-insert, Text, lookup, insert, text_eq_inst, Result, ok, err, wrap, bind-ok_inv, ok-inj,
  Distinct, Distinct-insert, All-lookup, arith,
}
use mathlib.Core.Path.{subst}
use go_http_mqtt_boilerplate.Generate.DocTypes.{EnumConst, string, int64, EnumValue, TypeInfo}
use go_http_mqtt_boilerplate.Generate.Marks.{Types}
use go_http_mqtt_boilerplate.Generate.OpenApi.Closed.{type_refs}
use go_http_mqtt_boilerplate.Generate.Extract.Ast.{
  CommentGroup, TypeSpec, ValueSpec, Decl, type_decl, const_decl, other_decl,
}
use go_http_mqtt_boilerplate.Generate.Extract.Comments.{
  Library, extract_comments_from_doc, parse_deprecation,
}
use go_http_mqtt_boilerplate.Generate.Extract.Enums.{
  EnumError, stub, enum_kind, collect_specs, store_enum_type, extract_enums_from_const_block,
  is_no_enum, or_skip, extract_const_declarations,
}
use go_http_mqtt_boilerplate.Generate.Extract.Files.{
  bad_description, type_comment, add_type_names, extract_type_names,
}
use go_http_mqtt_boilerplate.Generate.Extract.Listed.{IsListed}

-- An extracted type lists what it names, and HTTP does not use it yet.
pub record IsExtracted (info : TypeInfo) : Type 0 where
  pub listed : IsListed info
  pub unused : info.used_by_http ≡ false

-- The types of the collector after a step of the extraction.
pub record AreExtracted (types : Types) : Type 0 where
  pub distinct : Distinct types
  pub each : All (λ e. IsExtracted e.1) types

pub insert-AreExtracted :
    (name : Text) (info : TypeInfo) (types : Types)
    → IsExtracted info
    → AreExtracted types
    → AreExtracted (insert name info types)
insert-AreExtracted name info types i a = record {
  distinct = Distinct-insert name info types a.distinct;
  each = All-insert IsExtracted name info types i a.each;
}

pub found-IsExtracted :
    (name : Text) (info : TypeInfo) (types : Types)
    → AreExtracted types
    → lookup name types ≡ some info
    → IsExtracted info
found-IsExtracted name info types a h = All-lookup (λ k i. IsExtracted i) types name info a.each h

stub-IsExtracted :
    (name description deprecated : Text) → IsExtracted (stub name description deprecated)
unfolding type_refs
stub-IsExtracted name description deprecated = record { listed = tt; unused = refl }

enum_kind-IsListed :
    (c : EnumConst) (info : TypeInfo) (values : List EnumValue)
    → IsListed (record info { kind = enum_kind c; enum_values = values })
unfolding type_refs
enum_kind-IsListed (int64 digits) info values = tt
enum_kind-IsListed (string s) info values = tt

store_enum_type-AreExtracted :
    (name : Text) (values : List EnumValue) (types after : Types)
    → AreExtracted types
    → store_enum_type name values types ≡ ok after
    → AreExtracted after
unfolding store_enum_type
store_enum_type-AreExtracted name [] types after a h = ground (arith, h)
store_enum_type-AreExtracted name (first ∷ rest) types after a h =
    elim (Option-cases (lookup name types)) [
      | inl missing ↦
          let e : insert name
                (record (stub name [] []) {
                  kind = enum_kind first.value;
                  enum_values = first ∷ rest;
                })
                types
              ≡ after =
            ok-inj {E = EnumError} (ground (arith, h, missing)) in
          subst AreExtracted e (
            insert-AreExtracted name _ types
              (record {
                listed = enum_kind-IsListed first.value (stub name [] []) (first ∷ rest);
                unused = refl;
              })
              a)
      | inr (info, found) ↦
          let e : insert name
                (record info { kind = enum_kind first.value; enum_values = first ∷ rest }) types
              ≡ after =
            ok-inj {E = EnumError} (ground (arith, h, found)) in
          subst AreExtracted e (
            insert-AreExtracted name _ types
              (record {
                listed = enum_kind-IsListed first.value info (first ∷ rest);
                unused = (found-IsExtracted name info types a found).unused;
              })
              a)
    ]

module _ (lib : Library) where
  const_block-AreExtracted :
      (specs : List ValueSpec) (types after : Types)
      → AreExtracted types
      → extract_enums_from_const_block lib specs types ≡ ok after
      → AreExtracted after
  unfolding extract_enums_from_const_block
  const_block-AreExtracted [] types after a h = ground (arith, h)
  const_block-AreExtracted (spec ∷ specs) types after a h =
      let (c, collected, stored) = bind-ok_inv (collect_specs lib (spec ∷ specs) [] []) _ after h in
      store_enum_type-AreExtracted c.0 c.1 types after a stored

  or_skip-AreExtracted :
      (types after : Types) (r : Result EnumError Types)
      → AreExtracted types
      → ((now : Types) → r ≡ ok now → AreExtracted now)
      → or_skip types r ≡ ok after
      → AreExtracted after
  or_skip-AreExtracted types after (ok now) a f h = subst AreExtracted (ok-inj h) (f now refl)
  or_skip-AreExtracted types after (err e) a f h = elim (Bool-cases (is_no_enum e)) [
    | inl skipped ↦
        let same : types ≡ after = ok-inj {E = EnumError} (ground (arith, h, skipped)) in
        subst AreExtracted same a
    | inr real ↦ ground (arith, h, real)
  ]

  pub extract_const_declarations-AreExtracted :
      (decls : List Decl) (types after : Types)
      → AreExtracted types
      → extract_const_declarations lib decls types ≡ ok after
      → AreExtracted after
  unfolding extract_const_declarations
  extract_const_declarations-AreExtracted [] types after a h = subst AreExtracted (ok-inj h) a
  extract_const_declarations-AreExtracted (const_decl specs ∷ decls) types after a h =
      let (now, first, rest) =
        bind-ok_inv (or_skip types (extract_enums_from_const_block lib specs types)) _ after h in
      extract_const_declarations-AreExtracted decls now after
        (or_skip-AreExtracted types now (extract_enums_from_const_block lib specs types) a
          (λ now' e. const_block-AreExtracted specs types now' a e) first)
        rest
  extract_const_declarations-AreExtracted (type_decl s d ∷ decls) types after a h =
      extract_const_declarations-AreExtracted decls types after a h
  extract_const_declarations-AreExtracted (other_decl ∷ decls) types after a h =
      extract_const_declarations-AreExtracted decls types after a h

  add_type_names-AreExtracted :
      (specs : List TypeSpec) (doc : Option CommentGroup) (types after : Types)
      → AreExtracted types
      → add_type_names lib specs doc types ≡ ok after
      → AreExtracted after
  unfolding add_type_names
  add_type_names-AreExtracted [] doc types after a h = subst AreExtracted (ok-inj h) a
  add_type_names-AreExtracted (spec ∷ specs) doc types after a h =
      let (parsed, first, rest) =
        bind-ok_inv
          (wrap bad_description (
            parse_deprecation lib.to_lower (extract_comments_from_doc (type_comment spec.doc doc))))
          _ after h in
      add_type_names-AreExtracted specs doc _ after
        (insert-AreExtracted spec.name _ types (stub-IsExtracted spec.name parsed.1 parsed.0) a)
        rest

  pub extract_type_names-AreExtracted :
      (decls : List Decl) (types after : Types)
      → AreExtracted types
      → extract_type_names lib decls types ≡ ok after
      → AreExtracted after
  unfolding extract_type_names
  extract_type_names-AreExtracted [] types after a h = subst AreExtracted (ok-inj h) a
  extract_type_names-AreExtracted (type_decl specs doc ∷ decls) types after a h =
      let (now, first, rest) = bind-ok_inv (add_type_names lib specs doc types) _ after h in
      extract_type_names-AreExtracted decls now after
        (add_type_names-AreExtracted specs doc types now a first) rest
  extract_type_names-AreExtracted (const_decl s ∷ decls) types after a h =
      extract_type_names-AreExtracted decls types after a h
  extract_type_names-AreExtracted (other_decl ∷ decls) types after a h =
      extract_type_names-AreExtracted decls types after a h
