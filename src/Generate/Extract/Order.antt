-- ===== src/Generate/Extract/Order.antt =====
-- What the extraction of enums makes of the order of files, and of const blocks that are not exported.
use go_http_mqtt_boilerplate.Prelude.{
  ◌≡◌, refl, sym, ◌⊎◌, inl, inr, true, false, Bool-cases, Option, some, List, [], ◌∷◌, ◌++◌, all,
  All, Text, lookup, insert, lookup-insert, text_eq_iff, text_eq_inst, ◌==◌, ◌||◌, member, ok, err,
  wrap, bind-ok_inv, ok-inj, arith,
}
use mathlib.Core.Path.{subst}
use go_http_mqtt_boilerplate.Generate.DocTypes.{TypeKind, TypeInfo}
use go_http_mqtt_boilerplate.Generate.Marks.{Types}
use go_http_mqtt_boilerplate.Generate.Extract.Ast.{
  CommentGroup, TypeSpec, ValueSpec, Decl, type_decl, const_decl, other_decl,
}
use go_http_mqtt_boilerplate.Generate.Extract.Comments.{
  Library, extract_comments_from_doc, parse_deprecation,
}
use go_http_mqtt_boilerplate.Generate.Extract.Enums.{
  no_values, stub, collect_specs, store_enum_type, extract_enums_from_const_block,
  extract_const_declarations,
}
use go_http_mqtt_boilerplate.Generate.Extract.Files.{
  bad_description, type_comment, add_type_names, extract_type_names,
}

-- The name is known, without the kind and the values of an enum.
pub record IsBlank (name : Text) (types : Types) : Type 0 where
  pub info : TypeInfo
  pub found : lookup name types ≡ some info
  pub kind : info.kind ≡ TypeKind.other []
  pub values : info.enum_values ≡ []

abbrev pub spec_names : List TypeSpec → List Text
spec_names [] = []
spec_names (spec ∷ specs) = spec.name ∷ spec_names specs

-- the names of the types that a file declares
abbrev pub declared_names : List Decl → List Text
declared_names [] = []
declared_names (type_decl specs doc ∷ decls) = spec_names specs ++ declared_names decls
declared_names (const_decl specs ∷ decls) = declared_names decls
declared_names (other_decl ∷ decls) = declared_names decls

pub member-append :
    (n : Text) (xs ys : List Text) → member n (xs ++ ys) ≡ (member n xs || member n ys)
member-append n [] ys = refl
member-append n (x ∷ xs) ys = ground (arith, member-append n xs ys)

module _ (name : Text) where
  stub-IsBlank :
      (description deprecated : Text) (types : Types)
      → IsBlank name (insert name (stub name description deprecated) types)
  stub-IsBlank description deprecated types = record {
    info = stub name description deprecated;
    found = ground (
      arith,
      lookup-insert name name (stub name description deprecated) types,
      text_eq_iff name name,
    );
    kind = refl;
    values = refl;
  }

  insert-IsBlank :
      (key description deprecated : Text) (types : Types)
      → IsBlank name types
      → IsBlank name (insert key (stub key description deprecated) types)
  insert-IsBlank key description deprecated types b = elim (Bool-cases (key == name)) [
    | inl same ↦
        subst (λ k. IsBlank name (insert k (stub k description deprecated) types))
          (sym ((text_eq_iff key name).0 same)) (stub-IsBlank description deprecated types)
    | inr other ↦ record {
      info = b.info;
      found =
          ground
            (arith, lookup-insert key name (stub key description deprecated) types, other, b.found);
      kind = b.kind;
      values = b.values;
    }
  ]

  module _ (lib : Library) where
    add_type_names-IsBlank :
        (specs : List TypeSpec) (doc : Option CommentGroup) (types after : Types)
        → add_type_names lib specs doc types ≡ ok after
        → IsBlank name types ⊎ (member name (spec_names specs) ≡ true)
        → IsBlank name after
    unfolding add_type_names
    add_type_names-IsBlank [] doc types after h (inl b) = subst (IsBlank name) (ok-inj h) b
    add_type_names-IsBlank [] doc types after h (inr m) = ground (arith, m)
    add_type_names-IsBlank (spec ∷ specs) doc types after h d =
        let (parsed, first, rest) =
          bind-ok_inv
            (wrap bad_description (
              parse_deprecation lib.to_lower
                (extract_comments_from_doc (type_comment spec.doc doc))))
            _ after h in
        add_type_names-IsBlank specs doc _ after rest (next_spec parsed.1 parsed.0 d)
      where
        next_spec :
            (description deprecated : Text)
            → IsBlank name types ⊎ (member name (spec.name ∷ spec_names specs) ≡ true)
            → IsBlank name (insert spec.name (stub spec.name description deprecated) types)
              ⊎ (member name (spec_names specs) ≡ true)
        next_spec description deprecated (inl b) =
            inl (insert-IsBlank spec.name description deprecated types b)
        next_spec description deprecated (inr m) = elim (Bool-cases (spec.name == name)) [
          | inl same ↦ inl (
              subst (λ k. IsBlank name (insert k (stub k description deprecated) types))
                (sym ((text_eq_iff spec.name name).0 same))
                (stub-IsBlank description deprecated types))
          | inr other ↦ inr (ground (arith, m, other))
        ]

    pub declared_names-IsBlank :
        (decls : List Decl) (types after : Types)
        → extract_type_names lib decls types ≡ ok after
        → IsBlank name types ⊎ (member name (declared_names decls) ≡ true)
        → IsBlank name after
    unfolding extract_type_names
    declared_names-IsBlank [] types after h (inl b) = subst (IsBlank name) (ok-inj h) b
    declared_names-IsBlank [] types after h (inr m) = ground (arith, m)
    declared_names-IsBlank (type_decl specs doc ∷ decls) types after h d =
        let (now, first, rest) = bind-ok_inv (add_type_names lib specs doc types) _ after h in
        declared_names-IsBlank decls now after rest (next_decl now first d)
      where
        next_decl :
            (now : Types)
            → add_type_names lib specs doc types ≡ ok now
            → IsBlank name types ⊎ (member name (spec_names specs ++ declared_names decls) ≡ true)
            → IsBlank name now ⊎ (member name (declared_names decls) ≡ true)
        next_decl now e (inl b) = inl (add_type_names-IsBlank specs doc types now e (inl b))
        next_decl now e (inr m) = elim (Bool-cases (member name (spec_names specs))) [
          | inl here ↦ inl (add_type_names-IsBlank specs doc types now e (inr here))
          | inr other ↦ inr (
              ground
                (arith, m, other, member-append name (spec_names specs) (declared_names decls)))
        ]
    declared_names-IsBlank (const_decl specs ∷ decls) types after h d =
        declared_names-IsBlank decls types after h d
    declared_names-IsBlank (other_decl ∷ decls) types after h d =
        declared_names-IsBlank decls types after h d

collect_specs-unexported :
    (lib : Library) (specs : List ValueSpec)
    → All (λ (s : ValueSpec). all lib.is_exported s.names ≡ false) specs
    → collect_specs lib specs [] [] ≡ ok ([], [])
unfolding collect_specs
collect_specs-unexported lib [] u = refl
collect_specs-unexported lib (spec ∷ specs) (here, others) =
    ground (arith, here, collect_specs-unexported lib specs others)

-- The extraction from declarations that start with a const block, each of whose specs has a constant
-- that is not exported, fails.
pub extract_const_declarations-unexported :
    (lib : Library) (spec : ValueSpec) (specs : List ValueSpec) (decls : List Decl) (types : Types)
    → All (λ (s : ValueSpec). all lib.is_exported s.names ≡ false) (spec ∷ specs)
    → extract_const_declarations lib (const_decl (spec ∷ specs) ∷ decls) types ≡ err no_values
unfolding extract_const_declarations extract_enums_from_const_block store_enum_type
extract_const_declarations-unexported lib spec specs decls types u =
    ground (arith, collect_specs-unexported lib (spec ∷ specs) u)
