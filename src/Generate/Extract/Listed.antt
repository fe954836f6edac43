-- ===== src/Generate/Extract/Listed.antt =====
-- The references of the extracted types list what their declarations name.
use go_http_mqtt_boilerplate.Prelude.{
  ◌≡◌, refl, sym, Bool, true, not, Bool-cases, inl, inr, Option, none, some, List, [], ◌∷◌, ◌++◌,
  All, All-append, All-append_inv, All-imp, Text, Map, text_eq_inst, member, if◌then◌else◌, Result,
  ok, wrap, bind-ok_inv, wrap-ok_inv, ok-inj, arith,
}
use mathlib.Core.Path.{subst}
use go_http_mqtt_boilerplate.Generate.DocTypes.{
  TypeKind, FieldKind, FieldType, field_type, null, ref, FieldInfo, TypeInfo,
}
use go_http_mqtt_boilerplate.Generate.OpenApi.Refs.{field_refs}
use go_http_mqtt_boilerplate.Generate.OpenApi.Closed.{fields_refs, refs_of_kind, type_refs}
use go_http_mqtt_boilerplate.Generate.Extract.Ast.{
  Expr, ident, star, array_type, map_type, selector, other_expr, Field, TypeExpr, struct_type,
  plain_type,
}
use go_http_mqtt_boilerplate.Generate.Extract.Analyze.{analyze_go_type}
use go_http_mqtt_boilerplate.Generate.Extract.Comments.{
  Library, JsonTagInfo, parse_json_tag, extract_comments_from_doc, parse_deprecation,
  generate_display_type,
}
use go_http_mqtt_boilerplate.Generate.Extract.Fields.{
  ExtractError, bad_type, bad_comment, bad_display, set_required, is_field_required, is_enum_kind,
  analyze_field, extract_field_info, Extracted, add_found, extract_names, extract_field,
  extract_fields, extract_struct_type, extract_alias, extract_type_expr,
}
use go_http_mqtt_boilerplate.Generate.Extract.Schemas.{analyze_go_type-IsAnalysis, member-behind}

abbrev pub IsIn : List Text → Text → Type 0
IsIn refs n = member n refs ≡ true

-- The references of a type list what its declaration names.
abbrev pub IsListed : TypeInfo → Type 0
IsListed info = All (IsIn info.references) (type_refs info)

member-front : (n : Text) (xs ys : List Text) → IsIn xs n → IsIn (xs ++ ys) n
member-front n [] ys h = ground (arith, h)
member-front n (x ∷ xs) ys h = ground (arith, h, member-front n xs ys)

set_required-refs : (b : Bool) (ft : FieldType) → field_refs (set_required b ft) ≡ field_refs ft
unfolding field_refs
set_required-refs b (field_type FieldKind.primitive t f r n i a k) = refl
set_required-refs b (field_type FieldKind.array t f r n null a k) = refl
set_required-refs b (field_type FieldKind.array t f r n (ref x) a k) = refl
set_required-refs b (field_type FieldKind.reference t f r n i a k) = refl
set_required-refs b (field_type FieldKind.enum t f r n i a k) = refl
set_required-refs b (field_type FieldKind.object t f r n i null k) = refl
set_required-refs b (field_type FieldKind.object t f r n i (ref v) k) = refl
set_required-refs b (field_type (FieldKind.other kind) t f r n i a k) = refl

-- what one more field names
fields_refs-All :
    (P : Text → Type 0) (fields : List FieldInfo) (field : FieldInfo)
    → All P (fields_refs fields)
    → All P (field_refs field.type_info)
    → All P (fields_refs (fields ++ field ∷ []))
fields_refs-All P [] field h k = All-append P (field_refs field.type_info) [] k tt
fields_refs-All P (f ∷ fields) field h k =
    let (here, others) = All-append_inv P (field_refs f.type_info) (fields_refs fields) h in
    All-append P (field_refs f.type_info) _ here (fields_refs-All P fields field others k)

-- an enum names nothing, and an alias what its type names
alias_kind-IsIn :
    (kind : TypeKind) (fields : List FieldInfo) (ft : FieldType) (refs : List Text)
    → All (IsIn refs) (field_refs ft)
    → All
        (IsIn refs)
        (refs_of_kind (if is_enum_kind kind then kind else TypeKind.alias) fields (some ft))
unfolding is_enum_kind
alias_kind-IsIn TypeKind.string_enum fields ft refs h = tt
alias_kind-IsIn TypeKind.number_enum fields ft refs h = tt
alias_kind-IsIn TypeKind.object fields ft refs h = h
alias_kind-IsIn TypeKind.alias fields ft refs h = h
alias_kind-IsIn (TypeKind.other kind) fields ft refs h = h

module _ (lib : Library) (imports formats : Map Text) where
  abbrev AreListed : Extracted lib imports formats → Type 0
  AreListed done = All (IsIn done.1) (fields_refs done.0)

  analyze_field-IsIn :
      (tag : JsonTagInfo) (field : Field) (found : FieldInfo × List Text)
      → analyze_field lib imports formats tag field ≡ ok found
      → All (IsIn found.1) (field_refs found.0.type_info)
  unfolding analyze_field
  analyze_field-IsIn tag field found h =
      let (r, analyzed, h1) =
        bind-ok_inv (wrap bad_type (analyze_go_type imports formats field.type)) _ found h in
      let (doc, b, h2) =
        bind-ok_inv
          (wrap bad_comment (parse_deprecation lib.to_lower (extract_comments_from_doc field.doc)))
          _ found h1 in
      let (shown, c, h3) =
        bind-ok_inv
          (wrap bad_display
            (generate_display_type lib.title (set_required (is_field_required tag r.0) r.0)))
          _ found h2 in
      let a =
        analyze_go_type-IsAnalysis imports formats field.type r.0 r.1
          (wrap-ok_inv _ _ r analyzed) in
      subst (λ f. All (IsIn f.1) (field_refs f.0.type_info)) (ok-inj h3)
        (subst (All (IsIn r.1)) (sym (set_required-refs (is_field_required tag r.0) r.0)) a.listed)

  add_found-AreListed :
      (o : Option (Result ExtractError (FieldInfo × List Text)))
      (done after : Extracted lib imports formats)
      → ((r : Result ExtractError (FieldInfo × List Text)) (f : FieldInfo × List Text)
          → o ≡ some r
          → r ≡ ok f
          → All (IsIn f.1) (field_refs f.0.type_info))
      → AreListed done
      → add_found lib imports formats o done ≡ ok after
      → AreListed after
  add_found-AreListed none done after found l h = subst AreListed (ok-inj h) l
  add_found-AreListed (some result) done after found l h =
      let (f, e, made) = bind-ok_inv result _ after h in
      subst AreListed (ok-inj made) (
        fields_refs-All (IsIn (done.1 ++ f.1)) done.0 f.0
          (All-imp _ _ (λ n m. member-front n done.1 f.1 m) (fields_refs done.0) l)
          (All-imp _ _ (λ n m. member-behind n done.1 f.1 m) (field_refs f.0.type_info)
            (found result f refl e)))

  extract_field_info-IsIn :
      (name : Text) (field : Field) (r : Result ExtractError (FieldInfo × List Text))
      (f : FieldInfo × List Text)
      → extract_field_info lib imports formats name field ≡ some r
      → r ≡ ok f
      → All (IsIn f.1) (field_refs f.0.type_info)
  unfolding extract_field_info
  extract_field_info-IsIn name field r f h e =
      let tag = parse_json_tag lib.json_tag field.tag name in
      analyze_field-IsIn tag field f (ground (arith, h, e))

  extract_names-AreListed :
      (names : List Text) (field : Field) (done after : Extracted lib imports formats)
      → AreListed done
      → extract_names lib imports formats names field done ≡ ok after
      → AreListed after
  unfolding extract_names
  extract_names-AreListed [] field done after l h = subst AreListed (ok-inj h) l
  extract_names-AreListed (name ∷ names) field done after l h =
      let (now, first, rest) =
        bind-ok_inv
          (if not (lib.is_exported name)
            then ok done
            else add_found lib imports formats (extract_field_info lib imports formats name field)
                done)
          _ after h in
      extract_names-AreListed names field now after
        (elim (Bool-cases (lib.is_exported name)) [
          | inl exported ↦
              add_found-AreListed (extract_field_info lib imports formats name field) done now
                (extract_field_info-IsIn name field) l (ground (arith, first, exported))
          | inr hidden ↦
              let e : done ≡ now = ok-inj {E = ExtractError} (ground (arith, first, hidden)) in
              subst AreListed e l
        ])
        rest

  extract_field-AreListed :
      (names : List Text) (field : Field) (done after : Extracted lib imports formats)
      → field.names ≡ names
      → AreListed done
      → extract_field lib imports formats field done ≡ ok after
      → AreListed after
  unfolding extract_field
  extract_field-AreListed [] field done after e l h = ground (arith, e, h)
  extract_field-AreListed (name ∷ names) field done after e l h =
      extract_names-AreListed (name ∷ names) field done after l (ground (arith, e, h))

  extract_fields-AreListed :
      (fields : List Field) (done after : Extracted lib imports formats)
      → AreListed done
      → extract_fields lib imports formats fields done ≡ ok after
      → AreListed after
  unfolding extract_fields
  extract_fields-AreListed [] done after l h = subst AreListed (ok-inj h) l
  extract_fields-AreListed (field ∷ fields) done after l h =
      let (now, first, rest) =
        bind-ok_inv (extract_field lib imports formats field done) _ after h in
      extract_fields-AreListed fields now after
        (extract_field-AreListed field.names field done now refl l first) rest

  module _
      (keeps : (n : Text) (names : List Text) → IsIn names n → IsIn (lib.sorted_keys names) n) where
    extract_struct_type-IsListed :
        (fields : List Field) (info done : TypeInfo)
        → extract_struct_type lib imports formats fields info ≡ ok done
        → IsListed done
    unfolding extract_struct_type type_refs
    extract_struct_type-IsListed fields info done h =
        let (x, extracted, made) =
          bind-ok_inv (extract_fields lib imports formats fields ([], [])) _ done h in
        subst IsListed (ok-inj made) (
          All-imp _ _ (λ n m. keeps n x.1 m) (fields_refs x.0)
            (extract_fields-AreListed fields ([], []) x tt extracted))

    extract_alias-IsListed :
        (expr : Expr) (info done : TypeInfo)
        → extract_alias lib imports formats expr info ≡ ok done
        → IsListed done
    unfolding extract_alias type_refs
    extract_alias-IsListed expr info done h =
        let (r, analyzed, made) =
          bind-ok_inv (wrap bad_type (analyze_go_type imports formats expr)) _ done h in
        let a =
          analyze_go_type-IsAnalysis imports formats expr r.0 r.1 (wrap-ok_inv _ _ r analyzed) in
        subst IsListed (ok-inj made) (alias_kind-IsIn info.kind info.fields r.0 r.1 a.listed)

    pub extract_type_expr-IsListed :
        (type : TypeExpr) (info done : TypeInfo)
        → extract_type_expr lib imports formats type info ≡ ok done
        → IsListed done
    unfolding extract_type_expr
    extract_type_expr-IsListed (struct_type fields) info done h =
        extract_struct_type-IsListed fields info done h
    extract_type_expr-IsListed (plain_type (ident n)) info done h =
        extract_alias-IsListed (ident n) info done h
    extract_type_expr-IsListed (plain_type (array_type x)) info done h =
        extract_alias-IsListed (array_type x) info done h
    extract_type_expr-IsListed (plain_type (map_type k x)) info done h =
        extract_alias-IsListed (map_type k x) info done h
    extract_type_expr-IsListed (plain_type (star x)) info done h = ground (arith, h)
    extract_type_expr-IsListed (plain_type (selector x n)) info done h = ground (arith, h)
    extract_type_expr-IsListed (plain_type other_expr) info done h = ground (arith, h)
