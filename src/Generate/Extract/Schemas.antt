-- ===== src/Generate/Extract/Schemas.antt =====
-- What the analysis of a type's expression gives to the document.
use go_http_mqtt_boilerplate.Prelude.{
  ◌≡◌, refl, sym, ◌∙◌, ap, Bool, true, false, ◌&&◌, List, [], ◌∷◌, ◌++◌, map, All, All-imp, Text,
  Map, lookup, text_eq_inst, member, ok, wrap, is_ok, bind-ok_inv, wrap-ok_inv, ok-inj, arith,
}
use mathlib.Core.Path.{subst}
use go_http_mqtt_boilerplate.Generate.DocTypes.{FieldType, ref}
use go_http_mqtt_boilerplate.Generate.OpenApi.Schema.{SchemaRef, ref_text, build_schema}
use go_http_mqtt_boilerplate.Generate.OpenApi.Refs.{field_refs, refs_in, build_schema-refs}
use go_http_mqtt_boilerplate.Generate.OpenApi.Success.{
  is_string_key, is_buildable, build_schema-is_ok,
}
use go_http_mqtt_boilerplate.Generate.Extract.Ast.{
  Expr, ident, star, array_type, map_type, selector, other_expr,
}
use go_http_mqtt_boilerplate.Generate.Extract.Analyze.{
  in_key, primitive_type_mappings, analyze_go_type,
}
use go_http_mqtt_boilerplate.Generate.Extract.Primitives.{
  is_string_expr, has_string_keys, IsAnalysis, with_nullable-same, analyze_ident-IsAnalysis,
  analyze_external-IsAnalysis,
}

pub member-behind : (n : Text) (xs ys : List Text) → member n ys ≡ true → member n (xs ++ ys) ≡ true
member-behind n [] ys h = h
member-behind n (x ∷ xs) ys h = ground (arith, member-behind n xs ys h)

and_true : (a b : Bool) → (a && b) ≡ true → (a ≡ true) × (b ≡ true)
and_true true b h = (refl, h)
and_true false b h = ground (arith, h)

module _ (imports formats : Map Text) where
  -- What the analysis of an expression gives.
  pub analyze_go_type-IsAnalysis :
      (x : Expr) (ft : FieldType) (refs : List Text)
      → analyze_go_type imports formats x ≡ ok (ft, refs)
      → IsAnalysis x ft refs
  unfolding analyze_go_type is_buildable has_string_keys field_refs
  analyze_go_type-IsAnalysis (ident name) ft refs h =
      analyze_ident-IsAnalysis name (lookup name primitive_type_mappings) ft refs refl h
  analyze_go_type-IsAnalysis (star x) ft refs h =
      let (r, inner, made) = bind-ok_inv (analyze_go_type imports formats x) _ (ft, refs) h in
      let a = analyze_go_type-IsAnalysis x r.0 r.1 inner in
      let (b, k, f) = with_nullable-same r.0 in
      subst (λ r. IsAnalysis (star x) r.0 r.1) (ok-inj made)
        (record {
          buildable = b ∙ a.buildable;
          key = k ∙ a.key;
          listed = subst (All (λ n. member n r.1 ≡ true)) (sym f) a.listed;
          exact = λ built. a.exact (sym b ∙ built) ∙ sym f;
          string_refs = λ key. a.string_refs (sym k ∙ key);
        })
  analyze_go_type-IsAnalysis (array_type x) ft refs h =
      let (r, inner, made) = bind-ok_inv (analyze_go_type imports formats x) _ (ft, refs) h in
      let a = analyze_go_type-IsAnalysis x r.0 r.1 inner in
      subst (λ r. IsAnalysis (array_type x) r.0 r.1) (ok-inj made)
        (record {
          buildable = a.buildable;
          key = refl;
          listed = a.listed;
          exact = a.exact;
          string_refs = λ key. ground (arith, key);
        })
  analyze_go_type-IsAnalysis (map_type key x) ft refs h =
      let (k, first, after) =
        bind-ok_inv (wrap in_key (analyze_go_type imports formats key)) _ (ft, refs) h in
      let (v, second, made) = bind-ok_inv (analyze_go_type imports formats x) _ (ft, refs) after in
      let b = analyze_go_type-IsAnalysis key k.0 k.1 (wrap-ok_inv _ _ k first) in
      let a = analyze_go_type-IsAnalysis x v.0 v.1 second in
      subst (λ r. IsAnalysis (map_type key x) r.0 r.1) (ok-inj made)
        (record {
          buildable =
              ap (λ t. t && is_buildable v.0) b.key ∙ ap (λ t. is_string_expr key && t) a.buildable;
          key = refl;
          listed = All-imp _ _ (λ n m. member-behind n k.1 v.1 m) (field_refs v.0) a.listed;
          exact = λ built.
              let both = and_true (is_string_key (ref k.0)) (is_buildable v.0) built in
              ap (λ l. l ++ v.1) (b.string_refs both.0) ∙ a.exact both.1;
          string_refs = λ key. ground (arith, key);
        })
  analyze_go_type-IsAnalysis (selector (ident alias) name) ft refs h =
      analyze_external-IsAnalysis alias name formats (lookup alias imports) ft refs h
  analyze_go_type-IsAnalysis (selector (star x) name) ft refs h = ground (arith, h)
  analyze_go_type-IsAnalysis (selector (array_type x) name) ft refs h = ground (arith, h)
  analyze_go_type-IsAnalysis (selector (map_type k x) name) ft refs h = ground (arith, h)
  analyze_go_type-IsAnalysis (selector (selector x n) name) ft refs h = ground (arith, h)
  analyze_go_type-IsAnalysis (selector other_expr name) ft refs h = ground (arith, h)
  analyze_go_type-IsAnalysis other_expr ft refs h = ground (arith, h)

  -- The schema of an expression that the analysis accepts is built exactly if every map in the
  -- expression has a key of the types string, byte and rune or of another package, behind pointers
  -- or not; and its `$ref`s are then the references that the analysis returns, in their order.
  pub analyze_go_type-build_schema :
      (x : Expr) (ft : FieldType) (refs : List Text) (d : Text)
      → analyze_go_type imports formats x ≡ ok (ft, refs)
      → (is_ok (build_schema ft d) ≡ has_string_keys x)
        × ((s : SchemaRef) → build_schema ft d ≡ ok s → refs_in s ≡ map ref_text refs)
  analyze_go_type-build_schema x ft refs d h =
      let a = analyze_go_type-IsAnalysis x ft refs h in
      (
        build_schema-is_ok ft d ∙ a.buildable,
        λ s built.
            build_schema-refs ft d s built
            ∙ ap (map ref_text) (sym (a.exact (sym (build_schema-is_ok ft d) ∙ ap is_ok built))),
      )
