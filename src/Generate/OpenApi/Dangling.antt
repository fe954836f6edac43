-- ===== src/Generate/OpenApi/Dangling.antt =====
-- The whole document has no `$ref` that dangles.
use go_http_mqtt_boilerplate.Prelude.{
  ℕ, ◌≡◌, refl, true, some, [], ◌++◌, All, All-imp, Text, Map, lookup, has_key, text_eq_inst, ok,
  bind-ok_inv, ok-inj, arith,
}
use mathlib.Core.Path.{subst}
use go_http_mqtt_boilerplate.Generate.DocTypes.{TypeInfo, RouteInfo}
use go_http_mqtt_boilerplate.Generate.Marks.{Types, http, is_used_by}
use go_http_mqtt_boilerplate.Generate.Marks.Growth.{is_marked, IsReached, IsClosed}
use go_http_mqtt_boilerplate.Generate.Collector.{OpenApiCollector}
use go_http_mqtt_boilerplate.Generate.OpenApi.Schema.{SchemaRef, ref_text}
use go_http_mqtt_boilerplate.Generate.OpenApi.Refs.{refs_in}
use go_http_mqtt_boilerplate.Generate.OpenApi.Closed.{type_refs}
use go_http_mqtt_boilerplate.Generate.OpenApi.Document.{PathItem, build_component_schemas}
use go_http_mqtt_boilerplate.Generate.OpenApi.Paths.{
  ApiInfo, Spec, add_paths, generate_open_api_spec, generate_spec,
}
use go_http_mqtt_boilerplate.Generate.OpenApi.Components.{
  IsResolved, IsComponent, type_refs-marked, build_component_schemas-IsComponent,
}
use go_http_mqtt_boilerplate.Generate.OpenApi.Operations.{
  IsRouteReached, OperationRefs, build_operation-refs,
}
use go_http_mqtt_boilerplate.Generate.OpenApi.Each.{EachOperation, add_paths-Each}

-- In each component and in each operation, each `$ref` is that of a component.
pub record IsLinked (spec : Spec) : Type 0 where
  pub components : All (λ e. All (IsComponent spec.schemas) (refs_in e.1)) spec.schemas
  pub operations :
      All (λ e. EachOperation (OperationRefs (IsComponent spec.schemas)) e.1) spec.paths

module _ (types : Types) (resolved : IsResolved types) (closed : IsClosed http types)
    (schemas : Map SchemaRef) (built : build_component_schemas types ≡ ok schemas) where
  reached-IsComponent :
      (n : Text)
      → IsReached http types n
      → has_key n types ≡ true
      → IsComponent schemas (ref_text n)
  reached-IsComponent n reached here =
      let marked = (build_component_schemas-IsComponent types schemas resolved closed built).0 in
      (n, refl, marked n (reached (λ empty. ground (arith, empty, here, resolved.unnamed)) here))

  inside-IsComponent :
      (n : Text) (info : TypeInfo)
      → IsReached http types n
      → lookup n types ≡ some info
      → All (λ m. IsComponent schemas (ref_text m)) (type_refs info)
  unfolding is_marked is_used_by
  inside-IsComponent n info reached found =
      let here : has_key n types ≡ true = ground (arith, found) in
      let mark = reached (λ empty. ground (arith, empty, here, resolved.unnamed)) here in
      let marked = (build_component_schemas-IsComponent types schemas resolved closed built).0 in
      All-imp _ _ (λ m used. (m, refl, marked m used)) (type_refs info)
        (type_refs-marked types resolved closed n info found (ground (arith, found, mark)))

  paths-Each :
      (itoa : ℕ → Text) (routes : Map RouteInfo) (paths : Map PathItem)
      → All (λ e. IsRouteReached types e.1) routes
      → add_paths itoa routes types [] ≡ ok paths
      → All (λ e. EachOperation (OperationRefs (IsComponent schemas)) e.1) paths
  paths-Each itoa routes paths reached h =
      add_paths-Each (OperationRefs (IsComponent schemas)) itoa routes types [] paths
        (All-imp _ _
          (λ e r op made.
            build_operation-refs (IsComponent schemas) types reached-IsComponent inside-IsComponent
              itoa e.1 op r made)
          routes reached)
        h tt

-- The document of a collector is linked if its types name only types that it knows, the marks
-- of HTTP reach everything that a marked type refers to, and the types that its routes name are
-- marked.
pub generate_spec-IsLinked :
    (itoa : ℕ → Text) (info : ApiInfo) (g : OpenApiCollector) (spec : Spec)
    → IsResolved g.types
    → IsClosed http g.types
    → All (λ e. IsRouteReached g.types e.1) g.http_ops
    → generate_spec itoa info g ≡ ok spec
    → IsLinked spec
unfolding generate_spec generate_open_api_spec
generate_spec-IsLinked itoa info g spec resolved closed reached h =
    let (bare, a, h1) = bind-ok_inv (generate_open_api_spec itoa g.types g.http_ops) _ spec h in
    let (schemas, b, h2) = bind-ok_inv (build_component_schemas g.types) _ bare a in
    let (paths, c, h3) = bind-ok_inv (add_paths itoa g.http_ops g.types []) _ bare h2 in
    subst IsLinked (ok-inj h1) (
      subst
        (λ (s : Spec). IsLinked (record s {
          title = info.title;
          version = info.version;
          description = info.description;
          servers = s.servers ++ info.servers;
        }))
        (ok-inj h3)
        (record {
          components = (build_component_schemas-IsComponent g.types schemas resolved closed b).1;
          operations = paths-Each g.types resolved closed schemas b itoa g.http_ops paths reached c;
        }))
