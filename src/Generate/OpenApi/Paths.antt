-- ===== src/Generate/OpenApi/Paths.antt =====
-- The whole document: `generateOpenAPISpec` of backend/pkg/generate/openapi.go, and the method of
-- this name of backend/pkg/generate/collector.go, with the records of the API that it copies.
use go_http_mqtt_boilerplate.Prelude.{
  ℕ, Option, none, some, List, [], ◌∷◌, ◌++◌, Text, codes, Map, lookup, insert, text_eq_inst, ◌==◌,
  if◌then◌else◌, Result, ok, err, ◌>>=◌, wrap,
}
use go_http_mqtt_boilerplate.Generate.DocTypes.{RouteInfo}
use go_http_mqtt_boilerplate.Generate.Marks.{Types}
use go_http_mqtt_boilerplate.Generate.Collector.{OpenApiCollector}
use go_http_mqtt_boilerplate.Generate.OpenApi.Schema.{SchemaRef}
use go_http_mqtt_boilerplate.Generate.OpenApi.Document.{
  Operation, PathItem, DocumentError, unsupported_method, in_operation, build_component_schemas,
  build_operation,
}

pub record ServerInfo : Type 0 where
  pub url : Text
  pub description : Text

pub record ApiInfo : Type 0 where
  pub title : Text
  pub version : Text
  pub description : Text
  pub servers : List ServerInfo

-- openapi3.T; the servers have the fields of `ServerInfo`.
pub record Spec : Type 0 where
  pub openapi : Text
  pub title : Text
  pub version : Text
  pub description : Text
  pub servers : List ServerInfo
  pub schemas : Map SchemaRef
  pub paths : Map PathItem

abbrev pub open_api_version : Text
open_api_version = codes "3.0.3"

abbrev pub empty_path_item : PathItem
empty_path_item = record { get = none; post = none; put = none; patch = none; delete = none }

-- The switch over the method.
unfoldable pub set_operation : Text → Operation → PathItem → Result DocumentError PathItem
set_operation method op item =
    if method == codes "GET"
    then ok (record item { get = some op })
    else if method == codes "POST"
    then ok (record item { post = some op })
    else if method == codes "PUT"
    then ok (record item { put = some op })
    else if method == codes "PATCH"
    then ok (record item { patch = some op })
    else if method == codes "DELETE"
    then ok (record item { delete = some op })
    else err (unsupported_method method)

abbrev pub or_empty : Option PathItem → PathItem
or_empty none = empty_path_item
or_empty (some item) = item

module _ (itoa : ℕ → Text) where
  -- the loop over the operations
  unfoldable pub add_paths :
      Map RouteInfo → Types → Map PathItem → Result DocumentError (Map PathItem)
  add_paths [] types items = ok items
  add_paths ((id, route) ∷ routes) types items = do
    op ← wrap (in_operation route.method route.path) (build_operation itoa route types)
    item ← set_operation route.method op (or_empty (lookup route.path items))
    add_paths routes types (insert route.path item items)

  unfoldable pub generate_open_api_spec : Types → Map RouteInfo → Result DocumentError Spec
  unfolding add_paths
  generate_open_api_spec types routes = do
    schemas ← build_component_schemas types
    paths ← add_paths routes types []
    ok (record {
      openapi = open_api_version;
      title = [];
      version = [];
      description = [];
      servers = [];
      schemas = schemas;
      paths = paths;
    })

  -- the method of the collector, with its `apiInfo`
  unfoldable pub generate_spec : ApiInfo → OpenApiCollector → Result DocumentError Spec
  unfolding generate_open_api_spec
  generate_spec info g = do
    spec ← generate_open_api_spec g.types g.http_ops
    ok (record spec {
      title = info.title;
      version = info.version;
      description = info.description;
      servers = spec.servers ++ info.servers;
    })
