-- ===== src/Router/Builder.antt =====
-- `RouteBuilder` of backend/pkg/router/route_builder.go. The builders of nested groups share the set
-- of operation ids, the collector and, in the end, the chi router, so these are one `Shared` state
-- that a group hands back; its prefix is its own. `routes` is what was registered with chi, the
-- newest first. A method returns the next builder beside its result.
pub mod Laws
pub mod Groups
use go_http_mqtt_boilerplate.Prelude.{
  ℕ, Bool, not, Option, none, some, List, [], ◌∷◌, ◌++◌, map, Text, member, text_eq_inst, ◌==◌,
  Result, ok, err, ◌>>=◌, ◌>>◌, fail_if, wrap,
}
use go_http_mqtt_boilerplate.Generate.Sanitize.{sanitize_path}
use go_http_mqtt_boilerplate.Generate.Values.{is_nil}
use go_http_mqtt_boilerplate.Generate.DocTypes.{ParameterInfo, RequestInfo, ResponseInfo, RouteInfo}
use go_http_mqtt_boilerplate.Generate.Interface.{MetadataCollector}
use go_http_mqtt_boilerplate.Router.Spec.{
  RouteSpec, RequestBodySpec, ResponseSpec, RouteSpecError, validate_route_spec, method_get,
  method_post, method_put, method_patch, method_delete,
}
use go_http_mqtt_boilerplate.Router.Parameters.{ParameterError, generate_parameters}

pub data RouteError (E : Type 0) : Type 0 where
  invalid_path : (path sanitized : Text) → RouteError E
  duplicate_operation_id : Text → RouteError E
  invalid_spec : RouteSpecError → RouteError E
  invalid_parameters : ParameterError → RouteError E
  request_type_nil : RouteError E
  rejected_by_collector : E → RouteError E

-- a call of chi's `Method`
pub record Route : Type 0 where
  pub method : Text
  pub path : Text
  pub handler : Option ℕ

abbrev pub response_info : ℕ × ResponseSpec → ℕ × ResponseInfo
response_info (status_code, r) = (
  status_code,
  record {
    status_code = status_code;
    type_name = [];
    type_value = r.type;
    description = r.description;
    examples_stringified = [];
    examples = r.examples;
  },
)

module _ (c : MetadataCollector) where
  open c use {State, Error, register_route}

  pub record Shared : Type 0 where
    pub collector : State
    pub operation_ids : List Text
    pub routes : List Route

  pub record RouteBuilder : Type 0 where
    pub prefix : Text
    pub shared : Shared

  unfoldable pub new_route_builder : State → RouteBuilder
  new_route_builder collector = record {
    prefix = [];
    shared = record { collector = collector; operation_ids = []; routes = [] };
  }

  -- `Route`: the callback works on a builder with the longer prefix, and the old prefix comes back
  unfoldable pub route : Text → (RouteBuilder → RouteBuilder) → RouteBuilder → RouteBuilder
  route path fn rb =
      let sub = fn (record { prefix = rb.prefix ++ path; shared = rb.shared }) in
      record { prefix = rb.prefix; shared = sub.shared }

  unfoldable pub request_info :
      Option RequestBodySpec → Result (RouteError Error) (Option RequestInfo)
  request_info none = ok none
  request_info (some body) = do
    fail_if (is_nil body.type) request_type_nil
    ok (
        some (record {
          type_name = [];
          type_value = body.type;
          description = [];
          examples_stringified = [];
          examples = body.examples;
        }))

  -- the specification with the fields that `add` fills
  unfoldable pub placed : Text → Text → RouteSpec → RouteSpec
  placed prefix path spec = record spec {
    local_path = path;
    full_path = sanitize_path (prefix ++ path);
  }

  abbrev pub route_info : RouteSpec → List ParameterInfo → Option RequestInfo → RouteInfo
  route_info spec parameters request = record {
    operation_id = spec.operation_id;
    method = spec.method;
    path = spec.full_path;
    summary = spec.summary;
    description = spec.description;
    group = spec.group;
    deprecated = spec.deprecated;
    request = request;
    parameters = parameters;
    responses = map response_info spec.responses;
  }

  module _ (is_digit : ℕ → Bool) where
    -- the checks of `add`, up to the call of the collector
    unfoldable pub check_route :
        RouteBuilder → Text → RouteSpec → Result (RouteError Error) RouteInfo
    check_route rb path spec = do
      fail_if (not (path == sanitize_path path)) (invalid_path path (sanitize_path path))
      let full = placed rb.prefix path spec
      fail_if (member spec.operation_id rb.shared.operation_ids)
          (duplicate_operation_id spec.operation_id)
      wrap invalid_spec (validate_route_spec full)
      parameters ← wrap invalid_parameters (generate_parameters is_digit full)
      request ← request_info spec.request_type
      ok (route_info full parameters request)

    -- the rest of `add`, on what the collector returned
    unfoldable pub store_route :
        RouteBuilder
        → RouteSpec
        → State × Result Error (Unit {0})
        → RouteBuilder × Result (RouteError Error) (Unit {0})
    store_route rb full (s, err e) =
        (record rb { shared = record rb.shared { collector = s } }, err (rejected_by_collector e))
    store_route rb full (s, ok _) = (
      record rb {
        shared = record {
          collector = s;
          operation_ids = full.operation_id ∷ rb.shared.operation_ids;
          routes =
              record { method = full.method; path = full.full_path; handler = full.handler }
              ∷ rb.shared.routes;
        };
      },
      ok tt,
    )

    unfoldable pub add :
        Text → RouteSpec → RouteBuilder → RouteBuilder × Result (RouteError Error) (Unit {0})
    add path spec rb = elim (check_route rb path spec) [
      | err e ↦ (rb, err e)
      | ok info ↦
          store_route rb (placed rb.prefix path spec) (register_route info rb.shared.collector)
    ]

    unfoldable pub get :
        Text → RouteSpec → RouteBuilder → RouteBuilder × Result (RouteError Error) (Unit {0})
    get path spec rb = add path (record spec { method = method_get }) rb

    unfoldable pub post :
        Text → RouteSpec → RouteBuilder → RouteBuilder × Result (RouteError Error) (Unit {0})
    post path spec rb = add path (record spec { method = method_post }) rb

    unfoldable pub put :
        Text → RouteSpec → RouteBuilder → RouteBuilder × Result (RouteError Error) (Unit {0})
    put path spec rb = add path (record spec { method = method_put }) rb

    unfoldable pub patch :
        Text → RouteSpec → RouteBuilder → RouteBuilder × Result (RouteError Error) (Unit {0})
    patch path spec rb = add path (record spec { method = method_patch }) rb

    unfoldable pub delete :
        Text → RouteSpec → RouteBuilder → RouteBuilder × Result (RouteError Error) (Unit {0})
    delete path spec rb = add path (record spec { method = method_delete }) rb

    -- the `Must` methods: `none` is the end of the program
    abbrev or_exit : RouteBuilder × Result (RouteError Error) (Unit {0}) → Option RouteBuilder
    or_exit (rb, ok _) = some rb
    or_exit (rb, err e) = none

    unfoldable pub must_get : Text → RouteSpec → RouteBuilder → Option RouteBuilder
    must_get path spec rb = or_exit (add path (record spec { method = method_get }) rb)

    unfoldable pub must_post : Text → RouteSpec → RouteBuilder → Option RouteBuilder
    must_post path spec rb = or_exit (add path (record spec { method = method_post }) rb)

    unfoldable pub must_put : Text → RouteSpec → RouteBuilder → Option RouteBuilder
    must_put path spec rb = or_exit (add path (record spec { method = method_put }) rb)

    unfoldable pub must_patch : Text → RouteSpec → RouteBuilder → Option RouteBuilder
    must_patch path spec rb = or_exit (add path (record spec { method = method_patch }) rb)

    unfoldable pub must_delete : Text → RouteSpec → RouteBuilder → Option RouteBuilder
    must_delete path spec rb = or_exit (add path (record spec { method = method_delete }) rb)
