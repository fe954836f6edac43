-- ===== src/Router/Tests.antt =====
-- The routes of a team on a router without a collector.
use go_http_mqtt_boilerplate.Prelude.{
  List, Text, ◌≡◌, refl, true, none, some, [], ◌∷◌, codes, text_eq, split, ok,
}
use go_http_mqtt_boilerplate.Generate.Values.{Value, plain, is_nil}
use go_http_mqtt_boilerplate.Generate.Params.{
  is_ascii_digit, extract_param_name, is_valid_parameter_name,
}
use go_http_mqtt_boilerplate.Generate.Sanitize.{sanitize_path}
use go_http_mqtt_boilerplate.Generate.Interface.{noop_collector}
use go_http_mqtt_boilerplate.Router.Spec.{
  ParameterSpec, RouteSpec, parameter_in_path, method_get, validate_route_spec,
}
use go_http_mqtt_boilerplate.Router.Parameters.{
  path_names, check_names, generate_parameters, document_all, document, is_valid_place,
  check_documented,
}
use go_http_mqtt_boilerplate.Router.Builder.{
  RouteBuilder, add, check_route, store_route, placed, request_info,
}
use go_http_mqtt_boilerplate.Router.Builder.Laws.{IsSound, IsAdded, add-IsSound, add-ok}
use go_http_mqtt_boilerplate.Router.Builder.Groups.{inside, groups, IsGrouped, groups-IsGrouped}

abbrev team : Value
team = plain (record { name = codes "Team"; is_struct = true; is_zero = true; json = codes "{}" })

abbrev team_id : ParameterSpec
team_id = record {
  place = parameter_in_path;
  description = codes "The team";
  required = true;
  type = team;
}

abbrev get_team : RouteSpec
get_team = record {
  operation_id = codes "getTeam";
  handler = some 3;
  summary = codes "Get";
  description = codes "Gets a team";
  group = codes "Team";
  deprecated = [];
  request_type = none;
  responses = (200, record { description = codes "The team"; type = team; examples = [] }) ∷ [];
  parameters = (codes "teamID", team_id) ∷ [];
  local_path = codes "/{teamID}";
  full_path = codes "/api/{teamID}";
  method = method_get;
}

abbrev empty : RouteBuilder noop_collector
empty = record {
  prefix = codes "/api";
  shared = record { collector = tt; operation_ids = []; routes = [] };
}

empty-IsSound : IsSound noop_collector is_ascii_digit empty
empty-IsSound = record { routes = tt; distinct = tt; counted = refl }

get_team-accepted : (add noop_collector is_ascii_digit (codes "/{teamID}") get_team empty).1 ≡ ok tt
unfolding add check_route store_route placed sanitize_path text_eq validate_route_spec
    generate_parameters path_names split extract_param_name check_names is_valid_parameter_name
    document_all document is_valid_place check_documented request_info is_nil
get_team-accepted = refl

add-IsSound_example :
    IsSound noop_collector is_ascii_digit
      (add noop_collector is_ascii_digit (codes "/{teamID}") get_team empty).0
add-IsSound_example =
    add-IsSound noop_collector is_ascii_digit (codes "/{teamID}") get_team empty empty-IsSound

add-ok_example :
    IsAdded noop_collector is_ascii_digit
      (codes "/{teamID}")
      get_team
      empty
      (add noop_collector is_ascii_digit (codes "/{teamID}") get_team empty).0
add-ok_example =
    add-ok noop_collector is_ascii_digit (codes "/{teamID}") get_team empty get_team-accepted

abbrev team_groups : List Text
team_groups = codes "/v1" ∷ codes "/team" ∷ []

get_team-grouped :
    (add noop_collector is_ascii_digit
      (codes "/{teamID}")
      get_team
      (inside noop_collector is_ascii_digit team_groups empty)).1
    ≡ ok tt
unfolding add check_route store_route placed sanitize_path text_eq validate_route_spec
    generate_parameters path_names split extract_param_name check_names is_valid_parameter_name
    document_all document is_valid_place check_documented request_info is_nil
get_team-grouped = refl

groups-IsGrouped_example :
    IsGrouped noop_collector is_ascii_digit team_groups (codes "/{teamID}") get_team empty (
      groups noop_collector is_ascii_digit team_groups
        (λ sub. (add noop_collector is_ascii_digit (codes "/{teamID}") get_team sub).0)
        empty)
groups-IsGrouped_example =
    groups-IsGrouped noop_collector is_ascii_digit team_groups (codes "/{teamID}") get_team empty
      get_team-grouped
