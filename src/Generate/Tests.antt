-- ===== src/Generate/Tests.antt =====
-- The helpers of the generator on concrete paths.
mod Sources
mod Runs
use go_http_mqtt_boilerplate.Prelude.{
  ◌≡◌, ◌≢◌, ◌↔◌, List, [], ◌∷◌, Text, codes, contains, count, trim_suffix, ok, err, All, arith,
}
use go_http_mqtt_boilerplate.Generate.Sanitize.{sanitize_path, or_root}
use go_http_mqtt_boilerplate.Generate.Sanitize.Laws.{
  IsClean, collapse, sanitize_path-eq-collapse, sanitize_path-eq_self_iff, sanitize_path_idempotent,
}
use go_http_mqtt_boilerplate.Generate.Params.{extract_param_name, mismatched}
use go_http_mqtt_boilerplate.Generate.Params.Laws.{
  Piece, literal, placeholder, matcher, IsWellFormed, names, render, extract_param_name-render,
  extract_param_name-eq-err_iff,
}
use go_http_mqtt_boilerplate.Prelude.{refl, true, false, none, lookup}
use go_http_mqtt_boilerplate.Generate.Params.{is_ascii_letter_string}
use go_http_mqtt_boilerplate.Generate.DocTypes.{TypeInfo, object, RouteInfo}
use go_http_mqtt_boilerplate.Generate.Marks.{Types, http, is_used_by, mark_type_as_used_by}
use go_http_mqtt_boilerplate.Generate.Marks.Growth.{IsClosed, IsReached, Grows, SameRest, is_marked}
use go_http_mqtt_boilerplate.Generate.Marks.Closure.{mark_type_as_used_by-IsClosed}
use go_http_mqtt_boilerplate.Generate.Collector.{OpenApiCollector, check_operation_id}
use go_http_mqtt_boilerplate.Generate.Collector.Ids.{
  IsIndexed, IsFresh, route, register_operation, register_operation-IsIndexed,
  check_operation_id_iff,
}
use go_http_mqtt_boilerplate.Prelude.{member, text_eq, text_eq_inst}
use go_http_mqtt_boilerplate.Generate.Relations.{
  referenced_by_of, build_referenced_by, refers, build_referenced_by-inverse,
}
use go_http_mqtt_boilerplate.Generate.Values.{nil}
use go_http_mqtt_boilerplate.Generate.Usages.{build_used_by}
use go_http_mqtt_boilerplate.Generate.Usages.Laws.{used_keys, NoRepeats, build_used_by-exact}
use go_http_mqtt_boilerplate.Generate.Usages.Users.{is_used_as}

abbrev ragged : Text
ragged = codes "//api///team/"

sanitize_path-eq-collapse_example :
    sanitize_path ragged ≡ or_root (trim_suffix b'/' (collapse ragged))
sanitize_path-eq-collapse_example = sanitize_path-eq-collapse ragged

sanitize_path-eq_self_iff_example : (sanitize_path ragged ≡ ragged) ↔ IsClean ragged
sanitize_path-eq_self_iff_example = sanitize_path-eq_self_iff ragged

abbrev section : List Piece
section =
    literal (codes "v")
    ∷ placeholder (codes "id")
    ∷ literal (codes ".")
    ∷ matcher (codes "ext") (codes "[a-z]+")
    ∷ []

section-IsWellFormed : All IsWellFormed section
unfolding contains
section-IsWellFormed = ground arith

extract_param_name-render_example : extract_param_name (render section) ≡ ok (names section)
extract_param_name-render_example = extract_param_name-render section section-IsWellFormed

abbrev referring : Text → Text → TypeInfo
referring name reference = record {
  name = name;
  kind = object;
  description = [];
  deprecated = [];
  fields = [];
  enum_values = [];
  references = reference ∷ [];
  referenced_by = [];
  used_by = [];
  representations = record { json = []; json_schema = []; yaml_schema = []; go = []; ts = [] };
  used_by_http = false;
  used_by_mqtt = false;
  underlying_type = none;
}

-- two types that refer to each other
abbrev cycle : Types
cycle =
    (codes "Team", referring (codes "Team") (codes "User"))
    ∷ (codes "User", referring (codes "User") (codes "Team"))
    ∷ []

cycle-unmarked : (k : Text) → is_marked http k cycle ≡ false
unfolding is_marked lookup is_used_by
cycle-unmarked k = ground arith

cycle-IsClosed : IsClosed http cycle
unfolding IsClosed
cycle-IsClosed k h = ground (arith, cycle-unmarked k)

mark_type_as_used_by-IsClosed_example :
    IsClosed http (mark_type_as_used_by http (codes "Team") cycle)
    × IsReached http (mark_type_as_used_by http (codes "Team") cycle) (codes "Team")
    × Grows http cycle (mark_type_as_used_by http (codes "Team") cycle)
    × SameRest http cycle (mark_type_as_used_by http (codes "Team") cycle)
mark_type_as_used_by-IsClosed_example =
    mark_type_as_used_by-IsClosed http (codes "Team") cycle cycle-IsClosed

abbrev empty : OpenApiCollector
empty = record { types = cycle; http_ops = []; mqtt_publications = []; mqtt_subscriptions = [] }

empty-IsIndexed : IsIndexed empty
unfolding lookup
empty-IsIndexed = record {
  letters = λ k h. ground arith;
  http_publications = λ k. refl;
  http_subscriptions = λ k. refl;
  publications_subscriptions = λ k. refl;
}

abbrev get_team : RouteInfo
get_team = record {
  operation_id = codes "getTeam";
  method = codes "GET";
  path = codes "/api/team";
  summary = [];
  description = [];
  group = [];
  deprecated = [];
  request = none;
  parameters = [];
  responses = [];
}

register_operation-IsIndexed_example : IsIndexed (register_operation (route get_team) empty)
register_operation-IsIndexed_example =
    register_operation-IsIndexed (route get_team) empty empty-IsIndexed

abbrev unsorted : List Text → List Text
unsorted names = names

build_referenced_by-inverse_example :
    member (codes "Team") (referenced_by_of (codes "User") (build_referenced_by unsorted cycle))
    ≡ refers (codes "Team") (codes "User") cycle
unfolding lookup text_eq
build_referenced_by-inverse_example =
    build_referenced_by-inverse unsorted (λ k xs. refl) (codes "Team") (codes "User") cycle refl

abbrev used : OpenApiCollector
used = record empty {
  http_ops =
      (
        codes "getTeam",
        record get_team {
          responses =
              (
                200,
                record {
                  status_code = 200;
                  type_name = codes "Team";
                  type_value = nil;
                  description = [];
                  examples_stringified = [];
                  examples = [];
                },
              )
              ∷ [];
        },
      )
      ∷ [];
}

build_used_by-exact_example :
    (member (codes "getTeam:response") (used_keys (codes "Team") (build_used_by used).types)
      ≡ is_used_as (codes "getTeam:response") (codes "Team") used)
    × NoRepeats (used_keys (codes "Team") (build_used_by used).types)
unfolding lookup text_eq
build_used_by-exact_example =
    build_used_by-exact (codes "getTeam:response") (codes "Team") used (λ h. ground arith) refl
