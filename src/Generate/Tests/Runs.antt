-- ===== src/Generate/Tests/Runs.antt =====
-- From the types that were extracted to the document.
use go_http_mqtt_boilerplate.Prelude.{
  ℕ, ◌≡◌, refl, true, none, [], ◌∷◌, all, Text, codes, lookup, text_eq_inst, text_eq, ◌&&◌, ok,
  join, split, insert, is_ok,
}
use go_http_mqtt_boilerplate.Generate.Values.{
  Value, plain, extract_type_name, is_nil_or_nil_pointer, is_zero_value_struct, to_json_indent,
  type_name,
}
use go_http_mqtt_boilerplate.Generate.DocTypes.{RouteInfo}
use go_http_mqtt_boilerplate.Generate.Marks.{
  is_used_by, mark_each, mark_found, mark_type_as_used_by, mark_within, process_http_type,
  process_mqtt_message_type, process_mqtt_topic_parameter, process_value, register_examples,
  register_json_representation, stringify_examples, unmarked, use_by, with_representation,
}
use go_http_mqtt_boilerplate.Generate.Collector.{
  OpenApiCollector, check_operation_id, process_parameters, process_publication, process_request,
  process_responses, process_route, process_subscription, process_topic_parameters,
  register_mqtt_publication, register_mqtt_subscription, register_route,
  validate_operation_id_format, validate_unique_operation_id,
}
use go_http_mqtt_boilerplate.Generate.Collector.Ids.{route, register_operation}
use go_http_mqtt_boilerplate.Generate.OpenApi.Schema.{
  build_schema, ref_text, apply_deprecated, apply_nullable, build_field_schema,
  build_primitive_schema, create_schema_ref, validate_map_key_is_string,
}
use go_http_mqtt_boilerplate.Generate.OpenApi.Types.{
  add_fields, alias_of, alias_schema, build_alias_schema, build_enum_schema, build_object_schema,
  enum_schema_type, format_enum_value_description, schema_of_kind, set_property, to_open_api_schema,
}
use go_http_mqtt_boilerplate.Generate.OpenApi.Paths.{
  ApiInfo, Spec, generate_spec, add_paths, generate_open_api_spec, set_operation,
}
use go_http_mqtt_boilerplate.Generate.OpenApi.Dangling.{IsLinked}
use go_http_mqtt_boilerplate.Generate.OpenApi.Registered.{
  register_operations, new_collector, register_operations-IsLinked,
}
use go_http_mqtt_boilerplate.Generate.OpenApi.Complete.{
  components_buildable, is_route_documentable, generate_spec-is_ok,
}
use go_http_mqtt_boilerplate.Generate.Extract.Analyze.{
  primitive_type_mappings, analyze_external, analyze_ident, analyze_go_type, external_type_formats,
}
use go_http_mqtt_boilerplate.Generate.Extract.Comments.{
  parse_deprecation, extract_comments_from_doc, parse_json_tag, generate_display_type, comment_line,
  index, strip_prefix, tag_info, trim_left, trim_right, trim_space, trim_text,
}
use go_http_mqtt_boilerplate.Generate.Extract.Enums.{
  spec_type, process_value_spec, process_enum_value, collect_specs, const_value,
  extract_enums_from_const_block, process_names, store_enum_type, extract_const_declarations,
}
use go_http_mqtt_boilerplate.Generate.Extract.Files.{
  add_type_names, build_import_alias_map, extract_type_fields, first_pass, imported_name,
  package_identifier, process_specs, process_type_spec_fields, second_pass, trim_left_quotes,
  trim_right_quotes, extract_type_names, extract_all_types_from_go,
}
use go_http_mqtt_boilerplate.Generate.Extract.Fields.{
  extract_type_expr, extract_struct_type, extract_field_info, analyze_field, extract_alias,
  extract_field, extract_fields, extract_names, is_enum_kind,
}
use go_http_mqtt_boilerplate.Generate.Extract.Fields.{
  extract_type_expr, extract_struct_type, extract_field_info, analyze_field, extract_alias,
  extract_field, extract_fields, extract_names, is_enum_kind,
}
use go_http_mqtt_boilerplate.Generate.Extract.Names.{AreExtracted}
use go_http_mqtt_boilerplate.Generate.Extract.Passes.{extract_all_types_from_go-AreExtracted}
use go_http_mqtt_boilerplate.Generate.Extract.Documented.{
  AreExtracted-IsResolved, AreExtracted-unmarked, extract_all_types_from_go-IsLinked,
}
use go_http_mqtt_boilerplate.Generate.OpenApi.Document.{
  add_component_schemas, add_responses, build_component_schemas, build_json_content,
  build_operation, build_parameters, build_request_body, convert_examples, create_json_content,
  is_primitive_type, parameter_schema, response_content, schema_of_type,
}
use go_http_mqtt_boilerplate.Generate.Params.{all_letters, is_ascii_letter, is_ascii_letter_string}
use go_http_mqtt_boilerplate.Generate.Tests.Sources.{
  library, file, or_else, types, types-ok, complete, types-unnamed,
}

abbrev team : Value
team = plain (record { name = codes "Team"; is_struct = true; is_zero = true; json = codes "{}" })

abbrev get_team : RouteInfo
get_team = record {
  operation_id = codes "getTeam";
  method = codes "GET";
  path = codes "/team";
  summary = codes "Get";
  description = codes "Get a team";
  group = codes "Team";
  deprecated = [];
  request = none;
  parameters = [];
  responses =
      (
        200,
        record {
          status_code = 200;
          type_name = [];
          type_value = team;
          description = codes "The team";
          examples_stringified = [];
          examples = [];
        },
      )
      ∷ [];
}

abbrev api_info : ApiInfo
api_info = record { title = codes "API"; version = codes "1"; description = []; servers = [] }

abbrev itoa : ℕ → Text
itoa n = n ∷ []

abbrev collector : OpenApiCollector
collector = register_operations (route get_team ∷ []) (new_collector types)

spec : Spec
spec =
    or_else
      (record {
        openapi = [];
        title = [];
        version = [];
        description = [];
        servers = [];
        schemas = [];
        paths = [];
      })
      (generate_spec itoa api_info collector)

spec-ok : generate_spec itoa api_info collector ≡ ok spec
unfolding extract_all_types_from_go parse_deprecation extract_comments_from_doc join
    extract_const_declarations spec_type process_value_spec process_enum_value lookup insert text_eq
    extract_type_expr extract_struct_type extract_field_info parse_json_tag analyze_go_type
    primitive_type_mappings generate_display_type analyze_external analyze_ident comment_line index
    strip_prefix tag_info trim_left trim_right trim_space trim_text collect_specs const_value
    extract_enums_from_const_block process_names store_enum_type analyze_field extract_alias
    extract_field extract_fields extract_names is_enum_kind add_type_names build_import_alias_map
    extract_type_fields extract_type_names first_pass imported_name package_identifier process_specs
    process_type_spec_fields second_pass trim_left_quotes trim_right_quotes split types spec
    generate_spec register_operations check_operation_id process_parameters process_publication
    process_request process_responses process_route process_subscription process_topic_parameters
    register_mqtt_publication register_mqtt_subscription register_route validate_operation_id_format
    validate_unique_operation_id is_used_by mark_each mark_found mark_type_as_used_by mark_within
    process_http_type process_mqtt_message_type process_mqtt_topic_parameter process_value
    register_examples register_json_representation stringify_examples unmarked use_by
    with_representation add_component_schemas add_responses build_component_schemas
    build_json_content build_operation build_parameters build_request_body convert_examples
    create_json_content is_primitive_type parameter_schema response_content schema_of_type add_paths
    generate_open_api_spec set_operation add_fields alias_of alias_schema apply_deprecated
    apply_nullable build_alias_schema build_enum_schema build_field_schema build_object_schema
    build_primitive_schema create_schema_ref enum_schema_type format_enum_value_description
    schema_of_kind set_property to_open_api_schema validate_map_key_is_string all_letters
    is_ascii_letter is_ascii_letter_string extract_type_name is_nil_or_nil_pointer
    is_zero_value_struct to_json_indent type_name build_schema ref_text register_operation
spec-ok = refl

extract_all_types_from_go-IsLinked_example : IsLinked spec
extract_all_types_from_go-IsLinked_example =
    extract_all_types_from_go-IsLinked library (λ n names h. h) [] external_type_formats (file ∷ [])
      types itoa api_info (route get_team ∷ []) spec types-ok types-unnamed complete spec-ok

extracted : AreExtracted types
extracted =
    extract_all_types_from_go-AreExtracted library (λ n names h. h) [] external_type_formats
      (file ∷ []) types types-ok

register_operations-IsLinked_example : IsLinked spec
register_operations-IsLinked_example =
    register_operations-IsLinked itoa api_info types (route get_team ∷ []) spec
      (AreExtracted-IsResolved types extracted types-unnamed complete)
      (AreExtracted-unmarked types extracted) spec-ok

generate_spec-is_ok_example : is_ok (generate_spec itoa api_info collector) ≡ (
    components_buildable collector.types
    && all (λ (e : Text × RouteInfo). is_route_documentable collector.types e.1) collector.http_ops)
generate_spec-is_ok_example = generate_spec-is_ok itoa api_info collector
