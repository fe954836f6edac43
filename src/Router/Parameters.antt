-- ===== src/Router/Parameters.antt =====
-- `generateParameters` of backend/pkg/router/helpers.go. The sets of names are lists; the map of
-- documented parameters is a list in the order in which its `range` visits it.
pub mod Laws
use go_http_mqtt_boilerplate.Prelude.{
  ℕ, Bool, not, ◌&&◌, ◌||◌, List, [], ◌∷◌, ◌++◌, Text, Map, split, member, text_eq_inst, ◌==◌,
  if◌then◌else◌, Result, ok, ◌>>=◌, ◌>>◌, fail_if, wrap,
}
use go_http_mqtt_boilerplate.Generate.Params.{
  ParamError, extract_param_name, is_valid_parameter_name,
}
use go_http_mqtt_boilerplate.Generate.Values.{is_nil}
use go_http_mqtt_boilerplate.Generate.DocTypes.{ParameterInfo}
use go_http_mqtt_boilerplate.Mqtt.Topic.{is_empty}
use go_http_mqtt_boilerplate.Router.Spec.{
  ParameterSpec, RouteSpec, parameter_in_path, parameter_in_query, parameter_in_header,
}

pub data ParameterError : Type 0 where
  invalid_path : ParamError → ParameterError
  invalid_name : Text → ParameterError
  name_required description_required type_required bad_place : ParameterError
  not_in_path not_required not_documented : Text → ParameterError

module _ (is_digit : ℕ → Bool) where
  -- the check of each name that a section gives
  unfoldable pub check_names : List Text → Result ParameterError (Unit {0})
  check_names [] = ok tt
  check_names (name ∷ names) = do
    fail_if (not (is_valid_parameter_name is_digit name)) (invalid_name name)
    check_names names

  -- the first loop
  unfoldable pub path_names : List Text → Result ParameterError (List Text)
  path_names [] = ok []
  path_names (section ∷ sections) = do
    names ← wrap invalid_path (extract_param_name section)
    check_names names
    rest ← path_names sections
    ok (names ++ rest)

  -- slices.Contains(validInValues, paramSpec.In)
  unfoldable pub is_valid_place : Text → Bool
  is_valid_place place =
      place == parameter_in_path || place == parameter_in_query || place == parameter_in_header

  abbrev pub parameter_info : Text → ParameterSpec → ParameterInfo
  parameter_info name p = record {
    name = name;
    place = p.place;
    type_name = [];
    type_value = p.type;
    description = p.description;
    required = p.required;
  }

  -- one round of the second loop
  unfoldable pub document : List Text → Text → ParameterSpec → Result ParameterError ParameterInfo
  document in_path name p = do
    fail_if (is_empty name) name_required
    fail_if (is_empty p.description) description_required
    fail_if (is_nil p.type) type_required
    fail_if (not (is_valid_place p.place)) bad_place
    fail_if (p.place == parameter_in_path && not (member name in_path)) (not_in_path name)
    fail_if (p.place == parameter_in_path && not p.required) (not_required name)
    ok (parameter_info name p)

  unfoldable pub document_all :
      List Text → Map ParameterSpec → Result ParameterError (List ParameterInfo)
  document_all in_path [] = ok []
  document_all in_path ((name, p) ∷ ps) = do
    info ← document in_path name p
    rest ← document_all in_path ps
    ok (info ∷ rest)

  -- documentedPathParams
  abbrev pub documented_names : Map ParameterSpec → List Text
  documented_names [] = []
  documented_names ((name, p) ∷ ps) =
      let rest = documented_names ps in if p.place == parameter_in_path then name ∷ rest else rest

  -- the last loop
  unfoldable pub check_documented : List Text → List Text → Result ParameterError (Unit {0})
  check_documented documented [] = ok tt
  check_documented documented (name ∷ names) = do
    fail_if (not (member name documented)) (not_documented name)
    check_documented documented names

  unfoldable pub generate_parameters : RouteSpec → Result ParameterError (List ParameterInfo)
  generate_parameters spec = do
    in_path ← path_names (split b'/' spec.full_path)
    parameters ← document_all in_path spec.parameters
    check_documented (documented_names spec.parameters) in_path
    ok parameters
