-- ===== src/Router/Parameters/Laws.antt =====
-- When `generateParameters` accepts the documented parameters of a route.
use go_http_mqtt_boilerplate.Prelude.{
  ℕ, ◌≡◌, ◌≢◌, Bool, true, false, List, [], ◌∷◌, Text, Map, member, text_eq_inst, ◌==◌, All,
}
use go_http_mqtt_boilerplate.Generate.Values.{is_nil}
use go_http_mqtt_boilerplate.Generate.DocTypes.{ParameterInfo}
use go_http_mqtt_boilerplate.Router.Spec.{ParameterSpec, parameter_in_path}
use go_http_mqtt_boilerplate.Router.Parameters.{is_valid_place, parameter_info, documented_names}

module _ (is_digit : ℕ → Bool) where
  abbrev pub IsIn : List Text → Text → Type 0
  IsIn names name = member name names ≡ true

  -- A parameter that may be documented, where `in_path` are the names in the path.
  pub record IsComplete (in_path : List Text) (entry : Text × ParameterSpec) : Type 0 where
    pub name : entry.0 ≢ []
    pub description : entry.1.description ≢ []
    pub type : is_nil entry.1.type ≡ false
    pub place : is_valid_place is_digit entry.1.place ≡ true
    pub known : (entry.1.place == parameter_in_path) ≡ true → member entry.0 in_path ≡ true
    pub required : (entry.1.place == parameter_in_path) ≡ true → entry.1.required ≡ true

  -- Every parameter is complete, and every name in the path is documented as a path parameter.
  pub record IsDocumented (in_path : List Text) (ps : Map ParameterSpec) : Type 0 where
    pub complete : All (IsComplete in_path) ps
    pub covered : All (IsIn (documented_names is_digit ps)) in_path

  abbrev pub infos_of : Map ParameterSpec → List ParameterInfo
  infos_of [] = []
  infos_of ((name, p) ∷ ps) = parameter_info is_digit name p ∷ infos_of ps
