-- ===== src/Utils/Tests.antt =====
-- The version and URLs on concrete texts.
use go_http_mqtt_boilerplate.Prelude.{
  ◌≡◌, refl, false, some, [], ◌∷◌, Text, codes, text_eq, text_eq_inst, ◌==◌, Result, ok, err, arith,
}
use go_http_mqtt_boilerplate.Generate.Extract.Comments.{trim_space, trim_left, trim_right}
use go_http_mqtt_boilerplate.Utils.Version.{
  Build, BuildInfo, IsShown, settings_of, get_vcs_info, get_vcs_info-IsShown,
}
use go_http_mqtt_boilerplate.Utils.Url.{
  UrlLibrary, IsFaithful, IsReadBack, marshal_json, unmarshal_json, unmarshal_json-marshal_json,
}

abbrev build : Build
build = record { version = codes "dev"; commit = codes "unknown"; build_time = codes "unknown" }

abbrev build_info : BuildInfo
build_info = record {
  go_version = codes "go1.26";
  settings = (codes "vcs.revision", codes "0123456789abcdef") ∷ [];
}

get_vcs_info-IsShown_example :
    IsShown build (settings_of (some build_info)) (get_vcs_info build (some build_info))
get_vcs_info-IsShown_example = get_vcs_info-IsShown build (some build_info)

abbrev behind : Text → Result (Unit {0}) Text
behind [] = err tt
behind (c ∷ s) = ok s

-- URLs with one scheme, and JSON without the closing quotes
abbrev url_library : UrlLibrary
url_library = record {
  Url = Text;
  ParseError = Unit {0};
  JsonError = Unit {0};
  parse = behind;
  show = λ u. b'h' ∷ u;
  encode = λ s. ok (b'"' ∷ s);
  decode = behind;
}

quoted-null : (s : Text) → (trim_space (b'"' ∷ s) == codes "null") ≡ false
unfolding trim_space trim_left trim_right text_eq
quoted-null s = refl

url_library-IsFaithful : IsFaithful url_library
url_library-IsFaithful = record {
  decoded = λ s json e. ground (arith, e);
  quoted = λ s json e. ground (arith, e, quoted-null s);
}

url-ok : marshal_json url_library (some (codes "ost")) ≡ ok (codes "\"host")
unfolding marshal_json
url-ok = refl

unmarshal_json-marshal_json_example :
    IsReadBack url_library (some (codes "ost")) (unmarshal_json url_library (codes "\"host"))
unmarshal_json-marshal_json_example =
    unmarshal_json-marshal_json url_library (some (codes "ost")) (codes "\"host")
      url_library-IsFaithful url-ok
