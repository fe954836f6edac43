-- ===== src/Utils/Url.antt =====
-- backend/pkg/utils/url.go. net/url's parser and printer are parameters, as are the JSON encoder of a
-- string and the decoder of one. A `URL` is a pointer, which may be nil.
use go_http_mqtt_boilerplate.Prelude.{
  ◌≡◌, ◌≢◌, refl, sym, ◌∙◌, false, Option, none, some, [], ◌∷◌, Text, codes, text_eq_inst, ◌==◌,
  if◌then◌else◌, Result, ok, err, ◌>>=◌, wrap, arith,
}
use mathlib.Core.Path.{subst}
use go_http_mqtt_boilerplate.Generate.Extract.Comments.{trim_space}

-- What the code takes of net/url and of encoding/json.
pub record UrlLibrary : Type 1 where
  pub Url : Type 0
  pub ParseError : Type 0
  pub JsonError : Type 0
  pub parse : Text → Result ParseError Url
  pub show : Url → Text
  pub encode : Text → Result JsonError Text
  pub decode : Text → Result JsonError Text

module _ (lib : UrlLibrary) where
  pub data UrlError : Type 0 where
    bad_json : lib.JsonError → UrlError
    bad_url : lib.ParseError → UrlError

  unfoldable pub new_url : Text → Result lib.ParseError (Option lib.Url)
  new_url s = lib.parse s >>= λ u. ok (some u)

  unfoldable pub url_string : Option lib.Url → Text
  url_string none = []
  url_string (some u) = lib.show u

  unfoldable pub marshal_json : Option lib.Url → Result lib.JsonError Text
  unfolding url_string
  marshal_json none = lib.encode []
  marshal_json (some u) = lib.encode (url_string (some u))

  -- the URL of the decoded text
  unfoldable pub url_of_text : Text → Result UrlError (Option lib.Url)
  url_of_text [] = ok none
  url_of_text (c ∷ s) = wrap bad_url (lib.parse (c ∷ s)) >>= λ u. ok (some u)

  unfoldable pub unmarshal_json : Text → Result UrlError (Option lib.Url)
  unfolding trim_space url_of_text
  unmarshal_json data' =
      if trim_space data' == codes "null"
      then ok none
      else (wrap bad_json (lib.decode data') >>= λ s. url_of_text s)

-- What the code relies on of encoding/json: the JSON of a text, which is in quotes, decodes to the text.
pub record IsFaithful (lib : UrlLibrary) : Type 0 where
  pub decoded : (s json : Text) → lib.encode s ≡ ok json → lib.decode json ≡ ok s
  pub quoted : (s json : Text) → lib.encode s ≡ ok json → (trim_space json == codes "null") ≡ false

-- What is to be read back: nil for a nil URL and for one that is printed as the empty text, and
-- otherwise the URL that net/url parses from the printed text.
pub record IsReadBack (lib : UrlLibrary) (u : Option lib.Url)
    (read : Result (UrlError lib) (Option lib.Url)) : Type 0 where
  pub empty : url_string lib u ≡ [] → read ≡ ok none
  pub parsed :
      (v : lib.Url)
      → url_string lib u ≢ []
      → lib.parse (url_string lib u) ≡ ok v
      → read ≡ ok (some v)
  pub refused :
      (e : lib.ParseError)
      → url_string lib u ≢ []
      → lib.parse (url_string lib u) ≡ err e
      → read ≡ err (bad_url e)

url_of_text-IsReadBack :
    (lib : UrlLibrary) (u : Option lib.Url) (s : Text)
    → url_string lib u ≡ s
    → IsReadBack lib u (url_of_text lib s)
unfolding url_of_text
url_of_text-IsReadBack lib u [] e = record {
  empty = λ h. refl;
  parsed = λ v nonempty h. elim (nonempty e) [ ];
  refused = λ f nonempty h. elim (nonempty e) [ ];
}
url_of_text-IsReadBack lib u (c ∷ s) e = record {
  empty = λ h. ground (arith, e, h);
  parsed = λ v nonempty h. ground (arith, e, h);
  refused = λ f nonempty h. ground (arith, e, h);
}

marshal_json-encode :
    (lib : UrlLibrary) (u : Option lib.Url) → marshal_json lib u ≡ lib.encode (url_string lib u)
unfolding marshal_json url_string
marshal_json-encode lib none = refl
marshal_json-encode lib (some u) = refl

-- With encoding/json as documented, `UnmarshalJSON` reads from what `MarshalJSON` has written the URL
-- that net/url parses from the printed text, with its error if it refuses that text, and nil where
-- the text is empty: for the nil URL, but also for a URL that is printed as the empty text.
pub unmarshal_json-marshal_json :
    (lib : UrlLibrary) (u : Option lib.Url) (json : Text)
    → IsFaithful lib
    → marshal_json lib u ≡ ok json
    → IsReadBack lib u (unmarshal_json lib json)
unfolding unmarshal_json
unmarshal_json-marshal_json lib u json f h =
    let written = sym (marshal_json-encode lib u) ∙ h in
    let same : unmarshal_json lib json ≡ url_of_text lib (url_string lib u) = ground (
      arith,
      f.decoded (url_string lib u) json written,
      f.quoted (url_string lib u) json written,
    ) in
    subst (IsReadBack lib u) (sym same) (url_of_text-IsReadBack lib u (url_string lib u) refl)
