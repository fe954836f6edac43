-- ===== src/Api/Json.antt =====
-- `FromJSON` and `FromJSONStream` of backend/pkg/utils/json.go and `DecodeJSON` of
-- backend/internal/shared/api/api.go. The decoder of encoding/json, reading from a
-- `http.MaxBytesReader`, is a parameter: what its first `Decode` gives, and the error of its second
-- one, `none` for nil.
use go_http_mqtt_boilerplate.Prelude.{
  ℕ, ◌*◌, ◌+◌, ◌/◌, Option, none, some, Result, ok, err, [], ◌∷◌, ◌++◌, Text, codes, if◌then◌else◌,
  Bool, true, false, ◌&&◌, nat_eq, ◌==◌,
}
use go_http_mqtt_boilerplate.Api.Errors.{ErrorResponse, new_api_error}

abbrev pub max_body_size : ℕ
max_body_size = 1048576

-- An error by what `errors.As` and `errors.Is` find in it; numbers and fields are the decoder's texts.
pub data DecodeFailure : Type 0 where
  syntax : (offset : Text) → DecodeFailure
  unmarshal_type : (field : Text) → DecodeFailure
  eof unexpected_eof max_bytes extra_data : DecodeFailure
  other : (text : Text) → DecodeFailure

module _ {T : Type 0} where
  unfoldable pub from_json_stream :
      Result DecodeFailure T → Option DecodeFailure → Result DecodeFailure T
  from_json_stream (err e) second = err e
  from_json_stream (ok result) (some eof) = ok result
  from_json_stream (ok result) none = err extra_data
  from_json_stream (ok result) (some e) = err e

  -- `zero` is the zero value of the type, and `decoder` is the decoder on the data
  unfoldable pub from_json :
      T → (Text → Result DecodeFailure T × Option DecodeFailure) → Text → Result DecodeFailure T
  unfolding from_json_stream
  from_json zero decoder [] = ok zero
  from_json zero decoder (x ∷ bytes) = let d = decoder (x ∷ bytes) in from_json_stream d.0 d.1

-- strings.HasPrefix
unfoldable pub starts_with : Text → Text → Bool
starts_with s [] = true
starts_with [] (c ∷ prefix) = false
starts_with (x ∷ s) (c ∷ prefix) = x == c && starts_with s prefix

-- the number of megabytes has one digit
unfoldable pub decode_error : DecodeFailure → ErrorResponse
decode_error (syntax offset) =
    new_api_error 400 (codes "Invalid JSON syntax at position " ++ offset)
decode_error (unmarshal_type field) =
    new_api_error 400 (codes "Invalid type for field '" ++ field ++ codes "'")
decode_error eof = new_api_error 400 (codes "Request body is empty")
decode_error unexpected_eof = new_api_error 400 (codes "Malformed JSON")
decode_error max_bytes =
    new_api_error 413
      (codes "Request body too large (max " ++ ((48 + max_body_size / (1024 * 1024)) ∷ codes "MB)"))
decode_error extra_data = new_api_error 400 (codes "Request body contains multiple JSON objects")
decode_error (other text) =
    if starts_with text (codes "json: unknown field")
    then new_api_error 400 text
    else new_api_error 400 (codes "Invalid JSON payload")

module _ {T : Type 0} where
  -- `decoder limit body` is the decoder on the body behind a `http.MaxBytesReader` with the limit
  unfoldable pub decode_json :
      (ℕ → Text → Result DecodeFailure T × Option DecodeFailure) → Text → Result ErrorResponse T
  unfolding from_json_stream
  decode_json decoder body =
      let reads = decoder max_body_size body in
      elim (from_json_stream reads.0 reads.1) [ ok v ↦ ok v | err e ↦ err (decode_error e) ]

  -- A read ran into the limit of the body's size, in the first value or behind it.
  abbrev pub over_limit : Result DecodeFailure T × Option DecodeFailure → Bool
  over_limit (err max_bytes, second) = true
  over_limit (ok v, some max_bytes) = true
  over_limit _ = false
