-- ===== src/Api/Responses.antt =====
-- `GenerateResponses` of backend/internal/shared/api/api.go. The map of the responses is the list of
-- its entries; the JSON encoder gives the texts of the examples.
use go_http_mqtt_boilerplate.Prelude.{
  ℕ, ◌≡◌, refl, Bool, true, false, Option, none, some, is_some, List, [], ◌∷◌, ◌++◌, Text, codes,
  nat_eq, ◌==◌, if◌then◌else◌, arith,
}
use go_http_mqtt_boilerplate.Generate.Values.{Value, plain}
use go_http_mqtt_boilerplate.Router.Spec.{ResponseSpec}
use go_http_mqtt_boilerplate.Api.Context.{zero_uuid}
use go_http_mqtt_boilerplate.Api.Errors.{ErrorResponse}
use go_http_mqtt_boilerplate.Api.Handlers.{opaque_error, internal_server_error, service_unavailable}

module _ {V : Type 0} where
  -- responses[code], with `ok`
  unfoldable pub find : ℕ → List (ℕ × V) → Option V
  find code [] = none
  find code ((c, v) ∷ rest) = if c == code then some v else find code rest

  -- if _, exists := responses[code]; !exists { responses[code] = v }
  unfoldable pub add_missing : ℕ → V → List (ℕ × V) → List (ℕ × V)
  unfolding find
  add_missing code v responses =
      if is_some (find code responses) then responses else responses ++ (code, v) ∷ []

  find-append :
      (k code : ℕ) (v : V) (responses : List (ℕ × V))
      → find k (responses ++ (code, v) ∷ [])
        ≡ elim (find k responses) [ some w ↦ some w | none ↦ if code == k then some v else none ]
  unfolding find
  find-append k code v [] = refl
  find-append k code v ((c, w) ∷ rest) = ground (arith, find-append k code v rest)

  find-add_missing :
      (k code : ℕ) (v : V) (responses : List (ℕ × V))
      → find k (add_missing code v responses)
        ≡ elim (find k responses) [ some w ↦ some w | none ↦ if code == k then some v else none ]
  unfolding add_missing
  find-add_missing k code v responses = ground (arith, find-append k code v responses)

module _ (encode : ErrorResponse → Text) where
  abbrev pub error_value : Bool → ErrorResponse → Value
  error_value is_zero e = plain (record {
    name = codes "ErrorResponse";
    is_struct = true;
    is_zero = is_zero;
    json = encode e;
  })

  -- a response with an example under its own title
  abbrev pub standard : Text → Text → Text → ResponseSpec
  standard description title message = record {
    description = description;
    type = error_value true (opaque_error [] []);
    examples = (title, error_value false (opaque_error zero_uuid message)) ∷ [];
  }

  unfoldable pub too_large : ResponseSpec
  too_large =
      standard (codes "Request entity too large") (codes "Request Entity Too Large")
        (codes "Request body too large (max 1MB)")

  unfoldable pub internal_error : ResponseSpec
  internal_error = standard internal_server_error internal_server_error internal_server_error

  unfoldable pub unavailable : ResponseSpec
  unavailable = standard service_unavailable service_unavailable service_unavailable

  unfoldable pub generate_responses : List (ℕ × ResponseSpec) → List (ℕ × ResponseSpec)
  generate_responses responses =
      add_missing 503 unavailable
        (add_missing 500 internal_error (add_missing 413 too_large responses))

  -- the response that is documented for a status, if it is one of the three
  unfoldable pub standard_response : ℕ → Option ResponseSpec
  standard_response code =
      if code == 413
      then some too_large
      else if code == 500
      then some internal_error
      else if code == 503
      then some unavailable
      else none

  -- `GenerateResponses` keeps every response that is there, adds those of 413, 500 and 503 where they
  -- are missing, and no other.
  pub find-generate_responses :
      (code : ℕ) (responses : List (ℕ × ResponseSpec))
      → find code (generate_responses responses)
        ≡ elim (find code responses) [ some r ↦ some r | none ↦ standard_response code ]
  unfolding generate_responses standard_response
  find-generate_responses code responses = ground (
    arith,
    find-add_missing code 413 too_large responses,
    find-add_missing code 500 internal_error (add_missing 413 too_large responses),
    find-add_missing code 503 unavailable
        (add_missing 500 internal_error (add_missing 413 too_large responses)),
  )
