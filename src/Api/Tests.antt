-- ===== src/Api/Tests.antt =====
-- Requests to "/api" and the JSON bodies on concrete inputs.
use go_http_mqtt_boilerplate.Prelude.{
  ℕ, ◌≡◌, ◌≢◌, inl, refl, Option, none, some, [], ◌∷◌, map, Text, codes, text_eq_inst, Result, ok,
  err, arith,
}
use go_http_mqtt_boilerplate.Api.Context.{zero_uuid, get_request_id_from_context}
use go_http_mqtt_boilerplate.Api.Writer.{Raw, wrap_response_writer, Wrapped, write}
use go_http_mqtt_boilerplate.Api.Writer.Laws.{
  header, body, apply_all, IsFaithful, sent_status, wrap_response_writer-IsFaithful,
  wrap_response_writer-informational,
}
use go_http_mqtt_boilerplate.Api.Errors.{ErrorResponse, new_api_error}
use go_http_mqtt_boilerplate.Api.Handlers.{
  Body, payload, error_body, http_error, internal, returned, panicked, done, HandlerFunc, serve_api,
  opaque_error, internal_server_error,
}
use go_http_mqtt_boilerplate.Api.Handlers.Failures.{
  answered, serve_api-http_error, serve_api-opaque,
}
use go_http_mqtt_boilerplate.Prelude.{true, false}
use go_http_mqtt_boilerplate.Generate.Interface.{noop_collector}
use go_http_mqtt_boilerplate.Mqtt.Builder.{Builder}
use go_http_mqtt_boilerplate.Api.Health.{health, health_status, health_response, serve_api-health}
use go_http_mqtt_boilerplate.Api.Json.{DecodeFailure, eof}
use go_http_mqtt_boilerplate.Api.Responses.{
  find, generate_responses, standard_response, find-generate_responses,
}

abbrev fresh_writer : Raw
fresh_writer = record { headers = []; calls = [] }

wrap_response_writer-IsFaithful_example : IsFaithful (
    apply_all
      (body (codes "{}") 2 ∷ header 404 ∷ header 500 ∷ [])
      (wrap_response_writer fresh_writer))
wrap_response_writer-IsFaithful_example =
    wrap_response_writer-IsFaithful (body (codes "{}") 2 ∷ header 404 ∷ header 500 ∷ [])
      fresh_writer refl (tt, (refl, (refl, tt)))

wrap_response_writer-informational_example :
    let done =
      write
        (codes "{}")
        2
        (apply_all (map header (103 ∷ 404 ∷ [])) (wrap_response_writer fresh_writer)) in
    (sent_status done.inner.calls ≡ some 200) × (done.status_code ≡ 103)
wrap_response_writer-informational_example =
    wrap_response_writer-informational 103 (404 ∷ []) (codes "{}") 2 fresh_writer refl refl

abbrev request_id : Text
request_id = codes "abc"

abbrev conflict : ErrorResponse
conflict = new_api_error 409 (codes "Team exists")

abbrev encodes : Body → Option Text
encodes _ = some (codes "{}")

abbrev counts : Text → ℕ
counts _ = 2

abbrev conflicting : HandlerFunc Wrapped
conflicting = λ ctx w. returned w (some (http_error conflict))

abbrev broken : HandlerFunc Wrapped
broken = λ ctx w. returned w (some (internal (codes "dial tcp: refused")))

abbrev crashing : HandlerFunc Wrapped
crashing = λ ctx w. panicked w

abbrev no_uuid : Result Text Text
no_uuid = err (codes "entropy")

request_id-ne-nil : request_id ≢ []
request_id-ne-nil = λ h. ground arith

serve_api-http_error_example :
    serve_api encodes counts request_id no_uuid 4 conflicting [] fresh_writer
    ≡ done (
        answered counts request_id 409
          (encodes (error_body (record conflict { request_id = zero_uuid })))
          [])
unfolding new_api_error
serve_api-http_error_example =
    serve_api-http_error encodes counts request_id no_uuid request_id 4 conflicting [] fresh_writer
      conflict (inl (refl, request_id-ne-nil)) refl (λ ctx w. refl)

serve_api-opaque_example :
    serve_api encodes counts request_id no_uuid 4 broken [] fresh_writer
    ≡ done (
        answered counts request_id 500
          (encodes (error_body (opaque_error zero_uuid internal_server_error)))
          [])
unfolding get_request_id_from_context
serve_api-opaque_example =
    serve_api-opaque encodes counts request_id no_uuid request_id 4 broken [] fresh_writer
      (inl (refl, request_id-ne-nil)) refl refl (inl (codes "dial tcp: refused", λ ctx w. refl))

abbrev refusal : ErrorResponse
refusal = new_api_error 400 (codes "Request body contains multiple JSON objects")

-- a decoder of one digit
abbrev digit_decoder : ℕ → Text → Result DecodeFailure ℕ × Option DecodeFailure
digit_decoder limit [] = (err eof, none)
digit_decoder limit (c ∷ []) = (ok c, some eof)
digit_decoder limit (c ∷ d ∷ rest) = (ok c, none)

abbrev encodes_error : ErrorResponse → Text
encodes_error e = e.message

find-generate_responses_example :
    find 500 (generate_responses encodes_error [])
    ≡ elim (find 500 []) [ some r ↦ some r | none ↦ standard_response encodes_error 500 ]
find-generate_responses_example = find-generate_responses encodes_error 500 []

abbrev builder : Builder noop_collector
builder = record {
  conn_mgr = none;
  client_conn_mgr = none;
  collector = tt;
  router = [];
  operation_ids = [];
  publications = [];
  subscriptions = [];
  connected = false;
  opts = record {
    broker_url = codes "mqtt://localhost";
    client_id = codes "server";
    username = [];
    password = [];
  };
  registrations_completed = false;
}

serve_api-health_example :
    serve_api encodes counts request_id no_uuid 4
      (health encodes counts (health_status noop_collector true builder))
      []
      fresh_writer
    ≡ done (
        answered counts request_id 503
          (encodes (payload (health_response (record { database = true; mqtt = false }))))
          [])
serve_api-health_example =
    serve_api-health encodes counts noop_collector builder true request_id no_uuid request_id 4 []
      fresh_writer (inl (refl, request_id-ne-nil)) refl
